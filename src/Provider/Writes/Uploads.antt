-- ===== src/Provider/Writes/Uploads.antt =====
-- src/immich_bridge/webdav_provider.py: a `PUT`, from the first byte staged to the receipt.
use immich_bridge.Prelude.{
  append_assoc, append_nil, ℕ, ◌+◌, ◌≤◌, String, ◌≡◌, ◌≢◌, inl, inr, refl, sym, ap, ◌∙◌, Bool, true,
  false, Option, none, some, List, [], ◌∷◌, ◌++◌, length, length-append, arith, Option-cases,
}
use immich_bridge.Json.{Fields, pos}
use immich_bridge.Provider.{
  Result, ok, raise, run_fs, upload_receipt, Receipt, Environ, Provider, present_key,
}
use immich_bridge.Provider.Settings.{upload_receipt_resource, remember_upload_receipt}
use immich_bridge.Provider.Settings.Receipts.{receipt_remembered, receipt_key-present}
use immich_bridge.Provider.Writes.{
  id_of, client, add_to_album, remember, record_upload, register_upload, upload_staged,
  upload_or_raise, finish, end_write, or_octet_stream,
}
use immich_bridge.Provider.Resolve.{get_resource_inst}
use immich_bridge.Provider.Resolve.Receipts.{IsUnclaimed, receipt_answers}
use immich_bridge.Provider.Requests.{
  Request, upload_asset, add_asset_to_album, Platform, World, Step, ◌>>=◌, done, give, send,
}
use immich_bridge.Provider.Staging.{Upload, UploadSink, begin_write, write, writelines, close}

-- The chunks of a body, joined.
abbrev pub joined : List (List ℕ) → List ℕ
joined [] = []
joined (chunk ∷ chunks) = chunk ++ joined chunks

-- A sink that holds `bytes` of an upload, as yet open.
staging : Upload → List ℕ → Upload × UploadSink
staging u bytes =
    (record u { temp = some bytes }, record { written = length bytes; closed = false })

writelines-staging :
    (u : Upload) (bytes : List ℕ) (lines : List (List ℕ))
    → writelines lines (staging u bytes) ≡ staging u (bytes ++ joined lines)
unfolding writelines write staging
writelines-staging u bytes [] = ap (staging u) (sym (append_nil bytes))
writelines-staging u bytes (line ∷ lines) =
    ap (writelines lines) step
    ∙ writelines-staging u (bytes ++ line) lines
    ∙ ap (staging u) (append_assoc bytes line (joined lines))
  where
    step : write line (staging u bytes) ≡ staging u (bytes ++ line)
    step = ground (arith, length-append bytes line)

-- The upload after its body was written in chunks and its sink closed.
pub staged : Platform → Option String → List (List ℕ) → Upload → Upload
staged platform content_type chunks u =
    (close (writelines chunks (begin_write platform content_type u))).0

-- The same with the body in one piece.
whole : Platform → Option String → List (List ℕ) → Upload → Upload
whole platform content_type chunks u = record u {
  content_type = elim (present_key content_type) [
    | none ↦ platform.guess_type u.filename
    | some t ↦ some t
  ];
  temp = some (joined chunks);
  bytes_written = length (joined chunks);
}

staged-whole :
    (platform : Platform) (content_type : Option String) (chunks : List (List ℕ)) (u : Upload)
    → staged platform content_type chunks u ≡ whole platform content_type chunks u
unfolding staged close begin_write whole staging
staged-whole platform content_type chunks u =
    ap (λ state. (close state).0)
      (writelines-staging
        (record u {
          content_type = elim (present_key content_type) [
            | none ↦ platform.guess_type u.filename
            | some t ↦ some t
          ];
        })
        [] chunks)

-- However its body is cut into chunks, the staged file is the chunks joined, the length
-- that the resource reports is the file's, and the target is unchanged.
pub staged_bytes :
    (platform : Platform) (content_type : Option String) (chunks : List (List ℕ)) (u : Upload)
    → ((staged platform content_type chunks u).temp ≡ some (joined chunks))
      × ((staged platform content_type chunks u).bytes_written ≡ length (joined chunks))
      × ((staged platform content_type chunks u).path ≡ u.path)
      × ((staged platform content_type chunks u).filename ≡ u.filename)
      × ((staged platform content_type chunks u).album_id ≡ u.album_id)
unfolding whole
staged_bytes platform content_type chunks u =
    rw (staged-whole platform content_type chunks u) (refl, refl, refl, refl, refl)

-- A sequence that succeeds succeeds at each step.
bind_inv :
    {A B : Type 0} (m : Step A) (f : A → Step B) (w w' : World) (b : B)
    → (m >>= f) w ≡ (ok b, w')
    → (a : A) × (w1 : World) × (m w ≡ (ok a, w1)) × (f a w1 ≡ (ok b, w'))
bind_inv {A} {B} m f w w' b h = go (m w) refl h
  where
    go :
        (r : Result A × World)
        → m w ≡ r
        → elim r.0 [ ok a ↦ f a r.1 | raise e ↦ (raise e, r.1) ] ≡ (ok b, w')
        → (a : A) × (w1 : World) × (m w ≡ (ok a, w1)) × (f a w1 ≡ (ok b, w'))
    go (ok a, w1) e h' = (a, w1, e, h')
    go (raise x, w1) e h' = absurd (ground arith)

module _ (p : Provider) (platform : Platform) (env : Environ) where
  cleaned-finish :
      (u : Upload) (r : Result Fields × World) → (finish p platform env true u r).1.temp ≡ none
  unfolding finish
  cleaned-finish u (ok payload, w) = refl
  cleaned-finish u (raise e, w) = refl

  kept-finish :
      (u : Upload) (r : Result Fields × World) → (finish p platform env false u r).1.temp ≡ u.temp
  unfolding finish
  kept-finish u (ok payload, w) = refl
  kept-finish u (raise e, w) = refl

  -- The outcome and the world, without the upload.
  abbrev pub outcome : Result Bool × Upload × World → Result Bool × World
  outcome (r, u, w) = (r, w)

  same_outcome :
      (u : Upload) (r : Result Fields × World)
      → outcome (finish p platform env false u r) ≡ outcome (finish p platform env true u r)
  unfolding finish
  same_outcome u (ok payload, w) = refl
  same_outcome u (raise e, w) = refl

  -- After end_write, whether the upload succeeded, raised or had errors: if the deletion of the staged
  -- file works, the file is gone, and if it fails with an OSError, the file is left, and the
  -- outcome, the cache and what was asked of Immich are the same as with a deletion that
  -- works. A write with errors asks Immich for nothing and leaves the cache.
  pub end_write_cleans :
      (now : ℕ) (created_at : String) (unlinked with_errors : Bool) (u : Upload) (w : World)
      → ((end_write p platform env now created_at true with_errors u w).1.temp ≡ none)
        × ((end_write p platform env now created_at false with_errors u w).1.temp ≡ u.temp)
        × (outcome (end_write p platform env now created_at false with_errors u w)
            ≡ outcome (end_write p platform env now created_at true with_errors u w))
        × ((end_write p platform env now created_at unlinked true u w).2 ≡ w)
  unfolding end_write
  end_write_cleans now created_at unlinked true u w = (refl, refl, refl, refl)
  end_write_cleans now created_at unlinked false u w =
      let r = upload_or_raise p platform env now created_at u w in
      (cleaned-finish u r, kept-finish u r, same_outcome u r, refl)

  key_of_client : (key : String) → client env ≡ ok key → present_key env.api_key ≡ some key
  unfolding client
  key_of_client key h = elim (Option-cases (present_key env.api_key)) [
    | inl e ↦ absurd (ground arith)
    | inr e ↦ ground arith
  ]

  -- The receipt of an upload.
  abbrev pub receipt_of : Upload → List ℕ → String → Receipt
  receipt_of u bytes asset_id = record {
    asset_id = asset_id;
    filename = u.filename;
    content_type = some (or_octet_stream u.content_type);
    size = some (pos (length bytes));
  }

  -- What an upload that succeeded has done.
  pub record IsUploaded (now : ℕ) (created_at : String) (u : Upload) (bytes : List ℕ)
      (payload : Fields) (w w' : World) : Type 0 where
    pub asset_id : String
    pub identified : id_of p payload ≡ ok asset_id
    pub answered :
        run_fs (platform.answer w.requests (upload_asset u.filename u.content_type bytes))
        ≡ ok payload
    pub key : String
    pub has_key : client env ≡ ok key
    pub remembered :
        w'.cache
        ≡ remember_upload_receipt p now u.path env (receipt_of u bytes asset_id) created_at w.cache

  send-cache : (request : Request) (w : World) → (send platform request w).1.cache ≡ w.cache
  unfolding send
  send-cache request w = refl

  add_to_album-cache :
      (to_album : Option String) (asset_id : String) (w : World)
      → (add_to_album p platform env to_album asset_id w).1.cache ≡ w.cache
  unfolding add_to_album
  add_to_album-cache none asset_id w = refl
  add_to_album-cache (some i) asset_id w = send-cache (add_asset_to_album i asset_id) w

  ok-injective : {A : Type 0} {a b : A} → ok a ≡ ok b → a ≡ b
  ok-injective e = ground arith

  record_upload-cache :
      (now : ℕ) (created_at : String) (u : Upload) (bytes : List ℕ) (payload : Fields)
      (asset_id : String) (w w' : World) (result : Fields)
      → record_upload p platform env now created_at u bytes payload asset_id w ≡ (ok result, w')
      → (w'.cache
          ≡ remember_upload_receipt p now u.path env
              (receipt_of u bytes asset_id)
              created_at
              w.cache)
        × (payload ≡ result)
  unfolding record_upload remember
  record_upload-cache now created_at u bytes payload asset_id w w' result h =
      let (added, w1, e, h1) =
        bind_inv (add_to_album p platform env u.album_id asset_id)
          (λ _. remember p platform env now u.path (receipt_of u bytes asset_id) created_at >>= λ _.
            done payload)
          w w' result h in
      (
        ap (λ r. r.1.cache) (sym h1)
            ∙ ap (remember_upload_receipt p now u.path env (receipt_of u bytes asset_id) created_at)
                (ap (λ r. r.1.cache) (sym e) ∙ add_to_album-cache u.album_id asset_id w),
        ok-injective (ap (λ r. r.0) h1),
      )

  upload_staged-IsUploaded :
      (now : ℕ) (created_at : String) (u : Upload) (bytes : List ℕ) (w w' : World)
      (payload : Fields)
      → upload_staged p platform env now created_at u bytes w ≡ (ok payload, w')
      → IsUploaded now created_at u bytes payload w w'
  unfolding upload_staged register_upload send
  upload_staged-IsUploaded now created_at u bytes w w' payload h =
      let request = upload_asset u.filename u.content_type bytes in
      let registered = register_upload p platform env now created_at u bytes in
      let (key, w1, e1, h1) =
        bind_inv (give (client env)) (λ _. send platform request >>= registered) w w' payload h in
      let (answer, w2, e2, h2) = bind_inv (send platform request) registered w1 w' payload h1 in
      let (asset_id, w3, e3, h3) =
        bind_inv (give (id_of p answer))
          (record_upload p platform env now created_at u bytes answer) w2 w' payload h2 in
      let (remembered, same) =
        record_upload-cache now created_at u bytes answer asset_id w3 w' payload h3 in
      record {
        asset_id = asset_id;
        identified = ap (id_of p) (sym same) ∙ ap (λ r. r.0) e3;
        answered =
            ap (λ (x : World). run_fs (platform.answer x.requests request)) (ap (λ r. r.1) e1)
            ∙ ap (λ r. r.0) e2
            ∙ ap ok same;
        key = key;
        has_key = ap (λ r. r.0) e1;
        remembered =
            remembered
            ∙ ap (remember_upload_receipt p now u.path env (receipt_of u bytes asset_id) created_at)
                (ap (λ r. r.1.cache) (sym e3)
                  ∙ ap (λ r. r.1.cache) (sym e2)
                  ∙ ap (λ r. r.1.cache) (sym e1));
      }

  finish_inv :
      (unlinked : Bool) (u u' : Upload) (r : Result Fields × World) (w' : World)
      → finish p platform env unlinked u r ≡ (ok true, u', w')
      → (payload : Fields) × (r ≡ (ok payload, w')) × (u'.uploaded_payload ≡ some payload)
  unfolding finish
  finish_inv unlinked u u' (ok payload, w) w' h =
      (payload, ap (λ r. (ok payload, r.2)) h, ap (λ r. r.1.uploaded_payload) (sym h))
  finish_inv unlinked u u' (raise e, w) w' h = absurd (ground arith)

  upload_or_raise-staged :
      (now : ℕ) (created_at : String) (u : Upload) (w : World) (bytes : List ℕ)
      → u.temp ≡ some bytes
      → upload_or_raise p platform env now created_at u w
        ≡ upload_staged p platform env now created_at u bytes w
  unfolding upload_or_raise
  upload_or_raise-staged now created_at u w bytes h = ground arith

  -- What an upload that succeeded leaves at its path: the receipt of the asset that Immich made of the
  -- staged bytes.
  pub record HasReceipt (later : ℕ) (u u' : Upload) (w w' : World) (bytes : List ℕ) : Type 0 where
    pub payload : Fields
    pub kept : u'.uploaded_payload ≡ some payload
    pub answered :
        run_fs (platform.answer w.requests (upload_asset u.filename u.content_type bytes))
        ≡ ok payload
    pub asset_id : String
    pub identified : id_of p payload ≡ ok asset_id
    pub opens :
        (get_resource_inst p env later u.path w'.cache).0
        ≡ ok (some (upload_receipt u.path (receipt_of u bytes asset_id)))

  -- With a positive time to live for receipts: when a `PUT` of a staged file succeeds at a path that
  -- nothing but a receipt can answer, Immich answered the upload of the staged bytes, and for
  -- as long as the receipt lives the path opens as the receipt that has the id of Immich's
  -- answer and the name, the type and the length of what was staged. Whether the deletion of the
  -- staged file works makes no difference.
  pub uploaded_then_found :
      (now later : ℕ) (created_at : String) (unlinked : Bool) (u u' : Upload) (w w' : World)
      (bytes : List ℕ)
      → u.temp ≡ some bytes
      → p.upload_receipt_ttl_seconds ≢ 0
      → later ≤ now + p.upload_receipt_ttl_seconds
      → IsUnclaimed p env u.path
      → end_write p platform env now created_at unlinked false u w ≡ (ok true, u', w')
      → HasReceipt later u u' w w' bytes
  unfolding end_write
  uploaded_then_found now later created_at unlinked u u' w w' bytes staged_file ttl live free h =
      let (payload, e, kept) =
        finish_inv unlinked u u' (upload_or_raise p platform env now created_at u w) w' h in
      let up =
        upload_staged-IsUploaded now created_at u bytes w w' payload
          (sym (upload_or_raise-staged now created_at u w bytes staged_file) ∙ e) in
      let (key, k) = receipt_key-present p u.path env up.key (key_of_client up.key up.has_key) in
      record {
        payload = payload;
        kept = kept;
        answered = up.answered;
        asset_id = up.asset_id;
        identified = up.identified;
        opens = receipt_answers p env u.path later w'.cache _ free (
            ap (λ c. (upload_receipt_resource p later u.path env c).0) up.remembered
            ∙ receipt_remembered p now later u.path env (receipt_of u bytes up.asset_id) created_at
                w.cache key k ttl live);
      }
