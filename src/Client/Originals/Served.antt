-- ===== src/Client/Originals/Served.antt =====
-- src/immich_bridge/immich_client.py, `open_original`: the streams that are opened for a range.
use immich_bridge.Prelude.{
  ℕ, ◌+◌, ◌-◌, ◌≡◌, refl, sym, ap, ◌∙◌, length, true, inl, inr, String, false, Option, none, some,
  List, ◌++◌, take, drop, arith, Bool-cases, Option-cases,
}
use immich_bridge.Json.{pos}
use immich_bridge.BlobDisk.{Disk, CachedByteRange}
use immich_bridge.BlobCache.{BlobCache, cacheable, get}
use immich_bridge.Service.{Answer, found, api_error, truncated, other_error, unfinished}
use immich_bridge.Client.Streams.{Response, joined}
use immich_bridge.Client.Originals.{
  Opening, no_response, body_bytes, server_stream, response, Originals, Storage, range_header,
  accepted, read_body, Opened, from_cache, from_server, range_stream, open_original_response,
  range_of, keep_range, after_look, open_cached_range, or_uncached, open_uncached, open_original,
  wrapped,
}

-- The bytes of a file from `start` up to `end`, both included.
abbrev pub slice : List ℕ → ℕ → ℕ → List ℕ
slice file start end = take (end + 1 - start) (drop start file)

-- The bytes that reads of an open stream give, from its position on.
abbrev pub bytes_left : Opened → List ℕ
bytes_left (from_cache st) = drop (st.position - st.start) st.content
bytes_left (from_server st) = st.buffer ++ joined st.rest.chunks

abbrev pub offset_of : Opened → ℕ
offset_of (from_cache st) = st.position
offset_of (from_server st) = st.position

-- The stream was opened at the start of the range, and holds its bytes.
pub record IsOpenAt (start : ℕ) (bytes : List ℕ) (r : Answer Opened) : Type 0 where
  pub opened : Opened
  pub is_found : r ≡ found opened
  pub at_start : offset_of opened ≡ start
  pub holds : bytes_left opened ≡ bytes

module _ (c : Originals) (t : Storage) (asset_id : String) (start end : ℕ) (body : Response) where
  -- Immich honors the request for the range.
  abbrev pub Honored : Type 0
  Honored = c.send asset_id (range_header (some start) (some end)) ≡ response 206 body

  honored_response :
      Honored → open_original_response c asset_id (some start) (some end) ≡ found body
  unfolding open_original_response accepted range_header
  honored_response h = rw h refl

  server_opens :
      (bytes : List ℕ)
      → Honored
      → joined body.chunks ≡ bytes
      → IsOpenAt start bytes (open_uncached c asset_id (some start) (some end))
  unfolding open_uncached
  server_opens bytes h e =
      rw (open_uncached, honored_response h)
        (record { opened = _; is_found = refl; at_start = refl; holds = e })

  range_opens :
      (stop : ℕ) (bytes data_read : List ℕ)
      → data_read ≡ bytes
      → IsOpenAt start bytes (found (from_cache (range_stream start stop data_read)))
  unfolding range_stream
  range_opens stop bytes data_read e = record {
    opened = from_cache (range_stream start stop data_read);
    is_found = refl;
    at_start = refl;
    holds = (let z : start - start ≡ 0 = omega arith in rw z e);
  }

  looked_opens :
      (cache : BlobCache) (bytes : List ℕ) (p : Option CachedByteRange × Disk)
      → Honored
      → body.breaks ≡ false
      → joined body.chunks ≡ bytes
      → ((hit : CachedByteRange) → p.0 ≡ some hit → hit.bytes ≡ bytes)
      → IsOpenAt start bytes
          (or_uncached c asset_id start end
            (wrapped c (after_look c cache t asset_id start end p))).0
  unfolding or_uncached after_look keep_range read_body
  looked_opens cache bytes (some hit, disk) h whole e faithful =
      range_opens (end + 1) bytes hit.bytes (faithful hit refl)
  looked_opens cache bytes (none, disk) h whole e faithful =
      rw (honored_response h, whole) (range_opens _ bytes (joined body.chunks) e)

  -- If Immich honors the request for a byte range with the file's bytes, and what the blob cache
  -- has for the range, if it has anything, are the file's bytes too, then open_original succeeds, and
  -- the stream stands at the start of the range and holds exactly the bytes of the range, whether
  -- it comes from the cache, was read to be cached, or is a response of Immich.
  pub open_original-IsOpenAt :
      (file : List ℕ) (disk : Disk)
      → Honored
      → body.breaks ≡ false
      → joined body.chunks ≡ slice file start end
      → ((cache : BlobCache) (hit : CachedByteRange)
          → c.blob_cache ≡ some cache
          → (get cache t.looked t.renewed (range_of c asset_id start end) disk).0 ≡ some hit
          → hit.bytes ≡ slice file start end)
      → IsOpenAt start
          (slice file start end)
          (open_original c t asset_id (some start) (some end) disk).0
  unfolding open_original open_cached_range or_uncached
  open_original-IsOpenAt file disk h whole e faithful = elim (Option-cases c.blob_cache) [
    | inl off ↦ rw off (server_opens (slice file start end) h e)
    | inr (cache, on) ↦ elim (Bool-cases (cacheable cache (pos start) (pos end))) [
      | inl ok ↦
          rw (on, ok)
            (looked_opens cache (slice file start end)
              (get cache t.looked t.renewed (range_of c asset_id start end) disk) h whole e
              (λ hit. faithful cache hit on))
      | inr skip ↦ rw (on, skip) (server_opens (slice file start end) h e)
    ]
  ]

-- A stream that was opened for a range, by where its bytes come from: the blob cache had the range, or
-- Immich answered the request for the range with 206, the status of a partial answer.
pub data IsFrom (c : Originals) (t : Storage) (asset_id : String) (start end : ℕ) (disk : Disk)
    (opened : Opened) : Type 0 where
  cached_at :
      (cache : BlobCache) (hit : CachedByteRange)
      → c.blob_cache ≡ some cache
      → (get cache t.looked t.renewed (range_of c asset_id start end) disk).0 ≡ some hit
      → offset_of opened ≡ start
      → bytes_left opened ≡ hit.bytes
      → IsFrom c t asset_id start end disk opened
  answered_at :
      (body : Response)
      → c.send asset_id (range_header (some start) (some end)) ≡ response 206 body
      → offset_of opened ≡ start
      → bytes_left opened ≡ joined body.chunks
      → IsFrom c t asset_id start end disk opened

accepted_inv :
    (o : Opening) (body : Response) → accepted true o ≡ found body → o ≡ response 206 body
unfolding accepted
accepted_inv no_response body h = absurd (ground arith)
accepted_inv (response status b) body h = ground arith

found-injective : {A : Type 0} {a b : A} → found a ≡ found b → a ≡ b
found-injective e = ground arith

module _ (c : Originals) (t : Storage) (asset_id : String) (start end : ℕ) where
  stream_start :
      (stop : ℕ) (bytes : List ℕ) → offset_of (from_cache (range_stream start stop bytes)) ≡ start
  unfolding range_stream
  stream_start stop bytes = refl

  response_inv :
      (body : Response)
      → open_original_response c asset_id (some start) (some end) ≡ found body
      → c.send asset_id (range_header (some start) (some end)) ≡ response 206 body
  unfolding open_original_response range_header
  response_inv body h = accepted_inv _ body h

  answered-IsFrom :
      (disk : Disk) (opened : Opened) (body : Response)
      → open_original_response c asset_id (some start) (some end) ≡ found body
      → found (server_stream c (some start) (some end) body) ≡ found opened
      → IsFrom c t asset_id start end disk opened
  answered-IsFrom disk opened body e h =
      let same : server_stream c (some start) (some end) body ≡ opened = found-injective h in
      answered_at body (response_inv body e) (ap offset_of (sym same)) (ap bytes_left (sym same))

  server_inv :
      (disk : Disk) (opened : Opened) (a : Answer Response)
      → open_original_response c asset_id (some start) (some end) ≡ a
      → open_uncached c asset_id (some start) (some end) ≡ found opened
      → IsFrom c t asset_id start end disk opened
  unfolding open_uncached
  server_inv disk opened (found body) e h =
      answered-IsFrom disk opened body e (rw (open_uncached, e) at h)
  server_inv disk opened (api_error status) e h = absurd (ground arith)
  server_inv disk opened truncated e h = absurd (ground arith)
  server_inv disk opened other_error e h = absurd (ground arith)
  server_inv disk opened unfinished e h = absurd (ground arith)

  stream_left :
      (stop : ℕ) (bytes : List ℕ) → bytes_left (from_cache (range_stream start stop bytes)) ≡ bytes
  unfolding range_stream
  stream_left stop bytes = let z : start - start ≡ 0 = omega arith in rw z refl

  -- The range was read as a whole, to be cached.
  read-IsFrom :
      (cache : BlobCache) (disk disk' : Disk) (opened : Opened) (a : Answer Response)
      → open_original_response c asset_id (some start) (some end) ≡ a
      → (or_uncached c asset_id start end
          (wrapped c (keep_range c cache t asset_id start end disk' (body_bytes c a)))).0
        ≡ found opened
      → IsFrom c t asset_id start end disk opened
  unfolding or_uncached keep_range read_body
  read-IsFrom cache disk disk' opened (found body) e h = elim (Bool-cases body.breaks) [
    | inl broken ↦ absurd (ground arith)
    | inr whole ↦
        let same : from_cache
              (range_stream start (start + length (joined body.chunks)) (joined body.chunks))
            ≡ opened =
          found-injective (rw (read_body, whole) at h) in
        answered_at body (response_inv body e)
          (ap offset_of (sym same)
            ∙ stream_start (start + length (joined body.chunks)) (joined body.chunks))
          (ap bytes_left (sym same)
            ∙ stream_left (start + length (joined body.chunks)) (joined body.chunks))
  ]
  read-IsFrom cache disk disk' opened (api_error status) e h = absurd (ground arith)
  read-IsFrom cache disk disk' opened truncated e h = absurd (ground arith)
  read-IsFrom cache disk disk' opened other_error e h = absurd (ground arith)
  read-IsFrom cache disk disk' opened unfinished e h = absurd (ground arith)

  looked_inv :
      (cache : BlobCache) (disk : Disk) (opened : Opened) (p : Option CachedByteRange × Disk)
      → c.blob_cache ≡ some cache
      → get cache t.looked t.renewed (range_of c asset_id start end) disk ≡ p
      → (or_uncached c asset_id start end (wrapped c (after_look c cache t asset_id start end p))).0
        ≡ found opened
      → IsFrom c t asset_id start end disk opened
  unfolding or_uncached after_look
  looked_inv cache disk opened (some hit, disk') on e h =
      let same : from_cache (range_stream start (end + 1) hit.bytes) ≡ opened = found-injective h in
      cached_at cache hit on (ap (λ r. r.0) e)
        (ap offset_of (sym same) ∙ stream_start (end + 1) hit.bytes)
        (ap bytes_left (sym same) ∙ stream_left (end + 1) hit.bytes)
  looked_inv cache disk opened (none, disk') on e h =
      read-IsFrom cache disk disk' opened
        (open_original_response c asset_id (some start) (some end)) refl h

  -- Whenever open_original opens a stream for a byte range, the stream stands at the start of the range,
  -- and what it holds is what the blob cache had for exactly this range, or the body of an answer to
  -- the request for exactly this range whose status was 206, whether that was read to be
  -- cached or not. An answer with another status is never opened as the range.
  pub open_original-IsFrom :
      (disk : Disk) (opened : Opened)
      → (open_original c t asset_id (some start) (some end) disk).0 ≡ found opened
      → IsFrom c t asset_id start end disk opened
  unfolding open_original open_cached_range or_uncached
  open_original-IsFrom disk opened h =
      let direct =
        server_inv disk opened (open_original_response c asset_id (some start) (some end)) refl in
      elim (Option-cases c.blob_cache) [
        | inl off ↦ direct (rw off at h)
        | inr (cache, on) ↦ elim (Bool-cases (cacheable cache (pos start) (pos end))) [
          | inl ok ↦
              looked_inv cache disk opened
                (get cache t.looked t.renewed (range_of c asset_id start end) disk) on refl
                (rw (on, ok) at h)
          | inr skip ↦ direct (rw (on, skip) at h)
        ]
      ]
