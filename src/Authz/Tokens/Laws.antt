-- ===== src/Authz/Tokens/Laws.antt =====
-- src/immich_bridge/authz.py: signing and verifying tokens.
use immich_bridge.Prelude.{
  ℕ, String, ◌≡◌, refl, ap, ◌∙◌, true, false, Option, none, some, List, [], ◌∷◌, ◌++◌, arith,
  Option-cases, inl, inr,
}
use immich_bridge.Json.{Value, Fields, obj, as_dict}
use immich_bridge.Base64.{b64, unb64}
use immich_bridge.Base64.RoundTrip.{AllBytes, unb64-b64, b64-Lacks_dot, Lacks}
use immich_bridge.Authz.Tokens.{
  Codec, Session, compare_digest, Partition, partition, payload, sign_grants, check_signature,
  decode_parts, verify_parts, verify_grants_token,
}

compare_digest_refl : (s : List ℕ) → compare_digest s s ≡ true
unfolding compare_digest
compare_digest_refl [] = refl
compare_digest_refl (a ∷ s) = ground (arith, compare_digest_refl s)

compare_digest→eq : (s t : List ℕ) → compare_digest s t ≡ true → s ≡ t
unfolding compare_digest
compare_digest→eq [] [] h = refl
compare_digest→eq (a ∷ s) (b ∷ t) h = ground (arith, compare_digest→eq s t)
compare_digest→eq [] (b ∷ t) h = cc
compare_digest→eq (a ∷ s) [] h = cc

-- The text before the separator and the text after it come back.
partition-join :
    (sep : ℕ) (before after : List ℕ)
    → Lacks sep before
    → partition sep (before ++ (sep ∷ after)) ≡ (before, true, after)
unfolding partition
partition-join sep [] after h = ground arith
partition-join sep (c ∷ cs) after h = rw (h.0, partition-join sep cs after h.1)

partition_found :
    (sep : ℕ) (text : List ℕ)
    → (partition sep text).1 ≡ true
    → text ≡ (partition sep text).0 ++ (sep ∷ (partition sep text).2)
unfolding partition
partition_found sep [] h = cc
partition_found sep (c ∷ cs) h = ground (arith, partition_found sep cs)

-- What an accepted token is: two texts around a dot, the first of which decodes to the bytes of
-- the payload, the second to the HMAC of those bytes under the secret.
pub record IsSigned (codec : Codec) (secret : String) (token : List ℕ) (claims : Fields)
    : Type 0 where
  pub payload_text : List ℕ
  pub signature_text : List ℕ
  pub payload_bytes : List ℕ
  pub parts : token ≡ payload_text ++ (b'.' ∷ signature_text)
  pub payload_decodes : unb64 payload_text ≡ some payload_bytes
  pub signature_decodes : unb64 signature_text ≡ some (codec.hmac secret payload_bytes)
  pub payload_parses : codec.loads payload_bytes ≡ some (obj claims)

module _ (codec : Codec) (secret : String) where
  -- If the JSON codec reads the session's payload back as an object, and payload and HMAC are bytes,
  -- then the token that is signed verifies, under the same secret, to that object.
  pub verify-sign :
      (session : Session) (parsed : Fields)
      → AllBytes (codec.canonical_json (payload session))
      → AllBytes (codec.hmac secret (codec.canonical_json (payload session)))
      → codec.loads (codec.canonical_json (payload session)) ≡ some (obj parsed)
      → verify_grants_token codec secret (sign_grants codec secret session) ≡ some parsed
  unfolding verify_grants_token sign_grants verify_parts decode_parts check_signature
  verify-sign session parsed hp hs law = rw (
    partition-join b'.' (b64 (codec.canonical_json (payload session))) _ (b64-Lacks_dot _ hp),
    unb64-b64 _ hp,
    unb64-b64 _ hs,
    compare_digest_refl,
    law,
  )

  as_dict→obj :
      (o : Option Value) (claims : Fields)
      → (elim o [ none ↦ none | some v ↦ as_dict v ]) ≡ some claims
      → o ≡ some (obj claims)
  as_dict→obj o claims h = ground arith

  check_signature_sound :
      (payload_bytes signature : List ℕ) (claims : Fields)
      → check_signature codec secret payload_bytes signature ≡ some claims
      → (signature ≡ codec.hmac secret payload_bytes)
        × (codec.loads payload_bytes ≡ some (obj claims))
  unfolding check_signature
  check_signature_sound payload_bytes signature claims h =
      ground (arith, compare_digest→eq signature (codec.hmac secret payload_bytes))

  parts_sound :
      (token : List ℕ) (p : Partition) (claims : Fields)
      → (p.1 ≡ true → token ≡ p.0 ++ (b'.' ∷ p.2))
      → verify_parts codec secret p ≡ some claims
      → IsSigned codec secret token claims
  unfolding verify_parts decode_parts
  parts_sound token (pt, true, st) claims joined h = elim (Option-cases (unb64 pt)) [
    | inl e ↦ absurd (ground arith)
    | inr (bytes, e) ↦ elim (Option-cases (unb64 st)) [
      | inl e' ↦ absurd (ground arith)
      | inr (signature, e') ↦
          let (genuine, parses) = check_signature_sound bytes signature claims (ground arith) in
          record {
            payload_text = pt;
            signature_text = st;
            payload_bytes = bytes;
            parts = joined refl;
            payload_decodes = e;
            signature_decodes = e' ∙ ap some genuine;
            payload_parses = parses;
          }
    ]
  ]
  parts_sound token (pt, false, st) claims joined h = cc

  -- A token that verifies to some claims is two texts around a dot: the first decodes to bytes that
  -- parse as those claims, the second to the HMAC of those bytes under the secret.
  pub verify_sound :
      (token : List ℕ) (claims : Fields)
      → verify_grants_token codec secret token ≡ some claims
      → IsSigned codec secret token claims
  unfolding verify_grants_token
  verify_sound token claims h =
      parts_sound token (partition b'.' token) claims (partition_found b'.' token) h
