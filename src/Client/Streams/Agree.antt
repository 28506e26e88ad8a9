-- ===== src/Client/Streams/Agree.antt =====
-- src/immich_bridge/immich_client.py: reads of a cached range and of a response.
use immich_bridge.Prelude.{
  ℕ, zero, suc, ◌+◌, ◌-◌, ◌≤◌, ◌≡◌, ◌⊎◌, refl, sym, ap, ◌∙◌, inl, inr, Bool, false, some, List, [],
  ◌∷◌, ◌++◌, length, take, drop, ltb, leb, arith, Bool-cases, append_assoc,
}
use immich_bridge.Client.Streams.{
  done, CachedRangeStream, read, ImmichOriginalStream, joined, fill, read_some,
}

-- What a response's buffer and chunks still hold, after enough chunks for a read.
record IsFilled (size : ℕ) (before : List ℕ) (r : List ℕ × List (List ℕ) × Bool) : Type 0 where
  pub same : r.0 ++ joined r.1 ≡ before
  pub whole : r.2 ≡ false
  pub enough : (size ≤ length r.0) ⊎ (r.1 ≡ [])

fill-IsFilled :
    (size : ℕ) (buffer : List ℕ) (chunks : List (List ℕ))
    → IsFilled size (buffer ++ joined chunks) (fill size buffer chunks false)
unfolding fill
fill-IsFilled size buffer [] = elim (Bool-cases (ltb (length buffer) size)) [
  | inl short ↦ rw short (record { same = refl; whole = refl; enough = inr refl })
  | inr long ↦ rw long (record { same = refl; whole = refl; enough = inr refl })
]
fill-IsFilled size buffer (chunk ∷ chunks) = elim (Bool-cases (ltb (length buffer) size)) [
  | inl short ↦
      rw (short, ← append_assoc buffer chunk (joined chunks))
        (fill-IsFilled size (buffer ++ chunk) chunks)
  | inr long ↦ rw long (record { same = refl; whole = refl; enough = inl (ground arith) })
]

take-append :
    (size : ℕ) (xs ys : List ℕ)
    → (size ≤ length xs) ⊎ (ys ≡ [])
    → (take size (xs ++ ys) ≡ take size xs) × (drop size (xs ++ ys) ≡ drop size xs ++ ys)
take-append zero xs ys h = (refl, refl)
take-append (suc n) [] ys (inl h) = absurd (omega arith)
take-append (suc n) [] ys (inr e) = rw e (refl, refl)
take-append (suc n) (x ∷ xs) ys (inl h) =
    let (t, d) = take-append n xs ys (inl (omega arith)) in (ap (λ l. x ∷ l) t, d)
take-append (suc n) (x ∷ xs) ys (inr e) =
    let (t, d) = take-append n xs ys (inr e) in (ap (λ l. x ∷ l) t, d)

drop_nil : (n : ℕ) → drop {A = ℕ} n [] ≡ []
drop_nil zero = refl
drop_nil (suc n) = refl

take_nil : (n : ℕ) → take {A = ℕ} n [] ≡ []
take_nil zero = refl
take_nil (suc n) = refl

drop-drop : (a b c : ℕ) (xs : List ℕ) → b + a ≡ c → drop b (drop a xs) ≡ drop c xs
drop-drop zero b c xs e = let e' : b ≡ c = omega arith in ap (λ n. drop n xs) e'
drop-drop (suc a) b zero xs e = absurd (omega arith)
drop-drop (suc a) b (suc c) [] e = drop_nil b
drop-drop (suc a) b (suc c) (x ∷ xs) e = drop-drop a b c xs (omega arith)

drop_taken : (size : ℕ) (xs : List ℕ) → drop (length (take size xs)) xs ≡ drop size xs
drop_taken zero xs = refl
drop_taken (suc n) [] = refl
drop_taken (suc n) (x ∷ xs) = drop_taken n xs

drop_all : (n : ℕ) (xs : List ℕ) → length xs ≤ n → drop n xs ≡ []
drop_all zero [] h = refl
drop_all zero (x ∷ xs) h = absurd (omega arith)
drop_all (suc n) [] h = refl
drop_all (suc n) (x ∷ xs) h = drop_all n xs (omega arith)

-- The bytes from the position on.
abbrev remaining : CachedRangeStream → List ℕ
remaining c = drop (c.position - c.start) c.content

abbrev moved : CachedRangeStream → ℕ → CachedRangeStream
moved c n = record c { position = c.position + n }

read_lem :
    (size : ℕ) (c : CachedRangeStream)
    → read (some size) c ≡ (take size (remaining c), moved c (length (take size (remaining c))))
unfolding read
read_lem size c = elim (Bool-cases (leb (length c.content) (c.position - c.start))) [
  | inl past ↦
      let nothing : remaining c ≡ [] = drop_all (c.position - c.start) c.content (ground arith) in
      let still : c.position ≡ c.position + 0 = omega arith in
      rw (past, nothing, take_nil size) (ap (λ n. ([], record c { position = n })) still)
  | inr inside ↦ rw inside refl
]

-- The two streams stand at one offset and have the same bytes from there on.
pub record IsSame (c : CachedRangeStream) (o : ImmichOriginalStream) : Type 0 where
  pub inside : c.start ≤ c.position
  pub at_offset : c.position ≡ o.position
  pub unbroken : o.rest.breaks ≡ false
  pub bytes : drop (c.position - c.start) c.content ≡ o.buffer ++ joined o.rest.chunks

no_bytes :
    {size len : ℕ} (chunks : List (List ℕ))
    → (size ≤ len) ⊎ (chunks ≡ [])
    → (size ≤ len) ⊎ (joined chunks ≡ [])
no_bytes chunks (inl h) = inl h
no_bytes chunks (inr e) = inr (ap joined e)

original_lem :
    (size : ℕ) (o : ImmichOriginalStream)
    → o.rest.breaks ≡ false
    → (after : ImmichOriginalStream) × ((read_some size o).0
        ≡ done (take size (o.buffer ++ joined o.rest.chunks)))
      × ((read_some size o).1 ≡ after)
      × (after.rest.breaks ≡ false)
      × (after.position ≡ o.position + length (take size (o.buffer ++ joined o.rest.chunks)))
      × (after.buffer ++ joined after.rest.chunks ≡ drop size (o.buffer ++ joined o.rest.chunks))
unfolding read_some
original_lem size o unbroken =
    let r = fill size o.buffer o.rest.chunks false in
    let f = fill-IsFilled size o.buffer o.rest.chunks in
    let (t, d) = take-append size r.0 (joined r.1) (no_bytes r.1 f.enough) in
    let t' : take size (o.buffer ++ joined o.rest.chunks) ≡ take size r.0 = rw f.same at t in
    let d' : drop size (o.buffer ++ joined o.rest.chunks) ≡ drop size r.0 ++ joined r.1 =
      rw f.same at d in
    rw (unbroken, f.whole)
      (_, ap done (sym t'), refl, refl, ap (λ b. o.position + length b) (sym t'), sym d')

-- If a cached range and an original response that does not break stand at one offset and have the
-- same bytes from there on, then a read of any size gives the same bytes from both, and they stand at
-- one offset and have the same bytes again.
pub read-IsSame :
    (size : ℕ) (c : CachedRangeStream) (o : ImmichOriginalStream)
    → IsSame c o
    → ((read_some size o).0 ≡ done (read (some size) c).0)
      × IsSame (read (some size) c).1 (read_some size o).1
read-IsSame size c o same =
    let (after, bytes, e, unbroken, position, left) = original_lem size o same.unbroken in
    let n = length (take size (remaining c)) in
    let position' : after.position ≡ o.position + n = rw (← same.bytes) at position in
    let left' : after.buffer ++ joined after.rest.chunks ≡ drop size (remaining c) =
      rw (← same.bytes) at left in
    rw (read_lem size c, e, bytes, ← same.bytes)
      (
        refl,
        record {
          inside = omega (arith, same.inside);
          at_offset = omega (arith, same.at_offset, position');
          unbroken = unbroken;
          bytes =
              sym (
                drop-drop (c.position - c.start) n (c.position + n - c.start) c.content
                  (omega (arith, same.inside)))
              ∙ (drop_taken size (remaining c) ∙ sym left');
        },
      )
