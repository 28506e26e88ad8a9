-- ===== src/Service/Whole.antt =====
-- src/immich_bridge/fs_service.py, `search_all_assets`, over a server that pages the
-- matching assets.
use immich_bridge.Prelude.{
  ℕ, zero, suc, ◌+◌, ◌*◌, ◌≤◌, ◌<◌, ◌≡◌, ◌⊎◌, refl, ap, ◌∙◌, none, inl, inr, true, false, List, [],
  ◌∷◌, ◌++◌, arith, leb, leb→le, length, take, drop, if◌then◌else◌, Bool-cases,
}
use immich_bridge.Json.{pos, Value, null, Fields, truthy}
use immich_bridge.Provider.{Asset}
use immich_bridge.Service.{
  Answer, found, api_error, truncated, other_error, unfinished, search_all_key, SearchPage, Call,
  search_assets, Client, ImmichFilesystem, Session, and_then, within, page_of, ask, next_round,
  search_loop, load_search_all,
}
use immich_bridge.Service.Memo.{recall}
use immich_bridge.Service.Buckets.{search_all_assets}
use immich_bridge.Service.Recalls.{keep_assets, search_all_new}

-- The page after `n` pages of `size` assets.
pub record IsPage (size n : ℕ) (matching : List Asset) (page : SearchPage) : Type 0 where
  pub items_are : page.items ≡ take size (drop (n * size) matching)
  pub last : length matching ≤ suc n * size → truthy page.next_page ≡ false
  pub more :
      suc n * size < length matching
      → (truthy page.next_page ≡ true) × (page_of page.next_page ≡ found (pos (suc (suc n))))

-- Immich's paging: of the assets that match a search, page n has those after n - 1 full pages, and
-- `nextPage` is the number of the next page, if there is one.
abbrev pub IsPaged : Client → ℕ → (Fields → List Asset) → Type 0
IsPaged client size matching =
    (calls : List Call) (n : ℕ) (filters : Fields)
    → (page : SearchPage) × (client.search calls (pos (suc n)) size filters ≡ found page)
      × IsPage size n (matching filters) page

-- What a listing should be.
abbrev pub all_or_truncated : ℕ → List Asset → Answer (List Asset)
all_or_truncated limit matching = if leb (length matching) limit then found matching else truncated

mul_mono : (a b size : ℕ) → a ≤ b → a * size ≤ b * size
mul_mono zero b size h = omega arith
mul_mono (suc a) zero size h = absurd (omega arith)
mul_mono (suc a) (suc b) size h = let rest = mul_mono a b size (omega arith) in omega arith

take_add {ℓ} :
    {A : Type ℓ} (a b c : ℕ) (xs : List A) → a + b ≡ c → take a xs ++ take b (drop a xs) ≡ take c xs
take_add zero b c xs e = let e' : b ≡ c = omega arith in ap (λ n. take n xs) e'
take_add (suc a) b zero xs e = absurd (omega arith)
take_add (suc a) zero (suc c) [] e = refl
take_add (suc a) (suc b) (suc c) [] e = refl
take_add (suc a) b (suc c) (x ∷ xs) e = ap (λ l. x ∷ l) (take_add a b c xs (omega arith))

take_all {ℓ} : {A : Type ℓ} (n : ℕ) (xs : List A) → length xs ≤ n → take n xs ≡ xs
take_all zero [] h = refl
take_all zero (x ∷ xs) h = absurd (omega arith)
take_all (suc n) [] h = refl
take_all (suc n) (x ∷ xs) h = ap (λ l. x ∷ l) (take_all n xs (omega arith))

kept_whole :
    (r : Answer (List Asset) × Session) (filters : Fields)
    → (and_then r (keep_assets filters)).0 ≡ r.0
kept_whole (found assets, s) filters = refl
kept_whole (api_error status, s) filters = refl
kept_whole (truncated, s) filters = refl
kept_whole (other_error, s) filters = refl
kept_whole (unfinished, s) filters = refl

module _ (fs : ImmichFilesystem) (matching : Fields → List Asset) where
  abbrev limit : ℕ
  limit = fs.search_max_pages * fs.search_page_size

  read_page :
      (n : ℕ) (filters : Fields) (page : SearchPage)
      → IsPage fs.search_page_size n (matching filters) page
      → take (n * fs.search_page_size) (matching filters) ++ page.items
        ≡ take (suc n * fs.search_page_size) (matching filters)
  read_page n filters page is_page = rw is_page.items_are (
      take_add (n * fs.search_page_size) fs.search_page_size (suc n * fs.search_page_size)
        (matching filters) (omega arith))

  fits_whole :
      (n : ℕ) (lib : List Asset)
      → suc n ≤ fs.search_max_pages
      → length lib ≤ suc n * fs.search_page_size
      → found (take (suc n * fs.search_page_size) lib) ≡ all_or_truncated limit lib
  fits_whole n lib le fits =
      let mono = mul_mono (suc n) fs.search_max_pages fs.search_page_size le in
      let small : leb (length lib) limit ≡ true = ground arith in
      rw (small, take_all (suc n * fs.search_page_size) lib fits) refl

  over_truncated :
      (n : ℕ) (lib : List Asset)
      → n ≡ fs.search_max_pages
      → n * fs.search_page_size < length lib
      → truncated ≡ all_or_truncated limit lib
  over_truncated n lib e longer =
      let large : leb (length lib) (n * fs.search_page_size) ≡ false = ground arith in
      rw (← e, large) refl

  loop-whole :
      IsPaged fs.client fs.search_page_size matching
      → (fuel n : ℕ) (filters : Fields) (next_page : Value) (s : Session) → 1 ≤ fuel
      → fs.search_max_pages < fuel + n
      → ((n < fs.search_max_pages)
          ⊎ ((truthy next_page ≡ true)
              × (n ≡ fs.search_max_pages)
              × (n * fs.search_page_size < length (matching filters))))
      → (search_loop fs fuel filters
          (pos (suc n))
          next_page
          (take (n * fs.search_page_size) (matching filters))
          s).0
        ≡ all_or_truncated limit (matching filters)
  unfolding search_loop within ask next_round
  loop-whole paged zero n filters next_page s h k o = absurd (omega arith)
  loop-whole paged (suc fuel) n filters next_page s h k (inl below) =
      let (page, e, is_page) = paged s.calls n filters in
      let in_range : leb (suc n) fs.search_max_pages ≡ true = ground arith in
      rw (in_range, e)
        (elim (Bool-cases (leb (length (matching filters)) (suc n * fs.search_page_size))) [
          | inl fits ↦
              let le = leb→le (length (matching filters)) (suc n * fs.search_page_size) fits in
              rw (is_page.last le, read_page n filters page is_page)
                (fits_whole n (matching filters) (omega arith) le)
          | inr longer ↦
              let lt : suc n * fs.search_page_size < length (matching filters) = ground arith in
              let (more, next) = is_page.more lt in
              rw (more, next, read_page n filters page is_page)
                (loop-whole paged fuel (suc n) filters page.next_page
                  (record s {
                    calls = search_assets (pos (suc n)) fs.search_page_size filters ∷ s.calls;
                  })
                  (omega arith) (omega arith)
                  (elim (Bool-cases (leb (suc (suc n)) fs.search_max_pages)) [
                    | inl inside ↦ inl (ground arith)
                    | inr outside ↦ inr (more, ground arith, lt)
                  ]))
        ])
  loop-whole paged (suc fuel) n filters next_page s h k (inr (more, e, longer)) =
      let past : leb (suc n) fs.search_max_pages ≡ false = ground arith in
      rw (past, more) (over_truncated n (matching filters) e longer)

  load-whole :
      IsPaged fs.client fs.search_page_size matching
      → 1 ≤ fs.search_max_pages
      → fs.search_max_pages < fs.rounds
      → (filters : Fields) (s : Session)
      → (load_search_all fs filters s).0 ≡ all_or_truncated limit (matching filters)
  unfolding load_search_all
  load-whole paged pages enough filters s =
      let e : 0 * fs.search_page_size ≡ 0 = omega arith in
      rw e at (
        loop-whole paged fs.rounds 0 filters null s (omega arith) (omega arith) (inl (omega arith)))

  -- If Immich pages the assets that match a search, at least one page is allowed, and the rounds that
  -- are followed exceed the page limit, then search_all_assets, where the memo holds nothing for
  -- the filters, returns all the matching assets in Immich's order if they fit in the allowed
  -- pages, and raises SearchTruncatedError if they do not: it never returns a part of them.
  pub search_all_whole :
      IsPaged fs.client fs.search_page_size matching
      → 1 ≤ fs.search_max_pages
      → fs.search_max_pages < fs.rounds
      → (filters : Fields) (s : Session) → recall (search_all_key filters) s.memo ≡ none
      → (search_all_assets fs filters s).0 ≡ all_or_truncated limit (matching filters)
  search_all_whole paged pages enough filters s new =
      rw (search_all_new fs filters s new) (
        kept_whole (load_search_all fs filters s) filters ∙ load-whole paged pages enough filters s)
