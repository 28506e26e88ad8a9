-- ===== src/Service/Ends.antt =====
-- src/immich_bridge/fs_service.py, `search_all_assets`: the loop over pages.
use immich_bridge.Prelude.{
  ℕ, zero, suc, ◌+◌, ◌-◌, ◌≤◌, ◌<◌, ◌≡◌, ◌≢◌, refl, inl, inr, Bool, true, false, List, [], ◌++◌,
  arith, leb, length, if◌then◌else◌, Bool-cases, Option-cases,
}
use immich_bridge.Json.{ℤ, pos, Value, null, bool, int, str, arr, obj, Fields, truthy}
use immich_bridge.Provider.{Asset}
use immich_bridge.Text.{codes, parse_int}
use immich_bridge.Service.{
  Answer, found, api_error, truncated, other_error, unfinished, SearchPage, Call, Client,
  ImmichFilesystem, Session, Run, and_then, within, page_of, ask, search_loop, load_search_all,
  next_round, search_all_key,
}
use immich_bridge.Service.Memo.{recall}
use immich_bridge.Service.Buckets.{search_all_assets}
use immich_bridge.Service.Recalls.{keep_assets, search_all_old, search_all_new}

-- The answer to a search ends, and the next page that it names is a later one.
pub record IsForward (client : Client) : Type 0 where
  pub answers :
      (calls : List Call) (page : ℤ) (size : ℕ) (filters : Fields)
      → client.search calls page size filters ≢ unfinished
  pub later :
      (calls : List Call) (n size : ℕ) (filters : Fields) (page : SearchPage) (next : ℤ)
      → client.search calls (pos n) size filters ≡ found page
      → page_of page.next_page ≡ found next
      → (m : ℕ) × (next ≡ pos m) × (n < m)

-- The call ended, and the client was asked at most `bound` times in all.
abbrev pub Ended {ℓ} : {A : Type ℓ} → ℕ → Answer A × Session → Type ℓ
Ended bound r = (r.0 ≢ unfinished) × (length r.1.calls ≤ bound)

and_then-Ended {ℓ κ} :
    {A : Type ℓ} {B : Type κ} (bound : ℕ) (r : Answer A × Session) (f : A → Run B)
    → Ended bound r
    → ((a : A) → r.0 ≡ found a → Ended bound (f a r.1))
    → Ended bound (and_then r f)
and_then-Ended bound (found a, s) f h next = next a refl
and_then-Ended bound (api_error status, s) f h next = ((λ e. absurd (ground arith)), h.1)
and_then-Ended bound (truncated, s) f h next = ((λ e. absurd (ground arith)), h.1)
and_then-Ended bound (other_error, s) f h next = ((λ e. absurd (ground arith)), h.1)
and_then-Ended bound (unfinished, s) f h next = absurd (h.0 refl)

page_of_ends : (v : Value) → page_of v ≢ unfinished
unfolding page_of
page_of_ends null e = cc
page_of_ends (bool true) e = cc
page_of_ends (bool false) e = cc
page_of_ends (int n) e = cc
page_of_ends (str text) e = ground (arith, Option-cases (parse_int (codes text)))
page_of_ends (arr vs) e = cc
page_of_ends (obj fs) e = cc

next_round-Ended :
    (loop : ℤ → Value → List Asset → Run (List Asset)) (read : List Asset) (page : SearchPage)
    (s : Session) (bound : ℕ)
    → length s.calls ≤ bound
    → ((next : ℤ)
        → page_of page.next_page ≡ found next
        → Ended bound (loop next page.next_page (read ++ page.items) s))
    → Ended bound (next_round loop read page s)
unfolding next_round
next_round-Ended loop read page s bound h onward = elim (Bool-cases (truthy page.next_page)) [
  | inl more ↦
      rw more
        (and_then-Ended bound (page_of page.next_page, s) _ (page_of_ends page.next_page, h) onward)
  | inr last ↦ rw last ((λ e. absurd (ground arith)), h)
]

stop_ends :
    (more : Bool) (read : List Asset) → (if more then truncated else found read) ≢ unfinished
stop_ends true read e = cc
stop_ends false read e = cc

module _ (fs : ImmichFilesystem) (forward : IsForward fs.client) where
  loop-Ended :
      (fuel n : ℕ) (filters : Fields) (next_page : Value) (read : List Asset) (s : Session)
      (bound : ℕ)
      → 1 ≤ fuel
      → fs.search_max_pages + 1 < fuel + n
      → length s.calls + (fs.search_max_pages + 1 - n) ≤ bound
      → Ended bound (search_loop fs fuel filters (pos n) next_page read s)
  unfolding search_loop ask within
  loop-Ended zero n filters next_page read s bound h k c = absurd (omega arith)
  loop-Ended (suc fuel) n filters next_page read s bound h k c =
      elim (Bool-cases (leb n fs.search_max_pages)) [
        | inl in_range ↦
            let le : n ≤ fs.search_max_pages = ground arith in
            rw in_range (
              and_then-Ended bound (ask fs (pos n) fs.search_page_size filters s) _
                (forward.answers s.calls (pos n) fs.search_page_size filters, omega arith)
                (λ page e.
                  next_round-Ended (search_loop fs fuel filters) read page
                    (ask fs (pos n) fs.search_page_size filters s).1 bound (omega arith)
                    (λ next e'.
                      let (m, em, lt) =
                        forward.later s.calls n fs.search_page_size filters page next e e' in
                      rw em (
                        loop-Ended fuel m filters page.next_page (read ++ page.items) _ bound
                          (omega arith) (omega arith) (omega arith)))))
        | inr past ↦ rw past (stop_ends (truthy next_page) read, omega arith)
      ]

  load-Ended :
      fs.search_max_pages < fs.rounds
      → (filters : Fields) (s : Session)
      → Ended (length s.calls + fs.search_max_pages) (load_search_all fs filters s)
  unfolding load_search_all
  load-Ended enough filters s =
      loop-Ended fs.rounds 1 filters null [] s (length s.calls + fs.search_max_pages) (omega arith)
        (omega arith) (omega arith)

  -- If the client's answers end and every next page that they name is a later one, and the rounds that
  -- are followed exceed the page limit, then search_all_assets ends, whatever the memo holds, and
  -- has asked the client for at most as many pages as the limit.
  pub search_all_assets-Ended :
      fs.search_max_pages < fs.rounds
      → (filters : Fields) (s : Session)
      → Ended (length s.calls + fs.search_max_pages) (search_all_assets fs filters s)
  search_all_assets-Ended enough filters s =
      elim (Option-cases (recall (search_all_key filters) s.memo)) [
        | inl new ↦
            let bound = length s.calls + fs.search_max_pages in
            let ended = load-Ended enough filters s in
            rw (search_all_new fs filters s new) (
              and_then-Ended bound (load_search_all fs filters s) (keep_assets filters) ended
                (λ assets e. ((λ e'. absurd (ground arith)), ended.1)))
        | inr (v, old) ↦
            rw (search_all_old fs filters s v old) ((λ e. absurd (ground arith)), omega arith)
      ]
