-- ===== src/Service/Recalls.antt =====
-- src/immich_bridge/fs_service.py, `_memoized`: what it gives and leaves behind.
use immich_bridge.Prelude.{ap, ◌≡◌, refl, none, some, List, [], ◌∷◌, ◌++◌, arith}
use immich_bridge.Service.{
  Answer, found, api_error, truncated, other_error, unfinished, ImmichFilesystem, Key,
  search_all_key, Stored, asset_list, Session, Run, and_then, done, load_search_all,
}
use immich_bridge.Service.Memo.{recall, load, remember, memoized}
use immich_bridge.Service.Buckets.{search_all_assets, as_assets}
use immich_bridge.Json.{Fields}
use immich_bridge.Provider.{Asset}

pub and_then_found {ℓ κ} :
    {A : Type ℓ} {B : Type κ} (r : Answer A × Session) (f : A → Run B) (a : A)
    → r.0 ≡ found a
    → and_then r f ≡ f a r.1
and_then_found (found b, s) f a e = let same : b ≡ a = ground arith in ap (λ x. f x s) same
and_then_found (api_error status, s) f a e = cc
and_then_found (truncated, s) f a e = cc
and_then_found (other_error, s) f a e = cc
and_then_found (unfinished, s) f a e = cc

module _ (fs : ImmichFilesystem) (key : Key) (s : Session) where
  pub memoized_old : (v : Stored) → recall key s.memo ≡ some v → memoized fs key s ≡ (found v, s)
  unfolding memoized
  memoized_old v e = rw (memoized, e) refl

  pub memoized_new :
      recall key s.memo ≡ none → memoized fs key s ≡ and_then (load fs key s) (remember fs key)
  unfolding memoized
  memoized_new e = rw (memoized, e) refl

-- A search's assets, kept in the memo.
abbrev pub keep_assets : Fields → List Asset → Run (List Asset)
keep_assets filters assets s =
    (found assets, record s { memo = s.memo ++ (search_all_key filters, asset_list assets) ∷ [] })

module _ (fs : ImmichFilesystem) (filters : Fields) where
  kept_assets :
      (r : Answer (List Asset) × Session)
      → and_then
          (and_then (and_then r (λ a. done (asset_list a))) (remember fs (search_all_key filters)))
          (λ v. done (as_assets v))
        ≡ and_then r (keep_assets filters)
  unfolding remember
  kept_assets (found assets, s) = refl
  kept_assets (api_error status, s) = refl
  kept_assets (truncated, s) = refl
  kept_assets (other_error, s) = refl
  kept_assets (unfinished, s) = refl

  pub search_all_old :
      (s : Session) (v : Stored)
      → recall (search_all_key filters) s.memo ≡ some v
      → search_all_assets fs filters s ≡ (found (as_assets v), s)
  unfolding search_all_assets
  search_all_old s v e = rw (memoized_old fs (search_all_key filters) s v e) refl

  pub search_all_new :
      (s : Session)
      → recall (search_all_key filters) s.memo ≡ none
      → search_all_assets fs filters s
        ≡ and_then (load_search_all fs filters s) (keep_assets filters)
  unfolding search_all_assets load
  search_all_new s e =
      rw (memoized_new fs (search_all_key filters) s e) (kept_assets (load_search_all fs filters s))
