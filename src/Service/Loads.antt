-- ===== src/Service/Loads.antt =====
-- src/immich_bridge/fs_service.py: the loaders and the memo.
use immich_bridge.Prelude.{
  ℕ, zero, suc, ◌≡◌, refl, ◌∙◌, Bool, true, false, List, ◌++◌, if◌then◌else◌,
}
use immich_bridge.Json.{ℤ, Value, Fields, truthy}
use immich_bridge.Provider.{Asset}
use immich_bridge.Service.{
  Answer, found, api_error, truncated, other_error, unfinished, SearchPage, ImmichFilesystem, Key,
  albums_key, range_has_assets_key, date_bounds_key, month_buckets_key, should_split_key,
  search_all_key, Session, Run, and_then, ◌>>=◌, give, within, page_of, ask, next_round,
  search_loop, load_search_all,
}
use immich_bridge.Service.Memo.{
  load, load_albums, load_range_has_assets, load_date_bounds, timeline_month_buckets,
  load_should_split,
}

abbrev pub KeepsMemo {ℓ} : {A : Type ℓ} → Run A → Type 0
KeepsMemo m = (s : Session) → (m s).1.memo ≡ s.memo

and_then_keeps {ℓ κ} :
    {A : Type ℓ} {B : Type κ} (r : Answer A × Session) (f : A → Run B)
    → ((a : A) → KeepsMemo (f a))
    → (and_then r f).1.memo ≡ r.1.memo
and_then_keeps (found a, s) f h = h a s
and_then_keeps (api_error status, s) f h = refl
and_then_keeps (truncated, s) f h = refl
and_then_keeps (other_error, s) f h = refl
and_then_keeps (unfinished, s) f h = refl

bind-KeepsMemo {ℓ κ} :
    {A : Type ℓ} {B : Type κ} (m : Run A) (f : A → Run B)
    → KeepsMemo m
    → ((a : A) → KeepsMemo (f a))
    → KeepsMemo (m >>= f)
bind-KeepsMemo m f hm hf s = and_then_keeps (m s) f hf ∙ hm s

if-KeepsMemo {ℓ} :
    {A : Type ℓ} (b : Bool) (m n : Run A)
    → KeepsMemo m
    → KeepsMemo n
    → KeepsMemo (if b then m else n)
if-KeepsMemo true m n hm hn = hm
if-KeepsMemo false m n hm hn = hn

module _ (fs : ImmichFilesystem) where
  loop-KeepsMemo :
      (fuel : ℕ) (filters : Fields) (page : ℤ) (next : Value) (read : List Asset) (s : Session)
      → (search_loop fs fuel filters page next read s).1.memo ≡ s.memo
  unfolding search_loop ask next_round
  loop-KeepsMemo zero filters page next read s = refl
  loop-KeepsMemo (suc fuel) filters page next read s =
      if-KeepsMemo (within page fs.search_max_pages) _ _
        (bind-KeepsMemo (ask fs page fs.search_page_size filters) _ (λ s. refl)
          (λ (p : SearchPage).
            if-KeepsMemo (truthy p.next_page) _ _
              (bind-KeepsMemo (give (page_of p.next_page)) _ (λ s. refl)
                (λ n. loop-KeepsMemo fuel filters n p.next_page (read ++ p.items)))
              (λ s. refl)))
        (λ s. refl) s

  months-KeepsMemo : (favorite : Bool) → KeepsMemo (timeline_month_buckets fs favorite)
  unfolding timeline_month_buckets
  months-KeepsMemo favorite s = refl

  albums-KeepsMemo : KeepsMemo (load_albums fs)
  unfolding load_albums
  albums-KeepsMemo s = and_then_keeps (fs.client.albums s.calls, _) _ (λ a s'. refl)

  pub load-KeepsMemo : (key : Key) → KeepsMemo (load fs key)
  unfolding load load_range_has_assets load_date_bounds load_should_split load_search_all ask
  load-KeepsMemo albums_key = bind-KeepsMemo (load_albums fs) _ albums-KeepsMemo (λ a s. refl)
  load-KeepsMemo (range_has_assets_key source r) =
      bind-KeepsMemo (load_range_has_assets fs source r) _
        (λ s. and_then_keeps (ask fs _ 1 _ s) _ (λ a s'. refl)) (λ a s. refl)
  load-KeepsMemo (date_bounds_key source) =
      bind-KeepsMemo (load_date_bounds fs source) _
        (λ s.
          and_then_keeps (ask fs _ 1 _ s) _
            (λ a s'. and_then_keeps (ask fs _ 1 _ s') _ (λ b s''. refl)))
        (λ a s. refl)
  load-KeepsMemo (month_buckets_key favorite) =
      bind-KeepsMemo (timeline_month_buckets fs favorite) _ (months-KeepsMemo favorite)
        (λ a s. refl)
  load-KeepsMemo (should_split_key source r) =
      bind-KeepsMemo (load_should_split fs source r) _
        (λ s. and_then_keeps (ask fs _ 1 _ s) _ (λ a s'. refl)) (λ a s. refl)
  load-KeepsMemo (search_all_key filters) =
      bind-KeepsMemo (load_search_all fs filters) _ (loop-KeepsMemo fs.rounds filters _ _ _)
        (λ a s. refl)
