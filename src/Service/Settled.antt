-- ===== src/Service/Settled.antt =====
-- src/immich_bridge/fs_service.py: the answers of a request, and those after them.
use immich_bridge.Prelude.{
  ◌≡◌, refl, sym, ap, ◌∙◌, inl, inr, Bool, true, false, Option, none, some, List, [], ◌∷◌, ◌++◌,
  arith, Option-cases, Bool-cases, append_nil, if◌then◌else◌, str_eq_refl,
}
use immich_bridge.Service.{
  Answer, found, api_error, truncated, other_error, unfinished, ImmichFilesystem, Key, albums_key,
  range_has_assets_key, date_bounds_key, month_buckets_key, should_split_key, search_all_key,
  Stored, Session, Run, and_then, ◌>>=◌, done, or_error,
}
use immich_bridge.Service.Memo.{
  recall, same_key, same_source, same_bool, same_range, load, remember, memoized,
}
use immich_bridge.Service.Loads.{load-KeepsMemo}
use immich_bridge.Service.Filters.{same_filters_refl}
use immich_bridge.FsModel.{DateRange}
use immich_bridge.Provider.{Source, date_view, in_album, in_view}
use immich_bridge.Service.Recalls.{memoized_old, memoized_new}

recall-append :
    (key : Key) (memo more : List (Key × Stored)) (v : Stored)
    → recall key memo ≡ some v
    → recall key (memo ++ more) ≡ some v
unfolding recall
recall-append key [] more v e = cc
recall-append key ((other, w) ∷ memo) more v e = elim (Bool-cases (same_key other key)) [
  | inl same ↦ rw same (rw same at e)
  | inr differ ↦ rw differ (recall-append key memo more v (rw differ at e))
]

module _ (fs : ImmichFilesystem) where
  -- The sessions that asking the memo leads to.
  pub data Later (s : Session) : Session → Type 0 where
    here : Later s s
    asked : {t : Session} → Later s t → (key : Key) → Later s (memoized fs key t).1

same_bool_refl : (b : Bool) → same_bool b b ≡ true
same_bool_refl true = refl
same_bool_refl false = refl

same_range_refl : (r : DateRange) → same_range r r ≡ true
same_range_refl r = ground arith

same_source_refl : (source : Source) → same_source source source ≡ true
unfolding same_source
same_source_refl (date_view b) = same_bool_refl b
same_source_refl (in_album id) = str_eq_refl id
same_source_refl (in_view filters) = same_filters_refl filters

same_key_refl : (key : Key) → same_key key key ≡ true
unfolding same_key
same_key_refl albums_key = refl
same_key_refl (range_has_assets_key source r) = rw (same_source_refl source) (same_range_refl r)
same_key_refl (date_bounds_key source) = same_source_refl source
same_key_refl (month_buckets_key b) = same_bool_refl b
same_key_refl (should_split_key source r) = rw (same_source_refl source) (same_range_refl r)
same_key_refl (search_all_key filters) = same_filters_refl filters

recall_new :
    (key : Key) (memo : List (Key × Stored)) (v : Stored)
    → recall key memo ≡ none
    → recall key (memo ++ (key, v) ∷ []) ≡ some v
unfolding recall
recall_new key [] v e = rw (same_key_refl key) refl
recall_new key ((other, w) ∷ memo) v e = elim (Bool-cases (same_key other key)) [
  | inl same ↦ absurd (ground arith)
  | inr differ ↦ rw differ (recall_new key memo v (rw differ at e))
]

module _ (fs : ImmichFilesystem) where
  pub Later-trans : {s t u : Session} → Later fs s t → Later fs t u → Later fs s u
  Later-trans first here = first
  Later-trans first (asked second key) = asked (Later-trans first second) key

  remembered_grows :
      (key : Key) (memo : List (Key × Stored)) (r : Answer Stored × Session)
      → r.1.memo ≡ memo
      → (more : List (Key × Stored)) × ((and_then r (remember fs key)).1.memo ≡ memo ++ more)
  unfolding remember
  remembered_grows key memo (found v, s) e = ((key, v) ∷ [], rw e refl)
  remembered_grows key memo (api_error status, s) e = ([], e ∙ sym (append_nil memo))
  remembered_grows key memo (truncated, s) e = ([], e ∙ sym (append_nil memo))
  remembered_grows key memo (other_error, s) e = ([], e ∙ sym (append_nil memo))
  remembered_grows key memo (unfinished, s) e = ([], e ∙ sym (append_nil memo))

  memo_grows :
      (key : Key) (s : Session)
      → (more : List (Key × Stored)) × ((memoized fs key s).1.memo ≡ s.memo ++ more)
  memo_grows key s = elim (Option-cases (recall key s.memo)) [
    | inl new ↦
        rw (memoized_new fs key s new)
          (remembered_grows key s.memo (load fs key s) (load-KeepsMemo fs key s))
    | inr (v, old) ↦ rw (memoized_old fs key s v old) ([], sym (append_nil s.memo))
  ]

  recall-Later :
      {s t : Session} (key : Key) (v : Stored)
      → Later fs s t
      → recall key s.memo ≡ some v
      → recall key t.memo ≡ some v
  recall-Later key v here e = e
  recall-Later {s} key v (asked {t} before other) e =
      let (more, grown) = memo_grows other t in
      rw grown (recall-append key t.memo more v (recall-Later key v before e))

  remembered_recalled :
      (key : Key) (memo : List (Key × Stored)) (r : Answer Stored × Session) (v : Stored)
      → r.1.memo ≡ memo
      → recall key memo ≡ none
      → (and_then r (remember fs key)).0 ≡ found v
      → recall key (and_then r (remember fs key)).1.memo ≡ some v
  unfolding remember
  remembered_recalled key memo (found w, s) v e new h =
      let same : w ≡ v = ground arith in rw (e, same) (recall_new key memo v new)
  remembered_recalled key memo (api_error status, s) v e new h = cc
  remembered_recalled key memo (truncated, s) v e new h = cc
  remembered_recalled key memo (other_error, s) v e new h = cc
  remembered_recalled key memo (unfinished, s) v e new h = cc

  memoized_recalled :
      (key : Key) (s : Session) (v : Stored)
      → (memoized fs key s).0 ≡ found v
      → recall key (memoized fs key s).1.memo ≡ some v
  memoized_recalled key s v h = elim (Option-cases (recall key s.memo)) [
    | inl new ↦ rw (memoized_new fs key s new) (
        remembered_recalled key s.memo (load fs key s) v (load-KeepsMemo fs key s) new
          (rw (memoized_new fs key s new) at h))
    | inr (w, old) ↦
        let h' : found w ≡ found v = rw (memoized_old fs key s w old) at h in
        let same : w ≡ v = ground arith in rw (memoized_old fs key s w old) (rw same at old)
  ]

  -- A run only asks the memo, and what it answered it answers again later, asking for nothing.
  abbrev pub Settled {ℓ} : {A : Type ℓ} → Run A → Type ℓ
  Settled {A = A} m =
      (s : Session)
      → Later fs s (m s).1
        × ((a : A) → (m s).0 ≡ found a → (t : Session) → Later fs (m s).1 t → m t ≡ (found a, t))

  pub done-Settled {ℓ} : {A : Type ℓ} (a : A) → Settled (done a)
  done-Settled a s = (here, λ b e t later. ap (λ x. (x, t)) e)

  pub memoized-Settled : (key : Key) → Settled (memoized fs key)
  memoized-Settled key s = (
    asked here key,
    λ v e t later. memoized_old fs key t v (recall-Later key v later (memoized_recalled key s v e)),
  )

  and_then-Settled {ℓ κ} :
      {A : Type ℓ} {B : Type κ} (m : Run A) (f : A → Run B) (s : Session) (r : Answer A × Session)
      → m s ≡ r
      → Settled m
      → ((a : A) → Settled (f a))
      → Later fs s (and_then r f).1
        × ((b : B)
            → (and_then r f).0 ≡ found b
            → (t : Session) → Later fs (and_then r f).1 t
            → and_then (m t) f ≡ (found b, t))
  and_then-Settled m f s (found a, s1) e hm hf =
      let first : Later fs s s1 = rw e at (hm s).0 in
      let again : (t : Session) → Later fs s1 t → m t ≡ (found a, t) = (rw e at (hm s).1) a refl in
      (
        Later-trans first (hf a s1).0,
        λ b h t later. rw (again t (Later-trans (hf a s1).0 later)) ((hf a s1).1 b h t later),
      )
  and_then-Settled m f s (api_error status, s1) e hm hf = (rw e at (hm s).0, λ b h t later. cc)
  and_then-Settled m f s (truncated, s1) e hm hf = (rw e at (hm s).0, λ b h t later. cc)
  and_then-Settled m f s (other_error, s1) e hm hf = (rw e at (hm s).0, λ b h t later. cc)
  and_then-Settled m f s (unfinished, s1) e hm hf = (rw e at (hm s).0, λ b h t later. cc)

  pub bind-Settled {ℓ κ} :
      {A : Type ℓ} {B : Type κ} (m : Run A) (f : A → Run B)
      → Settled m
      → ((a : A) → Settled (f a))
      → Settled (m >>= f)
  bind-Settled m f hm hf s = and_then-Settled m f s (m s) refl hm hf

  pub or_error-Settled {ℓ} : {A : Type ℓ} (o : Option A) → Settled (or_error o)
  or_error-Settled none s = (here, λ a e t later. cc)
  or_error-Settled (some a) s = done-Settled a s

  pub if-Settled {ℓ} :
      {A : Type ℓ} (b : Bool) (m n : Run A) → Settled m → Settled n → Settled (if b then m else n)
  if-Settled true m n hm hn = hm
  if-Settled false m n hm hn = hn
