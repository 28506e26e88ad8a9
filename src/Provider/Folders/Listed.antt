-- ===== src/Provider/Folders/Listed.antt =====
-- src/immich_bridge/webdav_provider.py: the members of date folders and their listings.
use immich_bridge.Prelude.{
  ℕ, ◌≤◌, String, ◌≡◌, refl, sym, ◌∙◌, subst, inl, inr, Bool, true, false, Option, none, some, List,
  [], ◌∷◌, ◌++◌, leb, length, length-append, elem, arith, Bool-cases, Option-cases,
}
use immich_bridge.Dict.{Dict, lookup}
use immich_bridge.FsModel.{DateRange, date_range_from_parts, hour_range_from_parts}
use immich_bridge.Paths.{child_path}
use immich_bridge.Provider.{Result, ok, raise, ◌>>=◌, run_fs, Filesystem, Resource}
use immich_bridge.Provider.Kinds.{Kind, asset_of}
use immich_bridge.Provider.Folders.{
  keys, bucket_names, asset_names, asset_member, listed_bucket, day_names, day_member,
  bucket_member,
}

-- The collection lists its members, and the name is among them.
pub record Listed (names : Result (List String)) (name : String) : Type 0 where
  pub all : List String
  pub listed : names ≡ ok all
  pub member : elem name all ≡ true

pub lookup-keys {ℓ} :
    {V : Type ℓ} (d : Dict V) (name : String) (v : V)
    → lookup name d ≡ some v
    → elem name (keys d) ≡ true
unfolding lookup
lookup-keys [] name v h = ground arith
lookup-keys ((k, w) ∷ d) name v h = ground (arith, lookup-keys d name v)

pub asset_member-Listed :
    (fs : Filesystem) (k : Kind) (path name : String) (assets : Result (Dict _)) (r : Resource)
    → asset_member fs k path name assets ≡ ok (some r)
    → Listed (asset_names fs k assets) name
unfolding asset_member asset_names asset_of
asset_member-Listed fs k path name (raise e) r h = absurd (ground arith)
asset_member-Listed fs k path name (ok d) r h = elim (Option-cases (lookup name d)) [
  | inl e ↦ absurd (ground arith)
  | inr found ↦ record { all = keys d; listed = refl; member = lookup-keys d name found.0 found.1 }
]

pub listed_bucket-Listed {ℓ} :
    {R : Type ℓ} (name : String) (o : Option R) (f : R → Resource) (names : Result (List String))
    (r : Resource)
    → listed_bucket name o f names ≡ ok (some r)
    → Listed names name
unfolding listed_bucket
listed_bucket-Listed name none f names r h = absurd (ground arith)
listed_bucket-Listed name (some a) f (raise e) r h = absurd (ground arith)
listed_bucket-Listed name (some a) f (ok ns) r h = elim (Bool-cases (elem name ns)) [
  | inl e ↦ record { all = ns; listed = refl; member = e }
  | inr e ↦ absurd (ground arith)
]

pub day_member-Listed :
    (k : Kind) (fs : Filesystem) (names : Result (List String)) (path : String)
    (parts : List String) (r : DateRange) (name : String) (m : Resource) (split : Result Bool)
    → names ≡ (split >>= day_names fs k r)
    → (split >>= day_member k fs names path parts r name) ≡ ok (some m)
    → Listed names name
unfolding day_member day_names
day_member-Listed k fs names path parts r name m (raise e) n h = absurd (ground arith)
day_member-Listed k fs names path parts r name m (ok true) n h =
    listed_bucket-Listed name (hour_range_from_parts (parts ++ name ∷ []))
      (k.hours (child_path path name)) names m h
day_member-Listed k fs names path parts r name m (ok false) n h =
    subst (λ ns. Listed ns name) (sym n)
      (asset_member-Listed fs k path name (run_fs (fs.list_date_assets k.source r)) m h)

pub bucket_names-day :
    (fs : Filesystem) (k : Kind) (depth : ℕ) (r : DateRange)
    → 4 ≤ depth
    → bucket_names fs k depth r ≡ (run_fs (fs.should_split_day k.source r) >>= day_names fs k r)
unfolding bucket_names
bucket_names-day fs k depth r h = ground arith

pub is_deep :
    (parts : List String) (name : String)
    → leb (length (parts ++ name ∷ [])) 4 ≡ false
    → 4 ≤ length parts
is_deep parts name h = ground (arith, length-append parts (name ∷ []))

-- The same of a date bucket, whose names the depth selects.
pub bucket_member-Listed :
    (access : Result Filesystem) (k : Kind) (names : Result (List String)) (path : String)
    (parts : List String) (r : DateRange) (name : String) (m : Resource)
    → names ≡ (access >>= λ fs. bucket_names fs k (length parts) r)
    → bucket_member access k names path parts r name ≡ ok (some m)
    → Listed names name
unfolding bucket_member
bucket_member-Listed access k names path parts r name m n h =
    elim (Bool-cases (leb (length (parts ++ name ∷ [])) 4)) [
      | inl e ↦
          listed_bucket-Listed name (date_range_from_parts (parts ++ name ∷ []))
            (k.bucket (child_path path name)) names m (ground arith)
      | inr e ↦ deep e access n (ground arith)
    ]
  where
    deep :
        leb (length (parts ++ name ∷ [])) 4 ≡ false
        → (a : Result Filesystem) → names ≡ (a >>= λ fs. bucket_names fs k (length parts) r)
        → (a >>= λ fs.
            run_fs (fs.should_split_day k.source r) >>= day_member k fs names path parts r name)
          ≡ ok (some m)
        → Listed names name
    deep e (raise _) n' h' = absurd (ground arith)
    deep e (ok fs) n' h' =
        day_member-Listed k fs names path parts r name m (run_fs (fs.should_split_day k.source r))
          (n' ∙ bucket_names-day fs k (length parts) r (is_deep parts name e)) h'
