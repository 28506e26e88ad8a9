-- ===== src/Provider/Resolve/Laws.antt =====
-- src/immich_bridge/webdav_provider.py: what the paths below date folders resolve to.
use immich_bridge.Prelude.{
  String, ◌≡◌, refl, Bool, true, false, Option, none, some, List, [], ◌∷◌, arith, take,
  if◌then◌else◌,
}
use immich_bridge.Dict.{Dict}
use immich_bridge.FsModel.{DateRange, HourRange, date_range_from_parts, hour_range_from_parts}
use immich_bridge.FsModel.Ranges.{IsRange, date_range_from_parts-IsRange}
use immich_bridge.Provider.{Result, ok, raise, ◌>>=◌, run_fs, Filesystem, Resource, Asset}
use immich_bridge.Provider.Kinds.{Kind, asset_of}
use immich_bridge.Provider.Resolve.{
  resolve_in_day, resolve_in_hour, resolve_in_range, resolve_checked, resolve_date_parts,
}

module _ (fs : Filesystem) (path : String) (k : Kind) (range : DateRange) where
  -- The hour that a fourth part names.
  abbrev pub hour_at : String → String → String → String → Option HourRange
  hour_at y m d h = hour_range_from_parts (k.collection ∷ y ∷ m ∷ d ∷ h ∷ [])

  -- What parts below a date folder name, in the range of the first three: the bucket of the range, an
  -- hour of a day that is split, a file of a day that is not, or a file of an hour of a split day.
  pub data IsAt (res : Resource) : List String → Type 0 where
    bucket_at : (y : String) → res ≡ k.bucket path range → IsAt res (y ∷ [])
    month_at : (y m : String) → res ≡ k.bucket path range → IsAt res (y ∷ m ∷ [])
    day_at : (y m d : String) → res ≡ k.bucket path range → IsAt res (y ∷ m ∷ d ∷ [])
    hours_at :
        (y m d h : String) (hour : HourRange)
        → hour_at y m d h ≡ some hour
        → run_fs (fs.should_split_day k.source range) ≡ ok true
        → res ≡ k.hours path hour
        → IsAt res (y ∷ m ∷ d ∷ h ∷ [])
    file_at :
        (y m d name : String) (assets : Dict Asset)
        → run_fs (fs.list_date_assets k.source range) ≡ ok assets
        → asset_of path k name assets ≡ some res
        → IsAt res (y ∷ m ∷ d ∷ name ∷ [])
    hour_file_at :
        (y m d h name : String) (hour : HourRange) (assets : Dict Asset)
        → hour_at y m d h ≡ some hour
        → run_fs (fs.should_split_day k.source range) ≡ ok true
        → run_fs (fs.list_hour_assets k.source hour) ≡ ok assets
        → asset_of path k name assets ≡ some res
        → IsAt res (y ∷ m ∷ d ∷ h ∷ name ∷ [])

  -- A file that was found is one of the assets that were listed.
  file_inv :
      (a : Result (Dict Asset)) (name : String) (res : Resource)
      → (a >>= λ assets. ok (asset_of path k name assets)) ≡ ok (some res)
      → (assets : Dict Asset) × (a ≡ ok assets) × (asset_of path k name assets ≡ some res)
  file_inv (raise x) name res h = absurd (ground arith)
  file_inv (ok assets) name res h = (assets, refl, ground arith)

  in_day_inv :
      (y m d name : String) (res : Resource) (o : Option HourRange)
      → hour_at y m d name ≡ o
      → resolve_in_day fs path k range o name ≡ ok (some res)
      → IsAt res (y ∷ m ∷ d ∷ name ∷ [])
  unfolding resolve_in_day
  in_day_inv y m d name res none e h =
      let (assets, listed, found) =
        file_inv (run_fs (fs.list_date_assets k.source range)) name res h in
      file_at y m d name assets listed found
  in_day_inv y m d name res (some hour) e h =
      go (run_fs (fs.should_split_day k.source range)) refl h
    where
      go :
          (a : Result Bool)
          → run_fs (fs.should_split_day k.source range) ≡ a
          → (a >>= λ split.
              if split
              then ok (some (k.hours path hour))
              else (run_fs (fs.list_date_assets k.source range) >>= λ assets.
                  ok (asset_of path k name assets)))
            ≡ ok (some res)
          → IsAt res (y ∷ m ∷ d ∷ name ∷ [])
      go (raise x) f h' = absurd (ground arith)
      go (ok true) f h' = hours_at y m d name hour e f (ground arith)
      go (ok false) f h' =
          let (assets, listed, found) =
            file_inv (run_fs (fs.list_date_assets k.source range)) name res h' in
          file_at y m d name assets listed found

  in_hour_inv :
      (y m d h name : String) (res : Resource) (o : Option HourRange)
      → hour_at y m d h ≡ o
      → resolve_in_hour fs path k range o name ≡ ok (some res)
      → IsAt res (y ∷ m ∷ d ∷ h ∷ name ∷ [])
  unfolding resolve_in_hour
  in_hour_inv y m d h name res none e r = absurd (ground arith)
  in_hour_inv y m d h name res (some hour) e r =
      go (run_fs (fs.should_split_day k.source range)) refl r
    where
      go :
          (a : Result Bool)
          → run_fs (fs.should_split_day k.source range) ≡ a
          → (a >>= λ split.
              if split
              then (run_fs (fs.list_hour_assets k.source hour) >>= λ assets.
                  ok (asset_of path k name assets))
              else ok none)
            ≡ ok (some res)
          → IsAt res (y ∷ m ∷ d ∷ h ∷ name ∷ [])
      go (raise x) f r' = absurd (ground arith)
      go (ok false) f r' = absurd (ground arith)
      go (ok true) f r' =
          let (assets, listed, found) =
            file_inv (run_fs (fs.list_hour_assets k.source hour)) name res r' in
          hour_file_at y m d h name hour assets e f listed found

  in_range_inv :
      (parts : List String) (res : Resource)
      → resolve_in_range fs path k range parts ≡ ok (some res)
      → IsAt res parts
  unfolding resolve_in_range
  in_range_inv [] res h = absurd (ground arith)
  in_range_inv (y ∷ []) res h = bucket_at y (ground arith)
  in_range_inv (y ∷ m ∷ []) res h = month_at y m (ground arith)
  in_range_inv (y ∷ m ∷ d ∷ []) res h = day_at y m d (ground arith)
  in_range_inv (y ∷ m ∷ d ∷ n ∷ []) res h = in_day_inv y m d n res (hour_at y m d n) refl h
  in_range_inv (y ∷ m ∷ d ∷ n ∷ name ∷ []) res h =
      in_hour_inv y m d n name res (hour_at y m d n) refl h
  in_range_inv (y ∷ m ∷ d ∷ n ∷ name ∷ more ∷ rest) res h = absurd (ground arith)

-- A resource at a path below a date folder: it stands for a range of the calendar that has assets.
pub record IsInRange (fs : Filesystem) (path : String) (k : Kind) (parts : List String)
    (res : Resource) : Type 0 where
  pub range : DateRange
  pub named : date_range_from_parts (k.collection ∷ take 3 parts) ≡ some range
  pub valid : IsRange range
  pub nonempty : run_fs (fs.range_has_assets k.source range) ≡ ok true
  pub stands : IsAt fs path k range res parts

resolve_checked-IsInRange :
    (fs : Filesystem) (path : String) (k : Kind) (parts : List String) (res : Resource)
    (o : Option DateRange)
    → date_range_from_parts (k.collection ∷ take 3 parts) ≡ o
    → resolve_checked fs path k o parts ≡ ok (some res)
    → IsInRange fs path k parts res
unfolding resolve_checked
resolve_checked-IsInRange fs path k parts res none e h = absurd (ground arith)
resolve_checked-IsInRange fs path k parts res (some r) e h =
    let (nonempty, found) = checked (run_fs (fs.range_has_assets k.source r)) h in
    record {
      range = r;
      named = e;
      valid = date_range_from_parts-IsRange (k.collection ∷ take 3 parts) r e;
      nonempty = nonempty;
      stands = in_range_inv fs path k r parts res found;
    }
  where
    checked :
        (a : Result Bool)
        → (a >>= λ nonempty. if nonempty then resolve_in_range fs path k r parts else ok none)
          ≡ ok (some res)
        → (a ≡ ok true) × (resolve_in_range fs path k r parts ≡ ok (some res))
    checked (raise x) h' = absurd (ground arith)
    checked (ok true) h' = (refl, h')
    checked (ok false) h' = absurd (ground arith)

-- Whatever resource a path below a date folder resolves to, the first three parts name a range of
-- valid calendar dates that is not empty and in which the filesystem service has assets, and the
-- resource is the bucket of that range, an hour of it where the day is split, or a file that is listed
-- for the day or for one of its hours.
pub resolved-IsInRange :
    (fs : Filesystem) (path : String) (k : Kind) (parts : List String) (res : Resource)
    → resolve_date_parts fs path k parts ≡ ok (some res)
    → IsInRange fs path k parts res
unfolding resolve_date_parts
resolved-IsInRange fs path k parts res h = resolve_checked-IsInRange fs path k parts res _ refl h
