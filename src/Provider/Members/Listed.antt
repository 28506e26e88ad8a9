-- ===== src/Provider/Members/Listed.antt =====
-- src/immich_bridge/webdav_provider.py: the members of collections and their listings.
use immich_bridge.Prelude.{
  String, ◌≡◌, refl, ◌≢◌, inl, inr, Bool, true, false, Option, none, some, List, [], ◌∷◌, map, elem,
  find_first, arith, str_eq, eq_iff, Option-cases, if◌then◌else◌,
}
use immich_bridge.Json.{Value, Fields, get, is_text, str}
use immich_bridge.Dict.{Dict}
use immich_bridge.FsModel.{DateRange, HourRange, date_range_from_parts}
use immich_bridge.Paths.{path_parts, child_path}
use immich_bridge.Provider.{
  Result, ok, raise, ◌>>=◌, run_fs, Filesystem, AlbumEntry, Asset, Resource, root, albums_root,
  views_root, well_known, album, album_date_bucket, album_hour_bucket, date_root, date_bucket,
  hour_bucket, saved_view, saved_view_date_bucket, saved_view_hour_bucket, Environ, Provider,
  text_of,
}
use immich_bridge.Provider.Settings.{should_split_album, filesystem}
use immich_bridge.Provider.Views.{saved_view_entries, saved_view_by_name}
use immich_bridge.Provider.Kinds.{Kind, album_kind, date_kind, view_kind}
use immich_bridge.Provider.Members.{
  entry_names, get_member_names, album_named, get_member, with_readme, album_parts, year_names,
  view_names, view_bucket_names, view_hour_names, view_member, view_bucket_member, view_hour_member,
}
use immich_bridge.Provider.Folders.{
  current_view, current_bucket_view, asset_names, asset_member, listed_bucket, view_parts,
}
use immich_bridge.Provider.Names.{readme_filename}
use mathlib.Core.Option
use immich_bridge.Provider.Folders.Listed.{
  Listed, asset_member-Listed, listed_bucket-Listed, bucket_member-Listed,
}

find_first-names :
    (name : String) (entries : List AlbumEntry) (e : AlbumEntry)
    → find_first (λ (x : AlbumEntry). str_eq x.name name) entries ≡ some e
    → elem name (entry_names entries) ≡ true
find_first-names name [] e h = ground arith
find_first-names name (x ∷ entries) e h = ground (arith, find_first-names name entries e)

is_text-text_of :
    (p : Provider) (v : Value) (name : String)
    → is_text v name ≡ true
    → str_eq (text_of p v) name ≡ true
unfolding text_of
is_text-text_of p (str s) name h = h
is_text-text_of p _ name h = ground arith

find_first-view_names :
    (p : Provider) (name : String) (views : List Fields) (v : Fields)
    → find_first (λ x. is_text (get x "davName") name) views ≡ some v
    → elem name (map (λ (x : Fields). text_of p (get x "davName")) views) ≡ true
find_first-view_names p name [] v h = ground arith
find_first-view_names p name (x ∷ views) v h =
    ground (arith, find_first-view_names p name views v, is_text-text_of p (get x "davName") name)

-- A folder of files, behind the client.
access-Listed :
    (access : Result Filesystem) (k : Kind) (assets : Filesystem → Result (Dict Asset))
    (path name : String) (m : Resource)
    → (access >>= λ fs. asset_member fs k path name (assets fs)) ≡ ok (some m)
    → Listed (access >>= λ fs. asset_names fs k (assets fs)) name
access-Listed (raise e) k assets path name m h = absurd (ground arith)
access-Listed (ok fs) k assets path name m h = asset_member-Listed fs k path name (assets fs) m h

albums-Listed :
    (access : Result Filesystem) (path name : String) (m : Resource) (p : Provider) (env : Environ)
    → (access >>= λ fs. run_fs fs.albums >>= λ entries. ok (album_named p env path name entries))
      ≡ ok (some m)
    → Listed
        (access >>= λ fs. run_fs fs.albums >>= λ entries. ok (with_readme (entry_names entries)))
        name
unfolding album_named
albums-Listed (raise e) path name m p env h = absurd (ground arith)
albums-Listed (ok fs) path name m p env h = go (run_fs fs.albums) h
  where
    go :
        (albums : Result (List AlbumEntry))
        → (albums >>= λ entries. ok (album_named p env path name entries)) ≡ ok (some m)
        → Listed (albums >>= λ entries. ok (with_readme (entry_names entries))) name
    go (raise e) h' = absurd (ground arith)
    go (ok entries) h' =
        elim (Option-cases (find_first (λ (x : AlbumEntry). str_eq x.name name) entries)) [
          | inl none_found ↦ absurd (ground arith)
          | inr found ↦ record {
            all = with_readme (entry_names entries);
            listed = refl;
            member = ground (arith, find_first-names name entries found.0 found.1);
          }
        ]

-- A folder that is either a list of buckets or a list of files.
either-Listed {ℓ} :
    {R : Type ℓ} (split : Bool) (access : Result Filesystem) (k : Kind)
    (years : Filesystem → Result (List String)) (assets : Filesystem → Result (Dict Asset))
    (path name : String) (m : Resource) (o : Option R) (f : R → Resource)
    → (if split
        then listed_bucket name o f
            (access >>= λ fs. if split then years fs else asset_names fs k (assets fs))
        else (access >>= λ fs. asset_member fs k path name (assets fs)))
      ≡ ok (some m)
    → Listed (access >>= λ fs. if split then years fs else asset_names fs k (assets fs)) name
either-Listed true access k years assets path name m o f h =
    listed_bucket-Listed name o f (access >>= years) m h
either-Listed false access k years assets path name m o f h =
    access-Listed access k assets path name m h

-- The same with the files first.
files-Listed {ℓ} :
    {R : Type ℓ} (flat : Bool) (access : Result Filesystem) (k : Kind)
    (years : Filesystem → Result (List String)) (assets : Filesystem → Result (Dict Asset))
    (path name : String) (m : Resource) (o : Option R) (f : R → Resource)
    → (if flat
        then (access >>= λ fs. asset_member fs k path name (assets fs))
        else listed_bucket name o f
            (access >>= λ fs. if flat then asset_names fs k (assets fs) else years fs))
      ≡ ok (some m)
    → Listed (access >>= λ fs. if flat then asset_names fs k (assets fs) else years fs) name
files-Listed true access k years assets path name m o f h =
    access-Listed access k assets path name m h
files-Listed false access k years assets path name m o f h =
    listed_bucket-Listed name o f (access >>= years) m h

views-listed :
    (p : Provider) (at name : String) (m : Resource)
    → Option.map (saved_view (child_path at name)) (saved_view_by_name p name) ≡ some m
    → elem name (map (λ (v : Fields). text_of p (get v "davName")) (saved_view_entries p)) ≡ true
unfolding saved_view_by_name
views-listed p at name m h =
    elim (Option-cases (find_first (λ v. is_text (get v "davName") name) (saved_view_entries p))) [
      | inl e ↦ absurd (ground arith)
      | inr found ↦ find_first-view_names p name (saved_view_entries p) found.0 found.1
    ]

view_member-Listed :
    (p : Provider) (env : Environ) (path name : String) (m : Resource) (view : Option Fields)
    → view_member p env path name (view_names p env view) view ≡ ok (some m)
    → Listed (view_names p env view) name
unfolding view_member view_names
view_member-Listed p env path name m none h = absurd (ground arith)
view_member-Listed p env path name m (some view) h =
    files-Listed (is_text (get view "layout") "flat") (filesystem p env) (view_kind view)
      (λ fs. year_names fs (view_kind view).source)
      (λ fs. run_fs (fs.list_assets (view_kind view).source)) path name m
      (date_range_from_parts ("View" ∷ name ∷ []))
      (saved_view_date_bucket (child_path path name) view) h

view_bucket_member-Listed :
    (p : Provider) (env : Environ) (path : String) (r : DateRange) (name : String) (m : Resource)
    (view : Option Fields)
    → view_bucket_member p env path r name (view_bucket_names p env path r view) view ≡ ok (some m)
    → Listed (view_bucket_names p env path r view) name
unfolding view_bucket_member view_bucket_names
view_bucket_member-Listed p env path r name m none h = absurd (ground arith)
view_bucket_member-Listed p env path r name m (some view) h =
    bucket_member-Listed (filesystem p env) (view_kind view) _ path (view_parts (path_parts path)) r
      name m refl h

view_hour_member-Listed :
    (p : Provider) (env : Environ) (path : String) (i : HourRange) (name : String) (m : Resource)
    (view : Option Fields)
    → view_hour_member p env path i name view ≡ ok (some m)
    → Listed (view_hour_names p env i view) name
unfolding view_hour_member view_hour_names
view_hour_member-Listed p env path i name m none h = absurd (ground arith)
view_hour_member-Listed p env path i name m (some view) h =
    access-Listed (filesystem p env) (view_kind view)
      (λ fs. run_fs (fs.list_hour_assets (view_kind view).source i)) path name m h

-- At every collection but the root, a member that `get_member` gives, other than a README, has a name
-- that `get_member_names` lists, and the listing does not fail.
pub member-Listed :
    (p : Provider) (env : Environ) (res : Resource) (name : String) (m : Resource)
    → ((path : String) → res ≢ root path)
    → str_eq name readme_filename ≡ false
    → get_member p env res name ≡ ok (some m)
    → Listed (get_member_names p env res) name
unfolding get_member get_member_names
member-Listed p env (root at) name m other n h = absurd (other at refl)
member-Listed p env (albums_root at) name m _ n h =
    albums-Listed (filesystem p env) at name m p env (ground arith)
member-Listed p env (views_root at) name m _ n h = record {
  all = with_readme (map (λ (v : Fields). text_of p (get v "davName")) (saved_view_entries p));
  listed = refl;
  member = ground (arith, views-listed p at name m);
}
member-Listed p env (well_known at) name m _ n h = record {
  all = "immich-bridge.json" ∷ [];
  listed = refl;
  member = ground (arith, eq_iff name "immich-bridge.json", eq_iff "immich-bridge.json" name);
}
member-Listed p env (album at e) name m _ n h =
    either-Listed (should_split_album p e) (filesystem p env) (album_kind p e)
      (λ fs. year_names fs (album_kind p e).source)
      (λ fs. run_fs (fs.list_assets (album_kind p e).source)) at name m
      (date_range_from_parts ("Album" ∷ name ∷ [])) (album_date_bucket (child_path at name) e) h
member-Listed p env (album_date_bucket at e r) name m _ n h =
    bucket_member-Listed (filesystem p env) (album_kind p e) _ at (album_parts at) r name m refl h
member-Listed p env (album_hour_bucket at e i) name m _ n h =
    access-Listed (filesystem p env) (album_kind p e)
      (λ fs. run_fs (fs.list_hour_assets (album_kind p e).source i)) at name m h
member-Listed p env (date_root at view favorite) name m _ n h =
    listed_bucket-Listed name (date_range_from_parts (view ∷ name ∷ []))
      (λ r. date_bucket (child_path at name) view r favorite) _ m (ground arith)
member-Listed p env (date_bucket at view r favorite) name m _ n h =
    bucket_member-Listed (filesystem p env) (date_kind view favorite) _ at (path_parts at) r name m
      refl h
member-Listed p env (hour_bucket at i favorite) name m _ n h =
    access-Listed (filesystem p env) (date_kind "" favorite)
      (λ fs. run_fs (fs.list_hour_assets (date_kind "" favorite).source i)) at name m h
member-Listed p env (saved_view at view) name m _ n h =
    view_member-Listed p env at name m (current_view p view) h
member-Listed p env (saved_view_date_bucket at view r) name m _ n h =
    view_bucket_member-Listed p env at r name m (current_bucket_view p view) h
member-Listed p env (saved_view_hour_bucket at view i) name m _ n h =
    view_hour_member-Listed p env at i name m (current_bucket_view p view) h
member-Listed p env _ name m _ n h = absurd (ground arith)
