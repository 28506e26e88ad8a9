-- ===== src/Service/Opens.antt =====
-- src/immich_bridge/fs_service.py: finding the assets of a folder by name.
use immich_bridge.Prelude.{
  ◌≤◌, ◌<◌, ◌*◌, ◌≡◌, ◌⊎◌, inl, inr, refl, ap, ◌∙◌, String, Bool, true, none, some, List, arith,
  length,
}
use immich_bridge.Json.{Fields}
use immich_bridge.Dict.{lookup}
use immich_bridge.FsModel.{DateRange}
use immich_bridge.Provider.{Asset, date_view}
use immich_bridge.Assets.{iso_boundary, asset_display_name, asset_entries}
use immich_bridge.Assets.Entries.{In}
use immich_bridge.Assets.Collisions.{IsUnmixed, longer, asset_entries_listed}
use immich_bridge.Service.{found, ImmichFilesystem, search_all_key, Session, done}
use immich_bridge.Service.Filters.{dated, ordered, with_exif}
use immich_bridge.Service.Memo.{recall}
use immich_bridge.Service.Buckets.{search_all_assets}
use immich_bridge.Service.Folders.{entries_of, named, list_date_assets, resolve_date_asset}
use immich_bridge.Service.Recalls.{and_then_found}
use immich_bridge.Service.Whole.{IsPaged, all_or_truncated, search_all_whole}

-- The filters that the files of a date folder are searched with.
abbrev pub date_filters : Bool → DateRange → Fields
date_filters favorite r =
    ordered "asc"
      (with_exif true (dated (date_view favorite) (iso_boundary r.start) (iso_boundary r.end)))

module _ (fs : ImmichFilesystem) (matching : Fields → List Asset) where
  fits_found :
      (assets : List Asset)
      → length assets ≤ fs.search_max_pages * fs.search_page_size
      → all_or_truncated (fs.search_max_pages * fs.search_page_size) assets ≡ found assets
  fits_found assets h = ground arith

  named_entry :
      (filters : Fields) (name : String) (s : Session) (assets : List Asset)
      → (search_all_assets fs (ordered "asc" (with_exif true filters)) s).0 ≡ found assets
      → (named fs name (entries_of fs filters) s).0
        ≡ found (lookup name (asset_entries fs.provider fs.formats assets))
  unfolding named entries_of
  named_entry filters name s assets e =
      rw
        (and_then_found (search_all_assets fs (ordered "asc" (with_exif true filters)) s)
          (λ a. done (asset_entries fs.provider fs.formats a)) assets e)
        refl

  -- The asset opens by its display name, or that opens another asset and this one opens by its longer
  -- name.
  abbrev pub IsReachable : Bool → DateRange → Session → Asset → Type 0
  IsReachable favorite r s a =
      ((resolve_date_asset fs favorite r (asset_display_name fs.provider fs.formats a) s).0
        ≡ found (some a))
      ⊎ ((b : Asset) × ((resolve_date_asset fs favorite r
              (asset_display_name fs.provider fs.formats a) s).0
            ≡ found (some b))
          × ((resolve_date_asset fs favorite r (longer fs.provider fs.formats a) s).0
              ≡ found (some a)))

  -- If Immich pages the assets that match a date folder, they fit in the allowed pages, and no longer
  -- name of one is the display name or the longer name of another, then each of them opens, however
  -- many share a display name: by its display name, or, where that opens another asset, by
  -- its longer name, where the memo holds nothing for the folder's search.
  pub matching_asset_opens :
      IsPaged fs.client fs.search_page_size matching
      → 1 ≤ fs.search_max_pages
      → fs.search_max_pages < fs.rounds
      → (favorite : Bool) (r : DateRange) (s : Session) (a : Asset)
      → recall (search_all_key (date_filters favorite r)) s.memo ≡ none
      → length (matching (date_filters favorite r)) ≤ fs.search_max_pages * fs.search_page_size
      → IsUnmixed fs.provider fs.formats (matching (date_filters favorite r))
      → In a (matching (date_filters favorite r))
      → IsReachable favorite r s a
  unfolding resolve_date_asset list_date_assets
  matching_asset_opens paged pages enough favorite r s a new fits unmixed member =
      let filters = date_filters favorite r in
      let e =
        search_all_whole fs matching paged pages enough filters s new
        ∙ fits_found (matching filters) fits in
      let opened = λ (name : String).
        named_entry (dated (date_view favorite) (iso_boundary r.start) (iso_boundary r.end)) name s
          (matching filters) e in
      elim (asset_entries_listed fs.provider fs.formats a (matching filters) unmixed member) [
        | inl own ↦ inl (opened (asset_display_name fs.provider fs.formats a) ∙ ap found own)
        | inr (b, other, own) ↦ inr (
          b,
          opened (asset_display_name fs.provider fs.formats a) ∙ ap found other,
          opened (longer fs.provider fs.formats a) ∙ ap found own,
        )
      ]
