-- ===== src/Provider/Writes/Laws.antt =====
-- src/immich_bridge/webdav_provider.py: what the writing requests ask of Immich and leave behind.
use immich_bridge.Prelude.{
  String, ◌≡◌, inl, inr, refl, sym, subst, Bool, true, false, not, Option, none, some, List, ◌∷◌,
  arith, Bool-cases, if◌then◌else◌,
}
use immich_bridge.Json.{Fields}
use immich_bridge.Provider.{
  Result, ok, raise, album_id, Resource, root, album, asset, upload, Environ, Provider, forbidden,
  albums_root, macos_metadata,
}
use immich_bridge.Provider.Settings.{write_allowed}
use immich_bridge.Provider.Writes.{
  is_supported_media_upload_name, id_of, client, create_empty_resource, remove_asset, handle_delete,
}
use immich_bridge.Provider.Requests.{
  Request, remove_asset_from_album, Platform, World, ◌>>=◌, done, give, send,
}
use immich_bridge.Provider.Names.{is_macos_metadata_file}
use immich_bridge.Paths.{child_path}

-- What a deletion may have asked: nothing, or the removal of the asset of the resource from the
-- album it was reached through.
pub data AsksRemoval (p : Provider) (before : List Request) : Resource → List Request → Type 0 where
  nothing : {res : Resource} → AsksRemoval p before res before
  removal :
      {path : String} {a : Fields} {album_id asset_id : String}
      → write_allowed p "albumMembershipDelete" true ≡ true
      → id_of p a ≡ ok asset_id
      → AsksRemoval p before
          (asset path a (some album_id))
          (remove_asset_from_album album_id asset_id ∷ before)

module _ (p : Provider) (platform : Platform) (env : Environ) where
  requests_after :
      (request : Request) (w : World)
      → ((send platform request >>= λ _. done true) w).1.requests ≡ request ∷ w.requests
  unfolding send
  requests_after request w = ground arith

  removed :
      (path : String) (a : Fields) (album_id : String) (w : World)
      → write_allowed p "albumMembershipDelete" true ≡ true
      → (id : Result String) → id_of p a ≡ id
      → (key : Result String)
      → AsksRemoval p w.requests
          (asset path a (some album_id))
          ((give id >>= λ i. give key >>= λ _.
              send platform (remove_asset_from_album album_id i) >>= λ _. done true)
            w).1.requests
  removed path a album_id w allowed (raise e) h key = nothing
  removed path a album_id w allowed (ok i) h (raise e) = nothing
  removed path a album_id w allowed (ok i) h (ok key) =
      subst (AsksRemoval p w.requests (asset path a (some album_id)))
        (sym (requests_after (remove_asset_from_album album_id i) w)) (removal allowed h)

  -- A deletion asks Immich for nothing, or, if the policy allows it, for the removal of exactly the
  -- resource's asset from exactly the album that the resource was reached through. It never asks
  -- for more, whatever Immich answers.
  pub handle_delete_asks :
      (res : Resource) (w : World)
      → AsksRemoval p w.requests res (handle_delete p platform env res w).1.requests
  unfolding handle_delete remove_asset
  handle_delete_asks (asset path a none) w = nothing
  handle_delete_asks (asset path a (some album_id)) w =
      elim (Bool-cases (write_allowed p "albumMembershipDelete" true)) [
        | inl allowed ↦
            subst (AsksRemoval p w.requests (asset path a (some album_id))) (ground arith)
              (removed path a album_id w allowed (id_of p a) refl (client env))
        | inr refused ↦
            subst (AsksRemoval p w.requests (asset path a (some album_id))) (ground arith) nothing
      ]
  handle_delete_asks _ w = nothing

  -- The setting that a collection's uploads are under.
  abbrev pub upload_setting : Resource → String
  upload_setting (root path) = "rootUploads"
  upload_setting _ = "albumUploads"

  -- The tests that both uploading collections make.
  guarded :
      (metadata allowed supported : Bool) (at name filename path : String)
      (target to_album : Option String)
      → (if metadata
          then ok (macos_metadata at)
          else if not allowed
          then raise forbidden
          else if not supported
          then raise forbidden
          else ok (upload at name target))
        ≡ ok (upload path filename to_album)
      → (allowed ≡ true) × (supported ≡ true) × (filename ≡ name)
  guarded true allowed supported at name filename path target to_album h = absurd (ground arith)
  guarded false false supported at name filename path target to_album h = absurd (ground arith)
  guarded false true false at name filename path target to_album h = absurd (ground arith)
  guarded false true true at name filename path target to_album h = (refl, refl, ground arith)

  macos_or_refused :
      (metadata : Bool) (at path filename : String) (to_album : Option String)
      → ¬ (
          (if metadata then ok (macos_metadata at) else raise forbidden)
          ≡ ok (upload path filename to_album))
  macos_or_refused true at path filename to_album h = absurd (ground arith)
  macos_or_refused false at path filename to_album h = absurd (ground arith)

  -- A `PUT` to a new name is taken as an upload only where the write policy allows uploads to that
  -- collection and the name is a supported medium's, and the upload keeps that name.
  pub upload_is_allowed :
      (res : Resource) (name path filename : String) (to_album : Option String)
      → create_empty_resource p platform env res name ≡ ok (upload path filename to_album)
      → (write_allowed p (upload_setting res) true ≡ true)
        × (is_supported_media_upload_name platform name ≡ true)
        × (filename ≡ name)
  unfolding create_empty_resource
  upload_is_allowed (root at) name path filename to_album h =
      guarded (is_macos_metadata_file name) (write_allowed p "rootUploads" true)
        (is_supported_media_upload_name platform name) (child_path "" name) name filename path none
        to_album h
  upload_is_allowed (album at e) name path filename to_album h =
      guarded (is_macos_metadata_file name) (write_allowed p "albumUploads" true)
        (is_supported_media_upload_name platform name) (child_path at name) name filename path
        (some (album_id p e)) to_album h
  upload_is_allowed (albums_root at) name path filename to_album h =
      absurd (
        macos_or_refused (is_macos_metadata_file name) (child_path at name) path filename to_album
          h)
  upload_is_allowed _ name path filename to_album h = absurd (ground arith)
