-- ===== src/Provider/Writes/Keys.antt =====
-- src/immich_bridge/webdav_provider.py: writing requests with no API key.
use immich_bridge.Prelude.{
  ℕ, String, ◌≡◌, refl, ◌∙◌, inl, inr, Bool, true, false, none, some, arith, Bool-cases,
  Option-cases,
}
use immich_bridge.Json.{Fields}
use immich_bridge.Provider.{
  forbidden, Result, ok, raise, Resource, asset, albums_root, present_key, Environ, Provider,
}
use immich_bridge.Provider.Settings.{write_allowed}
use immich_bridge.Provider.Requests.{
  Platform, World, remove_asset_from_album, give, done, send, ◌>>=◌,
}
use immich_bridge.Provider.Staging.{Upload}
use immich_bridge.Provider.Writes.{
  client, id_of, create_album_step, upload_staged, upload_or_raise, finish, end_write,
  create_collection, remove_asset, handle_delete,
}

module _ (p : Provider) (platform : Platform) (env : Environ)
    (no_key : present_key env.api_key ≡ none) where
  no_client : client env ≡ raise forbidden
  unfolding client
  no_client = ground arith

  remove_asset_no_key :
      (album_id : String) (a : Fields) (w : World)
      → (remove_asset p platform env album_id a w).1 ≡ w
  unfolding remove_asset
  remove_asset_no_key album_id a w = go (id_of p a)
    where
      go :
          (id : Result String)
          → ((give id >>= λ i. give (client env) >>= λ _.
                send platform (remove_asset_from_album album_id i) >>= λ _. done true)
              w).1
            ≡ w
      go (raise e) = refl
      go (ok i) = rw no_client refl

  handle_delete_no_key : (res : Resource) (w : World) → (handle_delete p platform env res w).1 ≡ w
  unfolding handle_delete
  handle_delete_no_key (asset path a none) w = refl
  handle_delete_no_key (asset path a (some album_id)) w =
      elim (Bool-cases (write_allowed p "albumMembershipDelete" true)) [
        | inl allowed ↦ rw allowed (remove_asset_no_key album_id a w)
        | inr refused ↦ rw refused refl
      ]
  handle_delete_no_key _ w = refl

  create_collection_no_key :
      (res : Resource) (name : String) (w : World)
      → (create_collection p platform env res name w).1 ≡ w
  unfolding create_collection create_album_step
  create_collection_no_key (albums_root path) name w = rw no_client (ground arith)
  create_collection_no_key _ name w = refl

  finish_world :
      (unlinked : Bool) (u : Upload) (r : Result Fields × World)
      → (finish p platform env unlinked u r).2 ≡ r.1
  unfolding finish
  finish_world unlinked u (ok payload, w) = refl
  finish_world unlinked u (raise e, w) = refl

  upload_or_raise_no_key :
      (now : ℕ) (created_at : String) (u : Upload) (w : World)
      → (upload_or_raise p platform env now created_at u w).1 ≡ w
  unfolding upload_or_raise upload_staged
  upload_or_raise_no_key now created_at u w = elim (Option-cases u.temp) [
    | inl e ↦ rw e refl
    | inr (bytes, e) ↦ rw (e, no_client) refl
  ]

  end_write_no_key :
      (now : ℕ) (created_at : String) (unlinked with_errors : Bool) (u : Upload) (w : World)
      → (end_write p platform env now created_at unlinked with_errors u w).2 ≡ w
  unfolding end_write
  end_write_no_key now created_at unlinked true u w = refl
  end_write_no_key now created_at unlinked false u w =
      finish_world unlinked u (upload_or_raise p platform env now created_at u w)
      ∙ upload_or_raise_no_key now created_at u w

  -- A request with no API key asks nothing of Immich and leaves the cache, whatever it is: the end of
  -- an upload, a deletion, or a new album.
  pub no_key_no_change :
      (res : Resource) (name : String) (now : ℕ) (created_at : String) (unlinked with_errors : Bool)
      (u : Upload) (w : World)
      → ((end_write p platform env now created_at unlinked with_errors u w).2 ≡ w)
        × ((handle_delete p platform env res w).1 ≡ w)
        × ((create_collection p platform env res name w).1 ≡ w)
  no_key_no_change res name now created_at unlinked with_errors u w = (
    end_write_no_key now created_at unlinked with_errors u w,
    handle_delete_no_key res w,
    create_collection_no_key res name w,
  )
