-- ===== src/Provider/Requests.antt =====
-- src/immich_bridge/webdav_provider.py: what is asked of Immich to change something, and steps that
-- may ask.
use immich_bridge.Prelude.{ℕ, String, Option, List, ◌∷◌}
use immich_bridge.Json.{Fields}
use immich_bridge.Cache.{InMemoryCache}
use immich_bridge.Provider.{Result, ok, raise, FsResult, run_fs}

-- What the provider asks of Immich to change something. An upload carries the file's bytes.
pub data Request : Type 0 where
  create_album : String → Request
  upload_asset : String → Option String → List ℕ → Request
  add_asset_to_album : String → String → Request
  remove_asset_from_album : String → String → Request

-- What is taken from outside: Python's `mimetypes` and `str.lower`, and Immich's answer to a
-- request, which may depend on the requests it answered before.
pub record Platform : Type 0 where
  pub guess_type : String → Option String
  pub lower : String → String
  pub answer : List Request → Request → FsResult Fields

-- What a request changes: the cache, and what was asked of Immich, newest first.
pub record World : Type 0 where
  pub cache : InMemoryCache
  pub requests : List Request

abbrev pub Step {ℓ} : Type ℓ → Type ℓ
Step A = World → Result A × World

infixl 5 ◌>>=◌
abbrev pub ◌>>=◌ {ℓ κ} : {A : Type ℓ} {B : Type κ} → Step A → (A → Step B) → Step B
(m >>= f) w = elim (m w).0 [ ok a ↦ f a (m w).1 | raise e ↦ (raise e, (m w).1) ]

abbrev pub done {ℓ} : {A : Type ℓ} → A → Step A
done a w = (ok a, w)

abbrev pub give {ℓ} : {A : Type ℓ} → Result A → Step A
give r w = (r, w)

-- A call of the client with its `ImmichApiError` mapped.
unfoldable pub send : Platform → Request → Step Fields
send platform request w =
    (run_fs (platform.answer w.requests request), record w { requests = request ∷ w.requests })
