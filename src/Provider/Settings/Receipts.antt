-- ===== src/Provider/Settings/Receipts.antt =====
-- src/immich_bridge/webdav_provider.py: storing and reading upload receipts.
use immich_bridge.Prelude.{
  ℕ, ◌+◌, ◌≤◌, String, ◌≡◌, ◌≢◌, ap, ◌∙◌, inl, inr, some, arith, str_eq_refl, Option-cases, concat,
}
use immich_bridge.Cache.{InMemoryCache, get_json}
use immich_bridge.Cache.Expiry.{read_after_set}
use immich_bridge.Provider.{Environ, Provider, Receipt, upload_receipt, present_key}
use immich_bridge.Provider.Settings.{
  user_scope, receipt_key, receipt_dict, receipt_of_dict, receipt_of_cached,
  remember_upload_receipt, upload_receipt_resource,
}
use mathlib.Core.Option

receipt_of_dict-receipt_dict :
    (r : Receipt) (created_at : String) → receipt_of_dict (receipt_dict r created_at) ≡ some r
unfolding receipt_of_dict receipt_dict
receipt_of_dict-receipt_dict r created_at = ground (arith)

receipt_of_cached-receipt_dict :
    (r : Receipt) (created_at : String)
    → receipt_of_cached (some (receipt_dict r created_at)) ≡ some r
unfolding receipt_of_cached receipt_dict
receipt_of_cached-receipt_dict r created_at = receipt_of_dict-receipt_dict r created_at

upload_receipt_resource-key :
    (p : Provider) (now : ℕ) (path : String) (env : Environ) (cache : InMemoryCache) (key : String)
    → receipt_key p path env ≡ some key
    → (upload_receipt_resource p now path env cache).0
      ≡ Option.map (upload_receipt path) (receipt_of_cached (get_json now key cache).0)
unfolding upload_receipt_resource
upload_receipt_resource-key p now path env cache key h = ground arith

pub receipt_remembered :
    (p : Provider) (now later : ℕ) (path : String) (env : Environ) (r : Receipt)
    (created_at : String) (cache : InMemoryCache) (key : String)
    → receipt_key p path env ≡ some key
    → p.upload_receipt_ttl_seconds ≢ 0
    → later ≤ now + p.upload_receipt_ttl_seconds
    → (upload_receipt_resource p later path env
        (remember_upload_receipt p now path env r created_at cache)).0
      ≡ some (upload_receipt path r)
unfolding remember_upload_receipt
receipt_remembered p now later path env r created_at cache key k t l =
    upload_receipt_resource-key p later path env _ key k
    ∙ ap (λ c. Option.map (upload_receipt path) (receipt_of_cached c)) read
    ∙ ap (Option.map (upload_receipt path)) (receipt_of_cached-receipt_dict r created_at)
  where
    read :
        (get_json later key (remember_upload_receipt p now path env r created_at cache)).0
        ≡ some (receipt_dict r created_at)
    read = ground (
      arith,
      read_after_set now later key key (receipt_dict r created_at) p.upload_receipt_ttl_seconds
          cache,
      str_eq_refl key,
    )

user_scope-present :
    (p : Provider) (env : Environ) (key : String)
    → present_key env.api_key ≡ some key
    → (scope : String) × (user_scope p env ≡ some scope)
unfolding user_scope
user_scope-present p env key h = elim (Option-cases (user_scope p env)) [
  | inl e ↦ absurd (ground arith)
  | inr scope ↦ scope
]

-- A request with an API key has a place for its receipts.
pub receipt_key-present :
    (p : Provider) (path : String) (env : Environ) (key : String)
    → present_key env.api_key ≡ some key
    → (k : String) × (receipt_key p path env ≡ some k)
unfolding receipt_key
receipt_key-present p path env key h =
    let (scope, e) = user_scope-present p env key h in
    (
      _,
      ap (Option.map (λ scope. concat "dav-receipt:" (concat scope (concat ":" (p.sha256 path)))))
          e,
    )
