-- ===== src/Server/Tenants.antt =====
-- The tenant manager of pkg/tenant: manager.go, config.go and context.go.
pub mod Lifecycle
use zanguard.Prelude.{
  ℕ, suc, Bool, true, false, ◌&&◌, ◌||◌, Option, none, some, List, [], ◌∷◌, if◌then◌else◌, ◌==◌,
  leb, length, or_else,
}
use zanguard.Js.Text.{Text, is_empty}
use zanguard.Api.Types.{TenantStatus, pending, active, suspended, deleted, SchemaMode, TenantConfig}
use zanguard.Server.Model.{
  Error, tenant_deleted, invalid_tenant_id, invalid_transition, Result, ok, err, ◌>>=◌, Tenant,
  TenantContext,
}
use zanguard.Server.Store.{Store}
use zanguard.Server.Store.Tenants.{create_tenant, get_tenant, update_tenant}

-- `[a-z0-9]` and `[a-z0-9-]`
unfoldable pub is_alnum : ℕ → Bool
is_alnum u = leb b'a' u && leb u b'z' || leb b'0' u && leb u b'9'

unfoldable pub is_inner : ℕ → Bool
unfolding is_alnum
is_inner u = is_alnum u || u == b'-'

-- `[a-z0-9-]*[a-z0-9]$`
unfoldable pub ends_well : Text → Bool
unfolding is_inner is_alnum
ends_well [] = false
ends_well (u ∷ []) = is_alnum u
ends_well (u ∷ w ∷ id) = is_inner u && ends_well (w ∷ id)

-- `tenantIDRegexp`: at most 126 inner units between the first and the last.
unfoldable pub matches_tenant_id : Text → Bool
unfolding is_alnum
matches_tenant_id [] = false
matches_tenant_id (u ∷ id) = is_alnum u && ends_well id && leb (length id) 127

unfoldable pub validate_tenant_id : Text → Result (Unit {0})
validate_tenant_id id = if matches_tenant_id id then ok tt else err invalid_tenant_id

abbrev pub default_tenant_config : TenantConfig
default_tenant_config = record {
  max_tuples = 1000000;
  max_requests_per_sec = 1000;
  cache_ttl_override = none;
  allowed_object_types = none;
  retention_days = 30;
  sync_enabled = true;
  webhook_url = none;
  metadata = none;
}

abbrev or_base : ℕ → ℕ → ℕ
or_base n base = if n == 0 then base else n

abbrev or_override : Option ℕ → Option ℕ → Option ℕ
or_override none base = base
or_override (some ttl) base = some ttl

unfoldable pub merge_config : TenantConfig → Option TenantConfig → TenantConfig
merge_config cfg defaults =
    let base = or_else defaults default_tenant_config in
    record cfg {
      max_tuples = or_base cfg.max_tuples base.max_tuples;
      max_requests_per_sec = or_base cfg.max_requests_per_sec base.max_requests_per_sec;
      retention_days = or_base cfg.retention_days base.retention_days;
      cache_ttl_override = or_override cfg.cache_ttl_override base.cache_ttl_override;
    }

-- `Create`; `now` is the clock reading of the manager, and `stored` that of the store.
unfoldable pub create :
    (now stored : ℕ) (id display_name : Text) → SchemaMode → Store → Result Store
create now stored id display_name mode s = validate_tenant_id id >>= λ _.
    create_tenant stored
      (record {
        id = id;
        display_name = if is_empty display_name then id else display_name;
        parent_tenant_id = [];
        status = pending;
        schema_mode = mode;
        shared_schema_ref = [];
        config = default_tenant_config;
        created_at = now;
        updated_at = 0;
      })
      s

abbrev pub activated : ℕ → Tenant → Store → TenantStatus → Result Store
activated now t s deleted = err tenant_deleted
activated now t s _ = update_tenant now (record t { status = active }) s

unfoldable pub activate : ℕ → Text → Store → Result Store
activate now id s = get_tenant id s >>= λ t. activated now t s t.status

abbrev pub suspended_from : ℕ → Tenant → Store → TenantStatus → Result Store
suspended_from now t s active = update_tenant now (record t { status = suspended }) s
suspended_from now t s _ = err invalid_transition

unfoldable pub suspend : ℕ → Text → Store → Result Store
suspend now id s = get_tenant id s >>= λ t. suspended_from now t s t.status

abbrev pub removed : ℕ → Tenant → Store → TenantStatus → Result Store
removed now t s deleted = err tenant_deleted
removed now t s _ = update_tenant now (record t { status = deleted }) s

unfoldable pub delete : ℕ → Text → Store → Result Store
delete now id s = get_tenant id s >>= λ t. removed now t s t.status

-- `BuildContext`, without the merged configuration, which the engine and the store do not read.
unfoldable pub build_context : Text → Store → Result TenantContext
build_context id s = get_tenant id s >>= λ t. ok (record { tenant_id = id; tenant = t })
