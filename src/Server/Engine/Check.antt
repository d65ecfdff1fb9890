-- ===== src/Server/Engine/Check.antt =====
-- `Engine` with its schemas, and `Check`.
use zanguard.Prelude.{ℕ, Bool, true, false, Option, none, some, [], if◌then◌else◌}
use zanguard.Js.Text.{Text}
use zanguard.Js.Maps
use zanguard.Js.Maps.{Map}
use zanguard.Api.Types.{own, shared, inherited, deleted}
use zanguard.Server.Model.{
  Error, no_tenant_context, tenant_deleted, tenant_not_readable, no_schema, no_shared_schema,
  Result, ok, err, ◌>>=◌, Tenant, is_readable, TenantContext, Context,
}
use zanguard.Server.Schema.{CompiledSchema, get_permission}
use zanguard.Server.Engine.{CheckRequest, CheckResult, Lookups, ExprLang, check_permission}

pub record Engine : Type 0 where
  pub schemas : Map CompiledSchema
  pub shared_schemas : Map CompiledSchema
  pub max_check_depth : ℕ

-- `New` with `DefaultConfig`.
abbrev pub new : Engine
new = record { schemas = []; shared_schemas = []; max_check_depth = 25 }

unfoldable pub load_schema : Text → CompiledSchema → Engine → Engine
load_schema tenant_id cs e = record e { schemas = Maps.set tenant_id cs e.schemas }

unfoldable pub load_shared_schema : Text → CompiledSchema → Engine → Engine
load_shared_schema ref cs e = record e { shared_schemas = Maps.set ref cs e.shared_schemas }

abbrev found_or : Error → Option CompiledSchema → Result CompiledSchema
found_or e none = err e
found_or e (some cs) = ok cs

unfoldable pub schema_for_tenant : Engine → TenantContext → Result CompiledSchema
schema_for_tenant e tc = elim tc.tenant.schema_mode [
  | own ↦ found_or (no_schema tc.tenant_id) (Maps.get tc.tenant_id e.schemas)
  | shared ↦
      found_or (no_shared_schema tc.tenant.shared_schema_ref)
        (Maps.get tc.tenant.shared_schema_ref e.shared_schemas)
  | inherited ↦ found_or (no_schema tc.tenant_id) (Maps.get tc.tenant_id e.schemas)
]

abbrev pub is_deleted : Tenant → Bool
is_deleted t = elim t.status [ deleted ↦ true | _ ↦ false ]

module _ (lang : ExprLang) (store : Context → Lookups) (e : Engine) where
  abbrev pub check_in : TenantContext → CheckRequest → CompiledSchema → Result CheckResult
  check_in tc req cs = get_permission cs req.object_type req.permission >>= λ def.
      check_permission lang (store (some tc)) cs e.max_check_depth req def

  unfoldable pub check : Context → CheckRequest → Result CheckResult
  check none req = err no_tenant_context
  check (some tc) req =
      if is_deleted tc.tenant
      then err tenant_deleted
      else if is_readable tc.tenant
      then schema_for_tenant e tc >>= check_in tc req
      else err tenant_not_readable
