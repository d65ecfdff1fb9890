-- ===== src/Server/Service/Cycles.antt =====
-- Cycles of stored tuples, and `Check` on the memory store.
use zanguard.Prelude.{
  ℕ, ◌≤◌, ◌≡◌, ◌≢◌, true, Option, none, some, List, Bool-cases, inl, inr, length,
}
use zanguard.Js.Text.{Text}
use zanguard.Js.Maps
use zanguard.Js.Sets.{member}
use zanguard.Api.Types.{TenantStatus, pending, active, suspended, deleted}
use zanguard.Server.Model.{
  Error, depth_exceeded, Result, ok, err, ◌>>=◌, Tenant, is_readable, TenantContext, Context,
}
use zanguard.Server.Schema.{PermissionDef, CompiledSchema, get_permission}
use zanguard.Server.Engine.{CheckRequest, ExprLang, request_key}
use zanguard.Server.Engine.Check.{Engine, schema_for_tenant, is_deleted, check}
use zanguard.Server.Engine.Keeps.Children.{Enters}
use zanguard.Server.Engine.Depth.{IsShallow, check_permission_deep_enough}
use zanguard.Server.Store.{
  Store, check_direct, list_subjects, list_related_objects, readable_tuples, readable,
  status_readable, check_tenant_readable,
}
use zanguard.Server.Service.{lookups}

status_error : (x : TenantStatus) (e : Error) → status_readable x ≡ err e → e ≢ depth_exceeded
status_error pending e h k = cc
status_error active e h k = cc
status_error suspended e h k = cc
status_error deleted e h k = cc

readable_error : (o : Option Tenant) (e : Error) → readable o ≡ err e → e ≢ depth_exceeded
readable_error none e h k = cc
readable_error (some t) e h k = status_error t.status e h k

-- A read of the memory store fails only as the test of its tenant does.
after_error {ℓ κ} :
    {A : Type ℓ} {B : Type κ} (m : Result A) (f : A → B) (e : Error)
    → (m >>= λ a. ok (f a)) ≡ err e
    → m ≡ err e
after_error (ok a) f e h = cc
after_error (err x) f e h = cc

readable_tuples_error :
    (ctx : Context) (s : Store) (e : Error) → readable_tuples ctx s ≡ err e → e ≢ depth_exceeded
unfolding readable_tuples check_tenant_readable
readable_tuples_error none s e h k = cc
readable_tuples_error (some tc) s e h k =
    readable_error (Maps.get tc.tenant_id s.tenants) e
      (after_error (readable (Maps.get tc.tenant_id s.tenants)) _ e h) k

lookups-IsShallow : (now : ℕ) (s : Store) (ctx : Context) → IsShallow (lookups now s ctx)
unfolding check_direct list_subjects list_related_objects
lookups-IsShallow now s ctx = record {
  direct =
      λ o i r k j e h. readable_tuples_error ctx s e (after_error (readable_tuples ctx s) _ e h);
  subjects = λ o i r e h. readable_tuples_error ctx s e (after_error (readable_tuples ctx s) _ e h);
  related = λ o i r e h. readable_tuples_error ctx s e (after_error (readable_tuples ctx s) _ e h);
}

module _ (lang : ExprLang) (e : Engine) (now : ℕ) (s : Store) (tc : TenantContext)
    (req : CheckRequest) (cs : CompiledSchema) (def : PermissionDef)
    (of_tenant : schema_for_tenant e tc ≡ ok cs)
    (found : get_permission cs req.object_type req.permission ≡ ok def) (keys : List Text)
    (listed : (sub : CheckRequest) (target : PermissionDef)
      → Enters (lookups now s (some tc)) cs req def sub target
      → member (request_key sub target.name) keys ≡ true) where
  -- If the tenant's schema has the permission, and the permissions that the check can enter, over
  -- arrows and usersets, have at most `MaxCheckDepth` keys, then `Check` on the memory store does not
  -- fail for its depth, even where the stored tuples lead round in cycles.
  pub check_deep_enough :
      length keys ≤ e.max_check_depth
      → check lang (lookups now s) e (some tc) req ≢ err depth_exceeded
  unfolding check
  check_deep_enough few = elim (Bool-cases (is_deleted tc.tenant)) [
    | inl gone ↦ rw gone (λ h. cc)
    | inr there ↦ elim (Bool-cases (is_readable tc.tenant)) [
      | inr closed ↦ rw (there, closed) (λ h. cc)
      | inl open_ ↦
          rw (there, open_, of_tenant, found)
            (check_permission_deep_enough lang (lookups now s (some tc)) cs
              (lookups-IsShallow now s (some tc)) req def keys listed e.max_check_depth few)
    ]
  ]
