-- ===== src/Server/Engine/Granted.antt =====
-- What `Check` answers, against what permissions mean.
use zanguard.Prelude.{
  suc, ◌≡◌, refl, Bool, true, false, Option, none, some, inl, inr, List, [], Bool-cases,
}
use zanguard.Js.Text.{Text}
use zanguard.Server.Model.{Result, ok, err, is_readable, TenantContext, Context}
use zanguard.Server.Schema.{ConditionExpr, PermissionDef, CompiledSchema, get_permission}
use zanguard.Server.Engine.{
  CheckRequest, allow, Lookups, ExprLang, Walk, denied, allowed, failed, evaluate_condition,
  walk_permission, after_condition, with_condition, after_walk, check_permission,
}
use zanguard.Server.Engine.Check.{Engine, schema_for_tenant, check, is_deleted}
use zanguard.Server.Engine.Holds.{Holds}
use zanguard.Server.Engine.Sound.{Result-cases, Sound}
use zanguard.Server.Engine.Sound.Permission.{permission-Sound}

-- The condition of a permission is true, where it has one.
abbrev pub Met : ExprLang → Lookups → CompiledSchema → CheckRequest → Option ConditionExpr → Type 0
Met lang store cs req none = Unit
Met lang store cs req (some c) = evaluate_condition lang store cs req c.compiled ≡ ok true

-- The tenant can be read, its schema has the permission, the permission holds, and its condition is
-- true.
pub record Granted (lang : ExprLang) (store : Context → Lookups) (e : Engine) (tc : TenantContext)
    (req : CheckRequest) : Type 0 where
  pub readable : is_readable tc.tenant ≡ true
  pub schema : CompiledSchema
  pub of_tenant : schema_for_tenant e tc ≡ ok schema
  pub def : PermissionDef
  pub found : get_permission schema req.object_type req.permission ≡ ok def
  pub holds : Holds lang (store (some tc)) schema req def
  pub met : Met lang (store (some tc)) schema req def.condition

module _ (lang : ExprLang) (store : Lookups) (cs : CompiledSchema) (req : CheckRequest) where
  with_condition-Met :
      (c : Option ConditionExpr) (p path : List Text)
      → with_condition lang store cs req c p ≡ ok (allow path)
      → Met lang store cs req c
  with_condition-Met none p path h = tt
  with_condition-Met (some c) p path h = met (evaluate_condition lang store cs req c.compiled) h
    where
      met : (r : Result Bool) → after_condition lang store cs p r ≡ ok (allow path) → r ≡ ok true
      met (ok true) h = refl
      met (ok false) h = cc
      met (err x) h = cc

  after_walk_lem :
      (def : PermissionDef) (path : List Text) (w : Walk)
      → Sound (Holds lang store cs req def) w
      → after_walk lang store cs req def w ≡ ok (allow path)
      → Holds lang store cs req def × Met lang store cs req def.condition
  after_walk_lem def path (denied v) s h = cc
  after_walk_lem def path (allowed p v) s h = (s, with_condition-Met def.condition p path h)
  after_walk_lem def path (failed x) s h = cc

module _ (lang : ExprLang) (store : Context → Lookups) (e : Engine) where
  -- If `Check` allows, there is a tenant that can be read, its schema has the permission, the
  -- permission holds by the tuples of the store (an exclusion by its base alone), and its condition
  -- is true: for every store and every schema, whatever `MaxCheckDepth`.
  pub check-Granted :
      (ctx : Context) (req : CheckRequest) (path : List Text)
      → check lang store e ctx req ≡ ok (allow path)
      → (tc : TenantContext) × (ctx ≡ some tc) × Granted lang store e tc req
  unfolding check check_permission
  check-Granted none req path h = cc
  check-Granted (some tc) req path h = elim (Bool-cases (is_deleted tc.tenant)) [
    | inl gone ↦ absurd (cc (rw gone at h))
    | inr there ↦ elim (Bool-cases (is_readable tc.tenant)) [
      | inr closed ↦ absurd (cc (rw (there, closed) at h))
      | inl readable ↦ elim (Result-cases (schema_for_tenant e tc)) [
        | inr (x, no_cs) ↦ absurd (cc (rw (there, readable, no_cs) at h))
        | inl (cs, of_tenant) ↦
            elim (Result-cases (get_permission cs req.object_type req.permission)) [
              | inr (x, no_def) ↦ absurd (cc (rw (there, readable, of_tenant, no_def) at h))
              | inl (def, found) ↦
                  let (holds, met) =
                    after_walk_lem lang (store (some tc)) cs req def path
                      (walk_permission lang (store (some tc)) cs (suc e.max_check_depth) req def [])
                      (permission-Sound lang (store (some tc)) cs (suc e.max_check_depth) req def
                        [])
                      (rw (there, readable, of_tenant, found) at h) in
                  (
                    tc,
                    refl,
                    record {
                      readable = readable;
                      schema = cs;
                      of_tenant = of_tenant;
                      def = def;
                      found = found;
                      holds = holds;
                      met = met;
                    },
                  )
            ]
      ]
    ]
  ]
