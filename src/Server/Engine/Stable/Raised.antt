-- ===== src/Server/Engine/Stable/Raised.antt =====
-- A higher `MaxCheckDepth` and the answers of `Check`.
use zanguard.Prelude.{
  ℕ, zero, suc, ◌≤◌, ◌≡◌, ◌≢◌, refl, ◌∙◌, none, some, [], Bool-cases, inl, inr, arith, leb,
}
use zanguard.Server.Model.{depth_exceeded, Result, ok, err, ◌>>=◌, is_readable, Context}
use zanguard.Server.Schema.{PermissionDef, CompiledSchema, get_permission}
use zanguard.Server.Engine.{CheckRequest, Lookups, ExprLang, Walk, after_walk, check_permission}
use zanguard.Server.Engine.Check.{Engine, schema_for_tenant, is_deleted, check_in, check}
use zanguard.Server.Engine.Stable.{Stable}
use zanguard.Server.Engine.Stable.Permission.{permission-Stable}

module _ (lang : ExprLang) (store : Lookups) (cs : CompiledSchema) (req : CheckRequest)
    (def : PermissionDef) where
  after_walk-Stable :
      (w w' : Walk)
      → Stable w w'
      → after_walk lang store cs req def w ≢ err depth_exceeded
      → after_walk lang store cs req def w' ≡ after_walk lang store cs req def w
  after_walk-Stable w w' (inl e) h = absurd (h (rw e refl))
  after_walk-Stable w w' (inr e) h = rw e refl

  check_permission_next :
      (d : ℕ)
      → check_permission lang store cs d req def ≢ err depth_exceeded
      → check_permission lang store cs (suc d) req def ≡ check_permission lang store cs d req def
  unfolding check_permission
  check_permission_next d h =
      after_walk-Stable _ _ (permission-Stable lang store cs (suc d) req def []) h

  check_permission_stable :
      (d d' : ℕ)
      → d ≤ d'
      → check_permission lang store cs d req def ≢ err depth_exceeded
      → check_permission lang store cs d' req def ≡ check_permission lang store cs d req def
  check_permission_stable d zero l h = let e : d ≡ zero = omega arith in rw e refl
  check_permission_stable d (suc m) l h = elim (Bool-cases (leb d m)) [
    | inl below ↦
        let e = check_permission_stable d m (ground arith) h in
        check_permission_next m (λ x. h (cc (e, x))) ∙ e
    | inr at_end ↦ let e : d ≡ suc m = ground arith in rw e refl
  ]

-- An answer of `Check`, and any failure but that of the depth, stays the same under every higher
-- `MaxCheckDepth`.
pub check_stable :
    (lang : ExprLang) (store : Context → Lookups) (e : Engine) (d : ℕ) (ctx : Context)
    (req : CheckRequest)
    → e.max_check_depth ≤ d
    → check lang store e ctx req ≢ err depth_exceeded
    → check lang store (record e { max_check_depth = d }) ctx req ≡ check lang store e ctx req
unfolding check schema_for_tenant
check_stable lang store e d none req l h = refl
check_stable lang store e d (some tc) req l h = elim (Bool-cases (is_deleted tc.tenant)) [
  | inl gone ↦ rw gone refl
  | inr there ↦ elim (Bool-cases (is_readable tc.tenant)) [
    | inr closed ↦ rw (there, closed) refl
    | inl open_ ↦ rw (there, open_) (by_schema (schema_for_tenant e tc) (rw (there, open_) at h))
  ]
]
  where
    by_schema :
        (r : Result CompiledSchema)
        → (r >>= check_in lang store e tc req) ≢ err depth_exceeded
        → (r >>= check_in lang store (record e { max_check_depth = d }) tc req)
          ≡ (r >>= check_in lang store e tc req)
    by_schema (err x) k = refl
    by_schema (ok cs) k = by_def (get_permission cs req.object_type req.permission) k
      where
        by_def :
            (p : Result PermissionDef)
            → (p >>= check_permission lang (store (some tc)) cs e.max_check_depth req)
              ≢ err depth_exceeded
            → (p >>= check_permission lang (store (some tc)) cs d req)
              ≡ (p >>= check_permission lang (store (some tc)) cs e.max_check_depth req)
        by_def (err x) k = refl
        by_def (ok def) k =
            check_permission_stable lang (store (some tc)) cs req def e.max_check_depth d l k
