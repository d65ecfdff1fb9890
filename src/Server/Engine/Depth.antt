-- ===== src/Server/Engine/Depth.antt =====
-- When a check cannot fail for its depth.
use zanguard.Prelude.{
  ℕ, zero, suc, ◌≤◌, ◌-◌, ◌<◌, ◌≡◌, ◌≢◌, refl, Bool, true, false, inl, inr, Option, none, some,
  List, [], ◌∷◌, Bool-cases, arith, length, if◌then◌else◌,
}
use zanguard.Js.Text.{Text, same_iff, same_refl}
use zanguard.Js.Json.{Json}
use zanguard.Js.Sets.{member}
use zanguard.Server.Model.{Error, depth_exceeded, Result, ok, err}
use zanguard.Server.Schema.{ConditionExpr, PermissionDef, CompiledSchema}
use zanguard.Server.Engine.{
  CheckRequest, Lookups, ExprLang, Visited, Walk, denied, allowed, failed, request_key, as_bool,
  evaluate_condition, walk_permission, after_walk, with_condition, after_condition,
  check_permission,
}
use zanguard.Server.Engine.Keeps.{Keeps, Keeps-map, operation-Keeps}
use zanguard.Server.Engine.Keeps.Children.{Errors, Enters, first}
use zanguard.Server.Engine.Keeps.Permission.{child-Keeps}

-- How many of the keys are not visited.
pub missing : List Text → Visited → ℕ
missing [] v = 0
missing (k ∷ u) v = let rest = missing u v in if member k v then rest else suc rest

pub missing_nil : (u : List Text) → missing u [] ≡ length u
unfolding missing member
missing_nil [] = refl
missing_nil (k ∷ u) = omega (arith, missing_nil u)

missing-visit : (k : Text) (u v : List Text) → missing u (k ∷ v) ≤ missing u v
unfolding missing member
missing-visit k [] v = omega arith
missing-visit k (j ∷ u) v = ground (arith, missing-visit k u v)

pub missing-visit_new :
    (k : Text) (u v : List Text)
    → member k u ≡ true
    → member k v ≡ false
    → missing u (k ∷ v) < missing u v
unfolding missing member
missing-visit_new k [] v h g = cc
missing-visit_new k (j ∷ u) v h g =
    ground (arith, missing-visit k u v, missing-visit_new k u v, same_iff j k, same_refl k)

as_bool_error : (o : Option Json) (e : Error) → as_bool o ≡ err e → e ≢ depth_exceeded
as_bool_error none e h = λ k. cc
as_bool_error (some (Json.bool b)) e h = λ k. cc
as_bool_error (some v) e h = λ k. cc

evaluate_condition_error :
    (lang : ExprLang) (store : Lookups) (cs : CompiledSchema) (req : CheckRequest) (program : Text)
    (e : Error)
    → evaluate_condition lang store cs req program ≡ err e
    → e ≢ depth_exceeded
unfolding evaluate_condition
evaluate_condition_error lang store cs req program e h = as_bool_error _ e h

-- No read of the store fails by a depth.
pub record IsShallow (store : Lookups) : Type 0 where
  pub direct :
      (o i r k j : Text) (e : Error) → store.check_direct o i r k j ≡ err e → e ≢ depth_exceeded
  pub subjects : (o i r : Text) (e : Error) → store.list_subjects o i r ≡ err e → e ≢ depth_exceeded
  pub related :
      (o i r : Text) (e : Error) → store.list_related_objects o i r ≡ err e → e ≢ depth_exceeded

abbrev IsOther : Error → Type 0
IsOther e = e ≢ depth_exceeded

abbrev AtMost : List Text → ℕ → Visited → Type 0
AtMost u n v = missing u v ≤ n

module _ (lang : ExprLang) (store : Lookups) (cs : CompiledSchema) (shallow : IsShallow store)
    (req₀ : CheckRequest) (def₀ : PermissionDef) (u : List Text) where
  errors : Errors IsOther lang store cs
  errors = record {
    direct = shallow.direct;
    subjects = shallow.subjects;
    related = shallow.related;
    evaluated = evaluate_condition_error lang store cs;
    bad = λ h. cc;
  }

  module _
      (listed : (req : CheckRequest) (def : PermissionDef)
        → Enters store cs req₀ def₀ req def
        → member (request_key req def.name) u ≡ true) where
    permission-Keeps :
        (levels n : ℕ) (req : CheckRequest) (def : PermissionDef) (v : Visited)
        → Enters store cs req₀ def₀ req def
        → n < levels
        → missing u v ≤ n
        → Keeps (AtMost u n) IsOther (walk_permission lang store cs levels req def v)
    unfolding walk_permission
    permission-Keeps zero n req def v entered l h = elim l [ ]
    permission-Keeps (suc levels) n req def v entered l h =
        elim (Bool-cases (member (request_key req def.name) v)) [
          | inl seen ↦ rw seen h
          | inr new ↦
              let key = request_key req def.name in
              let fewer = missing-visit_new key u v (listed req def entered) new in
              rw new (
                Keeps-map (AtMost u (n - 1)) (AtMost u n) IsOther _ (λ v' h'. omega arith)
                  (operation-Keeps (AtMost u (n - 1)) IsOther _ def.operation def.children (key ∷ v)
                    (λ c m v' h'.
                      child-Keeps lang store cs (AtMost u (n - 1)) IsOther errors req₀ def₀
                        (walk_permission lang store cs levels)
                        (λ req' def' v'' entered' h''.
                          permission-Keeps levels (n - 1) req' def' v'' entered' (omega arith) h'')
                        req def entered c m v' h')
                    (omega arith)))
        ]

    with_condition-error :
        (req : CheckRequest) (c : Option ConditionExpr) (path : List Text)
        → with_condition lang store cs req c path ≢ err depth_exceeded
    with_condition-error req none path = λ h. cc
    with_condition-error req (some c) path =
        evaluated (evaluate_condition lang store cs req c.compiled) refl
      where
        evaluated :
            (r : Result Bool)
            → evaluate_condition lang store cs req c.compiled ≡ r
            → after_condition lang store cs path r ≢ err depth_exceeded
        evaluated (ok true) e h = cc
        evaluated (ok false) e h = cc
        evaluated (err x) e h = evaluate_condition_error lang store cs req c.compiled x e (cc)

    after_walk-error :
        (n : ℕ) (req : CheckRequest) (def : PermissionDef) (w : Walk)
        → Keeps (AtMost u n) IsOther w
        → after_walk lang store cs req def w ≢ err depth_exceeded
    after_walk-error n req def (denied v) k = λ h. cc
    after_walk-error n req def (allowed path v) k = with_condition-error req def.condition path
    after_walk-error n req def (failed e) k = λ h. k (cc)

    -- A check that can enter only the permissions of a list, no longer than `MaxCheckDepth`, does not
    -- fail for its depth, in whatever cycles they lead to one another.
    pub check_permission_deep_enough :
        (max_check_depth : ℕ)
        → length u ≤ max_check_depth
        → check_permission lang store cs max_check_depth req₀ def₀ ≢ err depth_exceeded
    unfolding check_permission
    check_permission_deep_enough d h =
        after_walk-error d req₀ def₀ _ (
          permission-Keeps (suc d) d req₀ def₀ [] first (omega arith)
            (omega (arith, missing_nil u)))
