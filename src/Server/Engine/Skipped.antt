-- ===== src/Server/Engine/Skipped.antt =====
-- The children of one permission share the visited keys: a permission that an earlier child entered
-- denies for the later ones.
pub mod Pair
use mathlib.Core.Path.{subst}
use zanguard.Prelude.{
  ℕ, zero, suc, ◌≡◌, refl, Bool, true, false, inl, inr, Option, none, some, List, [], ◌∷◌,
  Bool-cases, arith, if◌then◌else◌, ◌∙◌, sym,
}
use zanguard.Js.Text.{Text, same, same_refl}
use zanguard.Js.Sets.{member}
use zanguard.Server.Model.{Error, Result, ok, err, ObjectRef}
use zanguard.Server.Schema.{
  PermOp, union, intersect, exclusion, direct, PermissionRef, Kind, relation, arrow, condition,
  kind, PermissionDef, CompiledSchema, get_permission,
}
use zanguard.Server.Engine.{
  CheckRequest, CheckResult, deny, allow, Lookups, ExprLang, Visited, Walk, denied, allowed, failed,
  request_key, walk_union, walk_all, walk_intersect, walk_none, walk_exclusion, walk_operation,
  walk_target, walk_targets, walk_arrow, walk_child, walk_permission, check_permission, after_walk,
  if_denied, if_allowed,
}
use zanguard.Server.Engine.Holds.{target_request}
use zanguard.Server.Engine.Keeps.{Keeps, operation-Keeps}
use zanguard.Server.Engine.Keeps.Children.{Errors, first}
use zanguard.Server.Engine.Keeps.Permission.{child-Keeps}

abbrev pub Has : Text → Visited → Type 0
Has key v = member key v ≡ true

abbrev Any : Error → Type 0
Any e = Unit

member-cons : (key k : Text) (v : Visited) → Has key v → Has key (k ∷ v)
unfolding member
member-cons key k v h = ground arith

member_self : (key : Text) (v : Visited) → Has key (key ∷ v)
unfolding member
member_self key v = rw (same_refl key) refl

module _ (lang : ExprLang) (store : Lookups) (cs : CompiledSchema) where
  Any-Errors : Errors Any lang store cs
  Any-Errors = record {
    direct = λ o i r k j e h. tt;
    subjects = λ o i r e h. tt;
    related = λ o i r e h. tt;
    evaluated = λ req program e h. tt;
    bad = tt;
  }

  children-Has :
      (key : Text) (walk : CheckRequest → PermissionDef → Visited → Walk)
      → ((req : CheckRequest) (def : PermissionDef) (v : Visited)
          → Has key v
          → Keeps (Has key) Any (walk req def v))
      → (req : CheckRequest) (def : PermissionDef) (v : Visited) → Has key v
      → Keeps
          (Has key)
          Any
          (walk_operation (walk_child lang store cs walk req) def.operation def.children v)
  children-Has key walk ih req def v h =
      operation-Keeps (Has key) Any _ def.operation def.children v
        (λ c m v' h'.
          child-Keeps lang store cs (Has key) Any Any-Errors req def walk
            (λ req' def' v'' entered h''. ih req' def' v'' h'') req def first c m v' h')
        h

  -- A visited key stays.
  permission-Has :
      (key : Text) (levels : ℕ) (req : CheckRequest) (def : PermissionDef) (v : Visited)
      → Has key v
      → Keeps (Has key) Any (walk_permission lang store cs levels req def v)
  unfolding walk_permission
  permission-Has key zero req def v h = tt
  permission-Has key (suc levels) req def v h =
      elim (Bool-cases (member (request_key req def.name) v)) [
        | inl seen ↦ rw seen h
        | inr new ↦ rw new (
            children-Has key (walk_permission lang store cs levels) (permission-Has key levels) req
              def _ (member-cons key (request_key req def.name) v h))
      ]

  -- A permission that allows has been visited.
  allowed_visits :
      (levels : ℕ) (req : CheckRequest) (def : PermissionDef) (v v' : Visited) (path : List Text)
      → walk_permission lang store cs levels req def v ≡ allowed path v'
      → Has (request_key req def.name) v'
  unfolding walk_permission
  allowed_visits zero req def v v' path h = cc
  allowed_visits (suc levels) req def v v' path h =
      let key = request_key req def.name in
      elim (Bool-cases (member key v)) [
        | inl seen ↦ absurd (cc (rw seen at h))
        | inr new ↦ subst (Keeps (Has key) Any) (rw new at h) (
            children-Has key (walk_permission lang store cs levels) (permission-Has key levels) req
              def (key ∷ v) (member_self key v))
      ]

  -- An arrow child whose relation has one target.
  module _ (levels : ℕ) (req : CheckRequest) (t : ObjectRef) (target : PermissionDef)
      (c : PermissionRef) (k : kind c ≡ arrow)
      (listed : store.list_related_objects req.object_type req.object_id c.arrow_ref ≡ ok (t ∷ []))
      (found : get_permission cs t.kind c.arrow_permission ≡ ok target)
      (named : target.name ≡ c.arrow_permission) where
    abbrev pub target_key : Text
    target_key = request_key (target_request req t c.arrow_permission) c.arrow_permission

    abbrev pub child : Visited → Walk
    child v = walk_child lang store cs (walk_permission lang store cs levels) req c v

    pub child_lem :
        (v : Visited)
        → child v ≡ (
            if member target_key v
            then denied v
            else if_denied
                (walk_permission lang store cs levels
                  (target_request req t c.arrow_permission)
                  target
                  v)
                denied)
    unfolding walk_child walk_arrow walk_targets walk_target
    child_lem v = elim (Bool-cases (member target_key v)) [
      | inl seen ↦ rw (k, walk_child, listed, found, seen) refl
      | inr new ↦ rw (k, walk_child, listed, found, new) refl
    ]

    pub denied_again : (v : Visited) → Has target_key v → child v ≡ denied v
    denied_again v h = child_lem v ∙ rw h refl

    pub allowed_once :
        (v v' : Visited) (path : List Text) → child v ≡ allowed path v' → Has target_key v'
    allowed_once v v' path h = elim (Bool-cases (member target_key v)) [
      | inl seen ↦ absurd (cc (h, denied_again v seen))
      | inr new ↦
          by_walk
            (walk_permission lang store cs levels (target_request req t c.arrow_permission) target
              v)
            refl (from_new new)
    ]
      where
        from_new :
            member target_key v ≡ false
            → if_denied
                (walk_permission lang store cs levels
                  (target_request req t c.arrow_permission)
                  target
                  v)
                denied
              ≡ allowed path v'
        from_new new = subst (λ (w : Walk). w ≡ allowed path v') (child_lem v ∙ rw new refl) h

        by_walk :
            (w : Walk)
            → walk_permission lang store cs levels
                (target_request req t c.arrow_permission)
                target
                v
              ≡ w
            → if_denied w denied ≡ allowed path v'
            → Has target_key v'
        by_walk (denied v'') e g = cc
        by_walk (allowed p v'') e g = rw (← named) (
            allowed_visits levels (target_request req t c.arrow_permission) target v v' path
              (cc (e, g)))
        by_walk (failed x) e g = cc
