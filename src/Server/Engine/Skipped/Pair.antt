-- ===== src/Server/Engine/Skipped/Pair.antt =====
-- Two arrows of one permission that lead to the same permission of the same object.
use zanguard.Prelude.{ℕ, ◌≡◌, refl, none, List, [], ◌∷◌, ◌∙◌, sym}
use zanguard.Js.Text.{Text}
use zanguard.Js.Sets.{member}
use zanguard.Server.Model.{ok, ObjectRef}
use zanguard.Server.Schema.{
  PermOp, union, intersect, exclusion, PermissionRef, arrow, kind, PermissionDef, CompiledSchema,
  get_permission,
}
use zanguard.Server.Engine.{
  CheckRequest, deny, allow, Lookups, ExprLang, Visited, Walk, denied, allowed, failed, request_key,
  walk_union, walk_all, walk_intersect, walk_none, walk_exclusion, walk_operation, walk_child,
  walk_permission, check_permission, if_denied, after_walk,
}
use zanguard.Server.Engine.Skipped.{Has, target_key, child, child_lem, denied_again, allowed_once}

-- The permission with other children and no condition.
abbrev pub with_children : PermissionDef → PermOp → List PermissionRef → PermissionDef
with_children def op children = record def { operation = op; children = children; condition = none }

module _ (lang : ExprLang) (store : Lookups) (cs : CompiledSchema) (depth : ℕ) (req : CheckRequest)
    (def : PermissionDef) where
  abbrev children_walk : PermOp → List PermissionRef → Walk
  children_walk op children =
      walk_operation (walk_child lang store cs (walk_permission lang store cs depth) req) op
        children (request_key req def.name ∷ [])

  check_lem :
      (op : PermOp) (children : List PermissionRef)
      → check_permission lang store cs depth req (with_children def op children)
        ≡ after_walk lang store cs req (with_children def op children) (children_walk op children)
  unfolding check_permission walk_permission member
  check_lem op children = refl

  module _ (c x : PermissionRef) (t : ObjectRef) (target : PermissionDef) (c_arrow : kind c ≡ arrow)
      (x_arrow : kind x ≡ arrow)
      (c_targets : store.list_related_objects req.object_type req.object_id c.arrow_ref
        ≡ ok (t ∷ []))
      (x_targets : store.list_related_objects req.object_type req.object_id x.arrow_ref
        ≡ ok (t ∷ []))
      (same_permission : x.arrow_permission ≡ c.arrow_permission)
      (found : get_permission cs t.kind c.arrow_permission ≡ ok target)
      (named : target.name ≡ c.arrow_permission) where
    abbrev walk_c : Visited → Walk
    walk_c = child lang store cs depth req t target c c_arrow c_targets found named

    abbrev walk_x : Visited → Walk
    walk_x = walk_child lang store cs (walk_permission lang store cs depth) req x

    x_as_c : (v : Visited) → walk_x v ≡ walk_c v
    x_as_c v =
        child_lem lang store cs depth req t target x x_arrow x_targets (rw same_permission found)
          (named ∙ sym same_permission) v
        ∙ rw same_permission refl
        ∙ sym (child_lem lang store cs depth req t target c c_arrow c_targets found named v)

    x_denied :
        (v : Visited)
        → Has (target_key lang store cs depth req t target c c_arrow c_targets found named) v
        → walk_x v ≡ denied v
    x_denied v h =
        x_as_c v ∙ denied_again lang store cs depth req t target c c_arrow c_targets found named v h

    abbrev v₀ : Visited
    v₀ = request_key req def.name ∷ []

    alone :
        (a : PermissionRef) (w : Walk)
        → walk_child lang store cs (walk_permission lang store cs depth) req a v₀ ≡ w
        → check_permission lang store cs depth req (with_children def union (a ∷ []))
          ≡ after_walk lang store cs req (with_children def union (a ∷ [])) (if_denied w denied)
    unfolding walk_operation walk_union
    alone a w e = check_lem union (a ∷ []) ∙ rw e refl

    module _ (p : List Text) (v : Visited) (e : walk_c v₀ ≡ allowed p v) where
      x_skipped : walk_x v ≡ denied v
      x_skipped =
          x_denied v
            (allowed_once lang store cs depth req t target c c_arrow c_targets found named v₀ v p e)

      both_denied :
          check_permission lang store cs depth req (with_children def intersect (c ∷ x ∷ []))
          ≡ ok deny
      unfolding walk_operation walk_intersect walk_all
      both_denied = check_lem intersect (c ∷ x ∷ []) ∙ rw (e, x_skipped) refl

      excluded_allowed :
          check_permission lang store cs depth req (with_children def exclusion (c ∷ x ∷ []))
          ≡ ok (allow [])
      unfolding walk_operation walk_exclusion walk_none
      excluded_allowed = check_lem exclusion (c ∷ x ∷ []) ∙ rw (e, x_skipped) refl

    -- Where an arrow alone allows, by the only target of its relation, and the only target of a
    -- second arrow is the same permission of the same object: the second alone allows too, but the
    -- intersection of the two denies, and the exclusion of the second from the first allows.
    pub second_arrow_skipped :
        (path : List Text)
        → check_permission lang store cs depth req (with_children def union (c ∷ []))
          ≡ ok (allow path)
        → (check_permission lang store cs depth req (with_children def union (x ∷ []))
            ≡ ok (allow path))
          × (check_permission lang store cs depth req (with_children def intersect (c ∷ x ∷ []))
              ≡ ok deny)
          × (check_permission lang store cs depth req (with_children def exclusion (c ∷ x ∷ []))
              ≡ ok (allow []))
    second_arrow_skipped path h = by_walk (walk_c v₀) refl
      where
        by_walk :
            (w : Walk)
            → walk_c v₀ ≡ w
            → (check_permission lang store cs depth req (with_children def union (x ∷ []))
                ≡ ok (allow path))
              × (check_permission lang store cs depth req (with_children def intersect (c ∷ x ∷ []))
                  ≡ ok deny)
              × (check_permission lang store cs depth req (with_children def exclusion (c ∷ x ∷ []))
                  ≡ ok (allow []))
        by_walk (denied v) e = absurd (cc (h, alone c (denied v) e))
        by_walk (allowed p v) e = (
          cc (h, alone c (allowed p v) e, alone x (allowed p v) (x_as_c v₀ ∙ e)),
          both_denied p v e,
          excluded_allowed p v e,
        )
        by_walk (failed y) e = absurd (cc (h, alone c (failed y) e))
