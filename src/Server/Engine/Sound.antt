-- ===== src/Server/Engine/Sound.antt =====
-- What a walk that allows shows.
pub mod Children
pub mod Permission
use zanguard.Prelude.{
  ℕ, zero, suc, ◌≡◌, refl, Bool, true, false, ◌⊎◌, inl, inr, List, [], ◌∷◌, Bool-cases,
}
use zanguard.Js.Text.{is_empty}
use zanguard.Js.Sets.{member}
use zanguard.Server.Model.{Error, Result, ok, err, ObjectRef, SubjectRef}
use zanguard.Server.Schema.{
  PermOp, union, intersect, exclusion, direct, PermissionRef, Kind, relation, arrow, condition,
  kind, PermissionDef, CompiledSchema, get_permission,
}
use zanguard.Server.Engine.{
  CheckRequest, Lookups, ExprLang, Visited, Walk, denied, allowed, failed, visit_key, request_key,
  if_denied, if_allowed, walk_union, walk_all, walk_intersect, walk_none, walk_exclusion,
  walk_operation, from_condition, evaluate_condition, walk_condition, plain_relation, walk_userset,
  walk_subject, walk_subjects, after_direct, walk_relation, walk_target, walk_targets, walk_arrow,
  walk_child, walk_permission,
}
use zanguard.Server.Engine.Holds.{
  In, here, there, userset_request, target_request, Holds, any_of, all_of, base_of, AllHold,
  none_left, one_more, ChildHolds, by_tuple, by_userset, by_plain_userset, by_arrow, by_condition,
}

pub Result-cases {ℓ} :
    {A : Type ℓ} (r : Result A) → ((a : A) × (r ≡ ok a)) ⊎ ((e : Error) × (r ≡ err e))
Result-cases (ok a) = inl (a, refl)
Result-cases (err e) = inr (e, refl)

-- `P` holds if the walk allows.
abbrev pub Sound {ℓ} : Type ℓ → Walk → Type ℓ
Sound P (denied v) = Unit
Sound P (allowed path v) = P
Sound P (failed e) = Unit

pub Sound-map {ℓ κ} : {P : Type ℓ} {Q : Type κ} (w : Walk) → (P → Q) → Sound P w → Sound Q w
Sound-map (denied v) f h = tt
Sound-map (allowed path v) f h = f h
Sound-map (failed e) f h = tt

pub Sound-if_denied {ℓ} :
    (P : Type ℓ) (w : Walk) (next : Visited → Walk)
    → Sound P w
    → ((v : Visited) → Sound P (next v))
    → Sound P (if_denied w next)
Sound-if_denied P (denied v) next h k = k v
Sound-if_denied P (allowed path v) next h k = h
Sound-if_denied P (failed e) next h k = tt

pub Sound-if_allowed {ℓ κ} :
    (P : Type ℓ) (Q : Type κ) (w : Walk) (next : Visited → Walk)
    → Sound P w
    → (P → (v : Visited) → Sound Q (next v))
    → Sound Q (if_allowed w next)
Sound-if_allowed P Q (denied v) next h k = tt
Sound-if_allowed P Q (allowed path v) next h k = k h v
Sound-if_allowed P Q (failed e) next h k = tt
