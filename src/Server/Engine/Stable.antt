-- ===== src/Server/Engine/Stable.antt =====
-- What a higher `MaxCheckDepth` changes in the loops.
pub mod Permission
pub mod Raised
use zanguard.Prelude.{
  ℕ, zero, suc, ◌+◌, ◌≡◌, ◌≢◌, refl, ◌∙◌, Bool, true, false, ◌⊎◌, inl, inr, Option, none, some,
  List, [], ◌∷◌, Bool-cases,
}
use zanguard.Js.Text.{Text, is_empty}
use zanguard.Js.Sets.{member}
use zanguard.Server.Model.{Error, depth_exceeded, Result, ok, err, ObjectRef, SubjectRef}
use zanguard.Server.Schema.{
  PermOp, union, intersect, exclusion, direct, PermissionRef, Kind, relation, arrow, condition,
  kind, PermissionDef, CompiledSchema, get_permission,
}
use zanguard.Server.Engine.{
  CheckRequest, Lookups, ExprLang, Visited, Walk, denied, allowed, failed, visit_key, request_key,
  if_denied, if_allowed, if_not_excluded, walk_union, walk_all, walk_intersect, walk_none,
  walk_exclusion, walk_operation, plain_relation, walk_userset, walk_subject, walk_subjects,
  after_direct, walk_relation, walk_target, walk_targets, walk_arrow, walk_child, walk_condition,
  walk_permission, after_walk, check_permission,
}
use zanguard.Server.Engine.Holds.{userset_request, target_request}
use zanguard.Server.Engine.Sound.{Result-cases}

-- The second walk goes as the first, unless that fails for its depth.
abbrev pub Stable : Walk → Walk → Type 0
Stable w w' = (w ≡ failed depth_exceeded) ⊎ (w' ≡ w)

module _ (next next' : Visited → Walk) (k : (v : Visited) → Stable (next v) (next' v)) where
  pub Stable-if_denied :
      (w w' : Walk) → Stable w w' → Stable (if_denied w next) (if_denied w' next')
  Stable-if_denied w w' (inl e) = rw e (inl refl)
  Stable-if_denied (denied v) w' (inr e) = rw e (k v)
  Stable-if_denied (allowed path v) w' (inr e) = rw e (inr refl)
  Stable-if_denied (failed x) w' (inr e) = rw e (inr refl)

  Stable-if_allowed : (w w' : Walk) → Stable w w' → Stable (if_allowed w next) (if_allowed w' next')
  Stable-if_allowed w w' (inl e) = rw e (inl refl)
  Stable-if_allowed (denied v) w' (inr e) = rw e (inr refl)
  Stable-if_allowed (allowed path v) w' (inr e) = rw e (k v)
  Stable-if_allowed (failed x) w' (inr e) = rw e (inr refl)

  Stable-if_not_excluded :
      (w w' : Walk) → Stable w w' → Stable (if_not_excluded w next) (if_not_excluded w' next')
  Stable-if_not_excluded w w' (inl e) = rw e (inl refl)
  Stable-if_not_excluded (denied v) w' (inr e) = rw e (k v)
  Stable-if_not_excluded (allowed path v) w' (inr e) = rw e (inr refl)
  Stable-if_not_excluded (failed x) w' (inr e) = rw e (inr refl)

module _ (child child' : PermissionRef → Visited → Walk)
    (k : (c : PermissionRef) (v : Visited) → Stable (child c v) (child' c v)) where
  union-Stable :
      (cs : List PermissionRef) (v : Visited)
      → Stable (walk_union child cs v) (walk_union child' cs v)
  unfolding walk_union
  union-Stable [] v = inr refl
  union-Stable (c ∷ cs) v = Stable-if_denied _ _ (union-Stable cs) (child c v) (child' c v) (k c v)

  all-Stable :
      (cs : List PermissionRef) (v : Visited) → Stable (walk_all child cs v) (walk_all child' cs v)
  unfolding walk_all
  all-Stable [] v = inr refl
  all-Stable (c ∷ cs) v = Stable-if_allowed _ _ (all-Stable cs) (child c v) (child' c v) (k c v)

  none-Stable :
      (cs : List PermissionRef) (v : Visited)
      → Stable (walk_none child cs v) (walk_none child' cs v)
  unfolding walk_none
  none-Stable [] v = inr refl
  none-Stable (c ∷ cs) v =
      Stable-if_not_excluded _ _ (none-Stable cs) (child c v) (child' c v) (k c v)

  pub operation-Stable :
      (op : PermOp) (cs : List PermissionRef) (v : Visited)
      → Stable (walk_operation child op cs v) (walk_operation child' op cs v)
  unfolding walk_operation walk_intersect walk_exclusion
  operation-Stable union cs v = union-Stable cs v
  operation-Stable direct cs v = union-Stable cs v
  operation-Stable intersect [] v = inr refl
  operation-Stable intersect (c ∷ cs) v = all-Stable (c ∷ cs) v
  operation-Stable exclusion [] v = inr refl
  operation-Stable exclusion (c ∷ cs) v =
      Stable-if_allowed _ _ (none-Stable cs) (child c v) (child' c v) (k c v)
