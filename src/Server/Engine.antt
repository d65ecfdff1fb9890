-- ===== src/Server/Engine.antt =====
-- The check engine of pkg/engine: engine.go, check.go and condition.go. The store is the interface
-- `TupleStore`, of which the engine reads with the context of the request.
pub mod Check
pub mod Holds
pub mod Sound
pub mod Granted
pub mod Keeps
pub mod Depth
pub mod Skipped
pub mod Stable
use zanguard.Prelude.{
  ℕ, zero, suc, Bool, true, false, Option, none, some, List, [], ◌∷◌, ◌++◌, if◌then◌else◌,
}
use zanguard.Js.Text.{Text, text, is_empty}
use zanguard.Js.Json.{Json, bool}
use zanguard.Js.Maps
use zanguard.Js.Maps.{Map}
use zanguard.Js.Sets.{member}
use zanguard.Api.Types.{SchemaMode, own, shared, inherited, TenantStatus, deleted}
use zanguard.Server.Model.{
  Error, no_tenant_context, tenant_deleted, tenant_not_readable, no_schema, no_shared_schema,
  depth_exceeded, bad_condition, condition_failed, condition_not_bool, Result, ok, err, ◌>>=◌,
  Attributes, Tenant, is_readable, TenantContext, Context, ObjectRef, SubjectRef,
}
use zanguard.Server.Schema.{
  PermOp, union, intersect, exclusion, direct, PermissionRef, Kind, relation, arrow, condition,
  kind, ConditionExpr, PermissionDef, CompiledSchema, get_permission,
}

pub record CheckRequest : Type 0 where
  pub object_type : Text
  pub object_id : Text
  pub permission : Text
  pub subject_type : Text
  pub subject_id : Text
  pub context : Attributes

pub data CheckResult : Type 0 where
  deny : CheckResult
  allow : (resolution_path : List Text) → CheckResult

-- The operations of `TupleStore` that the engine calls.
pub record Lookups : Type 0 where
  pub check_direct : (object_type object_id relation subject_type subject_id : Text) → Result Bool
  pub list_subjects : (object_type object_id relation : Text) → Result (List SubjectRef)
  pub list_related_objects : (object_type object_id relation : Text) → Result (List ObjectRef)
  pub get_object_attributes : (object_type object_id : Text) → Result Attributes
  pub get_subject_attributes : (subject_type subject_id : Text) → Result Attributes

-- The variables `object`, `subject` and `request` of a condition.
pub record Env : Type 0 where
  pub object : Attributes
  pub subject : Attributes
  pub request : Attributes

-- `expr.Compile` and `expr.Run` of `expr-lang`: which texts compile, and what a program yields,
-- `none` where it fails.
pub record ExprLang : Type 0 where
  pub compiles : Text → Bool
  pub run : Text → Env → Option Json

-- The keys of the permissions that were entered.
abbrev pub Visited : Type 0
Visited = List Text

-- What a walk returns, with the visited keys behind it; behind an error they do not matter.
pub data Walk : Type 0 where
  denied : Visited → Walk
  allowed : List Text → Visited → Walk
  failed : Error → Walk

unfoldable pub visit_key : (object_type object_id permission subject_type subject_id : Text) → Text
visit_key object_type object_id permission subject_type subject_id =
    object_type
    ++ b':' ∷ (object_id ++ b'#' ∷ (permission ++ b'@' ∷ (subject_type ++ b':' ∷ subject_id)))

-- The key of the permission `name` at the object and the subject of a request.
abbrev pub request_key : CheckRequest → Text → Text
request_key req name = visit_key req.object_type req.object_id name req.subject_type req.subject_id

-- How the loops go on: to the next child if this one denies, or if this one allows.
abbrev pub if_denied : Walk → (Visited → Walk) → Walk
if_denied (denied v) next = next v
if_denied (allowed path v) next = allowed path v
if_denied (failed e) next = failed e

abbrev pub if_allowed : Walk → (Visited → Walk) → Walk
if_allowed (denied v) next = denied v
if_allowed (allowed path v) next = next v
if_allowed (failed e) next = failed e

abbrev pub if_not_excluded : Walk → (Visited → Walk) → Walk
if_not_excluded (denied v) next = next v
if_not_excluded (allowed path v) next = denied v
if_not_excluded (failed e) next = failed e

module _ (child : PermissionRef → Visited → Walk) where
  unfoldable pub walk_union : List PermissionRef → Visited → Walk
  walk_union [] v = denied v
  walk_union (c ∷ cs) v = if_denied (child c v) (λ v'. walk_union cs v')

  -- The loop of `walkIntersect`.
  unfoldable pub walk_all : List PermissionRef → Visited → Walk
  walk_all [] v = allowed [] v
  walk_all (c ∷ cs) v = if_allowed (child c v) (λ v'. walk_all cs v')

  unfoldable pub walk_intersect : List PermissionRef → Visited → Walk
  walk_intersect [] v = denied v
  walk_intersect (c ∷ cs) v = walk_all (c ∷ cs) v

  -- The loop of `walkExclusion`.
  unfoldable pub walk_none : List PermissionRef → Visited → Walk
  walk_none [] v = allowed [] v
  walk_none (c ∷ cs) v = if_not_excluded (child c v) (λ v'. walk_none cs v')

  unfoldable pub walk_exclusion : List PermissionRef → Visited → Walk
  walk_exclusion [] v = denied v
  walk_exclusion (c ∷ cs) v = if_allowed (child c v) (λ v'. walk_none cs v')

  -- The `switch` of `walkPermission`.
  unfoldable pub walk_operation : PermOp → List PermissionRef → Visited → Walk
  walk_operation union cs v = walk_union cs v
  walk_operation direct cs v = walk_union cs v
  walk_operation intersect cs v = walk_intersect cs v
  walk_operation exclusion cs v = walk_exclusion cs v

abbrev pub or_empty : Result Attributes → Attributes
or_empty (ok attrs) = attrs
or_empty (err e) = []

abbrev pub as_bool : Option Json → Result Bool
as_bool none = err condition_failed
as_bool (some (bool b)) = ok b
as_bool (some v) = err condition_not_bool

abbrev pub from_condition : Visited → Result Bool → Walk
from_condition v (ok true) = allowed [] v
from_condition v (ok false) = denied v
from_condition v (err e) = failed e

module _ (lang : ExprLang) (store : Lookups) (cs : CompiledSchema) where
  unfoldable pub condition_env : CheckRequest → Env
  condition_env req = record {
    object = or_empty (store.get_object_attributes req.object_type req.object_id);
    subject = or_empty (store.get_subject_attributes req.subject_type req.subject_id);
    request = req.context;
  }

  -- `evaluateCondition`
  unfoldable pub evaluate_condition : CheckRequest → Text → Result Bool
  evaluate_condition req program = as_bool (lang.run program (condition_env req))

  -- The case "condition" of `walkChild`; the expression was trimmed when it was parsed.
  unfoldable pub walk_condition : CheckRequest → Text → Visited → Walk
  walk_condition req program v =
      if lang.compiles program
      then from_condition v (evaluate_condition req program)
      else failed bad_condition

  -- What `walkPermission` does one level deeper is a parameter of the loops.
  module _ (walk : CheckRequest → PermissionDef → Visited → Walk) where
    abbrev pub plain_relation : Text → Visited → Result Bool → Walk
    plain_relation key v (ok true) = allowed (key ∷ []) v
    plain_relation key v (ok false) = denied v
    plain_relation key v (err e) = denied v

    abbrev pub walk_userset : CheckRequest → SubjectRef → Visited → Result PermissionDef → Walk
    walk_userset req s v (ok def) =
        walk
          (record {
            object_type = s.kind;
            object_id = s.id;
            permission = s.relation;
            subject_type = req.subject_type;
            subject_id = req.subject_id;
            context = [];
          })
          def v
    walk_userset req s v (err e) =
        plain_relation (visit_key s.kind s.id s.relation req.subject_type req.subject_id) v
          (store.check_direct s.kind s.id s.relation req.subject_type req.subject_id)

    -- The body of the loop over the subjects of `walkRelation`.
    unfoldable pub walk_subject : CheckRequest → SubjectRef → Visited → Walk
    walk_subject req s v =
        if is_empty s.relation
        then denied v
        else if member (visit_key s.kind s.id s.relation req.subject_type req.subject_id) v
        then denied v
        else walk_userset req s v (get_permission cs s.kind s.relation)

    unfoldable pub walk_subjects : CheckRequest → List SubjectRef → Visited → Walk
    walk_subjects req [] v = denied v
    walk_subjects req (s ∷ ss) v = if_denied (walk_subject req s v) (λ v'. walk_subjects req ss v')

    abbrev pub userset_expansion : CheckRequest → Visited → Result (List SubjectRef) → Walk
    userset_expansion req v (ok ss) = walk_subjects req ss v
    userset_expansion req v (err e) = failed e

    abbrev pub after_direct : CheckRequest → Text → Visited → Result Bool → Walk
    after_direct req rel v (ok true) = allowed (request_key req rel ∷ []) v
    after_direct req rel v (ok false) =
        userset_expansion req v (store.list_subjects req.object_type req.object_id rel)
    after_direct req rel v (err e) = failed e

    unfoldable pub walk_relation : CheckRequest → Text → Visited → Walk
    walk_relation req rel v =
        after_direct req rel v
          (store.check_direct req.object_type req.object_id rel req.subject_type req.subject_id)

    abbrev pub sub_request : CheckRequest → ObjectRef → Text → CheckRequest
    sub_request req target permission = record req {
      object_type = target.kind;
      object_id = target.id;
      permission = permission;
    }

    abbrev pub walk_found : CheckRequest → Visited → Result PermissionDef → Walk
    walk_found req v (ok def) = walk req def v
    walk_found req v (err e) = denied v

    -- The body of the loop over the targets of `walkArrow`.
    unfoldable pub walk_target : CheckRequest → Text → ObjectRef → Visited → Walk
    walk_target req permission target v =
        if member (request_key (sub_request req target permission) permission) v
        then denied v
        else walk_found (sub_request req target permission) v
            (get_permission cs target.kind permission)

    unfoldable pub walk_targets : CheckRequest → Text → List ObjectRef → Visited → Walk
    walk_targets req permission [] v = denied v
    walk_targets req permission (t ∷ ts) v =
        if_denied (walk_target req permission t v) (λ v'. walk_targets req permission ts v')

    abbrev pub arrow_targets : CheckRequest → Text → Visited → Result (List ObjectRef) → Walk
    arrow_targets req permission v (ok ts) = walk_targets req permission ts v
    arrow_targets req permission v (err e) = failed e

    unfoldable pub walk_arrow : CheckRequest → Text → Text → Visited → Walk
    walk_arrow req rel permission v =
        arrow_targets req permission v
          (store.list_related_objects req.object_type req.object_id rel)

    unfoldable pub walk_child : CheckRequest → PermissionRef → Visited → Walk
    walk_child req c v = elim (kind c) [
      | relation ↦ walk_relation req c.relation_ref v
      | arrow ↦ walk_arrow req c.arrow_ref c.arrow_permission v
      | condition ↦ walk_condition req c.condition_expr v
    ]

  -- `walkPermission`, on the levels that are left: `MaxCheckDepth + 1` at depth 0, and none once the
  -- depth is above `MaxCheckDepth`.
  unfoldable pub walk_permission : ℕ → CheckRequest → PermissionDef → Visited → Walk
  walk_permission zero req def v = failed depth_exceeded
  walk_permission (suc levels) req def v =
      if member (request_key req def.name) v
      then denied v
      else walk_operation (walk_child (walk_permission levels) req) def.operation def.children
          (request_key req def.name ∷ v)

  -- The end of `Check`: the condition of the permission, where the walk allows.
  abbrev pub after_condition : List Text → Result Bool → Result CheckResult
  after_condition path (ok true) = ok (allow path)
  after_condition path (ok false) = ok deny
  after_condition path (err e) = err e

  abbrev pub with_condition : CheckRequest → Option ConditionExpr → List Text → Result CheckResult
  with_condition req none path = ok (allow path)
  with_condition req (some c) path = after_condition path (evaluate_condition req c.compiled)

  abbrev pub after_walk : CheckRequest → PermissionDef → Walk → Result CheckResult
  after_walk req def (denied v) = ok deny
  after_walk req def (allowed path v) = with_condition req def.condition path
  after_walk req def (failed e) = err e

  unfoldable pub check_permission : ℕ → CheckRequest → PermissionDef → Result CheckResult
  check_permission max_check_depth req def =
      after_walk req def (walk_permission (suc max_check_depth) req def [])
