-- ===== src/Server/Engine/Stable/Permission.antt =====
-- What a higher `MaxCheckDepth` changes in a permission.
use zanguard.Prelude.{ℕ, zero, suc, refl, Bool, true, false, inl, inr, List, [], ◌∷◌, Bool-cases}
use zanguard.Js.Text.{Text, is_empty}
use zanguard.Js.Sets.{member}
use zanguard.Server.Model.{Result, ok, err, ObjectRef, SubjectRef}
use zanguard.Server.Schema.{
  PermissionRef, Kind, relation, arrow, condition, kind, PermissionDef, CompiledSchema,
  get_permission,
}
use zanguard.Server.Engine.{
  CheckRequest, Lookups, ExprLang, Visited, Walk, visit_key, request_key, plain_relation,
  walk_userset, walk_subject, walk_subjects, after_direct, walk_relation, walk_target, walk_targets,
  walk_arrow, walk_child, walk_condition, walk_permission,
}
use zanguard.Server.Engine.Holds.{userset_request, target_request}
use zanguard.Server.Engine.Sound.{Result-cases}
use zanguard.Server.Engine.Stable.{Stable, Stable-if_denied, operation-Stable}

module _ (lang : ExprLang) (store : Lookups) (cs : CompiledSchema) where
  module _ (walk walk' : CheckRequest → PermissionDef → Visited → Walk)
      (ih : (req : CheckRequest) (def : PermissionDef) (v : Visited)
        → Stable (walk req def v) (walk' req def v))
      (req : CheckRequest) where
    plain-Stable :
        (key : Text) (v : Visited) (r : Result Bool)
        → Stable
            (plain_relation lang store cs walk key v r)
            (plain_relation lang store cs walk' key v r)
    plain-Stable key v (ok true) = inr refl
    plain-Stable key v (ok false) = inr refl
    plain-Stable key v (err e) = inr refl

    userset-Stable :
        (s : SubjectRef) (v : Visited) (r : Result PermissionDef)
        → Stable
            (walk_userset lang store cs walk req s v r)
            (walk_userset lang store cs walk' req s v r)
    userset-Stable s v (ok def) = ih (userset_request req s) def v
    userset-Stable s v (err e) = plain-Stable _ v _

    subject-Stable :
        (s : SubjectRef) (v : Visited)
        → Stable
            (walk_subject lang store cs walk req s v)
            (walk_subject lang store cs walk' req s v)
    unfolding walk_subject
    subject-Stable s v = elim (Bool-cases (is_empty s.relation)) [
      | inl plain ↦ rw plain (inr refl)
      | inr given ↦
          let key = visit_key s.kind s.id s.relation req.subject_type req.subject_id in
          elim (Bool-cases (member key v)) [
            | inl seen ↦ rw (given, seen) (inr refl)
            | inr new ↦ rw (given, new) (userset-Stable s v (get_permission cs s.kind s.relation))
          ]
    ]

    subjects-Stable :
        (ss : List SubjectRef) (v : Visited)
        → Stable
            (walk_subjects lang store cs walk req ss v)
            (walk_subjects lang store cs walk' req ss v)
    unfolding walk_subjects
    subjects-Stable [] v = inr refl
    subjects-Stable (s ∷ ss) v =
        Stable-if_denied _ _ (subjects-Stable ss) (walk_subject lang store cs walk req s v)
          (walk_subject lang store cs walk' req s v) (subject-Stable s v)

    target-Stable :
        (permission : Text) (t : ObjectRef) (v : Visited)
        → Stable
            (walk_target lang store cs walk req permission t v)
            (walk_target lang store cs walk' req permission t v)
    unfolding walk_target
    target-Stable permission t v =
        let sub = target_request req t permission in
        elim (Bool-cases (member (request_key sub permission) v)) [
          | inl seen ↦ rw seen (inr refl)
          | inr new ↦ elim (Result-cases (get_permission cs t.kind permission)) [
            | inl (def, e) ↦ rw (new, e) (ih sub def v)
            | inr (x, e) ↦ rw (new, e) (inr refl)
          ]
        ]

    targets-Stable :
        (permission : Text) (ts : List ObjectRef) (v : Visited)
        → Stable
            (walk_targets lang store cs walk req permission ts v)
            (walk_targets lang store cs walk' req permission ts v)
    unfolding walk_targets
    targets-Stable permission [] v = inr refl
    targets-Stable permission (t ∷ ts) v =
        Stable-if_denied _ _ (targets-Stable permission ts)
          (walk_target lang store cs walk req permission t v)
          (walk_target lang store cs walk' req permission t v) (target-Stable permission t v)

    relation-Stable :
        (rel : Text) (v : Visited) (r : Result Bool)
        → Stable
            (after_direct lang store cs walk req rel v r)
            (after_direct lang store cs walk' req rel v r)
    relation-Stable rel v (ok true) = inr refl
    relation-Stable rel v (err e) = inr refl
    relation-Stable rel v (ok false) =
        elim (Result-cases (store.list_subjects req.object_type req.object_id rel)) [
          | inl (ss, e) ↦ rw e (subjects-Stable ss v)
          | inr (x, e) ↦ rw e (inr refl)
        ]

    arrow-Stable :
        (rel permission : Text) (v : Visited)
        → Stable
            (walk_arrow lang store cs walk req rel permission v)
            (walk_arrow lang store cs walk' req rel permission v)
    unfolding walk_arrow
    arrow-Stable rel permission v =
        elim (Result-cases (store.list_related_objects req.object_type req.object_id rel)) [
          | inl (ts, e) ↦ rw e (targets-Stable permission ts v)
          | inr (x, e) ↦ rw e (inr refl)
        ]

    child-Stable :
        (c : PermissionRef) (v : Visited)
        → Stable (walk_child lang store cs walk req c v) (walk_child lang store cs walk' req c v)
    unfolding walk_child walk_relation
    child-Stable c v = by_kind (kind c)
      where
        by_kind :
            (x : Kind)
            → Stable
                (elim x [
                  | relation ↦ walk_relation lang store cs walk req c.relation_ref v
                  | arrow ↦ walk_arrow lang store cs walk req c.arrow_ref c.arrow_permission v
                  | condition ↦ walk_condition lang store cs req c.condition_expr v
                ])
                (elim x [
                  | relation ↦ walk_relation lang store cs walk' req c.relation_ref v
                  | arrow ↦ walk_arrow lang store cs walk' req c.arrow_ref c.arrow_permission v
                  | condition ↦ walk_condition lang store cs req c.condition_expr v
                ])
        by_kind relation = relation-Stable c.relation_ref v _
        by_kind arrow = arrow-Stable c.arrow_ref c.arrow_permission v
        by_kind condition = inr refl

  pub permission-Stable :
      (levels : ℕ) (req : CheckRequest) (def : PermissionDef) (v : Visited)
      → Stable
          (walk_permission lang store cs levels req def v)
          (walk_permission lang store cs (suc levels) req def v)
  unfolding walk_permission
  permission-Stable zero req def v = inl refl
  permission-Stable (suc levels) req def v =
      elim (Bool-cases (member (request_key req def.name) v)) [
        | inl seen ↦ rw seen (inr refl)
        | inr new ↦ rw new (
            operation-Stable _ _
              (child-Stable (walk_permission lang store cs levels)
                (walk_permission lang store cs (suc levels)) (permission-Stable levels) req)
              def.operation def.children (request_key req def.name ∷ v))
      ]
