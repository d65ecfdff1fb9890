-- ===== src/Server/Engine/Sound/Children.antt =====
-- A child of a permission that allows holds.
use zanguard.Prelude.{◌≡◌, refl, Bool, true, false, inl, inr, List, [], ◌∷◌, Bool-cases}
use zanguard.Js.Text.{is_empty}
use zanguard.Js.Sets.{member}
use zanguard.Server.Model.{Error, Result, ok, err, ObjectRef, SubjectRef}
use zanguard.Server.Schema.{
  PermissionRef, Kind, relation, arrow, condition, kind, PermissionDef, CompiledSchema,
  get_permission,
}
use zanguard.Server.Engine.{
  CheckRequest, Lookups, ExprLang, Visited, Walk, visit_key, request_key, from_condition,
  evaluate_condition, walk_condition, plain_relation, walk_userset, walk_subject, walk_subjects,
  after_direct, walk_relation, walk_target, walk_targets, walk_arrow, walk_child,
}
use zanguard.Server.Engine.Holds.{
  In, here, there, userset_request, target_request, Holds, ChildHolds, by_tuple, by_userset,
  by_plain_userset, by_arrow, by_condition,
}
use zanguard.Server.Engine.Sound.{Result-cases, Sound, Sound-map, Sound-if_denied}

module _ (lang : ExprLang) (store : Lookups) (cs : CompiledSchema)
    (walk : CheckRequest → PermissionDef → Visited → Walk)
    (ih : (req : CheckRequest) (def : PermissionDef) (v : Visited)
      → Sound (Holds lang store cs req def) (walk req def v)) where
  module _ (req : CheckRequest) (c : PermissionRef) where
    abbrev Here : Type 0
    Here = ChildHolds lang store cs req c

    module _ (k : kind c ≡ relation) (all_ss : List SubjectRef)
        (listed : store.list_subjects req.object_type req.object_id c.relation_ref
          ≡ ok all_ss) where
      userset-Sound :
          (s : SubjectRef) (v : Visited)
          → In s all_ss
          → is_empty s.relation ≡ false
          → Sound Here
              (walk_userset lang store cs walk req s v (get_permission cs s.kind s.relation))
      userset-Sound s v m given = elim (Result-cases (get_permission cs s.kind s.relation)) [
        | inl (def, e) ↦ rw e (
            Sound-map (walk (userset_request req s) def v)
              (by_userset all_ss s def k listed m given e) (ih (userset_request req s) def v))
        | inr (x, e) ↦ rw e (
            plain s v m given x e
              (store.check_direct s.kind s.id s.relation req.subject_type req.subject_id) refl)
      ]
        where
          plain :
              (s : SubjectRef) (v : Visited)
              → In s all_ss
              → is_empty s.relation ≡ false
              → (x : Error) → get_permission cs s.kind s.relation ≡ err x
              → (r : Result Bool)
              → store.check_direct s.kind s.id s.relation req.subject_type req.subject_id ≡ r
              → Sound Here (
                  plain_relation lang store cs walk
                    (visit_key s.kind s.id s.relation req.subject_type req.subject_id)
                    v
                    r)
          plain s v m given x e (ok true) d = by_plain_userset all_ss s x k listed m given e d
          plain s v m given x e (ok false) d = tt
          plain s v m given x e (err y) d = tt

      subject-Sound :
          (s : SubjectRef) (v : Visited)
          → In s all_ss
          → Sound Here (walk_subject lang store cs walk req s v)
      unfolding walk_subject
      subject-Sound s v m = elim (Bool-cases (is_empty s.relation)) [
        | inl none ↦ rw none tt
        | inr given ↦
            rw given
              (elim (Bool-cases
                (member (visit_key s.kind s.id s.relation req.subject_type req.subject_id) v)) [
                  | inl seen ↦ rw seen tt
                  | inr new ↦ rw new (userset-Sound s v m given)
                ])
      ]

      subjects-Sound :
          (ss : List SubjectRef) (v : Visited)
          → ((s : SubjectRef) → In s ss → In s all_ss)
          → Sound Here (walk_subjects lang store cs walk req ss v)
      unfolding walk_subjects
      subjects-Sound [] v sub = tt
      subjects-Sound (s ∷ ss) v sub =
          Sound-if_denied Here (walk_subject lang store cs walk req s v) _
            (subject-Sound s v (sub s here)) (λ v'. subjects-Sound ss v' (λ t m. sub t (there m)))

    module _ (k : kind c ≡ arrow) (all_ts : List ObjectRef)
        (listed : store.list_related_objects req.object_type req.object_id c.arrow_ref
          ≡ ok all_ts) where
      target-Sound :
          (t : ObjectRef) (v : Visited)
          → In t all_ts
          → Sound Here (walk_target lang store cs walk req c.arrow_permission t v)
      unfolding walk_target
      target-Sound t v m =
          let sub = target_request req t c.arrow_permission in
          elim (Bool-cases (member (request_key sub c.arrow_permission) v)) [
            | inl seen ↦ rw seen tt
            | inr new ↦ rw new (elim (Result-cases (get_permission cs t.kind c.arrow_permission)) [
              | inl (def, e) ↦
                  rw e
                    (Sound-map (walk sub def v) (by_arrow all_ts t def k listed m e) (ih sub def v))
              | inr (x, e) ↦ rw e tt
            ])
          ]

      targets-Sound :
          (ts : List ObjectRef) (v : Visited)
          → ((t : ObjectRef) → In t ts → In t all_ts)
          → Sound Here (walk_targets lang store cs walk req c.arrow_permission ts v)
      unfolding walk_targets
      targets-Sound [] v sub = tt
      targets-Sound (t ∷ ts) v sub =
          Sound-if_denied Here (walk_target lang store cs walk req c.arrow_permission t v) _
            (target-Sound t v (sub t here)) (λ v'. targets-Sound ts v' (λ u m. sub u (there m)))

    relation-Sound :
        kind c ≡ relation
        → (v : Visited) (r : Result Bool)
        → store.check_direct req.object_type req.object_id c.relation_ref req.subject_type
            req.subject_id
          ≡ r
        → Sound Here (after_direct lang store cs walk req c.relation_ref v r)
    relation-Sound k v (ok true) d = by_tuple k d
    relation-Sound k v (err e) d = tt
    relation-Sound k v (ok false) d =
        elim (Result-cases (store.list_subjects req.object_type req.object_id c.relation_ref)) [
          | inl (ss, e) ↦ rw e (subjects-Sound k ss e ss v (λ s m. m))
          | inr (x, e) ↦ rw e tt
        ]

    arrow-Sound :
        kind c ≡ arrow
        → (v : Visited)
        → Sound Here (walk_arrow lang store cs walk req c.arrow_ref c.arrow_permission v)
    unfolding walk_arrow
    arrow-Sound k v =
        elim (Result-cases (store.list_related_objects req.object_type req.object_id c.arrow_ref)) [
          | inl (ts, e) ↦ rw e (targets-Sound k ts e ts v (λ t m. m))
          | inr (x, e) ↦ rw e tt
        ]

    condition-Sound :
        kind c ≡ condition
        → (v : Visited) → Sound Here (walk_condition lang store cs req c.condition_expr v)
    unfolding walk_condition
    condition-Sound k v = elim (Bool-cases (lang.compiles c.condition_expr)) [
      | inl good ↦ rw good (evaluated (evaluate_condition lang store cs req c.condition_expr) refl)
      | inr bad ↦ rw bad tt
    ]
      where
        evaluated :
            (r : Result Bool)
            → evaluate_condition lang store cs req c.condition_expr ≡ r
            → Sound Here (from_condition v r)
        evaluated (ok true) e = by_condition k e
        evaluated (ok false) e = tt
        evaluated (err x) e = tt

    pub child-Sound : (v : Visited) → Sound Here (walk_child lang store cs walk req c v)
    unfolding walk_child walk_relation
    child-Sound v = by_kind (kind c) refl
      where
        by_kind :
            (x : Kind)
            → kind c ≡ x
            → Sound Here (elim x [
              | relation ↦ walk_relation lang store cs walk req c.relation_ref v
              | arrow ↦ walk_arrow lang store cs walk req c.arrow_ref c.arrow_permission v
              | condition ↦ walk_condition lang store cs req c.condition_expr v
            ])
        by_kind relation e = relation-Sound e v _ refl
        by_kind arrow e = arrow-Sound e v
        by_kind condition e = condition-Sound e v
