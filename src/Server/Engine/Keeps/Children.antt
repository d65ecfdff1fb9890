-- ===== src/Server/Engine/Keeps/Children.antt =====
-- What a check can enter, and what its children keep of the visited keys.
use zanguard.Prelude.{◌≡◌, refl, Bool, true, false, inl, inr, List, [], ◌∷◌, Bool-cases}
use zanguard.Js.Text.{Text, is_empty}
use zanguard.Js.Sets.{member}
use zanguard.Server.Model.{Error, bad_condition, Result, ok, err, ObjectRef, SubjectRef}
use zanguard.Server.Schema.{
  PermissionRef, relation, arrow, kind, PermissionDef, CompiledSchema, get_permission,
}
use zanguard.Server.Engine.{
  CheckRequest, Lookups, ExprLang, Visited, Walk, visit_key, request_key, from_condition,
  evaluate_condition, walk_condition, plain_relation, walk_subject, walk_subjects, after_direct,
  walk_target, walk_targets, walk_arrow,
}
use zanguard.Server.Engine.Holds.{In, here, there, userset_request, target_request}
use zanguard.Server.Engine.Sound.{Result-cases}
use zanguard.Server.Engine.Keeps.{Keeps, Keeps-if_denied}

-- The errors that the store and the conditions give, but for the depth, are of `E`.
pub record Errors (E : Error → Type 0) (lang : ExprLang) (store : Lookups) (cs : CompiledSchema)
    : Type 0 where
  pub direct : (o i r k j : Text) (e : Error) → store.check_direct o i r k j ≡ err e → E e
  pub subjects : (o i r : Text) (e : Error) → store.list_subjects o i r ≡ err e → E e
  pub related : (o i r : Text) (e : Error) → store.list_related_objects o i r ≡ err e → E e
  pub evaluated :
      (req : CheckRequest) (program : Text) (e : Error)
      → evaluate_condition lang store cs req program ≡ err e
      → E e
  pub bad : E bad_condition

-- `Enters store cs req₀ def₀ req def`: from the permission `def₀` at `req₀`, arrows and usersets of
-- stored tuples lead to `def` at `req`.
pub data Enters (store : Lookups) (cs : CompiledSchema) (req₀ : CheckRequest) (def₀ : PermissionDef)
    : CheckRequest → PermissionDef → Type 0 where
  first : Enters store cs req₀ def₀ req₀ def₀
  by_arrow :
      {req : CheckRequest} {def : PermissionDef} (c : PermissionRef) (ts : List ObjectRef)
      (t : ObjectRef) (target : PermissionDef)
      → Enters store cs req₀ def₀ req def
      → In c def.children
      → kind c ≡ arrow
      → store.list_related_objects req.object_type req.object_id c.arrow_ref ≡ ok ts
      → In t ts
      → get_permission cs t.kind c.arrow_permission ≡ ok target
      → Enters store cs req₀ def₀ (target_request req t c.arrow_permission) target
  by_userset :
      {req : CheckRequest} {def : PermissionDef} (c : PermissionRef) (ss : List SubjectRef)
      (s : SubjectRef) (target : PermissionDef)
      → Enters store cs req₀ def₀ req def
      → In c def.children
      → kind c ≡ relation
      → store.list_subjects req.object_type req.object_id c.relation_ref ≡ ok ss
      → In s ss
      → get_permission cs s.kind s.relation ≡ ok target
      → Enters store cs req₀ def₀ (userset_request req s) target

module _ (lang : ExprLang) (store : Lookups) (cs : CompiledSchema) (P : Visited → Type 0)
    (E : Error → Type 0) (errors : Errors E lang store cs) (req₀ : CheckRequest)
    (def₀ : PermissionDef) where
  abbrev Entered : CheckRequest → PermissionDef → Type 0
  Entered req def = Enters store cs req₀ def₀ req def

  module _ (walk : CheckRequest → PermissionDef → Visited → Walk)
      (ih : (req : CheckRequest) (def : PermissionDef) (v : Visited)
        → Entered req def
        → P v
        → Keeps P E (walk req def v))
      (req : CheckRequest) (def : PermissionDef) (entered : Entered req def) (c : PermissionRef)
      (m : In c def.children) where
    plain-Keeps :
        (key : Text) (v : Visited) (r : Result Bool)
        → P v
        → Keeps P E (plain_relation lang store cs walk key v r)
    plain-Keeps key v (ok true) h = h
    plain-Keeps key v (ok false) h = h
    plain-Keeps key v (err e) h = h

    module _ (k : kind c ≡ relation) (all_ss : List SubjectRef)
        (listed : store.list_subjects req.object_type req.object_id c.relation_ref
          ≡ ok all_ss) where
      subject-Keeps :
          (s : SubjectRef) (v : Visited)
          → In s all_ss
          → P v
          → Keeps P E (walk_subject lang store cs walk req s v)
      unfolding walk_subject
      subject-Keeps s v i h = elim (Bool-cases (is_empty s.relation)) [
        | inl plain ↦ rw plain h
        | inr given ↦
            let key = visit_key s.kind s.id s.relation req.subject_type req.subject_id in
            elim (Bool-cases (member key v)) [
              | inl seen ↦ rw (given, seen) h
              | inr new ↦ elim (Result-cases (get_permission cs s.kind s.relation)) [
                | inl (target, e) ↦
                    rw (given, new, e)
                      (ih (userset_request req s) target v
                        (by_userset c all_ss s target entered m k listed i e) h)
                | inr (x, e) ↦ rw (given, new, e) (plain-Keeps key v _ h)
              ]
            ]
      ]

      subjects-Keeps :
          (ss : List SubjectRef) (v : Visited)
          → ((s : SubjectRef) → In s ss → In s all_ss)
          → P v
          → Keeps P E (walk_subjects lang store cs walk req ss v)
      unfolding walk_subjects
      subjects-Keeps [] v sub h = h
      subjects-Keeps (s ∷ ss) v sub h =
          Keeps-if_denied P E _ (λ v' h'. subjects-Keeps ss v' (λ t i. sub t (there i)) h')
            (walk_subject lang store cs walk req s v) (subject-Keeps s v (sub s here) h)

    module _ (k : kind c ≡ arrow) (all_ts : List ObjectRef)
        (listed : store.list_related_objects req.object_type req.object_id c.arrow_ref
          ≡ ok all_ts) where
      target-Keeps :
          (t : ObjectRef) (v : Visited)
          → In t all_ts
          → P v
          → Keeps P E (walk_target lang store cs walk req c.arrow_permission t v)
      unfolding walk_target
      target-Keeps t v i h =
          let sub = target_request req t c.arrow_permission in
          elim (Bool-cases (member (request_key sub c.arrow_permission) v)) [
            | inl seen ↦ rw seen h
            | inr new ↦ elim (Result-cases (get_permission cs t.kind c.arrow_permission)) [
              | inl (target, e) ↦
                  rw (new, e)
                    (ih sub target v (by_arrow c all_ts t target entered m k listed i e) h)
              | inr (x, e) ↦ rw (new, e) h
            ]
          ]

      targets-Keeps :
          (ts : List ObjectRef) (v : Visited)
          → ((t : ObjectRef) → In t ts → In t all_ts)
          → P v
          → Keeps P E (walk_targets lang store cs walk req c.arrow_permission ts v)
      unfolding walk_targets
      targets-Keeps [] v sub h = h
      targets-Keeps (t ∷ ts) v sub h =
          Keeps-if_denied P E _ (λ v' h'. targets-Keeps ts v' (λ w i. sub w (there i)) h')
            (walk_target lang store cs walk req c.arrow_permission t v)
            (target-Keeps t v (sub t here) h)

    pub relation-Keeps :
        kind c ≡ relation
        → (v : Visited) (r : Result Bool)
        → store.check_direct req.object_type req.object_id c.relation_ref req.subject_type
            req.subject_id
          ≡ r
        → P v
        → Keeps P E (after_direct lang store cs walk req c.relation_ref v r)
    relation-Keeps k v (ok true) d h = h
    relation-Keeps k v (err e) d h = errors.direct _ _ _ _ _ e d
    relation-Keeps k v (ok false) d h =
        elim (Result-cases (store.list_subjects req.object_type req.object_id c.relation_ref)) [
          | inl (ss, e) ↦ rw e (subjects-Keeps k ss e ss v (λ s i. i) h)
          | inr (x, e) ↦ rw e (errors.subjects _ _ _ x e)
        ]

    pub arrow-Keeps :
        kind c ≡ arrow
        → (v : Visited) → P v
        → Keeps P E (walk_arrow lang store cs walk req c.arrow_ref c.arrow_permission v)
    unfolding walk_arrow
    arrow-Keeps k v h =
        elim (Result-cases (store.list_related_objects req.object_type req.object_id c.arrow_ref)) [
          | inl (ts, e) ↦ rw e (targets-Keeps k ts e ts v (λ t i. i) h)
          | inr (x, e) ↦ rw e (errors.related _ _ _ x e)
        ]

    pub condition-Keeps :
        (v : Visited) → P v → Keeps P E (walk_condition lang store cs req c.condition_expr v)
    unfolding walk_condition
    condition-Keeps v h = elim (Bool-cases (lang.compiles c.condition_expr)) [
      | inl good ↦ rw good (evaluated (evaluate_condition lang store cs req c.condition_expr) refl)
      | inr bad ↦ rw bad errors.bad
    ]
      where
        evaluated :
            (r : Result Bool)
            → evaluate_condition lang store cs req c.condition_expr ≡ r
            → Keeps P E (from_condition v r)
        evaluated (ok true) e = h
        evaluated (ok false) e = h
        evaluated (err x) e = errors.evaluated req c.condition_expr x e
