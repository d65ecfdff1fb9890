-- ===== src/Server/Engine/Holds.antt =====
-- What a permission means, without an order of evaluation, a depth or visited keys.
use zanguard.Prelude.{◌≡◌, ◌≢◌, true, false, ◌⊎◌, List, [], ◌∷◌}
use zanguard.Js.Text.{Text, is_empty}
use zanguard.Server.Model.{Error, ok, err, ObjectRef, SubjectRef}
use zanguard.Server.Schema.{
  union, intersect, exclusion, direct, PermissionRef, relation, arrow, condition, kind,
  PermissionDef, CompiledSchema, get_permission,
}
use zanguard.Server.Engine.{CheckRequest, Lookups, ExprLang, evaluate_condition}

-- An element of a list.
pub data In {ℓ} {A : Type ℓ} (x : A) : List A → Type ℓ where
  here : {xs : List A} → In x (x ∷ xs)
  there : {y : A} {xs : List A} → In x xs → In x (y ∷ xs)

-- The request that a userset makes of the subject of a request, which has no context.
abbrev pub userset_request : CheckRequest → SubjectRef → CheckRequest
userset_request req s = record {
  object_type = s.kind;
  object_id = s.id;
  permission = s.relation;
  subject_type = req.subject_type;
  subject_id = req.subject_id;
  context = [];
}

abbrev pub target_request : CheckRequest → ObjectRef → Text → CheckRequest
target_request req t permission = record req {
  object_type = t.kind;
  object_id = t.id;
  permission = permission;
}

module _ (lang : ExprLang) (store : Lookups) (cs : CompiledSchema) where
  -- A stored tuple relates the subject to the object.
  abbrev pub Direct : CheckRequest → (object_type object_id rel : Text) → Type 0
  Direct req object_type object_id rel =
      store.check_direct object_type object_id rel req.subject_type req.subject_id ≡ ok true

  -- `Holds req def`: the permission `def` holds at the object and the subject of `req`. An exclusion
  -- holds at most where its base holds.
  mutual
    pub data Holds : CheckRequest → PermissionDef → Type 0 where
      any_of :
          {req : CheckRequest} {def : PermissionDef} (c : PermissionRef)
          → (def.operation ≡ union) ⊎ (def.operation ≡ direct)
          → In c def.children
          → ChildHolds req c
          → Holds req def
      all_of :
          {req : CheckRequest} {def : PermissionDef}
          → def.operation ≡ intersect
          → def.children ≢ []
          → AllHold req def.children
          → Holds req def
      base_of :
          {req : CheckRequest} {def : PermissionDef} (c : PermissionRef) (rest : List PermissionRef)
          → def.operation ≡ exclusion
          → def.children ≡ c ∷ rest
          → ChildHolds req c
          → Holds req def

    pub data AllHold : CheckRequest → List PermissionRef → Type 0 where
      none_left : {req : CheckRequest} → AllHold req []
      one_more :
          {req : CheckRequest} {c : PermissionRef} {rest : List PermissionRef}
          → ChildHolds req c
          → AllHold req rest
          → AllHold req (c ∷ rest)

    pub data ChildHolds : CheckRequest → PermissionRef → Type 0 where
      by_tuple :
          {req : CheckRequest} {c : PermissionRef}
          → kind c ≡ relation
          → Direct req req.object_type req.object_id c.relation_ref
          → ChildHolds req c
      by_userset :
          {req : CheckRequest} {c : PermissionRef} (ss : List SubjectRef) (s : SubjectRef)
          (def : PermissionDef)
          → kind c ≡ relation
          → store.list_subjects req.object_type req.object_id c.relation_ref ≡ ok ss
          → In s ss
          → is_empty s.relation ≡ false
          → get_permission cs s.kind s.relation ≡ ok def
          → Holds (userset_request req s) def
          → ChildHolds req c
      by_plain_userset :
          {req : CheckRequest} {c : PermissionRef} (ss : List SubjectRef) (s : SubjectRef)
          (e : Error)
          → kind c ≡ relation
          → store.list_subjects req.object_type req.object_id c.relation_ref ≡ ok ss
          → In s ss
          → is_empty s.relation ≡ false
          → get_permission cs s.kind s.relation ≡ err e
          → Direct req s.kind s.id s.relation
          → ChildHolds req c
      by_arrow :
          {req : CheckRequest} {c : PermissionRef} (ts : List ObjectRef) (t : ObjectRef)
          (def : PermissionDef)
          → kind c ≡ arrow
          → store.list_related_objects req.object_type req.object_id c.arrow_ref ≡ ok ts
          → In t ts
          → get_permission cs t.kind c.arrow_permission ≡ ok def
          → Holds (target_request req t c.arrow_permission) def
          → ChildHolds req c
      by_condition :
          {req : CheckRequest} {c : PermissionRef}
          → kind c ≡ condition
          → evaluate_condition lang store cs req c.condition_expr ≡ ok true
          → ChildHolds req c
