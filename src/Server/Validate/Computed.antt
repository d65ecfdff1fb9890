-- ===== src/Server/Validate/Computed.antt =====
-- Permissions as children of permissions: what `Validate` accepts, and what the engine makes of it.
use zanguard.Prelude.{
  ℕ, ◌≡◌, refl, true, false, inl, inr, some, List, [], ◌∷◌, arith, Bool-cases, any, select,
}
use zanguard.Js.Text.{Text, same}
use zanguard.Js.Maps
use zanguard.Js.Sets.{member}
use zanguard.Server.Model.{ok, TenantContext, RelationTuple}
use zanguard.Server.Schema.{
  union, PermissionRef, relation, kind, PermissionDef, TypeDef, CompiledSchema,
}
use zanguard.Server.Engine.{
  CheckRequest, deny, ExprLang, Visited, Walk, denied, request_key, walk_union, walk_operation,
  walk_relation, walk_child, walk_permission, check_permission, walk_subjects,
}
use zanguard.Server.Engine.Skipped.Pair.{with_children}
use zanguard.Server.Store.{Store, is_of, is_direct, check_direct, list_subjects, readable_tuples}
use zanguard.Server.Service.{lookups}
use zanguard.Server.Validate.{validate_perm_ref}

module _ (now : ℕ) (o i r : Text) where
  none_of :
      (ts : List RelationTuple)
      → any (λ t. same t.relation r) ts ≡ false
      → select (is_of o i r now) ts ≡ []
  unfolding is_of
  none_of [] h = refl
  none_of (t ∷ ts) h = ground (arith, none_of ts)

  none_direct :
      (k j : Text) (ts : List RelationTuple)
      → any (λ t. same t.relation r) ts ≡ false
      → any (is_direct o i r k j now) ts ≡ false
  unfolding is_direct is_of
  none_direct k j [] h = refl
  none_direct k j (t ∷ ts) h = ground (arith, none_direct k j ts)

perm_ref_passes :
    (type name : Text) (td : TypeDef) (c : PermissionRef)
    → kind c ≡ relation
    → Maps.has c.relation_ref td.permissions ≡ true
    → validate_perm_ref type td name c ≡ []
unfolding validate_perm_ref
perm_ref_passes type name td c k known = elim (Bool-cases (Maps.has c.relation_ref td.relations)) [
  | inl both ↦ rw (k, validate_perm_ref, both) refl
  | inr only ↦ rw (k, validate_perm_ref, only, known) refl
]

module _ (now : ℕ) (s : Store) (tc : TenantContext) (ts : List RelationTuple)
    (readable : readable_tuples (some tc) s ≡ ok ts) (r : Text)
    (unused : any (λ t. same t.relation r) ts ≡ false) where
  direct_no : (o i k j : Text) → check_direct now s (some tc) o i r k j ≡ ok false
  unfolding check_direct
  direct_no o i k j = rw (readable, none_direct now o i r k j ts unused) refl

  none_listed : (o i : Text) → list_subjects now s (some tc) o i r ≡ ok []
  unfolding list_subjects
  none_listed o i = rw (readable, none_of now o i r ts unused) refl

  relation_denied :
      (lang : ExprLang) (cs : CompiledSchema) (walk : CheckRequest → PermissionDef → Visited → Walk)
      (req : CheckRequest) (v : Visited)
      → walk_relation lang (lookups now s (some tc)) cs walk req r v ≡ denied v
  unfolding walk_relation walk_subjects
  relation_denied lang cs walk req v =
      rw
        (
          direct_no req.object_type req.object_id req.subject_type req.subject_id,
          none_listed req.object_type req.object_id,
        )
        refl

-- A child that names a permission of its own type, and no relation of a tuple that the tenant has
-- stored, passes validation; and a union of this child alone is denied to every subject, where the
-- tenant can be read.
pub computed_child_denied :
    (lang : ExprLang) (now : ℕ) (s : Store) (tc : TenantContext) (cs : CompiledSchema) (depth : ℕ)
    (req : CheckRequest) (def : PermissionDef) (td : TypeDef) (c : PermissionRef)
    (ts : List RelationTuple)
    → kind c ≡ relation
    → Maps.has c.relation_ref td.permissions ≡ true
    → readable_tuples (some tc) s ≡ ok ts
    → any (λ t. same t.relation c.relation_ref) ts ≡ false
    → (validate_perm_ref req.object_type td def.name c ≡ [])
      × (check_permission lang
            (lookups now s (some tc))
            cs
            depth
            req
            (with_children def union (c ∷ []))
          ≡ ok deny)
unfolding check_permission walk_permission member walk_operation walk_union walk_child
computed_child_denied lang now s tc cs depth req def td c ts k known readable unused = (
  perm_ref_passes req.object_type def.name td c k known,
  rw
      (
        k,
        walk_child,
        relation_denied now s tc ts readable c.relation_ref unused lang cs
            (walk_permission lang (lookups now s (some tc)) cs depth) req
            (request_key req def.name ∷ []),
      )
      refl,
)
