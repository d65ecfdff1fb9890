-- ===== src/Server/Store.antt =====
-- The tuples and the changelog of pkg/storage/memory/store.go. A lock makes each operation one step;
-- `now` is its clock reading, one also where the code reads the clock again for the changelog. A key
-- that a Go map does not have reads as nil.
pub mod Tenants
pub mod Write
pub mod Reach
pub mod Keys
pub mod Keyed
pub mod Effect
pub mod Removal
pub mod Duplicates
pub mod Growth
pub mod AppendOnly
use zanguard.Prelude.{
  ℕ, zero, suc, ◌+◌, Bool, true, false, not, ◌&&◌, ◌||◌, Option, none, some, List, [], ◌∷◌, ◌++◌,
  map, if◌then◌else◌, leb, push, or_else, any, select, length,
}
use zanguard.Js.Text.{Text, text, same, is_empty}
use zanguard.Js.Maps
use zanguard.Js.Maps.{Map}
use zanguard.Api.Types.{TenantStatus, pending, active, suspended, deleted, ChangeOp, insert, delete}
use zanguard.Server.Model.{
  Error, no_tenant_context, tenant_not_found, tenant_deleted, tenant_suspended, not_found,
  duplicate_tuple, Result, ok, err, ◌>>=◌, Attributes, Tenant, Context, RelationTuple, ObjectRef,
  SubjectRef, ChangelogEntry,
}

-- The maps of `Store`, by tenant.
pub record Store : Type 0 where
  pub tenants : Map Tenant
  pub tuples : Map (List RelationTuple)
  pub obj_attrs : Map (Map Attributes)
  pub sub_attrs : Map (Map Attributes)
  pub changelog : Map (List ChangelogEntry)
  pub seq_counter : Map ℕ

abbrev pub new : Store
new = record {
  tenants = [];
  tuples = [];
  obj_attrs = [];
  sub_attrs = [];
  changelog = [];
  seq_counter = [];
}

unfoldable pub tuples_of : Text → Store → List RelationTuple
tuples_of tenant_id s = or_else (Maps.get tenant_id s.tuples) []

unfoldable pub changelog_of : Text → Store → List ChangelogEntry
changelog_of tenant_id s = or_else (Maps.get tenant_id s.changelog) []

unfoldable pub sequence_of : Text → Store → ℕ
sequence_of tenant_id s = or_else (Maps.get tenant_id s.seq_counter) 0

abbrev pub status_writable : TenantStatus → Result (Unit {0})
status_writable deleted = err tenant_deleted
status_writable suspended = err tenant_suspended
status_writable pending = err tenant_suspended
status_writable active = ok tt

abbrev pub writable : Option Tenant → Result (Unit {0})
writable none = err tenant_not_found
writable (some t) = status_writable t.status

-- `checkTenantWritable`
unfoldable pub check_tenant_writable : Text → Store → Result (Unit {0})
check_tenant_writable tenant_id s = writable (Maps.get tenant_id s.tenants)

abbrev pub status_readable : TenantStatus → Result (Unit {0})
status_readable deleted = err tenant_deleted
status_readable _ = ok tt

abbrev pub readable : Option Tenant → Result (Unit {0})
readable none = err tenant_not_found
readable (some t) = status_readable t.status

-- `checkTenantReadable`
unfoldable pub check_tenant_readable : Text → Store → Result (Unit {0})
check_tenant_readable tenant_id s = readable (Maps.get tenant_id s.tenants)

-- `tupleIsExpiredAt`
abbrev expired : Option ℕ → ℕ → Bool
expired none now = false
expired (some t) now = leb t now

unfoldable pub is_expired_at : RelationTuple → ℕ → Bool
is_expired_at t now = expired t.expires_at now

-- The tuple is one of the relation `rel` of the object, and is not expired.
unfoldable pub is_of : (object_type object_id rel : Text) → ℕ → RelationTuple → Bool
unfolding is_expired_at
is_of object_type object_id rel now t =
    same t.object_type object_type
    && same t.object_id object_id
    && same t.relation rel
    && not (is_expired_at t now)

-- The condition of the loop of `CheckDirect`.
unfoldable pub is_direct :
    (object_type object_id rel subject_type subject_id : Text) → ℕ → RelationTuple → Bool
unfolding is_of
is_direct object_type object_id rel subject_type subject_id now t =
    is_of object_type object_id rel now t
    && same t.subject_type subject_type
    && same t.subject_id subject_id
    && is_empty t.subject_relation

abbrev pub tenant_id_from : Context → Result Text
tenant_id_from none = err no_tenant_context
tenant_id_from (some tc) = ok tc.tenant_id

-- What a read does before its loop: it returns the tuples of the tenant of the context.
unfoldable pub readable_tuples : Context → Store → Result (List RelationTuple)
readable_tuples ctx s =
    tenant_id_from ctx >>= λ id. check_tenant_readable id s >>= λ _. ok (tuples_of id s)

module _ (now : ℕ) (s : Store) (ctx : Context) where
  unfoldable pub check_direct :
      (object_type object_id rel subject_type subject_id : Text) → Result Bool
  check_direct object_type object_id rel subject_type subject_id = readable_tuples ctx s >>= λ ts.
      ok (any (is_direct object_type object_id rel subject_type subject_id now) ts)

  abbrev object_ref : RelationTuple → ObjectRef
  object_ref t = record { kind = t.subject_type; id = t.subject_id }

  unfoldable pub list_related_objects : (object_type object_id rel : Text) → Result (List ObjectRef)
  list_related_objects object_type object_id rel = readable_tuples ctx s >>= λ ts.
      ok (map object_ref (select (is_of object_type object_id rel now) ts))

  abbrev subject_ref : RelationTuple → SubjectRef
  subject_ref t = record { kind = t.subject_type; id = t.subject_id; relation = t.subject_relation }

  unfoldable pub list_subjects : (object_type object_id rel : Text) → Result (List SubjectRef)
  list_subjects object_type object_id rel = readable_tuples ctx s >>= λ ts.
      ok (map subject_ref (select (is_of object_type object_id rel now) ts))

  abbrev attributes_at : Option Attributes → Result Attributes
  attributes_at none = err not_found
  attributes_at (some attrs) = ok attrs

  unfoldable pub get_object_attributes : (object_type object_id : Text) → Result Attributes
  get_object_attributes object_type object_id = tenant_id_from ctx >>= λ id.
      check_tenant_readable id s >>= λ _.
      attributes_at
        (Maps.get (object_type ++ b':' ∷ object_id) (or_else (Maps.get id s.obj_attrs) []))

  unfoldable pub get_subject_attributes : (subject_type subject_id : Text) → Result Attributes
  get_subject_attributes subject_type subject_id = tenant_id_from ctx >>= λ id.
      check_tenant_readable id s >>= λ _.
      attributes_at
        (Maps.get (subject_type ++ b':' ∷ subject_id) (or_else (Maps.get id s.sub_attrs) []))

-- `tupleIdentityKey`
unfoldable pub tuple_identity_key : RelationTuple → Text
tuple_identity_key t =
    t.object_type
    ++ b':'
      ∷ (t.object_id
          ++ b'#'
            ∷ (t.relation
                ++ b'@' ∷ (t.subject_type ++ b':' ∷ (t.subject_id ++ b'#' ∷ t.subject_relation))))

-- `appendTupleChangelogUnsafe`
unfoldable pub append_tuple_changelog : ℕ → Text → ChangeOp → Text → RelationTuple → Store → Store
append_tuple_changelog now tenant_id op source t s = record s {
  seq_counter = Maps.set tenant_id (suc (sequence_of tenant_id s)) s.seq_counter;
  changelog =
      Maps.set tenant_id
        (push (changelog_of tenant_id s) (record {
          sequence = suc (sequence_of tenant_id s);
          tenant_id = tenant_id;
          operation = op;
          tuple = t;
          timestamp = now;
          actor = [];
          source = source;
          metadata = [];
        }))
        s.changelog;
}
