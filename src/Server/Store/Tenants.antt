-- ===== src/Server/Store/Tenants.antt =====
-- The other operations of the memory store: tenants, attributes, the changelog, and the reads.
use zanguard.Prelude.{
  ℕ, suc, Bool, true, false, not, ◌&&◌, ◌||◌, Option, none, some, List, [], ◌∷◌, ◌++◌, map,
  if◌then◌else◌, ◌==◌, push, or_else, any, select, length,
}
use zanguard.Js.Text.{Text, same, is_empty}
use zanguard.Js.Maps
use zanguard.Js.Maps.{Map}
use zanguard.Server.Model.{
  tenant_not_found, tenant_exists, Result, ok, err, ◌>>=◌, Attributes, Tenant, Context,
  RelationTuple, SubjectRef, ChangelogEntry,
}
use zanguard.Server.Store.{
  Store, tuples_of, changelog_of, sequence_of, check_tenant_writable, check_tenant_readable,
  is_expired_at, is_of, readable_tuples, tenant_id_from,
}

-- `initTenant`
unfoldable pub init_tenant : Text → Store → Store
init_tenant id s = if Maps.has id s.tuples then s else record s {
  tuples = Maps.set id [] s.tuples;
  obj_attrs = Maps.set id [] s.obj_attrs;
  sub_attrs = Maps.set id [] s.sub_attrs;
  changelog = Maps.set id [] s.changelog;
  seq_counter = Maps.set id 0 s.seq_counter;
}

abbrev pub created : ℕ → Tenant → Tenant
created now t = record t {
  created_at = if t.created_at == 0 then now else t.created_at;
  updated_at = now;
}

unfoldable pub create_tenant : ℕ → Tenant → Store → Result Store
create_tenant now t s =
    if Maps.has t.id s.tenants
    then err tenant_exists
    else ok (init_tenant t.id (record s { tenants = Maps.set t.id (created now t) s.tenants }))

unfoldable pub get_tenant : Text → Store → Result Tenant
get_tenant id s = elim (Maps.get id s.tenants) [ none ↦ err tenant_not_found | some t ↦ ok t ]

unfoldable pub update_tenant : ℕ → Tenant → Store → Result Store
update_tenant now t s =
    if Maps.has t.id s.tenants
    then ok (record s { tenants = Maps.set t.id (record t { updated_at = now }) s.tenants })
    else err tenant_not_found

unfoldable pub set_object_attributes :
    Context → (object_type object_id : Text) → Attributes → Store → Result Store
set_object_attributes ctx object_type object_id attrs s = tenant_id_from ctx >>= λ id.
    check_tenant_writable id s >>= λ _. ok (record s {
      obj_attrs =
          Maps.set id
            (Maps.set (object_type ++ b':' ∷ object_id) attrs
              (or_else (Maps.get id s.obj_attrs) []))
            s.obj_attrs;
    })

unfoldable pub set_subject_attributes :
    Context → (subject_type subject_id : Text) → Attributes → Store → Result Store
set_subject_attributes ctx subject_type subject_id attrs s = tenant_id_from ctx >>= λ id.
    check_tenant_writable id s >>= λ _. ok (record s {
      sub_attrs =
          Maps.set id
            (Maps.set (subject_type ++ b':' ∷ subject_id) attrs
              (or_else (Maps.get id s.sub_attrs) []))
            s.sub_attrs;
    })

unfoldable pub append_changelog : ℕ → Context → ChangelogEntry → Store → Result Store
append_changelog now ctx e s = tenant_id_from ctx >>= λ id. check_tenant_writable id s >>= λ _.
    ok (record s {
      seq_counter = Maps.set id (suc (sequence_of id s)) s.seq_counter;
      changelog =
          Maps.set id
            (push (changelog_of id s) (record e {
              tenant_id = id;
              sequence = suc (sequence_of id s);
              timestamp = if e.timestamp == 0 then now else e.timestamp;
            }))
            s.changelog;
    })

unfoldable pub latest_sequence : Context → Store → Result ℕ
latest_sequence ctx s =
    tenant_id_from ctx >>= λ id. check_tenant_readable id s >>= λ _. ok (sequence_of id s)

unfoldable pub purge_tenant_data : Context → Store → Result Store
purge_tenant_data ctx s = tenant_id_from ctx >>= λ id. ok (record s {
  tuples = Maps.set id [] s.tuples;
  obj_attrs = Maps.set id [] s.obj_attrs;
  sub_attrs = Maps.set id [] s.sub_attrs;
  changelog = Maps.set id [] s.changelog;
  seq_counter = Maps.set id 0 s.seq_counter;
})

unfoldable pub count_tuples : ℕ → Context → Store → Result ℕ
count_tuples now ctx s =
    readable_tuples ctx s >>= λ ts. ok (length (select (λ t. not (is_expired_at t now)) ts))

-- `Expand`: the root and its children, which have no children.
pub record SubjectTree : Type 0 where
  pub subject : SubjectRef
  pub children : List SubjectRef

unfoldable pub expand :
    ℕ → Context → (object_type object_id rel : Text) → Store → Result SubjectTree
expand now ctx object_type object_id rel s = readable_tuples ctx s >>= λ ts. ok (record {
  subject = record { kind = object_type; id = object_id; relation = rel };
  children =
      map
        (λ (t : RelationTuple). record {
          kind = t.subject_type;
          id = t.subject_id;
          relation = t.subject_relation;
        })
        (select (is_of object_type object_id rel now) ts);
})

-- `CheckDirectCrossTenant`
unfoldable pub check_direct_cross_tenant :
    ℕ
    → (target_tenant_id object_type object_id rel subject_type subject_id : Text) → Store
    → Result Bool
check_direct_cross_tenant now id object_type object_id rel subject_type subject_id s =
    check_tenant_readable id s >>= λ _. ok (
      any
        (λ t.
          is_of object_type object_id rel now t
          && same t.subject_type subject_type
          && same t.subject_id subject_id)
        (tuples_of id s))

-- `TupleFilter`: an empty text filters nothing.
pub record TupleFilter : Type 0 where
  pub object_type : Text
  pub object_id : Text
  pub relation : Text
  pub subject_type : Text
  pub subject_id : Text
  pub subject_relation : Text
  pub include_expired : Bool

abbrev passes : (wanted value : Text) → Bool
passes wanted value = is_empty wanted || same value wanted

abbrev includes_expired : Option TupleFilter → Bool
includes_expired none = false
includes_expired (some f) = f.include_expired

unfoldable pub matches_tuple_filter : RelationTuple → Option TupleFilter → Bool
matches_tuple_filter t none = true
matches_tuple_filter t (some f) =
    passes f.object_type t.object_type
    && passes f.object_id t.object_id
    && passes f.relation t.relation
    && passes f.subject_type t.subject_type
    && passes f.subject_id t.subject_id
    && passes f.subject_relation t.subject_relation

unfoldable pub read_tuples : ℕ → Context → Option TupleFilter → Store → Result (List RelationTuple)
read_tuples now ctx filter s = readable_tuples ctx s >>= λ ts. ok (
    select
      (λ t. (includes_expired filter || not (is_expired_at t now)) && matches_tuple_filter t filter)
      ts)
