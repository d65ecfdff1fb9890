-- ===== src/Tests/Stores.antt =====
-- The memory store at sample data.
use zanguard.Prelude.{
  suc, ◌≡◌, refl, not, ◌&&◌, ◌||◌, none, some, List, [], ◌∷◌, ◌++◌, map, arith, length,
}
use zanguard.Js.Text.{Text, text, same}
use zanguard.Js.Sets.{member}
use zanguard.Js.Maps
use zanguard.Api.Types.{active, deleted, own}
use zanguard.Server.Model.{
  Result, ok, err, ◌>>=◌, tenant_deleted, duplicate_tuple, Tenant, TenantContext, RelationTuple,
  ChangelogEntry,
}
use zanguard.Server.Store.{
  Store, new, tuples_of, changelog_of, sequence_of, is_expired_at, check_direct,
  check_tenant_writable, check_tenant_readable, append_tuple_changelog, tuple_identity_key,
}
use zanguard.Server.Store.Write.{
  write_tuple, write_tuples, write_tuples_locked, delete_tuple, stage, place, commit, log_all,
  existing_keys, expired_index, prepare, take_out, is_same_tuple,
}
use zanguard.Server.Store.Tenants.{create_tenant, update_tenant, init_tenant}
use zanguard.Server.Store.Reach.{
  creates, updates, writes, apply, Reach, start, step, IsNumbered, Counts, Reach-IsNumbered,
}
use zanguard.Server.Store.Keyed.{IsKeyed, Reach-IsKeyed}
use zanguard.Server.Store.AppendOnly.{Run, here, next, changelog_grows}
use zanguard.Server.Store.Effect.{names, write_then_check}
use zanguard.Server.Store.Duplicates.{second_write_refused}
use zanguard.Server.Store.Removal.{delete_then_check}
use zanguard.Server.Tenants.{default_tenant_config}
use zanguard.Server.Tenants.Lifecycle.{activates, suspends, status_of}
use zanguard.Server.Tenants.Lifecycle.Final.{run_moves, deleted_is_final}
use zanguard.Changelog.Store.{read_from, read_changelog}
use zanguard.Changelog.Server.{pages, entry_sent, reached_pages_show_log}

abbrev pub or_new : Result Store → Store
or_new (ok s) = s
or_new (err e) = new

abbrev or_empty : Result (List ChangelogEntry) → List ChangelogEntry
or_empty (ok entries) = entries
or_empty (err e) = []

abbrev pub acme : Tenant
acme = record {
  id = text "acme";
  display_name = text "Acme";
  parent_tenant_id = [];
  status = active;
  schema_mode = own;
  shared_schema_ref = [];
  config = default_tenant_config;
  created_at = 5;
  updated_at = 5;
}

abbrev pub in_acme : TenantContext
in_acme = record { tenant_id = text "acme"; tenant = acme }

abbrev pub tuple : (object_type object_id rel subject_type subject_id : Text) → RelationTuple
tuple o i r k j = record {
  tenant_id = text "acme";
  object_type = o;
  object_id = i;
  relation = r;
  subject_type = k;
  subject_id = j;
  subject_relation = [];
  subject_tenant_id = [];
  attributes = [];
  expires_at = none;
  created_at = 0;
  updated_at = 0;
  source_system = [];
  external_id = [];
}

abbrev pub ann_views : RelationTuple
ann_views = tuple (text "doc") (text "1") (text "viewer") (text "user") (text "ann")

abbrev pub one_tenant : Store
unfolding apply create_tenant init_tenant Maps.has Maps.set same
one_tenant = or_new (apply 5 (creates acme) new)

abbrev pub one_tuple : Store
unfolding write_tuples write_tuples_locked apply check_tenant_writable stage existing_keys member
    commit place expired_index log_all prepare append_tuple_changelog tuples_of changelog_of
    sequence_of tuple_identity_key is_expired_at Maps.get Maps.set same one_tenant
one_tuple = or_new (apply 6 (writes (some in_acme) (ann_views ∷ [])) one_tenant)

pub one_tenant-Reach : Reach one_tenant
unfolding apply create_tenant init_tenant Maps.has Maps.set same one_tenant
one_tenant-Reach = step 5 (creates acme) start refl

pub one_tuple-Reach : Reach one_tuple
unfolding write_tuples write_tuples_locked apply check_tenant_writable stage existing_keys member
    commit place expired_index log_all prepare append_tuple_changelog tuples_of changelog_of
    sequence_of tuple_identity_key is_expired_at Maps.get Maps.set same one_tenant one_tuple
one_tuple-Reach = step 6 (writes (some in_acme) (ann_views ∷ [])) one_tenant-Reach refl

Reach-IsNumbered_example : IsNumbered one_tuple
Reach-IsNumbered_example = Reach-IsNumbered one_tuple one_tuple-Reach

one_write : Run (text "acme") one_tenant one_tuple
unfolding write_tuples write_tuples_locked apply check_tenant_writable stage existing_keys member
    commit place expired_index log_all prepare append_tuple_changelog tuples_of changelog_of
    sequence_of tuple_identity_key is_expired_at Maps.get Maps.set same one_tenant one_tuple
one_write = next 6 (writes (some in_acme) (ann_views ∷ [])) here tt refl

changelog_grows_example :
    (newer : List ChangelogEntry) × (changelog_of (text "acme") one_tuple
      ≡ changelog_of (text "acme") one_tenant ++ newer)
    × Counts (sequence_of (text "acme") one_tenant) newer (sequence_of (text "acme") one_tuple)
unfolding apply create_tenant init_tenant Maps.has Maps.set same one_tenant
changelog_grows_example =
    changelog_grows (text "acme") one_tenant one_tuple one_tenant-Reach refl one_write

Reach-IsKeyed_example : IsKeyed one_tuple
Reach-IsKeyed_example = Reach-IsKeyed one_tuple one_tuple-Reach

reached_pages_show_log_example :
    pages
      (λ t. [])
      (some in_acme)
      one_tuple
      (suc (length (map (entry_sent (λ t. [])) (changelog_of (text "acme") one_tuple))))
      0
    ≡ (check_tenant_readable (text "acme") one_tuple >>= λ _.
        ok (map (entry_sent (λ t. [])) (changelog_of (text "acme") one_tuple)))
reached_pages_show_log_example = reached_pages_show_log (λ t. []) one_tuple in_acme one_tuple-Reach

-- The whole changelog has one entry, which the first page shows.
one_entry_seen : length (or_empty (read_changelog (some in_acme) 0 50 one_tuple)) ≡ 1
unfolding read_changelog read_from write_tuples write_tuples_locked apply check_tenant_writable
    check_tenant_readable stage existing_keys member commit place expired_index log_all prepare
    append_tuple_changelog tuples_of changelog_of sequence_of tuple_identity_key is_expired_at
    Maps.get Maps.set same one_tenant one_tuple create_tenant init_tenant Maps.has
one_entry_seen = refl

write_then_check_example :
    check_direct 9 one_tuple
      (some in_acme)
      (text "doc")
      (text "1")
      (text "viewer")
      (text "user")
      (text "ann")
    ≡ (check_direct 9 one_tenant
          (some in_acme)
          (text "doc")
          (text "1")
          (text "viewer")
          (text "user")
          (text "ann")
        >>= λ b. ok (
            names (text "doc") (text "1") (text "viewer") (text "user") (text "ann") ann_views
              && not (is_expired_at ann_views 9)
            || b))
unfolding write_tuple write_tuples write_tuples_locked apply check_tenant_writable stage
    existing_keys member commit place expired_index log_all prepare append_tuple_changelog tuples_of
    changelog_of sequence_of tuple_identity_key is_expired_at Maps.get Maps.set same one_tenant
    one_tuple
write_then_check_example =
    write_then_check 6 9 in_acme ann_views one_tenant one_tuple (text "doc") (text "1")
      (text "viewer") (text "user") (text "ann") (omega arith) refl

second_write_refused_example :
    write_tuple 9 (some in_acme) (record ann_views { created_at = 8 }) one_tuple
    ≡ err duplicate_tuple
unfolding write_tuple write_tuples write_tuples_locked apply check_tenant_writable stage
    existing_keys member commit place expired_index log_all prepare append_tuple_changelog tuples_of
    changelog_of sequence_of tuple_identity_key is_expired_at Maps.get Maps.set same one_tenant
    one_tuple
second_write_refused_example =
    second_write_refused 6 9 in_acme ann_views (record ann_views { created_at = 8 }) one_tenant
      one_tuple refl refl refl

abbrev no_tuple : Store
unfolding delete_tuple check_tenant_writable append_tuple_changelog tuples_of changelog_of
    sequence_of take_out is_same_tuple Maps.get Maps.set same one_tuple
no_tuple = or_new (delete_tuple 7 (some in_acme) ann_views one_tuple)

delete_then_check_example :
    check_direct 9 no_tuple
      (some in_acme)
      (text "doc")
      (text "1")
      (text "viewer")
      (text "user")
      (text "ann")
    ≡ (check_direct 9 one_tuple
          (some in_acme)
          (text "doc")
          (text "1")
          (text "viewer")
          (text "user")
          (text "ann")
        >>= λ b. ok (
            b
            && not (
                names
                  (text "doc")
                  (text "1")
                  (text "viewer")
                  (text "user")
                  (text "ann")
                  ann_views)))
unfolding delete_tuple check_tenant_writable append_tuple_changelog tuples_of changelog_of
    sequence_of take_out is_same_tuple Maps.get Maps.set same one_tuple no_tuple one_tenant apply
delete_then_check_example =
    delete_then_check 7 9 in_acme ann_views one_tuple no_tuple (text "doc") (text "1")
      (text "viewer") (text "user") (text "ann") one_tuple-Reach refl

abbrev closed_tenant : Store
unfolding apply update_tenant Maps.has Maps.set same one_tenant
closed_tenant = or_new (apply 8 (updates (record acme { status = deleted })) one_tenant)

closed_tenant-Reach : Reach closed_tenant
unfolding apply update_tenant Maps.has Maps.set same one_tenant closed_tenant
closed_tenant-Reach = step 8 (updates (record acme { status = deleted })) one_tenant-Reach refl

deleted_is_final_example :
    (check_tenant_writable
        (text "acme")
        (run_moves ((activates, 9, text "acme") ∷ (suspends, 9, text "acme") ∷ []) closed_tenant)
      ≡ err tenant_deleted)
    × (check_tenant_readable
          (text "acme")
          (run_moves ((activates, 9, text "acme") ∷ (suspends, 9, text "acme") ∷ []) closed_tenant)
        ≡ err tenant_deleted)
unfolding status_of apply update_tenant Maps.get Maps.has Maps.set same one_tenant closed_tenant
deleted_is_final_example =
    deleted_is_final ((activates, 9, text "acme") ∷ (suspends, 9, text "acme") ∷ []) (text "acme")
      closed_tenant closed_tenant-Reach refl
