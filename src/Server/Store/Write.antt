-- ===== src/Server/Store/Write.antt =====
-- `WriteTuple`, `WriteTuples` and `DeleteTuple`.
use zanguard.Prelude.{
  ℕ, zero, suc, Bool, ◌&&◌, Option, none, some, List, [], ◌∷◌, ◌++◌, if◌then◌else◌, ◌==◌, push,
}
use zanguard.Js.Text.{Text, text, same}
use zanguard.Js.Maps
use zanguard.Js.Sets.{member}
use zanguard.Api.Types.{insert, delete}
use zanguard.Server.Model.{
  not_found, duplicate_tuple, Result, ok, err, ◌>>=◌, Context, RelationTuple,
}
use zanguard.Server.Store.{
  Store, tuples_of, check_tenant_writable, is_expired_at, tuple_identity_key,
  append_tuple_changelog, tenant_id_from,
}

-- `existingKeys`: the keys of the tuples that are not expired.
unfoldable pub existing_keys : ℕ → List RelationTuple → List Text
existing_keys now [] = []
existing_keys now (t ∷ ts) =
    let rest = existing_keys now ts in
    if is_expired_at t now then rest else tuple_identity_key t ∷ rest

abbrev one_more : Option ℕ → Option ℕ
one_more none = none
one_more (some i) = some (suc i)

-- `expiredIndexes[key]`: where the first expired tuple of that key stands.
unfoldable pub expired_index : ℕ → Text → List RelationTuple → Option ℕ
expired_index now key [] = none
expired_index now key (t ∷ ts) =
    let rest = expired_index now key ts in
    if is_expired_at t now && same (tuple_identity_key t) key then some zero else one_more rest

-- The copy that is stored.
unfoldable pub prepare : ℕ → Text → RelationTuple → RelationTuple
prepare now tenant_id t = record t {
  tenant_id = tenant_id;
  created_at = if t.created_at == 0 then now else t.created_at;
  updated_at = now;
}

abbrev and_staged : RelationTuple → Result (List RelationTuple) → Result (List RelationTuple)
and_staged t (ok ts) = ok (t ∷ ts)
and_staged t (err e) = err e

-- The loop that checks the keys of the batch and prepares the copies.
unfoldable pub stage :
    ℕ → Text → (existing batch : List Text) → List RelationTuple → Result (List RelationTuple)
stage now tenant_id existing batch [] = ok []
stage now tenant_id existing batch (t ∷ ts) =
    let key = tuple_identity_key t in
    let rest = stage now tenant_id existing (key ∷ batch) ts in
    if member key existing
    then err duplicate_tuple
    else if member key batch
    then err duplicate_tuple
    else and_staged (prepare now tenant_id t) rest

-- `ts[i] = t`
unfoldable pub set_at : ℕ → RelationTuple → List RelationTuple → List RelationTuple
set_at i t [] = []
set_at zero t (u ∷ ts) = t ∷ ts
set_at (suc i) t (u ∷ ts) = u ∷ set_at i t ts

-- The loop that places the staged tuples: at the index of an expired one of the same key, or among
-- `appends`. The indexes are those of the tuples `old` before the loop.
unfoldable pub place :
    ℕ
    → (old : List RelationTuple) → (staged stored appends : List RelationTuple) → List RelationTuple
place now old [] stored appends = stored ++ appends
place now old (t ∷ ts) stored appends = elim (expired_index now (tuple_identity_key t) old) [
  | some i ↦ place now old ts (set_at i t stored) appends
  | none ↦ place now old ts stored (push appends t)
]

-- The changelog entries of the staged tuples.
unfoldable pub log_all : ℕ → Text → List RelationTuple → Store → Store
log_all now tenant_id [] s = s
log_all now tenant_id (t ∷ ts) s =
    log_all now tenant_id ts (append_tuple_changelog now tenant_id insert (text "api") t s)

unfoldable pub commit : ℕ → Text → Store → List RelationTuple → Store
commit now tenant_id s staged = log_all now tenant_id staged (record s {
  tuples =
      Maps.set tenant_id (place now (tuples_of tenant_id s) staged (tuples_of tenant_id s) [])
        s.tuples;
})

-- `writeTuplesLocked`
unfoldable pub write_tuples_locked : ℕ → Text → List RelationTuple → Store → Result Store
write_tuples_locked now tenant_id [] s = ok s
write_tuples_locked now tenant_id (t ∷ ts) s =
    stage now tenant_id (existing_keys now (tuples_of tenant_id s)) [] (t ∷ ts) >>= λ staged.
    ok (commit now tenant_id s staged)

unfoldable pub write_tuples : ℕ → Context → List RelationTuple → Store → Result Store
write_tuples now ctx ts s =
    tenant_id_from ctx >>= λ id. check_tenant_writable id s >>= λ _. write_tuples_locked now id ts s

unfoldable pub write_tuple : ℕ → Context → RelationTuple → Store → Result Store
write_tuple now ctx t s = write_tuples now ctx (t ∷ []) s

-- The condition of the loop of `DeleteTuple`.
unfoldable pub is_same_tuple : RelationTuple → RelationTuple → Bool
is_same_tuple t u =
    same t.object_type u.object_type
    && same t.object_id u.object_id
    && same t.relation u.relation
    && same t.subject_type u.subject_type
    && same t.subject_id u.subject_id
    && same t.subject_relation u.subject_relation

abbrev and_kept :
    RelationTuple
    → Option (RelationTuple × List RelationTuple)
    → Option (RelationTuple × List RelationTuple)
and_kept t none = none
and_kept t (some (u, ts)) = some (u, t ∷ ts)

-- The first tuple that is the same as `u`, and the tuples without it.
unfoldable pub take_out :
    RelationTuple → List RelationTuple → Option (RelationTuple × List RelationTuple)
take_out u [] = none
take_out u (t ∷ ts) =
    let rest = take_out u ts in if is_same_tuple t u then some (t, ts) else and_kept t rest

abbrev pub after_take_out :
    ℕ → Text → Store → Option (RelationTuple × List RelationTuple) → Result Store
after_take_out now id s none = err not_found
after_take_out now id s (some (t, ts)) = ok (
    append_tuple_changelog now id delete (text "api") t
      (record s { tuples = Maps.set id ts s.tuples }))

unfoldable pub delete_tuple : ℕ → Context → RelationTuple → Store → Result Store
delete_tuple now ctx u s = tenant_id_from ctx >>= λ id.
    check_tenant_writable id s >>= λ _. after_take_out now id s (take_out u (tuples_of id s))
