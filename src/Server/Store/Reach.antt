-- ===== src/Server/Store/Reach.antt =====
-- The stores that the operations reach, and their changelogs.
use mathlib.Core.Path.{subst}
use zanguard.Prelude.{
  ℕ, suc, ◌≡◌, refl, Option, none, some, List, [], ◌∷◌, arith, Bool-cases, inl, inr, push,
}
use zanguard.Js.Text.{Text, text, same}
use zanguard.Js.Maps
use zanguard.Js.Maps.{Map, get-set}
use zanguard.Server.Model.{
  Result, ok, ◌>>=◌, >>=-eq-ok, ok_injective, Attributes, Tenant, Context, RelationTuple,
  ChangelogEntry,
}
use zanguard.Server.Store.{
  Store, new, tuples_of, changelog_of, sequence_of, tenant_id_from, append_tuple_changelog,
  check_tenant_writable,
}
use zanguard.Api.Types.{ChangeOp}
use zanguard.Server.Store.Write.{
  write_tuples, delete_tuple, write_tuples_locked, stage, commit, log_all, existing_keys,
  after_take_out,
}
use zanguard.Server.Store.Tenants.{
  create_tenant, update_tenant, set_object_attributes, set_subject_attributes, append_changelog,
  purge_tenant_data, init_tenant,
}

-- The operations that change the store.
pub data Op : Type 0 where
  creates updates : Tenant → Op
  writes : Context → List RelationTuple → Op
  deletes : Context → RelationTuple → Op
  sets_object sets_subject : Context → (kind id : Text) → Attributes → Op
  appends : Context → ChangelogEntry → Op
  purges : Context → Op

unfoldable pub apply : ℕ → Op → Store → Result Store
apply now (creates t) s = create_tenant now t s
apply now (updates t) s = update_tenant now t s
apply now (writes ctx ts) s = write_tuples now ctx ts s
apply now (deletes ctx t) s = delete_tuple now ctx t s
apply now (sets_object ctx kind id attrs) s = set_object_attributes ctx kind id attrs s
apply now (sets_subject ctx kind id attrs) s = set_subject_attributes ctx kind id attrs s
apply now (appends ctx e) s = append_changelog now ctx e s
apply now (purges ctx) s = purge_tenant_data ctx s

-- Stores reached from an empty one by operations that succeed; one that fails changes nothing.
pub data Reach : Store → Type 0 where
  start : Reach new
  step : {s s' : Store} (now : ℕ) (op : Op) → Reach s → apply now op s ≡ ok s' → Reach s'

-- The sequence numbers of the log are those from `k + 1` to `n`, in order.
abbrev pub Counts : ℕ → List ChangelogEntry → ℕ → Type 0
Counts k [] n = k ≡ n
Counts k (e ∷ log) n = (e.sequence ≡ suc k) × Counts (suc k) log n

-- The changelog of each tenant is numbered from 1 to its counter.
unfoldable pub IsNumbered : Store → Type 0
IsNumbered s = (id : Text) → Counts 0 (changelog_of id s) (sequence_of id s)

Counts-push :
    (k n : ℕ) (log : List ChangelogEntry) (e : ChangelogEntry)
    → e.sequence ≡ suc n
    → Counts k log n
    → Counts k (push log e) (suc n)
Counts-push k n [] e p h = (omega arith, omega arith)
Counts-push k n (x ∷ log) e p (q, h) = (q, Counts-push (suc k) n log e p h)

-- Whatever else changes, a tenant gets a log that is numbered to its counter.
IsNumbered-set :
    (s s' : Store) (id : Text) (log : List ChangelogEntry) (n : ℕ)
    → s'.changelog ≡ Maps.set id log s.changelog
    → s'.seq_counter ≡ Maps.set id n s.seq_counter
    → Counts 0 log n
    → IsNumbered s
    → IsNumbered s'
unfolding IsNumbered changelog_of sequence_of
IsNumbered-set s s' id log n e f c h j =
    rw (e, f, get-set id j log s.changelog, get-set id j n s.seq_counter)
      (elim (Bool-cases (same id j)) [ inl hit ↦ rw hit c | inr miss ↦ rw miss (h j) ])

append_tuple_changelog-IsNumbered :
    (now : ℕ) (id : Text) (op : ChangeOp) (source : Text) (t : RelationTuple) (s : Store)
    → IsNumbered s
    → IsNumbered (append_tuple_changelog now id op source t s)
unfolding append_tuple_changelog IsNumbered
append_tuple_changelog-IsNumbered now id op source t s h =
    IsNumbered-set s _ id _ _ refl refl (Counts-push 0 (sequence_of id s) _ _ refl (h id)) h

log_all-IsNumbered :
    (now : ℕ) (id : Text) (ts : List RelationTuple) (s : Store)
    → IsNumbered s
    → IsNumbered (log_all now id ts s)
unfolding log_all
log_all-IsNumbered now id [] s h = h
log_all-IsNumbered now id (t ∷ ts) s h =
    log_all-IsNumbered now id ts _
      (append_tuple_changelog-IsNumbered now id ChangeOp.insert (text "api") t s h)

-- Nothing but the logs and the counters matters.
IsNumbered-same :
    (s s' : Store)
    → s.changelog ≡ s'.changelog
    → s.seq_counter ≡ s'.seq_counter
    → IsNumbered s
    → IsNumbered s'
unfolding IsNumbered changelog_of sequence_of
IsNumbered-same s s' e f h j = rw (← e, ← f) (h j)

-- What a write operation does once the tenant is found writable.
module _ (ctx : Context) (s : Store) (k : Text → Result Store) (s' : Store) where
  pub writable_lem :
      (tenant_id_from ctx >>= λ id. check_tenant_writable id s >>= λ _. k id) ≡ ok s'
      → (id : Text) × (k id ≡ ok s')
  writable_lem h =
      let (id, _, g) = >>=-eq-ok (tenant_id_from ctx) _ h in
      let (_, _, f) = >>=-eq-ok (check_tenant_writable id s) _ g in (id, f)

module _ (now : ℕ) (s s' : Store) (h : IsNumbered s) where
  init_tenant-IsNumbered : (id : Text) → IsNumbered (init_tenant id s)
  unfolding init_tenant
  init_tenant-IsNumbered id = elim (Bool-cases (Maps.has id s.tuples)) [
    | inl there ↦ rw there h
    | inr fresh ↦ rw fresh (IsNumbered-set s _ id [] 0 refl refl refl h)
  ]

  writes-IsNumbered :
      (id : Text) (ts : List RelationTuple)
      → write_tuples_locked now id ts s ≡ ok s'
      → IsNumbered s'
  unfolding write_tuples_locked commit
  writes-IsNumbered id [] e = subst IsNumbered (ok_injective e) h
  writes-IsNumbered id (t ∷ ts) e =
      let (staged, _, f) =
        >>=-eq-ok (stage now id (existing_keys now (tuples_of id s)) [] (t ∷ ts))
          (λ x. ok (commit now id s x)) e in
      rw (← ok_injective f) (log_all-IsNumbered now id staged _ (IsNumbered-same s _ refl refl h))

  deletes-IsNumbered :
      (id : Text) (r : Option (RelationTuple × List RelationTuple))
      → after_take_out now id s r ≡ ok s'
      → IsNumbered s'
  deletes-IsNumbered id none e = cc
  deletes-IsNumbered id (some (t, ts)) e = rw (← ok_injective e) (
      append_tuple_changelog-IsNumbered now id ChangeOp.delete (text "api") t _
        (IsNumbered-same s _ refl refl h))

apply-IsNumbered :
    (now : ℕ) (op : Op) (s s' : Store) → apply now op s ≡ ok s' → IsNumbered s → IsNumbered s'
unfolding apply create_tenant update_tenant write_tuples delete_tuple set_object_attributes
    set_subject_attributes append_changelog purge_tenant_data IsNumbered
apply-IsNumbered now (creates t) s s' e h = elim (Bool-cases (Maps.has t.id s.tenants)) [
  | inl there ↦ absurd (cc (rw there at e))
  | inr fresh ↦
      rw (← ok_injective (rw fresh at e))
        (init_tenant-IsNumbered now _ s' (IsNumbered-same s _ refl refl h) t.id)
]
apply-IsNumbered now (updates t) s s' e h = elim (Bool-cases (Maps.has t.id s.tenants)) [
  | inl there ↦ rw (← ok_injective (rw there at e)) (IsNumbered-same s _ refl refl h)
  | inr fresh ↦ absurd (cc (rw fresh at e))
]
apply-IsNumbered now (writes ctx ts) s s' e h =
    let (id, f) = writable_lem ctx s _ s' e in writes-IsNumbered now s s' h id ts f
apply-IsNumbered now (deletes ctx t) s s' e h =
    let (id, f) = writable_lem ctx s _ s' e in deletes-IsNumbered now s s' h id _ f
apply-IsNumbered now (sets_object ctx kind id attrs) s s' e h =
    let (id', f) = writable_lem ctx s _ s' e in
    rw (← ok_injective f) (IsNumbered-same s _ refl refl h)
apply-IsNumbered now (sets_subject ctx kind id attrs) s s' e h =
    let (id', f) = writable_lem ctx s _ s' e in
    rw (← ok_injective f) (IsNumbered-same s _ refl refl h)
apply-IsNumbered now (appends ctx x) s s' e h =
    let (id, f) = writable_lem ctx s _ s' e in
    rw (← ok_injective f)
      (IsNumbered-set s _ id _ _ refl refl (Counts-push 0 (sequence_of id s) _ _ refl (h id)) h)
apply-IsNumbered now (purges ctx) s s' e h =
    let (id, _, f) = >>=-eq-ok (tenant_id_from ctx) _ e in
    rw (← ok_injective f) (IsNumbered-set s _ id [] 0 refl refl refl h)

-- In every memory store that the operations reach, purges included, the changelog of each tenant is
-- numbered from 1 on, without gaps, up to the tenant's counter.
pub Reach-IsNumbered : (s : Store) → Reach s → IsNumbered s
unfolding IsNumbered changelog_of sequence_of Maps.get
Reach-IsNumbered s start = λ id. refl
Reach-IsNumbered s (step {s = s₀} now op r e) =
    apply-IsNumbered now op s₀ s e (Reach-IsNumbered s₀ r)
