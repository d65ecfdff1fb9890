-- ===== src/Server/Tenants/Lifecycle/Filed.antt =====
-- The stores that the operations reach hold each tenant under its own id.
use zanguard.Prelude.{
  ℕ, ◌≡◌, refl, ◌∙◌, sym, ap, Option, none, some, List, [], ◌∷◌, Bool-cases, inl, inr,
  if◌then◌else◌,
}
use zanguard.Js.Text.{Text, same, same_iff}
use zanguard.Js.Maps
use zanguard.Js.Maps.{Map, get-set}
use zanguard.Server.Model.{ok, >>=-eq-ok, ok_injective, Tenant, RelationTuple}
use zanguard.Server.Store.{Store, tuples_of, tenant_id_from, append_tuple_changelog}
use zanguard.Server.Store.Write.{
  write_tuples, delete_tuple, write_tuples_locked, stage, commit, existing_keys, after_take_out,
}
use zanguard.Server.Store.Tenants.{
  create_tenant, set_object_attributes, set_subject_attributes, append_changelog, purge_tenant_data,
  init_tenant, created,
}
use zanguard.Server.Store.Effect.{log_all-tenants}
use zanguard.Server.Store.Reach.{
  Op, creates, updates, writes, deletes, sets_object, sets_subject, appends, purges, apply, Reach,
  start, step, writable_lem,
}
use zanguard.Server.Tenants.Lifecycle.{IsFiled, update_lem}

IsFiled-set :
    (s s' : Store) (t : Tenant) → s'.tenants ≡ Maps.set t.id t s.tenants → IsFiled s → IsFiled s'
unfolding IsFiled
IsFiled-set s s' t e h j u g =
    let k : (if same t.id j then some t else Maps.get j s.tenants) ≡ some u =
      sym (ap (Maps.get j) e ∙ get-set t.id j t s.tenants) ∙ g in
    elim (Bool-cases (same t.id j)) [
      | inl hit ↦
          let q : t ≡ u = cc (rw hit at k) in
          ap (λ (v : Tenant). v.id) (sym q) ∙ (same_iff t.id j).0 hit
      | inr miss ↦ h j u (rw miss at k)
    ]

IsFiled-same : (s s' : Store) → s'.tenants ≡ s.tenants → IsFiled s → IsFiled s'
unfolding IsFiled
IsFiled-same s s' e h j u g = h j u (ap (Maps.get j) (sym e) ∙ g)

init_tenant-tenants : (id : Text) (s : Store) → (init_tenant id s).tenants ≡ s.tenants
unfolding init_tenant
init_tenant-tenants id s = elim (Bool-cases (Maps.has id s.tuples)) [
  | inl there ↦ rw there refl
  | inr fresh ↦ rw fresh refl
]

writes-tenants :
    (now : ℕ) (id : Text) (ts : List RelationTuple) (s s' : Store)
    → write_tuples_locked now id ts s ≡ ok s'
    → s'.tenants ≡ s.tenants
unfolding write_tuples_locked commit
writes-tenants now id [] s s' e = cc
writes-tenants now id (t ∷ ts) s s' e =
    let (staged, _, f) =
      >>=-eq-ok (stage now id (existing_keys now (tuples_of id s)) [] (t ∷ ts))
        (λ x. ok (commit now id s x)) e in
    rw (← ok_injective f) (log_all-tenants now id staged _)

deletes-tenants :
    (now : ℕ) (id : Text) (s s' : Store) (r : Option (RelationTuple × List RelationTuple))
    → after_take_out now id s r ≡ ok s'
    → s'.tenants ≡ s.tenants
unfolding append_tuple_changelog
deletes-tenants now id s s' none e = cc
deletes-tenants now id s s' (some (t, ts)) e = rw (← ok_injective e) refl

apply-IsFiled : (now : ℕ) (op : Op) (s s' : Store) → apply now op s ≡ ok s' → IsFiled s → IsFiled s'
unfolding apply create_tenant write_tuples delete_tuple set_object_attributes set_subject_attributes
    append_changelog purge_tenant_data
apply-IsFiled now (creates t) s s' e h = elim (Bool-cases (Maps.has t.id s.tenants)) [
  | inl there ↦ absurd (cc (rw there at e))
  | inr fresh ↦ rw (← ok_injective (rw fresh at e)) (
      let s₁ : Store = record s { tenants = Maps.set t.id (created now t) s.tenants } in
      IsFiled-same s₁ _ (init_tenant-tenants t.id s₁) (IsFiled-set s s₁ (created now t) refl h))
]
apply-IsFiled now (updates t) s s' e h =
    IsFiled-set s s' (record t { updated_at = now }) (update_lem now t s s' e) h
apply-IsFiled now (writes ctx ts) s s' e h =
    let (id, f) = writable_lem ctx s _ s' e in IsFiled-same s s' (writes-tenants now id ts s s' f) h
apply-IsFiled now (deletes ctx t) s s' e h =
    let (id, f) = writable_lem ctx s _ s' e in IsFiled-same s s' (deletes-tenants now id s s' _ f) h
apply-IsFiled now (sets_object ctx kind id attrs) s s' e h =
    let (id', f) = writable_lem ctx s _ s' e in rw (← ok_injective f) (IsFiled-same s _ refl h)
apply-IsFiled now (sets_subject ctx kind id attrs) s s' e h =
    let (id', f) = writable_lem ctx s _ s' e in rw (← ok_injective f) (IsFiled-same s _ refl h)
apply-IsFiled now (appends ctx x) s s' e h =
    let (id, f) = writable_lem ctx s _ s' e in rw (← ok_injective f) (IsFiled-same s _ refl h)
apply-IsFiled now (purges ctx) s s' e h =
    let (id, _, f) = >>=-eq-ok (tenant_id_from ctx) _ e in
    rw (← ok_injective f) (IsFiled-same s _ refl h)

-- In every store that the operations reach, each tenant is stored under its own id.
pub Reach-IsFiled : (s : Store) → Reach s → IsFiled s
unfolding IsFiled Maps.get
Reach-IsFiled s start = λ id t e. cc
Reach-IsFiled s (step {s = s₀} now op r e) = apply-IsFiled now op s₀ s e (Reach-IsFiled s₀ r)
