-- ===== src/Server/Tenants/Lifecycle.antt =====
-- The states of a tenant.
pub mod Final
pub mod Filed
use zanguard.Prelude.{
  ℕ, ◌≡◌, refl, ◌∙◌, sym, ap, Bool, true, false, Option, none, some, List, [], ◌∷◌, arith,
  Bool-cases, Option-cases, inl, inr, if◌then◌else◌,
}
use zanguard.Js.Text.{Text, same, same_iff, same_refl}
use zanguard.Js.Maps
use zanguard.Js.Maps.{Map, get-set}
use zanguard.Api.Types.{TenantStatus, pending, active, suspended, deleted}
use zanguard.Server.Model.{
  Error, tenant_not_found, tenant_deleted, tenant_suspended, invalid_transition, Result, ok, err,
  ◌>>=◌, >>=-eq-ok, ok_injective, Tenant,
}
use zanguard.Server.Store.{Store, check_tenant_writable, check_tenant_readable}
use zanguard.Server.Store.Tenants.{get_tenant, update_tenant}
use zanguard.Server.Tenants.{activate, suspend, delete, activated, suspended_from, removed}

pub data Move : Type 0 where
  activates suspends deletes : Move

abbrev pub move : Move → ℕ → Text → Store → Result Store
move activates now id s = activate now id s
move suspends now id s = suspend now id s
move deletes now id s = delete now id s

-- Each tenant is stored under its own id.
unfoldable pub IsFiled : Store → Type 0
IsFiled s = (id : Text) (t : Tenant) → Maps.get id s.tenants ≡ some t → t.id ≡ id

abbrev pub status_after : Move → TenantStatus
status_after activates = active
status_after suspends = suspended
status_after deletes = deleted

found_tenant :
    (id : Text) (s : Store) (t : Tenant) → get_tenant id s ≡ ok t → Maps.get id s.tenants ≡ some t
unfolding get_tenant
found_tenant id s t h = found (Maps.get id s.tenants) h
  where
    found :
        (o : Option Tenant)
        → ◌≡◌ {A = Result Tenant} (elim o [ none ↦ err tenant_not_found | some u ↦ ok u ]) (ok t)
        → o ≡ some t
    found none h = cc
    found (some u) h = ap some (ok_injective h)

-- A move that succeeds is an update of the tenant to its new state.
activated_lem :
    (now : ℕ) (t : Tenant) (s s' : Store) (x : TenantStatus)
    → activated now t s x ≡ ok s'
    → (x ≡ deleted → ⊥) × (update_tenant now (record t { status = active }) s ≡ ok s')
activated_lem now t s s' pending h = (λ e. cc, h)
activated_lem now t s s' active h = (λ e. cc, h)
activated_lem now t s s' suspended h = (λ e. cc, h)
activated_lem now t s s' deleted h = cc

suspended_lem :
    (now : ℕ) (t : Tenant) (s s' : Store) (x : TenantStatus)
    → suspended_from now t s x ≡ ok s'
    → (x ≡ deleted → ⊥) × (update_tenant now (record t { status = suspended }) s ≡ ok s')
suspended_lem now t s s' pending h = cc
suspended_lem now t s s' active h = (λ e. cc, h)
suspended_lem now t s s' suspended h = cc
suspended_lem now t s s' deleted h = cc

removed_lem :
    (now : ℕ) (t : Tenant) (s s' : Store) (x : TenantStatus)
    → removed now t s x ≡ ok s'
    → (x ≡ deleted → ⊥) × (update_tenant now (record t { status = deleted }) s ≡ ok s')
removed_lem now t s s' pending h = (λ e. cc, h)
removed_lem now t s s' active h = (λ e. cc, h)
removed_lem now t s s' suspended h = (λ e. cc, h)
removed_lem now t s s' deleted h = cc

pub move_lem :
    (m : Move) (now : ℕ) (id : Text) (s s' : Store)
    → move m now id s ≡ ok s'
    → (t : Tenant) × (Maps.get id s.tenants ≡ some t)
      × (t.status ≡ deleted → ⊥)
      × (update_tenant now (record t { status = status_after m }) s ≡ ok s')
unfolding activate suspend delete
move_lem activates now id s s' h =
    let (t, e, f) = >>=-eq-ok (get_tenant id s) (λ t. activated now t s t.status) h in
    let (g, k) = activated_lem now t s s' t.status f in (t, found_tenant id s t e, g, k)
move_lem suspends now id s s' h =
    let (t, e, f) = >>=-eq-ok (get_tenant id s) (λ t. suspended_from now t s t.status) h in
    let (g, k) = suspended_lem now t s s' t.status f in (t, found_tenant id s t e, g, k)
move_lem deletes now id s s' h =
    let (t, e, f) = >>=-eq-ok (get_tenant id s) (λ t. removed now t s t.status) h in
    let (g, k) = removed_lem now t s s' t.status f in (t, found_tenant id s t e, g, k)

pub update_lem :
    (now : ℕ) (t : Tenant) (s s' : Store)
    → update_tenant now t s ≡ ok s'
    → s'.tenants ≡ Maps.set t.id (record t { updated_at = now }) s.tenants
unfolding update_tenant
update_lem now t s s' h = elim (Bool-cases (Maps.has t.id s.tenants)) [
  | inl there ↦ cc (rw there at h)
  | inr fresh ↦ absurd (cc (rw fresh at h))
]

-- The status that the store has of a tenant.
abbrev pub status_in : Option Tenant → Option TenantStatus
status_in none = none
status_in (some t) = some t.status

unfoldable pub status_of : Text → Store → Option TenantStatus
status_of id s = status_in (Maps.get id s.tenants)

-- What a successful move does to the tenants.
moved_lem :
    (m : Move) (now : ℕ) (id : Text) (s s' : Store)
    → IsFiled s
    → move m now id s ≡ ok s'
    → (t : Tenant) × (Maps.get id s.tenants ≡ some t)
      × (t.status ≡ deleted → ⊥)
      × (s'.tenants
          ≡ Maps.set id (record t { status = status_after m; updated_at = now }) s.tenants)
unfolding IsFiled
moved_lem m now id s s' filed h =
    let (t, e, f, g) = move_lem m now id s s' h in
    let u : Tenant = record t { status = status_after m } in
    (
      t,
      e,
      f,
      update_lem now u s s' g
          ∙ ap (λ (j : Text). Maps.set j (record u { updated_at = now }) s.tenants) (filed id t e),
    )

pub move-IsFiled :
    (m : Move) (now : ℕ) (id : Text) (s s' : Store)
    → IsFiled s
    → move m now id s ≡ ok s'
    → IsFiled s'
unfolding IsFiled
move-IsFiled m now id s s' filed h j u e =
    let (t, found, f, g) = moved_lem m now id s s' filed h in
    let t' : Tenant = record t { status = status_after m; updated_at = now } in
    let k : (if same id j then some t' else Maps.get j s.tenants) ≡ some u =
      sym (ap (Maps.get j) g ∙ get-set id j t' s.tenants) ∙ e in
    elim (Bool-cases (same id j)) [
      | inl hit ↦
          let q : t' ≡ u = cc (rw hit at k) in
          ap (λ (v : Tenant). v.id) (sym q) ∙ filed id t found ∙ (same_iff id j).0 hit
      | inr miss ↦ filed j u (rw miss at k)
    ]

-- A move that succeeds was not one of a deleted tenant; it gives the tenant its new state, and every
-- other tenant keeps its own.
pub move_effect :
    (m : Move) (now : ℕ) (id : Text) (s s' : Store)
    → IsFiled s
    → move m now id s ≡ ok s'
    → (status_of id s ≡ some deleted → ⊥)
      × ((j : Text) → status_of j s' ≡ (if same id j then some (status_after m) else status_of j s))
unfolding status_of
move_effect m now id s s' filed h =
    let (t, found, f, g) = moved_lem m now id s s' filed h in
    (
      λ e. f (cc (rw found at e)),
      λ j.
          rw (g, get-set id j (record t { status = status_after m; updated_at = now }) s.tenants)
            (elim (Bool-cases (same id j)) [ inl hit ↦ rw hit refl | inr miss ↦ rw miss refl ]),
    )
