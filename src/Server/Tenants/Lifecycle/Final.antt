-- ===== src/Server/Tenants/Lifecycle/Final.antt =====
-- A deleted tenant stays deleted.
use zanguard.Prelude.{
  ℕ, ◌≡◌, refl, ◌∙◌, ap, Option, none, some, List, [], ◌∷◌, Bool-cases, inl, inr,
}
use zanguard.Js.Text.{Text, same, same_iff}
use zanguard.Js.Maps
use zanguard.Api.Types.{deleted}
use zanguard.Server.Model.{tenant_deleted, Result, ok, err, Tenant}
use zanguard.Server.Store.{Store, check_tenant_writable, check_tenant_readable, writable, readable}
use zanguard.Server.Store.Reach.{Reach}
use zanguard.Server.Tenants.Lifecycle.Filed.{Reach-IsFiled}
use zanguard.Server.Tenants.Lifecycle.{
  Move, move, IsFiled, status_in, status_of, move-IsFiled, move_effect,
}

abbrev kept : Store → Result Store → Store
kept s (ok s') = s'
kept s (err e) = s

-- Moves one after another; one that fails changes nothing.
unfoldable pub run_moves : List (Move × ℕ × Text) → Store → Store
run_moves [] s = s
run_moves ((m, now, id) ∷ ms) s = run_moves ms (kept s (move m now id s))

stays :
    (m : Move) (now : ℕ) (j id : Text) (s s' : Store)
    → IsFiled s
    → move m now j s ≡ ok s'
    → status_of id s ≡ some deleted
    → status_of id s' ≡ some deleted
stays m now j id s s' filed h d =
    let (alive, effect) = move_effect m now j s s' filed h in
    elim (Bool-cases (same j id)) [
      | inl hit ↦ absurd (alive (ap (λ (i : Text). status_of i s) ((same_iff j id).0 hit) ∙ d))
      | inr miss ↦ effect id ∙ rw miss d
    ]

kept-stays :
    (m : Move) (now : ℕ) (j id : Text) (s : Store) (r : Result Store)
    → move m now j s ≡ r
    → IsFiled s
    → status_of id s ≡ some deleted
    → IsFiled (kept s r) × (status_of id (kept s r) ≡ some deleted)
kept-stays m now j id s (ok s') e filed d =
    (move-IsFiled m now j s s' filed e, stays m now j id s s' filed e d)
kept-stays m now j id s (err x) e filed d = (filed, d)

run_moves-deleted :
    (ms : List (Move × ℕ × Text)) (id : Text) (s : Store)
    → IsFiled s
    → status_of id s ≡ some deleted
    → status_of id (run_moves ms s) ≡ some deleted
unfolding run_moves
run_moves-deleted [] id s filed d = d
run_moves-deleted ((m, now, j) ∷ ms) id s filed d =
    let (filed', d') = kept-stays m now j id s (move m now j s) refl filed d in
    run_moves-deleted ms id (kept s (move m now j s)) filed' d'

closed :
    (o : Option Tenant)
    → status_in o ≡ some deleted
    → (writable o ≡ err tenant_deleted) × (readable o ≡ err tenant_deleted)
closed none h = cc
closed (some t) h = let e : t.status ≡ deleted = cc in (rw e refl, rw e refl)

-- Once a tenant of a reached store is deleted, whatever activations, suspensions and deletions
-- follow, of any tenants, it can be neither written nor read.
pub deleted_is_final :
    (ms : List (Move × ℕ × Text)) (id : Text) (s : Store)
    → Reach s
    → status_of id s ≡ some deleted
    → (check_tenant_writable id (run_moves ms s) ≡ err tenant_deleted)
      × (check_tenant_readable id (run_moves ms s) ≡ err tenant_deleted)
unfolding status_of check_tenant_writable check_tenant_readable
deleted_is_final ms id s reached d =
    closed (Maps.get id (run_moves ms s).tenants)
      (run_moves-deleted ms id s (Reach-IsFiled s reached) d)
