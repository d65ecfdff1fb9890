-- ===== src/Server/Store/Keyed.antt =====
-- The stores that the operations reach: no two tuples of a tenant are the same.
use zanguard.Prelude.{ℕ, ◌≡◌, refl, true, Option, none, some, List, [], ◌∷◌, Bool-cases, inl, inr}
use mathlib.Core.List.{append-nil}
use zanguard.Js.Text.{Text, text, same}
use zanguard.Js.Sets.{is_distinct, member}
use zanguard.Js.Maps
use zanguard.Js.Maps.{Map, get-set}
use zanguard.Server.Model.{ok, >>=-eq-ok, ok_injective, RelationTuple}
use zanguard.Server.Store.{Store, tuples_of, tenant_id_from, append_tuple_changelog}
use zanguard.Api.Types.{ChangeOp}
use zanguard.Server.Store.Write.{
  write_tuples, delete_tuple, write_tuples_locked, stage, commit, log_all, existing_keys, place,
  after_take_out, take_out,
}
use zanguard.Server.Store.Tenants.{
  create_tenant, update_tenant, set_object_attributes, set_subject_attributes, append_changelog,
  purge_tenant_data, init_tenant,
}
use zanguard.Server.Store.Keys.{keys_of, place-keys, take_out-distinct}
use zanguard.Server.Store.Reach.{
  Op, creates, updates, writes, deletes, sets_object, sets_subject, appends, purges, apply, Reach,
  start, step, writable_lem,
}

-- In no tenant do two tuples have the same identity key, expired ones included.
unfoldable pub IsKeyed : Store → Type 0
IsKeyed s = (id : Text) → is_distinct (keys_of (tuples_of id s)) ≡ true

IsKeyed-set :
    (s s' : Store) (id : Text) (ts : List RelationTuple)
    → s'.tuples ≡ Maps.set id ts s.tuples
    → is_distinct (keys_of ts) ≡ true
    → IsKeyed s
    → IsKeyed s'
unfolding IsKeyed tuples_of
IsKeyed-set s s' id ts e d h j =
    rw (e, get-set id j ts s.tuples)
      (elim (Bool-cases (same id j)) [ inl hit ↦ rw hit d | inr miss ↦ rw miss (h j) ])

IsKeyed-same : (s s' : Store) → s.tuples ≡ s'.tuples → IsKeyed s → IsKeyed s'
unfolding IsKeyed tuples_of
IsKeyed-same s s' e h j = rw (← e) (h j)

pub log_all-tuples :
    (now : ℕ) (id : Text) (ts : List RelationTuple) (s : Store)
    → (log_all now id ts s).tuples ≡ s.tuples
unfolding log_all append_tuple_changelog
log_all-tuples now id [] s = refl
log_all-tuples now id (t ∷ ts) s =
    log_all-tuples now id ts (append_tuple_changelog now id ChangeOp.insert (text "api") t s)

module _ (now : ℕ) (s s' : Store) (h : IsKeyed s) where
  init_tenant-IsKeyed : (id : Text) → IsKeyed (init_tenant id s)
  unfolding init_tenant is_distinct
  init_tenant-IsKeyed id = elim (Bool-cases (Maps.has id s.tuples)) [
    | inl there ↦ rw there h
    | inr fresh ↦ rw fresh (IsKeyed-set s _ id [] refl refl h)
  ]

  writes-IsKeyed :
      (id : Text) (ts : List RelationTuple) → write_tuples_locked now id ts s ≡ ok s' → IsKeyed s'
  unfolding write_tuples_locked commit IsKeyed member
  writes-IsKeyed id [] e = IsKeyed-same s s' (cc) h
  writes-IsKeyed id (t ∷ ts) e =
      let (staged, p, f) =
        >>=-eq-ok (stage now id (existing_keys now (tuples_of id s)) [] (t ∷ ts))
          (λ x. ok (commit now id s x)) e in
      let old : List RelationTuple = tuples_of id s in
      rw (← ok_injective f) (
        IsKeyed-set s _ id (place now old staged old []) (log_all-tuples now id staged _)
          (place-keys now id old [] (t ∷ ts) staged old [] p refl (λ k m. refl)
            (rw (append-nil (keys_of old)) (h id)))
          h)

  deletes-IsKeyed :
      (id : Text) (u : RelationTuple) (r : Option (RelationTuple × List RelationTuple))
      → take_out u (tuples_of id s) ≡ r
      → after_take_out now id s r ≡ ok s'
      → IsKeyed s'
  unfolding append_tuple_changelog IsKeyed
  deletes-IsKeyed id u none p e = absurd (cc)
  deletes-IsKeyed id u (some (t, ts)) p e =
      rw (← ok_injective e)
        (IsKeyed-set s _ id ts refl (take_out-distinct u t (tuples_of id s) ts p (h id)).0 h)

apply-IsKeyed : (now : ℕ) (op : Op) (s s' : Store) → apply now op s ≡ ok s' → IsKeyed s → IsKeyed s'
unfolding apply create_tenant update_tenant write_tuples delete_tuple set_object_attributes
    set_subject_attributes append_changelog purge_tenant_data is_distinct
apply-IsKeyed now (creates t) s s' e h = elim (Bool-cases (Maps.has t.id s.tenants)) [
  | inl there ↦ absurd (cc (rw there at e))
  | inr fresh ↦
      rw (← ok_injective (rw fresh at e))
        (init_tenant-IsKeyed now _ s' (IsKeyed-same s _ refl h) t.id)
]
apply-IsKeyed now (updates t) s s' e h = elim (Bool-cases (Maps.has t.id s.tenants)) [
  | inl there ↦ rw (← ok_injective (rw there at e)) (IsKeyed-same s _ refl h)
  | inr fresh ↦ absurd (cc (rw fresh at e))
]
apply-IsKeyed now (writes ctx ts) s s' e h =
    let (id, f) = writable_lem ctx s _ s' e in writes-IsKeyed now s s' h id ts f
apply-IsKeyed now (deletes ctx t) s s' e h =
    let (id, f) = writable_lem ctx s _ s' e in deletes-IsKeyed now s s' h id t _ refl f
apply-IsKeyed now (sets_object ctx kind id attrs) s s' e h =
    let (id', f) = writable_lem ctx s _ s' e in rw (← ok_injective f) (IsKeyed-same s _ refl h)
apply-IsKeyed now (sets_subject ctx kind id attrs) s s' e h =
    let (id', f) = writable_lem ctx s _ s' e in rw (← ok_injective f) (IsKeyed-same s _ refl h)
apply-IsKeyed now (appends ctx x) s s' e h =
    let (id, f) = writable_lem ctx s _ s' e in rw (← ok_injective f) (IsKeyed-same s _ refl h)
apply-IsKeyed now (purges ctx) s s' e h =
    let (id, _, f) = >>=-eq-ok (tenant_id_from ctx) _ e in
    rw (← ok_injective f) (IsKeyed-set s _ id [] refl refl h)

-- In every store that the operations reach, no two tuples of a tenant have the same identity key.
pub Reach-IsKeyed : (s : Store) → Reach s → IsKeyed s
unfolding IsKeyed tuples_of Maps.get is_distinct
Reach-IsKeyed s start = λ id. refl
Reach-IsKeyed s (step {s = s₀} now op r e) = apply-IsKeyed now op s₀ s e (Reach-IsKeyed s₀ r)
