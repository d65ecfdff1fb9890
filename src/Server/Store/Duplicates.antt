-- ===== src/Server/Store/Duplicates.antt =====
-- What is a duplicate to `WriteTuple`.
use mathlib.Core.List.{append-nil, append_assoc}
use zanguard.Prelude.{
  ℕ, zero, suc, ◌≡◌, refl, true, false, some, List, [], ◌∷◌, ◌++◌, arith, Option-cases, inl, inr,
}
use zanguard.Js.Text.{Text, same_refl}
use zanguard.Js.Sets.{member}
use zanguard.Js.Maps
use zanguard.Js.Maps.{get-set}
use zanguard.Server.Model.{
  ok, err, >>=-eq-ok, ok_injective, duplicate_tuple, TenantContext, RelationTuple,
}
use zanguard.Server.Store.{
  Store, tuples_of, is_expired_at, check_tenant_writable, tuple_identity_key,
}
use zanguard.Server.Store.Write.{
  write_tuple, write_tuples, write_tuples_locked, stage, commit, existing_keys, expired_index,
  place, set_at, prepare,
}
use zanguard.Server.Store.Keyed.{log_all-tuples}
use zanguard.Server.Store.Effect.{log_all-tenants, staged_lem}

module _ (now later : ℕ) (t : RelationTuple) (lasting : is_expired_at t later ≡ false) where
  existing-set_at :
      (n : ℕ) (ts : List RelationTuple)
      → expired_index now (tuple_identity_key t) ts ≡ some n
      → member (tuple_identity_key t) (existing_keys later (set_at n t ts)) ≡ true
  unfolding expired_index set_at existing_keys member
  existing-set_at n [] e = cc
  existing-set_at zero (u ∷ ts) e = rw (lasting, same_refl (tuple_identity_key t)) refl
  existing-set_at (suc n) (u ∷ ts) e = ground (arith, existing-set_at n ts)

  existing-append :
      (ts : List RelationTuple)
      → member (tuple_identity_key t) (existing_keys later (ts ++ t ∷ [])) ≡ true
  unfolding existing_keys member
  existing-append [] = rw (lasting, same_refl (tuple_identity_key t)) refl
  existing-append (u ∷ ts) = ground (arith, existing-append ts)

  existing-place :
      (ts : List RelationTuple)
      → member (tuple_identity_key t) (existing_keys later (place now ts (t ∷ []) ts [])) ≡ true
  unfolding place
  existing-place ts = elim (Option-cases (expired_index now (tuple_identity_key t) ts)) [
    | inl e ↦ rw (e, place) (existing-append ts)
    | inr (n, e) ↦ rw (e, place, append-nil (set_at n t ts)) (existing-set_at n ts e)
  ]

tuples_of-set :
    (id : Text) (ts : List RelationTuple) (s s' : Store)
    → s'.tuples ≡ Maps.set id ts s.tuples
    → tuples_of id s' ≡ ts
unfolding tuples_of
tuples_of-set id ts s s' e = rw (e, get-set id id ts s.tuples, same_refl id) refl

refused :
    (later : ℕ) (id : Text) (u : RelationTuple) (s : Store)
    → member (tuple_identity_key u) (existing_keys later (tuples_of id s)) ≡ true
    → write_tuples_locked later id (u ∷ []) s ≡ err duplicate_tuple
unfolding write_tuples_locked stage
refused later id u s h = rw h refl

still_writable :
    (id : Text) (s s' : Store) (x : Unit {0})
    → s'.tenants ≡ s.tenants
    → check_tenant_writable id s ≡ ok x
    → check_tenant_writable id s' ≡ ok x
unfolding check_tenant_writable
still_writable id s s' x e h = rw e h

-- What a successful `WriteTuple` found, and what it leaves.
written_lem :
    (now : ℕ) (tc : TenantContext) (t : RelationTuple) (s s' : Store)
    → write_tuple now (some tc) t s ≡ ok s'
    → (x : Unit {0}) × (check_tenant_writable tc.tenant_id s ≡ ok x)
      × (s'.tenants ≡ s.tenants)
      × (tuples_of tc.tenant_id s'
          ≡ place now
              (tuples_of tc.tenant_id s)
              (prepare now tc.tenant_id t ∷ [])
              (tuples_of tc.tenant_id s)
              [])
unfolding write_tuple write_tuples write_tuples_locked commit
written_lem now tc t s s' e =
    let id : Text = tc.tenant_id in
    let old : List RelationTuple = tuples_of id s in
    let (x, w, f) =
      >>=-eq-ok (check_tenant_writable id s) (λ _. write_tuples_locked now id (t ∷ []) s) e in
    let (staged, p, g) =
      >>=-eq-ok (stage now id (existing_keys now old) [] (t ∷ [])) (λ y. ok (commit now id s y))
        f in
    let q = staged_lem now id t _ staged p in
    (
      x,
      w,
      rw (← ok_injective g) (log_all-tenants now id staged _),
      tuples_of-set id _ s s'
          (rw (← ok_injective g, q) (log_all-tuples now id (prepare now id t ∷ []) _)),
    )

-- After `WriteTuple` succeeds, a write of any tuple with the same identity key is refused as a
-- duplicate, as long as the first tuple is not expired.
pub second_write_refused :
    (now later : ℕ) (tc : TenantContext) (t u : RelationTuple) (s s' : Store)
    → write_tuple now (some tc) t s ≡ ok s'
    → tuple_identity_key u ≡ tuple_identity_key t
    → is_expired_at t later ≡ false
    → write_tuple later (some tc) u s' ≡ err duplicate_tuple
unfolding write_tuple write_tuples prepare is_expired_at tuple_identity_key
second_write_refused now later tc t u s s' e k lasting =
    let id : Text = tc.tenant_id in
    let (x, w, tenants, tuples) = written_lem now tc t s s' e in
    rw (still_writable id s s' x tenants w) (
      refused later id u s'
        (rw (tuples, k) (existing-place now later (prepare now id t) lasting (tuples_of id s))))

-- A separator inside an object's id or a relation's name makes two tuples share their key.
separator-identity_key :
    (t : RelationTuple) (x y z : Text)
    → tuple_identity_key (record t { object_id = x ++ b'#' ∷ y; relation = z })
      ≡ tuple_identity_key (record t { object_id = x; relation = y ++ b'#' ∷ z })
unfolding tuple_identity_key
separator-identity_key t x y z = simp append_assoc
