-- ===== src/Server/Store/Keys.antt =====
-- The identity keys of a tenant's tuples: no key occurs twice.
use mathlib.Core.List.{map-append}
use zanguard.Prelude.{
  ℕ, zero, suc, ◌≡◌, refl, ap, Bool, true, false, none, some, List, [], ◌∷◌, ◌++◌, map, arith,
  Option-cases, Bool-cases, inl, inr, push,
}
use zanguard.Js.Text.{Text, same_iff, same_refl}
use zanguard.Js.Sets.{member, is_distinct, is_distinct-push, member-push_iff}
use zanguard.Server.Model.{Result, ok, err, ok_injective, RelationTuple}
use zanguard.Server.Store.{tuple_identity_key}
use zanguard.Server.Store.Write.{
  stage, place, set_at, expired_index, existing_keys, prepare, take_out, is_same_tuple,
}

abbrev pub keys_of : List RelationTuple → List Text
keys_of ts = map tuple_identity_key ts

member-append :
    (k : Text) (xs ys : List Text)
    → member k xs ≡ false
    → member k ys ≡ false
    → member k (xs ++ ys) ≡ false
unfolding member
member-append k [] ys h g = g
member-append k (x ∷ xs) ys h g = ground (arith, member-append k xs ys)

append-push : (k : Text) (xs ys : List Text) → xs ++ push ys k ≡ push (xs ++ ys) k
append-push k [] ys = refl
append-push k (x ∷ xs) ys = ap (λ (zs : List Text). x ∷ zs) (append-push k xs ys)

keys_of-push :
    (t : RelationTuple) (ts : List RelationTuple)
    → keys_of (push ts t) ≡ push (keys_of ts) (tuple_identity_key t)
keys_of-push t [] = refl
keys_of-push t (u ∷ ts) = ap (λ (zs : List Text). tuple_identity_key u ∷ zs) (keys_of-push t ts)

prepare_key :
    (now : ℕ) (id : Text) (t : RelationTuple)
    → tuple_identity_key (prepare now id t) ≡ tuple_identity_key t
unfolding tuple_identity_key prepare
prepare_key now id t = refl

-- A tuple takes the place of an expired one of its key, so the keys stay.
set_at-keys :
    (now i : ℕ) (t : RelationTuple) (old stored : List RelationTuple)
    → expired_index now (tuple_identity_key t) old ≡ some i
    → keys_of stored ≡ keys_of old
    → keys_of (set_at i t stored) ≡ keys_of old
unfolding expired_index set_at
set_at-keys now i t [] stored h g = cc
set_at-keys now i t (u ∷ old) [] h g = cc
set_at-keys now zero t (u ∷ old) (w ∷ stored) h g =
    ground (arith, same_iff (tuple_identity_key u) (tuple_identity_key t))
set_at-keys now (suc i) t (u ∷ old) (w ∷ stored) h g =
    ground (arith, set_at-keys now i t old stored)

-- A key that neither a live nor an expired tuple has is no key.
unused :
    (now : ℕ) (k : Text) (old : List RelationTuple)
    → member k (existing_keys now old) ≡ false
    → expired_index now k old ≡ none
    → member k (keys_of old) ≡ false
unfolding expired_index existing_keys member
unused now k [] h g = refl
unused now k (u ∷ old) h g = ground (arith, unused now k old)

-- What the loop that checks a batch has found out of its first tuple, where it succeeds.
pub stage_lem :
    (now : ℕ) (id : Text) (existing batch : List Text) (t : RelationTuple)
    (ts staged : List RelationTuple)
    → stage now id existing batch (t ∷ ts) ≡ ok staged
    → (rest : List RelationTuple) × (stage now id existing (tuple_identity_key t ∷ batch) ts
        ≡ ok rest)
      × (staged ≡ prepare now id t ∷ rest)
      × (member (tuple_identity_key t) existing ≡ false)
      × (member (tuple_identity_key t) batch ≡ false)
unfolding stage
stage_lem now id existing batch t ts staged h =
    split (stage now id existing (tuple_identity_key t ∷ batch) ts)
      (member (tuple_identity_key t) existing) (member (tuple_identity_key t) batch) refl refl refl
      h
  where
    split :
        (r : Result (List RelationTuple)) (a b : Bool)
        → stage now id existing (tuple_identity_key t ∷ batch) ts ≡ r
        → member (tuple_identity_key t) existing ≡ a
        → member (tuple_identity_key t) batch ≡ b
        → stage now id existing batch (t ∷ ts) ≡ ok staged
        → (rest : List RelationTuple) × (stage now id existing (tuple_identity_key t ∷ batch) ts
            ≡ ok rest)
          × (staged ≡ prepare now id t ∷ rest)
          × (member (tuple_identity_key t) existing ≡ false)
          × (member (tuple_identity_key t) batch ≡ false)
    split (ok rest) a b p q u k = (rest, p, ground arith, ground arith, ground arith)
    split (err e) a b p q u k = absurd (ground arith)

member-tail : (k j : Text) (ks : List Text) → member k (j ∷ ks) ≡ false → member k ks ≡ false
unfolding member
member-tail k j ks h = ground arith

place_end :
    (now : ℕ) (old stored appends : List RelationTuple)
    → place now old [] stored appends ≡ stored ++ appends
unfolding place
place_end now old stored appends = refl

module _ (now : ℕ) (old ts stored appends : List RelationTuple) (t : RelationTuple) where
  place-append :
      expired_index now (tuple_identity_key t) old ≡ none
      → place now old (t ∷ ts) stored appends ≡ place now old ts stored (push appends t)
  unfolding place
  place-append e = rw (e, place)

  place-set_at :
      (i : ℕ)
      → expired_index now (tuple_identity_key t) old ≡ some i
      → place now old (t ∷ ts) stored appends ≡ place now old ts (set_at i t stored) appends
  unfolding place
  place-set_at i e = rw (e, place)

-- The keys of the batch so far cover those of the tuples to append, also with one more.
covers-push :
    (k j : Text) (batch : List Text) (t : RelationTuple) (appends : List RelationTuple)
    → tuple_identity_key t ≡ j
    → (member k batch ≡ false → member k (keys_of appends) ≡ false)
    → member k (j ∷ batch) ≡ false
    → member k (keys_of (push appends t)) ≡ false
unfolding member
covers-push k j batch t appends e f h =
    rw (keys_of-push t appends)
      (ground (arith, member-push_iff k (tuple_identity_key t) (keys_of appends)))

module _ (now : ℕ) (id : Text) (old : List RelationTuple) where
  -- Where a batch is placed after the check, no key occurs twice.
  pub place-keys :
      (batch : List Text) (ts staged stored appends : List RelationTuple)
      → stage now id (existing_keys now old) batch ts ≡ ok staged
      → keys_of stored ≡ keys_of old
      → ((k : Text) → member k batch ≡ false → member k (keys_of appends) ≡ false)
      → is_distinct (keys_of old ++ keys_of appends) ≡ true
      → is_distinct (keys_of (place now old staged stored appends)) ≡ true
  unfolding stage
  place-keys batch [] staged stored appends h g f d =
      rw (← ok_injective h, place_end now old stored appends)
        (rw (map-append tuple_identity_key stored appends, g) d)
  place-keys batch (t ∷ ts) staged stored appends h g f d =
      let (rest, p, q, u, v) = stage_lem now id (existing_keys now old) batch t ts staged h in
      let key : Text = tuple_identity_key t in
      rw q (elim (Option-cases (expired_index now (tuple_identity_key t) old)) [
        | inl free ↦
            rw
              (place-append now old rest stored appends (prepare now id t)
                (rw (prepare_key now id t) free))
              (place-keys (key ∷ batch) ts rest stored (push appends (prepare now id t)) p g
                (λ k.
                  covers-push k key batch (prepare now id t) appends (prepare_key now id t) (f k))
                (rw
                  (
                    keys_of-push (prepare now id t) appends,
                    prepare_key now id t,
                    append-push key (keys_of old) (keys_of appends),
                  )
                  (is_distinct-push key _
                    (member-append key (keys_of old) (keys_of appends) (unused now key old u free)
                      (f key v))
                    d)))
        | inr (i, e) ↦
            rw
              (place-set_at now old rest stored appends (prepare now id t) i
                (rw (prepare_key now id t) e))
              (place-keys (key ∷ batch) ts rest (set_at i (prepare now id t) stored) appends p
                (set_at-keys now i (prepare now id t) old stored (rw (prepare_key now id t) e) g)
                (λ k m. f k (member-tail k key batch m)) d)
      ])

pub take_out-keys :
    (k : Text) (u t : RelationTuple) (ts rest : List RelationTuple)
    → take_out u ts ≡ some (t, rest)
    → member k (keys_of ts) ≡ false
    → member k (keys_of rest) ≡ false
unfolding take_out member
take_out-keys k u t [] rest h g = cc
take_out-keys k u t (w ∷ ts) rest h g = elim (Option-cases (take_out u ts)) [
  | inl e ↦ ground arith
  | inr ((t', rest'), e) ↦ ground (arith, take_out-keys k u t' ts rest' e)
]

pub same_key :
    (t u : RelationTuple) → is_same_tuple t u ≡ true → tuple_identity_key t ≡ tuple_identity_key u
unfolding is_same_tuple tuple_identity_key
same_key t u h = ground (
  arith,
  same_iff t.object_type u.object_type,
  same_iff t.object_id u.object_id,
  same_iff t.relation u.relation,
  same_iff t.subject_type u.subject_type,
  same_iff t.subject_id u.subject_id,
  same_iff t.subject_relation u.subject_relation,
)

take_out-member :
    (u t : RelationTuple) (ts rest : List RelationTuple)
    → take_out u ts ≡ some (t, rest)
    → member (tuple_identity_key u) (keys_of ts) ≡ true
unfolding take_out member
take_out-member u t [] rest h = cc
take_out-member u t (w ∷ ts) rest h = elim (Bool-cases (is_same_tuple w u)) [
  | inl hit ↦ rw (same_key w u hit, same_refl (tuple_identity_key u)) refl
  | inr miss ↦ elim (Option-cases (take_out u ts)) [
    | inl e ↦ absurd (cc (rw (miss, e) at h))
    | inr ((t', rest'), e) ↦ ground (arith, take_out-member u t' ts rest' e)
  ]
]

-- What is left after a tuple is taken out has other keys, and none of them twice.
pub take_out-distinct :
    (u t : RelationTuple) (ts rest : List RelationTuple)
    → take_out u ts ≡ some (t, rest)
    → is_distinct (keys_of ts) ≡ true
    → (is_distinct (keys_of rest) ≡ true) × (member (tuple_identity_key u) (keys_of rest) ≡ false)
unfolding take_out is_distinct member
take_out-distinct u t [] rest h d = cc
take_out-distinct u t (w ∷ ts) rest h d = elim (Bool-cases (is_same_tuple w u)) [
  | inl hit ↦ ground (arith, same_key w u hit)
  | inr miss ↦ elim (Option-cases (take_out u ts)) [
    | inl e ↦ absurd (ground arith)
    | inr ((t', rest'), e) ↦ ground (
      arith,
      take_out-distinct u t' ts rest' e,
      take_out-keys (tuple_identity_key w) u t' ts rest' e,
      take_out-member u t' ts rest' e,
      same_iff (tuple_identity_key w) (tuple_identity_key u),
    )
  ]
]
