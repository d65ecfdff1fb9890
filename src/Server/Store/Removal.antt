-- ===== src/Server/Store/Removal.antt =====
-- What `CheckDirect` answers after a deletion.
use zanguard.Prelude.{
  ℕ, ◌≡◌, refl, true, false, not, ◌&&◌, Option, none, some, List, [], ◌∷◌, arith, any, Option-cases,
  Bool-cases, inl, inr,
}
use zanguard.Js.Text.{Text, same_iff, is_empty}
use zanguard.Js.Sets.{member, is_distinct}
use zanguard.Server.Model.{ok, ◌>>=◌, >>=-eq-ok, ok_injective, TenantContext, RelationTuple}
use zanguard.Server.Store.{
  Store, tuples_of, is_direct, check_direct, check_tenant_writable, append_tuple_changelog,
  tuple_identity_key,
}
use zanguard.Server.Store.Write.{delete_tuple, after_take_out, take_out, is_same_tuple}
use zanguard.Server.Store.Keys.{keys_of, take_out-distinct}
use zanguard.Server.Store.Keyed.{IsKeyed, Reach-IsKeyed}
use zanguard.Server.Store.Effect.{names, is_direct_lem, check_direct-replaced}
use zanguard.Server.Store.Reach.{Reach}

is_empty_lem : (a : Text) → is_empty a ≡ true → a ≡ []
is_empty_lem [] h = refl
is_empty_lem (x ∷ a) h = cc

module _ (o i r k j : Text) where
  -- Tuples that say the same have one key.
  names_key :
      (t u : RelationTuple)
      → names o i r k j t ≡ true
      → names o i r k j u ≡ true
      → tuple_identity_key t ≡ tuple_identity_key u
  unfolding tuple_identity_key
  names_key t u h g = ground (
    arith,
    same_iff t.object_type o,
    same_iff u.object_type o,
    same_iff t.object_id i,
    same_iff u.object_id i,
    same_iff t.relation r,
    same_iff u.relation r,
    same_iff t.subject_type k,
    same_iff u.subject_type k,
    same_iff t.subject_id j,
    same_iff u.subject_id j,
    is_empty_lem t.subject_relation,
    is_empty_lem u.subject_relation,
  )

  is_same_tuple-names :
      (t u : RelationTuple) → is_same_tuple t u ≡ true → names o i r k j t ≡ names o i r k j u
  unfolding is_same_tuple
  is_same_tuple-names t u h = ground (
    arith,
    same_iff t.object_type u.object_type,
    same_iff t.object_id u.object_id,
    same_iff t.relation u.relation,
    same_iff t.subject_type u.subject_type,
    same_iff t.subject_id u.subject_id,
    same_iff t.subject_relation u.subject_relation,
  )

  none_left :
      (later : ℕ) (u : RelationTuple) (ts : List RelationTuple)
      → names o i r k j u ≡ true
      → member (tuple_identity_key u) (keys_of ts) ≡ false
      → any (is_direct o i r k j later) ts ≡ false
  unfolding member
  none_left later u [] h g = refl
  none_left later u (t ∷ ts) h g = ground (
    arith,
    is_direct_lem o i r k j later t,
    names_key t u,
    same_iff (tuple_identity_key t) (tuple_identity_key u),
    none_left later u ts h,
  )

  any-take_out :
      (later : ℕ) (u t : RelationTuple) (ts rest : List RelationTuple)
      → take_out u ts ≡ some (t, rest)
      → names o i r k j u ≡ false
      → any (is_direct o i r k j later) rest ≡ any (is_direct o i r k j later) ts
  unfolding take_out
  any-take_out later u t [] rest e h = cc
  any-take_out later u t (w ∷ ts) rest e h = elim (Bool-cases (is_same_tuple w u)) [
    | inl hit ↦ ground (arith, is_direct_lem o i r k j later w, is_same_tuple-names w u hit)
    | inr miss ↦ elim (Option-cases (take_out u ts)) [
      | inl f ↦ absurd (ground arith)
      | inr ((t', rest'), f) ↦ ground (arith, any-take_out later u t' ts rest' f h)
    ]
  ]

  any-removed :
      (later : ℕ) (u t : RelationTuple) (ts rest : List RelationTuple)
      → take_out u ts ≡ some (t, rest)
      → is_distinct (keys_of ts) ≡ true
      → any (is_direct o i r k j later) rest
        ≡ (any (is_direct o i r k j later) ts && not (names o i r k j u))
  any-removed later u t ts rest e d = elim (Bool-cases (names o i r k j u)) [
    | inl hit ↦ ground (arith, none_left later u rest hit (take_out-distinct u t ts rest e d).1)
    | inr miss ↦ ground (arith, any-take_out later u t ts rest e miss)
  ]

  after_deletion :
      (now later : ℕ) (tc : TenantContext) (u : RelationTuple) (s s' : Store)
      (m : Option (RelationTuple × List RelationTuple))
      → is_distinct (keys_of (tuples_of tc.tenant_id s)) ≡ true
      → take_out u (tuples_of tc.tenant_id s) ≡ m
      → after_take_out now tc.tenant_id s m ≡ ok s'
      → check_direct later s' (some tc) o i r k j
        ≡ (check_direct later s (some tc) o i r k j >>= λ b. ok (b && not (names o i r k j u)))
  unfolding append_tuple_changelog
  after_deletion now later tc u s s' none d p e = absurd (cc)
  after_deletion now later tc u s s' (some (t, rest)) d p e = rw (← ok_injective e) (
      check_direct-replaced o i r k j later tc s _ rest (λ b. b && not (names o i r k j u)) refl
        refl (any-removed later u t (tuples_of tc.tenant_id s) rest p d))

-- After `DeleteTuple` succeeds on a store that the operations reach, `CheckDirect` answers no for
-- what the tuple says of its subject itself, at every clock reading, and otherwise what it answered
-- before, failures included.
pub delete_then_check :
    (now later : ℕ) (tc : TenantContext) (u : RelationTuple) (s s' : Store) (o i r k j : Text)
    → Reach s
    → delete_tuple now (some tc) u s ≡ ok s'
    → check_direct later s' (some tc) o i r k j
      ≡ (check_direct later s (some tc) o i r k j >>= λ b. ok (b && not (names o i r k j u)))
unfolding delete_tuple IsKeyed
delete_then_check now later tc u s s' o i r k j reached e =
    let (_, _, f) =
      >>=-eq-ok (check_tenant_writable tc.tenant_id s)
        (λ _. after_take_out now tc.tenant_id s (take_out u (tuples_of tc.tenant_id s))) e in
    after_deletion o i r k j now later tc u s s' _ (Reach-IsKeyed s reached tc.tenant_id) refl f
