-- ===== src/Server/Store/Effect.antt =====
-- What `CheckDirect` answers after a write.
use mathlib.Core.List.{append-nil}
use zanguard.Prelude.{
  ℕ, zero, suc, ◌≤◌, ◌≡◌, refl, ap, ◌∙◌, Bool, true, not, ◌&&◌, ◌||◌, Option, none, some, List, [],
  ◌∷◌, ◌++◌, arith, any, or_else, Option-cases, inl, inr,
}
use zanguard.Js.Text.{Text, text, same, same_refl, is_empty}
use zanguard.Js.Maps
use zanguard.Js.Maps.{Map, get-set}
use zanguard.Server.Model.{
  Result, ok, err, ◌>>=◌, >>=-eq-ok, ok_injective, TenantContext, RelationTuple,
}
use zanguard.Server.Store.{
  Store, tuples_of, readable, is_expired_at, expired, is_of, is_direct, check_direct,
  readable_tuples, check_tenant_writable, check_tenant_readable, append_tuple_changelog,
  tuple_identity_key,
}
use zanguard.Server.Store.Write.{
  write_tuple, write_tuples, write_tuples_locked, stage, commit, log_all, existing_keys,
  expired_index, place, set_at, prepare,
}
use zanguard.Server.Store.Keys.{stage_lem}
use zanguard.Server.Store.Keyed.{log_all-tuples}
use zanguard.Api.Types.{ChangeOp}

-- The tuple says, expired or not, that the subject itself is in the relation of the object.
abbrev pub names : (object_type object_id rel subject_type subject_id : Text) → RelationTuple → Bool
names object_type object_id rel subject_type subject_id t =
    same t.object_type object_type
    && same t.object_id object_id
    && same t.relation rel
    && same t.subject_type subject_type
    && same t.subject_id subject_id
    && is_empty t.subject_relation

expired_later :
    (o : Option ℕ) (now later : ℕ) → now ≤ later → expired o now ≡ true → expired o later ≡ true
expired_later none now later h e = cc
expired_later (some t) now later h e = ground arith

later_expired :
    (t : RelationTuple) (now later : ℕ)
    → now ≤ later
    → is_expired_at t now ≡ true
    → is_expired_at t later ≡ true
unfolding is_expired_at
later_expired t now later h e = expired_later t.expires_at now later h e

module _ (o i r k j : Text) where
  pub is_direct_lem :
      (later : ℕ) (t : RelationTuple)
      → is_direct o i r k j later t ≡ (names o i r k j t && not (is_expired_at t later))
  unfolding is_direct is_of
  is_direct_lem later t = ground arith

  any-push :
      (later : ℕ) (t : RelationTuple) (ts : List RelationTuple)
      → any (is_direct o i r k j later) (ts ++ t ∷ [])
        ≡ (is_direct o i r k j later t || any (is_direct o i r k j later) ts)
  any-push later t [] = refl
  any-push later t (u ∷ ts) = ground (arith, any-push later t ts)

  -- The expired tuple whose place is taken was no answer.
  any-set_at :
      (now later : ℕ) (t : RelationTuple) (key : Text) (n : ℕ) (ts : List RelationTuple)
      → now ≤ later
      → expired_index now key ts ≡ some n
      → any (is_direct o i r k j later) (set_at n t ts)
        ≡ (is_direct o i r k j later t || any (is_direct o i r k j later) ts)
  unfolding expired_index set_at
  any-set_at now later t key n [] h e = cc
  any-set_at now later t key zero (u ∷ ts) h e =
      ground (arith, is_direct_lem later u, later_expired u now later h)
  any-set_at now later t key (suc n) (u ∷ ts) h e =
      ground (arith, any-set_at now later t key n ts h)

  any-place :
      (now later : ℕ) (t : RelationTuple) (ts : List RelationTuple)
      → now ≤ later
      → any (is_direct o i r k j later) (place now ts (t ∷ []) ts [])
        ≡ (is_direct o i r k j later t || any (is_direct o i r k j later) ts)
  unfolding place
  any-place now later t ts h = elim (Option-cases (expired_index now (tuple_identity_key t) ts)) [
    | inl e ↦ rw (e, place) (any-push later t ts)
    | inr (n, e) ↦
        rw (e, place, append-nil (set_at n t ts))
          (any-set_at now later t (tuple_identity_key t) n ts h e)
  ]

  -- A store in which the tuples of one tenant are replaced answers by the new tuples.
  pub check_direct-replaced :
      (later : ℕ) (tc : TenantContext) (s s' : Store) (ts : List RelationTuple) (f : Bool → Bool)
      → s'.tenants ≡ s.tenants
      → s'.tuples ≡ Maps.set tc.tenant_id ts s.tuples
      → any (is_direct o i r k j later) ts
        ≡ f (any (is_direct o i r k j later) (tuples_of tc.tenant_id s))
      → check_direct later s' (some tc) o i r k j
        ≡ (check_direct later s (some tc) o i r k j >>= λ b. ok (f b))
  unfolding check_direct readable_tuples check_tenant_readable tuples_of
  check_direct-replaced later tc s s' ts f e g h =
      rw (e, g, get-set tc.tenant_id tc.tenant_id ts s.tuples, same_refl tc.tenant_id)
        (by_readable (readable (Maps.get tc.tenant_id s.tenants)))
    where
      by_readable :
          (m : Result (Unit {0}))
          → ((m >>= λ _. ok ts) >>= λ us. ok (any (is_direct o i r k j later) us)) ≡ (
              ((m >>= λ _. ok (or_else (Maps.get tc.tenant_id s.tuples) [])) >>= λ us.
              ok (any (is_direct o i r k j later) us))
              >>= λ b. ok (f b))
      by_readable (ok u) = ap ok h
      by_readable (err x) = refl

pub log_all-tenants :
    (now : ℕ) (id : Text) (ts : List RelationTuple) (s : Store)
    → (log_all now id ts s).tenants ≡ s.tenants
unfolding log_all append_tuple_changelog
log_all-tenants now id [] s = refl
log_all-tenants now id (t ∷ ts) s =
    log_all-tenants now id ts (append_tuple_changelog now id ChangeOp.insert (text "api") t s)

-- The one tuple that a successful `WriteTuple` places.
pub staged_lem :
    (now : ℕ) (id : Text) (t : RelationTuple) (existing : List Text) (staged : List RelationTuple)
    → stage now id existing [] (t ∷ []) ≡ ok staged
    → staged ≡ prepare now id t ∷ []
unfolding stage
staged_lem now id t existing staged h =
    let (rest, p, q, u, v) = stage_lem now id existing [] t [] staged h in cc

-- After `WriteTuple` succeeds, at its clock reading or later, `CheckDirect` answers what it answered
-- before, or yes where the new tuple says so and is not expired; it fails where it failed before.
pub write_then_check :
    (now later : ℕ) (tc : TenantContext) (t : RelationTuple) (s s' : Store) (o i r k j : Text)
    → now ≤ later
    → write_tuple now (some tc) t s ≡ ok s'
    → check_direct later s' (some tc) o i r k j ≡ (
        check_direct later s (some tc) o i r k j >>= λ b.
        ok (names o i r k j t && not (is_expired_at t later) || b))
unfolding write_tuple write_tuples write_tuples_locked commit prepare is_expired_at
write_then_check now later tc t s s' o i r k j h e =
    let id : Text = tc.tenant_id in
    let (_, _, f) =
      >>=-eq-ok (check_tenant_writable id s) (λ _. write_tuples_locked now id (t ∷ []) s) e in
    let (staged, p, g) =
      >>=-eq-ok (stage now id (existing_keys now (tuples_of id s)) [] (t ∷ []))
        (λ x. ok (commit now id s x)) f in
    let old : List RelationTuple = tuples_of id s in
    let u : RelationTuple = prepare now id t in
    rw (← ok_injective g, staged_lem now id t _ staged p)
      (check_direct-replaced o i r k j later tc s _ (place now old (u ∷ []) old [])
        (λ b. names o i r k j t && not (is_expired_at t later) || b)
        (log_all-tenants now id (u ∷ []) _) (log_all-tuples now id (u ∷ []) _)
        (any-place o i r k j now later u old h
          ∙ ap (λ (b : Bool). b || any (is_direct o i r k j later) old)
              (is_direct_lem o i r k j later u)))
