-- ===== src/Server/Service/Untouched.antt =====
-- What an operation on one tenant leaves of another.
use zanguard.Prelude.{
  ℕ, ◌≡◌, ◌≢◌, refl, ap, ◌∙◌, false, Option, none, some, List, [], ◌∷◌, Bool-cases, inl, inr,
}
use zanguard.Js.Text.{Text, text, same, same_iff}
use zanguard.Js.Maps
use zanguard.Js.Maps.{Map, get-set}
use zanguard.Api.Types.{ChangeOp}
use zanguard.Server.Model.{Result, ok, ◌>>=◌, >>=-eq-ok, ok_injective, Context, RelationTuple}
use zanguard.Server.Store.{Store, tuples_of, append_tuple_changelog, check_tenant_writable}
use zanguard.Server.Store.Write.{
  write_tuples, delete_tuple, write_tuples_locked, stage, commit, log_all, existing_keys,
  after_take_out,
}
use zanguard.Server.Store.Tenants.{
  create_tenant, update_tenant, set_object_attributes, set_subject_attributes, append_changelog,
  purge_tenant_data, init_tenant,
}
use zanguard.Server.Store.Reach.{
  Op, creates, updates, writes, deletes, sets_object, sets_subject, appends, purges, apply,
}

abbrev id_of : Context → Option Text
id_of none = none
id_of (some tc) = some tc.tenant_id

-- The tenant that an operation works on.
abbrev pub tenant_of : Op → Option Text
tenant_of (creates t) = some t.id
tenant_of (updates t) = some t.id
tenant_of (writes ctx ts) = id_of ctx
tenant_of (deletes ctx t) = id_of ctx
tenant_of (sets_object ctx kind id attrs) = id_of ctx
tenant_of (sets_subject ctx kind id attrs) = id_of ctx
tenant_of (appends ctx x) = id_of ctx
tenant_of (purges ctx) = id_of ctx

-- All that the two stores hold of the tenant is the same.
pub record Untouched (id : Text) (s s' : Store) : Type 0 where
  pub tenants : Maps.get id s'.tenants ≡ Maps.get id s.tenants
  pub tuples : Maps.get id s'.tuples ≡ Maps.get id s.tuples
  pub obj_attrs : Maps.get id s'.obj_attrs ≡ Maps.get id s.obj_attrs
  pub sub_attrs : Maps.get id s'.sub_attrs ≡ Maps.get id s.sub_attrs
  pub changelog : Maps.get id s'.changelog ≡ Maps.get id s.changelog
  pub seq_counter : Maps.get id s'.seq_counter ≡ Maps.get id s.seq_counter

different : (j id : Text) → some j ≢ some id → same j id ≡ false
different j id h = elim (Bool-cases (same j id)) [
  | inl e ↦ absurd (h (ap some ((same_iff j id).0 e)))
  | inr e ↦ e
]

get-set_other {ℓ} :
    {V : Type ℓ} (j id : Text) (v : V) (m : Map V)
    → some j ≢ some id
    → Maps.get id (Maps.set j v m) ≡ Maps.get id m
get-set_other j id v m h = rw (get-set j id v m, different j id h)

Untouched-trans :
    (id : Text) (s s' s'' : Store) → Untouched id s s' → Untouched id s' s'' → Untouched id s s''
Untouched-trans id s s' s'' h k = record {
  tenants = k.tenants ∙ h.tenants;
  tuples = k.tuples ∙ h.tuples;
  obj_attrs = k.obj_attrs ∙ h.obj_attrs;
  sub_attrs = k.sub_attrs ∙ h.sub_attrs;
  changelog = k.changelog ∙ h.changelog;
  seq_counter = k.seq_counter ∙ h.seq_counter;
}

module _ (id j : Text) (differ : some j ≢ some id) where
  append_tuple_changelog-Untouched :
      (now : ℕ) (op : ChangeOp) (source : Text) (t : RelationTuple) (s : Store)
      → Untouched id s (append_tuple_changelog now j op source t s)
  unfolding append_tuple_changelog
  append_tuple_changelog-Untouched now op source t s = record {
    tenants = refl;
    tuples = refl;
    obj_attrs = refl;
    sub_attrs = refl;
    changelog = get-set_other j id _ _ differ;
    seq_counter = get-set_other j id _ _ differ;
  }

  log_all-Untouched :
      (now : ℕ) (ts : List RelationTuple) (s s₀ : Store)
      → Untouched id s₀ s
      → Untouched id s₀ (log_all now j ts s)
  unfolding log_all
  log_all-Untouched now [] s s₀ h = h
  log_all-Untouched now (t ∷ ts) s s₀ h = log_all-Untouched now ts _ s₀ (
      Untouched-trans id s₀ s _ h
        (append_tuple_changelog-Untouched now ChangeOp.insert (text "api") t s))

  tuples-Untouched :
      (ts : List RelationTuple) (s : Store)
      → Untouched id s (record s { tuples = Maps.set j ts s.tuples })
  tuples-Untouched ts s = record {
    tenants = refl;
    tuples = get-set_other j id _ _ differ;
    obj_attrs = refl;
    sub_attrs = refl;
    changelog = refl;
    seq_counter = refl;
  }

  init_tenant-Untouched : (s s₀ : Store) → Untouched id s₀ s → Untouched id s₀ (init_tenant j s)
  unfolding init_tenant
  init_tenant-Untouched s s₀ h = elim (Bool-cases (Maps.has j s.tuples)) [
    | inl there ↦ rw there h
    | inr fresh ↦ rw fresh (record {
      tenants = h.tenants;
      tuples = get-set_other j id _ _ differ ∙ h.tuples;
      obj_attrs = get-set_other j id _ _ differ ∙ h.obj_attrs;
      sub_attrs = get-set_other j id _ _ differ ∙ h.sub_attrs;
      changelog = get-set_other j id _ _ differ ∙ h.changelog;
      seq_counter = get-set_other j id _ _ differ ∙ h.seq_counter;
    })
  ]

  writes-Untouched :
      (now : ℕ) (ts : List RelationTuple) (s s' : Store)
      → write_tuples_locked now j ts s ≡ ok s'
      → Untouched id s s'
  unfolding write_tuples_locked commit
  writes-Untouched now [] s s' e = rw (← ok_injective e) (record {
    tenants = refl;
    tuples = refl;
    obj_attrs = refl;
    sub_attrs = refl;
    changelog = refl;
    seq_counter = refl;
  })
  writes-Untouched now (t ∷ ts) s s' e =
      let (staged, _, f) =
        >>=-eq-ok (stage now j (existing_keys now (tuples_of j s)) [] (t ∷ ts))
          (λ x. ok (commit now j s x)) e in
      rw (← ok_injective f) (log_all-Untouched now staged _ s (tuples-Untouched _ s))

  deletes-Untouched :
      (now : ℕ) (s s' : Store) (r : Option (RelationTuple × List RelationTuple))
      → after_take_out now j s r ≡ ok s'
      → Untouched id s s'
  deletes-Untouched now s s' none e = cc
  deletes-Untouched now s s' (some (t, ts)) e = rw (← ok_injective e) (
      Untouched-trans id s _ _ (tuples-Untouched ts s)
        (append_tuple_changelog-Untouched now ChangeOp.delete (text "api") t _))

  -- An operation that asks whether the tenant `j` is writable, and goes on by `k`.
  writable_lem :
      (s s' : Store) (k : Result Store) → (check_tenant_writable j s >>= λ _. k) ≡ ok s' → k ≡ ok s'
  writable_lem s s' k h = (>>=-eq-ok (check_tenant_writable j s) (λ _. k) h).2

pub apply-Untouched :
    (id : Text) (now : ℕ) (op : Op) (s s' : Store)
    → apply now op s ≡ ok s'
    → tenant_of op ≢ some id
    → Untouched id s s'
unfolding apply create_tenant update_tenant write_tuples delete_tuple set_object_attributes
    set_subject_attributes append_changelog purge_tenant_data
apply-Untouched id now (creates t) s s' e h = elim (Bool-cases (Maps.has t.id s.tenants)) [
  | inl there ↦ absurd (cc (rw there at e))
  | inr fresh ↦ rw (← ok_injective (rw fresh at e)) (
      init_tenant-Untouched id t.id h _ s (record {
        tenants = get-set_other t.id id _ _ h;
        tuples = refl;
        obj_attrs = refl;
        sub_attrs = refl;
        changelog = refl;
        seq_counter = refl;
      }))
]
apply-Untouched id now (updates t) s s' e h = elim (Bool-cases (Maps.has t.id s.tenants)) [
  | inl there ↦ rw (← ok_injective (rw there at e)) (record {
    tenants = get-set_other t.id id _ _ h;
    tuples = refl;
    obj_attrs = refl;
    sub_attrs = refl;
    changelog = refl;
    seq_counter = refl;
  })
  | inr fresh ↦ absurd (cc (rw fresh at e))
]
apply-Untouched id now (writes none ts) s s' e h = absurd (cc)
apply-Untouched id now (deletes none t) s s' e h = absurd (cc)
apply-Untouched id now (sets_object none kind i attrs) s s' e h = absurd (cc)
apply-Untouched id now (sets_subject none kind i attrs) s s' e h = absurd (cc)
apply-Untouched id now (appends none x) s s' e h = absurd (cc)
apply-Untouched id now (purges none) s s' e h = absurd (cc)
apply-Untouched id now (writes (some tc) ts) s s' e h =
    writes-Untouched id tc.tenant_id h now ts s s' (writable_lem id tc.tenant_id h s s' _ e)
apply-Untouched id now (deletes (some tc) t) s s' e h =
    deletes-Untouched id tc.tenant_id h now s s' _ (writable_lem id tc.tenant_id h s s' _ e)
apply-Untouched id now (sets_object (some tc) kind i attrs) s s' e h =
    rw (← ok_injective (writable_lem id tc.tenant_id h s s' _ e)) (record {
      tenants = refl;
      tuples = refl;
      obj_attrs = get-set_other tc.tenant_id id _ _ h;
      sub_attrs = refl;
      changelog = refl;
      seq_counter = refl;
    })
apply-Untouched id now (sets_subject (some tc) kind i attrs) s s' e h =
    rw (← ok_injective (writable_lem id tc.tenant_id h s s' _ e)) (record {
      tenants = refl;
      tuples = refl;
      obj_attrs = refl;
      sub_attrs = get-set_other tc.tenant_id id _ _ h;
      changelog = refl;
      seq_counter = refl;
    })
apply-Untouched id now (appends (some tc) x) s s' e h =
    rw (← ok_injective (writable_lem id tc.tenant_id h s s' _ e)) (record {
      tenants = refl;
      tuples = refl;
      obj_attrs = refl;
      sub_attrs = refl;
      changelog = get-set_other tc.tenant_id id _ _ h;
      seq_counter = get-set_other tc.tenant_id id _ _ h;
    })
apply-Untouched id now (purges (some tc)) s s' e h = rw (← ok_injective e) (record {
  tenants = refl;
  tuples = get-set_other tc.tenant_id id _ _ h;
  obj_attrs = get-set_other tc.tenant_id id _ _ h;
  sub_attrs = get-set_other tc.tenant_id id _ _ h;
  changelog = get-set_other tc.tenant_id id _ _ h;
  seq_counter = get-set_other tc.tenant_id id _ _ h;
})
