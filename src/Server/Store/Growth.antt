-- ===== src/Server/Store/Growth.antt =====
-- What the operations do to a changelog that is there: nothing but a purge takes entries away.
use mathlib.Core.List.{append_assoc, append-nil}
use zanguard.Prelude.{
  ℕ, ◌≡◌, ◌≢◌, refl, ap, sym, ◌∙◌, true, false, List, [], ◌∷◌, ◌++◌, none, some, Option, arith,
  Bool-cases, inl, inr, push,
}
use zanguard.Js.Text.{Text, text, same, same_iff}
use zanguard.Js.Maps
use zanguard.Js.Maps.{Map, get-set, has-set}
use zanguard.Api.Types.{ChangeOp}
use zanguard.Server.Model.{ok, >>=-eq-ok, ok_injective, Tenant, RelationTuple, ChangelogEntry}
use zanguard.Server.Store.{Store, tuples_of, changelog_of, tenant_id_from, append_tuple_changelog}
use zanguard.Server.Store.Write.{
  write_tuples, delete_tuple, write_tuples_locked, stage, commit, log_all, existing_keys,
  after_take_out,
}
use zanguard.Server.Store.Tenants.{
  create_tenant, update_tenant, set_object_attributes, set_subject_attributes, append_changelog,
  purge_tenant_data, init_tenant, created,
}
use zanguard.Server.Store.Reach.{
  Op, creates, updates, writes, deletes, sets_object, sets_subject, appends, purges, apply,
  writable_lem,
}

module _ (id : Text) where
  -- The operation does not purge the tenant.
  abbrev pub IsKeeping : Op → Type 0
  IsKeeping (purges ctx) = tenant_id_from ctx ≢ ok id
  IsKeeping _ = Unit

  -- The tenant is still there, and its log has got longer at its end, or has stayed.
  pub record Grown (s s' : Store) : Type 0 where
    pub newer : List ChangelogEntry
    pub log : changelog_of id s' ≡ changelog_of id s ++ newer
    pub there : Maps.has id s'.tenants ≡ true

  pub Grown-trans : (s s' s'' : Store) → Grown s s' → Grown s' s'' → Grown s s''
  Grown-trans s s' s'' h k = record {
    newer = h.newer ++ k.newer;
    log =
        k.log ∙ ap (λ log. log ++ k.newer) h.log ∙ append_assoc (changelog_of id s) h.newer k.newer;
    there = k.there;
  }

  pub Grown-same :
      (s s' : Store) → s'.changelog ≡ s.changelog → Maps.has id s'.tenants ≡ true → Grown s s'
  unfolding changelog_of
  Grown-same s s' e t = record {
    newer = [];
    log = rw e (sym (append-nil (changelog_of id s)));
    there = t;
  }

  Grown-push :
      (s s' : Store) (j : Text) (x : ChangelogEntry)
      → s'.changelog ≡ Maps.set j (push (changelog_of j s) x) s.changelog
      → Maps.has id s'.tenants ≡ true
      → Grown s s'
  unfolding changelog_of
  Grown-push s s' j x e t = elim (Bool-cases (same j id)) [
    | inl hit ↦ record {
      newer = x ∷ [];
      log =
          rw (e, get-set j id (push (changelog_of j s) x) s.changelog, hit)
            (ap (λ i. push (changelog_of i s) x) ((same_iff j id).0 hit));
      there = t;
    }
    | inr miss ↦ record {
      newer = [];
      log =
          rw (e, get-set j id (push (changelog_of j s) x) s.changelog, miss)
            (sym (append-nil (changelog_of id s)));
      there = t;
    }
  ]

  Grown-set :
      (s s' : Store) (j : Text) (log : List ChangelogEntry)
      → s'.changelog ≡ Maps.set j log s.changelog
      → same j id ≡ false
      → Maps.has id s'.tenants ≡ true
      → Grown s s'
  unfolding changelog_of
  Grown-set s s' j log e miss t = record {
    newer = [];
    log = rw (e, get-set j id log s.changelog, miss) (sym (append-nil (changelog_of id s)));
    there = t;
  }

  log_all-Grown :
      (now : ℕ) (j : Text) (ts : List RelationTuple) (s : Store)
      → Maps.has id s.tenants ≡ true
      → Grown s (log_all now j ts s)
  unfolding log_all append_tuple_changelog
  log_all-Grown now j [] s t = Grown-same s s refl t
  log_all-Grown now j (u ∷ ts) s t =
      let s₁ = append_tuple_changelog now j ChangeOp.insert (text "api") u s in
      Grown-trans s s₁ _ (Grown-push s s₁ j _ refl t) (log_all-Grown now j ts s₁ t)

  module _ (now : ℕ) (s s' : Store) (t : Maps.has id s.tenants ≡ true) where
    writes-Grown :
        (j : Text) (ts : List RelationTuple) → write_tuples_locked now j ts s ≡ ok s' → Grown s s'
    unfolding write_tuples_locked commit
    writes-Grown j [] e = rw (← ok_injective e) (Grown-same s s refl t)
    writes-Grown j (u ∷ ts) e =
        let (staged, _, f) =
          >>=-eq-ok (stage now j (existing_keys now (tuples_of j s)) [] (u ∷ ts))
            (λ x. ok (commit now j s x)) e in
        rw (← ok_injective f)
          (Grown-trans s _ _ (Grown-same s _ refl t) (log_all-Grown now j staged _ t))

    deletes-Grown :
        (j : Text) (r : Option (RelationTuple × List RelationTuple))
        → after_take_out now j s r ≡ ok s'
        → Grown s s'
    unfolding append_tuple_changelog changelog_of
    deletes-Grown j none e = cc
    deletes-Grown j (some (u, ts)) e = rw (← ok_injective e) (Grown-push s _ j _ refl t)

    init_tenant-Grown : (j : Text) → same j id ≡ false → Grown s (init_tenant j s)
    unfolding init_tenant
    init_tenant-Grown j miss = elim (Bool-cases (Maps.has j s.tuples)) [
      | inl known ↦ rw known (Grown-same s s refl t)
      | inr fresh ↦ rw fresh (Grown-set s _ j [] refl miss t)
    ]

  stays :
      (j : Text) (u : Tenant) (s : Store)
      → Maps.has id s.tenants ≡ true
      → Maps.has id (Maps.set j u s.tenants) ≡ true
  stays j u s t = rw (has-set j id u s.tenants) (ground (arith, t))

  pub apply-Grown :
      (now : ℕ) (op : Op) (s s' : Store)
      → apply now op s ≡ ok s'
      → IsKeeping op
      → Maps.has id s.tenants ≡ true
      → Grown s s'
  unfolding apply create_tenant update_tenant write_tuples delete_tuple set_object_attributes
      set_subject_attributes append_changelog purge_tenant_data
  apply-Grown now (creates u) s s' e k t = elim (Bool-cases (Maps.has u.id s.tenants)) [
    | inl known ↦ absurd (cc (rw known at e))
    | inr fresh ↦
        let miss : same u.id id ≡ false = elim (Bool-cases (same u.id id)) [
          | inl hit ↦ absurd (cc (t, fresh, (same_iff u.id id).0 hit))
          | inr miss ↦ miss
        ] in
        let s₁ : Store = record s { tenants = Maps.set u.id (created now u) s.tenants } in
        rw (← ok_injective (rw fresh at e)) (
          Grown-trans s s₁ _ (Grown-same s s₁ refl (stays u.id (created now u) s t))
            (init_tenant-Grown now s₁ s' (stays u.id (created now u) s t) u.id miss))
  ]
  apply-Grown now (updates u) s s' e k t = elim (Bool-cases (Maps.has u.id s.tenants)) [
    | inl known ↦ rw (← ok_injective (rw known at e)) (Grown-same s _ refl (stays u.id _ s t))
    | inr fresh ↦ absurd (cc (rw fresh at e))
  ]
  apply-Grown now (writes ctx ts) s s' e k t =
      let (j, f) = writable_lem ctx s _ s' e in writes-Grown now s s' t j ts f
  apply-Grown now (deletes ctx u) s s' e k t =
      let (j, f) = writable_lem ctx s _ s' e in deletes-Grown now s s' t j _ f
  apply-Grown now (sets_object ctx kind i attrs) s s' e k t =
      let (j, f) = writable_lem ctx s _ s' e in rw (← ok_injective f) (Grown-same s _ refl t)
  apply-Grown now (sets_subject ctx kind i attrs) s s' e k t =
      let (j, f) = writable_lem ctx s _ s' e in rw (← ok_injective f) (Grown-same s _ refl t)
  apply-Grown now (appends ctx x) s s' e k t =
      let (j, f) = writable_lem ctx s _ s' e in rw (← ok_injective f) (Grown-push s _ j _ refl t)
  apply-Grown now (purges ctx) s s' e k t =
      let (j, g, f) = >>=-eq-ok (tenant_id_from ctx) _ e in
      let miss : same j id ≡ false = elim (Bool-cases (same j id)) [
        | inl hit ↦ absurd (k (g ∙ ap ok ((same_iff j id).0 hit)))
        | inr miss ↦ miss
      ] in
      rw (← ok_injective f) (Grown-set s _ j [] refl miss t)
