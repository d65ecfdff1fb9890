-- ===== src/Layout/Selection.antt =====
-- What the selector's effect settles on.
use zanguard.Prelude.{
  ◌≡◌, refl, ap, sym, ◌∙◌, Bool, true, false, ◌||◌, Option, none, some, List, [], ◌∷◌, map,
  if◌then◌else◌, find, arith, Bool-cases, inl, inr, Option-cases,
}
use zanguard.Js.Text.{Text, text, is_empty, same, same_iff, same_refl}
use zanguard.Js.Sets.{member}
use zanguard.Api.Types.{Tenant}
use zanguard.Layout.TenantSelector.{find_tenant, default_id, is_unset, is_missing, select_effect}

abbrev pub ids : List Tenant → List Text
ids = map (λ t. t.id)

abbrev pub IsAmong : Option Text → List Tenant → Type 0
IsAmong none tenants = ⊥
IsAmong (some id) tenants = member id (ids tenants) ≡ true

found-member :
    (id : Text) (tenants : List Tenant)
    → is_missing (find (λ t. same t.id id) tenants) ≡ false
    → member id (ids tenants) ≡ true
unfolding member
found-member id [] h = cc
found-member id (t ∷ tenants) h = ground (arith, found-member id tenants)

option_id : Option Tenant → Text
option_id none = []
option_id (some t) = t.id

find-id :
    (id : Text) (tenants : List Tenant) (t : Tenant)
    → find (λ t. same t.id id) tenants ≡ some t
    → t.id ≡ id
unfolding option_id
find-id id [] t h = cc
find-id id (u ∷ tenants) t h = elim (Bool-cases (same u.id id)) [
  | inl e ↦
      let found : some u ≡ some t = rw e at h in sym (ap option_id found) ∙ (same_iff u.id id).0 e
  | inr e ↦ find-id id tenants t (rw e at h)
]

default_id-member :
    (first : Tenant) (rest : List Tenant)
    → member (default_id first rest) (ids (first ∷ rest)) ≡ true
unfolding default_id find_tenant
default_id-member first rest =
    elim (Option-cases (find (λ t. same t.id (text "super")) (first ∷ rest))) [
      | inl absent ↦ rw (absent, default_id) (unfold member in ground (arith, same_refl first.id))
      | inr (t, found) ↦
          rw (found, default_id)
            (rw (find-id (text "super") (first ∷ rest) t found)
              (found-member (text "super") (first ∷ rest) (rw found refl)))
    ]

-- Once the tenants are loaded and there is one, the effect leaves one of them selected.
pub select_effect-IsAmong :
    (first : Tenant) (rest : List Tenant) (selected : Option Text)
    → IsAmong (select_effect false (first ∷ rest) selected) (first ∷ rest)
unfolding select_effect find_tenant
select_effect-IsAmong first rest none = default_id-member first rest
select_effect-IsAmong first rest (some id) =
    elim (Bool-cases (is_empty id || is_missing (find (λ t. same t.id id) (first ∷ rest)))) [
      | inl bad ↦ rw bad (default_id-member first rest)
      | inr good ↦ rw good (found-member id (first ∷ rest) (ground arith))
    ]

-- Running the effect again changes nothing, whatever is loaded and selected: it does not loop.
pub select_effect_idempotent :
    (is_loading : Bool) (tenants : List Tenant) (selected : Option Text)
    → select_effect is_loading tenants (select_effect is_loading tenants selected)
      ≡ select_effect is_loading tenants selected
unfolding select_effect
select_effect_idempotent is_loading [] selected = refl
select_effect_idempotent true (first ∷ rest) selected = refl
select_effect_idempotent false (first ∷ rest) selected =
    elim (Bool-cases (is_unset selected || is_missing (find_tenant (first ∷ rest) selected))) [
      | inl bad ↦ rw bad (
          again
            (is_empty (default_id first rest)
              || is_missing (find_tenant (first ∷ rest) (some (default_id first rest))))
            (some (default_id first rest)))
      | inr good ↦ rw good (rw good refl)
    ]
  where
    again : (b : Bool) (x : Option Text) → (if b then x else x) ≡ x
    again true x = refl
    again false x = refl
