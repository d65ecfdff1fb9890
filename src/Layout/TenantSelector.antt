-- ===== src/Layout/TenantSelector.antt =====
-- `TenantSelector` of console/src/components/layout/tenant-selector.tsx.
use zanguard.Prelude.{
  Bool, true, false, ◌||◌, Option, none, some, List, [], ◌∷◌, map, if◌then◌else◌, find,
}
use zanguard.Js.Text.{Text, text, is_empty, same}
use zanguard.Api.Types.{Tenant, TenantStatus, active}
use zanguard.Layout.TenantStore.{TenantStore, set_selected_tenant_id}

-- `tenants.find((t) => t.id === id)`; no tenant has the id null.
unfoldable pub find_tenant : List Tenant → Option Text → Option Tenant
find_tenant tenants none = none
find_tenant tenants (some id) = find (λ t. same t.id id) tenants

-- `superTenant?.id ?? tenants[0].id`
unfoldable pub default_id : Tenant → List Tenant → Text
default_id first rest = elim (find_tenant (first ∷ rest) (some (text "super"))) [
  | none ↦ first.id
  | some t ↦ t.id
]

abbrev pub is_unset : Option Text → Bool
is_unset none = true
is_unset (some id) = is_empty id

abbrev pub is_missing {ℓ} : {A : Type ℓ} → Option A → Bool
is_missing none = true
is_missing (some a) = false

-- The effect: which tenant is selected after it has run.
unfoldable pub select_effect : (is_loading : Bool) → List Tenant → Option Text → Option Text
select_effect is_loading [] selected = selected
select_effect is_loading (first ∷ rest) selected =
    if is_loading
    then selected
    else if is_unset selected || is_missing (find_tenant (first ∷ rest) selected)
    then some (default_id first rest)
    else selected

-- The effect on the store.
unfoldable pub run_effect : Bool → List Tenant → TenantStore → TenantStore
run_effect is_loading tenants s =
    set_selected_tenant_id (select_effect is_loading tenants s.selected_tenant_id) s

-- `t.display_name || t.id`
abbrev pub shown_name : Tenant → Text
shown_name t = if is_empty t.display_name then t.id else t.display_name

abbrev pub is_active : TenantStatus → Bool
is_active active = true
is_active _ = false

abbrev pub is_current : Option Text → Text → Bool
is_current none id = false
is_current (some s) id = same s id

-- An entry of the list: its value, the name, whether it has the mark, and whether its badge is that
-- of an active tenant.
pub record Item : Type 0 where
  pub value : Text
  pub name : Text
  pub marked : Bool
  pub badge_active : Bool

pub data Trigger : Type 0 where
  loading : Trigger
  no_selection : Trigger
  current : (name : Text) (badge_active : Bool) → Trigger

pub record SelectorView : Type 0 where
  pub trigger : Trigger
  pub items : List Item

abbrev pub trigger_of : Bool → Option Tenant → Trigger
trigger_of is_loading (some t) = current (shown_name t) (is_active t.status)
trigger_of true none = loading
trigger_of false none = no_selection

unfoldable pub selector_view : (is_loading : Bool) → List Tenant → Option Text → SelectorView
selector_view is_loading tenants selected = record {
  trigger = trigger_of is_loading (find_tenant tenants selected);
  items =
      map
        (λ t. record {
          value = t.id;
          name = shown_name t;
          marked = is_current selected t.id;
          badge_active = is_active t.status;
        })
        tenants;
}
