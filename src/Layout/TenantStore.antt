-- ===== src/Layout/TenantStore.antt =====
-- console/src/lib/stores/tenant-store.ts. `zustand` keeps the state and persists it.
use zanguard.Prelude.{Bool, false, not, Option, some}
use zanguard.Js.Text.{Text, text}

pub record TenantStore : Type 0 where
  pub selected_tenant_id : Option Text
  pub sidebar_collapsed : Bool

abbrev pub initial : TenantStore
initial = record { selected_tenant_id = some (text "super"); sidebar_collapsed = false }

unfoldable pub set_selected_tenant_id : Option Text → TenantStore → TenantStore
set_selected_tenant_id id s = record s { selected_tenant_id = id }

unfoldable pub toggle_sidebar : TenantStore → TenantStore
toggle_sidebar s = record s { sidebar_collapsed = not s.sidebar_collapsed }
