-- ===== src/Schema/Page.antt =====
-- `SchemaPage` of console/src/app/schema/page.tsx, with `SchemaEditor` and `SchemaMeta` of
-- console/src/components/schema.
use zanguard.Prelude.{
  ℕ, zero, suc, Bool, true, false, Option, none, some, List, [], ◌∷◌, if◌then◌else◌,
}
use zanguard.Js.Text.{Text, text, is_empty}
use zanguard.Js.Json.{Json, nil, str, arr}
use zanguard.Api.Types.{SchemaResponse}
use zanguard.Api.Requests.{Request, load_schema}
use zanguard.Api.Client.{ApiError, message_or}
use zanguard.Ui.{Reply, ok, failed, Toast, success, error, use_state}

-- The state of the editor; `errors` is what the server gave as details.
pub record Editor : Type 0 where
  pub value : Text
  pub errors : Json

abbrev no_errors : Json
no_errors = arr nil

unfoldable pub open_editor : Text → Editor
open_editor initial_value = record { value = initial_value; errors = no_errors }

-- Typing into the editor, and reading an uploaded file.
unfoldable pub set_value : Text → Editor → Editor
set_value value e = record e { value = value }

unfoldable pub upload : Option Text → Editor → Editor
upload none e = e
upload (some file) e = record e { value = file }

-- `handleSave`: what it sends, and what it does when the reply is there.
unfoldable pub save_request : Text → Editor → Request
save_request tenant_id e = load_schema tenant_id e.value

abbrev show_failure : Option Json → ApiError → Editor → Editor × List Toast
show_failure none err e = (
  record e { errors = no_errors },
  error (message_or (str (text "Failed to save schema")) err) ∷ [],
)
show_failure (some details) err e = (record e { errors = details }, [])

unfoldable pub handle_save : Reply SchemaResponse → Editor → Editor × List Toast
handle_save (ok _) e =
    (record e { errors = no_errors }, success (text "Schema saved successfully") ∷ [])
handle_save (failed err) e = show_failure err.details err e

abbrev first_units : ℕ → Text → Text
first_units zero s = []
first_units (suc n) [] = []
first_units (suc n) (x ∷ s) = x ∷ first_units n s

pub record MetaView : Type 0 where
  pub version : Text
  pub short_hash : Text
  pub copied_text : Text
  pub compiled_at : Text

-- `SchemaMeta`: `hash.slice(0, 12)` is shown, and the whole hash is copied.
unfoldable pub schema_meta : SchemaResponse → MetaView
schema_meta s = record {
  version = s.version;
  short_hash = first_units 12 s.hash;
  copied_text = s.hash;
  compiled_at = s.compiled_at;
}

-- `schema && !error`
unfoldable pub usable : Option SchemaResponse → (has_error : Bool) → Option SchemaResponse
usable none has_error = none
usable (some s) has_error = if has_error then none else some s

abbrev source_of : Option SchemaResponse → Text
source_of none = []
source_of (some s) = s.source

pub data Phase : Type 0 where
  no_tenant : Phase
  loading : Phase
  ready : (tenant_id : Text) → Phase

abbrev loaded : Bool → Text → Phase
loaded true id = loading
loaded false id = ready id

unfoldable pub phase : Option Text → (is_loading : Bool) → Phase
phase none is_loading = no_tenant
phase (some id) is_loading = if is_empty id then no_tenant else loaded is_loading id

abbrev pub is_ready : Phase → Bool
is_ready (ready id) = true
is_ready _ = false

-- The state of the editor over a render of the page; its initial text is `schema?.source ?? ""`.
unfoldable pub editor_state : Phase → Option SchemaResponse → Option Editor → Option Editor
editor_state p response old = use_state (is_ready p) (open_editor (source_of response)) old

-- The page: the meta line, the source that the visual, graph and evaluate tabs get, and the editor.
pub record Tabs : Type 0 where
  pub meta : Option MetaView
  pub other_tabs_disabled : Bool
  pub source : Option Text
  pub editor : Option Editor

pub data SchemaPage : Type 0 where
  select_tenant : SchemaPage
  skeleton : SchemaPage
  tabs : (tenant_id : Text) → Tabs → SchemaPage

abbrev tabs_of : Option SchemaResponse → Option Editor → Tabs
tabs_of none e = record { meta = none; other_tabs_disabled = true; source = none; editor = e }
tabs_of (some s) e = record {
  meta = some (schema_meta s);
  other_tabs_disabled = false;
  source = some s.source;
  editor = e;
}

unfoldable pub schema_page :
    Phase → Option SchemaResponse → (has_error : Bool) → Option Editor → SchemaPage
schema_page no_tenant response has_error e = select_tenant
schema_page loading response has_error e = skeleton
schema_page (ready id) response has_error e = tabs id (tabs_of (usable response has_error) e)
