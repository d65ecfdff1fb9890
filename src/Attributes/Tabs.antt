-- ===== src/Attributes/Tabs.antt =====
-- `ObjectAttributesTab` and `SubjectAttributesTab` of console/src/app/attributes/page.tsx, which
-- differ in the hooks that they call and in their labels, and the page. An item of the list is the
-- entity that it stands for.
use zanguard.Prelude.{
  Bool, true, false, not, ◌&&◌, ◌||◌, Option, none, some, List, [], ◌∷◌, map, if◌then◌else◌,
}
use zanguard.Js.Text.{Text, text, is_empty, same}
use zanguard.Js.Json.{Json, str}
use zanguard.Js.Objects.{Object}
use zanguard.Api.Types.{ObjectAttributesItem, SubjectAttributesItem}
use zanguard.Api.Requests.{Request, set_object_attributes, set_subject_attributes}
use zanguard.Api.Client.{message_or}
use zanguard.Hooks.Queries.{
  Query, use_object_attributes, use_subject_attributes, use_list_object_attributes,
  use_list_subject_attributes,
}
use zanguard.Ui.{Reply, ok, failed, Toast, success, error, use_state}
use zanguard.Attributes.Editor.{JsonText, Entry, EditorView, entries_of, attribute_editor}

pub record SelectedEntity : Type 0 where
  pub kind : Text
  pub id : Text

pub data TabKind : Type 0 where
  objects subjects : TabKind

pub record Tab : Type 0 where
  pub selected : Option SelectedEntity
  pub show_new_form : Bool
  pub new_type : Text
  pub new_id : Text
  pub filter_type : Text

abbrev pub initial_tab : Tab
initial_tab = record {
  selected = none;
  show_new_form = false;
  new_type = [];
  new_id = [];
  filter_type = [];
}

unfoldable pub object_entity : ObjectAttributesItem → SelectedEntity
object_entity item = record { kind = item.object_type; id = item.object_id }

unfoldable pub subject_entity : SubjectAttributesItem → SelectedEntity
subject_entity item = record { kind = item.subject_type; id = item.subject_id }

-- `handleSelect`
unfoldable pub handle_select : SelectedEntity → Tab → Tab
handle_select e t = record t { selected = some e; show_new_form = false }

-- `handleLookupNew`
unfoldable pub handle_lookup_new : Tab → Tab
handle_lookup_new t = if is_empty t.new_type || is_empty t.new_id then t else record t {
  selected = some (record { kind = t.new_type; id = t.new_id });
  show_new_form = false;
  new_type = [];
  new_id = [];
}

-- The other callbacks of the tab.
pub data TabEvent : Type 0 where
  choose : SelectedEntity → TabEvent
  lookup : TabEvent
  plus : TabEvent
  cancel : TabEvent
  type_new_type : Text → TabEvent
  type_new_id : Text → TabEvent
  type_filter : Text → TabEvent

unfoldable pub handle : TabEvent → Tab → Tab
handle (choose e) t = handle_select e t
handle lookup t = handle_lookup_new t
handle plus t = record t { selected = none; show_new_form = true }
handle cancel t = record t { show_new_form = false }
handle (type_new_type s) t = record t { new_type = s }
handle (type_new_id s) t = record t { new_id = s }
handle (type_filter s) t = record t { filter_type = s }

-- `selected?.type ?? ""` and `selected?.id ?? ""`
abbrev pub kind_of : Option SelectedEntity → Text
kind_of none = []
kind_of (some e) = e.kind

abbrev pub id_of : Option SelectedEntity → Text
id_of none = []
id_of (some e) = e.id

-- The query of the editor, and that of the list.
unfoldable pub editor_query : TabKind → Text → Tab → Query
editor_query objects tenant_id t =
    use_object_attributes (some tenant_id) (kind_of t.selected) (id_of t.selected)
editor_query subjects tenant_id t =
    use_subject_attributes (some tenant_id) (kind_of t.selected) (id_of t.selected)

abbrev pub or_undefined : Text → Option Text
or_undefined s = if is_empty s then none else some s

unfoldable pub list_query : TabKind → Text → Tab → Query
list_query objects tenant_id t =
    use_list_object_attributes (some tenant_id) (or_undefined t.filter_type)
list_query subjects tenant_id t =
    use_list_subject_attributes (some tenant_id) (or_undefined t.filter_type)

-- The request of `handleSave`, and the toast when it has settled.
unfoldable pub save_request : TabKind → Text → Tab → Object Json → Request
save_request objects tenant_id t attrs =
    set_object_attributes tenant_id (kind_of t.selected) (id_of t.selected) attrs
save_request subjects tenant_id t attrs =
    set_subject_attributes tenant_id (kind_of t.selected) (id_of t.selected) attrs

unfoldable pub save_toast : TabKind → Reply (Unit {0}) → Toast
save_toast objects (ok _) = success (text "Object attributes saved")
save_toast subjects (ok _) = success (text "Subject attributes saved")
save_toast _ (failed e) = error (message_or (str (text "Failed to save attributes")) e)

-- The list: each entity, and whether it is the selected one.
pub data ListView : Type 0 where
  loading : ListView
  no_entities : ListView
  entities : List (SelectedEntity × Bool) → ListView

abbrev pub is_current : Option SelectedEntity → SelectedEntity → Bool
is_current none item = false
is_current (some e) item = same e.kind item.kind && same e.id item.id

unfoldable pub list_view :
    (is_loading : Bool) → Option SelectedEntity → List SelectedEntity → ListView
list_view true selected items = loading
list_view false selected [] = no_entities
list_view false selected (item ∷ items) =
    entities (map (λ e. (e, is_current selected e)) (item ∷ items))

-- The right panel. `editor` is the state of the mounted `AttributeEditor`.
pub data Panel : Type 0 where
  lookup_form : (new_type new_id : Text) → (open_disabled : Bool) → Panel
  loading_editor : SelectedEntity → Panel
  editor : SelectedEntity → EditorView → Panel
  hint : Panel

-- Whether the editor is rendered.
unfoldable pub shows_editor : Tab → (is_loading : Bool) → Bool
shows_editor t is_loading =
    if t.show_new_form then false else elim t.selected [ none ↦ false | some e ↦ not is_loading ]

-- The state of the editor over a render, from the attributes that the query has, `{}` if none.
unfoldable pub editor_state :
    JsonText → Tab → (is_loading : Bool) → Object Json → Option (List Entry) → Option (List Entry)
editor_state json t is_loading attributes old =
    use_state (shows_editor t is_loading) (entries_of json attributes) old

abbrev pub loaded_panel : SelectedEntity → (is_saving : Bool) → Option (List Entry) → Panel
loaded_panel e is_saving none = loading_editor e
loaded_panel e is_saving (some entries) = editor e (attribute_editor entries is_saving)

unfoldable pub panel : Tab → (is_saving : Bool) → Option (List Entry) → Panel
panel t is_saving entries =
    if t.show_new_form
    then lookup_form t.new_type t.new_id (is_empty t.new_type || is_empty t.new_id)
    else elim t.selected [ none ↦ hint | some e ↦ loaded_panel e is_saving entries ]

-- The page: nothing is shown of a tenant that is not selected.
pub data AttributesPage : Type 0 where
  no_tenant : AttributesPage
  tabs : (tenant_id : Text) → AttributesPage

unfoldable pub attributes_page : Option Text → AttributesPage
attributes_page none = no_tenant
attributes_page (some id) = if is_empty id then no_tenant else tabs id
