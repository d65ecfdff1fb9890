-- ===== src/Attributes/Switching.antt =====
-- The states that a tab can reach, and what happens to the editor when another entity is selected.
use zanguard.Prelude.{
  ◌≡◌, refl, Bool, true, false, not, ◌||◌, Option, none, some, List, [], ◌∷◌, arith, push,
}
use zanguard.Js.Text.{Text}
use zanguard.Js.Json.{Json}
use zanguard.Js.Objects.{Object}
use zanguard.Ui.{use_state}
use zanguard.Attributes.Editor.{JsonText, Entry, handle_save}
use zanguard.Attributes.Tabs.{
  Tab, SelectedEntity, TabKind, objects, subjects, TabEvent, initial_tab, choose, handle,
  handle_select, handle_lookup_new, editor_state, shows_editor, save_request,
}
use zanguard.Api.Requests.{object_path, subject_path, set_object_attributes, set_subject_attributes}

unfoldable pub run : Tab → List TabEvent → Tab
run t [] = t
run t (e ∷ events) = run (handle e t) events

abbrev pub is_none {ℓ} : {A : Type ℓ} → Option A → Bool
is_none none = true
is_none (some a) = false

-- While the lookup form is open no entity is selected.
abbrev pub IsExclusive : Tab → Type 0
IsExclusive t = not t.show_new_form || is_none t.selected ≡ true

handle-IsExclusive : (e : TabEvent) (t : Tab) → IsExclusive t → IsExclusive (handle e t)
unfolding handle handle_select handle_lookup_new
handle-IsExclusive (choose e) t h = ground arith
handle-IsExclusive _ t h = ground arith

run-IsExclusive : (t : Tab) (events : List TabEvent) → IsExclusive t → IsExclusive (run t events)
unfolding run
run-IsExclusive t [] h = h
run-IsExclusive t (e ∷ events) h = run-IsExclusive (handle e t) events (handle-IsExclusive e t h)

-- Whatever the user does in a tab, no entity is selected while the lookup form is open.
pub tab-IsExclusive : (events : List TabEvent) → IsExclusive (run initial_tab events)
tab-IsExclusive events = run-IsExclusive initial_tab events refl

abbrev pub entity_path : TabKind → Text → SelectedEntity → Text
entity_path objects tenant_id e = object_path tenant_id e.kind e.id
entity_path subjects tenant_id e = subject_path tenant_id e.kind e.id

-- A choice of an entity of the list, whose attributes are cached, so that nothing loads.
abbrev pub Visit : Type 0
Visit = SelectedEntity × Object Json

unfoldable pub tab_after : List Visit → Tab → Tab
tab_after [] t = t
tab_after ((e, attributes) ∷ visits) t = tab_after visits (handle (choose e) t)

-- The state of the editor after the visits, with a render after each.
unfoldable pub rows_after : JsonText → List Visit → Tab → Option (List Entry) → Option (List Entry)
rows_after json [] t old = old
rows_after json ((e, attributes) ∷ visits) t old =
    let now = handle (choose e) t in
    rows_after json visits now (editor_state json now false attributes old)

save_path :
    (kind : TabKind) (tenant_id : Text) (visits : List Visit) (e : SelectedEntity)
    (attributes sent : Object Json) (t : Tab)
    → (save_request kind tenant_id (tab_after (push visits (e, attributes)) t) sent).path
      ≡ entity_path kind tenant_id e
unfolding tab_after handle handle_select save_request set_object_attributes set_subject_attributes
save_path objects tenant_id [] e attributes sent t = refl
save_path subjects tenant_id [] e attributes sent t = refl
save_path kind tenant_id ((e', a') ∷ visits) e attributes sent t =
    save_path kind tenant_id visits e attributes sent (handle (choose e') t)

keeps_rows :
    (json : JsonText) (visits : List Visit) (t : Tab) (rows : List Entry)
    → rows_after json visits t (some rows) ≡ some rows
unfolding rows_after editor_state handle handle_select shows_editor use_state
keeps_rows json [] t rows = refl
keeps_rows json ((e, attributes) ∷ visits) t rows =
    keeps_rows json visits (handle (choose e) t) rows

-- When entities are chosen one after another whose attributes are cached, the editor keeps the rows
-- that it had, whatever the attributes of the chosen ones, and saving goes to the path of the
-- entity that was chosen last.
pub switching_keeps_rows :
    (json : JsonText) (kind : TabKind) (tenant_id : Text) (visits : List Visit) (e : SelectedEntity)
    (attributes : Object Json) (t : Tab) (rows : List Entry)
    → (rows_after json (push visits (e, attributes)) t (some rows) ≡ some rows)
      × ((save_request kind tenant_id
            (tab_after (push visits (e, attributes)) t)
            (handle_save json rows)).path
          ≡ entity_path kind tenant_id e)
switching_keeps_rows json kind tenant_id visits e attributes t rows = (
  keeps_rows json (push visits (e, attributes)) t rows,
  save_path kind tenant_id visits e attributes (handle_save json rows) t,
)
