-- ===== src/Attributes/Editor.antt =====
-- `AttributeEditor` of console/src/components/attributes/attribute-editor.tsx. `JSON.parse` and
-- `JSON.stringify` are a parameter, since their numbers are floating-point.
use zanguard.Prelude.{ℕ, zero, suc, Bool, Option, none, some, List, [], ◌∷◌, if◌then◌else◌, push}
use zanguard.Js.Text.{Text, is_empty, trim}
use zanguard.Js.Json.{Json, str}
use zanguard.Js.Objects.{Object, assign}
use zanguard.Ui.{Button}

-- `parse` is `none` where `JSON.parse` throws.
pub record JsonText : Type 0 where
  pub parse : Text → Option Json
  pub stringify : Json → Text

pub record Entry : Type 0 where
  pub key : Text
  pub value : Text

pub data EntryField : Type 0 where
  key value : EntryField

unfoldable pub add_entry : List Entry → List Entry
add_entry entries = push entries (record { key = []; value = [] })

-- `entries.filter((_, i) => i !== index)`
unfoldable pub remove_entry : ℕ → List Entry → List Entry
remove_entry index [] = []
remove_entry zero (e ∷ entries) = entries
remove_entry (suc index) (e ∷ entries) = e ∷ remove_entry index entries

abbrev pub set_field : EntryField → Text → Entry → Entry
set_field key val e = record e { key = val }
set_field value val e = record e { value = val }

-- `updateEntry`, whose index is that of a row.
unfoldable pub update_entry : ℕ → EntryField → Text → List Entry → List Entry
update_entry index field val [] = []
update_entry zero field val (e ∷ entries) = set_field field val e ∷ entries
update_entry (suc index) field val (e ∷ entries) = e ∷ update_entry index field val entries

module _ (json : JsonText) where
  -- `typeof value === "string" ? value : JSON.stringify(value)`
  unfoldable pub shown_value : Json → Text
  shown_value (str s) = s
  shown_value v = json.stringify v

  -- The initial state.
  unfoldable pub entries_of : Object Json → List Entry
  entries_of [] = []
  entries_of ((k, v) ∷ attributes) =
      record { key = k; value = shown_value v } ∷ entries_of attributes

  -- `try { JSON.parse(value) } catch { value }`
  unfoldable pub parse_or_text : Text → Json
  parse_or_text s = elim (json.parse s) [ none ↦ str s | some v ↦ v ]

  -- One round of the loop of `handleSave`.
  unfoldable pub save_entry : Object Json → Entry → Object Json
  save_entry attrs e =
      if is_empty (trim e.key) then attrs else assign (trim e.key) (parse_or_text e.value) attrs

  unfoldable pub save_from : Object Json → List Entry → Object Json
  save_from attrs [] = attrs
  save_from attrs (e ∷ entries) = save_from (save_entry attrs e) entries

  -- What `handleSave` hands to `onSave`.
  unfoldable pub handle_save : List Entry → Object Json
  handle_save entries = save_from [] entries

pub record EditorView : Type 0 where
  pub rows : List Entry
  pub save : Button

unfoldable pub attribute_editor : List Entry → (is_saving : Bool) → EditorView
attribute_editor entries is_saving = record {
  rows = entries;
  save = record { disabled = is_saving; spinning = is_saving };
}
