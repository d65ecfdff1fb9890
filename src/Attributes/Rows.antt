-- ===== src/Attributes/Rows.antt =====
-- What the handlers of the editor do to its rows.
use zanguard.Prelude.{
  ℕ, zero, suc, ◌≡◌, refl, ap, Option, none, some, List, [], ◌∷◌, if◌then◌else◌, arith, get_elem?,
  length, ltb, ◌==◌,
}
use zanguard.Js.Text.{Text}
use zanguard.Attributes.Editor.{Entry, EntryField, set_field, remove_entry, update_entry}

-- Removing row `i` leaves the rows before it in place and moves those behind it up by one.
pub get_elem?-remove_entry :
    (i j : ℕ) (entries : List Entry)
    → get_elem? (remove_entry i entries) j
      ≡ (if ltb j i then get_elem? entries j else get_elem? entries (suc j))
unfolding remove_entry
get_elem?-remove_entry i j [] = ground arith
get_elem?-remove_entry zero j (e ∷ entries) = ground arith
get_elem?-remove_entry (suc i) zero (e ∷ entries) = ground arith
get_elem?-remove_entry (suc i) (suc j) (e ∷ entries) =
    ground (arith, get_elem?-remove_entry i j entries)

abbrev pub map_option : (Entry → Entry) → Option Entry → Option Entry
map_option f none = none
map_option f (some e) = some (f e)

-- Typing into a field of row `i` sets that field of that row, and leaves every other row and the
-- number of rows as they are.
pub get_elem?-update_entry :
    (i j : ℕ) (field : EntryField) (val : Text) (entries : List Entry)
    → (get_elem? (update_entry i field val entries) j ≡ (
        if j == i
        then map_option (set_field field val) (get_elem? entries j)
        else get_elem? entries j))
      × (length (update_entry i field val entries) ≡ length entries)
unfolding update_entry
get_elem?-update_entry i j field val [] = (ground arith, refl)
get_elem?-update_entry zero zero field val (e ∷ entries) = (refl, refl)
get_elem?-update_entry zero (suc j) field val (e ∷ entries) = (ground arith, refl)
get_elem?-update_entry (suc i) zero field val (e ∷ entries) =
    (ground arith, ap suc (get_elem?-update_entry i zero field val entries).1)
get_elem?-update_entry (suc i) (suc j) field val (e ∷ entries) =
    let ih = get_elem?-update_entry i j field val entries in (ground arith, ap suc ih.1)
