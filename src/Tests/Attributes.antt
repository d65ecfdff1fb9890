-- ===== src/Tests/Attributes.antt =====
-- The attributes page at sample data, with a `JSON.parse` that knows `true` and `null` only.
use zanguard.Prelude.{
  ◌≡◌, refl, true, false, Option, none, some, List, [], ◌∷◌, ◌++◌, if◌then◌else◌, push,
}
use zanguard.Js.Text.{Text, text, same, trim, trim_start, trim_end, is_space}
use zanguard.Js.Json.{Json, null, bool, num, str}
use zanguard.Js.Objects.{Object, property}
use zanguard.Js.Sets.{is_distinct, member}
use zanguard.Attributes.Editor.{JsonText, Entry, entries_of, handle_save}
use zanguard.Attributes.RoundTrip.{handle_save-entries_of, text_becomes_value}
use zanguard.Attributes.Tabs.{
  TabEvent, TabKind, SelectedEntity, initial_tab, choose, plus, lookup, type_new_id, type_new_type,
  save_request,
}
use zanguard.Attributes.Switching.{
  IsExclusive, run, rows_after, tab_after, entity_path, tab-IsExclusive, switching_keeps_rows,
}

unfoldable parse : Text → Option Json
unfolding same
parse s =
    if same s (text "true")
    then some (bool true)
    else if same s (text "null")
    then some null
    else none

unfoldable stringify : Json → Text
stringify null = text "null"
stringify (bool true) = text "true"
stringify (bool false) = text "false"
stringify (num n) = n
stringify (str s) = s
stringify _ = []

abbrev json : JsonText
json = record { parse = parse; stringify = stringify }

abbrev attrs : Object Json
attrs = (text "active", bool true) ∷ (text "team", str (text "red")) ∷ []

-- Two rows that were added, one of them with a value.
abbrev blank_rows : List Entry
blank_rows = record { key = []; value = [] } ∷ record { key = text " "; value = text "true" } ∷ []

handle_save-entries_of_example :
    property [] (handle_save json (entries_of json attrs ++ blank_rows)) ≡ property [] attrs
unfolding parse stringify same trim trim_start trim_end is_space is_distinct member
handle_save-entries_of_example =
    handle_save-entries_of json attrs blank_rows []
      (((refl, refl, refl), refl), (((refl, refl, refl), refl), tt)) refl (refl, (refl, tt))

abbrev noted : Object Json
noted = (text "active", bool true) ∷ (text "note", str (text "true")) ∷ []

text_becomes_value_example :
    property (text "note") (handle_save json (entries_of json noted)) ≡ some (bool true)
unfolding parse same trim trim_start trim_end is_space is_distinct member property
text_becomes_value_example =
    text_becomes_value json noted (text "note") (text "true") (bool true)
      ((refl, refl, refl), ((refl, refl, refl), tt)) refl refl refl

abbrev row : Text → Entry
row k = record { key = k; value = text "1" }

abbrev rows : List Entry
rows = row (text "a") ∷ row (text "b") ∷ row (text "c") ∷ []

abbrev doc : Text → SelectedEntity
doc id = record { kind = text "doc"; id = id }

abbrev clicks : List TabEvent
clicks =
    choose (doc (text "1"))
    ∷ plus
    ∷ type_new_type (text "doc")
    ∷ type_new_id (text "2")
    ∷ lookup
    ∷ plus
    ∷ []

tab-IsExclusive_example : IsExclusive (run initial_tab clicks)
tab-IsExclusive_example = tab-IsExclusive clicks

switching_keeps_rows_example :
    (rows_after json
        (push ((doc (text "2"), attrs) ∷ []) (doc (text "3"), []))
        initial_tab
        (some rows)
      ≡ some rows)
    × ((save_request TabKind.objects
          (text "acme")
          (tab_after (push ((doc (text "2"), attrs) ∷ []) (doc (text "3"), [])) initial_tab)
          (handle_save json rows)).path
        ≡ entity_path TabKind.objects (text "acme") (doc (text "3")))
switching_keeps_rows_example =
    switching_keeps_rows json TabKind.objects (text "acme") ((doc (text "2"), attrs) ∷ [])
      (doc (text "3")) [] initial_tab rows
