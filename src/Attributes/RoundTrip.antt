-- ===== src/Attributes/RoundTrip.antt =====
-- Opening the editor and saving without a change.
use mathlib.Core.List.{append-nil}
use zanguard.Prelude.{
  ◌≡◌, refl, ap, sym, ◌∙◌, true, false, Option, none, some, List, [], ◌∷◌, ◌++◌, arith, All,
}
use zanguard.Js.Text.{Text, is_empty, trim, same, same_iff}
use zanguard.Js.Json.{Json, null, bool, num, str, arr, obj}
use zanguard.Js.Objects.{Object, proto, property, assign, property-assign}
use zanguard.Js.Sets.{member, is_distinct}
use zanguard.Js.Maps.{keys}
use zanguard.Attributes.Editor.{
  JsonText, Entry, shown_value, entries_of, parse_or_text, save_entry, save_from, handle_save,
}

-- A key that is saved as it is shown: trimmed, not empty, and not `__proto__`.
abbrev pub IsKept : Text × Json → Type 0
IsKept (k, v) = (trim k ≡ k) × (is_empty k ≡ false) × (same k proto ≡ false)

-- A row without a key, or with spaces for a key.
abbrev pub IsBlank : Entry → Type 0
IsBlank e = is_empty (trim e.key) ≡ true

property-absent : (k : Text) (o : Object Json) → member k (keys o) ≡ false → property k o ≡ none
unfolding property member
property-absent k [] h = refl
property-absent k ((j, v) ∷ o) h = ground (arith, property-absent k o)

module _ (json : JsonText) where
  -- What is known of a value: a text is not JSON, and any other value is what `JSON.parse` makes of
  -- its `JSON.stringify`.
  abbrev IsRestored : Json → Type 0
  IsRestored (str s) = json.parse s ≡ none
  IsRestored v = json.parse (json.stringify v) ≡ some v

  abbrev pub Survives : Text × Json → Type 0
  Survives (k, v) = IsKept (k, v) × IsRestored v

  parse_or_text-some : (x : Text) (v : Json) → json.parse x ≡ some v → parse_or_text json x ≡ v
  unfolding parse_or_text
  parse_or_text-some x v h = rw (h, parse_or_text) refl

  parse_or_text-none : (x : Text) → json.parse x ≡ none → parse_or_text json x ≡ str x
  unfolding parse_or_text
  parse_or_text-none x h = rw (h, parse_or_text) refl

  parse_or_text-shown_value :
      (v : Json) → IsRestored v → parse_or_text json (shown_value json v) ≡ v
  unfolding shown_value
  parse_or_text-shown_value null h = parse_or_text-some _ _ h
  parse_or_text-shown_value (bool b) h = parse_or_text-some _ _ h
  parse_or_text-shown_value (num n) h = parse_or_text-some _ _ h
  parse_or_text-shown_value (str s) h = parse_or_text-none s h
  parse_or_text-shown_value (arr vs) h = parse_or_text-some _ _ h
  parse_or_text-shown_value (obj o) h = parse_or_text-some _ _ h

  -- What an attribute is after saving, where `o` is what it is without being saved.
  abbrev read_back : Option Json → Option Json → Option Json
  read_back none o = o
  read_back (some v) o = some (parse_or_text json (shown_value json v))

  save_entry_lem :
      (k x : Text) (o : Object Json)
      → trim k ≡ k
      → is_empty k ≡ false
      → save_entry json o (record { key = k; value = x }) ≡ assign k (parse_or_text json x) o
  unfolding save_entry
  save_entry_lem k x o trimmed given = ground arith

  save_from-IsBlank :
      (blanks : List Entry) (o : Object Json) → All IsBlank blanks → save_from json o blanks ≡ o
  unfolding save_from save_entry
  save_from-IsBlank [] o h = refl
  save_from-IsBlank (e ∷ blanks) o (blank, h) = rw blank (save_from-IsBlank blanks o h)

  save_from-entries_of :
      (attrs o : Object Json) (blanks : List Entry) (j : Text)
      → All IsKept attrs
      → is_distinct (keys attrs) ≡ true
      → All IsBlank blanks
      → property j (save_from json o (entries_of json attrs ++ blanks))
        ≡ read_back (property j attrs) (property j o)
  unfolding save_from entries_of property is_distinct
  save_from-entries_of [] o blanks j h d b = ap (property j) (save_from-IsBlank blanks o b)
  save_from-entries_of ((k, v) ∷ attrs) o blanks j ((trimmed, given, safe), h) d b =
      let w : Json = parse_or_text json (shown_value json v) in
      ap (λ x. property j (save_from json x (entries_of json attrs ++ blanks)))
        (save_entry_lem k (shown_value json v) o trimmed given)
      ∙ save_from-entries_of attrs (assign k w o) blanks j h (ground arith) b
      ∙ ground (arith, property-assign k j w o safe, property-absent k attrs, same_iff k j)

  Survives-IsKept : (attrs : Object Json) → All Survives attrs → All IsKept attrs
  Survives-IsKept [] h = tt
  Survives-IsKept (a ∷ attrs) ((kept, _), h) = (kept, Survives-IsKept attrs h)

  read_back-Survives :
      (attrs : Object Json) (j : Text)
      → All Survives attrs
      → read_back (property j attrs) none ≡ property j attrs
  unfolding property
  read_back-Survives [] j h = refl
  read_back-Survives ((k, v) ∷ attrs) j ((_, restored), h) =
      ground (arith, parse_or_text-shown_value v restored, read_back-Survives attrs j h)

  -- If every key is trimmed, not empty, not `__proto__` and stands once, every text is not JSON, and
  -- every other value is restored by `JSON.parse` from its text, then saving what the editor shows,
  -- also with rows added whose key is left blank, gives back each attribute, and no other.
  pub handle_save-entries_of :
      (attrs : Object Json) (blanks : List Entry) (j : Text)
      → All Survives attrs
      → is_distinct (keys attrs) ≡ true
      → All IsBlank blanks
      → property j (handle_save json (entries_of json attrs ++ blanks)) ≡ property j attrs
  unfolding handle_save property
  handle_save-entries_of attrs blanks j h d b =
      save_from-entries_of attrs [] blanks j (Survives-IsKept attrs h) d b
      ∙ read_back-Survives attrs j h

  -- A text attribute that reads as JSON does not survive: if every key is trimmed, not empty, not
  -- `__proto__` and stands once, saving the editor without a change replaces the text by the value
  -- that it reads as, whatever the other attributes are.
  pub text_becomes_value :
      (attrs : Object Json) (k s : Text) (v : Json)
      → All IsKept attrs
      → is_distinct (keys attrs) ≡ true
      → property k attrs ≡ some (str s)
      → json.parse s ≡ some v
      → property k (handle_save json (entries_of json attrs)) ≡ some v
  unfolding handle_save shown_value property
  text_becomes_value attrs k s v h d is_text parses =
      ap (λ es. property k (save_from json [] es)) (sym (append-nil (entries_of json attrs)))
      ∙ save_from-entries_of attrs [] [] k h d tt
      ∙ rw is_text (ap some (parse_or_text-some s v parses))
