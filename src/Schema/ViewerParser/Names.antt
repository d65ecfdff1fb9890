-- ===== src/Schema/ViewerParser/Names.antt =====
-- Which types the viewer shows.
use mathlib.Core.List.{map-append, append_assoc, append-nil}
use zanguard.Prelude.{
  ◌≡◌, refl, ap, sym, ◌∙◌, Bool, true, false, List, [], ◌∷◌, ◌++◌, map, arith, Option, none, some,
  drop, Bool-cases, inl, inr, if◌then◌else◌, Option-cases,
}
use zanguard.Js.Text.{Text, split, trim, trim_end, drop_last}
use zanguard.Schema.ViewerParser.{
  Section, attributes, relations, permissions, ParsedType, Scan, start, enter, entry, detail,
  section_of, within, is_type_line, step, scan, finish, parse_yaml_simple, flush, push_current,
  set_relation_types, type_list,
}

unfoldable pub viewer_names : List ParsedType → List Text
viewer_names = map (λ t. t.name)

current_name : Option ParsedType → List Text
current_name none = []
current_name (some t) = t.name ∷ []

-- The names of the types that would be shown if the source ended here.
shown : Scan → List Text
shown s = viewer_names s.types ++ current_name s.current_type

-- The names on the lines that open a type, whatever section they stand in.
unfoldable pub type_line_names : List Text → List Text
type_line_names [] = []
type_line_names (line ∷ lines) =
    (if is_type_line line then drop_last (drop 2 (trim_end line)) ∷ [] else [])
    ++ type_line_names lines

record Keeps (s s' : Scan) : Type 0 where
  types : s'.types ≡ s.types
  name : current_name s'.current_type ≡ current_name s.current_type

module _ (s : Scan) where
  Keeps-refl : Keeps s s
  Keeps-refl = record { types = refl; name = refl }

  enter-Keeps : (o : Option Section) → Keeps s (enter o s)
  enter-Keeps none = Keeps-refl
  enter-Keeps (some section) = record { types = refl; name = refl }

  module _ (kv : Text) (t : ParsedType) (e : s.current_type ≡ some t) where
    flush-name : (p : Option Text) (body : List Text) → (flush p body t).name ≡ t.name
    flush-name none body = refl
    flush-name (some p) body = ground arith

    entry-Keeps : (section : Section) → Keeps s (entry section kv t s)
    unfolding entry current_name
    entry-Keeps attributes = ground arith
    entry-Keeps relations = ground arith
    entry-Keeps permissions = ground (arith, flush-name s.current_permission s.permission_body)

    set_relation_types-name :
        (r : Option Text) (types : List Text) → (set_relation_types r types t).name ≡ t.name
    set_relation_types-name none types = refl
    set_relation_types-name (some r) types = refl

    detail-Keeps : (section : Section) → Keeps s (detail section kv t s)
    unfolding detail current_name
    detail-Keeps attributes = ground arith
    detail-Keeps relations =
        ground (arith, set_relation_types-name s.current_relation (type_list (trim (drop 6 kv))))
    detail-Keeps permissions = ground arith

  within-Keeps :
      (o : Option ParsedType) (section : Option Section) (f : Section → ParsedType → Scan)
      → ((t : ParsedType) → o ≡ some t → (σ : Section) → Keeps s (f σ t))
      → Keeps s (within o section f s)
  within-Keeps (some t) (some σ) f h = h t refl σ
  within-Keeps (some t) none f h = Keeps-refl
  within-Keeps none section f h = Keeps-refl

  if-Keeps : (b : Bool) (x y : Scan) → Keeps s x → Keeps s y → Keeps s (if b then x else y)
  if-Keeps true x y h k = h
  if-Keeps false x y h k = k

  step-Keeps : (line : Text) → is_type_line line ≡ false → Keeps s (step s line)
  unfolding step
  step-Keeps line no_type =
      let kv : Text = trim (trim_end line) in
      rw no_type (
        if-Keeps _ _ _ (enter-Keeps (section_of (drop_last kv))) (
          if-Keeps _ _ _
            (within-Keeps s.current_type s.current_section (λ σ t. entry σ kv t s) (entry-Keeps kv))
            (if-Keeps _ _ _
              (within-Keeps s.current_type s.current_section (λ σ t. detail σ kv t s)
                (detail-Keeps kv))
              (if-Keeps _ _ _ (record { types = refl; name = refl }) Keeps-refl))))

  push_current-names :
      (o : Option ParsedType)
      → viewer_names (push_current o s.types) ≡ viewer_names s.types ++ current_name o
  unfolding viewer_names current_name
  push_current-names none = sym (append-nil _)
  push_current-names (some t) = map-append (λ t. t.name) s.types (t ∷ [])

  shown-step_type :
      (line : Text)
      → is_type_line line ≡ true
      → shown (step s line) ≡ shown s ++ drop_last (drop 2 (trim_end line)) ∷ []
  unfolding step shown current_name
  shown-step_type line opens = rw opens (
      ap (λ names. names ++ drop_last (drop 2 (trim_end line)) ∷ [])
        (push_current-names s.current_type))

  finish-names : viewer_names (finish s) ≡ shown s
  unfolding finish shown viewer_names current_name
  finish-names = elim (Option-cases s.current_type) [
    | inl absent ↦ rw absent (sym (append-nil _))
    | inr (t, present) ↦ rw present (
        map-append (λ (u : ParsedType). u.name) s.types
          (flush s.current_permission s.permission_body t ∷ [])
        ∙ ap (λ name. viewer_names s.types ++ name ∷ [])
            (flush-name [] t present s.current_permission s.permission_body))
  ]

scan-shown :
    (s : Scan) (lines : List Text) → shown (scan s lines) ≡ shown s ++ type_line_names lines
unfolding scan type_line_names
scan-shown s [] = sym (append-nil _)
scan-shown s (line ∷ lines) = elim (Bool-cases (is_type_line line)) [
  | inl opens ↦ rw opens (
      scan-shown (step s line) lines
      ∙ ap (λ names. names ++ type_line_names lines) (shown-step_type s line opens)
      ∙ append_assoc (shown s) (drop_last (drop 2 (trim_end line)) ∷ []) (type_line_names lines))
  | inr no_type ↦ rw no_type (
      scan-shown (step s line) lines
      ∙ ap (λ names. names ++ type_line_names lines)
          (unfold shown in (let k = step-Keeps s line no_type in cc (k.types, k.name))))
]

-- For every source, the viewer shows one type for each line that is indented by two and ends with
-- a colon, in their order and under the names on those lines, whether or not the line stands in
-- the section `types`.
pub viewer_shows_type_lines :
    (source : Text) → viewer_names (parse_yaml_simple source) ≡ type_line_names (split 10 source)
unfolding parse_yaml_simple shown viewer_names current_name
viewer_shows_type_lines source =
    finish-names (scan start (split 10 source)) ∙ scan-shown start (split 10 source)
