-- ===== src/Schema/ViewerParser/Pending.antt =====
-- What the viewer does with a permission whose body is still pending when the next type begins.
use zanguard.Prelude.{◌≡◌, true, false, ◌||◌, ◌==◌, List, [], ◌∷◌, All, none, some, drop, map}
use zanguard.Js.Text.{Text, text, same, trim, trim_end, drop_last, ends_with, is_empty, join}
use zanguard.Js.Objects.{proto}
use zanguard.Schema.Lines.{colon, indent_of}
use zanguard.Schema.ViewerParser.{ParsedType, Scan, permissions, new_type, is_type_line}

-- The text of a line, and the name on the line of a type or of a permission.
abbrev pub content : Text → Text
content line = trim (trim_end line)

abbrev pub type_name : Text → Text
type_name line = drop_last (drop 2 (trim_end line))

abbrev pub permission_name : Text → Text
permission_name line = drop_last (content line)

-- A line of a permission's body.
abbrev pub IsBody : Text → Type 0
IsBody line = (indent_of line == 8 || indent_of line == 10) ≡ true

-- The state within a permission of a type.
abbrev within_permission : List ParsedType → ParsedType → Text → List Text → Scan
within_permission ts t p body = record {
  types = ts;
  current_type = some t;
  current_section = some permissions;
  current_relation = none;
  current_permission = some p;
  permission_body = body;
}

-- A line outside the types: an empty one, or one that is not indented.
abbrev pub IsOutside : Text → Type 0
IsOutside line = indent_of line ≡ 0

-- A source ends with a type whose permission has a body, and one more type without sections.
pub record IsTail (opens section permission : Text) (body : List Text) (next : Text) : Type 0 where
  pub opens_type : is_type_line opens ≡ true
  pub section_indent : indent_of section ≡ 4
  pub section_name : content section ≡ text "permissions:"
  pub permission_indent : indent_of permission ≡ 6
  pub permission_colon : ends_with colon (content permission) ≡ true
  pub named : is_empty (permission_name permission) ≡ false
  pub safe : same (permission_name permission) proto ≡ false
  pub is_body : All IsBody body
  pub next_type : is_type_line next ≡ true

module _ (opens section permission first : Text) (body : List Text) (next : Text)
    (h : IsTail opens section permission (first ∷ body) next) where
  abbrev pub shown_body : Text
  shown_body = join (10 ∷ []) (map content (first ∷ body))

  abbrev pending_at : List ParsedType → Scan
  pending_at ts =
      within_permission ts (new_type (type_name opens)) (permission_name permission)
        (map content (first ∷ body))

  abbrev lines_of : List Text
  lines_of = opens ∷ section ∷ permission ∷ first ∷ body
