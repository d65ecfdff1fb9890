-- ===== src/Schema/ViewerParser.antt =====
-- `parseYamlSimple` of console/src/components/schema/schema-viewer.tsx. Nothing in its body throws,
-- so its `catch` has no case here. A relation's value is the list in its field `types`; a
-- permission's value is the text in its field `raw`.
pub mod Names
pub mod Pending
use zanguard.Prelude.{
  ℕ, ◌-◌, Bool, true, false, not, ◌&&◌, Option, none, some, List, [], ◌∷◌, map, ◌==◌, ◌||◌,
  if◌then◌else◌, push, drop, length, select, or_else, is_nil,
}
use zanguard.Js.Text.{
  Text, text, same, is_empty, trim, trim_start, trim_end, starts_with, ends_with, drop_last,
  includes, split, join, before, after,
}
use zanguard.Js.Objects.{Object, assign, property}
use zanguard.Schema.Lines.{colon, indent_of}

pub data Section : Type 0 where
  attributes relations permissions : Section

pub record ParsedType : Type 0 where
  pub name : Text
  pub attributes : Option (Object Text)
  pub relations : Option (Object (List Text))
  pub permissions : Option (Object Text)

pub record Scan : Type 0 where
  pub types : List ParsedType
  pub current_type : Option ParsedType
  pub current_section : Option Section
  pub current_relation : Option Text
  pub current_permission : Option Text
  pub permission_body : List Text

abbrev pub start : Scan
start = record {
  types = [];
  current_type = none;
  current_section = none;
  current_relation = none;
  current_permission = none;
  permission_body = [];
}

abbrev pub new_type : Text → ParsedType
new_type name = record { name = name; attributes = none; relations = none; permissions = none }

-- `if (!o) o = {}; o[k] = v`
abbrev pub assign_in {ℓ} : {V : Type ℓ} → Text → V → Option (Object V) → Option (Object V)
assign_in k v o = some (assign k v (or_else o []))

-- `if (currentType) types.push(currentType)`
abbrev pub push_current : Option ParsedType → List ParsedType → List ParsedType
push_current none ts = ts
push_current (some t) ts = push ts t

-- The pending permission, where its name is neither null nor empty and its body is not empty.
abbrev pub flush : Option Text → List Text → ParsedType → ParsedType
flush none body t = t
flush (some p) body t =
    if is_empty p || is_nil body
    then t
    else record t { permissions = assign_in p (join (10 ∷ []) body) t.permissions }

unfoldable pub section_of : Text → Option Section
section_of s =
    if same s (text "attributes")
    then some attributes
    else if same s (text "relations")
    then some relations
    else if same s (text "permissions")
    then some permissions
    else none

abbrev pub enter : Option Section → Scan → Scan
enter none s = s
enter (some section) s = record s {
  current_section = some section;
  current_relation = none;
  current_permission = none;
}

-- An entry of a section, `kv` being the trimmed line of indent 6.
unfoldable pub entry : Section → Text → ParsedType → Scan → Scan
entry attributes kv t s =
    if includes colon kv
    then record s {
      current_type = some (record t {
        attributes =
            assign_in (trim (before colon kv)) (trim (before colon (after colon kv))) t.attributes;
      });
    }
    else s
entry relations kv t s =
    if ends_with colon kv
    then record s {
      current_relation = some (drop_last kv);
      current_type = some (record t { relations = assign_in (drop_last kv) [] t.relations });
    }
    else s
entry permissions kv t s =
    if ends_with colon kv
    then record s {
      current_type = some (flush s.current_permission s.permission_body t);
      current_permission = some (drop_last kv);
      permission_body = [];
    }
    else s

-- `typesStr.replace(/[\[\]]/g, "").split(",").map((s) => s.trim()).filter(Boolean)`
unfoldable pub type_list : Text → List Text
type_list types_str =
    select (λ s. not (is_empty s))
      (map trim (split b',' (select (λ u. not (u == b'[' || u == b']')) types_str)))

abbrev pub is_truthy : Option Text → Bool
is_truthy none = false
is_truthy (some s) = not (is_empty s)

-- `if (relations?.[r]) relations[r].types = types`
abbrev pub set_types : Text → List Text → Object (List Text) → Object (List Text)
set_types r types o = elim (property r o) [ none ↦ o | some old ↦ assign r types o ]

abbrev pub set_relation_types : Option Text → List Text → ParsedType → ParsedType
set_relation_types none types t = t
set_relation_types (some r) types t = record t {
  relations = elim t.relations [ none ↦ none | some o ↦ some (set_types r types o) ];
}

-- A line of indent 8 in a section.
unfoldable pub detail : Section → Text → ParsedType → Scan → Scan
detail attributes kv t s = s
detail relations kv t s =
    if is_truthy s.current_relation && starts_with (text "types:") kv
    then record s {
      current_type = some (set_relation_types s.current_relation (type_list (trim (drop 6 kv))) t);
    }
    else s
detail permissions kv t s =
    if is_truthy s.current_permission
    then record s { permission_body = push s.permission_body kv }
    else s

-- `currentType && currentSection`
abbrev pub within : Option ParsedType → Option Section → (Section → ParsedType → Scan) → Scan → Scan
within (some t) (some section) f s = f section t
within _ _ f s = s

abbrev pub is_permissions : Option Section → Bool
is_permissions (some permissions) = true
is_permissions _ = false

-- The test of a type's line.
unfoldable pub is_type_line : Text → Bool
is_type_line line =
    indent_of line == 2
    && not (starts_with (text "-") (trim_end line))
    && ends_with colon (trim_end line)

-- The body of the loop over the lines.
unfoldable pub step : Scan → Text → Scan
step s line =
    let trimmed = trim_end line in
    let kv = trim trimmed in
    if is_type_line line
    then record s {
      types = push_current s.current_type s.types;
      current_type = some (new_type (drop_last (drop 2 trimmed)));
      current_section = none;
    }
    else if indent_of line == 4 && ends_with colon kv
    then enter (section_of (drop_last kv)) s
    else if indent_of line == 6
    then within s.current_type s.current_section (λ section t. entry section kv t s) s
    else if indent_of line == 8
    then within s.current_type s.current_section (λ section t. detail section kv t s) s
    else if indent_of line == 10 && is_permissions s.current_section
    then record s { permission_body = push s.permission_body kv }
    else s

unfoldable pub scan : Scan → List Text → Scan
scan s [] = s
scan s (line ∷ lines) = scan (step s line) lines

-- What stands behind the loop.
unfoldable pub finish : Scan → List ParsedType
finish s = elim s.current_type [
  | none ↦ s.types
  | some t ↦ push s.types (flush s.current_permission s.permission_body t)
]

unfoldable pub parse_yaml_simple : Text → List ParsedType
parse_yaml_simple source = finish (scan start (split 10 source))
