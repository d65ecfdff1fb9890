-- ===== src/Schema/EvaluatorParser.antt =====
-- `parseSchemaTypeInfos` of console/src/components/schema/schema-evaluator.tsx. `currentType` is
-- the last element of `result` where it is not null, and is kept as a flag.
use zanguard.Prelude.{
  ℕ, Bool, true, false, not, ◌&&◌, List, [], ◌∷◌, ◌==◌, if◌then◌else◌, push, modify_last,
}
use zanguard.Js.Text.{Text, text, same, is_empty, trim, ends_with, split}
use zanguard.Schema.Lines.{colon, is_skipped, indent_of, key_of}

pub record SchemaTypeInfo : Type 0 where
  pub name : Text
  pub permissions : List Text

pub record Scan : Type 0 where
  pub in_types_section : Bool
  pub current_type : Bool
  pub in_permissions : Bool
  pub result : List SchemaTypeInfo

abbrev pub start : Scan
start = record {
  in_types_section = false;
  current_type = false;
  in_permissions = false;
  result = [];
}

abbrev pub add_permission : Text → SchemaTypeInfo → SchemaTypeInfo
add_permission p t = record t { permissions = push t.permissions p }

-- The body of the loop over the lines, from `if (indent === 0)` on; `continue` returns the state.
unfoldable pub step_line : Scan → ℕ → Text → Scan
step_line s indent line =
    if indent == 0
    then record s {
      in_types_section = same line (text "types:");
      current_type = false;
      in_permissions = false;
    }
    else if not s.in_types_section
    then s
    else if indent == 2 && ends_with colon line
    then if is_empty (key_of line) then s else record s {
      current_type = true;
      in_permissions = false;
      result = push s.result (record { name = key_of line; permissions = [] });
    }
    else if not s.current_type
    then s
    else if indent == 4 && ends_with colon line
    then record s { in_permissions = same (key_of line) (text "permissions") }
    else if s.in_permissions && indent == 6 && ends_with colon line
    then record s { result = modify_last (add_permission (key_of line)) s.result }
    else s

unfoldable pub step : Scan → Text → Scan
step s raw_line =
    if is_skipped raw_line then s else step_line s (indent_of raw_line) (trim raw_line)

unfoldable pub scan : Scan → List Text → Scan
scan s [] = s
scan s (raw_line ∷ lines) = scan (step s raw_line) lines

unfoldable pub parse_schema_type_infos : Text → List SchemaTypeInfo
parse_schema_type_infos source = (scan start (split 10 source)).result
