-- ===== src/Schema/DialogParser.antt =====
-- `parseSchemaTypes` of console/src/components/tuples/create-tuple-dialog.tsx. `currentType` is
-- always the last element of `result`, and `currentRelation` the last of its relations, where they
-- are not null: the references are flags, and a write through one changes the last element.
use zanguard.Prelude.{
  ℕ, Bool, true, false, not, ◌&&◌, List, [], ◌∷◌, ◌++◌, ◌==◌, leb, if◌then◌else◌, push, modify_last,
  drop,
}
use zanguard.Js.Text.{Text, text, same, is_empty, trim, starts_with, ends_with, split}
use zanguard.Schema.Lines.{colon, is_skipped, indent_of, key_of, strip_quotes, parse_inline_list}

pub record SchemaRelation : Type 0 where
  pub name : Text
  pub allowed_types : List Text

pub record SchemaTypeInfo : Type 0 where
  pub name : Text
  pub relations : List SchemaRelation

pub record Scan : Type 0 where
  pub in_types_section : Bool
  pub current_type : Bool
  pub in_relations : Bool
  pub current_relation : Bool
  pub collecting : Bool
  pub result : List SchemaTypeInfo

abbrev pub start : Scan
start = record {
  in_types_section = false;
  current_type = false;
  in_relations = false;
  current_relation = false;
  collecting = false;
  result = [];
}

abbrev pub add_relation : SchemaRelation → SchemaTypeInfo → SchemaTypeInfo
add_relation r t = record t { relations = push t.relations r }

abbrev pub allow : List Text → SchemaRelation → SchemaRelation
allow names r = record r { allowed_types = r.allowed_types ++ names }

abbrev pub allow_in_last : List Text → SchemaTypeInfo → SchemaTypeInfo
allow_in_last names t = record t { relations = modify_last (allow names) t.relations }

-- `currentRelation.allowedTypes.push(...names)`
abbrev pub allow_more : List Text → Scan → Scan
allow_more names s = record s { result = modify_last (allow_in_last names) s.result }

-- The end of the body, behind `if (!currentRelation) continue`.
unfoldable pub step_in_relation : Scan → ℕ → Text → Scan
step_in_relation s indent line =
    if indent == 8 && starts_with (text "types:") line
    then if is_empty (trim (drop 6 line))
      then record s { collecting = true }
      else allow_more (parse_inline_list (trim (drop 6 line))) (record s { collecting = false })
    else if s.collecting && leb 10 indent && starts_with (text "-") line
    then if is_empty (trim (drop 1 line))
      then s
      else allow_more (strip_quotes (trim (drop 1 line)) ∷ []) s
    else if leb indent 8
    then record s { collecting = false }
    else s

-- The rest of the body, behind `if (!currentType) continue`.
unfoldable pub step_in_type : Scan → ℕ → Text → Scan
step_in_type s indent line =
    if indent == 4 && ends_with colon line
    then record s {
      in_relations = same (key_of line) (text "relations");
      current_relation = false;
      collecting = false;
    }
    else if not s.in_relations
    then s
    else if indent == 6 && ends_with colon line
    then record s {
      current_relation = true;
      collecting = false;
      result =
          modify_last (add_relation (record { name = key_of line; allowed_types = [] })) s.result;
    }
    else if not s.current_relation
    then s
    else step_in_relation s indent line

-- The body of the loop over the lines, up to `if (!currentType) continue`; `continue` returns the state.
unfoldable pub step_line : Scan → ℕ → Text → Scan
step_line s indent line =
    if indent == 0
    then record s {
      in_types_section = same line (text "types:");
      current_type = false;
      in_relations = false;
      current_relation = false;
      collecting = false;
    }
    else if not s.in_types_section
    then s
    else if indent == 2 && ends_with colon line
    then if is_empty (key_of line) then s else record s {
      current_type = true;
      in_relations = false;
      current_relation = false;
      collecting = false;
      result = push s.result (record { name = key_of line; relations = [] });
    }
    else if not s.current_type
    then s
    else step_in_type s indent line

unfoldable pub step : Scan → Text → Scan
step s raw_line =
    if is_skipped raw_line then s else step_line s (indent_of raw_line) (trim raw_line)

unfoldable pub scan : Scan → List Text → Scan
scan s [] = s
scan s (raw_line ∷ lines) = scan (step s raw_line) lines

unfoldable pub parse_schema_types : Text → List SchemaTypeInfo
parse_schema_types source = (scan start (split 10 source)).result
