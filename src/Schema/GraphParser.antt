-- ===== src/Schema/GraphParser.antt =====
-- `parseTypes` of console/src/components/schema/schema-graph.tsx. `parsed` is a `Map` by name. The
-- current type is the value that `parsed` holds under its name, so the reference to it is that
-- name; the current relation is the last relation of that type, so the reference to it is a flag.
use zanguard.Prelude.{
  ℕ, Bool, true, false, not, ◌&&◌, Option, none, some, List, [], ◌∷◌, ◌++◌, ◌==◌, leb,
  if◌then◌else◌, push, modify_last, drop,
}
use zanguard.Js.Text.{Text, text, same, is_empty, trim, starts_with, ends_with, split}
use zanguard.Js.Maps
use zanguard.Js.Maps.{Map}
use zanguard.Schema.Lines.{colon, is_skipped, indent_of, key_of, strip_quotes, parse_inline_list}

pub record ParsedRelation : Type 0 where
  pub relation : Text
  pub targets : List Text

pub record ParsedType : Type 0 where
  pub name : Text
  pub relations : List ParsedRelation

pub record Scan : Type 0 where
  pub in_types_section : Bool
  pub current_type : Option Text
  pub in_relations : Bool
  pub current_relation : Bool
  pub collecting : Bool
  pub parsed : Map ParsedType

abbrev pub start : Scan
start = record {
  in_types_section = false;
  current_type = none;
  in_relations = false;
  current_relation = false;
  collecting = false;
  parsed = [];
}

abbrev pub add_relation : ParsedRelation → ParsedType → ParsedType
add_relation r t = record t { relations = push t.relations r }

abbrev pub add_targets : List Text → ParsedRelation → ParsedRelation
add_targets names r = record r { targets = r.targets ++ names }

abbrev pub add_targets_in_last : List Text → ParsedType → ParsedType
add_targets_in_last names t = record t { relations = modify_last (add_targets names) t.relations }

-- `currentRelation.targets.push(...names)`
abbrev pub target_more : List Text → Scan → Scan
target_more names s = record s {
  parsed = Maps.modify_at s.current_type (add_targets_in_last names) s.parsed;
}

abbrev pub is_null {ℓ} : {A : Type ℓ} → Option A → Bool
is_null none = true
is_null (some a) = false

-- The end of the body, behind `if (!currentRelation) continue`.
unfoldable pub step_in_relation : Scan → ℕ → Text → Scan
step_in_relation s indent line =
    if indent == 8 && starts_with (text "types:") line
    then if is_empty (trim (drop 6 line))
      then record s { collecting = true }
      else target_more (parse_inline_list (trim (drop 6 line))) (record s { collecting = false })
    else if s.collecting && leb 10 indent && starts_with (text "-") line
    then if is_empty (trim (drop 1 line))
      then s
      else target_more (strip_quotes (trim (drop 1 line)) ∷ []) s
    else if leb indent 8
    then record s { collecting = false }
    else s

-- The rest of the body, behind `if (!currentType) continue`.
unfoldable pub step_in_type : Scan → ℕ → Text → Scan
step_in_type s indent line =
    if indent == 4 && ends_with colon line
    then record s {
      in_relations = same (key_of line) (text "relations");
      current_relation = false;
      collecting = false;
    }
    else if not s.in_relations
    then s
    else if indent == 6 && ends_with colon line
    then record s {
      current_relation = true;
      collecting = false;
      parsed =
          Maps.modify_at s.current_type
            (add_relation (record { relation = key_of line; targets = [] })) s.parsed;
    }
    else if not s.current_relation
    then s
    else step_in_relation s indent line

-- The body of the loop over the lines, up to `if (!currentType) continue`; `continue` returns the state.
unfoldable pub step_line : Scan → ℕ → Text → Scan
step_line s indent line =
    if indent == 0
    then record s {
      in_types_section = same line (text "types:");
      current_type = none;
      in_relations = false;
      current_relation = false;
      collecting = false;
    }
    else if not s.in_types_section
    then s
    else if indent == 2 && ends_with colon line
    then if is_empty (key_of line) then s else record s {
      current_type = some (key_of line);
      in_relations = false;
      current_relation = false;
      collecting = false;
      parsed = Maps.set (key_of line) (record { name = key_of line; relations = [] }) s.parsed;
    }
    else if is_null s.current_type
    then s
    else step_in_type s indent line

unfoldable pub step : Scan → Text → Scan
step s raw_line =
    if is_skipped raw_line then s else step_line s (indent_of raw_line) (trim raw_line)

unfoldable pub scan : Scan → List Text → Scan
scan s [] = s
scan s (raw_line ∷ lines) = scan (step s raw_line) lines

-- `Array.from(parsed.values())`
unfoldable pub parse_types : Text → List ParsedType
parse_types source = Maps.values (scan start (split 10 source)).parsed
