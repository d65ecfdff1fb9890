-- ===== src/Schema/Viewer.antt =====
-- `SchemaViewer` of console/src/components/schema/schema-viewer.tsx.
use zanguard.Prelude.{List, [], ◌∷◌, map, or_else, if◌then◌else◌}
use zanguard.Js.Text.{Text, text, is_empty}
use zanguard.Schema.ViewerParser.{ParsedType, parse_yaml_simple}

-- The card of a type. A table without rows is not shown.
pub record TypeCard : Type 0 where
  pub title : Text
  pub attributes : List (Text × Text)
  pub relations : List (Text × List Text)
  pub permissions : List (Text × Text)

-- `def.raw || JSON.stringify(def)`, where `raw` is the only field of `def`.
unfoldable pub shown_definition : Text → Text
shown_definition raw = if is_empty raw then text "{\"raw\":\"\"}" else raw

abbrev permission_row : Text × Text → Text × Text
permission_row (name, raw) = (name, shown_definition raw)

unfoldable pub type_card : ParsedType → TypeCard
type_card t = record {
  title = t.name;
  attributes = or_else t.attributes [];
  relations = or_else t.relations [];
  permissions = map permission_row (or_else t.permissions []);
}

pub data ViewerView : Type 0 where
  unable : ViewerView
  cards : List TypeCard → ViewerView

abbrev view_of : List ParsedType → ViewerView
view_of [] = unable
view_of (t ∷ ts) = cards (map type_card (t ∷ ts))

unfoldable pub schema_viewer : Text → ViewerView
schema_viewer source = view_of (parse_yaml_simple source)
