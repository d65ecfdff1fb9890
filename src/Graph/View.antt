-- ===== src/Graph/View.antt =====
-- `TypeNode` and `SchemaGraph` of console/src/components/schema/schema-graph.tsx.
use zanguard.Prelude.{ℕ, Bool, List, [], ◌∷◌, ◌++◌, if◌then◌else◌, ◌==◌, ltb}
use zanguard.Js.Text.{Text, text}
use zanguard.Js.Numbers.{show_number}
use zanguard.Graph.{Node, Edge, build_graph}

pub record TypeNodeView : Type 0 where
  pub dashed : Bool
  pub label : Text
  pub subtitle : Text

abbrev relations_text : ℕ → Text
relations_text n =
    if ltb 0 n
    then show_number n ++ text " relation" ++ (if n == 1 then [] else text "s")
    else text "no relations"

unfoldable pub type_node : Node → TypeNodeView
type_node d = record {
  dashed = d.is_external;
  label = d.label;
  subtitle = if d.is_external then text "external" else relations_text d.rel_count;
}

pub data GraphView : Type 0 where
  unable : GraphView
  graph : List Node → List Edge → GraphView

abbrev view_of : List Node → List Edge → GraphView
view_of [] edges = unable
view_of (n ∷ nodes) edges = graph (n ∷ nodes) edges

unfoldable pub schema_graph : Text → GraphView
schema_graph source = view_of (build_graph source).0 (build_graph source).1
