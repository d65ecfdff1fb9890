-- ===== src/Tests/Schemas.antt =====
-- The scanners and the graph at sample schemas.
use zanguard.Prelude.{◌≡◌, refl, true, false, none, some, [], ◌∷◌, All, map}
use zanguard.Js.Text.{
  text, same, is_space, trim_start, trim_end, trim, starts_with, ends_with, drop_last, split,
  includes, before, after, join,
}
use zanguard.Js.Maps
use zanguard.Js.Maps.{insert_all}
use zanguard.Js.Objects
use zanguard.Js.Objects.{assign}
use zanguard.Js.Sets.{member, is_distinct}
use zanguard.Schema.Lines.{
  is_skipped, indent_of, key_of, strip_quotes, strip_last_quote, parse_inline_list,
}
use zanguard.Schema.GraphParser
use zanguard.Schema.GraphParser.{parse_types}
use zanguard.Schema.DialogParser
use zanguard.Schema.DialogParser.{parse_schema_types}
use zanguard.Schema.EvaluatorParser.{parse_schema_type_infos}
use zanguard.Schema.ViewerParser
use zanguard.Schema.ViewerParser.{parse_yaml_simple, finish}
use zanguard.Schema.ViewerParser.Names.{viewer_names, type_line_names, viewer_shows_type_lines}
use zanguard.Schema.Agreement.TypeMaps.{to_type}
use zanguard.Schema.Agreement.Graph.{graph_types-eq-dialog_types}
use zanguard.Schema.Agreement.Names.{evaluator_names, dialog_names, evaluator_types-eq-dialog_types}
use zanguard.Graph.{
  build_graph, build_of, types_by_name, add_types, add_type, add_relations, add_targets, add_target,
  add_node, push_at, make_edge, make_edges,
}
use zanguard.Graph.Sound.{Marked}
use zanguard.Graph.Edges.{
  EndsAt, node_ids, graph_edges_end_at_nodes, graph_nodes_distinct, graph_nodes-Marked,
}
use zanguard.Tests.Sources.{small, two_permissions}

js : Unit {0}
unfolding same is_space trim_start trim_end trim starts_with ends_with drop_last split includes
    before after join is_skipped indent_of key_of strip_quotes strip_last_quote parse_inline_list
    Maps.get Maps.set Maps.modify
js = tt

graph_scan : Unit {0}
unfolding js GraphParser.step_in_relation GraphParser.step_in_type GraphParser.step_line
    GraphParser.step GraphParser.scan parse_types
graph_scan = tt

small-build_graph : build_graph small ≡ (
  record { id = text "type:user"; label = text "user"; is_external = false; rel_count = 0 }
      ∷ record { id = text "type:doc"; label = text "doc"; is_external = false; rel_count = 1 }
      ∷ record { id = text "type:team"; label = text "team"; is_external = true; rel_count = 0 }
      ∷ [],
  record {
    id = text "edge:doc→user";
    source = text "type:doc";
    target = text "type:user";
    label = text "viewer";
  }
      ∷ record {
        id = text "edge:doc→team";
        source = text "type:doc";
        target = text "type:team";
        label = text "viewer";
      }
      ∷ [],
)
unfolding graph_scan build_graph build_of types_by_name add_types add_type add_relations add_targets
    add_target add_node push_at make_edge make_edges member insert_all Maps.has
small-build_graph = refl

small-agree : map to_type (parse_schema_types small) ≡ parse_types small
unfolding graph_scan DialogParser.step_in_relation DialogParser.step_in_type DialogParser.step_line
    DialogParser.step DialogParser.scan parse_schema_types
small-agree = refl

graph_types-eq-dialog_types_example :
    parse_types small
    ≡ Maps.values (insert_all (λ t. t.name) [] (map to_type (parse_schema_types small)))
graph_types-eq-dialog_types_example = graph_types-eq-dialog_types small

evaluator_types-eq-dialog_types_example :
    evaluator_names (parse_schema_type_infos small) ≡ dialog_names (parse_schema_types small)
evaluator_types-eq-dialog_types_example = evaluator_types-eq-dialog_types small

viewer_shows_type_lines_example :
    viewer_names (parse_yaml_simple small) ≡ type_line_names (split 10 small)
viewer_shows_type_lines_example = viewer_shows_type_lines small

graph_edges_end_at_nodes_example :
    All (EndsAt (node_ids (build_graph small).0)) (build_graph small).1
unfolding graph_scan
graph_edges_end_at_nodes_example = graph_edges_end_at_nodes small (refl, (refl, tt))

graph_nodes_distinct_example : is_distinct (node_ids (build_graph small).0) ≡ true
graph_nodes_distinct_example = graph_nodes_distinct small

graph_nodes-Marked_example : All (Marked (types_by_name (parse_types small))) (build_graph small).0
graph_nodes-Marked_example = graph_nodes-Marked small

view_scan : Unit {0}
unfolding js ViewerParser.is_type_line ViewerParser.section_of ViewerParser.type_list
    ViewerParser.entry ViewerParser.detail ViewerParser.step ViewerParser.scan finish
    parse_yaml_simple assign Objects.put
view_scan = tt

two_permissions-parse_yaml_simple :
    map (λ t. t.permissions) (parse_yaml_simple two_permissions)
    ≡ none ∷ some ((text "view", text "union:") ∷ []) ∷ []
unfolding view_scan
two_permissions-parse_yaml_simple = refl
