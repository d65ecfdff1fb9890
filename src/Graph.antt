-- ===== src/Graph.antt =====
-- `buildGraph` of console/src/components/schema/schema-graph.tsx, up to the layout: the nodes and
-- edges with what is shown on them. Markers, colours and sizes are constants, and `dagre` only adds
-- positions; neither is modelled.
pub mod Keys
pub mod Sound
pub mod Edges
pub mod View
use zanguard.Prelude.{
  ℕ, Bool, true, false, not, Option, none, some, List, [], ◌∷◌, ◌++◌, map, if◌then◌else◌, push,
  length, any,
}
use zanguard.Js.Text.{Text, text, same, is_empty, before, after, join}
use zanguard.Js.Sets.{member}
use zanguard.Js.Maps
use zanguard.Js.Maps.{Map}
use zanguard.Schema.GraphParser.{ParsedType, ParsedRelation, parse_types}

pub record Node : Type 0 where
  pub id : Text
  pub label : Text
  pub is_external : Bool
  pub rel_count : ℕ

pub record Edge : Type 0 where
  pub id : Text
  pub source : Text
  pub target : Text
  pub label : Text

-- The variables of `buildGraph`; the `Set` of added types is a list.
pub record Build : Type 0 where
  pub nodes : List Node
  pub added_types : List Text
  pub edge_relations : Map (List Text)

-- "\u2192"
abbrev pub arrow : ℕ
arrow = 0x2192

abbrev pub type_id : Text → Text
type_id name = text "type:" ++ name

-- `if (!addedTypes.has(name)) { addedTypes.add(name); nodes.push(…) }`
unfoldable pub add_node : Text → Bool → ℕ → Build → Build
add_node name is_external rel_count b = if member name b.added_types then b else record b {
  added_types = push b.added_types name;
  nodes = push b.nodes (record {
    id = type_id name;
    label = name;
    is_external = is_external;
    rel_count = rel_count;
  });
}

abbrev pub edge_key : Text → Text → Text
edge_key source target = source ++ arrow ∷ target

abbrev pub create_at : Text → Map (List Text) → Map (List Text)
create_at k m = if Maps.has k m then m else Maps.set k [] m

-- `if (!m.has(k)) m.set(k, []); m.get(k).push(r)`
unfoldable pub push_at : Text → Text → Map (List Text) → Map (List Text)
push_at k r m = Maps.modify k (λ rs. push rs r) (create_at k m)

abbrev pub is_undefined {ℓ} : {A : Type ℓ} → Option A → Bool
is_undefined none = true
is_undefined (some a) = false

abbrev pub relation_count : Option ParsedType → ℕ
relation_count none = 0
relation_count (some t) = length t.relations

-- `new Map(parsedTypes.map((t) => [t.name, t]))`
unfoldable pub types_by_name : List ParsedType → Map ParsedType
types_by_name ts = Maps.insert_all (λ t. t.name) [] ts

module _ (by_name : Map ParsedType) where
  -- The body of the loop over `relation.targets`.
  unfoldable pub add_target : Text → Text → Build → Text → Build
  add_target type_name relation b target =
      let target_type = before b'#' target in
      let def = Maps.get target_type by_name in
      let b' = add_node target_type (is_undefined def) (relation_count def) b in
      if is_empty target_type then b else record b' {
        edge_relations = push_at (edge_key type_name target_type) relation b'.edge_relations;
      }

  unfoldable pub add_targets : Text → Text → Build → List Text → Build
  add_targets type_name relation b [] = b
  add_targets type_name relation b (target ∷ targets) =
      add_targets type_name relation (add_target type_name relation b target) targets

  unfoldable pub add_relations : Text → Build → List ParsedRelation → Build
  add_relations type_name b [] = b
  add_relations type_name b (r ∷ rs) =
      add_relations type_name (add_targets type_name r.relation b r.targets) rs

  -- The body of the loop over `parsedTypes`.
  unfoldable pub add_type : Build → ParsedType → Build
  add_type b t = add_relations t.name (add_node t.name false (length t.relations) b) t.relations

  unfoldable pub add_types : Build → List ParsedType → Build
  add_types b [] = b
  add_types b (t ∷ ts) = add_types (add_type b t) ts

-- The body of the loop over `edgeRelations.entries()`.
unfoldable pub make_edge : Text → List Text → Edge
make_edge key rel_names = record {
  id = text "edge:" ++ key;
  source = type_id (before arrow key);
  target = type_id (after arrow key);
  label = join (text ", ") rel_names;
}

unfoldable pub make_edges : Map (List Text) → List Edge
make_edges [] = []
make_edges ((key, rel_names) ∷ entries) = make_edge key rel_names ∷ make_edges entries

abbrev pub empty_build : Build
empty_build = record { nodes = []; added_types = []; edge_relations = [] }

unfoldable pub build_of : List ParsedType → Build
build_of parsed_types = add_types (types_by_name parsed_types) empty_build parsed_types

unfoldable pub build_graph : Text → List Node × List Edge
build_graph source = let b = build_of (parse_types source) in (b.nodes, make_edges b.edge_relations)
