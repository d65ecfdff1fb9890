-- ===== src/Graph/Edges.antt =====
-- The graph that `buildGraph` returns is well formed: its nodes are distinct and marked rightly, and
-- its edges end at nodes.
use mathlib.Core.List.{append_assoc}
use zanguard.Prelude.{
  ◌≡◌, refl, ap, ◌∙◌, true, false, List, [], ◌∷◌, ◌++◌, arith, if◌then◌else◌, All,
}
use zanguard.Js.Text.{Text, same, same_refl, includes, before-append, after-append}
use zanguard.Js.Maps
use zanguard.Js.Maps.{Map, get-set, insert_all}
use zanguard.Schema.GraphParser.{ParsedType, parse_types}
use zanguard.Graph.{
  Node, Edge, arrow, type_id, edge_key, is_undefined, types_by_name, make_edge, make_edges,
  empty_build, build_of, build_graph,
}
use zanguard.Js.Sets.{member, is_distinct}
use zanguard.Graph.Sound.{Joined, Marked, Good, IsKnown, labels, add_types-Good}

IsKnown-set :
    (k : Text) (t : ParsedType) (m : Map ParsedType)
    → is_undefined (Maps.get k m) ≡ false
    → is_undefined (Maps.get k (Maps.set t.name t m)) ≡ false
IsKnown-set k t m h = ground (arith, get-set t.name k t m)

IsKnown-insert_all :
    (k : Text) (m : Map ParsedType) (ts : List ParsedType)
    → is_undefined (Maps.get k m) ≡ false
    → is_undefined (Maps.get k (insert_all (λ t. t.name) m ts)) ≡ false
unfolding insert_all
IsKnown-insert_all k m [] h = h
IsKnown-insert_all k m (t ∷ ts) h =
    IsKnown-insert_all k (Maps.set t.name t m) ts (IsKnown-set k t m h)

insert_all-IsKnown :
    (m : Map ParsedType) (ts : List ParsedType) → All (IsKnown (insert_all (λ t. t.name) m ts)) ts
unfolding insert_all
insert_all-IsKnown m [] = tt
insert_all-IsKnown m (t ∷ ts) = (
  IsKnown-insert_all t.name (Maps.set t.name t m) ts
      (ground (arith, get-set t.name t.name t m, same_refl t.name)),
  insert_all-IsKnown (Maps.set t.name t m) ts,
)

module _ (P : Text → Type 0) where
  build_of-Good :
      (ts : List ParsedType) → All (λ t. P t.name) ts → Good P (types_by_name ts) (build_of ts)
  unfolding build_of types_by_name
  build_of-Good ts h =
      add_types-Good P (types_by_name ts) empty_build ts h (insert_all-IsKnown [] ts) (record {
        labels_added = unfold labels in refl;
        marked = tt;
        distinct = unfold is_distinct in refl;
        joined = tt;
      })

All-trivial : (ts : List ParsedType) → All (λ t. Unit {0}) ts
All-trivial [] = tt
All-trivial (t ∷ ts) = (tt, All-trivial ts)

unfoldable pub node_ids : List Node → List Text
node_ids [] = []
node_ids (n ∷ ns) = n.id ∷ node_ids ns

module _ (by_name : Map ParsedType) where
  -- Nodes have an id as they have a label.
  member-node_ids :
      (x : Text) (ns : List Node)
      → All (Marked by_name) ns
      → member (type_id x) (node_ids ns) ≡ member x (labels ns)
  unfolding member node_ids labels same
  member-node_ids x [] h = refl
  member-node_ids x (n ∷ ns) ((e, _), h) =
      rw e (ap (λ b. if same n.label x then true else b) (member-node_ids x ns h))

  is_distinct-node_ids :
      (ns : List Node)
      → All (Marked by_name) ns
      → is_distinct (node_ids ns) ≡ is_distinct (labels ns)
  unfolding is_distinct node_ids labels
  is_distinct-node_ids [] h = refl
  is_distinct-node_ids (n ∷ ns) ((e, m), h) =
      rw e (cc (member-node_ids n.label ns h, is_distinct-node_ids ns h))

-- No two nodes of the graph of a source have the same id.
pub graph_nodes_distinct : (source : Text) → is_distinct (node_ids (build_graph source).0) ≡ true
unfolding build_graph
graph_nodes_distinct source =
    let ts = parse_types source in
    let g = build_of-Good (λ x. Unit) ts (All-trivial ts) in
    is_distinct-node_ids (types_by_name ts) (build_of ts).nodes g.marked
    ∙ ap is_distinct g.labels_added
    ∙ g.distinct

-- Each node of the graph of a source has the id of its label, and is marked external exactly if
-- `parseTypes` finds no type of that name in the source.
pub graph_nodes-Marked :
    (source : Text) → All (Marked (types_by_name (parse_types source))) (build_graph source).0
unfolding build_graph
graph_nodes-Marked source =
    (build_of-Good (λ x. Unit) (parse_types source) (All-trivial (parse_types source))).marked

-- Both ends of an edge are nodes.
abbrev pub EndsAt : List Text → Edge → Type 0
EndsAt ids e = (member e.source ids ≡ true) × (member e.target ids ≡ true)

abbrev pub IsArrowFree : ParsedType → Type 0
IsArrowFree t = includes arrow t.name ≡ false

make_edges-EndsAt :
    (ids added : List Text) (m : Map (List Text))
    → ((x : Text) → member (type_id x) ids ≡ member x added)
    → All (Joined (λ a. includes arrow a ≡ false) added) (Maps.keys m)
    → All (EndsAt ids) (make_edges m)
unfolding make_edges make_edge
make_edges-EndsAt ids added [] same_ids h = tt
make_edges-EndsAt ids added ((k, rs) ∷ m) same_ids ((a, b, e, free, p, q), h) = (
  (
    rw (e, before-append arrow a b free) (same_ids a ∙ p),
    rw (e, after-append arrow a b free) (same_ids b ∙ q),
  ),
  make_edges-EndsAt ids added m same_ids h,
)

-- If no declared type name holds the arrow character, every edge of the graph starts and ends at
-- one of its nodes.
pub graph_edges_end_at_nodes :
    (source : Text)
    → All IsArrowFree (parse_types source)
    → All (EndsAt (node_ids (build_graph source).0)) (build_graph source).1
unfolding build_graph
graph_edges_end_at_nodes source free =
    let ts = parse_types source in
    let g = build_of-Good (λ a. includes arrow a ≡ false) ts free in
    make_edges-EndsAt (node_ids (build_of ts).nodes) (build_of ts).added_types
      (build_of ts).edge_relations
      (λ x.
        member-node_ids (types_by_name ts) x (build_of ts).nodes g.marked
        ∙ ap (member x) g.labels_added)
      g.joined

-- An edge out of a type whose name is `x`, the arrow and `y` is drawn from the node of `x` to that
-- of `y`, the arrow and the target, neither of which need be the type or its target.
pub arrow_name_misdirects :
    (x y target : Text) (relations : List Text)
    → includes arrow x ≡ false
    → ((make_edge (edge_key (edge_key x y) target) relations).source ≡ type_id x)
      × ((make_edge (edge_key (edge_key x y) target) relations).target
          ≡ type_id (edge_key y target))
unfolding make_edge
arrow_name_misdirects x y target relations free =
    let e = append_assoc x (arrow ∷ y) (arrow ∷ target) in
    (
      rw (e, before-append arrow x (y ++ arrow ∷ target) free),
      rw (e, after-append arrow x (y ++ arrow ∷ target) free),
    )
