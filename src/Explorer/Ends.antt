-- ===== src/Explorer/Ends.antt =====
-- The edges of the drawn graph join its nodes.
use zanguard.Prelude.{
  ℕ, ◌+◌, ◌≡◌, refl, ap, true, false, none, some, List, [], ◌∷◌, ◌++◌, arith, All, All-append,
}
use zanguard.Js.Text.{Text, is_empty, same_refl}
use zanguard.Js.Sets.{member}
use zanguard.Api.Types.{SubjectTree, Children, tree, null, nil, child}
use zanguard.Explorer.Flow.{FlowNode, FlowEdge, node_id, tree_to_flow, children_to_flow}
use zanguard.Explorer.Shape.{node_ids, node_id-IsGiven}

abbrev pub EndsIn : List Text → FlowEdge → Type 0
EndsIn ids e = (member e.source ids ≡ true) × (member e.target ids ≡ true)

abbrev Within : List Text → List Text → Type 0
Within xs ys = (x : Text) → member x xs ≡ true → member x ys ≡ true

EndsIn-weaken :
    (xs ys : List Text)
    → Within xs ys
    → (es : List FlowEdge) → All (EndsIn xs) es
    → All (EndsIn ys) es
EndsIn-weaken xs ys w [] h = tt
EndsIn-weaken xs ys w (e ∷ es) ((p, q), h) =
    ((w e.source p, w e.target q), EndsIn-weaken xs ys w es h)

pub node_ids-append : (ns ms : List FlowNode) → node_ids (ns ++ ms) ≡ node_ids ns ++ node_ids ms
unfolding node_ids
node_ids-append [] ms = refl
node_ids-append (n ∷ ns) ms = ap (λ r. n.id ∷ r) (node_ids-append ns ms)

module _ (p : Text) where
  Within-left : (xs ys : List Text) → Within (p ∷ xs) (p ∷ (xs ++ ys))
  unfolding member
  Within-left [] ys x h = ground arith
  Within-left (z ∷ xs) ys x h = ground (arith, Within-left xs ys x)

  Within-right : (xs ys : List Text) → Within (p ∷ ys) (p ∷ (xs ++ ys))
  unfolding member
  Within-right [] ys x h = h
  Within-right (z ∷ xs) ys x h = ground (arith, Within-right xs ys x h)

  Within-cons : (xs : List Text) → Within xs (p ∷ xs)
  unfolding member
  Within-cons xs x h = ground arith

mutual
  unfolding tree_to_flow node_ids member

  tree-EndsIn :
      (t : SubjectTree) (parent : Text) (depth : ℕ)
      → is_empty parent ≡ false
      → All
          (EndsIn (parent ∷ node_ids (tree_to_flow t (some parent) depth).nodes))
          (tree_to_flow t (some parent) depth).edges
  tree-EndsIn (tree s children) parent depth h =
      let id = node_id s depth in
      let kids = node_ids (children_to_flow children id (depth + 1)).nodes in
      rw h (
        (ground (arith, same_refl parent), ground (arith, same_refl id)),
        EndsIn-weaken (id ∷ kids) (parent ∷ id ∷ kids) (Within-cons parent (id ∷ kids))
            (children_to_flow children id (depth + 1)).edges
            (children-EndsIn children id (depth + 1) (node_id-IsGiven s depth)),
      )

  children-EndsIn :
      (c : Children) (parent : Text) (depth : ℕ)
      → is_empty parent ≡ false
      → All
          (EndsIn (parent ∷ node_ids (children_to_flow c parent depth).nodes))
          (children_to_flow c parent depth).edges
  children-EndsIn null parent depth h = tt
  children-EndsIn nil parent depth h = tt
  children-EndsIn (child t rest) parent depth h =
      let f = tree_to_flow t (some parent) depth in
      let g = children_to_flow rest parent depth in
      let fs = node_ids f.nodes in
      let gs = node_ids g.nodes in
      rw (node_ids-append f.nodes g.nodes) (
        All-append (EndsIn (parent ∷ (fs ++ gs))) f.edges g.edges
          (EndsIn-weaken (parent ∷ fs) (parent ∷ (fs ++ gs)) (Within-left parent fs gs) f.edges
            (tree-EndsIn t parent depth h))
          (EndsIn-weaken (parent ∷ gs) (parent ∷ (fs ++ gs)) (Within-right parent fs gs) g.edges
            (children-EndsIn rest parent depth h)))

-- Every edge of the drawing of a tree starts and ends at one of its nodes.
pub flow_edges_end_at_nodes :
    (t : SubjectTree)
    → All (EndsIn (node_ids (tree_to_flow t none 0).nodes)) (tree_to_flow t none 0).edges
unfolding tree_to_flow node_ids
flow_edges_end_at_nodes (tree s children) =
    children-EndsIn children (node_id s 0) (0 + 1) (node_id-IsGiven s 0)
