-- ===== src/Explorer/Shape.antt =====
-- The drawn graph has the shape of the tree.
use zanguard.Prelude.{
  ℕ, suc, ◌+◌, ◌≡◌, refl, ap, ◌∙◌, false, Option, none, some, List, [], ◌∷◌, ◌++◌, arith, length,
  length-append,
}
use zanguard.Js.Text.{Text, is_empty}
use zanguard.Api.Types.{SubjectRef, SubjectTree, Children, tree, null, nil, child}
use zanguard.Explorer.Flow.{
  FlowNode, node_id, tree_to_flow, children_to_flow, parent_edge, relation_suffix,
}
use zanguard.Js.Numbers.{show_number}

unfoldable mutual
  pub size : SubjectTree → ℕ
  size (tree s children) = suc (sizes children)

  pub sizes : Children → ℕ
  sizes null = 0
  sizes nil = 0
  sizes (child t rest) = size t + sizes rest

unfoldable pub node_ids : List FlowNode → List Text
node_ids [] = []
node_ids (n ∷ ns) = n.id ∷ node_ids ns

append-IsGiven : (k : Text) (c : ℕ) (rest : Text) → is_empty (k ++ c ∷ rest) ≡ false
append-IsGiven [] c rest = refl
append-IsGiven (x ∷ k) c rest = refl

pub node_id-IsGiven : (s : SubjectRef) (depth : ℕ) → is_empty (node_id s depth) ≡ false
unfolding node_id
node_id-IsGiven s depth =
    append-IsGiven s.kind b':' (s.id ++ (relation_suffix s.relation ++ b'-' ∷ show_number depth))

length-parent_edge :
    (parent id : Text) → is_empty parent ≡ false → length (parent_edge (some parent) id) ≡ 1
length-parent_edge parent id h = rw h

mutual
  unfolding tree_to_flow size

  nodes-size :
      (t : SubjectTree) (parent : Option Text) (depth : ℕ)
      → length (tree_to_flow t parent depth).nodes ≡ size t
  nodes-size (tree s children) parent depth =
      ap suc (nodes-sizes children (node_id s depth) (depth + 1))

  nodes-sizes :
      (c : Children) (parent : Text) (depth : ℕ)
      → length (children_to_flow c parent depth).nodes ≡ sizes c
  nodes-sizes null parent depth = refl
  nodes-sizes nil parent depth = refl
  nodes-sizes (child t rest) parent depth =
      length-append (tree_to_flow t (some parent) depth).nodes
        (children_to_flow rest parent depth).nodes
      ∙ omega (arith, nodes-size t (some parent) depth, nodes-sizes rest parent depth)

mutual
  unfolding tree_to_flow size

  edges-size :
      (t : SubjectTree) (parent : Text) (depth : ℕ)
      → is_empty parent ≡ false
      → length (tree_to_flow t (some parent) depth).edges ≡ size t
  edges-size (tree s children) parent depth h =
      length-append (parent_edge (some parent) (node_id s depth))
        (children_to_flow children (node_id s depth) (depth + 1)).edges
      ∙ omega (
        arith,
        length-parent_edge parent (node_id s depth) h,
        edges-sizes children (node_id s depth) (depth + 1) (node_id-IsGiven s depth),
      )

  edges-sizes :
      (c : Children) (parent : Text) (depth : ℕ)
      → is_empty parent ≡ false
      → length (children_to_flow c parent depth).edges ≡ sizes c
  edges-sizes null parent depth h = refl
  edges-sizes nil parent depth h = refl
  edges-sizes (child t rest) parent depth h =
      length-append (tree_to_flow t (some parent) depth).edges
        (children_to_flow rest parent depth).edges
      ∙ omega (arith, edges-size t parent depth h, edges-sizes rest parent depth h)

-- The drawing of a tree has a node for each subject of the tree, and one edge fewer.
pub flow_counts :
    (t : SubjectTree)
    → (length (tree_to_flow t none 0).nodes ≡ size t)
      × (length (tree_to_flow t none 0).edges + 1 ≡ size t)
unfolding tree_to_flow size
flow_counts (tree s children) = (
  nodes-size (tree s children) none 0,
  omega (arith, edges-sizes children (node_id s 0) (0 + 1) (node_id-IsGiven s 0)),
)
