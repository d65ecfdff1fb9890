-- ===== src/Explorer/Flow.antt =====
-- `treeToFlow` of console/src/components/explorer/subject-tree.tsx, up to the layout: `dagre` only
-- adds positions, and is not modelled.
use zanguard.Prelude.{ℕ, ◌+◌, Bool, Option, none, some, List, [], ◌∷◌, ◌++◌, if◌then◌else◌, ◌==◌}
use zanguard.Js.Text.{Text, text, is_empty}
use zanguard.Js.Numbers.{show_number}
use zanguard.Api.Types.{SubjectRef, SubjectTree, Children, tree, null, nil, child}

pub record FlowNode : Type 0 where
  pub id : Text
  pub subject : SubjectRef
  pub is_root : Bool

pub record FlowEdge : Type 0 where
  pub id : Text
  pub source : Text
  pub target : Text

pub record Flow : Type 0 where
  pub nodes : List FlowNode
  pub edges : List FlowEdge

-- `tree.Subject.Relation ? "#" + tree.Subject.Relation : ""`
abbrev pub relation_suffix : Option Text → Text
relation_suffix none = []
relation_suffix (some r) = if is_empty r then [] else b'#' ∷ r

unfoldable pub node_id : SubjectRef → ℕ → Text
node_id s depth =
    s.kind ++ b':' ∷ (s.id ++ (relation_suffix s.relation ++ b'-' ∷ show_number depth))

-- `parentId ? [{ … }] : []`
abbrev pub parent_edge : Option Text → Text → List FlowEdge
parent_edge none id = []
parent_edge (some parent) id =
    if is_empty parent
    then []
    else record { id = parent ++ text "->" ++ id; source = parent; target = id } ∷ []

abbrev pub join_flows : Flow → Flow → Flow
join_flows a b = record { nodes = a.nodes ++ b.nodes; edges = a.edges ++ b.edges }

abbrev pub own_flow : SubjectRef → Option Text → ℕ → Flow
own_flow s parent depth = record {
  nodes = record { id = node_id s depth; subject = s; is_root = depth == 0 } ∷ [];
  edges = parent_edge parent (node_id s depth);
}

unfoldable mutual
  pub tree_to_flow : SubjectTree → Option Text → ℕ → Flow
  tree_to_flow (tree s children) parent depth =
      join_flows (own_flow s parent depth) (children_to_flow children (node_id s depth) (depth + 1))

  -- The loop over `tree.Children`, if they are not null.
  pub children_to_flow : Children → Text → ℕ → Flow
  children_to_flow null parent depth = record { nodes = []; edges = [] }
  children_to_flow nil parent depth = record { nodes = []; edges = [] }
  children_to_flow (child t rest) parent depth =
      join_flows (tree_to_flow t (some parent) depth) (children_to_flow rest parent depth)
