-- ===== src/Explorer/Page.antt =====
-- `ExplorerPage` of console/src/app/explorer/page.tsx, and `TreeNode` and `SubjectTreeView` of
-- console/src/components/explorer.
use zanguard.Prelude.{
  Bool, true, not, ◌&&◌, ◌||◌, Option, none, some, List, [], ◌∷◌, ◌++◌, if◌then◌else◌,
}
use zanguard.Js.Text.{Text, text, is_empty, same}
use zanguard.Js.Json.{str}
use zanguard.Api.Types.{SubjectRef, SubjectTree, ExpandRequest}
use zanguard.Api.Requests.{Request, expand_relation}
use zanguard.Api.Client.{message_or}
use zanguard.Ui.{Reply, ok, failed, Toast, error, Button, use_state}
use zanguard.Explorer.Flow.{Flow, tree_to_flow}

pub data ExpandField : Type 0 where
  object_type object_id relation : ExpandField

unfoldable pub update_form : ExpandField → Text → ExpandRequest → ExpandRequest
update_form object_type value f = record f { object_type = value }
update_form object_id value f = record f { object_id = value }
update_form relation value f = record f { relation = value }

pub record Explorer : Type 0 where
  pub form : ExpandRequest
  pub tree : Option SubjectTree

unfoldable pub is_valid : ExpandRequest → Bool
is_valid f = not (is_empty f.object_type) && not (is_empty f.object_id) && not (is_empty f.relation)

-- What `handleExpand` sends, and what it does when the reply is there.
unfoldable pub expand_request : Text → Explorer → Request
expand_request tenant_id e = expand_relation tenant_id e.form

unfoldable pub handle_expand : Reply SubjectTree → Explorer → Explorer × List Toast
handle_expand (ok t) e = (record e { tree = some t }, [])
handle_expand (failed err) e =
    (e, error (message_or (str (text "Failed to expand relation")) err) ∷ [])

-- `SubjectTreeView` hands the drawing of the tree to `useNodesState` and `useEdgesState`, which take
-- it as their initial state: what is drawn over a render of the page.
abbrev shown_flow : Option SubjectTree → Option Flow → Option Flow
shown_flow none old = none
shown_flow (some t) old = use_state true (tree_to_flow t none 0) old

unfoldable pub drawn : Explorer → Option Flow → Option Flow
drawn e old = shown_flow e.tree old

pub data ExplorerPage : Type 0 where
  no_tenant : ExplorerPage
  page : ExpandRequest → Button → (drawing : Option Flow) → ExplorerPage

unfoldable pub explorer_page :
    Option Text → Explorer → (is_pending : Bool) → Option Flow → ExplorerPage
explorer_page none e is_pending drawing = no_tenant
explorer_page (some id) e is_pending drawing =
    if is_empty id
    then no_tenant
    else page e.form
        (record { disabled = not (is_valid e.form) || is_pending; spinning = is_pending }) drawing

pub data Icon : Type 0 where
  user users box : Icon

pub data NodeColor : Type 0 where
  blue green purple gray : NodeColor

pub record TreeNodeView : Type 0 where
  pub icon : Icon
  pub color : NodeColor
  pub title : Text
  pub relation : Option Text

-- `typeIcons[subject.Type] ?? Box`
unfoldable pub type_icon : Text → Icon
type_icon kind =
    if same kind (text "user") then user else if same kind (text "group") then users else box

-- `typeColors[subject.Type] ?? gray`
unfoldable pub type_color : Text → NodeColor
type_color kind =
    if same kind (text "user") then green else if same kind (text "group") then purple else gray

abbrev shown_relation : Option Text → Option Text
shown_relation none = none
shown_relation (some r) = if is_empty r then none else some (b'#' ∷ r)

unfoldable pub tree_node : SubjectRef → (is_root : Bool) → TreeNodeView
tree_node s is_root = record {
  icon = type_icon s.kind;
  color = if is_root then blue else type_color s.kind;
  title = s.kind ++ b':' ∷ s.id;
  relation = shown_relation s.relation;
}
