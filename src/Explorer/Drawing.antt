-- ===== src/Explorer/Drawing.antt =====
-- What `SubjectTreeView` draws over a session of expansions.
use zanguard.Prelude.{◌≡◌, refl, Option, none, some, List, [], ◌∷◌}
use zanguard.Api.Types.{SubjectTree, ExpandRequest}
use zanguard.Ui.{Reply, ok, failed, use_state}
use zanguard.Explorer.Flow.{Flow, tree_to_flow}
use zanguard.Explorer.Page.{Explorer, handle_expand, drawn}

-- What is drawn when these replies have come, with a render of the page after each.
unfoldable pub session : List (Reply SubjectTree) → Explorer → Option Flow → Option Flow
session [] e old = old
session (r ∷ rs) e old = session rs (handle_expand r e).0 (drawn (handle_expand r e).0 old)

unfoldable pub first_flow : List (Reply SubjectTree) → Option Flow
first_flow [] = none
first_flow (ok t ∷ rs) = some (tree_to_flow t none 0)
first_flow (failed e ∷ rs) = first_flow rs

session-stays :
    (rs : List (Reply SubjectTree)) (form : ExpandRequest) (t : SubjectTree) (old : Flow)
    → session rs (record { form = form; tree = some t }) (some old) ≡ some old
unfolding session drawn handle_expand use_state
session-stays [] form t old = refl
session-stays (ok u ∷ rs) form t old = session-stays rs form u old
session-stays (failed e ∷ rs) form t old = session-stays rs form t old

-- Over a session of expansions that begins without a tree, the page draws the first tree that the
-- server answered with, and goes on to draw it whatever trees come later.
pub first_drawing_stays :
    (rs : List (Reply SubjectTree)) (form : ExpandRequest)
    → session rs (record { form = form; tree = none }) none ≡ first_flow rs
unfolding session first_flow drawn handle_expand use_state
first_drawing_stays [] form = refl
first_drawing_stays (ok t ∷ rs) form = session-stays rs form t (tree_to_flow t none 0)
first_drawing_stays (failed e ∷ rs) form = first_drawing_stays rs form
