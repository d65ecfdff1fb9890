-- ===== src/Tests/Sources.antt =====
-- Sample schemas.
use zanguard.Prelude.{List, [], ◌∷◌, ◌++◌}
use zanguard.Js.Text.{Text, text}

abbrev lines : List Text → Text
lines [] = []
lines (x ∷ xs) = x ++ 10 ∷ lines xs

abbrev pub small : Text
small = lines (
    text "types:"
    ∷ text "  user:"
    ∷ text "  doc:"
    ∷ text "    relations:"
    ∷ text "      viewer:"
    ∷ text "        types: [user, team]"
    ∷ [])

abbrev pub two_permissions : Text
two_permissions = lines (
    text "types:"
    ∷ text "  doc:"
    ∷ text "    permissions:"
    ∷ text "      view:"
    ∷ text "        union:"
    ∷ text "  folder:"
    ∷ [])
