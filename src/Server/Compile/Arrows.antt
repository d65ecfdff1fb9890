-- ===== src/Server/Compile/Arrows.antt =====
-- The references of a permission, printed and parsed.
use zanguard.Prelude.{◌≡◌, refl, Bool, true, false, not, some, [], ◌∷◌, ◌++◌, arith, all, ◌==◌}
use zanguard.Js.Text.{Text, is_empty}
use zanguard.Server.Model.{ok}
use zanguard.Server.Compile.{trim_space, split_arrow, parse_permission_ref}

-- The text `relation->permission`.
abbrev pub arrow_text : (relation permission : Text) → Text
arrow_text r p = r ++ b'-' ∷ b'>' ∷ p

abbrev pub has_no_dash : Text → Bool
has_no_dash s = all (λ u. not (u == b'-')) s

split_arrow_lem : (r p : Text) → has_no_dash r ≡ true → split_arrow (arrow_text r p) ≡ some (r, p)
unfolding split_arrow
split_arrow_lem [] p h = refl
split_arrow_lem (u ∷ []) p h = ground arith
split_arrow_lem (u ∷ v ∷ r) p h = ground (arith, split_arrow_lem (v ∷ r) p)

-- An arrow is parsed back from its text, where its two names are not empty and have no space round
-- them, and the relation's name has no dash.
pub parse-arrow_text :
    (r p : Text)
    → has_no_dash r ≡ true
    → trim_space r ≡ r
    → trim_space p ≡ p
    → is_empty r ≡ false
    → is_empty p ≡ false
    → parse_permission_ref (arrow_text r p)
      ≡ ok (record { relation_ref = []; arrow_ref = r; arrow_permission = p; condition_expr = [] })
unfolding parse_permission_ref
parse-arrow_text r p h tr tp er ep = rw (split_arrow_lem r p h, tr, tp, er, ep) refl
