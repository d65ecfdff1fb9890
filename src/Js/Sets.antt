-- ===== src/Js/Sets.antt =====
-- `Set` with texts for elements: lists in the order of insertion.
use zanguard.Prelude.{
  ◌≡◌, refl, Bool, true, false, not, ◌&&◌, List, [], ◌∷◌, arith, if◌then◌else◌, push,
}
use zanguard.Js.Text.{Text, same, same_iff, same_refl}

-- `s.has(x)`
unfoldable pub member : Text → List Text → Bool
member x [] = false
member x (y ∷ xs) = if same y x then true else member x xs

pub member-push : (x y : Text) (xs : List Text) → member x xs ≡ true → member x (push xs y) ≡ true
unfolding member
member-push x y [] h = cc
member-push x y (z ∷ xs) h = ground (arith, member-push x y xs)

pub member-push_self : (x : Text) (xs : List Text) → member x (push xs x) ≡ true
unfolding member
member-push_self x [] = ground (arith, same_refl x)
member-push_self x (z ∷ xs) = ground (arith, member-push_self x xs)

-- No text occurs twice.
unfoldable pub is_distinct : List Text → Bool
is_distinct [] = true
is_distinct (x ∷ xs) = not (member x xs) && is_distinct xs

pub member-push_iff :
    (x y : Text) (xs : List Text) → member x (push xs y) ≡ (if member x xs then true else same y x)
unfolding member
member-push_iff x y [] = ground arith
member-push_iff x y (z ∷ xs) = ground (arith, member-push_iff x y xs)

pub is_distinct-push :
    (x : Text) (xs : List Text)
    → member x xs ≡ false
    → is_distinct xs ≡ true
    → is_distinct (push xs x) ≡ true
unfolding is_distinct member
is_distinct-push x [] h k = ground arith
is_distinct-push x (z ∷ xs) h k =
    ground (arith, is_distinct-push x xs, member-push_iff z x xs, same_iff x z, same_iff z x)

abbrev pub insert : Text → List Text → List Text
insert x seen = if member x seen then seen else push seen x

insert_each : List Text → List Text → List Text
insert_each seen [] = seen
insert_each seen (x ∷ xs) = insert_each (insert x seen) xs

-- `[...new Set(xs)]`
unfoldable pub unique : List Text → List Text
unfolding insert_each
unique xs = insert_each [] xs

insert_each-is_distinct :
    (seen xs : List Text) → is_distinct seen ≡ true → is_distinct (insert_each seen xs) ≡ true
unfolding insert_each
insert_each-is_distinct seen [] h = h
insert_each-is_distinct seen (x ∷ xs) h =
    insert_each-is_distinct (insert x seen) xs (ground (arith, is_distinct-push x seen))

pub unique-is_distinct : (xs : List Text) → is_distinct (unique xs) ≡ true
unfolding unique is_distinct
unique-is_distinct xs = insert_each-is_distinct [] xs refl
