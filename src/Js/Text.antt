-- ===== src/Js/Text.antt =====
-- JavaScript strings as lists of UTF-16 code units, with the methods of `String.prototype` that
-- the console calls. Literals are ASCII or in the basic plane, where a code point is a unit.
use Prim.Native.Char.{code}
use Prim.Native.String.{String}
use zanguard.Prelude.{
  ℕ, ◌≡◌, refl, ◌↔◌, Bool, true, false, ◌&&◌, ◌||◌, List, [], ◌∷◌, ◌++◌, arith, ◌==◌, leb,
  if◌then◌else◌, any,
}

abbrev pub Text : Type 0
Text = List ℕ

abbrev pub text : String → Text
text String.[] = []
text (String.◌∷◌ c s) = code c ∷ text s

-- `a === b`
unfoldable pub same : Text → Text → Bool
same [] [] = true
same [] (y ∷ ys) = false
same (x ∷ xs) [] = false
same (x ∷ xs) (y ∷ ys) = x == y && same xs ys

pub same_iff : (a b : Text) → (same a b ≡ true) ↔ (a ≡ b)
unfolding same
same_iff [] [] = ground arith
same_iff [] (y ∷ ys) = ground arith
same_iff (x ∷ xs) [] = ground arith
same_iff (x ∷ xs) (y ∷ ys) = ground (arith, same_iff xs ys)

pub same_refl : (a : Text) → same a a ≡ true
same_refl a = (same_iff a a).1 refl

-- `!!s` is the negation of this.
abbrev pub is_empty : Text → Bool
is_empty [] = true
is_empty (x ∷ xs) = false

-- WhiteSpace and LineTerminator of ECMAScript, which `trim` removes.
abbrev space_units : List ℕ
space_units =
    9 ∷ 10 ∷ 11 ∷ 12 ∷ 13 ∷ 32 ∷ 160 ∷ 0x1680 ∷ 0x2028 ∷ 0x2029 ∷ 0x202f ∷ 0x205f ∷ 0x3000 ∷ 0xfeff
    ∷ []

unfoldable pub is_space : ℕ → Bool
is_space u = any (λ v. u == v) space_units || leb 0x2000 u && leb u 0x200a

-- `s.trimStart()`
unfoldable pub trim_start : Text → Text
unfolding is_space
trim_start [] = []
trim_start (x ∷ xs) = if is_space x then trim_start xs else x ∷ xs

-- A unit in front of a text whose right end is trimmed.
abbrev keep_unit : ℕ → Text → Text
keep_unit x [] = if is_space x then [] else x ∷ []
keep_unit x (y ∷ ys) = x ∷ y ∷ ys

-- `s.trimEnd()`
unfoldable pub trim_end : Text → Text
unfolding is_space
trim_end [] = []
trim_end (x ∷ xs) = keep_unit x (trim_end xs)

-- `s.trim()`
unfoldable pub trim : Text → Text
unfolding trim_start trim_end
trim s = trim_end (trim_start s)

-- `s.startsWith(p)`
unfoldable pub starts_with : Text → Text → Bool
starts_with [] s = true
starts_with (x ∷ p) [] = false
starts_with (x ∷ p) (y ∷ s) = x == y && starts_with p s

-- `s.endsWith(c)` for one unit
unfoldable pub ends_with : ℕ → Text → Bool
ends_with c [] = false
ends_with c (x ∷ []) = x == c
ends_with c (x ∷ y ∷ s) = ends_with c (y ∷ s)

-- `s.slice(0, -1)`
unfoldable pub drop_last : Text → Text
drop_last [] = []
drop_last (x ∷ []) = []
drop_last (x ∷ y ∷ s) = x ∷ drop_last (y ∷ s)

-- `s.includes(c)` for one unit
unfoldable pub includes : ℕ → Text → Bool
includes c [] = false
includes c (x ∷ s) = x == c || includes c s

-- A unit in front of the first part.
abbrev pub prepend : ℕ → List Text → List Text
prepend x [] = (x ∷ []) ∷ []
prepend x (part ∷ parts) = (x ∷ part) ∷ parts

-- `s.split(c)` for one unit
unfoldable pub split : ℕ → Text → List Text
split c [] = [] ∷ []
split c (x ∷ s) = let rest = split c s in if x == c then [] ∷ rest else prepend x rest

-- `s.split(c)[0]`: what stands before the first `c`.
unfoldable pub before : ℕ → Text → Text
before c [] = []
before c (x ∷ s) = let rest = before c s in if x == c then [] else x ∷ rest

-- What stands behind the first `c`; with `before`, `s.slice(s.indexOf(c) + 1)` where `c` occurs.
unfoldable pub after : ℕ → Text → Text
after c [] = []
after c (x ∷ s) = let rest = after c s in if x == c then s else rest

-- `parts.join(sep)`
unfoldable pub join : Text → List Text → Text
join sep [] = []
join sep (part ∷ []) = part
join sep (part ∷ next ∷ parts) = part ++ sep ++ join sep (next ∷ parts)

abbrev first_of_parts : List Text → Text
first_of_parts [] = []
first_of_parts (part ∷ parts) = part

-- `before` is what destructuring takes from `split`.
first-split : (c : ℕ) (s : Text) → first_of_parts (split c s) ≡ before c s
unfolding split before
first-split c [] = refl
first-split c (x ∷ s) = ground (arith, first-split c s, split_cons_lem c s)
  where
    split_cons_lem :
        (c : ℕ) (s : Text) → first_of_parts (prepend x (split c s)) ≡ x ∷ first_of_parts (split c s)
    split_cons_lem c [] = refl
    split_cons_lem c (y ∷ s) = ground arith

-- Cutting at the first `c` undoes joining with `c`, if the left part is free of `c`.
pub before-append : (c : ℕ) (a b : Text) → includes c a ≡ false → before c (a ++ c ∷ b) ≡ a
unfolding includes before
before-append c [] b h = ground arith
before-append c (x ∷ a) b h = ground (arith, before-append c a b)

pub after-append : (c : ℕ) (a b : Text) → includes c a ≡ false → after c (a ++ c ∷ b) ≡ b
unfolding includes after
after-append c [] b h = ground arith
after-append c (x ∷ a) b h = ground (arith, after-append c a b)
