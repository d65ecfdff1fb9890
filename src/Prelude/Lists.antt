-- ===== src/Prelude/Lists.antt =====
-- Lists measured by native numbers, and the array operations that the console uses.
use Prim.Native.Nat.{ℕ, zero, suc, ◌+◌}
use mathlib.Core.Path.{◌≡◌, refl, ap}
use mathlib.Core.Bool.{Bool, true, false, ◌&&◌, ◌||◌}
use mathlib.Core.List.{List, [], ◌∷◌, ◌++◌, map}
use mathlib.Core.Option.{Option, none, some}
use native.Mathlib.Omega.{arith}
use zanguard.Prelude.Tests.{if◌then◌else◌}

module _ {ℓ} {A : Type ℓ} where
  abbrev pub length : List A → ℕ
  length [] = 0
  length (x ∷ xs) = suc (length xs)

  abbrev pub get_elem? : List A → ℕ → Option A
  get_elem? [] i = none
  get_elem? (x ∷ xs) zero = some x
  get_elem? (x ∷ xs) (suc i) = get_elem? xs i

  abbrev pub drop : ℕ → List A → List A
  drop zero xs = xs
  drop (suc n) [] = []
  drop (suc n) (x ∷ xs) = drop n xs

  -- `xs.push(x)`
  abbrev pub push : List A → A → List A
  push xs x = xs ++ x ∷ []

  -- `xs[xs.length - 1]`
  abbrev pub get_last : List A → Option A
  get_last [] = none
  get_last (x ∷ []) = some x
  get_last (x ∷ y ∷ xs) = get_last (y ∷ xs)

  -- A write through a reference to the last element of an array.
  abbrev pub modify_last : (A → A) → List A → List A
  modify_last f [] = []
  modify_last f (x ∷ []) = f x ∷ []
  modify_last f (x ∷ y ∷ xs) = x ∷ modify_last f (y ∷ xs)

  -- `xs.find(p)`
  abbrev pub find : (A → Bool) → List A → Option A
  find p [] = none
  find p (x ∷ xs) = if p x then some x else find p xs

  -- `xs.filter(p)`
  abbrev pub select : (A → Bool) → List A → List A
  select p [] = []
  select p (x ∷ xs) = let rest = select p xs in if p x then x ∷ rest else rest

  -- `xs.some(p)` and `xs.every(p)`
  abbrev pub any : (A → Bool) → List A → Bool
  any p [] = false
  any p (x ∷ xs) = p x || any p xs

  abbrev pub all : (A → Bool) → List A → Bool
  all p [] = true
  all p (x ∷ xs) = p x && all p xs

  abbrev pub All {κ} : (A → Type κ) → List A → Type κ
  All P [] = Unit
  All P (x ∷ xs) = P x × All P xs

  abbrev pub is_nil : List A → Bool
  is_nil [] = true
  is_nil (x ∷ xs) = false

module _ {ℓ} {A : Type ℓ} where
  pub length-append : (xs ys : List A) → length (xs ++ ys) ≡ length xs + length ys
  length-append [] ys = omega arith
  length-append (x ∷ xs) ys = omega (arith, length-append xs ys)

  pub All-append {κ} : (P : A → Type κ) (xs ys : List A) → All P xs → All P ys → All P (xs ++ ys)
  All-append P [] ys h k = k
  All-append P (x ∷ xs) ys (p, h) k = (p, All-append P xs ys h k)

  pub get_last-push : (xs : List A) (x : A) → get_last (push xs x) ≡ some x
  get_last-push [] x = refl
  get_last-push (y ∷ []) x = refl
  get_last-push (y ∷ z ∷ xs) x = get_last-push (z ∷ xs) x

  pub modify_last-push :
      (f : A → A) (xs : List A) (x : A) → modify_last f (push xs x) ≡ push xs (f x)
  modify_last-push f [] x = refl
  modify_last-push f (y ∷ []) x = refl
  modify_last-push f (y ∷ z ∷ xs) x = ap (λ r. y ∷ r) (modify_last-push f (z ∷ xs) x)

  -- A write that keeps a field of the last element keeps that field of every element.
  pub map-modify_last {κ} :
      {B : Type κ} (g : A → B) (f : A → A)
      → ((a : A) → g (f a) ≡ g a)
      → (xs : List A) → map g (modify_last f xs) ≡ map g xs
  map-modify_last g f keeps [] = refl
  map-modify_last g f keeps (x ∷ []) = ap (λ b. b ∷ []) (keeps x)
  map-modify_last g f keeps (x ∷ y ∷ xs) = ap (λ r. g x ∷ r) (map-modify_last g f keeps (y ∷ xs))
