-- ===== src/Js/Numbers.antt =====
-- `String(n)` for a natural number. The fuel of `decimal` bounds the digits; one more than the
-- number is enough, since the number falls at each digit.
use Prim.Native.Nat.{◌/◌, ◌%◌}
use zanguard.Prelude.{
  ℕ, zero, suc, ◌+◌, ◌*◌, ◌-◌, ◌<◌, ◌≡◌, refl, ◌∙◌, [], ◌∷◌, ◌++◌, arith, ltb, if◌then◌else◌,
  Bool-cases, inl, inr,
}
use zanguard.Js.Text.{Text}

decimal : ℕ → ℕ → Text
decimal zero n = []
decimal (suc fuel) n =
    let front = decimal fuel (n / 10) in
    if ltb n 10 then (b'0' + n) ∷ [] else front ++ (b'0' + n % 10) ∷ []

unfoldable pub show_number : ℕ → Text
unfolding decimal
show_number n = decimal (suc n) n

-- The value of decimal digits behind `acc`.
unfoldable pub read_from : ℕ → Text → ℕ
read_from acc [] = acc
read_from acc (u ∷ s) = read_from (acc * 10 + (u - b'0')) s

read_from-append : (acc : ℕ) (s t : Text) → read_from acc (s ++ t) ≡ read_from (read_from acc s) t
unfolding read_from
read_from-append acc [] t = refl
read_from-append acc (u ∷ s) t = read_from-append (acc * 10 + (u - b'0')) s t

read-decimal : (fuel n : ℕ) → n < fuel → read_from 0 (decimal fuel n) ≡ n
unfolding decimal read_from
read-decimal zero n h = elim h [ ]
read-decimal (suc fuel) n h = elim (Bool-cases (ltb n 10)) [
  | inl small ↦ rw small (omega arith)
  | inr large ↦
      rw large
        (read_from-append 0 (decimal fuel (n / 10)) _ ∙ ground (arith, read-decimal fuel (n / 10)))
]

-- Reading the digits of a printed number gives the number back.
pub read-show_number : (n : ℕ) → read_from 0 (show_number n) ≡ n
unfolding show_number
read-show_number n = read-decimal (suc n) n (omega arith)
