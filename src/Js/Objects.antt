-- ===== src/Js/Objects.antt =====
-- Plain objects used as records from texts to values: the own properties in the order in which
-- `Object.entries` lists them, array indices first and ascending, then the other keys as inserted.
-- Assigning to the key `__proto__` sets the prototype and adds no own property.
use zanguard.Prelude.{
  ℕ, ◌+◌, ◌*◌, ◌-◌, ◌≡◌, Bool, true, false, not, ◌&&◌, ◌||◌, List, [], ◌∷◌, Option, none, some,
  arith, if◌then◌else◌, ◌==◌, leb, ltb, all, refl,
}
use zanguard.Js.Text.{Text, text, same, same_iff}

abbrev pub Object {ℓ} : Type ℓ → Type ℓ
Object V = List (Text × V)

abbrev is_digit : ℕ → Bool
is_digit u = leb b'0' u && leb u b'9'

decimal_from : ℕ → Text → ℕ
decimal_from n [] = n
decimal_from n (u ∷ s) = decimal_from (n * 10 + (u - b'0')) s

abbrev has_leading_zero : Text → Bool
has_leading_zero (x ∷ y ∷ s) = x == b'0'
has_leading_zero s = false

abbrev is_blank : Text → Bool
is_blank [] = true
is_blank (x ∷ s) = false

-- An array index: a canonical decimal below 2 ^ 32 - 1.
unfoldable pub is_index : Text → Bool
unfolding decimal_from
is_index k =
    not (is_blank k)
    && all is_digit k
    && not (has_leading_zero k)
    && ltb (decimal_from 0 k) 4294967295

-- Where a new key goes.
unfoldable pub goes_before : Text → Text → Bool
unfolding is_index decimal_from
goes_before k j = is_index k && (not (is_index j) || ltb (decimal_from 0 k) (decimal_from 0 j))

abbrev pub proto : Text
proto = text "__proto__"

module _ {ℓ} {V : Type ℓ} where
  unfoldable pub put : Text → V → Object V → Object V
  put k v [] = (k, v) ∷ []
  put k v ((j, w) ∷ o) =
      let rest = put k v o in
      if same j k
      then (j, v) ∷ o
      else if goes_before k j
      then (k, v) ∷ (j, w) ∷ o
      else (j, w) ∷ rest

  -- `o[k] = v`
  unfoldable pub assign : Text → V → Object V → Object V
  assign k v o = if same k proto then o else put k v o

  -- The own property `k` of `o`.
  unfoldable pub property : Text → Object V → Option V
  property k [] = none
  property k ((j, v) ∷ o) = if same j k then some v else property k o

module _ {ℓ} {V : Type ℓ} where
  property-put :
      (k j : Text) (v : V) (o : Object V)
      → property j (put k v o) ≡ (if same k j then some v else property j o)
  unfolding property put
  property-put k j v [] = refl
  property-put k j v ((i, w) ∷ o) =
      ground (arith, same_iff k j, same_iff i k, same_iff i j, property-put k j v o)

  pub property-assign :
      (k j : Text) (v : V) (o : Object V)
      → same k proto ≡ false
      → property j (assign k v o) ≡ (if same k j then some v else property j o)
  unfolding assign
  property-assign k j v o h = ground (arith, property-put k j v o)
