-- ===== src/Js/Maps.antt =====
-- `Map` and `Set` with texts for keys: association lists in the order of first insertion.
use zanguard.Prelude.{
  ◌≡◌, refl, Bool, false, ◌||◌, List, [], ◌∷◌, Option, none, some, arith, if◌then◌else◌, push,
  modify_last, ap,
}
use zanguard.Js.Text.{Text, same, same_iff, same_refl}

abbrev pub Map {ℓ} : Type ℓ → Type ℓ
Map V = List (Text × V)

module _ {ℓ} {V : Type ℓ} where
  -- `m.get(k)`
  unfoldable pub get : Text → Map V → Option V
  get k [] = none
  get k ((j, v) ∷ m) = if same j k then some v else get k m

  -- `m.has(k)`
  unfoldable pub has : Text → Map V → Bool
  has k [] = false
  has k ((j, v) ∷ m) = same j k || has k m

  -- `m.set(k, v)`: a key that is there keeps its place.
  unfoldable pub set : Text → V → Map V → Map V
  set k v [] = (k, v) ∷ []
  set k v ((j, w) ∷ m) = let rest = set k v m in if same j k then (j, v) ∷ m else (j, w) ∷ rest

  -- A write through a reference to the value at `k`.
  unfoldable pub modify : Text → (V → V) → Map V → Map V
  modify k f [] = []
  modify k f ((j, w) ∷ m) =
      let rest = modify k f m in if same j k then (j, f w) ∷ m else (j, w) ∷ rest

  -- `m.values()` and `m.keys()`
  abbrev pub values : Map V → List V
  values [] = []
  values ((k, v) ∷ m) = v ∷ values m

  abbrev pub keys : Map V → List Text
  keys [] = []
  keys ((k, v) ∷ m) = k ∷ keys m

module _ {ℓ} {V : Type ℓ} where
  pub get-set :
      (k j : Text) (v : V) (m : Map V) → get j (set k v m) ≡ (if same k j then some v else get j m)
  unfolding get set
  get-set k j v [] = refl
  get-set k j v ((i, w) ∷ m) =
      ground (arith, same_iff k j, same_iff i k, same_iff i j, get-set k j v m)

  pub modify-set :
      (k : Text) (f : V → V) (v : V) (m : Map V) → modify k f (set k v m) ≡ set k (f v) m
  unfolding modify set
  modify-set k f v [] = ground (arith, same_refl k)
  modify-set k f v ((i, w) ∷ m) = ground (arith, modify-set k f v m)

  pub has-set : (k j : Text) (v : V) (m : Map V) → has j (set k v m) ≡ (same k j || has j m)
  unfolding has set
  has-set k j v [] = ground arith
  has-set k j v ((i, w) ∷ m) =
      ground (arith, same_iff k j, same_iff i k, same_iff i j, has-set k j v m)

-- `new Map(xs.map((x) => [key(x), x]))`, from a map `m` on.
module _ {ℓ} {A : Type ℓ} (key : A → Text) where
  unfoldable pub insert_all : Map A → List A → Map A
  unfolding set
  insert_all m [] = m
  insert_all m (x ∷ xs) = insert_all (set (key x) x m) xs

  -- The key of the last element.
  abbrev pub last_key : List A → Option Text
  last_key [] = none
  last_key (x ∷ []) = some (key x)
  last_key (x ∷ y ∷ xs) = last_key (y ∷ xs)

abbrev pub modify_at {ℓ} : {V : Type ℓ} → Option Text → (V → V) → Map V → Map V
modify_at none f m = m
modify_at (some k) f m = modify k f m

module _ {ℓ} {A : Type ℓ} (key : A → Text) where
  pub insert_all-push :
      (m : Map A) (xs : List A) (x : A)
      → insert_all key m (push xs x) ≡ set (key x) x (insert_all key m xs)
  unfolding insert_all
  insert_all-push m [] x = refl
  insert_all-push m (y ∷ xs) x = insert_all-push (set (key y) y m) xs x

  pub last_key-push : (xs : List A) (x : A) → last_key key (push xs x) ≡ some (key x)
  last_key-push [] x = refl
  last_key-push (y ∷ []) x = refl
  last_key-push (y ∷ z ∷ xs) x = last_key-push (z ∷ xs) x

  module _ (f : A → A) (keeps : (a : A) → key (f a) ≡ key a) where
    pub last_key-modify_last : (xs : List A) → last_key key (modify_last f xs) ≡ last_key key xs
    last_key-modify_last [] = refl
    last_key-modify_last (x ∷ []) = ap some (keeps x)
    last_key-modify_last (x ∷ y ∷ []) = ap some (keeps y)
    last_key-modify_last (x ∷ y ∷ z ∷ xs) = last_key-modify_last (y ∷ z ∷ xs)

    -- A write to the last element, by its key in the map or by its place in the array.
    pub modify-insert_all :
        (m : Map A) (xs : List A)
        → modify_at (last_key key xs) f (insert_all key m xs) ≡ insert_all key m (modify_last f xs)
    unfolding insert_all
    modify-insert_all m [] = refl
    modify-insert_all m (x ∷ []) = rw (modify-set, keeps x)
    modify-insert_all m (x ∷ y ∷ xs) = modify-insert_all (set (key x) x m) (y ∷ xs)
