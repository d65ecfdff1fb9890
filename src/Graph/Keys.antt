-- ===== src/Graph/Keys.antt =====
-- The keys of `edgeRelations` under the writes of `buildGraph`.
use zanguard.Prelude.{List, [], ◌∷◌, Bool-cases, inl, inr, All}
use zanguard.Js.Text.{Text, same}
use zanguard.Js.Maps
use zanguard.Js.Maps.{Map}
use zanguard.Graph.{create_at, push_at}

module _ (P : Text → Type 0) where
  All-keys-set :
      (k : Text) (v : List Text) (m : Map (List Text))
      → All P (Maps.keys m)
      → P k
      → All P (Maps.keys (Maps.set k v m))
  unfolding Maps.set
  All-keys-set k v [] h p = (p, tt)
  All-keys-set k v ((j, w) ∷ m) (q, h) p = elim (Bool-cases (same j k)) [
    | inl e ↦ rw e (q, h)
    | inr e ↦ rw e (q, All-keys-set k v m h p)
  ]

  All-keys-modify :
      (k : Text) (f : List Text → List Text) (m : Map (List Text))
      → All P (Maps.keys m)
      → All P (Maps.keys (Maps.modify k f m))
  unfolding Maps.modify
  All-keys-modify k f [] h = tt
  All-keys-modify k f ((j, w) ∷ m) (q, h) = elim (Bool-cases (same j k)) [
    | inl e ↦ rw e (q, h)
    | inr e ↦ rw e (q, All-keys-modify k f m h)
  ]

  pub All-keys-push_at :
      (k r : Text) (m : Map (List Text))
      → All P (Maps.keys m)
      → P k
      → All P (Maps.keys (push_at k r m))
  unfolding push_at
  All-keys-push_at k r m h p = All-keys-modify k _ (create_at k m) created
    where
      created : All P (Maps.keys (create_at k m))
      created = elim (Bool-cases (Maps.has k m)) [
        | inl e ↦ rw e h
        | inr e ↦ rw e (All-keys-set k [] m h p)
      ]
