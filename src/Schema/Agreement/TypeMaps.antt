-- ===== src/Schema/Agreement/TypeMaps.antt =====
-- The dialog's array of types, gathered in a map by type name as the graph gathers them.
use mathlib.Core.List.{map-append}
use zanguard.Prelude.{◌≡◌, refl, ap, sym, ◌∙◌, List, [], ◌∷◌, map, Option, some, modify_last, push}
use zanguard.Js.Text.{Text}
use zanguard.Js.Maps
use zanguard.Js.Maps.{
  Map, insert_all, insert_all-push, modify_at, last_key, last_key-push, last_key-modify_last,
  modify-insert_all,
}
use zanguard.Schema.DialogParser as Dialog
use zanguard.Schema.DialogParser.{parse_schema_types}
use zanguard.Schema.GraphParser as Graph
use zanguard.Schema.GraphParser.{ParsedType, ParsedRelation, parse_types, is_null}

-- The records of the dialog, with the field names of the graph.
abbrev pub to_relation : Dialog.SchemaRelation → ParsedRelation
to_relation r = record { relation = r.name; targets = r.allowed_types }

abbrev pub to_type : Dialog.SchemaTypeInfo → ParsedType
to_type t = record { name = t.name; relations = map to_relation t.relations }

map-modify_last_comm {ℓ κ} :
    {A : Type ℓ} {B : Type κ} (g : A → B) (f : A → A) (h : B → B)
    → ((a : A) → g (f a) ≡ h (g a))
    → (xs : List A) → map g (modify_last f xs) ≡ modify_last h (map g xs)
map-modify_last_comm g f h comm [] = refl
map-modify_last_comm g f h comm (x ∷ []) = ap (λ b. b ∷ []) (comm x)
map-modify_last_comm g f h comm (x ∷ y ∷ xs) =
    ap (λ r. g x ∷ r) (map-modify_last_comm g f h comm (y ∷ xs))

to_type-add :
    (r : Dialog.SchemaRelation) (t : Dialog.SchemaTypeInfo)
    → to_type (Dialog.add_relation r t) ≡ Graph.add_relation (to_relation r) (to_type t)
to_type-add r t = rw map-append

to_type-allow :
    (ns : List Text) (t : Dialog.SchemaTypeInfo)
    → to_type (Dialog.allow_in_last ns t) ≡ Graph.add_targets_in_last ns (to_type t)
to_type-allow ns t = rw (
    map-modify_last_comm to_relation (Dialog.allow ns) (Graph.add_targets ns) (λ r. refl)
      t.relations)

-- What the graph's map holds when the dialog's array is `ts`.
unfoldable pub graph_of : List Dialog.SchemaTypeInfo → Map ParsedType
graph_of ts = insert_all (λ t. t.name) [] (map to_type ts)

unfoldable pub last_name : List Dialog.SchemaTypeInfo → Option Text
last_name ts = last_key (λ t. t.name) (map to_type ts)

module _ (f : Dialog.SchemaTypeInfo → Dialog.SchemaTypeInfo) (h : ParsedType → ParsedType)
    (comm : (t : Dialog.SchemaTypeInfo) → to_type (f t) ≡ h (to_type t))
    (keeps : (t : ParsedType) → (h t).name ≡ t.name) (ts : List Dialog.SchemaTypeInfo) where
  graph_of-modify : modify_at (last_name ts) h (graph_of ts) ≡ graph_of (modify_last f ts)
  unfolding graph_of last_name
  graph_of-modify =
      modify-insert_all (λ t. t.name) h keeps [] (map to_type ts)
      ∙ ap (insert_all (λ t. t.name) []) (sym (map-modify_last_comm to_type f h comm ts))

  last_name-modify : last_name (modify_last f ts) ≡ last_name ts
  unfolding last_name
  last_name-modify =
      ap (last_key (λ t. t.name)) (map-modify_last_comm to_type f h comm ts)
      ∙ last_key-modify_last (λ t. t.name) h keeps (map to_type ts)

module _ (ts : List Dialog.SchemaTypeInfo) where
  module _ (r : Dialog.SchemaRelation) where
    pub graph_of-add :
        modify_at (last_name ts) (Graph.add_relation (to_relation r)) (graph_of ts)
        ≡ graph_of (modify_last (Dialog.add_relation r) ts)
    graph_of-add =
        graph_of-modify (Dialog.add_relation r) (Graph.add_relation (to_relation r)) (to_type-add r)
          (λ t. refl) ts

    pub last_name-add : last_name (modify_last (Dialog.add_relation r) ts) ≡ last_name ts
    last_name-add =
        last_name-modify (Dialog.add_relation r) (Graph.add_relation (to_relation r))
          (to_type-add r) (λ t. refl) ts

  module _ (ns : List Text) where
    pub graph_of-allow :
        modify_at (last_name ts) (Graph.add_targets_in_last ns) (graph_of ts)
        ≡ graph_of (modify_last (Dialog.allow_in_last ns) ts)
    graph_of-allow =
        graph_of-modify (Dialog.allow_in_last ns) (Graph.add_targets_in_last ns) (to_type-allow ns)
          (λ t. refl) ts

    pub last_name-allow : last_name (modify_last (Dialog.allow_in_last ns) ts) ≡ last_name ts
    last_name-allow =
        last_name-modify (Dialog.allow_in_last ns) (Graph.add_targets_in_last ns) (to_type-allow ns)
          (λ t. refl) ts

  module _ (name : Text) where
    pub graph_of-push :
        graph_of (push ts (record { name = name; relations = [] }))
        ≡ Maps.set name (record { name = name; relations = [] }) (graph_of ts)
    unfolding graph_of
    graph_of-push =
        ap (insert_all (λ t. t.name) [])
          (map-append to_type ts (record { name = name; relations = [] } ∷ []))
        ∙ insert_all-push (λ t. t.name) [] (map to_type ts) (record { name = name; relations = [] })

    pub last_name-push : last_name (push ts (record { name = name; relations = [] })) ≡ some name
    unfolding last_name
    last_name-push =
        ap (last_key (λ t. t.name))
          (map-append to_type ts (record { name = name; relations = [] } ∷ []))
        ∙ last_key-push (λ t. t.name) (map to_type ts) (record { name = name; relations = [] })
