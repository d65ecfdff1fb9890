-- ===== src/Tuples/Choices.antt =====
-- What the selects of the create dialog leave in the form.
use zanguard.Prelude.{◌≡◌, refl, true, false, ◌||◌, some, List, [], ◌∷◌, map, arith}
use zanguard.Js.Text.{Text, is_empty, same_refl}
use zanguard.Js.Sets.{member}
use zanguard.Schema.DialogParser.{SchemaRelation, SchemaTypeInfo}
use zanguard.Tuples.CreateDialog.{
  Form, sole, sole_relation, pick_relation, choose_object_type, choose_relation, relations_for_type,
  found_relations, find_relation, allowed_or_all, subject_types_for_relation,
}

-- A select shows nothing, or one of its options.
abbrev pub IsOffered : Text → List Text → Type 0
IsOffered value options = is_empty value || member value options ≡ true

abbrev pub relation_names : List SchemaRelation → List Text
relation_names = map (λ r. r.name)

-- The relation and the subject type of a form are not chosen, or are among their options.
abbrev pub IsConsistent : List SchemaTypeInfo → Form → Type 0
IsConsistent types f =
    IsOffered f.relation (relation_names (relations_for_type types f.object_type))
    × IsOffered f.subject_type (subject_types_for_relation types f)

sole-IsOffered : (xs : List Text) → IsOffered (sole xs) xs
unfolding member
sole-IsOffered [] = refl
sole-IsOffered (x ∷ []) = ground (arith, same_refl x)
sole-IsOffered (x ∷ y ∷ xs) = refl

offered : (x : Text) (xs : List Text) → member x xs ≡ true → IsOffered x xs
offered x xs h = ground arith

pick_relation-IsConsistent :
    (types : List SchemaTypeInfo) (name : Text) (rs : List SchemaRelation) (f : Form)
    → relations_for_type types name ≡ rs
    → IsConsistent types (pick_relation types name (sole_relation rs) f)
unfolding subject_types_for_relation find_relation member
pick_relation-IsConsistent types name [] f e = (refl, refl)
pick_relation-IsConsistent types name (r ∷ r' ∷ rs) f e = (refl, refl)
pick_relation-IsConsistent types name (r ∷ []) f e = (
  rw e (offered r.name (r.name ∷ []) (ground (arith, same_refl r.name))),
  rw (e, same_refl r.name) (sole-IsOffered (allowed_or_all types (some r))),
)

-- Choosing an object type leaves a form whose relation and subject type are either empty or among
-- the options that the form then offers for them.
pub choose_object_type-IsConsistent :
    (types : List SchemaTypeInfo) (name : Text) (f : Form)
    → is_empty name ≡ false
    → IsConsistent types (choose_object_type types name f)
unfolding choose_object_type
choose_object_type-IsConsistent types name f given =
    pick_relation-IsConsistent types name (found_relations types name) f
      (unfold relations_for_type in rw given)

-- Choosing one of the relations offered leaves such a form too.
pub choose_relation-IsConsistent :
    (types : List SchemaTypeInfo) (name : Text) (f : Form)
    → member name (relation_names (relations_for_type types f.object_type)) ≡ true
    → IsConsistent types (choose_relation types name f)
unfolding choose_relation subject_types_for_relation
choose_relation-IsConsistent types name f h = (
  offered name (relation_names (relations_for_type types f.object_type)) h,
  sole-IsOffered
      (allowed_or_all types (find_relation (relations_for_type types f.object_type) name)),
)
