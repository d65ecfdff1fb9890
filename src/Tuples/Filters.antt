-- ===== src/Tuples/Filters.antt =====
-- `TupleFilters` of console/src/components/tuples/tuple-filters.tsx.
use zanguard.Prelude.{
  Bool, false, not, ◌||◌, Option, none, some, List, [], ◌∷◌, if◌then◌else◌, or_else,
}
use zanguard.Js.Text.{Text, is_empty}
use zanguard.Api.Types.{TupleFilter}

-- `keyof TupleFilter`, as far as the inputs go: there is none for `subject_relation`.
pub data FilterField : Type 0 where
  object_type object_id relation subject_type subject_id : FilterField

-- `value || undefined`
abbrev pub or_undefined : Text → Option Text
or_undefined value = if is_empty value then none else some value

-- `{ ...filter, [field]: value || undefined }`
unfoldable pub update_field : FilterField → Text → TupleFilter → TupleFilter
update_field object_type value f = record f { object_type = or_undefined value }
update_field object_id value f = record f { object_id = or_undefined value }
update_field relation value f = record f { relation = or_undefined value }
update_field subject_type value f = record f { subject_type = or_undefined value }
update_field subject_id value f = record f { subject_id = or_undefined value }

abbrev pub is_set : Option Text → Bool
is_set none = false
is_set (some v) = not (is_empty v)

-- `Object.values(filter).some(Boolean)`
unfoldable pub has_filters : TupleFilter → Bool
has_filters f =
    is_set f.object_type
    || is_set f.object_id
    || is_set f.relation
    || is_set f.subject_type
    || is_set f.subject_id
    || is_set f.subject_relation

-- What an input shows: `filter.field ?? ""`.
unfoldable pub shown : FilterField → TupleFilter → Text
shown object_type f = or_else f.object_type []
shown object_id f = or_else f.object_id []
shown relation f = or_else f.relation []
shown subject_type f = or_else f.subject_type []
shown subject_id f = or_else f.subject_id []

pub record FiltersView : Type 0 where
  pub inputs : List Text
  pub has_clear : Bool

unfoldable pub tuple_filters : TupleFilter → FiltersView
tuple_filters f = record {
  inputs =
      shown object_type f
      ∷ shown object_id f
      ∷ shown relation f
      ∷ shown subject_type f
      ∷ shown subject_id f
      ∷ [];
  has_clear = has_filters f;
}
