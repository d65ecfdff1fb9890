-- ===== src/Tuples/FilterRequests.antt =====
-- What the filter inputs of the tuples page make `readTuples` ask for.
use zanguard.Prelude.{
  ◌≡◌, refl, ap, ◌∙◌, sym, Bool, true, false, not, Option, none, some, [], ◌∷◌, ◌++◌, if◌then◌else◌,
  arith, is_nil,
}
use zanguard.Js.Text.{Text, text}
use zanguard.Js.Maps
use zanguard.Api.Types.{TupleFilter}
use zanguard.Api.Requests.{Params, filter_params, if_given}
use zanguard.Api.Filters.{given, filter_params-get}
use zanguard.Tuples.Filters.{
  FilterField, object_type, object_id, relation, subject_type, subject_id, or_undefined,
  update_field, is_set, has_filters,
}

-- The name of the search parameter of an input.
abbrev pub parameter : FilterField → Text
parameter object_type = text "object_type"
parameter object_id = text "object_id"
parameter relation = text "relation"
parameter subject_type = text "subject_type"
parameter subject_id = text "subject_id"

abbrev pub is_same : FilterField → FilterField → Bool
is_same object_type object_type = true
is_same object_id object_id = true
is_same relation relation = true
is_same subject_type subject_type = true
is_same subject_id subject_id = true
is_same _ _ = false

abbrev pub field_value : FilterField → TupleFilter → Option Text
field_value object_type f = f.object_type
field_value object_id f = f.object_id
field_value relation f = f.relation
field_value subject_type f = f.subject_type
field_value subject_id f = f.subject_id

get-parameter :
    (g : FilterField) (f : TupleFilter)
    → Maps.get (parameter g) (filter_params f) ≡ given (field_value g f)
get-parameter object_type f = (filter_params-get f).0
get-parameter object_id f = (filter_params-get f).1
get-parameter relation f = (filter_params-get f).2
get-parameter subject_type f = (filter_params-get f).3
get-parameter subject_id f = (filter_params-get f).4

field_value-update_field :
    (g k : FilterField) (value : Text) (f : TupleFilter)
    → given (field_value g (update_field k value f))
      ≡ (if is_same k g then or_undefined value else given (field_value g f))
unfolding update_field
field_value-update_field object_type k value f = ground arith
field_value-update_field object_id k value f = ground arith
field_value-update_field relation k value f = ground arith
field_value-update_field subject_type k value f = ground arith
field_value-update_field subject_id k value f = ground arith

-- After typing into the input of a field, the request has that field's parameter exactly if the
-- typed text is not empty, with that text, and every other parameter as it was before.
pub typing_changes_one_parameter :
    (g k : FilterField) (value : Text) (f : TupleFilter)
    → Maps.get (parameter g) (filter_params (update_field k value f))
      ≡ (if is_same k g then or_undefined value else Maps.get (parameter g) (filter_params f))
typing_changes_one_parameter g k value f =
    get-parameter g (update_field k value f)
    ∙ field_value-update_field g k value f
    ∙ ap (λ o. if is_same k g then or_undefined value else o) (sym (get-parameter g f))

is_nil-append : (ps qs : Params) → is_nil (ps ++ qs) ≡ (if is_nil ps then is_nil qs else false)
is_nil-append [] qs = refl
is_nil-append (p ∷ ps) qs = refl

is_nil-if_given : (name : Text) (v : Option Text) → is_nil (if_given name v) ≡ not (is_set v)
is_nil-if_given name none = refl
is_nil-if_given name (some v) = ground arith

-- The button that clears the filters is shown exactly if the request has a search parameter.
pub has_filters_iff_constrained : (f : TupleFilter) → has_filters f ≡ not (is_nil (filter_params f))
unfolding has_filters filter_params
has_filters_iff_constrained f = simp (is_nil-append, is_nil-if_given) (ground arith)
