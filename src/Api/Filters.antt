-- ===== src/Api/Filters.antt =====
-- Which search parameters a tuple filter becomes.
use zanguard.Prelude.{◌≡◌, refl, Option, none, some, [], ◌∷◌, ◌++◌, if◌then◌else◌, arith}
use zanguard.Js.Text.{Text, text, is_empty, same}
use zanguard.Js.Maps
use zanguard.Api.Types.{TupleFilter}
use zanguard.Api.Requests.{Params, if_given, filter_params}

-- The value that a filter field constrains: the empty text and `undefined` constrain nothing.
abbrev pub given : Option Text → Option Text
given none = none
given (some v) = if is_empty v then none else some v

abbrev first_given : Option Text → Option Text → Option Text
first_given none o = o
first_given (some v) o = some v

get-append :
    (name : Text) (ps qs : Params)
    → Maps.get name (ps ++ qs) ≡ first_given (Maps.get name ps) (Maps.get name qs)
unfolding Maps.get
get-append name [] qs = refl
get-append name ((k, v) ∷ ps) qs = ground (arith, get-append name ps qs)

get-if_given :
    (name other : Text) (v : Option Text)
    → Maps.get name (if_given other v) ≡ (if same other name then given v else none)
unfolding Maps.get
get-if_given name other none = ground arith
get-if_given name other (some v) = ground arith

first_given-none : (o : Option Text) → first_given o none ≡ o
first_given-none none = refl
first_given-none (some v) = refl

ruleset param_laws = (get-append, get-if_given, first_given-none)

-- For every filter, the search parameter of each field is there exactly if the field is a text that
-- is not empty, and is that text; this holds of all six fields.
pub filter_params-get :
    (f : TupleFilter)
    → (Maps.get (text "object_type") (filter_params f) ≡ given f.object_type)
      × (Maps.get (text "object_id") (filter_params f) ≡ given f.object_id)
      × (Maps.get (text "relation") (filter_params f) ≡ given f.relation)
      × (Maps.get (text "subject_type") (filter_params f) ≡ given f.subject_type)
      × (Maps.get (text "subject_id") (filter_params f) ≡ given f.subject_id)
      × (Maps.get (text "subject_relation") (filter_params f) ≡ given f.subject_relation)
unfolding filter_params same
filter_params-get f = (
  simp param_laws,
  simp param_laws,
  simp param_laws,
  simp param_laws,
  simp param_laws,
  simp param_laws,
)
