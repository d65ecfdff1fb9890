-- ===== src/Api/Client.antt =====
-- The `beforeError` hook of console/src/lib/api/client.ts. `ky` calls it with an `HTTPError`; the
-- message is a JSON value, since the hook casts what the response holds.
use zanguard.Prelude.{◌≡◌, Bool, true, false, not, Option, none, some, if◌then◌else◌, arith}
use zanguard.Js.Text.{Text, text, same, is_empty}
use zanguard.Js.Json.{Json, null, bool, num, str, arr, obj, Fields, end, field}

pub record ApiError : Type 0 where
  pub message : Json
  pub details : Option Json

-- What `error.response` yields: no response, a body that is not JSON, or a body.
pub data Response : Type 0 where
  absent : Response
  not_json : Response
  json : Json → Response

-- `!!v`; the numbers that are falsy print as "0".
unfoldable pub is_truthy : Json → Bool
is_truthy null = false
is_truthy (bool b) = b
is_truthy (num n) = not (same n (text "0"))
is_truthy (str s) = not (is_empty s)
is_truthy (arr items) = true
is_truthy (obj fields) = true

-- `body[name]` of an object: the last field of that name counts, as in `JSON.parse`.
unfoldable pub field_of : Text → Fields → Option Json
field_of name end = none
field_of name (field k v rest) = elim (field_of name rest) [
  | some w ↦ some w
  | none ↦ if same k name then some v else none
]

-- Reading a field of `null` throws; other values that are no objects have none of these fields.
unfoldable pub read_field : Text → Json → Option Json
read_field name (obj fields) = field_of name fields
read_field name v = none

abbrev pub truthy_or {ℓ} : {A : Type ℓ} → Option Json → (Json → A) → A → A
truthy_or none f other = other
truthy_or (some v) f other = if is_truthy v then f v else other

unfoldable pub apply_body : Json → ApiError → ApiError
apply_body null error = error
apply_body body error = record {
  message = truthy_or (read_field (text "error") body) (λ v. v) error.message;
  details = truthy_or (read_field (text "details") body) some error.details;
}

unfoldable pub before_error : Response → ApiError → ApiError
before_error absent error = error
before_error not_json error = error
before_error (json body) error = apply_body body error

-- What `error.message || fallback` is in the handlers of the pages.
unfoldable pub message_or : Json → ApiError → Json
message_or fallback error = if is_truthy error.message then error.message else fallback

abbrev pub has_details : Option Json → Bool
has_details none = false
has_details (some d) = true

-- Whatever the response, the hook leaves a truthy message truthy, and keeps an error that has
-- details one that has details.
pub before_error_keeps :
    (r : Response) (e : ApiError)
    → is_truthy e.message ≡ true
    → has_details e.details ≡ true
    → (is_truthy (before_error r e).message ≡ true)
      × (has_details (before_error r e).details ≡ true)
unfolding before_error apply_body
before_error_keeps absent e h d = (h, d)
before_error_keeps not_json e h d = (h, d)
before_error_keeps (json null) e h d = (h, d)
before_error_keeps (json _) e h d = ground arith

-- The text that a response with a non-empty error message puts into the error.
pub before_error_message :
    (s : Text) (e : ApiError) (rest : Fields)
    → is_empty s ≡ false
    → field_of (text "error") rest ≡ none
    → message_or null (before_error (json (obj (field (text "error") (str s) rest))) e) ≡ str s
unfolding before_error apply_body message_or read_field field_of is_truthy same
before_error_message s e rest h absent_later = ground arith
