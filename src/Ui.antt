-- ===== src/Ui.antt =====
-- What the components share: the replies of the server as a handler sees them, the toasts that a
-- handler shows, and the controls that a view offers.
use zanguard.Prelude.{Bool, true, false, Option, none, some, List}
use zanguard.Js.Text.{Text}
use zanguard.Js.Json.{Json}
use zanguard.Api.Client.{ApiError}

-- How the promise of `mutateAsync` settles.
pub data Reply {ℓ} (A : Type ℓ) : Type ℓ where
  ok : A → Reply A
  failed : ApiError → Reply A

-- `toast.success` and `toast.error` of `sonner`.
pub data Toast : Type 0 where
  success : Text → Toast
  error : Json → Toast

-- A field of a form: a select with its options, or a text input.
pub data Control : Type 0 where
  choice : (value : Text) (options : List Text) → Control
  input : (value : Text) (disabled : Bool) → Control

-- A submit button: whether it is disabled, and whether it shows the spinner.
pub record Button : Type 0 where
  pub disabled : Bool
  pub spinning : Bool

-- The state of a component that `useState(initial)` declares, over a render of its parent: a
-- component that stays in its place keeps its state, one that appears begins with `initial`, and
-- one that is not rendered loses its state.
unfoldable pub use_state {ℓ} : {S : Type ℓ} → (rendered : Bool) → S → Option S → Option S
use_state false initial old = none
use_state true initial none = some initial
use_state true initial (some s) = some s
