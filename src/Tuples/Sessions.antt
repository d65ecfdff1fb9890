-- ===== src/Tuples/Sessions.antt =====
-- Whole sessions with the delete dialog.
use zanguard.Prelude.{◌≡◌, refl, Option, none, some, List, [], ◌∷◌, All, ap, ◌++◌}
use zanguard.Api.Types.{RelationTuple}
use zanguard.Ui.{ok, failed}
use zanguard.Tuples.Table.{
  Deletion, Event, ask, cancel, press, settled, handle, handle_delete, settle, requests,
}

-- No trash button is pressed.
abbrev pub IsLater : Event → Type 0
IsLater (ask t) = ⊥
IsLater _ = Unit

no_requests :
    (more : List Event) (p : Option RelationTuple)
    → All IsLater more
    → requests (record { target = none; pending = p }) more ≡ []
unfolding requests handle handle_delete settle
no_requests [] p h = refl
no_requests (ask t ∷ more) p (h, hs) = absurd h
no_requests (cancel ∷ more) p (h, hs) = no_requests more p hs
no_requests (press ∷ more) none (h, hs) = no_requests more none hs
no_requests (press ∷ more) (some u) (h, hs) = no_requests more (some u) hs
no_requests (settled reply ∷ more) none (h, hs) = no_requests more none hs
no_requests (settled (ok x) ∷ more) (some u) (h, hs) = no_requests more none hs
no_requests (settled (failed e) ∷ more) (some u) (h, hs) = no_requests more none hs

-- After the dialog is cancelled, nothing is sent until a trash button is pressed again, however
-- often the delete button is pressed, however a deletion that runs ends, and whatever happened
-- before: the requests of the session are those sent before the cancelling.
pub requests-cancel :
    (st : Deletion) (events more : List Event)
    → All IsLater more
    → requests st (events ++ cancel ∷ more) ≡ requests st events
unfolding requests handle
requests-cancel st [] more h = no_requests more st.pending h
requests-cancel st (e ∷ events) more h =
    ap (λ rest. elim (handle st e).sent [ none ↦ rest | some r ↦ r ∷ rest ])
      (requests-cancel (handle st e).next events more h)
