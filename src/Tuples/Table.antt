-- ===== src/Tuples/Table.antt =====
-- `TupleTable` of console/src/components/tuples/tuple-table.tsx, with its delete dialog.
use zanguard.Prelude.{Bool, Option, none, some, List, [], ◌∷◌, map}
use zanguard.Js.Text.{Text, text}
use zanguard.Js.Json.{str}
use zanguard.Api.Types.{RelationTuple, TupleRequest}
use zanguard.Api.Client.{message_or}
use zanguard.Ui.{Reply, ok, failed, Toast, success, error, Button}
use zanguard.Tuples.Display.{tuple_display, display_props}

-- `deleteTarget`
abbrev pub Target : Type 0
Target = Option RelationTuple

unfoldable pub delete_request : RelationTuple → TupleRequest
delete_request t = record {
  object_type = t.object_type;
  object_id = t.object_id;
  relation = t.relation;
  subject_type = t.subject_type;
  subject_id = t.subject_id;
  subject_relation = t.subject_relation;
  attributes = none;
}

-- What happens on the page: the trash button of a row, closing the dialog or its cancel button, a
-- press of the delete button, and the end of the deletion that runs. The dialog can be closed, and
-- another tuple chosen, while a deletion runs.
pub data Event : Type 0 where
  ask : RelationTuple → Event
  cancel press : Event
  settled : Reply (Unit {0}) → Event

-- `deleteTarget`, and the tuple whose deletion runs: `deleteTuple.isPending` is that there is one.
pub record Deletion : Type 0 where
  pub target : Target
  pub pending : Option RelationTuple

-- The new state, the request that is sent, and the toasts.
pub record Outcome : Type 0 where
  pub next : Deletion
  pub sent : Option TupleRequest
  pub toasts : List Toast

abbrev pub quiet : Deletion → Outcome
quiet st = record { next = st; sent = none; toasts = [] }

-- `handleDelete` up to its `await`, from a button that is disabled while a deletion runs.
unfoldable pub handle_delete : Deletion → Outcome
handle_delete st = elim st.pending [
  | some u ↦ quiet st
  | none ↦ elim st.target [
    | none ↦ quiet st
    | some t ↦ record {
      next = record { target = some t; pending = some t };
      sent = some (delete_request t);
      toasts = [];
    }
  ]
]

-- `handleDelete` from its `await` on.
abbrev pub finished : Deletion → Reply (Unit {0}) → Outcome
finished st (ok _) = record {
  next = record { target = none; pending = none };
  sent = none;
  toasts = success (text "Tuple deleted") ∷ [];
}
finished st (failed e) = record {
  next = record st { pending = none };
  sent = none;
  toasts = error (message_or (str (text "Failed to delete tuple")) e) ∷ [];
}

unfoldable pub settle : Deletion → Reply (Unit {0}) → Outcome
settle st reply = elim st.pending [ none ↦ quiet st | some u ↦ finished st reply ]

unfoldable pub handle : Deletion → Event → Outcome
handle st (ask t) = quiet (record st { target = some t })
handle st cancel = quiet (record st { target = none })
handle st press = handle_delete st
handle st (settled reply) = settle st reply

-- The requests that a session of events sends.
unfoldable pub requests : Deletion → List Event → List TupleRequest
requests st [] = []
requests st (e ∷ events) =
    let rest = requests (handle st e).next events in
    elim (handle st e).sent [ none ↦ rest | some r ↦ r ∷ rest ]

pub record Row : Type 0 where
  pub tuple : Text
  pub created_at : Text

pub record DeleteDialog : Type 0 where
  pub tuple : Text
  pub delete : Button

pub data TableView : Type 0 where
  no_tuples : TableView
  table : List Row → Option DeleteDialog → TableView

-- `show_date` is `new Date(s).toLocaleDateString()`.
abbrev pub row : (show_date : Text → Text) → RelationTuple → Row
row show_date t = record {
  tuple = tuple_display (display_props t);
  created_at = show_date t.created_at;
}

abbrev pub delete_dialog : Bool → Target → Option DeleteDialog
delete_dialog is_pending none = none
delete_dialog is_pending (some t) = some (record {
  tuple = tuple_display (display_props t);
  delete = record { disabled = is_pending; spinning = is_pending };
})

unfoldable pub tuple_table :
    (show_date : Text → Text) → List RelationTuple → Target → (is_pending : Bool) → TableView
tuple_table show_date [] target is_pending = no_tuples
tuple_table show_date (t ∷ ts) target is_pending =
    table (map (row show_date) (t ∷ ts)) (delete_dialog is_pending target)
