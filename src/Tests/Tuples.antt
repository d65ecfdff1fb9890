-- ===== src/Tests/Tuples.antt =====
-- The tuples page at sample data.
use zanguard.Prelude.{◌≡◌, refl, none, some, List, [], ◌∷◌, ◌++◌}
use zanguard.Js.Text.{Text, text, includes, same}
use zanguard.Js.Sets.{member}
use zanguard.Js.Json.{str}
use zanguard.Api.Types.{RelationTuple}
use zanguard.Ui.{ok, failed, Reply}
use zanguard.Schema.DialogParser.{SchemaTypeInfo}
use zanguard.Tuples.Display.{TupleDisplayProps, tuple_display}
use zanguard.Tuples.RoundTrip.{IsReadable, read_tuple, read-tuple_display}
use zanguard.Tuples.Table.{Deletion, ask, cancel, press, settled, handle, settle, requests}
use zanguard.Tuples.Sessions.{requests-cancel}
use zanguard.Tuples.CreateDialog.{
  Form, choose_object_type, choose_relation, relations_for_type, found_relations,
}
use zanguard.Tuples.Choices.{
  IsConsistent, choose_object_type-IsConsistent, choose_relation-IsConsistent,
}

abbrev shown_tuple : TupleDisplayProps
shown_tuple = record {
  object_type = text "doc";
  object_id = text "a:b@c";
  relation = text "viewer";
  subject_type = text "team";
  subject_id = text "x:y";
  subject_relation = some (text "member#1");
}

shown_tuple-IsReadable : IsReadable shown_tuple
unfolding includes
shown_tuple-IsReadable = record {
  object_type_free = refl;
  object_id_free = refl;
  relation_free = refl;
  subject_type_free = refl;
  subject_id_free = refl;
  suffix_given = λ e. cc e;
}

read-tuple_display_example : read_tuple (tuple_display shown_tuple) ≡ shown_tuple
read-tuple_display_example = read-tuple_display shown_tuple shown_tuple-IsReadable

abbrev stored : Text → RelationTuple
stored id = record {
  tenant_id = text "acme";
  object_type = text "doc";
  object_id = id;
  relation = text "viewer";
  subject_type = text "user";
  subject_id = text "ann";
  subject_relation = none;
  subject_tenant_id = none;
  attributes = none;
  created_at = text "t0";
  updated_at = text "t0";
  source_system = none;
  external_id = none;
}

abbrev closed : Deletion
closed = record { target = none; pending = none }

abbrev timeout : Reply (Unit {0})
timeout = failed (record { message = str (text "timeout"); details = none })

abbrev types : List SchemaTypeInfo
types =
    record { name = text "user"; relations = [] }
    ∷ record {
      name = text "doc";
      relations =
          record { name = text "viewer"; allowed_types = text "user" ∷ text "user#friend" ∷ [] }
          ∷ record { name = text "owner"; allowed_types = [] }
          ∷ [];
    }
    ∷ []

abbrev typed_form : Form
typed_form = record {
  object_type = text "doc";
  object_id = text "1";
  relation = text "viewer";
  subject_type = text "user";
  subject_id = text "ann";
  subject_relation = [];
}

choose_object_type-IsConsistent_example :
    IsConsistent types (choose_object_type types (text "doc") typed_form)
choose_object_type-IsConsistent_example =
    choose_object_type-IsConsistent types (text "doc") typed_form refl

choose_relation-IsConsistent_example :
    IsConsistent types (choose_relation types (text "owner") typed_form)
unfolding member relations_for_type found_relations same
choose_relation-IsConsistent_example =
    choose_relation-IsConsistent types (text "owner") typed_form refl

-- The dialog is cancelled while a deletion runs, and the deletion then fails.
requests-cancel_example :
    requests closed
      ((ask (stored (text "1")) ∷ press ∷ []) ++ cancel ∷ press ∷ settled timeout ∷ press ∷ [])
    ≡ requests closed (ask (stored (text "1")) ∷ press ∷ [])
requests-cancel_example =
    requests-cancel closed (ask (stored (text "1")) ∷ press ∷ [])
      (press ∷ settled timeout ∷ press ∷ []) (tt, (tt, (tt, tt)))

-- Another tuple is chosen while a deletion runs: its success closes the other tuple's dialog.
closed_by_other :
    (handle
      (record { target = some (stored (text "2")); pending = some (stored (text "1")) })
      (settled (ok tt))).next
    ≡ closed
unfolding handle settle
closed_by_other = refl
