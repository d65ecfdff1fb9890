-- ===== src/Tuples/CreateDialog.antt =====
-- `CreateTupleDialog` of console/src/components/tuples/create-tuple-dialog.tsx: its state, its
-- handlers and what it offers. `types` is the memoised `schemaTypes`.
use zanguard.Prelude.{
  Bool, false, not, ◌&&◌, ◌||◌, Option, none, some, List, [], ◌∷◌, map, if◌then◌else◌, is_nil, find,
  select,
}
use zanguard.Js.Text.{Text, text, is_empty, same, before}
use zanguard.Js.Json.{str}
use zanguard.Js.Sets.{unique}
use zanguard.Api.Types.{TupleRequest}
use zanguard.Api.Client.{message_or}
use zanguard.Ui.{Reply, ok, failed, Toast, success, error, Control, choice, input, Button}
use zanguard.Schema.DialogParser.{SchemaRelation, SchemaTypeInfo, parse_schema_types}

pub record Form : Type 0 where
  pub object_type : Text
  pub object_id : Text
  pub relation : Text
  pub subject_type : Text
  pub subject_id : Text
  pub subject_relation : Text

abbrev pub empty_form : Form
empty_form = record {
  object_type = [];
  object_id = [];
  relation = [];
  subject_type = [];
  subject_id = [];
  subject_relation = [];
}

pub record Dialog : Type 0 where
  pub open_now : Bool
  pub form : Form

abbrev pub closed : Dialog
closed = record { open_now = false; form = empty_form }

-- `if (!schema?.source) return []`
unfoldable pub schema_types : Option Text → List SchemaTypeInfo
schema_types none = []
schema_types (some source) = if is_empty source then [] else parse_schema_types source

unfoldable pub type_names : List SchemaTypeInfo → List Text
type_names = map (λ t. t.name)

abbrev pub relations_of : Option SchemaTypeInfo → List SchemaRelation
relations_of none = []
relations_of (some t) = t.relations

-- `schemaTypes.find((t) => t.name === name)?.relations ?? []`
unfoldable pub found_relations : List SchemaTypeInfo → Text → List SchemaRelation
found_relations types name = relations_of (find (λ t. same t.name name) types)

unfoldable pub relations_for_type : List SchemaTypeInfo → Text → List SchemaRelation
relations_for_type types object_type =
    if is_empty object_type then [] else found_relations types object_type

-- `[...new Set(allowedTypes.map((t) => t.split("#")[0]).filter(Boolean))]`
unfoldable pub allowed_names : List Text → List Text
allowed_names allowed_types =
    unique (select (λ t. not (is_empty t)) (map (before b'#') allowed_types))

-- The allowed types of a relation, or all types where it names none.
unfoldable pub allowed_or_all : List SchemaTypeInfo → Option SchemaRelation → List Text
allowed_or_all types none = type_names types
allowed_or_all types (some r) =
    if is_nil r.allowed_types then type_names types else allowed_names r.allowed_types

unfoldable pub find_relation : List SchemaRelation → Text → Option SchemaRelation
find_relation relations name = find (λ r. same r.name name) relations

unfoldable pub subject_types_for_relation : List SchemaTypeInfo → Form → List Text
subject_types_for_relation types form =
    allowed_or_all types (find_relation (relations_for_type types form.object_type) form.relation)

-- `allowed.length === 1 ? allowed[0] : ""`
abbrev pub sole : List Text → Text
sole (x ∷ []) = x
sole _ = []

-- `rels.length === 1 ? rels[0] : null`
abbrev pub sole_relation : List SchemaRelation → Option SchemaRelation
sole_relation (r ∷ []) = some r
sole_relation _ = none

abbrev pub pick_relation : List SchemaTypeInfo → Text → Option SchemaRelation → Form → Form
pick_relation types name none form = record form {
  object_type = name;
  relation = [];
  subject_type = [];
}
pick_relation types name (some r) form = record form {
  object_type = name;
  relation = r.name;
  subject_type = sole (allowed_or_all types (some r));
}

-- The select of the object type.
unfoldable pub choose_object_type : List SchemaTypeInfo → Text → Form → Form
choose_object_type types name form =
    pick_relation types name (sole_relation (found_relations types name)) form

-- The select of the relation.
unfoldable pub choose_relation : List SchemaTypeInfo → Text → Form → Form
choose_relation types name form = record form {
  relation = name;
  subject_type =
      sole (allowed_or_all types (find_relation (relations_for_type types form.object_type) name));
}

pub data FormField : Type 0 where
  object_type object_id relation subject_type subject_id subject_relation : FormField

-- `setForm((prev) => ({ ...prev, [field]: value }))`
unfoldable pub update_field : FormField → Text → Form → Form
update_field object_type value f = record f { object_type = value }
update_field object_id value f = record f { object_id = value }
update_field relation value f = record f { relation = value }
update_field subject_type value f = record f { subject_type = value }
update_field subject_id value f = record f { subject_id = value }
update_field subject_relation value f = record f { subject_relation = value }

unfoldable pub is_valid : Form → Bool
is_valid f =
    not (is_empty f.object_type)
    && not (is_empty f.object_id)
    && not (is_empty f.relation)
    && not (is_empty f.subject_type)
    && not (is_empty f.subject_id)

-- What `handleSubmit` sends.
unfoldable pub submitted : Form → TupleRequest
submitted f = record {
  object_type = f.object_type;
  object_id = f.object_id;
  relation = f.relation;
  subject_type = f.subject_type;
  subject_id = f.subject_id;
  subject_relation = if is_empty f.subject_relation then none else some f.subject_relation;
  attributes = none;
}

-- The rest of `handleSubmit`, when the mutation has settled.
unfoldable pub handle_submit : Reply (Unit {0}) → Dialog → Dialog × List Toast
handle_submit (ok _) d =
    (record { open_now = false; form = empty_form }, success (text "Tuple created") ∷ [])
handle_submit (failed e) d = (d, error (message_or (str (text "Failed to create tuple")) e) ∷ [])

pub record DialogView : Type 0 where
  pub object_type : Control
  pub object_id : Control
  pub relation : Control
  pub subject_type : Control
  pub subject_id : Control
  pub subject_relation : Control
  pub create : Button

abbrev pub select_or_input : List Text → Text → Bool → Control
select_or_input [] value disabled = input value disabled
select_or_input (x ∷ options) value disabled = choice value (x ∷ options)

-- The form as it is rendered.
unfoldable pub dialog_view : List SchemaTypeInfo → Form → (is_pending : Bool) → DialogView
dialog_view types f is_pending =
    let has_schema = not (is_nil (type_names types)) in
    record {
      object_type = select_or_input (type_names types) f.object_type false;
      object_id = input f.object_id false;
      relation =
          select_or_input (map (λ r. r.name) (relations_for_type types f.object_type)) f.relation
            (has_schema && is_empty f.object_type);
      subject_type = select_or_input (subject_types_for_relation types f) f.subject_type false;
      subject_id = input f.subject_id false;
      subject_relation = input f.subject_relation false;
      create = record { disabled = not (is_valid f) || is_pending; spinning = is_pending };
    }
