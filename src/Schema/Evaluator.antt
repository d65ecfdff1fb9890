-- ===== src/Schema/Evaluator.antt =====
-- `SchemaEvaluator` of console/src/components/schema/schema-evaluator.tsx.
use zanguard.Prelude.{
  Bool, true, false, not, ◌&&◌, ◌||◌, Option, none, some, List, [], ◌∷◌, map, if◌then◌else◌, find,
  is_nil, ◌≡◌, refl, ◌↔◌,
}
use zanguard.Js.Text.{Text, is_empty, same}
use zanguard.Api.Requests.{Request, CheckRequest, check_permission}
use zanguard.Ui.{Reply, ok, failed, Control, choice, input, Button}
use zanguard.Schema.EvaluatorParser.{SchemaTypeInfo, parse_schema_type_infos}

pub data Verdict : Type 0 where
  allow deny : Verdict

-- The form and the decision that is shown.
pub record Evaluator : Type 0 where
  pub form : CheckRequest
  pub decision : Option Verdict

abbrev pub initial : Evaluator
initial = record {
  form = record {
    subject_type = [];
    subject_id = [];
    resource_type = [];
    resource_id = [];
    action = [];
  };
  decision = none;
}

abbrev permissions_of : Option SchemaTypeInfo → List Text
permissions_of none = []
permissions_of (some t) = t.permissions

-- `actionsForType`
unfoldable pub actions_for_type : List SchemaTypeInfo → Text → List Text
actions_for_type types resource_type =
    if is_empty resource_type
    then []
    else permissions_of (find (λ t. same t.name resource_type) types)

pub data CheckField : Type 0 where
  resource_type resource_id action subject_type subject_id : CheckField

-- `update`
unfoldable pub update : CheckField → Text → CheckRequest → CheckRequest
update resource_type value f = record f { resource_type = value }
update resource_id value f = record f { resource_id = value }
update action value f = record f { action = value }
update subject_type value f = record f { subject_type = value }
update subject_id value f = record f { subject_id = value }

-- The select of the resource type.
unfoldable pub choose_resource_type : Text → CheckRequest → CheckRequest
choose_resource_type value f = record f { resource_type = value; action = [] }

unfoldable pub is_valid : CheckRequest → Bool
is_valid f =
    not (is_empty f.resource_type)
    && not (is_empty f.resource_id)
    && not (is_empty f.action)
    && not (is_empty f.subject_type)
    && not (is_empty f.subject_id)

-- `handleCheck`: what is shown while the check runs, what is sent, and what is shown then. The reply
-- is the field `decision` of the response.
unfoldable pub begin_check : Evaluator → Evaluator
begin_check e = record e { decision = none }

unfoldable pub check_request : Text → Evaluator → Request
check_request tenant_id e = check_permission tenant_id e.form

unfoldable pub end_check : Reply Bool → Evaluator → Evaluator
end_check (ok decision) e = record e { decision = some (if decision then allow else deny) }
end_check (failed err) e = record e { decision = some deny }

pub record EvaluatorView : Type 0 where
  pub subject_type : Control
  pub subject_id : Control
  pub resource_type : Control
  pub action : Control
  pub resource_id : Control
  pub check : Button
  pub badge : Option Verdict

abbrev select_or_input : List Text → Text → Bool → Control
select_or_input [] value disabled = input value disabled
select_or_input (x ∷ options) value disabled = choice value (x ∷ options)

unfoldable pub evaluator_view :
    List SchemaTypeInfo → Evaluator → (is_pending : Bool) → EvaluatorView
evaluator_view types e is_pending =
    let names = map (λ t. t.name) types in
    record {
      subject_type = select_or_input names e.form.subject_type false;
      subject_id = input e.form.subject_id false;
      resource_type = select_or_input names e.form.resource_type false;
      action =
          select_or_input (actions_for_type types e.form.resource_type) e.form.action
            (not (is_nil names) && is_empty e.form.resource_type);
      resource_id = input e.form.resource_id false;
      check = record { disabled = not (is_valid e.form) || is_pending; spinning = is_pending };
      badge = e.decision;
    }

unfoldable pub schema_evaluator : Text → Evaluator → (is_pending : Bool) → EvaluatorView
schema_evaluator source e is_pending = evaluator_view (parse_schema_type_infos source) e is_pending

-- ALLOW is shown after a check exactly if the server answered with a positive decision: an error
-- shows DENY. While the check runs no decision is shown, not even that of the check before.
pub allow_iff_granted :
    (types : List SchemaTypeInfo) (e : Evaluator) (r : Reply Bool) (is_pending : Bool)
    → (((evaluator_view types (end_check r (begin_check e)) is_pending).badge ≡ some allow)
        ↔ (r ≡ ok true))
      × ((evaluator_view types (begin_check e) is_pending).badge ≡ none)
unfolding evaluator_view end_check begin_check
allow_iff_granted types e (ok true) is_pending = ((λ h. refl, λ h. refl), refl)
allow_iff_granted types e (ok false) is_pending = ((λ h. cc, λ h. cc), refl)
allow_iff_granted types e (failed err) is_pending = ((λ h. cc, λ h. cc), refl)
