-- ===== src/Api/Requests.antt =====
-- The requests that console/src/lib/api/{tenants,schemas,tuples,changelog,expand,check,attributes}.ts
-- hand to `ky`: method, path, search parameters and body. `ky` sends them, and is not modelled.
use zanguard.Prelude.{ℕ, Option, none, some, List, [], ◌∷◌, ◌++◌, if◌then◌else◌, ◌==◌}
use zanguard.Js.Text.{Text, text, is_empty}
use zanguard.Js.Numbers.{show_number}
use zanguard.Js.Json.{Json}
use zanguard.Js.Objects.{Object}
use zanguard.Api.Types.{TupleRequest, ExpandRequest, TupleFilter}

pub data Method : Type 0 where
  get post put delete : Method

pub record CheckRequest : Type 0 where
  pub subject_type : Text
  pub subject_id : Text
  pub resource_type : Text
  pub resource_id : Text
  pub action : Text

-- The nested body of an evaluation.
pub record Evaluation : Type 0 where
  pub subject : record { kind : Text; id : Text }
  pub resource : record { kind : Text; id : Text }
  pub action : record { name : Text }

pub data Body : Type 0 where
  empty : Body
  yaml : Text → Body
  tuple : TupleRequest → Body
  batch : List TupleRequest → Body
  expand : ExpandRequest → Body
  evaluation : Evaluation → Body
  attributes : Object Json → Body

abbrev pub Params : Type 0
Params = List (Text × Text)

pub record Request : Type 0 where
  pub method : Method
  pub path : Text
  pub params : Params
  pub headers : Params
  pub body : Body

-- `if (value) searchParams[name] = value`
abbrev pub if_given : Text → Option Text → Params
if_given name none = []
if_given name (some value) = if is_empty value then [] else (name, value) ∷ []

-- `if (n) searchParams[name] = String(n)`: neither `undefined` nor 0
abbrev pub if_positive : Text → Option ℕ → Params
if_positive name none = []
if_positive name (some n) = if n == 0 then [] else (name, show_number n) ∷ []

-- `if (n !== undefined) searchParams[name] = String(n)`
abbrev pub if_defined : Text → Option ℕ → Params
if_defined name none = []
if_defined name (some n) = (name, show_number n) ∷ []

abbrev pub fetch : Text → Params → Request
fetch path params = record {
  method = get;
  path = path;
  params = params;
  headers = [];
  body = empty;
}

abbrev pub send : Method → Text → Body → Request
send method path body = record {
  method = method;
  path = path;
  params = [];
  headers = [];
  body = body;
}

-- `api/v1/t/${tenantId}` and what follows it
abbrev pub tenant_path : Text → Text → Text
tenant_path tenant_id rest = text "api/v1/t/" ++ tenant_id ++ rest

abbrev pub tenants_path : Text → Text → Text
tenants_path tenant_id rest = text "api/v1/tenants/" ++ tenant_id ++ rest

unfoldable pub list_tenants : (status parent_id : Option Text) (limit offset : Option ℕ) → Request
list_tenants status parent_id limit offset = fetch (text "api/v1/tenants") (
    if_given (text "status") status
    ++ if_given (text "parent_id") parent_id
    ++ if_positive (text "limit") limit
    ++ if_positive (text "offset") offset)

unfoldable pub get_tenant : Text → Request
get_tenant tenant_id = fetch (tenants_path tenant_id []) []

unfoldable pub get_schema : Text → Request
get_schema tenant_id = fetch (tenants_path tenant_id (text "/schema")) []

unfoldable pub load_schema : Text → Text → Request
load_schema tenant_id source = record {
  method = put;
  path = tenants_path tenant_id (text "/schema");
  params = [];
  headers = (text "Content-Type", text "application/yaml") ∷ [];
  body = yaml source;
}

-- The search parameters of `readTuples`.
unfoldable pub filter_params : TupleFilter → Params
filter_params f =
    if_given (text "object_type") f.object_type
    ++ if_given (text "object_id") f.object_id
    ++ if_given (text "relation") f.relation
    ++ if_given (text "subject_type") f.subject_type
    ++ if_given (text "subject_id") f.subject_id
    ++ if_given (text "subject_relation") f.subject_relation

abbrev pub no_filter : TupleFilter
no_filter = record {
  object_type = none;
  object_id = none;
  relation = none;
  subject_type = none;
  subject_id = none;
  subject_relation = none;
}

abbrev pub or_no_filter : Option TupleFilter → TupleFilter
or_no_filter none = no_filter
or_no_filter (some f) = f

unfoldable pub read_tuples : Text → Option TupleFilter → Request
read_tuples tenant_id filter =
    fetch (tenant_path tenant_id (text "/tuples")) (filter_params (or_no_filter filter))

unfoldable pub write_tuple : Text → TupleRequest → Request
write_tuple tenant_id t = send post (tenant_path tenant_id (text "/tuples")) (tuple t)

unfoldable pub write_tuples_batch : Text → List TupleRequest → Request
write_tuples_batch tenant_id ts =
    send post (tenant_path tenant_id (text "/tuples/batch")) (batch ts)

unfoldable pub delete_tuple : Text → TupleRequest → Request
delete_tuple tenant_id t = send delete (tenant_path tenant_id (text "/tuples")) (tuple t)

unfoldable pub read_changelog : Text → (since_seq limit : Option ℕ) → Request
read_changelog tenant_id since_seq limit =
    fetch (tenant_path tenant_id (text "/changelog"))
      (if_defined (text "since_seq") since_seq ++ if_defined (text "limit") limit)

unfoldable pub expand_relation : Text → ExpandRequest → Request
expand_relation tenant_id req = send post (tenant_path tenant_id (text "/expand")) (expand req)

unfoldable pub check_permission : Text → CheckRequest → Request
check_permission tenant_id req = record {
  method = post;
  path = text "access/v1/evaluation";
  params = [];
  headers = (text "X-Tenant-ID", tenant_id) ∷ [];
  body = evaluation (record {
    subject = record { kind = req.subject_type; id = req.subject_id };
    resource = record { kind = req.resource_type; id = req.resource_id };
    action = record { name = req.action };
  });
}

unfoldable pub list_object_attributes : Text → Option Text → Request
list_object_attributes tenant_id object_type =
    fetch (tenant_path tenant_id (text "/attributes/objects")) (if_given (text "type") object_type)

unfoldable pub list_subject_attributes : Text → Option Text → Request
list_subject_attributes tenant_id subject_type =
    fetch (tenant_path tenant_id (text "/attributes/subjects"))
      (if_given (text "type") subject_type)

abbrev pub slash : Text → Text → Text
slash kind id = kind ++ b'/' ∷ id

unfoldable pub object_path : Text → Text → Text → Text
object_path tenant_id kind id = tenant_path tenant_id (text "/attributes/objects/" ++ slash kind id)

unfoldable pub subject_path : Text → Text → Text → Text
subject_path tenant_id kind id =
    tenant_path tenant_id (text "/attributes/subjects/" ++ slash kind id)

unfoldable pub get_object_attributes : Text → Text → Text → Request
get_object_attributes tenant_id kind id = fetch (object_path tenant_id kind id) []

unfoldable pub set_object_attributes : Text → Text → Text → Object Json → Request
set_object_attributes tenant_id kind id attrs =
    send put (object_path tenant_id kind id) (attributes attrs)

unfoldable pub get_subject_attributes : Text → Text → Text → Request
get_subject_attributes tenant_id kind id = fetch (subject_path tenant_id kind id) []

unfoldable pub set_subject_attributes : Text → Text → Text → Object Json → Request
set_subject_attributes tenant_id kind id attrs =
    send put (subject_path tenant_id kind id) (attributes attrs)
