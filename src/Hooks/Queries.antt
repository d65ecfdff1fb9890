-- ===== src/Hooks/Queries.antt =====
-- The `useQuery` hooks: the key, whether the query is enabled, and the request of `queryFn`. The
-- tenant is null where none is selected; `react-query` calls `queryFn` only of enabled queries.
use zanguard.Prelude.{ℕ, Bool, true, false, not, ◌&&◌, Option, none, some, [], or_else}
use zanguard.Js.Text.{Text, is_empty}
use zanguard.Api.Types.{TupleFilter}
use zanguard.Api.Requests as Api
use zanguard.Api.Requests.{Request, no_filter, or_no_filter}
use zanguard.Hooks.Keys
use zanguard.Hooks.Keys.{Key}

pub record Query : Type 0 where
  pub key : Key
  pub request : Request
  pub enabled : Bool

-- `!!tenantId`
abbrev pub is_selected : Option Text → Bool
is_selected none = false
is_selected (some id) = not (is_empty id)

abbrev pub tenant_or_empty : Option Text → Text
tenant_or_empty tenant = or_else tenant []

unfoldable pub use_tenants : Option Text → Query
use_tenants status = record {
  key = Keys.tenants_list status;
  request = Api.list_tenants status none none none;
  enabled = true;
}

unfoldable pub use_tenant : Option Text → Query
use_tenant tenant = record {
  key = Keys.tenant_detail (tenant_or_empty tenant);
  request = Api.get_tenant (tenant_or_empty tenant);
  enabled = is_selected tenant;
}

unfoldable pub use_schema : Option Text → Query
use_schema tenant = record {
  key = Keys.schema_detail (tenant_or_empty tenant);
  request = Api.get_schema (tenant_or_empty tenant);
  enabled = is_selected tenant;
}

unfoldable pub use_tuples : Option Text → Option TupleFilter → Query
use_tuples tenant filter = record {
  key = Keys.tuple_list (tenant_or_empty tenant) (or_no_filter filter);
  request = Api.read_tuples (tenant_or_empty tenant) filter;
  enabled = is_selected tenant;
}

unfoldable pub use_list_object_attributes : Option Text → Option Text → Query
use_list_object_attributes tenant kind = record {
  key = Keys.object_list (tenant_or_empty tenant) kind;
  request = Api.list_object_attributes (tenant_or_empty tenant) kind;
  enabled = is_selected tenant;
}

unfoldable pub use_list_subject_attributes : Option Text → Option Text → Query
use_list_subject_attributes tenant kind = record {
  key = Keys.subject_list (tenant_or_empty tenant) kind;
  request = Api.list_subject_attributes (tenant_or_empty tenant) kind;
  enabled = is_selected tenant;
}

unfoldable pub use_object_attributes : Option Text → Text → Text → Query
use_object_attributes tenant kind id = record {
  key = Keys.object (tenant_or_empty tenant) kind id;
  request = Api.get_object_attributes (tenant_or_empty tenant) kind id;
  enabled = is_selected tenant && not (is_empty kind) && not (is_empty id);
}

unfoldable pub use_subject_attributes : Option Text → Text → Text → Query
use_subject_attributes tenant kind id = record {
  key = Keys.subject (tenant_or_empty tenant) kind id;
  request = Api.get_subject_attributes (tenant_or_empty tenant) kind id;
  enabled = is_selected tenant && not (is_empty kind) && not (is_empty id);
}

-- `sinceSeq ?? 0` and `limit ?? 100` in the key; the request has `since_seq` as given.
unfoldable pub use_changelog : Option Text → Option ℕ → Option ℕ → Query
use_changelog tenant since_seq limit = record {
  key = Keys.changelog_list (tenant_or_empty tenant) (or_else since_seq 0) (or_else limit 100);
  request = Api.read_changelog (tenant_or_empty tenant) since_seq (some (or_else limit 100));
  enabled = is_selected tenant;
}
