-- ===== src/Tuples/Page.antt =====
-- `TuplesPage` of console/src/app/tuples/page.tsx. Its state is the filter.
use zanguard.Prelude.{ℕ, Bool, true, false, Option, none, some, List, [], if◌then◌else◌}
use zanguard.Js.Text.{Text, is_empty}
use zanguard.Api.Types.{RelationTuple, TupleFilter}
use zanguard.Api.Requests.{no_filter}
use zanguard.Hooks.Queries.{Query, use_tuples}
use zanguard.Tuples.Filters.{FilterField, FiltersView, update_field, tuple_filters}
use zanguard.Tuples.Table.{Target, TableView, tuple_table}

pub data FilterEvent : Type 0 where
  change : FilterField → Text → FilterEvent
  clear : FilterEvent

unfoldable pub handle_filter : FilterEvent → TupleFilter → TupleFilter
handle_filter (change field value) f = update_field field value f
handle_filter clear f = no_filter

-- `useTuples(selectedTenantId, filter)`
unfoldable pub page_query : Option Text → TupleFilter → Query
page_query tenant f = use_tuples tenant (some f)

-- The response, as far as the page reads it; `tuples` may be null.
pub record Tuples : Type 0 where
  pub count : ℕ
  pub tuples : Option (List RelationTuple)

pub data Content : Type 0 where
  skeleton : Content
  table : TableView → Content
  empty_state : Content

pub data TuplesPage : Type 0 where
  no_tenant : TuplesPage
  page : (total : Option ℕ) → FiltersView → Content → TuplesPage

abbrev total_of : Option Tuples → Option ℕ
total_of none = none
total_of (some d) = some d.count

abbrev rows_of : Option (List RelationTuple) → List RelationTuple
rows_of none = []
rows_of (some ts) = ts

module _ (show_date : Text → Text) where
  abbrev content : Bool → Option Tuples → Target → Bool → Content
  content true d target is_pending = skeleton
  content false none target is_pending = empty_state
  content false (some d) target is_pending =
      table (tuple_table show_date (rows_of d.tuples) target is_pending)

  unfoldable pub tuples_page :
      Option Text
      → TupleFilter
      → (is_loading : Bool) → Option Tuples
      → Target
      → (is_deleting : Bool) → TuplesPage
  tuples_page none f is_loading d target is_deleting = no_tenant
  tuples_page (some id) f is_loading d target is_deleting =
      if is_empty id
      then no_tenant
      else page (total_of d) (tuple_filters f) (content is_loading d target is_deleting)
