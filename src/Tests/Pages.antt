-- ===== src/Tests/Pages.antt =====
-- The layout, the schema, explorer and changelog pages at sample data.
use zanguard.Prelude.{
  ℕ, zero, suc, ◌+◌, ◌≡◌, refl, ◌↔◌, true, false, none, some, List, [], ◌∷◌, All, length, arith,
}
use zanguard.Js.Text.{Text, text}
use zanguard.Js.Json.{str}
use zanguard.Api.Types.{
  Tenant, TenantStatus, SchemaMode, SubjectRef, SubjectTree, Children, tree, child, nil,
  ChangelogEntry, ChangeOp, RelationTuple,
}
use zanguard.Api.Requests.{load_schema}
use zanguard.Ui.{ok, failed}
use zanguard.Layout.TenantSelector.{select_effect}
use zanguard.Layout.Selection.{IsAmong, select_effect-IsAmong}
use zanguard.Schema.Evaluator.{
  initial, evaluator_view, end_check, begin_check, allow, allow_iff_granted,
}
use zanguard.Schema.Page.{Editor}
use zanguard.Schema.Switching.{Session, visit_all, request_of, switching_tenant_keeps_text}
use zanguard.Explorer.Flow.{tree_to_flow}
use zanguard.Explorer.Shape.{size, node_ids, flow_counts}
use zanguard.Explorer.Ends.{EndsIn, flow_edges_end_at_nodes}
use zanguard.Explorer.Drawing.{session, first_flow, first_drawing_stays}
use zanguard.Changelog.Paging.{Ascending}

abbrev tenant : Text → Tenant
tenant id = record {
  id = id;
  display_name = id;
  parent_tenant_id = none;
  status = TenantStatus.active;
  schema_mode = SchemaMode.own;
  shared_schema_ref = none;
  config = record {
    max_tuples = 0;
    max_requests_per_sec = 0;
    cache_ttl_override = none;
    allowed_object_types = none;
    retention_days = 0;
    sync_enabled = false;
    webhook_url = none;
    metadata = none;
  };
  created_at = text "t0";
  updated_at = text "t0";
}

select_effect-IsAmong_example :
    IsAmong
      (select_effect false (tenant (text "a") ∷ tenant (text "super") ∷ []) (some (text "gone")))
      (tenant (text "a") ∷ tenant (text "super") ∷ [])
select_effect-IsAmong_example =
    select_effect-IsAmong (tenant (text "a")) (tenant (text "super") ∷ []) (some (text "gone"))

allow_iff_granted_example :
    (((evaluator_view [] (end_check (ok false) (begin_check initial)) false).badge ≡ some allow)
      ↔ (ok false ≡ ok true))
    × ((evaluator_view [] (begin_check initial) false).badge ≡ none)
allow_iff_granted_example = allow_iff_granted [] initial (ok false) false

abbrev draft : Editor
draft = record { value = text "types:"; errors = str (text "") }

abbrev edited : Session
edited = record { tenant = some (text "a"); editor = some draft }

switching_tenant_keeps_text_example :
    ((visit_all ((text "b", none) ∷ (text "c", none) ∷ []) edited).editor ≡ some draft)
    × (request_of (visit_all ((text "b", none) ∷ (text "c", none) ∷ []) edited)
        ≡ some (load_schema (text "c") draft.value))
switching_tenant_keeps_text_example =
    switching_tenant_keeps_text ((text "b", none) ∷ []) (text "c") none (some (text "a")) draft
      (refl, tt) refl

abbrev subject : Text → SubjectRef
subject id = record { kind = text "user"; id = id; relation = none }

abbrev leaf : Text → SubjectTree
leaf id = tree (subject id) Children.nil

abbrev team : SubjectTree
team = tree (subject (text "team")) (child (leaf (text "ann")) (child (leaf (text "bob")) nil))

flow_counts_example :
    (length (tree_to_flow team none 0).nodes ≡ size team)
    × (length (tree_to_flow team none 0).edges + 1 ≡ size team)
flow_counts_example = flow_counts team

flow_edges_end_at_nodes_example :
    All (EndsIn (node_ids (tree_to_flow team none 0).nodes)) (tree_to_flow team none 0).edges
flow_edges_end_at_nodes_example = flow_edges_end_at_nodes team

first_drawing_stays_example :
    session
      (failed (record { message = str (text "timeout"); details = none })
        ∷ ok team
        ∷ ok (leaf (text "ann"))
        ∷ [])
      (record {
        form = record { object_type = text "doc"; object_id = text "1"; relation = text "viewer" };
        tree = none;
      })
      none
    ≡ first_flow (
        failed (record { message = str (text "timeout"); details = none })
        ∷ ok team
        ∷ ok (leaf (text "ann"))
        ∷ [])
first_drawing_stays_example =
    first_drawing_stays
      (failed (record { message = str (text "timeout"); details = none })
        ∷ ok team
        ∷ ok (leaf (text "ann"))
        ∷ [])
      (record { object_type = text "doc"; object_id = text "1"; relation = text "viewer" })

abbrev stored : RelationTuple
stored = record {
  tenant_id = text "acme";
  object_type = text "doc";
  object_id = text "1";
  relation = text "viewer";
  subject_type = text "user";
  subject_id = text "ann";
  subject_relation = none;
  subject_tenant_id = none;
  attributes = none;
  created_at = text "t0";
  updated_at = text "t0";
  source_system = none;
  external_id = none;
}

abbrev entry : ℕ → ChangelogEntry
entry seq = record {
  seq = seq;
  tenant_id = text "acme";
  op = ChangeOp.insert;
  tuple = stored;
  ts = text "t0";
  actor = text "ann";
  source = text "api";
  meta = none;
}

-- The sequence numbers from `seq` on, `n` of them.
abbrev entries_from : ℕ → ℕ → List ChangelogEntry
entries_from zero seq = []
entries_from (suc n) seq = entry seq ∷ entries_from n (suc seq)

entries_from-Ascending : (n seq : ℕ) → Ascending seq (entries_from n (suc seq))
entries_from-Ascending zero seq = tt
entries_from-Ascending (suc n) seq = (omega arith, entries_from-Ascending n (suc seq))
