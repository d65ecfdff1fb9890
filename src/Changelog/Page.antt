-- ===== src/Changelog/Page.antt =====
-- `ChangelogPage` and `ChangelogTable`. The state of the page is `sinceSeq`, at first 0.
use zanguard.Prelude.{
  ℕ, Bool, true, false, Option, none, some, List, [], ◌∷◌, map, if◌then◌else◌, leb, length,
}
use zanguard.Js.Text.{Text, text, is_empty}
use zanguard.Api.Types.{ChangeOp, insert, delete, update, ChangelogEntry, ChangelogResponse}
use zanguard.Hooks.Queries.{Query, use_changelog}
use zanguard.Tuples.Display.{tuple_display, display_props}

abbrev pub page_size : ℕ
page_size = 50

-- `useChangelog(selectedTenantId, sinceSeq, 50)`
unfoldable pub page_query : Option Text → ℕ → Query
page_query tenant since_seq = use_changelog tenant (some since_seq) (some page_size)

-- `entries[entries.length - 1].seq`, behind entries that end at `seq`.
unfoldable pub last_seq : ℕ → List ChangelogEntry → ℕ
last_seq seq [] = seq
last_seq seq (e ∷ entries) = last_seq e.seq entries

-- `data.entries.length >= 50`
unfoldable pub has_more : List ChangelogEntry → Bool
has_more entries = leb page_size (length entries)

-- The new `sinceSeq` of the button "Load More", which is there only where there is more.
unfoldable pub load_more : ℕ → List ChangelogEntry → ℕ
load_more since_seq entries = if has_more entries then last_seq since_seq entries else since_seq

pub data Variant : Type 0 where
  default destructive secondary : Variant

-- `opVariants`
unfoldable pub op_variant : ChangeOp → Variant
op_variant insert = default
op_variant delete = destructive
op_variant update = secondary

pub record LogRow : Type 0 where
  pub seq : ℕ
  pub op : ChangeOp
  pub variant : Variant
  pub tuple : Text
  pub ts : Text
  pub source : Text
  pub actor : Text

-- `entry.actor || "-"`
unfoldable pub log_row : ChangelogEntry → LogRow
log_row e = record {
  seq = e.seq;
  op = e.op;
  variant = op_variant e.op;
  tuple = tuple_display (display_props e.tuple);
  ts = e.ts;
  source = e.source;
  actor = if is_empty e.actor then text "-" else e.actor;
}

pub data LogTable : Type 0 where
  no_entries : LogTable
  rows : List LogRow → LogTable

unfoldable pub changelog_table : List ChangelogEntry → LogTable
changelog_table [] = no_entries
changelog_table (e ∷ entries) = rows (map log_row (e ∷ entries))

pub data ChangelogPage : Type 0 where
  no_tenant : ChangelogPage
  loading : (latest : Option ℕ) → ChangelogPage
  failed : ChangelogPage
  loaded : (latest : ℕ) → LogTable → (load_more : Bool) → ChangelogPage

abbrev latest_of : Option ChangelogResponse → Option ℕ
latest_of none = none
latest_of (some r) = some r.latest_sequence

abbrev body : Bool → Option ChangelogResponse → ChangelogPage
body true r = loading (latest_of r)
body false none = failed
body false (some r) = loaded r.latest_sequence (changelog_table r.entries) (has_more r.entries)

unfoldable pub changelog_page :
    Option Text → (is_loading : Bool) → Option ChangelogResponse → ChangelogPage
changelog_page none is_loading response = no_tenant
changelog_page (some id) is_loading response =
    if is_empty id then no_tenant else body is_loading response
