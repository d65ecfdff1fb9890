-- ===== src/Changelog/Server.antt =====
-- The changelog page against the memory store.
use zanguard.Prelude.{
  ℕ, zero, suc, ◌≡◌, refl, ap, ◌∙◌, ◌++◌, push, inl, inr, Option, none, some, List, [], ◌∷◌, map,
  arith, length, Bool, true, false, if◌then◌else◌,
}
use zanguard.Js.Text.{Text, is_empty}
use zanguard.Js.Maps.{Map}
use zanguard.Api.Types as Api
use zanguard.Server.Model.{ChangelogEntry, RelationTuple, Context, TenantContext, Result, ok, ◌>>=◌}
use zanguard.Server.Store.{Store, changelog_of, sequence_of, check_tenant_readable}
use zanguard.Server.Store.Reach.{Reach, Counts, Reach-IsNumbered, IsNumbered}
use mathlib.Core.List.{map-append}
use zanguard.Changelog.Paging.{Ascending, sent_from, sent_pages, sent_pages_show_log}
use zanguard.Server.Engine.Sound.{Result-cases}
use zanguard.Changelog.Page.{page_size, has_more, load_more}
use zanguard.Changelog.Store.{read_from, read_changelog}

-- The JSON of an entry, where `omitempty` leaves out an empty text and an empty map; `show_time` is
-- how a time is written.
abbrev omitted : Text → Option Text
omitted s = if is_empty s then none else some s

abbrev omitted_map {ℓ} : {V : Type ℓ} → Map V → Option (Map V)
omitted_map [] = none
omitted_map (x ∷ m) = some (x ∷ m)

module _ (show_time : ℕ → Text) where
  unfoldable pub tuple_sent : RelationTuple → Api.RelationTuple
  tuple_sent t = record {
    tenant_id = t.tenant_id;
    object_type = t.object_type;
    object_id = t.object_id;
    relation = t.relation;
    subject_type = t.subject_type;
    subject_id = t.subject_id;
    subject_relation = omitted t.subject_relation;
    subject_tenant_id = omitted t.subject_tenant_id;
    attributes = omitted_map t.attributes;
    created_at = show_time t.created_at;
    updated_at = show_time t.updated_at;
    source_system = omitted t.source_system;
    external_id = omitted t.external_id;
  }

  unfoldable pub entry_sent : ChangelogEntry → Api.ChangelogEntry
  entry_sent e = record {
    seq = e.sequence;
    tenant_id = e.tenant_id;
    op = e.operation;
    tuple = tuple_sent e.tuple;
    ts = show_time e.timestamp;
    actor = e.actor;
    source = e.source;
    meta = omitted_map e.metadata;
  }

  Counts-Ascending :
      (k n : ℕ) (log : List ChangelogEntry) → Counts k log n → Ascending k (map entry_sent log)
  unfolding entry_sent
  Counts-Ascending k n [] h = tt
  Counts-Ascending k n (e ∷ log) (q, h) = (omega arith, rw q (Counts-Ascending (suc k) n log h))

  -- The pages that the user sees one after another, `rounds` at most, from a tenant that does not
  -- change meanwhile; the pages end where a read fails.
  unfoldable pub pages : Context → Store → (rounds since : ℕ) → Result (List Api.ChangelogEntry)
  pages ctx s zero since = ok []
  pages ctx s (suc rounds) since = read_changelog ctx since page_size s >>= λ entries.
      let page = map entry_sent entries in
      let rest = pages ctx s rounds (load_more since page) in
      if has_more page then (rest >>= λ later. ok (page ++ later)) else ok page

  length-sent : (log : List ChangelogEntry) → length (map entry_sent log) ≡ length log
  length-sent [] = refl
  length-sent (e ∷ log) = ap suc (length-sent log)

  sent_from-eq-map :
      (since limit : ℕ) (result log : List ChangelogEntry)
      → sent_from since limit (map entry_sent result) (map entry_sent log)
        ≡ map entry_sent (read_from since limit result log)
  unfolding sent_from read_from entry_sent
  sent_from-eq-map since limit result [] = refl
  sent_from-eq-map since limit result (e ∷ log) =
      let pushed : map entry_sent (push result e) ≡ push (map entry_sent result) (entry_sent e) =
        map-append entry_sent result (e ∷ []) in
      ground (
        arith,
        pushed,
        length-sent (push result e),
        sent_from-eq-map since limit result log,
        sent_from-eq-map since limit (push result e) log,
      )

  go_on :
      (more : Bool) (page : List Api.ChangelogEntry) (later : Result (List Api.ChangelogEntry))
      → (rest : List Api.ChangelogEntry) → later ≡ ok rest
      → (if more then (later >>= λ r. ok (page ++ r)) else ok page)
        ≡ ok (if more then page ++ rest else page)
  go_on true page later rest e = rw e refl
  go_on false page later rest e = refl

  module _ (s : Store) (tc : TenantContext) where
    abbrev sent_log : List Api.ChangelogEntry
    sent_log = map entry_sent (changelog_of tc.tenant_id s)

    pages-eq-sent :
        (rounds since : ℕ)
        → check_tenant_readable tc.tenant_id s ≡ ok tt
        → pages (some tc) s rounds since ≡ ok (sent_pages rounds since sent_log)
    unfolding pages sent_pages read_changelog
    pages-eq-sent zero since readable = refl
    pages-eq-sent (suc rounds) since readable =
        let first_page : List Api.ChangelogEntry =
          map entry_sent (read_from since page_size [] (changelog_of tc.tenant_id s)) in
        rw (readable, sent_from-eq-map since page_size [] (changelog_of tc.tenant_id s))
          (go_on (has_more first_page) first_page
            (pages (some tc) s rounds (load_more since first_page))
            (sent_pages rounds (load_more since first_page) sent_log)
            (pages-eq-sent rounds (load_more since first_page) readable))

    -- For every memory store that the operations reach and every tenant, the pages that the changelog
    -- page gets by `ReadChangelog` are, one after another, the tenant's whole changelog as it stands in
    -- JSON, if the tenant is there and not deleted; otherwise the first read fails with the error of
    -- `checkTenantReadable`. As many rounds as the log has entries, and one more, are enough.
    pub reached_pages_show_log :
        Reach s
        → pages (some tc) s (suc (length sent_log)) 0
          ≡ (check_tenant_readable tc.tenant_id s >>= λ _. ok sent_log)
    unfolding IsNumbered
    reached_pages_show_log r = elim (Result-cases (check_tenant_readable tc.tenant_id s)) [
      | inl (_, readable) ↦
          pages-eq-sent (suc (length sent_log)) 0 readable
          ∙ ap ok (
              sent_pages_show_log sent_log (
                Counts-Ascending 0 (sequence_of tc.tenant_id s) (changelog_of tc.tenant_id s)
                  (Reach-IsNumbered s r tc.tenant_id)))
          ∙ rw readable refl
      | inr (e, refused) ↦ unfold pages read_changelog in rw refused refl
    ]
