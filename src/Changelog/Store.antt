-- ===== src/Changelog/Store.antt =====
-- `ReadChangelog` of pkg/storage/memory/store.go: the entries of the tenant of the context above a
-- sequence number, at most `limit` of them, or all of them if `limit` is 0.
use zanguard.Prelude.{ℕ, ◌&&◌, List, [], ◌∷◌, if◌then◌else◌, leb, ltb, length, push}
use zanguard.Server.Model.{Context, Result, ok, ◌>>=◌, ChangelogEntry}
use zanguard.Server.Store.{Store, tenant_id_from, check_tenant_readable, changelog_of}

-- The loop over the log; `result` is what was appended so far.
unfoldable pub read_from :
    (since limit : ℕ) → List ChangelogEntry → List ChangelogEntry → List ChangelogEntry
read_from since limit result [] = result
read_from since limit result (e ∷ log) =
    let longer = push result e in
    let stopped = ltb 0 limit && leb limit (length longer) in
    let rest = read_from since limit (if ltb since e.sequence then longer else result) log in
    if ltb since e.sequence && stopped then longer else rest

unfoldable pub read_changelog : Context → (since limit : ℕ) → Store → Result (List ChangelogEntry)
read_changelog ctx since limit s = tenant_id_from ctx >>= λ id.
    check_tenant_readable id s >>= λ _. ok (read_from since limit [] (changelog_of id s))
