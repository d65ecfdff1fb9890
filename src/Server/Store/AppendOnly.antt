-- ===== src/Server/Store/AppendOnly.antt =====
-- What sequences of operations leave of a changelog.
use zanguard.Prelude.{ℕ, suc, ◌≡◌, refl, true, List, [], ◌∷◌, ◌++◌}
use zanguard.Js.Text.{Text}
use zanguard.Js.Maps
use zanguard.Js.Maps.{Map, get-set, has-set}
use zanguard.Server.Model.{ok, ChangelogEntry}
use zanguard.Server.Store.{Store, changelog_of, sequence_of}
use zanguard.Server.Store.Reach.{Op, apply, Reach, step, Counts, IsNumbered, Reach-IsNumbered}
use zanguard.Server.Store.Growth.{IsKeeping, Grown, Grown-same, Grown-trans, apply-Grown}

module _ (id : Text) where
  -- Operations that succeed one after another, none of which purges the tenant.
  pub data Run (s : Store) : Store → Type 0 where
    here : Run s s
    next :
        {s' s'' : Store} (now : ℕ) (op : Op)
        → Run s s'
        → IsKeeping id op
        → apply now op s' ≡ ok s''
        → Run s s''

  Run-Grown : {s s' : Store} → Maps.has id s.tenants ≡ true → Run s s' → Grown id s s'
  Run-Grown t here = Grown-same id _ _ refl t
  Run-Grown t (next now op r k e) =
      let h = Run-Grown t r in Grown-trans id _ _ _ h (apply-Grown id now op _ _ e k h.there)

  Run-Reach : {s s' : Store} → Reach s → Run s s' → Reach s'
  Run-Reach h here = h
  Run-Reach h (next now op r k e) = step now op (Run-Reach h r) e

Counts-behind :
    (k m n : ℕ) (log newer : List ChangelogEntry)
    → Counts k log m
    → Counts k (log ++ newer) n
    → Counts m newer n
Counts-behind k m n [] newer h g = rw h at g
Counts-behind k m n (e ∷ log) newer (p, h) (q, g) = Counts-behind (suc k) m n log newer h g

-- From a memory store that the operations reach and that has the tenant, as long as the tenant is not
-- purged: the changelog keeps all its entries, new ones stand behind them, and their numbers go on
-- from the tenant's counter without gaps, up to its new counter.
pub changelog_grows :
    (id : Text) (s s' : Store)
    → Reach s
    → Maps.has id s.tenants ≡ true
    → Run id s s'
    → (newer : List ChangelogEntry) × (changelog_of id s' ≡ changelog_of id s ++ newer)
      × Counts (sequence_of id s) newer (sequence_of id s')
unfolding IsNumbered
changelog_grows id s s' h t r =
    let g = Run-Grown id t r in
    (
      g.newer,
      g.log,
      Counts-behind 0 (sequence_of id s) (sequence_of id s') (changelog_of id s) g.newer
          (Reach-IsNumbered s h id) (rw g.log at (Reach-IsNumbered s' (Run-Reach id h r) id)),
    )
