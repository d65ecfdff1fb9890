-- ===== src/Changelog/Paging.antt =====
-- Pressing "Load More" until there is no more shows the whole log, of entries as they are sent.
use mathlib.Core.List.{append_assoc, append-nil}
use zanguard.Prelude.{
  ℕ, zero, suc, ◌+◌, ◌≤◌, ◌<◌, ◌≡◌, refl, ap, sym, ◌∙◌, false, List, [], ◌∷◌, ◌++◌, if◌then◌else◌,
  arith, leb, ltb, ◌&&◌, length, push, drop, All, All-append, length-append, Bool-cases, inl, inr,
}
use zanguard.Api.Types.{ChangelogEntry}
use zanguard.Changelog.Page.{page_size, last_seq, has_more, load_more}

-- The sequence numbers ascend from above `seq` on.
abbrev pub Ascending : ℕ → List ChangelogEntry → Type 0
Ascending seq [] = Unit
Ascending seq (e ∷ log) = (seq < e.seq) × Ascending e.seq log

-- The loop of `ReadChangelog` on the entries as they are sent.
unfoldable pub sent_from :
    (since limit : ℕ) → List ChangelogEntry → List ChangelogEntry → List ChangelogEntry
sent_from since limit result [] = result
sent_from since limit result (e ∷ log) =
    let longer = push result e in
    let stopped = ltb 0 limit && leb limit (length longer) in
    let rest = sent_from since limit (if ltb since e.seq then longer else result) log in
    if ltb since e.seq && stopped then longer else rest

abbrev Older : ℕ → ChangelogEntry → Type 0
Older seq e = e.seq ≤ seq

abbrev take : ℕ → List ChangelogEntry → List ChangelogEntry
take zero log = []
take (suc n) [] = []
take (suc n) (e ∷ log) = e ∷ take n log

-- The pages that the user sees one after another, `rounds` at most.
unfoldable pub sent_pages : (rounds since : ℕ) → List ChangelogEntry → List ChangelogEntry
sent_pages zero since log = []
sent_pages (suc rounds) since log =
    let page = sent_from since page_size [] log in
    let rest = sent_pages rounds (load_more since page) log in
    if has_more page then page ++ rest else page

sent_from-Older :
    (since limit : ℕ) (result older newer : List ChangelogEntry)
    → All (Older since) older
    → sent_from since limit result (older ++ newer) ≡ sent_from since limit result newer
unfolding sent_from
sent_from-Older since limit result [] newer h = refl
sent_from-Older since limit result (e ∷ older) newer (p, h) =
    ground (arith, sent_from-Older since limit result older newer h)

sent_from-newer :
    (since n : ℕ) (result newer : List ChangelogEntry) (seq : ℕ)
    → since ≤ seq
    → Ascending seq newer
    → sent_from since (length result + suc n) result newer ≡ result ++ take (suc n) newer
unfolding sent_from
sent_from-newer since n result [] seq h a = sym (append-nil result)
sent_from-newer since zero result (e ∷ newer) seq h (p, a) =
    ground (arith, length-append result (e ∷ []))
sent_from-newer since (suc n) result (e ∷ newer) seq h (p, a) =
    let longer : List ChangelogEntry = push result e in
    let same_limit : length longer + suc n ≡ length result + suc (suc n) =
      omega (arith, length-append result (e ∷ [])) in
    let goes_on : sent_from since (length result + suc (suc n)) result (e ∷ newer)
        ≡ sent_from since (length result + suc (suc n)) longer newer =
      ground (arith, length-append result (e ∷ [])) in
    goes_on
    ∙ ap (λ l. sent_from since l longer newer) (sym same_limit)
    ∙ sent_from-newer since n longer newer e.seq (omega arith) a
    ∙ append_assoc result (e ∷ []) (take (suc n) newer)

-- A page of a log whose entries above `since` are `newer`.
page-eq-take :
    (since : ℕ) (older newer : List ChangelogEntry)
    → All (Older since) older
    → Ascending since newer
    → sent_from since page_size [] (older ++ newer) ≡ take page_size newer
page-eq-take since older newer h a =
    sent_from-Older since page_size [] older newer h
    ∙ sent_from-newer since 49 [] newer since (omega arith) a

take-append-drop : (n : ℕ) (log : List ChangelogEntry) → take n log ++ drop n log ≡ log
take-append-drop zero log = refl
take-append-drop (suc n) [] = refl
take-append-drop (suc n) (e ∷ log) = ap (λ r. e ∷ r) (take-append-drop n log)

seq-le-last_seq : (seq : ℕ) (log : List ChangelogEntry) → Ascending seq log → seq ≤ last_seq seq log
unfolding last_seq
seq-le-last_seq seq [] a = omega arith
seq-le-last_seq seq (e ∷ log) (p, a) = omega (arith, seq-le-last_seq e.seq log a)

-- A page splits a log into what is not above its last entry, and what is.
Ascending-take :
    (n seq : ℕ) (log : List ChangelogEntry) → Ascending seq log → Ascending seq (take n log)
Ascending-take zero seq log a = tt
Ascending-take (suc n) seq [] a = tt
Ascending-take (suc n) seq (e ∷ log) (p, a) = (p, Ascending-take n e.seq log a)

Ascending-drop :
    (n seq : ℕ) (log : List ChangelogEntry)
    → Ascending seq log
    → Ascending (last_seq seq (take n log)) (drop n log)
unfolding last_seq
Ascending-drop zero seq log a = a
Ascending-drop (suc n) seq [] a = tt
Ascending-drop (suc n) seq (e ∷ log) (p, a) = Ascending-drop n e.seq log a

Older-last_seq :
    (seq : ℕ) (log : List ChangelogEntry) → Ascending seq log → All (Older (last_seq seq log)) log
unfolding last_seq
Older-last_seq seq [] a = tt
Older-last_seq seq (e ∷ log) (p, a) = (seq-le-last_seq e.seq log a, Older-last_seq e.seq log a)

Older-weaken : (s t : ℕ) (log : List ChangelogEntry) → s ≤ t → All (Older s) log → All (Older t) log
Older-weaken s t [] h o = tt
Older-weaken s t (e ∷ log) h (p, o) = (omega arith, Older-weaken s t log h o)

length-take :
    (n : ℕ) (log : List ChangelogEntry) → length (take n log) + length (drop n log) ≡ length log
length-take n log =
    sym (length-append (take n log) (drop n log)) ∙ ap length (take-append-drop n log)

drop-nil :
    (n : ℕ) (log : List ChangelogEntry) → leb n (length (take n log)) ≡ false → take n log ≡ log
drop-nil zero log h = ground arith
drop-nil (suc n) [] h = refl
drop-nil (suc n) (e ∷ log) h = ap (λ r. e ∷ r) (drop-nil n log (ground arith))

sent_pages-append :
    (rounds since : ℕ) (older newer : List ChangelogEntry)
    → length newer < rounds
    → All (Older since) older
    → Ascending since newer
    → sent_pages rounds since (older ++ newer) ≡ newer
unfolding sent_pages has_more load_more
sent_pages-append zero since older newer enough h a = elim enough [ ]
sent_pages-append (suc rounds) since older newer enough h a =
    let page : List ChangelogEntry = take page_size newer in
    let rest : List ChangelogEntry = drop page_size newer in
    let ascending = Ascending-take page_size since newer a in
    let whole : older ++ newer ≡ (older ++ page) ++ rest =
      ap (λ l. older ++ l) (sym (take-append-drop page_size newer))
      ∙ sym (append_assoc older page rest) in
    rw (page-eq-take since older newer h a) (elim (Bool-cases (leb page_size (length page))) [
      | inl more ↦ rw more (
          ap (λ r. page ++ r)
            (ap (sent_pages rounds (last_seq since page)) whole
              ∙ sent_pages-append rounds (last_seq since page) (older ++ page) rest
                  (ground (arith, length-take page_size newer))
                  (All-append (Older (last_seq since page)) older page
                    (Older-weaken since (last_seq since page) older
                      (seq-le-last_seq since page ascending) h)
                    (Older-last_seq since page ascending))
                  (Ascending-drop page_size since newer a))
          ∙ take-append-drop page_size newer)
      | inr last ↦ rw last (drop-nil page_size newer last)
    ])

-- For a log whose sequence numbers ascend from above 0 on, the pages seen by pressing "Load More"
-- as long as it is offered are, one after another, the whole log: no entry is missing and none is
-- shown twice. As many rounds as the log has entries, and one more, are enough.
pub sent_pages_show_log :
    (log : List ChangelogEntry) → Ascending 0 log → sent_pages (suc (length log)) 0 log ≡ log
sent_pages_show_log log a = sent_pages-append (suc (length log)) 0 [] log (omega arith) tt a
