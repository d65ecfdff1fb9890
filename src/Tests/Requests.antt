-- ===== src/Tests/Requests.antt =====
-- The requests, their filters and the queries at sample data.
use native.Mathlib.Decide.{ℕ_discrete}
use zanguard.Prelude.{◌≡◌, refl, ◌↔◌, Bool, true, false, none, some, List, [], ◌∷◌, ◌++◌}
use zanguard.Js.Text.{text, includes}
use zanguard.Api.Types.{TupleFilter}
use zanguard.Api.Requests.{object_path, subject_path}
use zanguard.Api.Paths.{attribute_paths_injective}
use zanguard.Hooks.Keys.{Key, Part, object_list, subject_list}
use zanguard.Hooks.Invalidation.{
  PrefixRule, refetched, save_object_keys, save_subject_keys, save_attributes_misses_filtered_lists,
}

abbrev docs_of_ann : TupleFilter
docs_of_ann = record {
  object_type = some (text "doc");
  object_id = none;
  relation = some [];
  subject_type = none;
  subject_id = some (text "ann");
  subject_relation = none;
}

attribute_paths_injective_example :
    ((object_path (text "acme") (text "doc") (text "a/b")
        ≡ object_path (text "acme") (text "file") (text "a/b"))
      ↔ (text "doc" ≡ text "file") × (text "a/b" ≡ text "a/b"))
    × ((subject_path (text "acme") (text "doc") (text "a/b")
          ≡ subject_path (text "acme") (text "file") (text "a/b"))
        ↔ (text "doc" ≡ text "file") × (text "a/b" ≡ text "a/b"))
unfolding includes
attribute_paths_injective_example =
    attribute_paths_injective (text "acme") (text "doc") (text "file") (text "a/b") (text "a/b")
      refl refl

-- The rule of `invalidateQueries`, as a function.
Part-discrete : Discrete Part
Part-discrete = hlevel ℕ_discrete

unfoldable is_prefix : Key → Key → Bool
is_prefix [] q = true
is_prefix (p ∷ k) [] = false
is_prefix (p ∷ k) (r ∷ q) = elim (Part-discrete p r) [ yes e ↦ is_prefix k q | no ne ↦ false ]

is_prefix-append : (k rest : Key) → is_prefix k (k ++ rest) ≡ true
unfolding is_prefix
is_prefix-append [] rest = refl
is_prefix-append (p ∷ k) rest = goes_on (Part-discrete p p) (is_prefix-append k rest)
  where
    goes_on :
        (d : Dec (p ≡ p))
        → is_prefix k (k ++ rest) ≡ true
        → elim d [ yes e ↦ is_prefix k (k ++ rest) | no ne ↦ false ] ≡ true
    goes_on (yes e) ih = ih
    goes_on (no ne) ih = absurd (ne refl)

is_prefix_lem : (k q : Key) → is_prefix k q ≡ true → (rest : Key) × (q ≡ k ++ rest)
unfolding is_prefix
is_prefix_lem [] q h = (q, refl)
is_prefix_lem (p ∷ k) [] h = cc
is_prefix_lem (p ∷ k) (r ∷ q) h = goes_on (Part-discrete p r) (λ t. is_prefix_lem k q t) h
  where
    goes_on :
        (d : Dec (p ≡ r))
        → (is_prefix k q ≡ true → (rest : Key) × (q ≡ k ++ rest))
        → elim d [ yes e ↦ is_prefix k q | no ne ↦ false ] ≡ true
        → (rest : Key) × (r ∷ q ≡ p ∷ k ++ rest)
    goes_on (yes e) ih t = let (rest, same_rest) = ih t in (rest, cc (e, same_rest))
    goes_on (no ne) ih t = cc

abbrev is_prefix-PrefixRule : PrefixRule is_prefix
is_prefix-PrefixRule = record { reaches_prefix = is_prefix-append; prefix_reached = is_prefix_lem }

abbrev refetched_by : List Key → Key → Bool
refetched_by = refetched is_prefix is_prefix-PrefixRule

save_attributes_misses_filtered_lists_example :
    (refetched_by
        (save_object_keys (text "acme") (text "doc") (text "1"))
        (object_list (text "acme") (some (text "doc")))
      ≡ false)
    × (refetched_by
          (save_subject_keys (text "acme") (text "doc") (text "1"))
          (subject_list (text "acme") (some (text "doc")))
        ≡ false)
save_attributes_misses_filtered_lists_example =
    save_attributes_misses_filtered_lists is_prefix is_prefix-PrefixRule (text "acme") (text "doc")
      (text "1") (text "doc") refl
