-- ===== src/Hooks/Invalidation.antt =====
-- What the `onSuccess` callbacks of the mutations invalidate. Which cached keys
-- `invalidateQueries({ queryKey })` reaches is documented by `react-query`: those that begin with
-- the given key. That rule is a parameter here.
use zanguard.Prelude.{
  ◌≡◌, ◌≢◌, Bool, true, false, none, some, List, [], ◌∷◌, ◌++◌, arith, Bool-cases, inl, inr, any,
}
use zanguard.Js.Text.{Text, is_empty}
use zanguard.Api.Types.{TupleFilter}
use zanguard.Hooks.Keys.{
  Part, str, Key, tuple_lists, tuple_list, schema_detail, object_list, subject_list, object,
  subject,
}

-- The keys that a mutation's `onSuccess` names.
unfoldable pub tuple_mutation_keys : List Key
tuple_mutation_keys = tuple_lists ∷ []

unfoldable pub save_schema_keys : Text → List Key
save_schema_keys tenant_id = schema_detail tenant_id ∷ []

unfoldable pub save_object_keys : Text → Text → Text → List Key
save_object_keys tenant_id kind id = object tenant_id kind id ∷ object_list tenant_id none ∷ []

unfoldable pub save_subject_keys : Text → Text → Text → List Key
save_subject_keys tenant_id kind id = subject tenant_id kind id ∷ subject_list tenant_id none ∷ []

-- The documented rule of `invalidateQueries`.
pub record PrefixRule (reaches : Key → Key → Bool) : Type 0 where
  pub reaches_prefix : (k rest : Key) → reaches k (k ++ rest) ≡ true
  pub prefix_reached : (k q : Key) → reaches k q ≡ true → (rest : Key) × (q ≡ k ++ rest)

module _ (reaches : Key → Key → Bool) (rule : PrefixRule reaches) where
  open rule use {reaches_prefix, prefix_reached}

  -- A cached query is refetched if one of the keys reaches it.
  unfoldable pub refetched : List Key → Key → Bool
  refetched keys q = any (λ k. reaches k q) keys

  -- Writing one tuple or several, or deleting one, invalidates the tuple list of every tenant with
  -- every filter.
  pub tuple_mutation_refetches_lists :
      (tenant_id : Text) (filter : TupleFilter)
      → refetched tuple_mutation_keys (tuple_list tenant_id filter) ≡ true
  unfolding refetched tuple_mutation_keys tuple_list
  tuple_mutation_refetches_lists tenant_id filter =
      ground (arith, reaches_prefix tuple_lists (str tenant_id ∷ Part.tuple_filter filter ∷ []))

  -- Saving the attributes of an object invalidates that object's query and the list of all objects
  -- of its tenant, and saving those of a subject that subject's query and the list of all subjects.
  pub save_attributes_refetches :
      (tenant_id kind id : Text)
      → (refetched (save_object_keys tenant_id kind id) (object tenant_id kind id) ≡ true)
        × (refetched (save_object_keys tenant_id kind id) (object_list tenant_id none) ≡ true)
        × (refetched (save_subject_keys tenant_id kind id) (subject tenant_id kind id) ≡ true)
        × (refetched (save_subject_keys tenant_id kind id) (subject_list tenant_id none) ≡ true)
  unfolding refetched save_object_keys save_subject_keys object subject object_list subject_list
  save_attributes_refetches tenant_id kind id = (
    ground (arith, reaches_prefix (object tenant_id kind id) []),
    ground (arith, reaches_prefix (object_list tenant_id none) []),
    ground (arith, reaches_prefix (subject tenant_id kind id) []),
    ground (arith, reaches_prefix (subject_list tenant_id none) []),
  )

  not_reached : (k q : Key) → ((rest : Key) → q ≢ k ++ rest) → reaches k q ≡ false
  not_reached k q apart = elim (Bool-cases (reaches k q)) [
    | inl hit ↦ let (rest, e) = prefix_reached k q hit in absurd (apart rest e)
    | inr miss ↦ miss
  ]

  -- Saving the attributes of an object does not invalidate a list of objects that is filtered by a
  -- type, not even by the type of that object; and so for subjects.
  pub save_attributes_misses_filtered_lists :
      (tenant_id kind id shown : Text)
      → is_empty shown ≡ false
      → (refetched (save_object_keys tenant_id kind id) (object_list tenant_id (some shown))
          ≡ false)
        × (refetched (save_subject_keys tenant_id kind id) (subject_list tenant_id (some shown))
            ≡ false)
  unfolding refetched save_object_keys save_subject_keys object subject object_list subject_list
  save_attributes_misses_filtered_lists tenant_id kind id [] h = cc
  save_attributes_misses_filtered_lists tenant_id kind id (x ∷ shown) h = (
    ground (
      arith,
      not_reached (object tenant_id kind id) (object_list tenant_id (some (x ∷ shown)))
          (λ rest e. cc e),
      not_reached (object_list tenant_id none) (object_list tenant_id (some (x ∷ shown)))
          (λ rest e. cc e),
    ),
    ground (
      arith,
      not_reached (subject tenant_id kind id) (subject_list tenant_id (some (x ∷ shown)))
          (λ rest e. cc e),
      not_reached (subject_list tenant_id none) (subject_list tenant_id (some (x ∷ shown)))
          (λ rest e. cc e),
    ),
  )
