-- ===== src/Tuples/RoundTrip.antt =====
-- What can be read back from the text of a tuple.
use mathlib.Core.List.{append-nil}
use zanguard.Prelude.{
  ℕ, ◌≡◌, ◌≢◌, refl, ap, true, false, Option, none, some, [], ◌∷◌, ◌++◌, if◌then◌else◌, arith,
}
use zanguard.Js.Text.{Text, includes, before, after, before-append, after-append}
use zanguard.Tuples.Display.{TupleDisplayProps, relation_suffix, tuple_display}

read_suffix : Text → Option Text
read_suffix s = if includes b'#' s then some (after b'#' s) else none

-- A reader of the notation `type:id#relation@type:id#relation`, which cuts at the first separators.
pub read_tuple : Text → TupleDisplayProps
read_tuple s =
    let s₁ = after b':' s in
    let s₂ = after b'#' s₁ in
    let s₃ = after b'@' s₂ in
    let s₄ = after b':' s₃ in
    record {
      object_type = before b':' s;
      object_id = before b'#' s₁;
      relation = before b'@' s₂;
      subject_type = before b':' s₃;
      subject_id = before b'#' s₄;
      subject_relation = read_suffix s₄;
    }

-- No part holds the separator that ends it, and a subject relation is not the empty text.
pub record IsReadable (t : TupleDisplayProps) : Type 0 where
  pub object_type_free : includes b':' t.object_type ≡ false
  pub object_id_free : includes b'#' t.object_id ≡ false
  pub relation_free : includes b'@' t.relation ≡ false
  pub subject_type_free : includes b':' t.subject_type ≡ false
  pub subject_id_free : includes b'#' t.subject_id ≡ false
  pub suffix_given : t.subject_relation ≢ some []

before-none : (c : ℕ) (a : Text) → includes c a ≡ false → before c a ≡ a
unfolding includes before
before-none c [] h = refl
before-none c (x ∷ a) h = ground (arith, before-none c a)

includes-append_self : (c : ℕ) (a b : Text) → includes c (a ++ c ∷ b) ≡ true
unfolding includes
includes-append_self c [] b = ground arith
includes-append_self c (x ∷ a) b = ground (arith, includes-append_self c a b)

-- The last two parts.
module _ (id : Text) (free : includes b'#' id ≡ false) where
  read_id : (r : Option Text) → r ≢ some [] → before b'#' (id ++ relation_suffix r) ≡ id
  read_id none h = rw append-nil (before-none b'#' id free)
  read_id (some []) h = absurd (h refl)
  read_id (some (x ∷ r)) h = before-append b'#' id (x ∷ r) free

  read_relation : (r : Option Text) → r ≢ some [] → read_suffix (id ++ relation_suffix r) ≡ r
  unfolding read_suffix
  read_relation none h = rw (append-nil, free)
  read_relation (some []) h = absurd (h refl)
  read_relation (some (x ∷ r)) h =
      rw (includes-append_self b'#' id (x ∷ r)) (ap some (after-append b'#' id (x ∷ r) free))

-- A tuple whose parts are free of the separators that end them, and whose subject relation is not
-- the empty text, is read back from its display.
pub read-tuple_display : (t : TupleDisplayProps) → IsReadable t → read_tuple (tuple_display t) ≡ t
unfolding read_tuple tuple_display
read-tuple_display t h =
    let tail = t.subject_id ++ relation_suffix t.subject_relation in
    let s₃ = t.subject_type ++ b':' ∷ tail in
    let s₂ = t.relation ++ b'@' ∷ s₃ in
    let s₁ = t.object_id ++ b'#' ∷ s₂ in
    rw (
      before-append b':' t.object_type s₁ h.object_type_free,
      after-append b':' t.object_type s₁ h.object_type_free,
      before-append b'#' t.object_id s₂ h.object_id_free,
      after-append b'#' t.object_id s₂ h.object_id_free,
      before-append b'@' t.relation s₃ h.relation_free,
      after-append b'@' t.relation s₃ h.relation_free,
      before-append b':' t.subject_type tail h.subject_type_free,
      after-append b':' t.subject_type tail h.subject_type_free,
      read_id t.subject_id h.subject_id_free t.subject_relation h.suffix_given,
      read_relation t.subject_id h.subject_id_free t.subject_relation h.suffix_given,
    )
