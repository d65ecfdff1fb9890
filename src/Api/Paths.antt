-- ===== src/Api/Paths.antt =====
-- Which entity the path of an attributes request names.
use mathlib.Core.List.{append_assoc, tail}
use zanguard.Prelude.{◌≡◌, ◌↔◌, refl, ap, sym, ◌∙◌, false, [], ◌∷◌, ◌++◌}
use zanguard.Js.Text.{Text, text, includes, before, after, before-append, after-append}
use zanguard.Api.Requests.{slash, object_path, subject_path, tenant_path}

append_cancel : (a : Text) {b c : Text} → a ++ b ≡ a ++ c → b ≡ c
append_cancel [] e = e
append_cancel (x ∷ a) {b} {c} e = append_cancel a (ap tail e)

slash_injective :
    (k k' i i' : Text)
    → includes b'/' k ≡ false
    → includes b'/' k' ≡ false
    → slash k i ≡ slash k' i'
    → (k ≡ k') × (i ≡ i')
slash_injective k k' i i' h h' e = (
  sym (before-append b'/' k i h) ∙ ap (before b'/') e ∙ before-append b'/' k' i' h',
  sym (after-append b'/' k i h) ∙ ap (after b'/') e ∙ after-append b'/' k' i' h',
)

-- Of one tenant, the paths of the attributes of two objects are equal exactly if type and id are,
-- provided that no type holds a slash; and so for subjects.
pub attribute_paths_injective :
    (tenant_id k k' i i' : Text)
    → includes b'/' k ≡ false
    → includes b'/' k' ≡ false
    → ((object_path tenant_id k i ≡ object_path tenant_id k' i') ↔ (k ≡ k') × (i ≡ i'))
      × ((subject_path tenant_id k i ≡ subject_path tenant_id k' i') ↔ (k ≡ k') × (i ≡ i'))
unfolding object_path subject_path
attribute_paths_injective tenant_id k k' i i' h h' = (
  (
    λ e. slash_injective k k' i i' h h' (
        append_cancel (text "/attributes/objects/")
          (append_cancel tenant_id (append_cancel (text "api/v1/t/") e))),
    λ e. rw (e.0, e.1) refl,
  ),
  (
    λ e. slash_injective k k' i i' h h' (
        append_cancel (text "/attributes/subjects/")
          (append_cancel tenant_id (append_cancel (text "api/v1/t/") e))),
    λ e. rw (e.0, e.1) refl,
  ),
)

-- Types and ids are put into the path as they are: the object of type `a`, a slash and `b` with id
-- `c` has the path of the object of type `a` whose id is `b`, a slash and `c`.
pub attribute_paths_collide :
    (tenant_id a b c : Text)
    → object_path tenant_id (slash a b) c ≡ object_path tenant_id a (slash b c)
unfolding object_path
attribute_paths_collide tenant_id a b c =
    ap (λ p. tenant_path tenant_id (text "/attributes/objects/" ++ p))
      (append_assoc a (b'/' ∷ b) (b'/' ∷ c))
