-- ===== src/Server/Engine/Keeps.antt =====
-- What the loops of the engine keep of the visited keys, and how they fail.
pub mod Children
pub mod Permission
use zanguard.Prelude.{◌≡◌, List, [], ◌∷◌}
use zanguard.Server.Model.{Error}
use zanguard.Server.Schema.{PermOp, union, intersect, exclusion, direct, PermissionRef}
use zanguard.Server.Engine.{
  Visited, Walk, denied, allowed, failed, if_denied, if_allowed, if_not_excluded, walk_union,
  walk_all, walk_intersect, walk_none, walk_exclusion, walk_operation,
}
use zanguard.Server.Engine.Holds.{In, here, there}

-- The walk leaves visited keys of `P`, or fails by an error of `E`.
abbrev pub Keeps : (Visited → Type 0) → (Error → Type 0) → Walk → Type 0
Keeps P E (denied v) = P v
Keeps P E (allowed path v) = P v
Keeps P E (failed e) = E e

pub Keeps-map :
    (P Q : Visited → Type 0) (E : Error → Type 0) (w : Walk)
    → ((v : Visited) → P v → Q v)
    → Keeps P E w
    → Keeps Q E w
Keeps-map P Q E (denied v) f k = f v k
Keeps-map P Q E (allowed path v) f k = f v k
Keeps-map P Q E (failed e) f k = k

module _ (P : Visited → Type 0) (E : Error → Type 0) where
  module _ (next : Visited → Walk) (k : (v : Visited) → P v → Keeps P E (next v)) where
    pub Keeps-if_denied : (w : Walk) → Keeps P E w → Keeps P E (if_denied w next)
    Keeps-if_denied (denied v) h = k v h
    Keeps-if_denied (allowed path v) h = h
    Keeps-if_denied (failed e) h = h

    Keeps-if_allowed : (w : Walk) → Keeps P E w → Keeps P E (if_allowed w next)
    Keeps-if_allowed (denied v) h = h
    Keeps-if_allowed (allowed path v) h = k v h
    Keeps-if_allowed (failed e) h = h

    Keeps-if_not_excluded : (w : Walk) → Keeps P E w → Keeps P E (if_not_excluded w next)
    Keeps-if_not_excluded (denied v) h = k v h
    Keeps-if_not_excluded (allowed path v) h = h
    Keeps-if_not_excluded (failed e) h = h

  module _ (child : PermissionRef → Visited → Walk) where
    -- Each of the children keeps `P`.
    abbrev pub AllKeep : List PermissionRef → Type 0
    AllKeep cs = (c : PermissionRef) → In c cs → (v : Visited) → P v → Keeps P E (child c v)

    union-Keeps :
        (cs : List PermissionRef) (v : Visited)
        → AllKeep cs
        → P v
        → Keeps P E (walk_union child cs v)
    unfolding walk_union
    union-Keeps [] v a h = h
    union-Keeps (c ∷ cs) v a h =
        Keeps-if_denied _ (λ v' h'. union-Keeps cs v' (λ d m. a d (there m)) h') (child c v)
          (a c here v h)

    all-Keeps :
        (cs : List PermissionRef) (v : Visited) → AllKeep cs → P v → Keeps P E (walk_all child cs v)
    unfolding walk_all
    all-Keeps [] v a h = h
    all-Keeps (c ∷ cs) v a h =
        Keeps-if_allowed _ (λ v' h'. all-Keeps cs v' (λ d m. a d (there m)) h') (child c v)
          (a c here v h)

    none-Keeps :
        (cs : List PermissionRef) (v : Visited)
        → AllKeep cs
        → P v
        → Keeps P E (walk_none child cs v)
    unfolding walk_none
    none-Keeps [] v a h = h
    none-Keeps (c ∷ cs) v a h =
        Keeps-if_not_excluded _ (λ v' h'. none-Keeps cs v' (λ d m. a d (there m)) h') (child c v)
          (a c here v h)

    pub operation-Keeps :
        (op : PermOp) (cs : List PermissionRef) (v : Visited)
        → AllKeep cs
        → P v
        → Keeps P E (walk_operation child op cs v)
    unfolding walk_operation walk_intersect walk_exclusion
    operation-Keeps union cs v a h = union-Keeps cs v a h
    operation-Keeps direct cs v a h = union-Keeps cs v a h
    operation-Keeps intersect [] v a h = h
    operation-Keeps intersect (c ∷ cs) v a h = all-Keeps (c ∷ cs) v a h
    operation-Keeps exclusion [] v a h = h
    operation-Keeps exclusion (c ∷ cs) v a h =
        Keeps-if_allowed _ (λ v' h'. none-Keeps cs v' (λ d m. a d (there m)) h') (child c v)
          (a c here v h)
