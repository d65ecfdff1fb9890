-- ===== src/Server/Engine/Sound/Permission.antt =====
-- A permission that allows holds.
use zanguard.Prelude.{ℕ, zero, suc, ◌≡◌, refl, inl, inr, List, [], ◌∷◌, Bool-cases}
use zanguard.Js.Sets.{member}
use zanguard.Server.Schema.{
  PermOp, union, intersect, exclusion, direct, PermissionRef, PermissionDef, CompiledSchema,
}
use zanguard.Server.Engine.{
  CheckRequest, Lookups, ExprLang, Visited, Walk, denied, allowed, failed, request_key, walk_union,
  walk_all, walk_intersect, walk_none, walk_exclusion, walk_operation, walk_child, walk_permission,
}
use zanguard.Server.Engine.Holds.{
  In, here, there, Holds, any_of, all_of, base_of, AllHold, none_left, one_more, ChildHolds,
}
use zanguard.Server.Engine.Sound.{Sound, Sound-map, Sound-if_denied, Sound-if_allowed}
use zanguard.Server.Engine.Sound.Children.{child-Sound}

module _ (lang : ExprLang) (store : Lookups) (cs : CompiledSchema)
    (walk : CheckRequest → PermissionDef → Visited → Walk)
    (ih : (req : CheckRequest) (def : PermissionDef) (v : Visited)
      → Sound (Holds lang store cs req def) (walk req def v)) where
  module _ (req : CheckRequest) where
    abbrev child : PermissionRef → Visited → Walk
    child = walk_child lang store cs walk req

    union-Sound :
        (all_cs : List PermissionRef) (rest : List PermissionRef) (v : Visited)
        → ((c : PermissionRef) → In c rest → In c all_cs)
        → Sound
            ((c : PermissionRef) × In c all_cs × ChildHolds lang store cs req c)
            (walk_union child rest v)
    unfolding walk_union
    union-Sound all_cs [] v sub = tt
    union-Sound all_cs (c ∷ rest) v sub =
        Sound-if_denied ((c : PermissionRef) × In c all_cs × ChildHolds lang store cs req c)
          (child c v) _
          (Sound-map (child c v) (λ h. (c, sub c here, h))
            (child-Sound lang store cs walk ih req c v))
          (λ v'. union-Sound all_cs rest v' (λ d m. sub d (there m)))

    all-Sound :
        (rest : List PermissionRef) (v : Visited)
        → Sound (AllHold lang store cs req rest) (walk_all child rest v)
    unfolding walk_all
    all-Sound [] v = none_left
    all-Sound (c ∷ rest) v =
        Sound-if_allowed (ChildHolds lang store cs req c) (AllHold lang store cs req (c ∷ rest))
          (child c v) _ (child-Sound lang store cs walk ih req c v)
          (λ h v'. Sound-map (walk_all child rest v') (one_more h) (all-Sound rest v'))

    always {ℓ} : {P : Type ℓ} → P → (w : Walk) → Sound P w
    always p (denied v) = tt
    always p (allowed path v) = p
    always p (failed e) = tt

    operation-Sound :
        (def : PermissionDef) (op : PermOp) (children : List PermissionRef) (v : Visited)
        → def.operation ≡ op
        → def.children ≡ children
        → Sound (Holds lang store cs req def) (walk_operation child op children v)
    unfolding walk_operation walk_intersect walk_exclusion
    operation-Sound def union children v o e =
        Sound-map (walk_union child children v) (λ (c, m, h). any_of c (inl o) (rw e m) h)
          (union-Sound children children v (λ c m. m))
    operation-Sound def direct children v o e =
        Sound-map (walk_union child children v) (λ (c, m, h). any_of c (inr o) (rw e m) h)
          (union-Sound children children v (λ c m. m))
    operation-Sound def intersect [] v o e = tt
    operation-Sound def intersect (c ∷ rest) v o e =
        Sound-map (walk_all child (c ∷ rest) v) (λ h. all_of o (λ none. cc (e, none)) (rw e h))
          (all-Sound (c ∷ rest) v)
    operation-Sound def exclusion [] v o e = tt
    operation-Sound def exclusion (c ∷ rest) v o e =
        Sound-if_allowed (ChildHolds lang store cs req c) (Holds lang store cs req def) (child c v)
          _ (child-Sound lang store cs walk ih req c v)
          (λ h v'. always (base_of c rest o e h) (walk_none child rest v'))

module _ (lang : ExprLang) (store : Lookups) (cs : CompiledSchema) where
  pub permission-Sound :
      (levels : ℕ) (req : CheckRequest) (def : PermissionDef) (v : Visited)
      → Sound (Holds lang store cs req def) (walk_permission lang store cs levels req def v)
  unfolding walk_permission
  permission-Sound zero req def v = tt
  permission-Sound (suc levels) req def v =
      elim (Bool-cases (member (request_key req def.name) v)) [
        | inl seen ↦ rw seen tt
        | inr new ↦ rw new (
            operation-Sound lang store cs (walk_permission lang store cs levels)
              (permission-Sound levels) req def def.operation def.children
              (request_key req def.name ∷ v) refl refl)
      ]
