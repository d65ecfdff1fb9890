-- ===== src/Server/Engine/Keeps/Permission.antt =====
-- What a child of a permission keeps of the visited keys.
use zanguard.Prelude.{◌≡◌, refl}
use zanguard.Server.Model.{Error}
use zanguard.Server.Schema.{
  PermissionRef, Kind, relation, arrow, condition, kind, PermissionDef, CompiledSchema,
}
use zanguard.Server.Engine.{
  CheckRequest, Lookups, ExprLang, Visited, Walk, walk_condition, walk_relation, walk_arrow,
  walk_child,
}
use zanguard.Server.Engine.Holds.{In}
use zanguard.Server.Engine.Keeps.{Keeps}
use zanguard.Server.Engine.Keeps.Children.{
  Errors, Enters, relation-Keeps, arrow-Keeps, condition-Keeps,
}

module _ (lang : ExprLang) (store : Lookups) (cs : CompiledSchema) (P : Visited → Type 0)
    (E : Error → Type 0) (errors : Errors E lang store cs) (req₀ : CheckRequest)
    (def₀ : PermissionDef) where
  pub child-Keeps :
      (walk : CheckRequest → PermissionDef → Visited → Walk)
      → ((req : CheckRequest) (def : PermissionDef) (v : Visited)
          → Enters store cs req₀ def₀ req def
          → P v
          → Keeps P E (walk req def v))
      → (req : CheckRequest) (def : PermissionDef) → Enters store cs req₀ def₀ req def
      → (c : PermissionRef) → In c def.children
      → (v : Visited) → P v
      → Keeps P E (walk_child lang store cs walk req c v)
  unfolding walk_child walk_relation
  child-Keeps walk ih req def entered c m v h = by_kind (kind c) refl
    where
      by_kind :
          (x : Kind)
          → kind c ≡ x
          → Keeps P E (elim x [
            | relation ↦ walk_relation lang store cs walk req c.relation_ref v
            | arrow ↦ walk_arrow lang store cs walk req c.arrow_ref c.arrow_permission v
            | condition ↦ walk_condition lang store cs req c.condition_expr v
          ])
      by_kind relation e =
          relation-Keeps lang store cs P E errors req₀ def₀ walk ih req def entered c m e v _ refl h
      by_kind arrow e =
          arrow-Keeps lang store cs P E errors req₀ def₀ walk ih req def entered c m e v h
      by_kind condition e =
          condition-Keeps lang store cs P E errors req₀ def₀ walk ih req def entered c m v h
