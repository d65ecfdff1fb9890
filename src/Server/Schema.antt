-- ===== src/Server/Schema.antt =====
-- The compiled schema of pkg/schema/types.go. A compiled condition is kept as its text.
use zanguard.Prelude.{Option, none, some, List, if◌then◌else◌}
use zanguard.Js.Text.{Text, is_empty}
use zanguard.Js.Maps
use zanguard.Js.Maps.{Map}
use zanguard.Server.Model.{Result, ok, err, unknown_type, unknown_permission}

pub data PermOp : Type 0 where
  union intersect exclusion direct : PermOp

pub record PermissionRef : Type 0 where
  pub relation_ref : Text
  pub arrow_ref : Text
  pub arrow_permission : Text
  pub condition_expr : Text

pub data Kind : Type 0 where
  relation arrow condition : Kind

unfoldable pub kind : PermissionRef → Kind
kind pr =
    if is_empty pr.arrow_ref
    then if is_empty pr.condition_expr then relation else condition
    else arrow

pub record ConditionExpr : Type 0 where
  pub raw : Text
  pub compiled : Text

pub record PermissionDef : Type 0 where
  pub name : Text
  pub operation : PermOp
  pub children : List PermissionRef
  pub condition : Option ConditionExpr

pub record AllowedTypeRef : Type 0 where
  pub type : Text
  pub relation : Text

pub record RelationDef : Type 0 where
  pub name : Text
  pub allowed_types : List AllowedTypeRef

pub record TypeDef : Type 0 where
  pub name : Text
  pub attributes : Map Text
  pub relations : Map RelationDef
  pub permissions : Map PermissionDef

pub record CompiledSchema : Type 0 where
  pub version : Text
  pub types : Map TypeDef

abbrev pub permission_in : Option TypeDef → Text → Text → Result PermissionDef
permission_in none object_type permission = err (unknown_type object_type)
permission_in (some td) object_type permission = elim (Maps.get permission td.permissions) [
  | none ↦ err (unknown_permission permission)
  | some pd ↦ ok pd
]

-- `GetPermission`
unfoldable pub get_permission : CompiledSchema → Text → Text → Result PermissionDef
get_permission cs object_type permission =
    permission_in (Maps.get object_type cs.types) object_type permission
