-- ===== src/Server/Validate.antt =====
-- The schema validator of pkg/schema/validator.go.
pub mod Computed
use zanguard.Prelude.{
  Bool, true, false, not, Option, none, some, List, [], ◌∷◌, ◌++◌, if◌then◌else◌,
}
use zanguard.Js.Text.{Text, is_empty}
use zanguard.Js.Maps
use zanguard.Js.Maps.{Map}
use zanguard.Server.Schema.{
  PermissionRef, Kind, relation, arrow, condition, kind, PermissionDef, AllowedTypeRef, RelationDef,
  TypeDef, CompiledSchema,
}

pub data SchemaError : Type 0 where
  unknown_ref_type : (type relation ref_type : Text) → SchemaError
  no_such_relation : (type relation ref_type ref_relation : Text) → SchemaError
  unknown_ref : (type permission ref : Text) → SchemaError
  unknown_arrow : (type permission ref : Text) → SchemaError

-- `validatePermRef`
unfoldable pub validate_perm_ref :
    (type : Text) → TypeDef → (permission : Text) → PermissionRef → List SchemaError
validate_perm_ref type td permission ref = elim (kind ref) [
  | relation ↦
      if Maps.has ref.relation_ref td.relations
      then []
      else if Maps.has ref.relation_ref td.permissions
      then []
      else unknown_ref type permission ref.relation_ref ∷ []
  | arrow ↦
      if Maps.has ref.arrow_ref td.relations
      then []
      else unknown_arrow type permission ref.arrow_ref ∷ []
  | condition ↦ []
]

-- The references of a permission, and the permissions of a type.
unfoldable pub validate_perm_refs :
    (type : Text) → TypeDef → (permission : Text) → List PermissionRef → List SchemaError
validate_perm_refs type td permission [] = []
validate_perm_refs type td permission (ref ∷ refs) =
    validate_perm_ref type td permission ref ++ validate_perm_refs type td permission refs

unfoldable pub validate_permissions : (type : Text) → TypeDef → Map PermissionDef → List SchemaError
validate_permissions type td [] = []
validate_permissions type td ((name, pd) ∷ rest) =
    validate_perm_refs type td name pd.children ++ validate_permissions type td rest

abbrev validate_ref_relation :
    (type rel : Text) → AllowedTypeRef → Option TypeDef → List SchemaError
validate_ref_relation type rel ref none = []
validate_ref_relation type rel ref (some td) =
    if Maps.has ref.relation td.relations
    then []
    else no_such_relation type rel ref.type ref.relation ∷ []

-- The body of the loop over the allowed types of a relation.
unfoldable pub validate_type_ref :
    Map TypeDef → (type rel : Text) → AllowedTypeRef → List SchemaError
validate_type_ref types type rel ref =
    (if Maps.has ref.type types then [] else unknown_ref_type type rel ref.type ∷ [])
    ++ (if is_empty ref.relation
        then []
        else validate_ref_relation type rel ref (Maps.get ref.type types))

unfoldable pub validate_type_refs :
    Map TypeDef → (type rel : Text) → List AllowedTypeRef → List SchemaError
validate_type_refs types type rel [] = []
validate_type_refs types type rel (ref ∷ refs) =
    validate_type_ref types type rel ref ++ validate_type_refs types type rel refs

unfoldable pub validate_relations : Map TypeDef → (type : Text) → Map RelationDef → List SchemaError
validate_relations types type [] = []
validate_relations types type ((name, rd) ∷ rest) =
    validate_type_refs types type name rd.allowed_types ++ validate_relations types type rest

unfoldable pub validate_types : Map TypeDef → Map TypeDef → List SchemaError
validate_types types [] = []
validate_types types ((type, td) ∷ rest) =
    validate_relations types type td.relations
    ++ (validate_permissions type td td.permissions ++ validate_types types rest)

-- `Validate`
unfoldable pub validate : CompiledSchema → List SchemaError
validate cs = validate_types cs.types cs.types
