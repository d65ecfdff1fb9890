-- ===== src/Server/Compile.antt =====
-- The schema compiler of pkg/schema/compiler.go. Go's maps are walked in some order, here that of the
-- association list. A type, relation or permission with no body, on which the Go code panics, is left
-- out.
pub mod Named
pub mod Arrows
use zanguard.Prelude.{
  ℕ, Bool, true, false, ◌&&◌, ◌||◌, Option, none, some, List, [], ◌∷◌, map, any, if◌then◌else◌,
  ◌==◌, leb, drop, length,
}
use zanguard.Js.Text.{Text, text, is_empty}
use zanguard.Js.Maps
use zanguard.Js.Maps.{Map}
use zanguard.Server.Model.{
  Error, bad_condition, invalid_arrow, no_operation, Result, ok, err, ◌>>=◌,
}
use zanguard.Server.Schema.{
  PermOp, union, intersect, exclusion, direct, PermissionRef, ConditionExpr, PermissionDef,
  AllowedTypeRef, RelationDef, TypeDef, CompiledSchema,
}

pub record RawPermission : Type 0 where
  pub resolve : Text
  pub union : List Text
  pub intersect : List Text
  pub exclusion : List Text
  pub condition : Text

pub record RawType : Type 0 where
  pub attributes : Map Text
  pub relations : Map (List Text)
  pub permissions : Map RawPermission

pub record RawSchema : Type 0 where
  pub version : Text
  pub types : Map RawType

-- `strings.TrimSpace`, on code points.
abbrev space_points : List ℕ
space_points =
    9 ∷ 10 ∷ 11 ∷ 12 ∷ 13 ∷ 32 ∷ 0x85 ∷ 160 ∷ 0x1680 ∷ 0x2028 ∷ 0x2029 ∷ 0x202f ∷ 0x205f ∷ 0x3000
    ∷ []

unfoldable pub is_space_point : ℕ → Bool
is_space_point u = any (λ v. u == v) space_points || leb 0x2000 u && leb u 0x200a

unfoldable pub trim_left : Text → Text
unfolding is_space_point
trim_left [] = []
trim_left (u ∷ s) = let rest = trim_left s in if is_space_point u then rest else u ∷ s

abbrev keep_point : ℕ → Text → Text
keep_point u [] = if is_space_point u then [] else u ∷ []
keep_point u (v ∷ s) = u ∷ v ∷ s

unfoldable pub trim_right : Text → Text
unfolding is_space_point
trim_right [] = []
trim_right (u ∷ s) = keep_point u (trim_right s)

unfoldable pub trim_space : Text → Text
unfolding trim_left trim_right
trim_space s = trim_right (trim_left s)

abbrev add_before : ℕ → Option (Text × Text) → Option (Text × Text)
add_before u none = none
add_before u (some (s, rest)) = some (u ∷ s, rest)

-- What stands before and behind the first "#", and the first "->".
unfoldable pub split_hash : Text → Option (Text × Text)
split_hash [] = none
split_hash (u ∷ s) =
    let rest = split_hash s in if u == b'#' then some ([], s) else add_before u rest

abbrev is_arrow : ℕ → Text → Bool
is_arrow u [] = false
is_arrow u (v ∷ s) = u == b'-' && v == b'>'

unfoldable pub split_arrow : Text → Option (Text × Text)
split_arrow [] = none
split_arrow (u ∷ s) =
    let rest = split_arrow s in if is_arrow u s then some ([], drop 1 s) else add_before u rest

abbrev pub type_ref_of : Text → Option (Text × Text) → AllowedTypeRef
type_ref_of s none = record { type = s; relation = [] }
type_ref_of s (some (t, r)) = record { type = t; relation = r }

-- `parseAllowedTypeRef`
unfoldable pub parse_allowed_type_ref : Text → AllowedTypeRef
parse_allowed_type_ref s = type_ref_of s (split_hash s)

-- `strings.HasPrefix` and `strings.TrimPrefix`: what follows the prefix.
unfoldable pub after_prefix : (prefix s : Text) → Option Text
after_prefix [] s = some s
after_prefix (p ∷ ps) [] = none
after_prefix (p ∷ ps) (u ∷ s) = if p == u then after_prefix ps s else none

abbrev plain_ref : Text → Option Text → PermissionRef
plain_ref s (some e) = record {
  relation_ref = [];
  arrow_ref = [];
  arrow_permission = [];
  condition_expr = trim_space e;
}
plain_ref s none = record {
  relation_ref = trim_space s;
  arrow_ref = [];
  arrow_permission = [];
  condition_expr = [];
}

abbrev ref_of : Text → Option (Text × Text) → Result PermissionRef
ref_of s none = ok (plain_ref s (after_prefix (text "condition:") s))
ref_of s (some (r, p)) =
    if is_empty (trim_space r) || is_empty (trim_space p)
    then err invalid_arrow
    else ok (record {
      relation_ref = [];
      arrow_ref = trim_space r;
      arrow_permission = trim_space p;
      condition_expr = [];
    })

-- `parsePermissionRef`
unfoldable pub parse_permission_ref : Text → Result PermissionRef
parse_permission_ref s = ref_of s (split_arrow s)

-- The loops that parse the references of a permission.
unfoldable pub parse_refs : List Text → Result (List PermissionRef)
parse_refs [] = ok []
parse_refs (s ∷ ss) = parse_permission_ref s >>= λ c. parse_refs ss >>= λ cs. ok (c ∷ cs)

module _ (compiles : Text → Bool) where
  -- `compileCondition`; a compiled condition is kept as its text, and `compiles` says what
  -- `expr.Compile` accepts.
  unfoldable pub compile_condition : Text → Result ConditionExpr
  compile_condition raw =
      if compiles (trim_space raw)
      then ok (record { raw = raw; compiled = trim_space raw })
      else err bad_condition

  abbrev optional_condition : Text → Result (Option ConditionExpr)
  optional_condition raw =
      if is_empty raw then ok none else (compile_condition raw >>= λ c. ok (some c))

  abbrev pub listed : Text → Option ConditionExpr → PermOp → List Text → Result PermissionDef
  listed name c op refs = parse_refs refs >>= λ cs.
      ok (record { name = name; operation = op; children = cs; condition = c })

  -- The `switch` of `compilePermission`.
  abbrev pub operation_of : Text → RawPermission → Option ConditionExpr → Result PermissionDef
  operation_of name raw c =
      if is_empty raw.resolve
      then if leb 1 (length raw.union)
        then listed name c union raw.union
        else if leb 1 (length raw.intersect)
        then listed name c intersect raw.intersect
        else if leb 1 (length raw.exclusion)
        then listed name c exclusion raw.exclusion
        else err no_operation
      else ok (record {
        name = name;
        operation = direct;
        children =
            record {
              relation_ref = raw.resolve;
              arrow_ref = [];
              arrow_permission = [];
              condition_expr = [];
            }
            ∷ [];
        condition = c;
      })

  unfoldable pub compile_permission : Text → RawPermission → Result PermissionDef
  compile_permission name raw = optional_condition raw.condition >>= operation_of name raw

  -- The two passes of `Compile`.
  unfoldable pub relations_of : Map (List Text) → Map RelationDef → Map RelationDef
  relations_of [] made = made
  relations_of ((name, refs) ∷ raw) made =
      relations_of raw (
        Maps.set name (record { name = name; allowed_types = map parse_allowed_type_ref refs })
          made)

  unfoldable pub build_types : Map RawType → Map TypeDef → Map TypeDef
  build_types [] made = made
  build_types ((name, raw) ∷ rest) made = build_types rest (
      Maps.set name
        (record {
          name = name;
          attributes = raw.attributes;
          relations = relations_of raw.relations [];
          permissions = [];
        })
        made)

  unfoldable pub add_permission : Text → Text → PermissionDef → Map TypeDef → Map TypeDef
  add_permission type_name name pd types =
      Maps.modify type_name
        (λ (td : TypeDef). record td { permissions = Maps.set name pd td.permissions }) types

  unfoldable pub compile_permissions : Text → Map RawPermission → Map TypeDef → Result (Map TypeDef)
  compile_permissions type_name [] types = ok types
  compile_permissions type_name ((name, raw) ∷ rest) types = compile_permission name raw >>= λ pd.
      compile_permissions type_name rest (add_permission type_name name pd types)

  unfoldable pub compile_types : Map RawType → Map TypeDef → Result (Map TypeDef)
  compile_types [] types = ok types
  compile_types ((type_name, raw) ∷ rest) types =
      compile_permissions type_name raw.permissions types >>= λ types'. compile_types rest types'

  -- `Compile`, without the hash and the time.
  unfoldable pub compile : RawSchema → Result CompiledSchema
  compile raw = compile_types raw.types (build_types raw.types []) >>= λ types.
      ok (record { version = raw.version; types = types })
