-- ===== src/Hooks/Keys.antt =====
-- The key factories of console/src/lib/hooks/use-{tenants,schema,tuples,attributes,changelog}.ts.
use zanguard.Prelude.{ℕ, Option, List, [], ◌∷◌, ◌++◌, or_else}
use zanguard.Js.Text.{Text, text}
use zanguard.Api.Types.{TupleFilter}

pub data Part : Type 0 where
  str : Text → Part
  num : ℕ → Part
  tuple_filter : TupleFilter → Part
  tenant_filter : Option Text → Part

abbrev pub Key : Type 0
Key = List Part

-- tenantKeys
abbrev pub tenants_all : Key
tenants_all = str (text "tenants") ∷ []

unfoldable pub tenants_list : Option Text → Key
tenants_list status = tenants_all ++ str (text "list") ∷ tenant_filter status ∷ []

unfoldable pub tenant_detail : Text → Key
tenant_detail id = tenants_all ++ str (text "detail") ∷ str id ∷ []

-- schemaKeys
unfoldable pub schema_detail : Text → Key
schema_detail tenant_id = str (text "schema") ∷ str tenant_id ∷ []

-- tupleKeys
unfoldable pub tuple_lists : Key
tuple_lists = str (text "tuples") ∷ str (text "list") ∷ []

unfoldable pub tuple_list : Text → TupleFilter → Key
unfolding tuple_lists
tuple_list tenant_id filter = tuple_lists ++ str tenant_id ∷ tuple_filter filter ∷ []

-- attributeKeys
abbrev pub attributes_all : Key
attributes_all = str (text "attributes") ∷ []

unfoldable pub object_list : Text → Option Text → Key
object_list tenant_id kind =
    attributes_all ++ str (text "objectList") ∷ str tenant_id ∷ str (or_else kind []) ∷ []

unfoldable pub subject_list : Text → Option Text → Key
subject_list tenant_id kind =
    attributes_all ++ str (text "subjectList") ∷ str tenant_id ∷ str (or_else kind []) ∷ []

unfoldable pub object : Text → Text → Text → Key
object tenant_id kind id =
    attributes_all ++ str (text "object") ∷ str tenant_id ∷ str kind ∷ str id ∷ []

unfoldable pub subject : Text → Text → Text → Key
subject tenant_id kind id =
    attributes_all ++ str (text "subject") ∷ str tenant_id ∷ str kind ∷ str id ∷ []

-- changelogKeys
unfoldable pub changelog_list : Text → ℕ → ℕ → Key
changelog_list tenant_id since_seq limit =
    str (text "changelog") ∷ str tenant_id ∷ num since_seq ∷ num limit ∷ []
