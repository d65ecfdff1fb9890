-- ===== src/Api/Types.antt =====
-- console/src/lib/api/types.ts. Optional fields are `Option`; times are texts; counts, sequence
-- numbers and limits are natural numbers.
use zanguard.Prelude.{ℕ, Bool, Option, List}
use zanguard.Js.Text.{Text}
use zanguard.Js.Json.{Json}
use zanguard.Js.Objects.{Object}

pub data TenantStatus : Type 0 where
  pending active suspended deleted : TenantStatus

pub data SchemaMode : Type 0 where
  own shared inherited : SchemaMode

pub record TenantConfig : Type 0 where
  pub max_tuples : ℕ
  pub max_requests_per_sec : ℕ
  pub cache_ttl_override : Option ℕ
  pub allowed_object_types : Option (List Text)
  pub retention_days : ℕ
  pub sync_enabled : Bool
  pub webhook_url : Option Text
  pub metadata : Option (Object Json)

pub record Tenant : Type 0 where
  pub id : Text
  pub display_name : Text
  pub parent_tenant_id : Option Text
  pub status : TenantStatus
  pub schema_mode : SchemaMode
  pub shared_schema_ref : Option Text
  pub config : TenantConfig
  pub created_at : Text
  pub updated_at : Text

pub record RelationTuple : Type 0 where
  pub tenant_id : Text
  pub object_type : Text
  pub object_id : Text
  pub relation : Text
  pub subject_type : Text
  pub subject_id : Text
  pub subject_relation : Option Text
  pub subject_tenant_id : Option Text
  pub attributes : Option (Object Json)
  pub created_at : Text
  pub updated_at : Text
  pub source_system : Option Text
  pub external_id : Option Text

pub record SchemaResponse : Type 0 where
  pub tenant_id : Text
  pub hash : Text
  pub version : Text
  pub source : Text
  pub compiled_at : Text

pub record SubjectRef : Type 0 where
  pub kind : Text
  pub id : Text
  pub relation : Option Text

-- `Children: SubjectTree[] | null`
mutual
  pub data SubjectTree : Type 0 where
    tree : SubjectRef → Children → SubjectTree

  pub data Children : Type 0 where
    null : Children
    nil : Children
    child : SubjectTree → Children → Children

pub data ChangeOp : Type 0 where
  insert delete update : ChangeOp

pub record ChangelogEntry : Type 0 where
  pub seq : ℕ
  pub tenant_id : Text
  pub op : ChangeOp
  pub tuple : RelationTuple
  pub ts : Text
  pub actor : Text
  pub source : Text
  pub meta : Option (Object Json)

pub record TupleRequest : Type 0 where
  pub object_type : Text
  pub object_id : Text
  pub relation : Text
  pub subject_type : Text
  pub subject_id : Text
  pub subject_relation : Option Text
  pub attributes : Option (Object Json)

pub record ExpandRequest : Type 0 where
  pub object_type : Text
  pub object_id : Text
  pub relation : Text

pub record TupleFilter : Type 0 where
  pub object_type : Option Text
  pub object_id : Option Text
  pub relation : Option Text
  pub subject_type : Option Text
  pub subject_id : Option Text
  pub subject_relation : Option Text

pub record ChangelogResponse : Type 0 where
  pub entries : List ChangelogEntry
  pub count : ℕ
  pub latest_sequence : ℕ

pub record ObjectAttributesItem : Type 0 where
  pub tenant_id : Text
  pub object_type : Text
  pub object_id : Text
  pub attributes : Object Json
  pub updated_at : Text

pub record SubjectAttributesItem : Type 0 where
  pub tenant_id : Text
  pub subject_type : Text
  pub subject_id : Text
  pub attributes : Object Json
  pub updated_at : Text
