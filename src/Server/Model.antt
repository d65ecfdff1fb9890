-- ===== src/Server/Model.antt =====
-- pkg/model and pkg/storage/interface.go. Go's strings are texts, a time is a number, and the zero
-- time is 0; an `error` is one of the values of `Error`.
use zanguard.Prelude.{ℕ, ◌≡◌, refl, Bool, true, false, Option}
use zanguard.Js.Text.{Text}
use zanguard.Js.Json.{Json}
use zanguard.Js.Maps.{Map}
use zanguard.Api.Types.{TenantStatus, active, suspended, SchemaMode, ChangeOp, TenantConfig}

pub data Error : Type 0 where
  no_tenant_context tenant_not_found tenant_deleted tenant_suspended tenant_exists : Error
  not_found duplicate_tuple tenant_not_readable : Error
  no_schema no_shared_schema : Text → Error
  unknown_type unknown_permission unknown_relation : Text → Error
  invalid_tenant_id invalid_transition invalid_arrow no_operation : Error
  depth_exceeded bad_condition condition_failed condition_not_bool : Error

-- A value and an `error` of which one is nil.
pub data Result {ℓ} (V : Type ℓ) : Type ℓ where
  ok : (value : V) → Result V
  err : (reason : Error) → Result V

-- `if err != nil { return err }` between two steps.
infixl 5 ◌>>=◌
abbrev pub ◌>>=◌ {ℓ κ} : {V : Type ℓ} {W : Type κ} → Result V → (V → Result W) → Result W
err reason >>= next = err reason
ok value >>= next = next value

-- `map[string]any`
abbrev pub Attributes : Type 0
Attributes = Map Json

pub record Tenant : Type 0 where
  pub id : Text
  pub display_name : Text
  pub parent_tenant_id : Text
  pub status : TenantStatus
  pub schema_mode : SchemaMode
  pub shared_schema_ref : Text
  pub config : TenantConfig
  pub created_at : ℕ
  pub updated_at : ℕ

unfoldable pub is_writable : Tenant → Bool
is_writable t = elim t.status [ active ↦ true | _ ↦ false ]

unfoldable pub is_readable : Tenant → Bool
is_readable t = elim t.status [ active ↦ true | suspended ↦ true | _ ↦ false ]

-- `TenantContext`, and the context of a request: nil where no tenant is there.
pub record TenantContext : Type 0 where
  pub tenant_id : Text
  pub tenant : Tenant

abbrev pub Context : Type 0
Context = Option TenantContext

pub record RelationTuple : Type 0 where
  pub tenant_id : Text
  pub object_type : Text
  pub object_id : Text
  pub relation : Text
  pub subject_type : Text
  pub subject_id : Text
  pub subject_relation : Text
  pub subject_tenant_id : Text
  pub attributes : Attributes
  pub expires_at : Option ℕ
  pub created_at : ℕ
  pub updated_at : ℕ
  pub source_system : Text
  pub external_id : Text

pub record ObjectRef : Type 0 where
  pub kind : Text
  pub id : Text

pub record SubjectRef : Type 0 where
  pub kind : Text
  pub id : Text
  pub relation : Text

pub record ChangelogEntry : Type 0 where
  pub sequence : ℕ
  pub tenant_id : Text
  pub operation : ChangeOp
  pub tuple : RelationTuple
  pub timestamp : ℕ
  pub actor : Text
  pub source : Text
  pub metadata : Attributes

-- Both parts of a chain that succeeds succeed.
pub >>=-eq-ok {ℓ κ} :
    {V : Type ℓ} {W : Type κ} (first : Result V) (next : V → Result W) {w : W}
    → (first >>= next) ≡ ok w
    → (v : V) × (first ≡ ok v) × (next v ≡ ok w)
>>=-eq-ok (err reason) next both = cc
>>=-eq-ok (ok value) next both = (value, refl, both)

pub ok_injective {ℓ} : {A : Type ℓ} {a b : A} → ok a ≡ ok b → a ≡ b
ok_injective h = cc
