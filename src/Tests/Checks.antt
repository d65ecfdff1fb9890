-- ===== src/Tests/Checks.antt =====
-- The engine, the compiler and the validator at sample data.
use mathlib.Core.Path.{subst}
use zanguard.Prelude.{◌≡◌, ◌≢◌, refl, ap, sym, true, none, some, List, [], ◌∷◌, arith}
use zanguard.Js.Text.{Text, text, same}
use zanguard.Js.Sets.{member}
use zanguard.Js.Maps
use zanguard.Js.Maps.{Map}
use zanguard.Server.Model.{
  Result, ok, err, ok_injective, depth_exceeded, TenantContext, RelationTuple, ObjectRef,
  is_readable,
}
use zanguard.Server.Schema.{
  union, intersect, exclusion, PermissionRef, relation, kind, PermissionDef, TypeDef,
  CompiledSchema, get_permission,
}
use zanguard.Server.Engine.{
  CheckRequest, deny, allow, ExprLang, visit_key, request_key, walk_union, walk_operation,
  walk_relation, walk_target, walk_targets, walk_arrow, walk_child, walk_permission,
  check_permission,
}
use zanguard.Server.Engine.Check.{Engine, schema_for_tenant, check}
use zanguard.Server.Engine.Holds.{In, here, there, target_request}
use zanguard.Server.Engine.Granted.{Granted, check-Granted}
use zanguard.Server.Engine.Keeps.Children.{Enters, first, by_arrow, by_userset}
use zanguard.Server.Engine.Skipped.Pair.{with_children, second_arrow_skipped}
use zanguard.Server.Store.{
  Store, tuples_of, is_expired_at, is_of, is_direct, check_direct, list_related_objects,
  readable_tuples, check_tenant_readable,
}
use zanguard.Server.Store.Tenants.{purge_tenant_data}
use zanguard.Server.Store.Reach.{purges, apply}
use zanguard.Server.Engine.Stable.Raised.{check_stable}
use zanguard.Server.Service.{lookups}
use zanguard.Server.Service.Isolation.{check_isolated}
use zanguard.Server.Service.Cycles.{check_deep_enough}
use zanguard.Server.Compile.{
  RawSchema, compile, compile_types, compile_permissions, compile_permission, add_permission,
  build_types, relations_of, parse_refs, parse_permission_ref, parse_allowed_type_ref, split_arrow,
  split_hash, after_prefix, trim_space, trim_left, trim_right, is_space_point,
}
use zanguard.Server.Compile.Named.{Source, compile_sources}
use zanguard.Server.Compile.Arrows.{parse-arrow_text}
use zanguard.Server.Validate.{validate_perm_ref}
use zanguard.Server.Validate.Computed.{computed_child_denied}
use zanguard.Tests.Stores.{acme, in_acme, tuple}

abbrev no_conditions : ExprLang
no_conditions = record { compiles = λ e. true; run = λ e env. none }

abbrev plain_ref : Text → PermissionRef
plain_ref r = record {
  relation_ref = r;
  arrow_ref = [];
  arrow_permission = [];
  condition_expr = [];
}

abbrev arrow_ref : Text → Text → PermissionRef
arrow_ref r p = record {
  relation_ref = [];
  arrow_ref = r;
  arrow_permission = p;
  condition_expr = [];
}

abbrev permission : Text → List PermissionRef → PermissionDef
permission name children = record {
  name = name;
  operation = union;
  children = children;
  condition = none;
}

abbrev type_with : PermissionDef → TypeDef
type_with def = record {
  name = text "doc";
  attributes = [];
  relations = [];
  permissions = (def.name, def) ∷ [];
}

abbrev schema_with : PermissionDef → CompiledSchema
schema_with def = record { version = text "1"; types = (text "doc", type_with def) ∷ [] }

abbrev engine_with : PermissionDef → Engine
engine_with def = record {
  schemas = (text "acme", schema_with def) ∷ [];
  shared_schemas = [];
  max_check_depth = 25;
}

abbrev ask : Text → CheckRequest
ask id = record {
  object_type = text "doc";
  object_id = id;
  permission = text "view";
  subject_type = text "user";
  subject_id = text "ann";
  context = [];
}

abbrev viewers : PermissionDef
viewers = permission (text "view") (plain_ref (text "viewer") ∷ [])

abbrev holding : List RelationTuple → Store
holding ts = record {
  tenants = (text "acme", acme) ∷ [];
  tuples = (text "acme", ts) ∷ [];
  obj_attrs = [];
  sub_attrs = [];
  changelog = [];
  seq_counter = [];
}

abbrev ann_views : RelationTuple
ann_views = tuple (text "doc") (text "1") (text "viewer") (text "user") (text "ann")

check-Granted_example :
    (tc : TenantContext) × (some in_acme ≡ some tc)
    × Granted no_conditions
        (lookups 9 (holding (ann_views ∷ [])))
        (engine_with viewers)
        tc
        (ask (text "1"))
unfolding check schema_for_tenant get_permission check_permission walk_permission walk_operation
    walk_union walk_child walk_relation visit_key member kind check_direct readable_tuples
    check_tenant_readable tuples_of is_direct is_of is_expired_at Maps.get same is_readable
check-Granted_example =
    check-Granted no_conditions (lookups 9 (holding (ann_views ∷ []))) (engine_with viewers)
      (some in_acme) (ask (text "1")) (text "doc:1#viewer@user:ann" ∷ []) refl

check_stable_example :
    check no_conditions
      (lookups 9 (holding (ann_views ∷ [])))
      (record (engine_with viewers) { max_check_depth = 40 })
      (some in_acme)
      (ask (text "1"))
    ≡ check no_conditions
        (lookups 9 (holding (ann_views ∷ [])))
        (engine_with viewers)
        (some in_acme)
        (ask (text "1"))
unfolding check schema_for_tenant get_permission check_permission walk_permission walk_operation
    walk_union walk_child walk_relation visit_key member kind check_direct readable_tuples
    check_tenant_readable tuples_of is_direct is_of is_expired_at Maps.get same is_readable
check_stable_example =
    check_stable no_conditions (lookups 9 (holding (ann_views ∷ []))) (engine_with viewers) 40
      (some in_acme) (ask (text "1")) (omega arith) (λ h. cc)

abbrev beta : TenantContext
beta = record { tenant_id = text "beta"; tenant = record acme { id = text "beta" } }

abbrev purged : Store
unfolding apply purge_tenant_data Maps.set same
purged = elim (apply 9 (purges (some beta)) (holding (ann_views ∷ []))) [
  | ok s ↦ s
  | err e ↦ holding []
]

check_isolated_example :
    check no_conditions (lookups 10 purged) (engine_with viewers) (some in_acme) (ask (text "1"))
    ≡ check no_conditions
        (lookups 10 (holding (ann_views ∷ [])))
        (engine_with viewers)
        (some in_acme)
        (ask (text "1"))
unfolding apply purge_tenant_data Maps.set same purged
check_isolated_example =
    check_isolated no_conditions (engine_with viewers) 9 10 (purges (some beta))
      (holding (ann_views ∷ [])) purged in_acme (ask (text "1")) refl (λ e. ground arith)

computed_child_denied_example :
    (validate_perm_ref
        (text "doc")
        (type_with (permission (text "edit") []))
        (text "view")
        (plain_ref (text "edit"))
      ≡ [])
    × (check_permission no_conditions
          (lookups 9 (holding (ann_views ∷ [])) (some in_acme))
          (schema_with viewers)
          25
          (ask (text "1"))
          (with_children viewers union (plain_ref (text "edit") ∷ []))
        ≡ ok deny)
unfolding kind Maps.has readable_tuples check_tenant_readable tuples_of Maps.get same
computed_child_denied_example =
    computed_child_denied no_conditions 9 (holding (ann_views ∷ [])) in_acme (schema_with viewers)
      25 (ask (text "1")) viewers (type_with (permission (text "edit") []))
      (plain_ref (text "edit")) (ann_views ∷ []) refl refl refl refl

parse-arrow_text_example :
    parse_permission_ref (text "parent->view") ≡ ok (arrow_ref (text "parent") (text "view"))
unfolding trim_space trim_left trim_right is_space_point
parse-arrow_text_example = parse-arrow_text (text "parent") (text "view") refl refl refl refl refl

-- Two arrows of a document lead to one folder-like document, which the subject views.
abbrev linked : Store
linked = holding (
    tuple (text "doc") (text "2") (text "parent") (text "doc") (text "1")
    ∷ tuple (text "doc") (text "2") (text "owner") (text "doc") (text "1")
    ∷ ann_views
    ∷ [])

abbrev edits : PermissionDef
edits = permission (text "edit") []

second_arrow_skipped_example :
    (check_permission no_conditions
        (lookups 9 linked (some in_acme))
        (schema_with viewers)
        25
        (ask (text "2"))
        (with_children edits union (arrow_ref (text "owner") (text "view") ∷ []))
      ≡ ok (allow (text "doc:1#viewer@user:ann" ∷ [])))
    × (check_permission no_conditions
          (lookups 9 linked (some in_acme))
          (schema_with viewers)
          25
          (ask (text "2"))
          (with_children edits intersect
            (arrow_ref (text "parent") (text "view") ∷ arrow_ref (text "owner") (text "view") ∷ []))
        ≡ ok deny)
    × (check_permission no_conditions
          (lookups 9 linked (some in_acme))
          (schema_with viewers)
          25
          (ask (text "2"))
          (with_children edits exclusion
            (arrow_ref (text "parent") (text "view") ∷ arrow_ref (text "owner") (text "view") ∷ []))
        ≡ ok (allow []))
unfolding get_permission check_permission walk_permission walk_operation walk_union walk_child
    walk_relation walk_arrow walk_targets walk_target visit_key member kind check_direct
    list_related_objects readable_tuples check_tenant_readable tuples_of is_direct is_of
    is_expired_at Maps.get same
second_arrow_skipped_example =
    second_arrow_skipped no_conditions (lookups 9 linked (some in_acme)) (schema_with viewers) 25
      (ask (text "2")) edits (arrow_ref (text "parent") (text "view"))
      (arrow_ref (text "owner") (text "view")) (record { kind = text "doc"; id = text "1" }) viewers
      refl refl refl refl refl refl refl (text "doc:1#viewer@user:ann" ∷ []) refl

-- A document that is its own parent, and whose viewers are those of its parent.
abbrev parents : PermissionDef
parents = permission (text "view") (arrow_ref (text "parent") (text "view") ∷ [])

abbrev looped : Store
looped = holding (tuple (text "doc") (text "1") (text "parent") (text "doc") (text "1") ∷ [])

single {ℓ} : {A : Type ℓ} {x y : A} → In x (y ∷ []) → x ≡ y
single here = refl
single (there m) = elim m [ ]

looped_arrow :
    (req : CheckRequest) (def target : PermissionDef) (c : PermissionRef) (ts : List ObjectRef)
    (t : ObjectRef)
    → req ≡ ask (text "1")
    → c ≡ arrow_ref (text "parent") (text "view")
    → list_related_objects 9 looped (some in_acme) req.object_type req.object_id c.arrow_ref ≡ ok ts
    → In t ts
    → get_permission (schema_with parents) t.kind c.arrow_permission ≡ ok target
    → (target_request req t c.arrow_permission ≡ ask (text "1")) × (target ≡ parents)
unfolding get_permission list_related_objects readable_tuples check_tenant_readable tuples_of is_of
    is_expired_at Maps.get same
looped_arrow req def target c ts t q r l m g =
    let only : ObjectRef = record { kind = text "doc"; id = text "1" } in
    let l' : ◌≡◌ {A = Result (List ObjectRef)} (ok (only ∷ [])) (ok ts) = rw (q, r) at l in
    let t_only : t ≡ only = single (subst (In t) (sym (ok_injective l')) m) in
    let g' : ◌≡◌ {A = Result PermissionDef} (ok parents) (ok target) = rw (t_only, r) at g in
    (rw (q, r, t_only) refl, sym (ok_injective g'))

not_relation :
    (c : PermissionRef) → c ≡ arrow_ref (text "parent") (text "view") → kind c ≡ relation → ⊥
unfolding kind
not_relation c r k = cc (rw r at k)

looped-Enters :
    (sub : CheckRequest) (target : PermissionDef)
    → Enters
        (lookups 9 looped (some in_acme))
        (schema_with parents)
        (ask (text "1"))
        parents
        sub
        target
    → (sub ≡ ask (text "1")) × (target ≡ parents)
looped-Enters sub target first = (refl, refl)
looped-Enters sub target (by_arrow {req = req} {def = def} c ts t aim e m k l i g) =
    let (q, d) = looped-Enters req def e in
    looped_arrow req def aim c ts t q
      (single (subst (In c) (ap (λ (x : PermissionDef). x.children) d) m)) l i g
looped-Enters sub target (by_userset {req = req} {def = def} c ss s aim e m k l i g) =
    let (q, d) = looped-Enters req def e in
    let r : c ≡ arrow_ref (text "parent") (text "view") =
      single (subst (In c) (ap (λ (x : PermissionDef). x.children) d) m) in
    absurd (not_relation c r k)

looped_key :
    (sub : CheckRequest) (target : PermissionDef)
    → Enters
        (lookups 9 looped (some in_acme))
        (schema_with parents)
        (ask (text "1"))
        parents
        sub
        target
    → member (request_key sub target.name) (text "doc:1#view@user:ann" ∷ []) ≡ true
unfolding member visit_key same
looped_key sub target e = let (q, d) = looped-Enters sub target e in rw (q, d) refl

check_deep_enough_example :
    check no_conditions (lookups 9 looped) (engine_with parents) (some in_acme) (ask (text "1"))
    ≢ err depth_exceeded
unfolding schema_for_tenant get_permission Maps.get same
check_deep_enough_example =
    check_deep_enough no_conditions (engine_with parents) 9 looped in_acme (ask (text "1"))
      (schema_with parents) parents refl refl (text "doc:1#view@user:ann" ∷ []) looped_key
      (omega arith)

abbrev raw_schema : RawSchema
raw_schema = record {
  version = text "1";
  types =
      (
        text "doc",
        record {
          attributes = [];
          relations = (text "viewer", text "user" ∷ []) ∷ [];
          permissions =
              (
                text "view",
                record {
                  resolve = [];
                  union = text "viewer" ∷ text "parent->view" ∷ [];
                  intersect = [];
                  exclusion = [];
                  condition = [];
                },
              )
              ∷ [];
        },
      )
      ∷ [];
}

abbrev compiled_view : PermissionDef
compiled_view =
    permission (text "view")
      (plain_ref (text "viewer") ∷ arrow_ref (text "parent") (text "view") ∷ [])

abbrev or_empty_schema : Result CompiledSchema → CompiledSchema
or_empty_schema (ok cs) = cs
or_empty_schema (err e) = record { version = []; types = [] }

abbrev compiled : CompiledSchema
unfolding compile compile_types compile_permissions compile_permission add_permission build_types
    relations_of parse_refs parse_permission_ref parse_allowed_type_ref split_arrow split_hash
    after_prefix trim_space trim_left trim_right is_space_point Maps.set Maps.modify same
compiled = or_empty_schema (compile (λ e. true) raw_schema)

compile_sources_example :
    Source (λ e. true) raw_schema.types (text "doc") (text "view") compiled_view
    × (compiled_view.name ≡ text "view")
unfolding compile compile_types compile_permissions compile_permission add_permission build_types
    relations_of parse_refs parse_permission_ref parse_allowed_type_ref split_arrow split_hash
    after_prefix trim_space trim_left trim_right is_space_point Maps.set Maps.modify Maps.get same
    compiled get_permission
compile_sources_example =
    compile_sources (λ e. true) raw_schema compiled (text "doc") (text "view") compiled_view refl
      refl
