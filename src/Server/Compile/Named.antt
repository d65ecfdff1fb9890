-- ===== src/Server/Compile/Named.antt =====
-- Where the permissions of a compiled schema come from, and their names.
use mathlib.Core.Path.{subst}
use zanguard.Prelude.{
  ◌≡◌, refl, ◌∙◌, sym, ap, Bool, Option, none, some, List, [], ◌∷◌, arith, Bool-cases, inl, inr,
  if◌then◌else◌, leb, length,
}
use zanguard.Js.Text.{Text, same, same_iff, is_empty}
use zanguard.Js.Maps
use zanguard.Js.Maps.{Map, get-set}
use zanguard.Server.Model.{Result, ok, err, >>=-eq-ok, ok_injective, unknown_permission}
use zanguard.Server.Schema.{
  PermOp, union, intersect, exclusion, ConditionExpr, PermissionDef, TypeDef, CompiledSchema,
  get_permission, permission_in,
}
use zanguard.Server.Engine.Holds.{In, here, there}
use zanguard.Server.Compile.{
  RawPermission, RawType, RawSchema, listed, operation_of, compile_permission, build_types,
  add_permission, compile_permissions, compile_types, compile, parse_refs,
}

module _ {ℓ} {V : Type ℓ} where
  get-modify :
      (k j : Text) (f : V → V) (m : Map V) (u : V)
      → Maps.get j (Maps.modify k f m) ≡ some u
      → (v : V) × (Maps.get j m ≡ some v) × (u ≡ (if same k j then f v else v))
  unfolding Maps.get Maps.modify
  get-modify k j f [] u h = cc
  get-modify k j f ((i, w) ∷ m) u h = elim (Bool-cases (same i k)) [
    | inl hit ↦ elim (Bool-cases (same i j)) [
      | inl here_ ↦ (w, ground arith, ground (arith, same_iff i k, same_iff i j, same_iff k j))
      | inr other ↦ (u, ground arith, ground (arith, same_iff i k, same_iff i j, same_iff k j))
    ]
    | inr miss ↦ elim (Bool-cases (same i j)) [
      | inl here_ ↦ (w, ground arith, ground (arith, same_iff i k, same_iff i j, same_iff k j))
      | inr other ↦ let (v, e, g) = get-modify k j f m u (ground arith) in (v, ground arith, g)
    ]
  ]

permission_found :
    (o : Option TypeDef) (type name : Text) (pd : PermissionDef)
    → permission_in o type name ≡ ok pd
    → (td : TypeDef) × (o ≡ some td) × (Maps.get name td.permissions ≡ some pd)
permission_found none type name pd h = cc
permission_found (some td) type name pd h = (td, refl, inside (Maps.get name td.permissions) h)
  where
    inside :
        (p : Option PermissionDef)
        → ◌≡◌ {A = Result PermissionDef}
            (elim p [ none ↦ err (unknown_permission name) | some d ↦ ok d ])
            (ok pd)
        → p ≡ some pd
    inside none h = cc
    inside (some d) h = ap some (ok_injective h)

module _ (compiles : Text → Bool) where
  listed_name :
      (name : Text) (c : Option ConditionExpr) (op : PermOp) (refs : List Text) (pd : PermissionDef)
      → listed compiles name c op refs ≡ ok pd
      → pd.name ≡ name
  listed_name name c op refs pd h =
      let (cs, e, f) = >>=-eq-ok (parse_refs refs) _ h in
      sym (ap (λ (d : PermissionDef). d.name) (ok_injective f))

  compile_permission_name :
      (name : Text) (raw : RawPermission) (pd : PermissionDef)
      → compile_permission compiles name raw ≡ ok pd
      → pd.name ≡ name
  unfolding compile_permission
  compile_permission_name name raw pd h =
      let (c, e, f) = >>=-eq-ok _ (operation_of compiles name raw) h in
      elim (Bool-cases (is_empty raw.resolve)) [
        | inr resolved ↦ sym (ap (λ (d : PermissionDef). d.name) (ok_injective (rw resolved at f)))
        | inl a ↦ elim (Bool-cases (leb 1 (length raw.union))) [
          | inl b ↦ listed_name name c union raw.union pd (rw (a, b) at f)
          | inr b ↦ elim (Bool-cases (leb 1 (length raw.intersect))) [
            | inl d ↦ listed_name name c intersect raw.intersect pd (rw (a, b, d) at f)
            | inr d ↦ elim (Bool-cases (leb 1 (length raw.exclusion))) [
              | inl g ↦ listed_name name c exclusion raw.exclusion pd (rw (a, b, d, g) at f)
              | inr g ↦ absurd (cc (rw (a, b, d, g) at f))
            ]
          ]
        ]
      ]

  -- Where a compiled permission comes from: a raw permission of that name of a raw type of that name.
  abbrev pub Source : Map RawType → (type name : Text) → PermissionDef → Type 0
  Source raw type name pd =
      (rt : RawType) × (rp : RawPermission) × In (type, rt) raw
      × In (name, rp) rt.permissions
      × (compile_permission compiles name rp ≡ ok pd)

  module _ (raw : Map RawType) where
    -- Every permission of the types has a source.
    abbrev Sourced : Map TypeDef → Type 0
    Sourced types =
        (type : Text) (td : TypeDef)
        → Maps.get type types ≡ some td
        → (name : Text) (pd : PermissionDef) → Maps.get name td.permissions ≡ some pd
        → Source raw type name pd

    Sourced-set :
        (n : Text) (td₀ : TypeDef) (made : Map TypeDef)
        → td₀.permissions ≡ []
        → Sourced made
        → Sourced (Maps.set n td₀ made)
    unfolding Maps.get
    Sourced-set n td₀ made none_yet h type td e name pd g =
        let k : (if same n type then some td₀ else Maps.get type made) ≡ some td =
          sym (get-set n type td₀ made) ∙ e in
        elim (Bool-cases (same n type)) [
          | inl hit ↦
              let q : td₀ ≡ td = cc (rw hit at k) in
              let r : td.permissions ≡ [] =
                ap (λ (d : TypeDef). d.permissions) (sym q) ∙ none_yet in
              absurd (cc (rw r at g))
          | inr miss ↦ h type td (rw miss at k) name pd g
        ]

    build_types-Sourced :
        (rest : Map RawType) (made : Map TypeDef)
        → Sourced made
        → Sourced (build_types compiles rest made)
    unfolding build_types
    build_types-Sourced [] made h = h
    build_types-Sourced ((n, rt) ∷ rest) made h =
        build_types-Sourced rest _ (Sourced-set n _ made refl h)

    add_permission-Sourced :
        (type₀ name₀ : Text) (pd₀ : PermissionDef) (types : Map TypeDef)
        → Source raw type₀ name₀ pd₀
        → Sourced types
        → Sourced (add_permission compiles type₀ name₀ pd₀ types)
    unfolding add_permission
    add_permission-Sourced type₀ name₀ pd₀ types source h type td e name pd g =
        let add = λ (d : TypeDef). record d { permissions = Maps.set name₀ pd₀ d.permissions } in
        let (v, found, u) = get-modify type₀ type add types td e in
        elim (Bool-cases (same type₀ type)) [
          | inr miss ↦
              let q : td ≡ v = rw miss at u in
              h type v found name pd (sym (ap (λ (d : TypeDef). Maps.get name d.permissions) q) ∙ g)
          | inl hit ↦
              let q : td ≡ add v = rw hit at u in
              let k : (if same name₀ name then some pd₀ else Maps.get name v.permissions)
                  ≡ some pd =
                sym (
                  ap (λ (d : TypeDef). Maps.get name d.permissions) q
                  ∙ get-set name₀ name pd₀ v.permissions)
                ∙ g in
              elim (Bool-cases (same name₀ name)) [
                | inl hit' ↦
                    let r : pd₀ ≡ pd = cc (rw hit' at k) in
                    subst (λ (d : PermissionDef). Source raw type name d) r
                      (subst (λ (n : Text). Source raw type n pd₀) ((same_iff name₀ name).0 hit')
                        (subst (λ (n : Text). Source raw n name₀ pd₀) ((same_iff type₀ type).0 hit)
                          source))
                | inr miss' ↦ h type v found name pd (rw miss' at k)
              ]
        ]

    compile_permissions-Sourced :
        (type : Text) (rt : RawType) (rest : Map RawPermission) (types types' : Map TypeDef)
        → In (type, rt) raw
        → ((name : Text) (rp : RawPermission) → In (name, rp) rest → In (name, rp) rt.permissions)
        → compile_permissions compiles type rest types ≡ ok types'
        → Sourced types
        → Sourced types'
    unfolding compile_permissions
    compile_permissions-Sourced type rt [] types types' m sub e h = subst Sourced (ok_injective e) h
    compile_permissions-Sourced type rt ((name, rp) ∷ rest) types types' m sub e h =
        let (pd, made, f) = >>=-eq-ok (compile_permission compiles name rp) _ e in
        compile_permissions-Sourced type rt rest (add_permission compiles type name pd types) types'
          m (λ n p i. sub n p (there i)) f
          (add_permission-Sourced type name pd types (rt, rp, m, sub name rp here, made) h)

    compile_types-Sourced :
        (rest : Map RawType) (types types' : Map TypeDef)
        → ((type : Text) (rt : RawType) → In (type, rt) rest → In (type, rt) raw)
        → compile_types compiles rest types ≡ ok types'
        → Sourced types
        → Sourced types'
    unfolding compile_types
    compile_types-Sourced [] types types' sub e h = subst Sourced (ok_injective e) h
    compile_types-Sourced ((type, rt) ∷ rest) types types' sub e h =
        let (mid, made, f) =
          >>=-eq-ok (compile_permissions compiles type rt.permissions types) _ e in
        compile_types-Sourced rest mid types' (λ n r i. sub n r (there i)) f
          (compile_permissions-Sourced type rt rt.permissions types mid (sub type rt here)
            (λ n p i. i) made h)

  -- Every permission that a compiled schema has is compiled from a raw permission of its name, in a
  -- raw type of its type's name, and is called by that name.
  pub compile_sources :
      (raw : RawSchema) (cs : CompiledSchema) (type name : Text) (pd : PermissionDef)
      → compile compiles raw ≡ ok cs
      → get_permission cs type name ≡ ok pd
      → Source raw.types type name pd × (pd.name ≡ name)
  unfolding compile get_permission Maps.get
  compile_sources raw cs type name pd h g =
      let (types, made, f) =
        >>=-eq-ok (compile_types compiles raw.types (build_types compiles raw.types [])) _ h in
      let all_sourced : Sourced raw.types types =
        compile_types-Sourced raw.types raw.types _ types (λ n r i. i) made
          (build_types-Sourced raw.types raw.types [] (λ t td e n d k. absurd (cc))) in
      let q : types ≡ cs.types = ap (λ (c : CompiledSchema). c.types) (ok_injective f) in
      let (td, found, inside) = permission_found (Maps.get type cs.types) type name pd g in
      let source = all_sourced type td (ap (Maps.get type) q ∙ found) name pd inside in
      (source, compile_permission_name name source.1 pd source.4)
