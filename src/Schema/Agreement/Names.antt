-- ===== src/Schema/Agreement/Names.antt =====
-- `parseSchemaTypeInfos` and `parseSchemaTypes` find the same types in the same order.
use mathlib.Core.List.{map-append}
use zanguard.Prelude.{
  ℕ, ◌≡◌, refl, List, [], ◌∷◌, map, arith, map-modify_last, modify_last, push, drop, Bool-cases,
  inl, inr,
}
use zanguard.Js.Text.{Text, split}
use zanguard.Schema.Lines.{indent_of, key_of, is_skipped, parse_inline_list, strip_quotes}
use zanguard.Js.Text.{trim}
use zanguard.Schema.DialogParser as Dialog
use zanguard.Schema.DialogParser.{parse_schema_types, allow_in_last, add_relation, allow_more}
use zanguard.Schema.EvaluatorParser as Evaluator
use zanguard.Schema.EvaluatorParser.{parse_schema_type_infos, add_permission}

unfoldable pub dialog_names : List Dialog.SchemaTypeInfo → List Text
dialog_names = map (λ t. t.name)

unfoldable pub evaluator_names : List Evaluator.SchemaTypeInfo → List Text
evaluator_names = map (λ t. t.name)

module _ (ts : List Dialog.SchemaTypeInfo) where
  names-allow :
      (ns : List Text) → dialog_names (modify_last (allow_in_last ns) ts) ≡ dialog_names ts
  unfolding dialog_names
  names-allow ns = map-modify_last (λ t. t.name) (allow_in_last ns) (λ t. refl) ts

  names-add :
      (r : Dialog.SchemaRelation) → dialog_names (modify_last (add_relation r) ts) ≡ dialog_names ts
  unfolding dialog_names
  names-add r = map-modify_last (λ t. t.name) (add_relation r) (λ t. refl) ts

  names-push :
      (t : Dialog.SchemaTypeInfo) → dialog_names (push ts t) ≡ push (dialog_names ts) t.name
  unfolding dialog_names
  names-push t = map-append (λ t. t.name) ts (t ∷ [])

module _ (ts : List Evaluator.SchemaTypeInfo) where
  evaluator_names-add :
      (p : Text) → evaluator_names (modify_last (add_permission p) ts) ≡ evaluator_names ts
  unfolding evaluator_names
  evaluator_names-add p = map-modify_last (λ t. t.name) (add_permission p) (λ t. refl) ts

  evaluator_names-push :
      (t : Evaluator.SchemaTypeInfo)
      → evaluator_names (push ts t) ≡ push (evaluator_names ts) t.name
  unfolding evaluator_names
  evaluator_names-push t = map-append (λ t. t.name) ts (t ∷ [])

-- Inside a type the scan changes neither the names nor where the scan stands.
record Same (d d' : Dialog.Scan) : Type 0 where
  section : d'.in_types_section ≡ d.in_types_section
  type : d'.current_type ≡ d.current_type
  names : dialog_names d'.result ≡ dialog_names d.result

module _ (d : Dialog.Scan) (indent : ℕ) (line : Text) where
  step_in_relation-Same : Same d (Dialog.step_in_relation d indent line)
  unfolding Dialog.step_in_relation
  step_in_relation-Same = ground (
    arith,
    names-allow d.result (parse_inline_list (trim (drop 6 line))),
    names-allow d.result (strip_quotes (trim (drop 1 line)) ∷ []),
  )

  step_in_type-Same : Same d (Dialog.step_in_type d indent line)
  unfolding Dialog.step_in_type
  step_in_type-Same =
      let r = step_in_relation-Same in
      ground (
        arith,
        r.section,
        r.type,
        r.names,
        names-add d.result (record { name = key_of line; allowed_types = [] }),
      )

record Agree (e : Evaluator.Scan) (d : Dialog.Scan) : Type 0 where
  section : e.in_types_section ≡ d.in_types_section
  type : e.current_type ≡ d.current_type
  names : evaluator_names e.result ≡ dialog_names d.result

module _ (e : Evaluator.Scan) (d : Dialog.Scan) (agree : Agree e d) where
  step_line-Agree :
      (indent : ℕ) (line : Text)
      → Agree (Evaluator.step_line e indent line) (Dialog.step_line d indent line)
  unfolding Evaluator.step_line Dialog.step_line
  step_line-Agree indent line =
      let r = step_in_type-Same d indent line in
      ground (
        arith,
        r.section,
        r.type,
        r.names,
        agree.section,
        agree.type,
        agree.names,
        evaluator_names-push e.result (record { name = key_of line; permissions = [] }),
        names-push d.result (record { name = key_of line; relations = [] }),
        evaluator_names-add e.result (key_of line),
      )

  step-Agree : (raw_line : Text) → Agree (Evaluator.step e raw_line) (Dialog.step d raw_line)
  unfolding Evaluator.step Dialog.step
  step-Agree raw_line = elim (Bool-cases (is_skipped raw_line)) [
    | inl skip ↦ rw skip agree
    | inr read ↦ rw read (step_line-Agree (indent_of raw_line) (trim raw_line))
  ]

scan-Agree :
    (e : Evaluator.Scan) (d : Dialog.Scan) (lines : List Text)
    → Agree e d
    → Agree (Evaluator.scan e lines) (Dialog.scan d lines)
unfolding Evaluator.scan Dialog.scan
scan-Agree e d [] h = h
scan-Agree e d (raw_line ∷ lines) h =
    scan-Agree (Evaluator.step e raw_line) (Dialog.step d raw_line) lines
      (step-Agree e d h raw_line)

-- For every source, the types that the evaluator offers are those of the tuple dialog, in the same
-- order and as often.
pub evaluator_types-eq-dialog_types :
    (source : Text)
    → evaluator_names (parse_schema_type_infos source) ≡ dialog_names (parse_schema_types source)
unfolding parse_schema_type_infos parse_schema_types evaluator_names dialog_names
evaluator_types-eq-dialog_types source =
    (scan-Agree Evaluator.start Dialog.start (split 10 source)
      (record { section = refl; type = refl; names = refl })).names
