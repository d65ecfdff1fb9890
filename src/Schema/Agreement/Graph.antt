-- ===== src/Schema/Agreement/Graph.antt =====
-- `parseTypes` finds what `parseSchemaTypes` finds, gathered in a map by type name.
use zanguard.Prelude.{
  ℕ, ◌≡◌, refl, ap, sym, ◌∙◌, Bool, true, false, not, ◌&&◌, leb, ◌==◌, List, [], ◌∷◌, map, arith,
  none, drop, if◌then◌else◌,
}
use zanguard.Js.Text.{Text, text, split, trim, starts_with, ends_with, is_empty}
use zanguard.Js.Maps
use zanguard.Js.Maps.{
  Map, insert_all, insert_all-push, modify_at, last_key, last_key-push, last_key-modify_last,
  modify-insert_all,
}
use zanguard.Schema.Lines.{colon, indent_of, key_of, is_skipped, parse_inline_list, strip_quotes}
use zanguard.Schema.DialogParser as Dialog
use zanguard.Schema.DialogParser.{parse_schema_types}
use zanguard.Schema.GraphParser as Graph
use zanguard.Schema.GraphParser.{ParsedType, ParsedRelation, parse_types, is_null}
use zanguard.Schema.Agreement.TypeMaps.{
  graph_of, last_name, graph_of-add, last_name-add, graph_of-allow, last_name-allow, graph_of-push,
  last_name-push, to_type,
}

record Agree (d : Dialog.Scan) (g : Graph.Scan) : Type 0 where
  section : g.in_types_section ≡ d.in_types_section
  known : is_null g.current_type ≡ not d.current_type
  type : g.current_type ≡ (if d.current_type then last_name d.result else none)
  relations : g.in_relations ≡ d.in_relations
  relation : g.current_relation ≡ d.current_relation
  collecting : g.collecting ≡ d.collecting
  parsed : g.parsed ≡ graph_of d.result

module _ (d : Dialog.Scan) (g : Graph.Scan) (h : Agree d g) where
  allow-Agree :
      (ns : List Text)
      → d.current_type ≡ true
      → Agree (Dialog.allow_more ns d) (Graph.target_more ns g)
  allow-Agree ns typed = record {
    section = h.section;
    known = h.known;
    type = rw last_name-allow h.type;
    relations = h.relations;
    relation = h.relation;
    collecting = h.collecting;
    parsed = ground (arith, h.type, h.parsed, graph_of-allow d.result ns);
  }

  collecting-Agree : (b : Bool) → Agree (record d { collecting = b }) (record g { collecting = b })
  collecting-Agree b = record {
    section = h.section;
    known = h.known;
    type = h.type;
    relations = h.relations;
    relation = h.relation;
    collecting = refl;
    parsed = h.parsed;
  }

-- Both scanners branch on tests that are equal.
if-Agree :
    (b c : Bool) {d d' : Dialog.Scan} {g g' : Graph.Scan}
    → c ≡ b
    → (b ≡ true → Agree d g)
    → (b ≡ false → Agree d' g')
    → Agree (if b then d else d') (if c then g else g')
if-Agree true true e hit miss = hit refl
if-Agree true false e hit miss = cc
if-Agree false true e hit miss = cc
if-Agree false false e hit miss = miss refl

module _ (d : Dialog.Scan) (g : Graph.Scan) (indent : ℕ) (line : Text) (h : Agree d g) where
  step_in_relation-Agree :
      d.current_type ≡ true
      → Agree (Dialog.step_in_relation d indent line) (Graph.step_in_relation g indent line)
  unfolding Dialog.step_in_relation Graph.step_in_relation
  step_in_relation-Agree typed =
      let inline : Bool = indent == 8 && starts_with (text "types:") line in
      let blank : Bool = is_empty (trim (drop 6 line)) in
      let dash : Bool = starts_with (text "-") line in
      let no_item : Bool = is_empty (trim (drop 1 line)) in
      if-Agree inline inline refl
        (λ _.
          if-Agree blank blank refl (λ _. collecting-Agree d g h true)
            (λ _.
              allow-Agree _ _ (collecting-Agree d g h false)
                (parse_inline_list (trim (drop 6 line))) typed))
        (λ _.
          if-Agree (d.collecting && leb 10 indent && dash) (g.collecting && leb 10 indent && dash)
            (ap (λ b. b && leb 10 indent && dash) h.collecting)
            (λ _.
              if-Agree no_item no_item refl (λ _. h)
                (λ _. allow-Agree d g h (strip_quotes (trim (drop 1 line)) ∷ []) typed))
            (λ _.
              if-Agree (leb indent 8) (leb indent 8) refl (λ _. collecting-Agree d g h false)
                (λ _. h)))

  step_in_type-Agree :
      d.current_type ≡ true
      → Agree (Dialog.step_in_type d indent line) (Graph.step_in_type g indent line)
  unfolding Dialog.step_in_type Graph.step_in_type
  step_in_type-Agree typed =
      let heading : Bool = indent == 4 && ends_with colon line in
      let named : Bool = indent == 6 && ends_with colon line in
      if-Agree heading heading refl
        (λ _. record {
          section = h.section;
          known = h.known;
          type = h.type;
          relations = refl;
          relation = refl;
          collecting = refl;
          parsed = h.parsed;
        })
        (λ _.
          if-Agree (not d.in_relations) (not g.in_relations) (ap not h.relations) (λ _. h)
            (λ _.
              if-Agree named named refl
                (λ _.
                  let r : Dialog.SchemaRelation = record {
                    name = key_of line;
                    allowed_types = [];
                  } in
                  record {
                    section = h.section;
                    known = h.known;
                    type = rw last_name-add h.type;
                    relations = h.relations;
                    relation = refl;
                    collecting = refl;
                    parsed = ground (arith, h.type, h.parsed, graph_of-add d.result r);
                  })
                (λ _.
                  if-Agree (not d.current_relation) (not g.current_relation) (ap not h.relation)
                    (λ _. h) (λ _. step_in_relation-Agree typed))))

  step_line-Agree : Agree (Dialog.step_line d indent line) (Graph.step_line g indent line)
  unfolding Dialog.step_line Graph.step_line
  step_line-Agree =
      let outer : Bool = indent == 0 in
      let named : Bool = indent == 2 && ends_with colon line in
      let blank : Bool = is_empty (key_of line) in
      if-Agree outer outer refl
        (λ _. record {
          section = refl;
          known = refl;
          type = refl;
          relations = refl;
          relation = refl;
          collecting = refl;
          parsed = h.parsed;
        })
        (λ _.
          if-Agree (not d.in_types_section) (not g.in_types_section) (ap not h.section) (λ _. h)
            (λ _.
              if-Agree named named refl
                (λ _.
                  if-Agree blank blank refl (λ _. h)
                    (λ _. record {
                      section = h.section;
                      known = refl;
                      type = sym (last_name-push d.result (key_of line));
                      relations = refl;
                      relation = refl;
                      collecting = refl;
                      parsed =
                          ap
                            (Maps.set (key_of line) (record { name = key_of line; relations = [] }))
                            h.parsed
                          ∙ sym (graph_of-push d.result (key_of line));
                    }))
                (λ _.
                  if-Agree (not d.current_type) (is_null g.current_type) h.known (λ _. h)
                    (λ e. step_in_type-Agree (ground arith)))))

module _ (d : Dialog.Scan) (g : Graph.Scan) (h : Agree d g) where
  step-Agree : (raw_line : Text) → Agree (Dialog.step d raw_line) (Graph.step g raw_line)
  unfolding Dialog.step Graph.step
  step-Agree raw_line =
      if-Agree (is_skipped raw_line) (is_skipped raw_line) refl (λ _. h)
        (λ _. step_line-Agree d g (indent_of raw_line) (trim raw_line) h)

scan-Agree :
    (d : Dialog.Scan) (g : Graph.Scan) (lines : List Text)
    → Agree d g
    → Agree (Dialog.scan d lines) (Graph.scan g lines)
unfolding Dialog.scan Graph.scan
scan-Agree d g [] h = h
scan-Agree d g (raw_line ∷ lines) h =
    scan-Agree (Dialog.step d raw_line) (Graph.step g raw_line) lines (step-Agree d g h raw_line)

-- For every source, the types of the graph are the values of the map by name made of the types of
-- the tuple dialog, in insertion order: of types with one name the last definition counts, with
-- its relations and their targets.
pub graph_types-eq-dialog_types :
    (source : Text)
    → parse_types source
      ≡ Maps.values (insert_all (λ t. t.name) [] (map to_type (parse_schema_types source)))
unfolding parse_types parse_schema_types graph_of insert_all
graph_types-eq-dialog_types source =
    ap Maps.values
      (scan-Agree Dialog.start Graph.start (split 10 source) (record {
        section = refl;
        known = refl;
        type = refl;
        relations = refl;
        relation = refl;
        collecting = refl;
        parsed = refl;
      })).parsed
