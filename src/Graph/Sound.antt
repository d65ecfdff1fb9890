-- ===== src/Graph/Sound.antt =====
-- The invariant of `buildGraph`'s loops.
use mathlib.Core.List.{map-append}
use zanguard.Prelude.{
  ℕ, ◌≡◌, refl, ap, sym, ◌∙◌, Bool, true, false, List, [], ◌∷◌, map, arith, push, Bool-cases, inl,
  inr, All, All-append, length,
}
use zanguard.Js.Text.{Text, before, is_empty}
use zanguard.Js.Maps
use zanguard.Js.Maps.{Map}
use zanguard.Schema.GraphParser.{ParsedType, ParsedRelation}
use zanguard.Js.Sets.{member, member-push, member-push_self, is_distinct, is_distinct-push}
use zanguard.Graph.Keys.{All-keys-push_at}
use zanguard.Graph.{
  Node, Build, type_id, add_node, edge_key, is_undefined, relation_count, add_target, add_targets,
  add_relations, add_type, add_types,
}

-- An edge's key joins two added types; of the left one `P` holds.
abbrev pub Joined : (Text → Type 0) → List Text → Text → Type 0
Joined P added key =
    (a : Text) × (b : Text) × (key ≡ edge_key a b)
    × P a
    × (member a added ≡ true)
    × (member b added ≡ true)

-- A node as `add_node` makes it.
abbrev pub Marked : Map ParsedType → Node → Type 0
Marked by_name n =
    (n.id ≡ type_id n.label) × (n.is_external ≡ is_undefined (Maps.get n.label by_name))

unfoldable pub labels : List Node → List Text
labels = map (λ n. n.label)

labels-push : (ns : List Node) (n : Node) → labels (push ns n) ≡ push (labels ns) n.label
unfolding labels
labels-push ns n = map-append (λ n. n.label) ns (n ∷ [])

pub record Good (P : Text → Type 0) (by_name : Map ParsedType) (b : Build) : Type 0 where
  pub labels_added : labels b.nodes ≡ b.added_types
  pub marked : All (Marked by_name) b.nodes
  pub distinct : is_distinct b.added_types ≡ true
  pub joined : All (Joined P b.added_types) (Maps.keys b.edge_relations)

module _ (P : Text → Type 0) (by_name : Map ParsedType) where
  Joined-push :
      (added : List Text) (x : Text) (ks : List Text)
      → All (Joined P added) ks
      → All (Joined P (push added x)) ks
  Joined-push added x [] h = tt
  Joined-push added x (k ∷ ks) ((a, b, e, free, p, q), h) =
      ((a, b, e, free, member-push a x added p, member-push b x added q), Joined-push added x ks h)

  module _ (name : Text) (is_external : Bool) (n : ℕ) (b : Build) where
    add_node-Good :
        is_external ≡ is_undefined (Maps.get name by_name)
        → Good P by_name b
        → Good P by_name (add_node name is_external n b)
    unfolding add_node
    add_node-Good shown h = elim (Bool-cases (member name b.added_types)) [
      | inl there ↦ rw there h
      | inr fresh ↦ rw fresh (record {
        labels_added = labels-push b.nodes _ ∙ ap (λ ls. push ls name) h.labels_added;
        marked = All-append (Marked by_name) b.nodes _ h.marked ((refl, shown), tt);
        distinct = is_distinct-push name b.added_types fresh h.distinct;
        joined = Joined-push b.added_types name (Maps.keys b.edge_relations) h.joined;
      })
    ]

    -- Afterwards the name is there, and nothing is lost.
    add_node-member : member name (add_node name is_external n b).added_types ≡ true
    unfolding add_node
    add_node-member = ground (arith, member-push_self name b.added_types)

    add_node-keeps :
        (x : Text)
        → member x b.added_types ≡ true
        → member x (add_node name is_external n b).added_types ≡ true
    unfolding add_node
    add_node-keeps x h = ground (arith, member-push x name b.added_types)

-- Inside the loops over a type's relations that type is a node already.
record Ready (P : Text → Type 0) (by_name : Map ParsedType) (name : Text) (b : Build) : Type 0 where
  good : Good P by_name b
  there : member name b.added_types ≡ true

module _ (P : Text → Type 0) (by_name : Map ParsedType) (name : Text) (free : P name) where
  add_target-Ready :
      (relation target : Text) (b : Build)
      → Ready P by_name name b
      → Ready P by_name name (add_target by_name name relation b target)
  unfolding add_target
  add_target-Ready relation target b h =
      let x : Text = before b'#' target in
      let n : ℕ = relation_count (Maps.get x by_name) in
      let e : Bool = is_undefined (Maps.get x by_name) in
      let b' : Build = add_node x e n b in
      let good = add_node-Good P by_name x e n b refl h.good in
      let there = add_node-keeps P by_name x e n b name h.there in
      elim (Bool-cases (is_empty x)) [
        | inl blank ↦ rw blank h
        | inr given ↦ rw given (record {
          good = record {
            labels_added = good.labels_added;
            marked = good.marked;
            distinct = good.distinct;
            joined =
                All-keys-push_at (Joined P b'.added_types) (edge_key name x) relation
                  b'.edge_relations good.joined
                  (name, x, refl, free, there, add_node-member P by_name x e n b);
          };
          there = there;
        })
      ]

  add_targets-Ready :
      (relation : Text) (b : Build) (targets : List Text)
      → Ready P by_name name b
      → Ready P by_name name (add_targets by_name name relation b targets)
  unfolding add_targets
  add_targets-Ready relation b [] h = h
  add_targets-Ready relation b (target ∷ targets) h =
      add_targets-Ready relation (add_target by_name name relation b target) targets
        (add_target-Ready relation target b h)

  add_relations-Ready :
      (b : Build) (rs : List ParsedRelation)
      → Ready P by_name name b
      → Ready P by_name name (add_relations by_name name b rs)
  unfolding add_relations
  add_relations-Ready b [] h = h
  add_relations-Ready b (r ∷ rs) h =
      add_relations-Ready (add_targets by_name name r.relation b r.targets) rs
        (add_targets-Ready r.relation b r.targets h)

-- A declared type is found by its name.
abbrev pub IsKnown : Map ParsedType → ParsedType → Type 0
IsKnown by_name t = is_undefined (Maps.get t.name by_name) ≡ false

module _ (P : Text → Type 0) (by_name : Map ParsedType) where
  pub add_types-Good :
      (b : Build) (ts : List ParsedType)
      → All (λ t. P t.name) ts
      → All (IsKnown by_name) ts
      → Good P by_name b
      → Good P by_name (add_types by_name b ts)
  unfolding add_types add_type
  add_types-Good b [] free known h = h
  add_types-Good b (t ∷ ts) (f, free) (k, known) h =
      let b' : Build = add_node t.name false (length t.relations) b in
      let ready : Ready P by_name t.name b' = record {
        good = add_node-Good P by_name t.name false (length t.relations) b (sym k) h;
        there = add_node-member P by_name t.name false (length t.relations) b;
      } in
      add_types-Good (add_relations by_name t.name b' t.relations) ts free known
        (add_relations-Ready P by_name t.name f b' t.relations ready).good
