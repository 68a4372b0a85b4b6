-- ===== src/Metric/Labels.antt =====
-- Importing labels into a metric, and reading them back.
use cloudzero_agent.Base.{
  String, [], ◌∷◌, ◌==◌, eq_iff, if◌then◌else◌, insert, copy, lookup, lookup-insert, lookup_same,
  insert-IsMap, copy-IsMap, lookup-copy_nil, IsMap, or_else, Option, none, some, ◌≡◌, refl, arith,
  true, false, Bool, ◌||◌, Bool-cases, inl, inr, ◌∙◌, ap,
}
use cloudzero_agent.Metric.Defs.{
  Metric, Labels, import_label, import_from, set_if_present, full_labels,
}

abbrev pub is_hoisted : String → Bool
is_hoisted k = k == "__name__" || k == "node"

abbrev pub value_or : Option String → String → String
value_or none d = d
value_or (some v) d = v

name_not_node : (k : String) → (k == "__name__") ≡ true → (k == "node") ≡ false
name_not_node k e = rw ((eq_iff k "__name__").0 e) refl

module _ (m : Metric) (dest : Labels) (k v : String) where
  import_label_name :
      (k == "__name__") ≡ true → import_label m dest k v ≡ (record m { metric_name = v }, dest)
  unfolding import_label
  import_label_name e = rw e

  import_label_node :
      (k == "__name__") ≡ false
      → (k == "node") ≡ true
      → import_label m dest k v ≡ (record m { node_name = v }, dest)
  unfolding import_label
  import_label_node e f = rw (e, f)

  import_label_other :
      (k == "__name__") ≡ false
      → (k == "node") ≡ false
      → import_label m dest k v ≡ (m, insert k v dest)
  unfolding import_label
  import_label_other e f = rw (e, f)

module _ (labels : Labels) where
  -- The rest of the loop, as a function of what one round returns.
  name_after : Metric × Labels → String
  name_after p = (import_from p.0 p.1 labels).0.metric_name

  node_after : Metric × Labels → String
  node_after p = (import_from p.0 p.1 labels).0.node_name

  label_after : String → Metric × Labels → Option String
  label_after k p = lookup k (import_from p.0 p.1 labels).1

pub import_from-name :
    (m : Metric) (dest labels : Labels)
    → IsMap labels
    → (import_from m dest labels).0.metric_name ≡ value_or (lookup "__name__" labels) m.metric_name
unfolding import_from lookup name_after
import_from-name m dest [] h = refl
import_from-name m dest ((k, v) ∷ labels) (h, hs) = elim (Bool-cases (k == "__name__")) [
  | inl e ↦
      ap (name_after labels) (import_label_name m dest k v e)
      ∙ import_from-name (record m { metric_name = v }) dest labels hs
      ∙ ground (arith, lookup_same k "__name__" labels)
  | inr e ↦ elim (Bool-cases (k == "node")) [
    | inl f ↦
        ap (name_after labels) (import_label_node m dest k v e f)
        ∙ import_from-name (record m { node_name = v }) dest labels hs
        ∙ ground arith
    | inr f ↦
        ap (name_after labels) (import_label_other m dest k v e f)
        ∙ import_from-name m (insert k v dest) labels hs
        ∙ ground arith
  ]
]

pub import_from-node :
    (m : Metric) (dest labels : Labels)
    → IsMap labels
    → (import_from m dest labels).0.node_name ≡ value_or (lookup "node" labels) m.node_name
unfolding import_from lookup node_after
import_from-node m dest [] h = refl
import_from-node m dest ((k, v) ∷ labels) (h, hs) = elim (Bool-cases (k == "__name__")) [
  | inl e ↦
      ap (node_after labels) (import_label_name m dest k v e)
      ∙ import_from-node (record m { metric_name = v }) dest labels hs
      ∙ ground (arith, name_not_node k)
  | inr e ↦ elim (Bool-cases (k == "node")) [
    | inl f ↦
        ap (node_after labels) (import_label_node m dest k v e f)
        ∙ import_from-node (record m { node_name = v }) dest labels hs
        ∙ ground (arith, lookup_same k "node" labels)
    | inr f ↦
        ap (node_after labels) (import_label_other m dest k v e f)
        ∙ import_from-node m (insert k v dest) labels hs
        ∙ ground arith
  ]
]

-- The keys that are hoisted are other keys than the rest.
apart : (j k n : String) → (j == n) ≡ true → (k == n) ≡ false → (j == k) ≡ false
apart j k n e f = ground (arith, eq_iff j n, eq_iff k n, eq_iff j k)

pub import_from-labels :
    (m : Metric) (dest labels : Labels) (k : String)
    → IsMap labels
    → (k == "__name__") ≡ false
    → (k == "node") ≡ false
    → lookup k (import_from m dest labels).1 ≡ or_else (lookup k labels) (lookup k dest)
unfolding import_from lookup label_after
import_from-labels m dest [] k h n n' = refl
import_from-labels m dest ((j, v) ∷ labels) k (h, hs) n n' = elim (Bool-cases (j == "__name__")) [
  | inl e ↦
      ap (label_after labels k) (import_label_name m dest j v e)
      ∙ import_from-labels (record m { metric_name = v }) dest labels k hs n n'
      ∙ ground (arith, apart j k "__name__" e n)
  | inr e ↦ elim (Bool-cases (j == "node")) [
    | inl f ↦
        ap (label_after labels k) (import_label_node m dest j v e f)
        ∙ import_from-labels (record m { node_name = v }) dest labels k hs n n'
        ∙ ground (arith, apart j k "node" f n')
    | inr f ↦
        ap (label_after labels k) (import_label_other m dest j v e f)
        ∙ import_from-labels m (insert j v dest) labels k hs n n'
        ∙ ground (arith, lookup-insert j k v dest, lookup_same j k labels)
  ]
]

pub import_from-hoisted :
    (m : Metric) (dest labels : Labels) (k : String)
    → is_hoisted k ≡ true
    → lookup k (import_from m dest labels).1 ≡ lookup k dest
unfolding import_from lookup label_after
import_from-hoisted m dest [] k n = refl
import_from-hoisted m dest ((j, v) ∷ labels) k n = elim (Bool-cases (j == "__name__")) [
  | inl e ↦
      ap (label_after labels k) (import_label_name m dest j v e)
      ∙ import_from-hoisted (record m { metric_name = v }) dest labels k n
  | inr e ↦ elim (Bool-cases (j == "node")) [
    | inl f ↦
        ap (label_after labels k) (import_label_node m dest j v e f)
        ∙ import_from-hoisted (record m { node_name = v }) dest labels k n
    | inr f ↦
        ap (label_after labels k) (import_label_other m dest j v e f)
        ∙ import_from-hoisted m (insert j v dest) labels k n
        ∙ ground (
          arith,
          lookup-insert j k v dest,
          eq_iff j k,
          eq_iff k "__name__",
          eq_iff k "node",
          eq_iff j "__name__",
          eq_iff j "node",
        )
  ]
]

set_if_present-IsMap :
    (k v : String) (labels : Labels) → IsMap labels → IsMap (set_if_present k v labels)
unfolding set_if_present
set_if_present-IsMap k v labels h = elim (Bool-cases (v == "")) [
  | inl e ↦ rw e h
  | inr e ↦ rw e (insert-IsMap k v labels h)
]

lookup-set_if_present :
    (k j v : String) (labels : Labels)
    → lookup j (set_if_present k v labels)
      ≡ (if v == "" then lookup j labels else if k == j then some v else lookup j labels)
unfolding set_if_present
lookup-set_if_present k j v labels = ground (arith, lookup-insert k j v labels)

pub full_labels-IsMap : (m : Metric) → IsMap (full_labels m)
unfolding full_labels
full_labels-IsMap m =
    set_if_present-IsMap "node" m.node_name _
      (set_if_present-IsMap "__name__" m.metric_name _ (copy-IsMap [] m.labels tt))

-- Labels that hold no key twice, and neither of the two that have fields.
pub record IsHoisted (m : Metric) : Type 0 where
  pub map : IsMap m.labels
  pub no_name : lookup "__name__" m.labels ≡ none
  pub no_node : lookup "node" m.labels ≡ none

module _ (m : Metric) (h : IsHoisted m) where
  pub lookup-full_labels_name : value_or (lookup "__name__" (full_labels m)) "" ≡ m.metric_name
  unfolding full_labels
  lookup-full_labels_name = ground (
    arith,
    lookup-set_if_present "node" "__name__" m.node_name
        (set_if_present "__name__" m.metric_name (copy [] m.labels)),
    lookup-set_if_present "__name__" "__name__" m.metric_name (copy [] m.labels),
    lookup-copy_nil "__name__" m.labels h.map,
    eq_iff m.metric_name "",
    h.no_name,
  )

  pub lookup-full_labels_node : value_or (lookup "node" (full_labels m)) "" ≡ m.node_name
  unfolding full_labels
  lookup-full_labels_node = ground (
    arith,
    lookup-set_if_present "node" "node" m.node_name
        (set_if_present "__name__" m.metric_name (copy [] m.labels)),
    lookup-set_if_present "__name__" "node" m.metric_name (copy [] m.labels),
    lookup-copy_nil "node" m.labels h.map,
    eq_iff m.node_name "",
    h.no_node,
  )

  pub lookup-full_labels_other :
      (k : String)
      → (k == "__name__") ≡ false
      → (k == "node") ≡ false
      → lookup k (full_labels m) ≡ lookup k m.labels
  unfolding full_labels
  lookup-full_labels_other k n n' = ground (
    arith,
    lookup-set_if_present "node" k m.node_name
        (set_if_present "__name__" m.metric_name (copy [] m.labels)),
    lookup-set_if_present "__name__" k m.metric_name (copy [] m.labels),
    lookup-copy_nil k m.labels h.map,
    eq_iff k "__name__",
    eq_iff k "node",
    eq_iff "__name__" k,
    eq_iff "node" k,
  )
