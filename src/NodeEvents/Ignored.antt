-- ===== src/NodeEvents/Ignored.antt =====
-- What an update of a node that starts no reconcile leaves as it was.
use node_healthcheck_operato.Prelude.{
  String, StringMap, Bool, true, false, Option, none, some, List, [], ◌∷◌, any, In, head, tail,
  lookup, eq_iff, ◌≡◌, inl, inr, refl, arith, sym, ◌∙◌, Option-cases,
}
use node_healthcheck_operato.Api.{
  Node, NodeCondition, LabelSelector, LabelSelectorRequirement, NodeHealthCheck,
}
use node_healthcheck_operato.Health.{node_condition_by_type}
use node_healthcheck_operato.NodeEvents.{
  label_was_modified, selector_was_modified, labels_need_reconcile, changed_in, is_ready_condition,
  conditions_need_reconcile, node_update_needs_reconcile,
}

any-In :
    {A : Type 0} (p : A → Bool) (x : A) (xs : List A) → any p xs ≡ false → In x xs → p x ≡ false
any-In p x [] h i = elim i [ ]
any-In p x (y ∷ ys) h (head e) = rw e (ground arith)
any-In p x (y ∷ ys) h (tail i) = any-In p x ys (ground arith) i

label_kept :
    (old new : StringMap) (key : String)
    → label_was_modified old new key ≡ false
    → lookup key old ≡ lookup key new
unfolding label_was_modified
label_kept old new key h = elim (Option-cases (lookup key old)) [
  | inl a ↦ elim (Option-cases (lookup key new)) [ inl b ↦ a ∙ sym b | inr (w, b) ↦ ground arith ]
  | inr (v, a) ↦ elim (Option-cases (lookup key new)) [
    | inl b ↦ ground arith
    | inr (w, b) ↦ ground (arith, eq_iff v w)
  ]
]

-- The labels that a selector looks at.
pub data IsUsedBy (key : String) (selector : LabelSelector) : Type 0 where
  by_label : (value : String) → In (key, value) selector.match_labels → IsUsedBy key selector
  by_expression :
      (e : LabelSelectorRequirement)
      → In e selector.match_expressions
      → e.key ≡ key
      → IsUsedBy key selector

selector_kept :
    (old new : StringMap) (selector : LabelSelector) (key : String)
    → selector_was_modified old new selector ≡ false
    → IsUsedBy key selector
    → label_was_modified old new key ≡ false
selector_kept old new selector key h (by_label value i) =
    any-In (λ (l : String × String). label_was_modified old new l.0) (key, value)
      selector.match_labels (ground arith) i
selector_kept old new selector key h (by_expression e i k) = rw (← k) (
    any-In (λ (r : LabelSelectorRequirement). label_was_modified old new r.key) e
      selector.match_expressions (ground arith) i)

-- An update of a node that starts no reconcile, when the NodeHealthChecks could be listed, leaves
-- every label that the selector of one of them looks at as it was.
pub ignored_update_keeps_labels :
    (nhcs : List NodeHealthCheck) (old new : Node) (nhc : NodeHealthCheck) (key : String)
    → node_update_needs_reconcile (some nhcs) old new ≡ false
    → In nhc nhcs
    → IsUsedBy key nhc.spec.selector
    → lookup key old.labels ≡ lookup key new.labels
unfolding node_update_needs_reconcile labels_need_reconcile
ignored_update_keeps_labels nhcs old new nhc key h i used = label_kept old.labels new.labels key (
    selector_kept old.labels new.labels nhc.spec.selector key
      (any-In (λ (n : NodeHealthCheck). selector_was_modified old.labels new.labels n.spec.selector)
        nhc nhcs (ground arith) i)
      used)

-- What the inner loop has found: the last condition of the type has the status, or there is none
-- and one was found before.
abbrev IsKept : Bool → String → Option NodeCondition → Type 0
IsKept found status none = found ≡ true
IsKept found status (some n) = n.status ≡ status

changed_in-IsKept :
    (c : NodeCondition) (found : Bool) (ns : List NodeCondition)
    → changed_in c found ns ≡ false
    → IsKept found c.status (node_condition_by_type ns c.type)
unfolding changed_in
changed_in-IsKept c found [] h = ground arith
changed_in-IsKept c found (n ∷ ns) h = ground (
  arith,
  eq_iff c.type n.type,
  eq_iff n.type c.type,
  eq_iff c.status n.status,
  changed_in-IsKept c true ns,
  changed_in-IsKept c found ns,
)

found_again :
    (status : String) (o : Option NodeCondition)
    → IsKept false status o
    → (n : NodeCondition) × (o ≡ some n) × (n.status ≡ status)
found_again status none k = cc
found_again status (some n) k = (n, refl, k)

-- An update of a node that starts no reconcile, when the node has a condition of the type Ready
-- afterwards, leaves the status of every condition that the node had before as it was.
pub ignored_update_keeps_conditions :
    (nhcs : Option (List NodeHealthCheck)) (old new : Node) (c : NodeCondition)
    → node_update_needs_reconcile nhcs old new ≡ false
    → any is_ready_condition new.conditions ≡ true
    → In c old.conditions
    → (n : NodeCondition) × (node_condition_by_type new.conditions c.type ≡ some n)
      × (n.status ≡ c.status)
unfolding node_update_needs_reconcile conditions_need_reconcile
ignored_update_keeps_conditions nhcs old new c h ready i =
    found_again c.status (node_condition_by_type new.conditions c.type) (
      changed_in-IsKept c false new.conditions
        (any-In (λ o. changed_in o false new.conditions) c old.conditions (ground arith) i))
