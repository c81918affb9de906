-- ===== src/NodeEvents.antt =====
-- Which updates of a node start a reconcile, internal/controller/shared.go. `none` stands for a failed
-- request for the list of NodeHealthChecks.
pub mod Ignored
use node_healthcheck_operato.Prelude.{
  ℕ, String, StringMap, Bool, true, false, ◌&&◌, ◌||◌, not, Option, none, some, List, [], ◌∷◌, any,
  length, eqb, has_key, value_of, ◌==◌, if◌then◌else◌,
}
use node_healthcheck_operato.Api.{
  Node, NodeCondition, LabelSelector, LabelSelectorRequirement, NodeHealthCheck,
}
use node_healthcheck_operato.Manager.Healthy.{manually_confirmed_healthy_annotation}

abbrev pub exclude_from_remediation_label : String
exclude_from_remediation_label = "remediation.medik8s.io/exclude-from-remediation"

abbrev pub differs : Bool → Bool → Bool
differs true b = not b
differs false b = b

-- labelWasModified.
unfoldable pub label_was_modified : StringMap → StringMap → String → Bool
label_was_modified old new key =
    if differs (has_key key old) (has_key key new)
    then true
    else if has_key key old && has_key key new
    then not (value_of key old == value_of key new)
    else false

abbrev pub selector_was_modified : StringMap → StringMap → LabelSelector → Bool
selector_was_modified old new selector =
    any (λ (l : String × String). label_was_modified old new l.0) selector.match_labels
    || any (λ (e : LabelSelectorRequirement). label_was_modified old new e.key)
        selector.match_expressions

abbrev pub any_selector_was_modified : StringMap → StringMap → Option (List NodeHealthCheck) → Bool
any_selector_was_modified old new none = true
any_selector_was_modified old new (some nhcs) =
    any (λ (nhc : NodeHealthCheck). selector_was_modified old new nhc.spec.selector) nhcs

-- labelsNeedReconcile.
unfoldable pub labels_need_reconcile : Option (List NodeHealthCheck) → StringMap → StringMap → Bool
labels_need_reconcile nhcs old new =
    let key = exclude_from_remediation_label in
    if differs (has_key key old) (has_key key new) || not (value_of key old == value_of key new)
    then true
    else any_selector_was_modified old new nhcs

-- The inner loop of conditionsNeedReconcile, for one old condition.
unfoldable pub changed_in : NodeCondition → Bool → List NodeCondition → Bool
changed_in c found [] = not found
changed_in c found (n ∷ ns) =
    let after_match = changed_in c true ns in
    let no_match = changed_in c found ns in
    if c.type == n.type then (if c.status == n.status then after_match else true) else no_match

abbrev pub is_ready_condition : NodeCondition → Bool
is_ready_condition c = c.type == "Ready"

-- conditionsNeedReconcile.
unfoldable pub conditions_need_reconcile : List NodeCondition → List NodeCondition → Bool
unfolding changed_in
conditions_need_reconcile old new =
    if not (any is_ready_condition new)
    then false
    else if not (eqb (length old) (length new))
    then true
    else any (λ c. changed_in c false new) old

-- annotationsNeedReconcile.
unfoldable pub annotations_need_reconcile : StringMap → StringMap → Bool
annotations_need_reconcile old new =
    differs (has_key manually_confirmed_healthy_annotation old)
      (has_key manually_confirmed_healthy_annotation new)

-- nodeUpdateNeedsReconcile, for two nodes.
unfoldable pub node_update_needs_reconcile : Option (List NodeHealthCheck) → Node → Node → Bool
unfolding labels_need_reconcile conditions_need_reconcile annotations_need_reconcile
node_update_needs_reconcile nhcs old new =
    labels_need_reconcile nhcs old.labels new.labels
    || (conditions_need_reconcile old.conditions new.conditions
        || annotations_need_reconcile old.annotations new.annotations)
