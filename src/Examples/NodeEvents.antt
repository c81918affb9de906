-- ===== src/Examples/NodeEvents.antt =====
-- The filter of node updates at a node that stays as it is, and the checker at a cluster with one
-- MachineHealthCheck for terminating nodes.
use node_healthcheck_operato.Prelude.{pos, false, none, some, [], ◌∷◌, head, ◌≡◌, ◌↔◌, refl}
use node_healthcheck_operato.Api.{Node, NodeCondition, LabelSelectorRequirement}
use node_healthcheck_operato.Health.{node_condition_by_type}
use node_healthcheck_operato.NodeEvents.{
  node_update_needs_reconcile, labels_need_reconcile, label_was_modified, conditions_need_reconcile,
  changed_in, annotations_need_reconcile,
}
use node_healthcheck_operato.NodeEvents.Ignored.{ignored_update_keeps_conditions}
use node_healthcheck_operato.MachineApi.{MachineHealthCheck}
use node_healthcheck_operato.Mhc.{unknown, need_disable_nhc, update_status}
use node_healthcheck_operato.Mhc.Checked.{IsHarmless, enabled_iff_IsHarmless}
use node_healthcheck_operato.Examples.Data.{worker, nhc_with, mhc_with}

-- The node after its condition has been reported again.
abbrev reported : Node
reported = record worker { annotations = ("reported", "true") ∷ [] }

abbrev role : LabelSelectorRequirement
role = record { key = "node-role.kubernetes.io/worker"; operator = "Exists"; values = [] }

abbrev not_ready : NodeCondition
not_ready = record { type = "Ready"; status = "False"; last_transition_time = pos 0 }

ignored : node_update_needs_reconcile (some (nhc_with [] [] ∷ [])) worker reported ≡ false
unfolding node_update_needs_reconcile labels_need_reconcile label_was_modified
    conditions_need_reconcile changed_in annotations_need_reconcile
ignored = refl

ignored_update_keeps_conditions_example :
    (n : NodeCondition) × (node_condition_by_type reported.conditions "Ready" ≡ some n)
    × (n.status ≡ "False")
ignored_update_keeps_conditions_example =
    ignored_update_keeps_conditions (some (nhc_with [] [] ∷ [])) worker reported not_ready ignored
      refl (head refl)

abbrev termination : MachineHealthCheck
termination =
    mhc_with (record { type = "Terminating"; status = "True"; duration = pos 0 } ∷ []) none

enabled_iff_IsHarmless_example :
    (need_disable_nhc (update_status unknown (some (termination ∷ []))).1 ≡ false)
    ↔ IsHarmless (termination ∷ [])
enabled_iff_IsHarmless_example = enabled_iff_IsHarmless unknown (termination ∷ [])
