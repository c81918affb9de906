-- ===== src/Reconcile/Outcome.antt =====
-- What Reconcile of internal/controller/nodehealthcheck_controller.go returns and what it writes to the status, and
-- GetNodes of internal/controller/resources/manager.go.
use node_healthcheck_operato.Prelude.{ℕ, ℤ, pos, minute, String, none, some, List, [], ◌∷◌}
use node_healthcheck_operato.Api.{
  Node, NodeHealthCheck, LabelSelector, condition_type_disabled, condition_reason_enabled,
}
use node_healthcheck_operato.Conditions.{NewCondition}
use node_healthcheck_operato.Cluster.{
  Error, wrapped, Answer, failed, list_nodes, History, Environment,
}

-- What Reconcile returns, the NodeHealthCheck that it leaves and the watches.
pub record Outcome : Type 0 where
  pub requeue_after : ℤ
  pub errors : List Error
  pub nhc : NodeHealthCheck
  pub watches : List String

abbrev pub stops : ℤ → NodeHealthCheck → List String → Outcome
stops requeue nhc watches = record {
  requeue_after = requeue;
  errors = [];
  nhc = nhc;
  watches = watches;
}

abbrev pub breaks : Error → ℤ → NodeHealthCheck → List String → Outcome
breaks e requeue nhc watches = record {
  requeue_after = requeue;
  errors = e ∷ [];
  nhc = nhc;
  watches = watches;
}

abbrev pub template_not_found_requeue_after : ℤ
template_not_found_requeue_after = pos 15000000000

abbrev pub cluster_upgrade_requeue_after : ℤ
cluster_upgrade_requeue_after = minute

abbrev pub disabling : String → String → NewCondition
disabling reason message = record {
  type = condition_type_disabled;
  status = "True";
  reason = reason;
  message = message;
}

abbrev pub enabling : NewCondition
enabling = record {
  type = condition_type_disabled;
  status = "False";
  reason = condition_reason_enabled;
  message = "No issues found, NodeHealthCheck is enabled.";
}

-- The counters of a disabled NodeHealthCheck.
abbrev pub with_counts : ℕ → ℕ → NodeHealthCheck → NodeHealthCheck
with_counts observed healthy nhc = record nhc {
  status = record nhc.status { observed_nodes = some observed; healthy_nodes = some healthy };
}

abbrev pub reset : NodeHealthCheck → NodeHealthCheck
reset nhc = record nhc {
  status = record nhc.status {
    observed_nodes = some 0;
    healthy_nodes = some 0;
    in_flight_remediations = [];
  };
}

-- GetNodes.
unfoldable pub get_nodes : Environment → LabelSelector → History → Answer (List Node) × History
get_nodes env selector h = elim (env.selector_error selector) [
  | some e ↦ (failed (wrapped "failed converting a selector from NHC selector" e), h)
  | none ↦ (env.on_list_nodes h selector, list_nodes selector ∷ h)
]
