-- ===== src/Machines/Outcome.antt =====
-- What the MachineHealthCheck reconciler of internal/controller/machinehealthcheck_controller.go is built from,
-- what it returns and what it writes to the status.
use node_healthcheck_operato.Prelude.{ℕ, ℤ, pos, String, Bool, Option, none, some, List, str_append}
use node_healthcheck_operato.Api.{IntOrString}
use node_healthcheck_operato.MachineApi.{MachineCondition, MachineHealthCheck}
use node_healthcheck_operato.Cluster.{Error, Environment}
use node_healthcheck_operato.Manager.{Manager}
use node_healthcheck_operato.Manager.Healthy.{Rfc3339}
use node_healthcheck_operato.Mhc.{MhcStatus}
use node_healthcheck_operato.Machines.Health.{TargetNode, no_node_ref, missing, existing}
use node_healthcheck_operato.Machines.Conditions.{set_machine_condition}

-- MachineHealthCheckReconciler with what it is built from: the state of the MHC checker, or `none` for the
-- one that does nothing, and whether the feature gate has disabled the other controller.
-- `skip_message` is the text of the condition, for the total and the unhealthy targets.
pub record MachineOperator : Type 0 where
  pub environment : Environment
  pub checker : Option MhcStatus
  pub is_mao_mhc_disabled : Bool
  pub clock : Rfc3339
  pub skip_message : ℤ → ℤ → Option IntOrString → String

-- ctrl.Result, the errors, and the MachineHealthCheck and the watches that Reconcile leaves.
pub record MhcOutcome : Type 0 where
  pub requeue : Bool
  pub requeue_after : ℤ
  pub errors : List Error
  pub mhc : MachineHealthCheck
  pub watches : List String

abbrev pub mhc_returns : Bool → ℤ → List Error → MachineHealthCheck → List String → MhcOutcome
mhc_returns requeue requeue_after errors mhc watches = record {
  requeue = requeue;
  requeue_after = requeue_after;
  errors = errors;
  mhc = mhc;
  watches = watches;
}

abbrev pub mhc_paused_annotation : String
mhc_paused_annotation = "cluster.x-k8s.io/paused"

abbrev pub mhc_manager_for : MachineOperator → MachineHealthCheck → Manager
mhc_manager_for o mhc = record {
  environment = o.environment;
  owner = record {
    api_version = o.environment.mhc_type.0;
    kind = o.environment.mhc_type.1;
    name = mhc.name;
    uid = mhc.uid;
  };
  holder_identity = str_append "MachineHealthCheck-" mhc.name;
  healthy_delay = none;
}

-- The name of the node of a healthy target; a nil pointer is followed.
abbrev pub healthy_node_name : TargetNode → Option String
healthy_node_name no_node_ref = none
healthy_node_name (missing name) = some name
healthy_node_name (existing node) = some node.name

-- What the loop over the healthy targets returns.
pub record HealthyTargets : Type 0 where
  pub error : Option Error
  pub requeue : Bool
  pub healthy_count : ℕ

abbrev pub remediation_allowed : MachineCondition
remediation_allowed = record {
  type = "RemediationAllowed";
  status = "True";
  severity = "";
  reason = "";
  message = "";
  last_transition_time = pos 0;
}

abbrev pub too_many_unhealthy : String → MachineCondition
too_many_unhealthy message = record {
  type = "RemediationAllowed";
  status = "False";
  severity = "Warning";
  reason = "TooManyUnhealthy";
  message = message;
  last_transition_time = pos 0;
}

abbrev pub with_condition : ℤ → MachineCondition → MachineHealthCheck → MachineHealthCheck
with_condition now c mhc = record mhc {
  status = record mhc.status { conditions = set_machine_condition now c mhc.status.conditions };
}

abbrev pub with_allowed : ℤ → MachineHealthCheck → MachineHealthCheck
with_allowed n mhc = record mhc { status = record mhc.status { remediations_allowed = n } }

abbrev pub with_targets : ℕ → ℕ → MachineHealthCheck → MachineHealthCheck
with_targets healthy total mhc = record mhc {
  status = record mhc.status { current_healthy = some healthy; expected_machines = some total };
}
