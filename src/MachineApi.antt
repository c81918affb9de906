-- ===== src/MachineApi.antt =====
-- The machine API of OpenShift (github.com/openshift/api/machine/v1beta1), as far as the operator
-- reads and writes its objects.
use node_healthcheck_operato.Prelude.{ℕ, ℤ, String, StringMap, Option, List}
use node_healthcheck_operato.Api.{ObjectReference, IntOrString, LabelSelector, UnhealthyCondition}

-- v1beta1.Condition.
pub record MachineCondition : Type 0 where
  pub type : String
  pub status : String
  pub severity : String
  pub reason : String
  pub message : String
  pub last_transition_time : ℤ

-- v1beta1.Machine; `node_ref` is the name in its node reference.
pub record Machine : Type 0 where
  pub name : String
  pub namespace : String
  pub uid : String
  pub labels : StringMap
  pub phase : Option String
  pub node_ref : Option String
  pub last_updated : Option ℤ
  pub deletion_timestamp : Option ℤ

-- v1beta1.MachineHealthCheck; the timeout of an unhealthy condition is its duration.
pub record MachineHealthCheckSpec : Type 0 where
  pub selector : LabelSelector
  pub unhealthy_conditions : List UnhealthyCondition
  pub max_unhealthy : Option IntOrString
  pub node_startup_timeout : Option ℤ
  pub remediation_template : Option ObjectReference

pub record MachineHealthCheckStatus : Type 0 where
  pub expected_machines : Option ℕ
  pub current_healthy : Option ℕ
  pub remediations_allowed : ℤ
  pub conditions : List MachineCondition

pub record MachineHealthCheck : Type 0 where
  pub name : String
  pub namespace : String
  pub uid : String
  pub annotations : StringMap
  pub spec : MachineHealthCheckSpec
  pub status : MachineHealthCheckStatus
