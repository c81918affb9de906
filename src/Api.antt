-- ===== src/Api.antt =====
-- The API types: api/v1alpha1/nodehealthcheck_types.go, and the fields that the operator reads of
-- the Kubernetes types that these refer to. A pointer is an `Option`.
pub mod Validation
use node_healthcheck_operato.Prelude.{ℕ, ℤ, String, StringMap, Bool, Option, List}

-- schema.GroupVersionKind.
pub record GroupVersionKind : Type 0 where
  pub group : String
  pub version : String
  pub kind : String

-- corev1.ObjectReference, its `apiVersion` already split into group and version.
pub record ObjectReference : Type 0 where
  pub gvk : GroupVersionKind
  pub namespace : String
  pub name : String
  pub uid : String

-- intstr.IntOrString: its `Type` tells which of the two values counts.
pub data IntOrString : Type 0 where
  int_val : ℤ → IntOrString
  str_val : String → IntOrString

-- metav1.LabelSelectorRequirement and metav1.LabelSelector.
pub record LabelSelectorRequirement : Type 0 where
  pub key : String
  pub operator : String
  pub values : List String

pub record LabelSelector : Type 0 where
  pub match_labels : StringMap
  pub match_expressions : List LabelSelectorRequirement

-- metav1.Condition.
pub record Condition : Type 0 where
  pub type : String
  pub status : String
  pub last_transition_time : ℤ
  pub reason : String
  pub message : String

-- corev1.NodeCondition and corev1.Node.
pub record NodeCondition : Type 0 where
  pub type : String
  pub status : String
  pub last_transition_time : ℤ

pub record Node : Type 0 where
  pub name : String
  pub namespace : String
  pub labels : StringMap
  pub annotations : StringMap
  pub conditions : List NodeCondition

pub record UnhealthyCondition : Type 0 where
  pub type : String
  pub status : String
  pub duration : ℤ

pub record EscalatingRemediation : Type 0 where
  pub remediation_template : ObjectReference
  pub order : ℤ
  pub timeout : ℤ

pub record NodeHealthCheckSpec : Type 0 where
  pub selector : LabelSelector
  pub unhealthy_conditions : List UnhealthyCondition
  pub min_healthy : Option IntOrString
  pub max_unhealthy : Option IntOrString
  pub storm_cooldown_duration : Option ℤ
  pub remediation_template : Option ObjectReference
  pub escalating_remediations : List EscalatingRemediation
  pub pause_requests : List String
  pub healthy_delay : Option ℤ

pub record Remediation : Type 0 where
  pub resource : ObjectReference
  pub started : ℤ
  pub timed_out : Option ℤ
  pub template_name : String

pub record UnhealthyNode : Type 0 where
  pub name : String
  pub remediations : List Remediation
  pub conditions_healthy_timestamp : Option ℤ
  pub healthy_delayed : Option Bool

pub data NhcPhase : Type 0 where
  unset disabled paused remediating enabled : NhcPhase

pub record NodeHealthCheckStatus : Type 0 where
  pub observed_nodes : Option ℕ
  pub healthy_nodes : Option ℕ
  pub unhealthy_nodes : List UnhealthyNode
  pub in_flight_remediations : List (String × ℤ)
  pub conditions : List Condition
  pub phase : NhcPhase
  pub reason : String
  pub last_update_time : Option ℤ

pub record NodeHealthCheck : Type 0 where
  pub name : String
  pub uid : String
  pub spec : NodeHealthCheckSpec
  pub status : NodeHealthCheckStatus

abbrev pub condition_type_disabled : String
condition_type_disabled = "Disabled"

abbrev pub condition_reason_disabled_mhc : String
condition_reason_disabled_mhc = "ConflictingMachineHealthCheckDetected"

abbrev pub condition_reason_disabled_template_not_found : String
condition_reason_disabled_template_not_found = "RemediationTemplateNotFound"

abbrev pub condition_reason_disabled_template_invalid : String
condition_reason_disabled_template_invalid = "RemediationTemplateInvalid"

abbrev pub condition_reason_enabled : String
condition_reason_enabled = "NodeHealthCheckEnabled"

abbrev pub condition_type_storm_active : String
condition_type_storm_active = "StormActive"

abbrev pub condition_reason_storm_threshold_change : String
condition_reason_storm_threshold_change = "HealthyNodeThresholdChange"

abbrev pub condition_type_storm_cooldown_active : String
condition_type_storm_cooldown_active = "StormCooldownActive"
