-- ===== src/Examples/Data.antt =====
-- Concrete data: a NodeHealthCheck with two escalating remediations, a node, a remediation CR, and
-- instances of the parameters for packages meta, intstr and reflect.
use node_healthcheck_operato.Prelude.{
  ℤ, pos, String, Bool, Option, none, some, List, [], ◌∷◌, if◌then◌else◌, ◌==◌, ◌≡◌, ◌≢◌, refl,
  arith, eq_iff, eq_refl,
}
use node_healthcheck_operato.Api.{
  ObjectReference, IntOrString, int_val, str_val, Condition, Node, UnhealthyCondition,
  EscalatingRemediation, NodeHealthCheckSpec, NodeHealthCheckStatus, NodeHealthCheck, UnhealthyNode,
  unset,
}
use node_healthcheck_operato.MachineApi.{MachineHealthCheck}
use node_healthcheck_operato.Conditions.{NewCondition, ConditionMeta, merged}
use node_healthcheck_operato.Threshold.{IntStr, Scaled, value, failed}
use node_healthcheck_operato.Remediation.{Unstructured}

abbrev pub find_condition : List Condition → String → Option Condition
find_condition [] type = none
find_condition (c ∷ cs) type = if c.type == type then some c else find_condition cs type

abbrev pub put_condition : ℤ → List Condition → NewCondition → List Condition
put_condition now [] new = merged now none new ∷ []
put_condition now (c ∷ cs) new =
    if c.type == new.type then merged now (some c) new ∷ cs else c ∷ put_condition now cs new

pub find-put_self :
    (now : ℤ) (cs : List Condition) (new : NewCondition)
    → find_condition (put_condition now cs new) new.type
      ≡ some (merged now (find_condition cs new.type) new)
find-put_self now [] new = ground (arith, eq_refl new.type)
find-put_self now (c ∷ cs) new = ground (arith, eq_refl new.type, find-put_self now cs new)

pub find-put_ne :
    (now : ℤ) (cs : List Condition) (new : NewCondition) (type : String)
    → new.type ≢ type
    → find_condition (put_condition now cs new) type ≡ find_condition cs type
find-put_ne now [] new type h = ground (arith, eq_iff new.type type)
find-put_ne now (c ∷ cs) new type h = ground (
  arith,
  eq_iff new.type type,
  eq_iff c.type new.type,
  eq_iff c.type type,
  find-put_ne now cs new type h,
)

abbrev pub meta : ConditionMeta
meta = record {
  find_status_condition = find_condition;
  set_status_condition = put_condition;
  find-set_self = find-put_self;
  find-set_ne = find-put_ne;
}

abbrev pub scaled : IntOrString → ℤ → Bool → Scaled
scaled (int_val n) total round_up = value n
scaled (str_val s) total round_up = failed s

abbrev pub intstr : IntStr
intstr = record {
  get_scaled_value_from_int_or_percent = scaled;
  scaled-int_val = λ n total round_up. refl;
}

abbrev pub template_ref : String → String → ObjectReference
template_ref kind name = record {
  gvk = record { group = "self-node-remediation.medik8s.io"; version = "v1alpha1"; kind = kind };
  namespace = "operators";
  name = name;
  uid = "";
}

abbrev pub reboot : EscalatingRemediation
reboot = record {
  remediation_template = template_ref "SelfNodeRemediationTemplate" "reboot";
  order = pos 1;
  timeout = pos 300000000000;
}

abbrev pub reprovision : EscalatingRemediation
reprovision = record {
  remediation_template = template_ref "Metal3RemediationTemplate" "reprovision";
  order = pos 2;
  timeout = pos 600000000000;
}

-- The remediations in the order in which the spec lists them.
abbrev pub remediations : List EscalatingRemediation
remediations = reprovision ∷ reboot ∷ []

abbrev pub not_ready : UnhealthyCondition
not_ready = record { type = "Ready"; status = "False"; duration = pos 300000000000 }

abbrev pub unknown : UnhealthyCondition
unknown = record { type = "Ready"; status = "Unknown"; duration = pos 300000000000 }

abbrev pub disk_pressure : UnhealthyCondition
disk_pressure = record { type = "DiskPressure"; status = "True"; duration = pos 60000000000 }

abbrev pub spec : NodeHealthCheckSpec
spec = record {
  selector = record {
    match_labels = [];
    match_expressions =
        record { key = "node-role.kubernetes.io/worker"; operator = "Exists"; values = [] } ∷ [];
  };
  unhealthy_conditions = not_ready ∷ unknown ∷ [];
  min_healthy = none;
  max_unhealthy = some (int_val (pos 1));
  storm_cooldown_duration = some (pos 1800000000000);
  remediation_template = none;
  escalating_remediations = remediations;
  pause_requests = [];
  healthy_delay = none;
}

abbrev pub storm_conditions : List Condition
storm_conditions =
    record {
      type = "StormActive";
      status = "True";
      last_transition_time = pos 0;
      reason = "HealthyNodeThresholdChange";
      message = "";
    }
    ∷ []

abbrev pub status_with : List Condition → List UnhealthyNode → NodeHealthCheckStatus
status_with conditions us = record {
  observed_nodes = none;
  healthy_nodes = none;
  unhealthy_nodes = us;
  in_flight_remediations = [];
  conditions = conditions;
  phase = unset;
  reason = "";
  last_update_time = none;
}

abbrev pub nhc_with : List Condition → List UnhealthyNode → NodeHealthCheck
nhc_with conditions us = record {
  name = "nhc-worker";
  uid = "1234";
  spec = spec;
  status = status_with conditions us;
}

-- A node that is not ready since the time 0.
abbrev pub worker : Node
worker = record {
  name = "worker-0";
  namespace = "";
  labels = [];
  annotations = [];
  conditions = record { type = "Ready"; status = "False"; last_transition_time = pos 0 } ∷ [];
}

abbrev pub ready : Node
ready = record {
  name = "worker-1";
  namespace = "";
  labels = [];
  annotations = [];
  conditions = record { type = "Ready"; status = "True"; last_transition_time = pos 0 } ∷ [];
}

-- A CR of the kind SelfNodeRemediation for worker-0, from a template.
abbrev pub cr_from : String → Unstructured
cr_from template_name = record {
  gvk = record {
    group = "self-node-remediation.medik8s.io";
    version = "v1alpha1";
    kind = "SelfNodeRemediation";
  };
  name = "worker-0";
  generate_name = "";
  namespace = "operators";
  uid = "cr-1";
  labels = [];
  annotations = ("remediation.medik8s.io/template-name", template_name) ∷ [];
  owner_references = [];
  creation_timestamp = pos 1000000000;
  deletion_timestamp = none;
  conditions = [];
  spec = "";
  template_spec = none;
}

-- A MachineHealthCheck for all machines, of which one may be unhealthy.
abbrev pub mhc_with : List UnhealthyCondition → Option ObjectReference → MachineHealthCheck
mhc_with conditions template = record {
  name = "mhc-worker";
  namespace = "openshift-machine-api";
  uid = "5678";
  annotations = [];
  spec = record {
    selector = record { match_labels = []; match_expressions = [] };
    unhealthy_conditions = conditions;
    max_unhealthy = some (int_val (pos 1));
    node_startup_timeout = none;
    remediation_template = template;
  };
  status = record {
    expected_machines = none;
    current_healthy = none;
    remediations_allowed = pos 0;
    conditions = [];
  };
}
