-- ===== src/Examples/Mapper.antt =====
-- Events at a concrete reader, the feature gate and the capabilities of an OpenShift cluster.
use node_healthcheck_operato.Prelude.{
  String, true, false, ◌&&◌, not, ◌+◌, none, some, Option, List, [], ◌∷◌, head, refl, arith, ◌≡◌,
  ◌≢◌, In, eq_iff, if◌then◌else◌,
}
use node_healthcheck_operato.Api.{NodeHealthCheck, ObjectReference}
use node_healthcheck_operato.MachineApi.{MachineHealthCheck}
use node_healthcheck_operato.Cluster.{ok, failed, not_found, Error}
use node_healthcheck_operato.Mapper.{
  Reader, Selector, nhc_request, mhc_request, nhc_by_template, mhc_by_template,
}
use node_healthcheck_operato.Mapper.Woken.{nhc_by_template-wakes}
use node_healthcheck_operato.Mapper.Misdirected.{mhc_by_template-asleep}
use node_healthcheck_operato.FeatureGates.{Accessor, disable_controller_gate, feature_gate_changed}
use node_healthcheck_operato.FeatureGates.Followed.{is_enabled, feature_gate_changed-follows}
use node_healthcheck_operato.Aggregation.{Store, Operation, create_or_update_aggregation}
use node_healthcheck_operato.Aggregation.Settled.{
  IsRoleSettled, IsBindingSettled, create_or_update_aggregation-settles,
}
use node_healthcheck_operato.Examples.Data.{worker, nhc_with, mhc_with, template_ref, reprovision}

abbrev nhc : NodeHealthCheck
nhc = nhc_with [] []

abbrev template : ObjectReference
template = template_ref "SelfNodeRemediationTemplate" "reboot"

abbrev mhc : MachineHealthCheck
mhc = mhc_with [] (some template)

abbrev everything : Selector
everything = record { is_empty = true; matches = λ labels. true }

abbrev reader : Reader
reader = record {
  node_named = λ name. ok worker;
  nhc_list = ok (nhc ∷ []);
  mhc_list = ok (mhc ∷ []);
  machine_named = λ namespace name. failed not_found;
  machines_of_node = λ name. ok [];
  label_selector_as_selector = λ selector. ok everything;
  is_mao_mhc_disabled = true;
}

nhc_by_template-wakes_example : In (nhc_request nhc) (
    nhc_by_template reader reprovision.remediation_template.gvk.kind
      reprovision.remediation_template.name)
nhc_by_template-wakes_example =
    nhc_by_template-wakes reader (nhc ∷ []) nhc reprovision.remediation_template refl (head refl)
      (head refl)

namespaced : mhc.namespace ≢ ""
namespaced e = ground (arith, eq_iff "openshift-machine-api" "")

mhc_by_template-asleep_example :
    ¬ In (mhc_request mhc) (mhc_by_template reader template.gvk.kind template.name)
mhc_by_template-asleep_example =
    mhc_by_template-asleep reader template.gvk.kind template.name mhc namespaced

abbrev accessor : Accessor
accessor = record { is_mao_mhc_disabled = false; events = 0 }

feature_gate_changed-follows_example :
    ((feature_gate_changed (disable_controller_gate ∷ []) accessor).is_mao_mhc_disabled
      ≡ is_enabled (disable_controller_gate ∷ []))
    × ((feature_gate_changed (disable_controller_gate ∷ []) accessor).events ≡ (
        if is_enabled (disable_controller_gate ∷ []) && not accessor.is_mao_mhc_disabled
        then accessor.events + 1
        else accessor.events))
feature_gate_changed-follows_example =
    feature_gate_changed-follows (disable_controller_gate ∷ []) accessor

abbrev groups : List (List String)
groups =
    ("config.openshift.io/v1" ∷ [])
    ∷ ("machine.openshift.io/v1beta1" ∷ "machine.openshift.io/v1" ∷ [])
    ∷ []

-- A cluster without the role and the binding, where no call fails.
abbrev bare : Store
bare = record { role = none; binding = none; deployment_uid = some "7" }

abbrev never : Operation → Option Error
never op = none

abbrev settled : Store
settled = (create_or_update_aggregation never "operators" bare).1

set_up : (create_or_update_aggregation never "operators" bare).0 ≡ none
unfolding create_or_update_aggregation
set_up = refl

create_or_update_aggregation-settles_example :
    IsRoleSettled settled.role × IsBindingSettled "operators" settled.binding
create_or_update_aggregation-settles_example =
    create_or_update_aggregation-settles never "operators" bare set_up
