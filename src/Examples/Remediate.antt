-- ===== src/Examples/Remediate.antt =====
-- Remediation at a concrete environment, where all nodes are control plane nodes.
use node_healthcheck_operato.Prelude.{
  pos, ◌+ℤ◌, minute, true, none, some, List, [], ◌∷◌, head, ◌≡◌, refl, arith,
}
use node_healthcheck_operato.Api.{ObjectReference, NodeHealthCheck}
use node_healthcheck_operato.Remediation.{Unstructured, get_all_remediation_templates}
use node_healthcheck_operato.Cluster.{ok, create_cr, get_nhc, History, Environment}
use node_healthcheck_operato.NodeLease.{obtain_node_lease}
use node_healthcheck_operato.Escalation.{current_remediation, verdict}
use node_healthcheck_operato.Status.{find_status_remediation}
use node_healthcheck_operato.Manager.{
  Manager, find_existing, create_owner_ref, create_remediation_cr, generate_remediation_cr,
  list_remediation_crs, list_all, is_match_node_template,
}
use node_healthcheck_operato.Templates.{
  valid, validate_templates, get_current_template_with_timeout,
  get_template_with_fallback_namespace, validate_template,
}
use node_healthcheck_operato.Templates.Valid.{IsGood, validate_templates-IsGood}
use node_healthcheck_operato.Remediate.Setup.{
  generate_remediation_cr_for_node, Reconciler, returns, is_control_plane_remediation_allowed,
}
use node_healthcheck_operato.Remediate.Run.{
  with_label, remediate_with, remediate_allowed, remediate,
}
use node_healthcheck_operato.Remediate.Safety.{creations}
use node_healthcheck_operato.Requeue.{update_requeue_after}
use node_healthcheck_operato.Remediate.Cancelled.{IsHeldByOther, unheld_lease-cancels}
use node_healthcheck_operato.Remediate.Exclusive.{remediate-one_control_plane}
use node_healthcheck_operato.Examples.Data.{worker, ready, reboot, spec, nhc_with, template_ref}
use node_healthcheck_operato.Examples.Manager.{
  lease_of, environment, identity, manager, clock, template_of, templates,
}

abbrev template : ObjectReference
template = template_ref "SelfNodeRemediationTemplate" "reboot"

all_valid : (validate_templates (environment identity) templates []).0 ≡ valid
unfolding validate_templates get_template_with_fallback_namespace validate_template
all_valid = refl

validate_templates-IsGood_example : IsGood (environment identity) template
validate_templates-IsGood_example =
    validate_templates-IsGood (environment identity) templates [] template all_valid (head refl)

abbrev reconciler_of : Manager → Reconciler
reconciler_of m = record {
  manager = m;
  has_machine_api = true;
  is_on_openshift = true;
  clock = clock;
}

abbrev nhc : NodeHealthCheck
nhc = record (nhc_with [] []) { spec = record spec { escalating_remediations = reboot ∷ [] } }

-- The CR that is created for worker-0, and as it is stored.
abbrev created : Unstructured
created = with_label true (
    generate_remediation_cr (pos 1) "worker-0" "worker-0" (create_owner_ref (manager none).owner)
      none (template_of template))

abbrev stored : Unstructured
stored = record created { uid = "cr-9" }

-- After a read of the NodeHealthCheck the list of CRs has the one that was created.
abbrev items_after : History → List Unstructured
items_after (get_nhc name ∷ h) = stored ∷ []
items_after _ = []

abbrev control_plane_environment : Environment
control_plane_environment = record (environment identity) {
  on_list_crs = λ h gvk. ok (items_after h);
  is_control_plane = λ node. true;
}

abbrev control_plane : Reconciler
control_plane = reconciler_of (record (manager none) { environment = control_plane_environment })

abbrev read_again : History
read_again = get_nhc "nhc" ∷ []

creates : creations (remediate control_plane (pos 1) worker nhc [] []).1 ≡ create_cr created ∷ []
unfolding remediate remediate_allowed remediate_with create_remediation_cr current_remediation
    get_current_template_with_timeout verdict find_status_remediation generate_remediation_cr
    obtain_node_lease list_remediation_crs is_control_plane_remediation_allowed ◌+ℤ◌
creates = refl

lists :
    (list_all control_plane.manager (get_all_remediation_templates nhc) [] read_again).0
    ≡ ok (stored ∷ [])
unfolding list_all is_match_node_template generate_remediation_cr
lists = refl

remediate-one_control_plane_example :
    let result = remediate control_plane (pos 2) ready nhc [] read_again in
    (result.0 ≡ returns (some minute) []) × (creations result.1 ≡ creations read_again)
unfolding generate_remediation_cr
remediate-one_control_plane_example =
    remediate-one_control_plane control_plane (pos 1) worker nhc [] [] created (pos 2) ready []
      read_again (stored ∷ []) stored refl refl creates lists (head refl) refl refl

-- The same template without escalation; the CR exists, and another holder has the lease.
abbrev single : NodeHealthCheck
single = record (nhc_with [] []) {
  spec = record spec { remediation_template = some template; escalating_remediations = [] };
}

abbrev generated : Unstructured
generated =
    generate_remediation_cr (pos 1) "worker-0" "worker-0" (create_owner_ref (manager none).owner)
      none (template_of template)

abbrev contested : Reconciler
contested = reconciler_of (record (manager none) {
  environment = record (environment "other") { on_list_crs = λ h gvk. ok (generated ∷ []) };
})

contested-IsHeldByOther : IsHeldByOther contested.manager "worker-0"
contested-IsHeldByOther = record {
  node = worker;
  lease = lease_of "other";
  has_node = λ h. refl;
  has_lease = λ h. refl;
  not_ours = refl;
}

unheld_lease-cancels_example :
    let result = (remediate contested (pos 1) worker single [] []).0 in
    (result.error ≡ none) × (update_requeue_after minute result.requeue ≡ pos 0)
unfolding get_current_template_with_timeout generate_remediation_cr_for_node generate_remediation_cr
    find_existing is_match_node_template
unheld_lease-cancels_example =
    unheld_lease-cancels contested (pos 1) worker single [] [] (template_of template) generated
      generated minute refl refl refl refl refl contested-IsHeldByOther (omega arith)
