-- ===== src/Remediate/Setup.antt =====
-- isControlPlaneRemediationAllowed of internal/controller/nodehealthcheck_controller.go, and
-- GenerateRemediationCRForNode of internal/controller/resources/manager.go.
use node_healthcheck_operato.Prelude.{
  ℤ, String, Bool, true, false, ◌&&◌, not, Option, none, some, List, ◌∷◌, any, is_empty, has_key,
  lookup, ◌==◌, if◌then◌else◌,
}
use node_healthcheck_operato.Api.{
  Node, EscalatingRemediation, NodeHealthCheckSpec, NodeHealthCheck, UnhealthyNode,
}
use node_healthcheck_operato.Remediation.{
  OwnerReference, Unstructured, get_node_name_from_cr, get_all_remediation_templates,
}
use node_healthcheck_operato.Escalation.{sort_by_order}
use node_healthcheck_operato.Cluster.{
  Error, cr_not_owned, no_template_left, other, wrapped, Answer, ok, failed, get_machine,
  check_etcd_disruption, History,
}
use node_healthcheck_operato.Manager.{
  Manager, create_owner_ref, generate_remediation_cr, list_remediation_crs,
}
use node_healthcheck_operato.Manager.Healthy.{Rfc3339}

-- NodeHealthCheckReconciler, with the manager of the NodeHealthCheck that it reconciles.
pub record Reconciler : Type 0 where
  pub manager : Manager
  pub has_machine_api : Bool
  pub is_on_openshift : Bool
  pub clock : Rfc3339

abbrev pub remediation_control_plane_label : String
remediation_control_plane_label = "remediation.medik8s.io/isControlPlaneNode"

abbrev pub nhc_timed_out_annotation : String
nhc_timed_out_annotation = "remediation.medik8s.io/nhc-timed-out"

abbrev pub machine_annotation : String
machine_annotation = "machine.openshift.io/machine"

abbrev pub is_no_template_left : Error → Bool
is_no_template_left no_template_left = true
is_no_template_left _ = false

abbrev pub is_cr_not_owned : Error → Bool
is_cr_not_owned cr_not_owned = true
is_cr_not_owned _ = false

-- What remediate returns, and the unhealthy nodes of the status.
pub record Remediated : Type 0 where
  pub requeue : Option ℤ
  pub error : Option Error
  pub unhealthy_nodes : List UnhealthyNode

abbrev pub fails : Error → List UnhealthyNode → Remediated
fails e us = record { requeue = none; error = some e; unhealthy_nodes = us }

abbrev pub returns : Option ℤ → List UnhealthyNode → Remediated
returns requeue us = record { requeue = requeue; error = none; unhealthy_nodes = us }

abbrev pub has_control_plane_label : Unstructured → Bool
has_control_plane_label cr = has_key remediation_control_plane_label cr.labels

-- The escalating remediations after GetCurrentTemplateWithTimeout, which sorts them in place.
abbrev pub sorted_remediations : NodeHealthCheckSpec → List EscalatingRemediation
sorted_remediations spec = elim spec.remediation_template [
  | some ref ↦ spec.escalating_remediations
  | none ↦ sort_by_order spec.escalating_remediations
]

abbrev pub machine_in : String → Option OwnerReference × String → Option OwnerReference
machine_in namespace (none, machine_namespace) = none
machine_in namespace (some ref, machine_namespace) =
    if not (machine_namespace == "") && namespace == machine_namespace then some ref else none

abbrev pub machine_answer : String → Answer OwnerReference → Answer (Option OwnerReference × String)
machine_answer namespace (failed e) = failed (wrapped "failed to get machine" e)
machine_answer namespace (ok ref) = ok (some ref, namespace)

module _ (r : Reconciler) where
  -- isControlPlaneRemediationAllowed.
  unfoldable pub is_control_plane_remediation_allowed :
      Node → NodeHealthCheck → History → Answer Bool × History
  is_control_plane_remediation_allowed node nhc h =
      if not (r.manager.environment.is_control_plane node)
      then (failed (other "isn't a control plane node"), h)
      else let (listed, h') =
          list_remediation_crs r.manager (get_all_remediation_templates nhc) has_control_plane_label
            h in
        elim listed [
          | failed e ↦ (failed e, h')
          | ok crs ↦
              if any (λ cr. get_node_name_from_cr cr == node.name) crs
              then (ok true, h')
              else if not (is_empty crs)
              then (ok false, h')
              else if not r.is_on_openshift
              then (ok true, h')
              else (
                r.manager.environment.on_etcd_disruption h' node.name,
                check_etcd_disruption node.name ∷ h',
              )
        ]

  -- getOwningMachineWithNamespace, with GetMachineNamespaceName.
  unfoldable pub get_owning_machine_with_namespace :
      Node → History → Answer (Option OwnerReference × String) × History
  get_owning_machine_with_namespace node h = elim (lookup machine_annotation node.annotations) [
    | none ↦ (ok (none, ""), h)
    | some key ↦ elim (r.manager.environment.split_meta_namespace_key key) [
      | failed e ↦ (failed (wrapped "failed to split machine annotation value" e), h)
      | ok (namespace, name) ↦ (
        machine_answer namespace (r.manager.environment.on_get_machine h namespace name),
        get_machine namespace name ∷ h,
      )
    ]
  ]

  -- GenerateRemediationCRForNode.
  unfoldable pub generate_remediation_cr_for_node :
      ℤ → Node → Unstructured → History → Answer Unstructured × History
  unfolding get_owning_machine_with_namespace
  generate_remediation_cr_for_node now node template h =
      let owner_ref = create_owner_ref r.manager.owner in
      if r.has_machine_api
      then (let (machine, h') = get_owning_machine_with_namespace node h in
          elim machine [
            | failed e ↦ (failed e, h')
            | ok ref ↦ (
              ok (
                  generate_remediation_cr now node.name node.name owner_ref
                    (machine_in template.namespace ref) template),
              h',
            )
          ])
      else (ok (generate_remediation_cr now node.name node.name owner_ref none template), h)
