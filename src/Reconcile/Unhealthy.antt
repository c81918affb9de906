-- ===== src/Reconcile/Unhealthy.antt =====
-- The loop of Reconcile over the unhealthy nodes, internal/controller/nodehealthcheck_controller.go.
use node_healthcheck_operato.Prelude.{
  ℤ, Bool, true, false, ◌&&◌, Option, none, some, List, [], ◌∷◌, ◌==◌, if◌then◌else◌,
}
use node_healthcheck_operato.Api.{Node, UnhealthyNode, NodeHealthCheck}
use node_healthcheck_operato.Remediation.{
  Unstructured, get_node_name_from_cr, get_all_remediation_templates,
}
use node_healthcheck_operato.Requeue.{update_requeue_after}
use node_healthcheck_operato.Status.{set_unhealthy_nodes, update_status_node_unhealthy}
use node_healthcheck_operato.Cluster.{Error, Answer, ok, failed, History}
use node_healthcheck_operato.Manager.{is_owner, list_remediation_crs}
use node_healthcheck_operato.Remediate.Setup.{
  Reconciler, sorted_remediations, is_control_plane_remediation_allowed,
}
use node_healthcheck_operato.Remediate.Run.{remediate}
use node_healthcheck_operato.Reconcile.Alert.{alert_all, is_node_remediation_excluded}

-- The CRs that are listed; after an error there are none, and the error is not looked at.
abbrev pub or_no_crs : Answer (List Unstructured) → List Unstructured
or_no_crs (failed e) = []
or_no_crs (ok crs) = crs

abbrev pub is_allowed : Answer Bool → Bool
is_allowed (failed e) = false
is_allowed (ok b) = b

abbrev pub with_remediations_sorted : NodeHealthCheck → NodeHealthCheck
with_remediations_sorted nhc = record nhc {
  spec = record nhc.spec { escalating_remediations = sorted_remediations nhc.spec };
}

-- What the loop returns.
pub record UnhealthyNodes : Type 0 where
  pub error : Option Error
  pub requeue_after : ℤ
  pub nhc : NodeHealthCheck

module _ (r : Reconciler) (now : ℤ) where
  -- The NodeHealthCheck after remediate: where that gets to GetCurrentTemplateWithTimeout, this sorts the
  -- escalating remediations in place.
  abbrev pub gets_template : Node → NodeHealthCheck → History → Bool
  gets_template node nhc h =
      if r.manager.environment.is_control_plane node
      then is_allowed (is_control_plane_remediation_allowed r node nhc h).0
      else true

  abbrev pub after_remediate :
      Node → NodeHealthCheck → List UnhealthyNode → History → NodeHealthCheck
  after_remediate node nhc us h =
      set_unhealthy_nodes us
        (if gets_template node nhc h then with_remediations_sorted nhc else nhc)

  abbrev pub is_our_cr_of : Node → Unstructured → Bool
  is_our_cr_of node cr = get_node_name_from_cr cr == node.name && is_owner cr r.manager.owner

  -- The rest of a round, after remediate.
  unfoldable pub look_after : Node → NodeHealthCheck → ℤ → History → ℤ × History
  look_after node nhc requeue h =
      let (listed, h') =
        list_remediation_crs r.manager (get_all_remediation_templates nhc) (is_our_cr_of node) h in
      alert_all r.manager.environment now (or_no_crs listed) requeue h'

  abbrev pub with_unhealthy : Node → NodeHealthCheck → NodeHealthCheck
  with_unhealthy node nhc =
      set_unhealthy_nodes (update_status_node_unhealthy node.name nhc.status.unhealthy_nodes) nhc

  unfoldable pub remediate_nodes :
      Bool → List Node → ℤ → NodeHealthCheck → History → UnhealthyNodes × History
  unfolding look_after is_node_remediation_excluded
  remediate_nodes skip [] requeue nhc h =
      (record { error = none; requeue_after = requeue; nhc = nhc }, h)
  remediate_nodes skip (node ∷ nodes) requeue nhc h =
      let nhc' = with_unhealthy node nhc in
      let leave_out = if skip then true else is_node_remediation_excluded node in
      elim leave_out [
        | true ↦ remediate_nodes skip nodes requeue nhc' h
        | false ↦
            let (done, h1) = remediate r now node nhc' nhc'.status.unhealthy_nodes h in
            let nhc2 = after_remediate node nhc' done.unhealthy_nodes h in
            elim done.error [
              | some e ↦ (record { error = some e; requeue_after = requeue; nhc = nhc2 }, h1)
              | none ↦
                  let (requeue', h2) =
                    look_after node nhc2 (update_requeue_after requeue done.requeue) h1 in
                  remediate_nodes skip nodes requeue' nhc2 h2
            ]
      ]
