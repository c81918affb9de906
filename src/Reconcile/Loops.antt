-- ===== src/Reconcile/Loops.antt =====
-- The loops of Reconcile make allowed calls only.
use node_healthcheck_operato.Prelude.{
  ℕ, ℤ, Bool, true, List, [], ◌∷◌, Bool-cases, Option-cases, inl, inr, if◌then◌else◌,
}
use node_healthcheck_operato.Api.{ObjectReference, Node, UnhealthyNode, NodeHealthCheck}
use node_healthcheck_operato.Remediation.{get_all_remediation_templates}
use node_healthcheck_operato.Requeue.{update_requeue_after}
use node_healthcheck_operato.Cluster.{create_cr, delete_cr, History}
use node_healthcheck_operato.Manager.{Manager, list_remediation_crs}
use node_healthcheck_operato.Manager.Safe.{IsSafe}
use node_healthcheck_operato.Manager.Healthy.{Rfc3339, handle_healthy_node}
use node_healthcheck_operato.Manager.Healthy.Keeps.{handle_healthy_node-IsSafe}
use node_healthcheck_operato.Remediate.Setup.{Reconciler}
use node_healthcheck_operato.Remediate.Run.{remediate}
use node_healthcheck_operato.Remediate.Safety.{remediate-IsSafe}
use node_healthcheck_operato.Reconcile.Quiet.{IsKept, alert_all-kept, list-kept}
use node_healthcheck_operato.Reconcile.Healthy.{handle_healthy_nodes, count_node}
use node_healthcheck_operato.Reconcile.Alert.{is_node_remediation_excluded}
use node_healthcheck_operato.Reconcile.Unhealthy.{
  after_remediate, is_our_cr_of, look_after, or_no_crs, with_unhealthy, remediate_nodes,
}

pub IsSafe-kept : (m : Manager) → IsKept (IsSafe m)
IsSafe-kept m (create_cr cr) h e p = cc
IsSafe-kept m (delete_cr cr) h e p = cc
IsSafe-kept m _ h e p = (tt, p)

module _ (m : Manager) (clock : Rfc3339) (now : ℤ) (templates : List ObjectReference) where
  pub healthy_nodes-IsSafe :
      (nodes : List Node) (requeue : ℤ) (us : List UnhealthyNode) (count : ℕ) (h : History)
      → IsSafe m h
      → IsSafe m (handle_healthy_nodes m clock now templates nodes requeue us count h).1
  unfolding handle_healthy_nodes
  healthy_nodes-IsSafe [] requeue us count h s = s
  healthy_nodes-IsSafe (node ∷ nodes) requeue us count h s =
      let step = handle_healthy_node m clock now templates us node.name node.name h in
      let s1 = handle_healthy_node-IsSafe m clock now templates us node.name node.name h s in
      let next = count_node m clock now templates node requeue count step.0 in
      elim (Option-cases step.0.error) [
        | inr (e, broken) ↦ rw (broken, handle_healthy_nodes) s1
        | inl fine ↦
            rw (fine, handle_healthy_nodes)
              (healthy_nodes-IsSafe nodes next.requeue_after next.unhealthy_nodes next.healthy_count
                step.1 s1)
      ]

module _ (r : Reconciler) (now : ℤ) where
  look_after-IsSafe :
      (node : Node) (nhc : NodeHealthCheck) (requeue : ℤ) (h : History)
      → IsSafe r.manager h
      → IsSafe r.manager (look_after r now node nhc requeue h).1
  unfolding look_after
  look_after-IsSafe node nhc requeue h s =
      let P = IsSafe r.manager in
      let templates = get_all_remediation_templates nhc in
      let listing = list_remediation_crs r.manager templates (is_our_cr_of r now node) h in
      alert_all-kept P (IsSafe-kept r.manager) r.manager.environment now (or_no_crs listing.0)
        requeue listing.1
        (list-kept P (IsSafe-kept r.manager) r.manager templates (is_our_cr_of r now node) h s)

  pub remediate_nodes-IsSafe :
      (skip : Bool) (nodes : List Node) (requeue : ℤ) (nhc : NodeHealthCheck) (h : History)
      → IsSafe r.manager h
      → IsSafe r.manager (remediate_nodes r now skip nodes requeue nhc h).1
  unfolding remediate_nodes
  remediate_nodes-IsSafe skip [] requeue nhc h s = s
  remediate_nodes-IsSafe skip (node ∷ nodes) requeue nhc h s =
      let nhc' = with_unhealthy r now node nhc in
      let left_out = if skip then true else is_node_remediation_excluded node in
      let step = remediate r now node nhc' nhc'.status.unhealthy_nodes h in
      let s1 = remediate-IsSafe r now node nhc' nhc'.status.unhealthy_nodes h s in
      let nhc2 = after_remediate r now node nhc' step.0.unhealthy_nodes h in
      let wish = update_requeue_after requeue step.0.requeue in
      let seen = look_after r now node nhc2 wish step.1 in
      elim (Bool-cases left_out) [
        | inl out ↦ rw (out, remediate_nodes) (remediate_nodes-IsSafe skip nodes requeue nhc' h s)
        | inr not_out ↦ elim (Option-cases step.0.error) [
          | inr (e, broken) ↦ rw (not_out, remediate_nodes) (rw broken s1)
          | inl fine ↦
              rw (not_out, remediate_nodes)
                (rw fine (
                  remediate_nodes-IsSafe skip nodes seen.0 nhc2 seen.1
                    (look_after-IsSafe node nhc2 wish step.1 s1)))
        ]
      ]
