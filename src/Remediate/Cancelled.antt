-- ===== src/Remediate/Cancelled.antt =====
-- What becomes of the requeue when the lease of a node is not ours.
use node_healthcheck_operato.Prelude.{
  ℤ, pos, ◌≤ℤ◌, String, false, true, some, none, List, ◌∷◌, ◌≡◌, refl, arith, ap, ◌∙◌,
}
use node_healthcheck_operato.Api.{Node, NodeHealthCheck, UnhealthyNode}
use node_healthcheck_operato.Remediation.{Unstructured}
use node_healthcheck_operato.Requeue.{update_requeue_after}
use node_healthcheck_operato.Escalation.{get_remediation_duration}
use node_healthcheck_operato.Cluster.{ok, Lease, get_node, History}
use node_healthcheck_operato.NodeLease.{manage_lease, manage, is_lease_owner}
use node_healthcheck_operato.Manager.{
  Manager, is_owner, find_existing, keep_existing, create_remediation_cr,
}
use node_healthcheck_operato.Templates.{get_current_template_with_timeout}
use node_healthcheck_operato.Remediate.Setup.{
  Reconciler, sorted_remediations, generate_remediation_cr_for_node,
}
use node_healthcheck_operato.Remediate.Outcome.{after_creation}
use node_healthcheck_operato.Remediate.Run.{remediate_with, remediate_allowed, remediate}

-- Whenever they are asked for, there is the node, and its lease is that of another holder.
pub record IsHeldByOther (m : Manager) (name : String) : Type 0 where
  pub node : Node
  pub lease : Lease
  pub has_node : (h : History) → m.environment.on_get_node h name ≡ ok node
  pub has_lease : (h : History) → m.environment.on_get_lease h name ≡ ok lease
  pub not_ours : is_lease_owner m.holder_identity lease ≡ false

module _ (m : Manager) (now : ℤ) (name : String) (theirs : IsHeldByOther m name) where
  manage-nothing :
      (current previous : ℤ) (h : History)
      → (manage_lease m.environment now m.holder_identity name current previous h).0 ≡ (pos 0, none)
  unfolding manage_lease manage
  manage-nothing current previous h =
      ground (arith, theirs.has_node h, theirs.has_lease (get_node name ∷ h), theirs.not_ours)

  existing-zero :
      (cr c : Unstructured) (current previous : ℤ) (h : History)
      → (find_existing m cr h).0 ≡ ok c
      → is_owner c m.owner ≡ true
      → (create_remediation_cr m now cr (some name) current previous h).0
        ≡ record { created = false; requeue = some (pos 0); cr = c; error = none }
  unfolding create_remediation_cr keep_existing
  existing-zero cr c current previous h found ours =
      rw (found, create_remediation_cr)
        (rw ours (rw (manage-nothing current previous (find_existing m cr h).1) refl))

module _ (r : Reconciler) (now : ℤ) (node : Node) (nhc : NodeHealthCheck) (us : List UnhealthyNode)
    (h : History) (template cr c : Unstructured) where
  with-zero :
      IsHeldByOther r.manager node.name
      → let generation = generate_remediation_cr_for_node r now node template h in
        generation.0 ≡ ok cr
        → r.manager.environment.is_control_plane node ≡ false
        → (find_existing r.manager cr generation.1).0 ≡ ok c
        → is_owner c r.manager.owner ≡ true
        → let result = (remediate_with r now node nhc template none us h).0 in
          (result.error ≡ none) × (result.requeue ≡ some (pos 0))
  unfolding remediate_with after_creation
  with-zero theirs generated worker found ours =
      let generation = generate_remediation_cr_for_node r now node template h in
      let durations = get_remediation_duration (sorted_remediations nhc.spec) cr.gvk.kind in
      rw (generated, remediate_with)
        (rw worker (
          rw
            (existing-zero r.manager now node.name theirs cr c durations.0 durations.1 generation.1
              found ours)
            (refl, refl)))

zero-cancels : (wish : ℤ) → pos 0 ≤ℤ wish → update_requeue_after wish (some (pos 0)) ≡ pos 0
unfolding update_requeue_after
zero-cancels wish w = ground arith

-- A NodeHealthCheck without escalation, and a node that is no control plane node: while there is a remediation CR of
-- ours for the node and the template, but another holds the lease of the node, remediate returns without an
-- error, and updateRequeueAfter with the time that it returns sets the requeue to 0, whatever was asked for
-- before.
pub unheld_lease-cancels :
    (r : Reconciler) (now : ℤ) (node : Node) (nhc : NodeHealthCheck) (us : List UnhealthyNode)
    (h : History) (template cr c : Unstructured) (wish : ℤ)
    → r.manager.environment.is_control_plane node ≡ false
    → let current =
        get_current_template_with_timeout r.manager.environment node.name nhc.spec us h in
      let generation = generate_remediation_cr_for_node r now node template current.1 in
      current.0 ≡ ok (template, none)
      → generation.0 ≡ ok cr
      → (find_existing r.manager cr generation.1).0 ≡ ok c
      → is_owner c r.manager.owner ≡ true
      → IsHeldByOther r.manager node.name
      → pos 0 ≤ℤ wish
      → let result = (remediate r now node nhc us h).0 in
        (result.error ≡ none) × (update_requeue_after wish result.requeue ≡ pos 0)
unfolding remediate remediate_allowed
unheld_lease-cancels r now node nhc us h template cr c wish worker got generated found ours theirs
      w =
    let current = get_current_template_with_timeout r.manager.environment node.name nhc.spec us h in
    let (fine, zero) =
      with-zero r now node nhc us current.1 template cr c theirs generated worker found ours in
    rw (worker, remediate)
      (rw (got, remediate_allowed)
        (fine, ap (update_requeue_after wish) zero ∙ zero-cancels wish w))
