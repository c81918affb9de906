-- ===== src/Reconcile/Present.antt =====
-- Every node that matches an unhealthy condition is recorded in the status, whether it is remediated or
-- not.
use mathlib.Core.Path.{subst}
use node_healthcheck_operato.Prelude.{
  ℤ, String, Bool, true, some, none, List, [], ◌∷◌, any, ◌≡◌, refl, sym, ◌∙◌, arith, eq_refl,
  Bool-cases, Option-cases, inl, inr, In, head, tail, if◌then◌else◌,
}
use node_healthcheck_operato.Api.{Node, NodeHealthCheck, UnhealthyNode}
use node_healthcheck_operato.Requeue.{update_requeue_after}
use node_healthcheck_operato.Status.{
  is_named, new_entry, add_remediation, set_healthy_timestamp, update_status_remediation_started,
  update_status_node_delayed_healthy, update_status_node_unhealthy,
  update_status_node_conditions_healthy,
}
use node_healthcheck_operato.Status.Unique.{
  remediation_started, node_healthy, node_delayed_healthy, node_unhealthy, node_conditions_healthy,
  timed_out_at, apply, any-update_first, add_remediation-name, any-append, any-mark,
}
use node_healthcheck_operato.Cluster.{History}
use node_healthcheck_operato.Remediate.Setup.{Reconciler}
use node_healthcheck_operato.Remediate.Run.{remediate}
use node_healthcheck_operato.Reconcile.Alert.{is_node_remediation_excluded}
use node_healthcheck_operato.Reconcile.Unhealthy.{
  after_remediate, look_after, with_unhealthy, remediate_nodes,
}
use node_healthcheck_operato.Reconcile.Updates.{IsKeptByMarks, remediate-marked}
use node_healthcheck_operato.Reconcile.Updated.{remediate_nodes-updated}

-- The status has an entry for a node.
abbrev pub IsRecorded : String → List UnhealthyNode → Type 0
IsRecorded k us = any (is_named k) us ≡ true

abbrev fresh : String → UnhealthyNode
fresh n = record {
  name = n;
  remediations = [];
  conditions_healthy_timestamp = none;
  healthy_delayed = none;
}

-- Updates that remove no entry keep all of them.
IsRecorded-kept : (k : String) → IsKeptByMarks (IsRecorded k)
unfolding apply update_status_remediation_started update_status_node_delayed_healthy
    update_status_node_unhealthy update_status_node_conditions_healthy
IsRecorded-kept k (remediation_started n cr) us e p = ground (
  arith,
  any-update_first n (add_remediation cr) (add_remediation-name cr) k us,
  any-append k us (new_entry n cr),
)
IsRecorded-kept k (node_healthy n) us e p = cc
IsRecorded-kept k (node_delayed_healthy n crs) us e p =
    ground
      (arith, any-update_first n (λ u. record u { healthy_delayed = some true }) (λ u. refl) k us)
IsRecorded-kept k (node_unhealthy n) us e p = ground (arith, any-append k us (fresh n))
IsRecorded-kept k (node_conditions_healthy n now) us e p =
    any-update_first n (set_healthy_timestamp now) (λ u. ground arith) k us ∙ p
IsRecorded-kept k (timed_out_at n filter now) us e p = any-mark k n filter now us ∙ p

unhealthy-IsRecorded :
    (n : String) (us : List UnhealthyNode) → IsRecorded n (apply (node_unhealthy n) us)
unfolding apply update_status_node_unhealthy
unhealthy-IsRecorded n us = ground (arith, any-append n us (fresh n), eq_refl n)

module _ (r : Reconciler) (now : ℤ) (skip : Bool) where
  -- A node is the first, which has been recorded, or one of the rest.
  In-rest :
      (first : Node) (nodes : List Node) (requeue : ℤ) (nhc : NodeHealthCheck) (h : History)
      (node : Node)
      → In node (first ∷ nodes)
      → IsRecorded first.name nhc.status.unhealthy_nodes
      → (In node nodes
          → IsRecorded node.name
              (remediate_nodes r now skip nodes requeue nhc h).0.nhc.status.unhealthy_nodes)
      → IsRecorded node.name
          (remediate_nodes r now skip nodes requeue nhc h).0.nhc.status.unhealthy_nodes
  In-rest first nodes requeue nhc h node (tail i) p rest = rest i
  In-rest first nodes requeue nhc h node (head e) p rest =
      remediate_nodes-updated (IsRecorded node.name) (IsRecorded-kept node.name) r now skip nodes
        requeue nhc h (subst (λ (n : Node). IsRecorded n.name nhc.status.unhealthy_nodes) (sym e) p)

  -- When the loop over the unhealthy nodes ends without an error, the status has an entry for every one of
  -- them, also for those that are skipped or excluded from remediation.
  pub remediate_nodes-IsRecorded :
      (nodes : List Node) (requeue : ℤ) (nhc : NodeHealthCheck) (h : History) (node : Node)
      → (remediate_nodes r now skip nodes requeue nhc h).0.error ≡ none
      → In node nodes
      → IsRecorded node.name
          (remediate_nodes r now skip nodes requeue nhc h).0.nhc.status.unhealthy_nodes
  unfolding remediate_nodes update_status_node_unhealthy apply
  remediate_nodes-IsRecorded [] requeue nhc h node fine i = elim i [ ]
  remediate_nodes-IsRecorded (first ∷ nodes) requeue nhc h node fine i =
      let nhc' = with_unhealthy r now first nhc in
      let us' = nhc'.status.unhealthy_nodes in
      let left_out = if skip then true else is_node_remediation_excluded first in
      let step = remediate r now first nhc' us' h in
      let nhc2 = after_remediate r now first nhc' step.0.unhealthy_nodes h in
      let wish = update_requeue_after requeue step.0.requeue in
      let seen = look_after r now first nhc2 wish step.1 in
      let p1 = unhealthy-IsRecorded first.name nhc.status.unhealthy_nodes in
      elim (Bool-cases left_out) [
        | inl out ↦
            rw (out, remediate_nodes)
              (In-rest first nodes requeue nhc' h node i p1 (
                remediate_nodes-IsRecorded nodes requeue nhc' h node
                  (rw (out, remediate_nodes) at fine)))
        | inr not_out ↦ elim (Option-cases step.0.error) [
          | inr (e, broken) ↦ cc (rw broken at (rw (not_out, remediate_nodes) at fine))
          | inl ended ↦
              rw (not_out, remediate_nodes)
                (rw ended (
                  In-rest first nodes seen.0 nhc2 seen.1 node i
                    (remediate-marked (IsRecorded first.name) (IsRecorded-kept first.name) r now
                      first nhc' us' h p1)
                    (remediate_nodes-IsRecorded nodes seen.0 nhc2 seen.1 node
                      (rw ended at (rw (not_out, remediate_nodes) at fine)))))
        ]
      ]
