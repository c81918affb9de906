-- ===== src/Reconcile/Updated.antt =====
-- What the updates keep true of the unhealthy nodes stays true over the loops of Reconcile.
use node_healthcheck_operato.Prelude.{
  ℕ, ℤ, String, Bool, true, false, Option, some, none, List, [], ◌∷◌, refl, Bool-cases,
  Option-cases, inl, inr, is_empty, if◌then◌else◌,
}
use node_healthcheck_operato.Api.{ObjectReference, Node, NodeHealthCheck, UnhealthyNode}
use node_healthcheck_operato.Remediation.{Unstructured, get_node_name_from_cr}
use node_healthcheck_operato.Requeue.{update_requeue_after}
use node_healthcheck_operato.Status.{update_status_node_healthy}
use node_healthcheck_operato.Status.Unique.{
  Update, node_healthy, node_delayed_healthy, node_unhealthy, node_conditions_healthy, apply,
}
use node_healthcheck_operato.Cluster.{get_node, History, Answer-cases}
use node_healthcheck_operato.Manager.{Manager, delete_remediation_cr, list_remediation_crs}
use node_healthcheck_operato.Manager.Healthy.{
  Rfc3339, Handled, delayed, handle_crs, handle_known, handle_healthy_node, clean_up, is_confirmed,
  is_cr_of,
}
use node_healthcheck_operato.Orphans.{is_orphaned, delete_orphans, delete_orphaned_remediation_crs}
use node_healthcheck_operato.Remediate.Setup.{Reconciler}
use node_healthcheck_operato.Remediate.Run.{remediate}
use node_healthcheck_operato.Reconcile.Alert.{is_node_remediation_excluded}
use node_healthcheck_operato.Reconcile.Healthy.{handle_healthy_nodes, count_node}
use node_healthcheck_operato.Reconcile.Unhealthy.{
  after_remediate, look_after, with_unhealthy, remediate_nodes,
}
use node_healthcheck_operato.Reconcile.Updates.{IsKeptByMarks, remediate-marked}

-- All updates keep `P`.
abbrev pub IsKeptByUpdates : (List UnhealthyNode → Type 0) → Type 0
IsKeptByUpdates P = (u : Update) (us : List UnhealthyNode) → P us → P (apply u us)

module _ (P : List UnhealthyNode → Type 0) (keep : IsKeptByUpdates P) where
  healthy-updated :
      (n : String) (us : List UnhealthyNode) → P us → P (update_status_node_healthy n us)
  unfolding apply
  healthy-updated n us p = keep (node_healthy n) us p

  delayed-updated :
      (n : String) (us : List UnhealthyNode) (crs : List Unstructured) (requeue : Option ℤ)
      (e : Option _)
      → P us
      → P (delayed n us crs requeue e).unhealthy_nodes
  unfolding apply
  delayed-updated n us crs requeue (some e) p = p
  delayed-updated n us crs none none p = p
  delayed-updated n us crs (some r) none p = keep (node_delayed_healthy n crs) us p

  module _ (m : Manager) (clock : Rfc3339) (now : ℤ) where
    known-updated :
        (n : String) (us : List UnhealthyNode) (confirmed : Bool) (crs : List Unstructured)
        (h : History)
        → P us
        → P (handle_known m clock now n us confirmed crs h).0.unhealthy_nodes
    unfolding handle_known
    known-updated n us confirmed [] h p = p
    known-updated n us confirmed (cr ∷ crs) h p =
        let run = handle_crs m clock now confirmed (cr ∷ crs) [] none h in
        delayed-updated n us run.0.0.0 run.0.0.1 run.0.1 p

    node-updated :
        (templates : List ObjectReference) (us : List UnhealthyNode) (n cr_name : String)
        (h : History)
        → P us
        → P (handle_healthy_node m clock now templates us n cr_name h).0.unhealthy_nodes
    unfolding handle_healthy_node
    node-updated templates us n cr_name h p =
        let listing = list_remediation_crs m templates (is_cr_of m n cr_name) h in
        let answer = is_confirmed (m.environment.on_get_node listing.1 n) in
        elim (Answer-cases listing.0) [
          | inl (e, broken) ↦ rw (broken, handle_healthy_node) p
          | inr (crs, listed) ↦ elim (Answer-cases answer) [
            | inl (e, broken) ↦ rw (listed, handle_healthy_node) (rw broken p)
            | inr (confirmed, got) ↦
                rw (listed, handle_healthy_node)
                  (rw got (known-updated n us confirmed crs (get_node n ∷ listing.1) p))
          ]
        ]

    count-updated :
        (templates : List ObjectReference) (node : Node) (requeue : ℤ) (count : ℕ) (d : Handled)
        → P d.unhealthy_nodes
        → P (count_node m clock now templates node requeue count d).unhealthy_nodes
    unfolding count_node apply
    count-updated templates node requeue count d p = elim (Bool-cases (is_empty d.crs)) [
      | inl gone ↦ rw (gone, count_node) (keep (node_healthy node.name) d.unhealthy_nodes p)
      | inr left ↦
          rw (left, count_node) (keep (node_conditions_healthy node.name now) d.unhealthy_nodes p)
    ]

    pub healthy_nodes-updated :
        (templates : List ObjectReference) (nodes : List Node) (requeue : ℤ)
        (us : List UnhealthyNode) (count : ℕ) (h : History)
        → P us
        → P (handle_healthy_nodes m clock now templates nodes requeue us count h).0.unhealthy_nodes
    unfolding handle_healthy_nodes
    healthy_nodes-updated templates [] requeue us count h p = p
    healthy_nodes-updated templates (node ∷ nodes) requeue us count h p =
        let step = handle_healthy_node m clock now templates us node.name node.name h in
        let p1 = node-updated templates us node.name node.name h p in
        let next = count_node m clock now templates node requeue count step.0 in
        elim (Option-cases step.0.error) [
          | inr (e, broken) ↦ rw (broken, handle_healthy_nodes) p1
          | inl fine ↦
              rw (fine, handle_healthy_nodes)
                (healthy_nodes-updated templates nodes next.requeue_after next.unhealthy_nodes
                  next.healthy_count step.1 (count-updated templates node requeue count step.0 p1))
        ]

  orphans-updated :
      (m : Manager) (crs : List Unstructured) (us : List UnhealthyNode) (h : History)
      → P us
      → P (delete_orphans m crs us h).0.1
  unfolding delete_orphans
  orphans-updated m [] us h p = p
  orphans-updated m (cr ∷ crs) us h p =
      let name = get_node_name_from_cr cr in
      let cleaning = clean_up m name false h in
      let us' = update_status_node_healthy name us in
      let deletion = delete_remediation_cr m cr cleaning.1 in
      let p' = healthy-updated name us p in
      elim (Option-cases cleaning.0) [
        | inr (e, broken) ↦ rw (broken, delete_orphans) p
        | inl cleaned ↦ elim (Option-cases deletion.0.1) [
          | inr (e, broken) ↦ rw (cleaned, delete_orphans) (rw broken p')
          | inl deleted ↦
              rw (cleaned, delete_orphans) (rw deleted (orphans-updated m crs us' deletion.1 p'))
        ]
      ]

  pub orphaned-updated :
      (m : Manager) (templates : List ObjectReference) (nodes : List Node) (us : List UnhealthyNode)
      (h : History)
      → P us
      → P (delete_orphaned_remediation_crs m templates nodes us h).0.1
  unfolding delete_orphaned_remediation_crs
  orphaned-updated m templates nodes us h p =
      let listing = list_remediation_crs m templates (is_orphaned m nodes) h in
      elim (Answer-cases listing.0) [
        | inl (e, broken) ↦ rw (broken, delete_orphaned_remediation_crs) p
        | inr (crs, listed) ↦
            rw (listed, delete_orphaned_remediation_crs) (orphans-updated m crs us listing.1 p)
      ]

module _ (P : List UnhealthyNode → Type 0) (keep : IsKeptByMarks P) (r : Reconciler) (now : ℤ) where
  after-updated :
      (node : Node) (nhc : NodeHealthCheck) (us : List UnhealthyNode) (h : History)
      → P us
      → P (after_remediate r now node nhc us h).status.unhealthy_nodes
  after-updated node nhc us h p = p

  pub remediate_nodes-updated :
      (skip : Bool) (nodes : List Node) (requeue : ℤ) (nhc : NodeHealthCheck) (h : History)
      → P nhc.status.unhealthy_nodes
      → P (remediate_nodes r now skip nodes requeue nhc h).0.nhc.status.unhealthy_nodes
  unfolding remediate_nodes apply
  remediate_nodes-updated skip [] requeue nhc h p = p
  remediate_nodes-updated skip (node ∷ nodes) requeue nhc h p =
      let nhc' = with_unhealthy r now node nhc in
      let us' = nhc'.status.unhealthy_nodes in
      let p1 = keep (node_unhealthy node.name) nhc.status.unhealthy_nodes refl p in
      let left_out = if skip then true else is_node_remediation_excluded node in
      let step = remediate r now node nhc' us' h in
      let nhc2 = after_remediate r now node nhc' step.0.unhealthy_nodes h in
      let p2 =
        after-updated node nhc' step.0.unhealthy_nodes h
          (remediate-marked P keep r now node nhc' us' h p1) in
      let seen = look_after r now node nhc2 (update_requeue_after requeue step.0.requeue) step.1 in
      elim (Bool-cases left_out) [
        | inl out ↦ rw (out, remediate_nodes) (remediate_nodes-updated skip nodes requeue nhc' h p1)
        | inr not_out ↦ elim (Option-cases step.0.error) [
          | inr (e, broken) ↦ rw (not_out, remediate_nodes) (rw broken p2)
          | inl fine ↦
              rw (not_out, remediate_nodes)
                (rw fine (remediate_nodes-updated skip nodes seen.0 nhc2 seen.1 p2))
        ]
      ]
