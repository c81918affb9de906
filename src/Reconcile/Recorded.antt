-- ===== src/Reconcile/Recorded.antt =====
-- What Reconcile does to the unhealthy nodes of the status: the names stay distinct, and every node that
-- matches an unhealthy condition is recorded.
use mathlib.Core.Path.{subst}
use node_healthcheck_operato.Prelude.{
  ℕ, ℤ, pos, String, Bool, true, List, [], ◌∷◌, ◌++◌, ◌≡◌, sym, arith, Bool-cases, Option-cases,
  inl, inr, is_empty, length, if◌then◌else◌,
}
use node_healthcheck_operato.Api.{Node, NodeHealthCheck, UnhealthyNode}
use node_healthcheck_operato.Remediation.{get_all_remediation_templates}
use node_healthcheck_operato.Requeue.{update_requeue_after}
use node_healthcheck_operato.Health.{NodeClasses, check_node_conditions}
use node_healthcheck_operato.Threshold.{get_min_healthy, is_below}
use node_healthcheck_operato.Storm.Evaluate.{evaluate_storm_recovery}
use node_healthcheck_operato.Status.{set_unhealthy_nodes}
use node_healthcheck_operato.Status.Unique.{IsMapByName, apply-IsMapByName}
use node_healthcheck_operato.Cluster.{History, Answer-cases}
use node_healthcheck_operato.Orphans.{delete_orphaned_remediation_crs}
use node_healthcheck_operato.Templates.{validate_templates}
use node_healthcheck_operato.Upgrade.{is_cluster_upgrading}
use node_healthcheck_operato.Watches.{add_watches_nhc}
use node_healthcheck_operato.Reconcile.Operator.{
  Operator, need_disable_nhc, need_ignore_node, manager_for, reconciler_for, lease_holder_ident,
}
use node_healthcheck_operato.Reconcile.Quiet.{Validity-cases, MinHealthy-cases}
use node_healthcheck_operato.Reconcile.Healthy.{handle_healthy_nodes}
use node_healthcheck_operato.Reconcile.Report.{with_phase}
use node_healthcheck_operato.Reconcile.Updated.{
  IsKeptByUpdates, healthy_nodes-updated, orphaned-updated, remediate_nodes-updated,
}
use node_healthcheck_operato.Reconcile.Unheld.{unhealthy-parts}
use node_healthcheck_operato.Reconcile.Run.{
  enable, disable, reconcile_unhealthy, reconcile_threshold, reconcile_nodes, reconcile_selected,
  reconcile_enabled, reconcile_checked, finish, reconcile_nhc,
}
use node_healthcheck_operato.Reconcile.Outcome.{with_counts, reset, get_nodes}

module _ (P : List UnhealthyNode → Type 0) (keep : IsKeptByUpdates P) (o : Operator) (now : ℤ) where
  -- It holds of the status.
  abbrev Holds : NodeHealthCheck → Type 0
  Holds nhc = P nhc.status.unhealthy_nodes

  storm-updated :
      (nhc : NodeHealthCheck) (below : Bool)
      → (evaluate_storm_recovery o.meta now nhc below).1.status.unhealthy_nodes
        ≡ nhc.status.unhealthy_nodes
  unfolding evaluate_storm_recovery
  storm-updated nhc below = ground arith

  unhealthy-updated :
      (matching : List Node) (below : Bool) (requeue : ℤ) (nhc : NodeHealthCheck)
      (watches : List String) (h : History)
      → Holds nhc
      → Holds (reconcile_unhealthy o now matching below requeue nhc watches h).0.nhc
  unhealthy-updated matching below requeue nhc watches h p =
      let storm = evaluate_storm_recovery o.meta now nhc below in
      let parts = unhealthy-parts o now matching below requeue nhc watches h in
      subst Holds (sym parts.1) (
        remediate_nodes-updated P (λ u us e. keep u us) (reconciler_for o nhc) now
          (if below then true else storm.0.0) matching (update_requeue_after requeue storm.0.1)
          storm.1 h (subst P (sym (storm-updated nhc below)) p))

  threshold-updated :
      (observed healthy : ℕ) (matching : List Node) (requeue : ℤ) (nhc : NodeHealthCheck)
      (watches : List String) (h : History)
      → Holds nhc
      → Holds (reconcile_threshold o now observed healthy matching requeue nhc watches h).0.nhc
  unfolding reconcile_threshold
  threshold-updated observed healthy [] requeue nhc watches h p = p
  threshold-updated observed healthy (node ∷ nodes) requeue nhc watches h p =
      elim (MinHealthy-cases (get_min_healthy o.intstr nhc.spec (pos observed))) [
        | inl (e, broken) ↦ rw (broken, reconcile_threshold) p
        | inr (min, known) ↦
            rw (known, reconcile_threshold)
              (unhealthy-updated (node ∷ nodes) (is_below (pos healthy) min) requeue
                (with_counts observed healthy nhc) watches h p)
      ]

  nodes-updated :
      (observed : ℕ) (classes : NodeClasses) (requeue : ℤ) (nhc : NodeHealthCheck)
      (watches : List String) (h : History)
      → Holds nhc
      → Holds (reconcile_nodes o now observed classes requeue nhc watches h).0.nhc
  unfolding reconcile_nodes
  nodes-updated observed classes requeue nhc watches h p =
      let m = manager_for o nhc in
      let templates = get_all_remediation_templates nhc in
      let nodes = classes.not_matching ++ (classes.soon_matching ++ classes.matching) in
      let us = nhc.status.unhealthy_nodes in
      let orphans = delete_orphaned_remediation_crs m templates nodes us h in
      let p1 = orphaned-updated P keep m templates nodes us h p in
      let healthy =
        handle_healthy_nodes m o.clock now templates classes.not_matching requeue orphans.0.1 0
          orphans.1 in
      let p2 =
        healthy_nodes-updated P keep m o.clock now templates classes.not_matching requeue
          orphans.0.1 0 orphans.1 p1 in
      elim (Option-cases orphans.0.0) [
        | inr (e, broken) ↦ rw (broken, reconcile_nodes) p1
        | inl fine ↦ elim (Option-cases healthy.0.error) [
          | inr (e, broken) ↦ rw (fine, reconcile_nodes) (rw broken p2)
          | inl fine_too ↦
              rw (fine, reconcile_nodes)
                (rw fine_too (
                  threshold-updated observed healthy.0.healthy_count classes.matching
                    healthy.0.requeue_after (set_unhealthy_nodes healthy.0.unhealthy_nodes nhc)
                    watches healthy.1 p2))
        ]
      ]

  selected-updated :
      (nodes : List Node) (nhc : NodeHealthCheck) (watches : List String) (h : History)
      → Holds nhc
      → Holds (reconcile_selected o now nodes nhc watches h).0.nhc
  unfolding reconcile_selected
  selected-updated nodes nhc watches h p =
      let classes = check_node_conditions now nhc (need_ignore_node o) nodes in
      let upgrade = is_cluster_upgrading o.environment o.is_on_openshift classes.matching h in
      elim (Bool-cases upgrade.0) [
        | inl yes_it_is ↦ rw (yes_it_is, reconcile_selected) p
        | inr not_it ↦ elim (Bool-cases (is_empty nhc.spec.pause_requests)) [
          | inr held ↦ rw (not_it, reconcile_selected) (rw held p)
          | inl free ↦
              rw (not_it, reconcile_selected)
                (rw free (
                  nodes-updated (length nodes) classes
                    (update_requeue_after (pos 0) classes.requeue_after) nhc watches upgrade.1 p))
        ]
      ]

  enabled-updated :
      (nhc : NodeHealthCheck) (watches : List String) (h : History)
      → Holds nhc
      → Holds (reconcile_enabled o now nhc watches h).0.nhc
  unfolding reconcile_enabled
  enabled-updated nhc watches h p =
      let watching = add_watches_nhc o.environment nhc watches h in
      let selected = get_nodes o.environment nhc.spec.selector watching.1 in
      elim (Option-cases watching.0.0) [
        | inr (e, broken) ↦ rw (broken, reconcile_enabled) p
        | inl fine ↦ elim (Answer-cases selected.0) [
          | inl (e, broken) ↦ rw (fine, reconcile_enabled) (rw broken p)
          | inr (nodes, got) ↦
              rw (fine, reconcile_enabled)
                (rw got (selected-updated nodes nhc watching.0.1 selected.1 p))
        ]
      ]

  disable-updated :
      (reason message : String) (nhc : NodeHealthCheck)
      → (disable o now reason message nhc).status.unhealthy_nodes ≡ nhc.status.unhealthy_nodes
  disable-updated reason message nhc = ground arith

  enable-updated :
      (nhc : NodeHealthCheck)
      → (enable o now nhc).status.unhealthy_nodes ≡ nhc.status.unhealthy_nodes
  enable-updated nhc = ground arith

  checked-updated :
      (nhc : NodeHealthCheck) (watches : List String) (h : History)
      → Holds nhc
      → Holds (reconcile_checked o now nhc watches h).0.nhc
  unfolding reconcile_checked
  checked-updated nhc watches h p =
      let refs = get_all_remediation_templates nhc in
      let validation = validate_templates o.environment refs h in
      elim (Bool-cases (need_disable_nhc o)) [
        | inl conflict ↦
            rw (conflict, reconcile_checked) (subst P (sym (disable-updated _ _ (reset nhc))) p)
        | inr no_conflict ↦ elim (Validity-cases validation.0) [
          | inr (inl (reason, e, bad)) ↦
              rw (no_conflict, reconcile_checked)
                (rw bad (subst P (sym (disable-updated _ _ (reset nhc))) p))
          | inr (inr (e, broken)) ↦ rw (no_conflict, reconcile_checked) (rw broken p)
          | inl good ↦
              rw (no_conflict, reconcile_checked)
                (rw good (
                  enabled-updated (enable o now (reset nhc)) watches validation.1
                    (subst P (sym (enable-updated (reset nhc))) p)))
        ]
      ]

  with_phase-updated :
      (nhc : NodeHealthCheck)
      → (with_phase o.meta nhc).status.unhealthy_nodes ≡ nhc.status.unhealthy_nodes
  unfolding with_phase
  with_phase-updated nhc = ground arith

  nhc-updated :
      (nhc : NodeHealthCheck) (watches : List String) (h : History)
      → Holds nhc
      → Holds (reconcile_nhc o now nhc watches h).0.nhc
  unfolding reconcile_nhc finish
  nhc-updated nhc watches h p =
      let run = reconcile_checked o now nhc watches h in
      elim (Option-cases (o.environment.new_lease_manager (lease_holder_ident nhc))) [
        | inr (e, broken) ↦ rw (broken, reconcile_nhc) p
        | inl fine ↦
            rw (fine, reconcile_nhc)
              (subst P (sym (with_phase-updated run.0.nhc)) (checked-updated nhc watches h p))
      ]

-- A Reconcile keeps the names of the unhealthy nodes in the status distinct, whatever the API server
-- answers and wherever it ends.
pub reconcile-IsMapByName :
    (o : Operator) (now : ℤ) (nhc : NodeHealthCheck) (watches : List String) (h : History)
    → IsMapByName nhc.status.unhealthy_nodes
    → IsMapByName (reconcile_nhc o now nhc watches h).0.nhc.status.unhealthy_nodes
reconcile-IsMapByName o now nhc watches h m =
    nhc-updated IsMapByName apply-IsMapByName o now nhc watches h m
