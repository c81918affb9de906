-- ===== src/Reconcile/Safety.antt =====
-- A whole Reconcile makes allowed calls only.
use mathlib.Core.Path.{subst}
use node_healthcheck_operato.Prelude.{
  ℕ, ℤ, pos, String, Bool, true, List, [], ◌∷◌, ◌++◌, ◌≡◌, Bool-cases, Option-cases, inl, inr,
  is_empty, length, if◌then◌else◌, sym,
}
use node_healthcheck_operato.Api.{Node, NodeHealthCheck, condition_type_disabled}
use node_healthcheck_operato.Conditions.{has_status}
use node_healthcheck_operato.Remediation.{get_all_remediation_templates}
use node_healthcheck_operato.Requeue.{update_requeue_after}
use node_healthcheck_operato.Health.{NodeClasses, check_node_conditions}
use node_healthcheck_operato.Threshold.{get_min_healthy, is_below}
use node_healthcheck_operato.Storm.Evaluate.{evaluate_storm_recovery}
use node_healthcheck_operato.Status.{set_unhealthy_nodes}
use node_healthcheck_operato.Cluster.{History, Answer-cases}
use node_healthcheck_operato.Manager.Safe.{IsSafe}
use node_healthcheck_operato.Templates.{validate_templates}
use node_healthcheck_operato.Orphans.{delete_orphaned_remediation_crs}
use node_healthcheck_operato.Orphans.Safety.{delete_orphaned-IsSafe}
use node_healthcheck_operato.Upgrade.{is_cluster_upgrading}
use node_healthcheck_operato.Watches.{add_watches_nhc}
use node_healthcheck_operato.Reconcile.Operator.{
  Operator, need_disable_nhc, need_ignore_node, manager_for, reconciler_for, lease_holder_ident,
}
use node_healthcheck_operato.Reconcile.Quiet.{
  get_nodes-kept, upgrade-kept, add_watches_nhc-kept, validate_templates-kept, send_status-kept,
  Validity-cases, MinHealthy-cases,
}
use node_healthcheck_operato.Reconcile.Loops.{
  IsSafe-kept, healthy_nodes-IsSafe, remediate_nodes-IsSafe,
}
use node_healthcheck_operato.Reconcile.Healthy.{handle_healthy_nodes}
use node_healthcheck_operato.Reconcile.Unhealthy.{remediate_nodes}
use node_healthcheck_operato.Reconcile.Report.{with_phase}
use node_healthcheck_operato.Reconcile.Run.{
  enable, reconcile_unhealthy, reconcile_threshold, reconcile_nodes, reconcile_selected,
  reconcile_enabled, reconcile_checked, finish, reconcile_nhc,
}
use node_healthcheck_operato.Reconcile.Outcome.{with_counts, reset, get_nodes}

module _ (o : Operator) (now : ℤ) where
  unhealthy-IsSafe :
      (matching : List Node) (below : Bool) (requeue : ℤ) (nhc : NodeHealthCheck)
      (watches : List String) (h : History)
      → IsSafe (manager_for o nhc) h
      → IsSafe
          (manager_for o nhc)
          (reconcile_unhealthy o now matching below requeue nhc watches h).1
  unfolding reconcile_unhealthy
  unhealthy-IsSafe matching below requeue nhc watches h s =
      let storm = evaluate_storm_recovery o.meta now nhc below in
      let skip = if below then true else storm.0.0 in
      let wish = update_requeue_after requeue storm.0.1 in
      let r = reconciler_for o nhc in
      let s1 = remediate_nodes-IsSafe r now skip matching wish storm.1 h s in
      elim (Option-cases (remediate_nodes r now skip matching wish storm.1 h).0.error) [
        | inl fine ↦ rw (fine, reconcile_unhealthy) s1
        | inr (e, broken) ↦ rw (broken, reconcile_unhealthy) s1
      ]

  threshold-IsSafe :
      (observed healthy : ℕ) (matching : List Node) (requeue : ℤ) (nhc : NodeHealthCheck)
      (watches : List String) (h : History)
      → IsSafe (manager_for o nhc) h
      → IsSafe
          (manager_for o nhc)
          (reconcile_threshold o now observed healthy matching requeue nhc watches h).1
  unfolding reconcile_threshold
  threshold-IsSafe observed healthy [] requeue nhc watches h s = s
  threshold-IsSafe observed healthy (node ∷ nodes) requeue nhc watches h s =
      elim (MinHealthy-cases (get_min_healthy o.intstr nhc.spec (pos observed))) [
        | inl (e, broken) ↦ rw (broken, reconcile_threshold) s
        | inr (min, known) ↦
            rw (known, reconcile_threshold)
              (unhealthy-IsSafe (node ∷ nodes) (is_below (pos healthy) min) requeue
                (with_counts observed healthy nhc) watches h s)
      ]

  nodes-IsSafe :
      (observed : ℕ) (classes : NodeClasses) (requeue : ℤ) (nhc : NodeHealthCheck)
      (watches : List String) (h : History)
      → IsSafe (manager_for o nhc) h
      → IsSafe (manager_for o nhc) (reconcile_nodes o now observed classes requeue nhc watches h).1
  unfolding reconcile_nodes
  nodes-IsSafe observed classes requeue nhc watches h s =
      let m = manager_for o nhc in
      let us = nhc.status.unhealthy_nodes in
      let templates = get_all_remediation_templates nhc in
      let nodes = classes.not_matching ++ (classes.soon_matching ++ classes.matching) in
      let orphans = delete_orphaned_remediation_crs m templates nodes us h in
      let s1 = delete_orphaned-IsSafe m templates nodes us h s in
      let healthy =
        handle_healthy_nodes m o.clock now templates classes.not_matching requeue orphans.0.1 0
          orphans.1 in
      let s2 =
        healthy_nodes-IsSafe m o.clock now templates classes.not_matching requeue orphans.0.1 0
          orphans.1 s1 in
      elim (Option-cases orphans.0.0) [
        | inr (e, broken) ↦ rw (broken, reconcile_nodes) s1
        | inl fine ↦ elim (Option-cases healthy.0.error) [
          | inr (e, broken) ↦ rw (fine, reconcile_nodes) (rw broken s2)
          | inl fine_too ↦
              rw (fine, reconcile_nodes)
                (rw fine_too (
                  threshold-IsSafe observed healthy.0.healthy_count classes.matching
                    healthy.0.requeue_after (set_unhealthy_nodes healthy.0.unhealthy_nodes nhc)
                    watches healthy.1 s2))
        ]
      ]

  selected-IsSafe :
      (nodes : List Node) (nhc : NodeHealthCheck) (watches : List String) (h : History)
      → IsSafe (manager_for o nhc) h
      → IsSafe (manager_for o nhc) (reconcile_selected o now nodes nhc watches h).1
  unfolding reconcile_selected
  selected-IsSafe nodes nhc watches h s =
      let m = manager_for o nhc in
      let classes = check_node_conditions now nhc (need_ignore_node o) nodes in
      let upgrade = is_cluster_upgrading o.environment o.is_on_openshift classes.matching h in
      let s1 =
        upgrade-kept (IsSafe m) (IsSafe-kept m) o.environment o.is_on_openshift classes.matching h
          s in
      elim (Bool-cases upgrade.0) [
        | inl yes_it_is ↦ rw (yes_it_is, reconcile_selected) s1
        | inr not_it ↦ elim (Bool-cases (is_empty nhc.spec.pause_requests)) [
          | inr held ↦ rw (not_it, reconcile_selected) (rw held s1)
          | inl free ↦
              rw (not_it, reconcile_selected)
                (rw free (
                  nodes-IsSafe (length nodes) classes
                    (update_requeue_after (pos 0) classes.requeue_after) nhc watches upgrade.1 s1))
        ]
      ]

  enabled-IsSafe :
      (nhc : NodeHealthCheck) (watches : List String) (h : History)
      → IsSafe (manager_for o nhc) h
      → IsSafe (manager_for o nhc) (reconcile_enabled o now nhc watches h).1
  unfolding reconcile_enabled
  enabled-IsSafe nhc watches h s =
      let m = manager_for o nhc in
      let watching = add_watches_nhc o.environment nhc watches h in
      let s1 = add_watches_nhc-kept (IsSafe m) (IsSafe-kept m) o.environment nhc watches h s in
      let selected = get_nodes o.environment nhc.spec.selector watching.1 in
      let s2 =
        get_nodes-kept (IsSafe m) (IsSafe-kept m) o.environment nhc.spec.selector watching.1 s1 in
      elim (Option-cases watching.0.0) [
        | inr (e, broken) ↦ rw (broken, reconcile_enabled) s1
        | inl fine ↦ elim (Answer-cases selected.0) [
          | inl (e, broken) ↦ rw (fine, reconcile_enabled) (rw broken s2)
          | inr (nodes, got) ↦
              rw (fine, reconcile_enabled)
                (rw got (selected-IsSafe nodes nhc watching.0.1 selected.1 s2))
        ]
      ]

  -- The same for another NodeHealthCheck with that manager.
  same-IsSafe :
      (nhc nhc' : NodeHealthCheck) (watches : List String) (h : History)
      → manager_for o nhc ≡ manager_for o nhc'
      → IsSafe (manager_for o nhc') h
      → IsSafe (manager_for o nhc') (reconcile_enabled o now nhc watches h).1
  same-IsSafe nhc nhc' watches h e s =
      subst (λ m. IsSafe m (reconcile_enabled o now nhc watches h).1) e
        (enabled-IsSafe nhc watches h (subst (λ m. IsSafe m h) (sym e) s))

  manager_for-enable :
      (nhc : NodeHealthCheck) → manager_for o (enable o now nhc) ≡ manager_for o nhc
  manager_for-enable nhc =
      elim (Bool-cases (
        has_status "False"
          (o.meta.find_status_condition nhc.status.conditions condition_type_disabled))) [
            | inl enabled ↦ rw enabled
            | inr other ↦ rw other
          ]

  checked-IsSafe :
      (nhc : NodeHealthCheck) (watches : List String) (h : History)
      → IsSafe (manager_for o nhc) h
      → IsSafe (manager_for o nhc) (reconcile_checked o now nhc watches h).1
  unfolding reconcile_checked
  checked-IsSafe nhc watches h s =
      let m = manager_for o nhc in
      let refs = get_all_remediation_templates nhc in
      let validation = validate_templates o.environment refs h in
      let s1 = validate_templates-kept (IsSafe m) (IsSafe-kept m) o.environment refs h s in
      elim (Bool-cases (need_disable_nhc o)) [
        | inl conflict ↦ rw (conflict, reconcile_checked) s
        | inr no_conflict ↦ elim (Validity-cases validation.0) [
          | inr (inl (reason, e, bad)) ↦ rw (no_conflict, reconcile_checked) (rw bad s1)
          | inr (inr (e, broken)) ↦ rw (no_conflict, reconcile_checked) (rw broken s1)
          | inl good ↦
              rw (no_conflict, reconcile_checked)
                (rw good (
                  same-IsSafe (enable o now (reset nhc)) nhc watches validation.1
                    (manager_for-enable (reset nhc)) s1))
        ]
      ]

  -- If every call so far was allowed, so is every call of Reconcile for a NodeHealthCheck: a CR is created
  -- only directly after none has been found for its node and template and the node's lease has been
  -- granted, and a CR is deleted only if it has just been returned, owned by the NodeHealthCheck and
  -- not yet being deleted.
  pub reconcile-IsSafe :
      (nhc : NodeHealthCheck) (watches : List String) (h : History)
      → IsSafe (manager_for o nhc) h
      → IsSafe (manager_for o nhc) (reconcile_nhc o now nhc watches h).1
  unfolding reconcile_nhc finish
  reconcile-IsSafe nhc watches h s =
      let m = manager_for o nhc in
      let run = reconcile_checked o now nhc watches h in
      elim (Option-cases (o.environment.new_lease_manager (lease_holder_ident nhc))) [
        | inr (e, broken) ↦ rw (broken, reconcile_nhc) s
        | inl fine ↦
            rw (fine, reconcile_nhc)
              (send_status-kept (IsSafe m) (IsSafe-kept m) o.environment now
                (with_phase o.meta run.0.nhc) nhc run.1 (checked-IsSafe nhc watches h s))
      ]
