-- ===== src/Reconcile/Run.antt =====
-- Reconcile of internal/controller/nodehealthcheck_controller.go. `now` is the clock reading of the call;
-- `watches` is the map of the watch manager.
use node_healthcheck_operato.Prelude.{
  ℕ, ℤ, pos, String, Bool, true, not, Option, none, some, List, [], ◌∷◌, ◌++◌, length, is_empty,
  ◌==◌, if◌then◌else◌,
}
use node_healthcheck_operato.Api.{
  Node, NodeHealthCheck, condition_type_disabled, condition_reason_disabled_mhc,
  condition_reason_disabled_template_not_found,
}
use node_healthcheck_operato.Conditions.{is_condition_true_with_reason, has_status, set_condition}
use node_healthcheck_operato.Requeue.{update_requeue_after}
use node_healthcheck_operato.Remediation.{get_all_remediation_templates}
use node_healthcheck_operato.Health.{NodeClasses, check_node_conditions}
use node_healthcheck_operato.Threshold.{MinHealthy, get_min_healthy, is_below}
use node_healthcheck_operato.Threshold
use node_healthcheck_operato.Storm.Evaluate.{evaluate_storm_recovery}
use node_healthcheck_operato.Status.{set_unhealthy_nodes}
use node_healthcheck_operato.Cluster.{
  Error, bad_threshold, is_not_found, ok, failed, get_nhc, History,
}
use node_healthcheck_operato.Templates.{valid, invalid, unknown, validate_templates}
use node_healthcheck_operato.Orphans.{delete_orphaned_remediation_crs}
use node_healthcheck_operato.Upgrade.{is_cluster_upgrading}
use node_healthcheck_operato.Watches.{add_watches_nhc}
use node_healthcheck_operato.Reconcile.Operator.{
  Operator, need_disable_nhc, need_ignore_node, lease_holder_ident, manager_for, reconciler_for,
}
use node_healthcheck_operato.Reconcile.Healthy.{handle_healthy_nodes}
use node_healthcheck_operato.Reconcile.Unhealthy.{remediate_nodes}
use node_healthcheck_operato.Reconcile.Report.{with_phase, send_status}
use node_healthcheck_operato.Reconcile.Outcome.{
  Outcome, stops, breaks, template_not_found_requeue_after, cluster_upgrade_requeue_after,
  disabling, enabling, with_counts, reset, get_nodes,
}

module _ (o : Operator) (now : ℤ) where
  abbrev pub disable : String → String → NodeHealthCheck → NodeHealthCheck
  disable reason message nhc =
      if is_condition_true_with_reason o.meta nhc.status.conditions condition_type_disabled reason
      then nhc
      else set_condition o.meta now (disabling reason message) nhc

  abbrev pub enable : NodeHealthCheck → NodeHealthCheck
  enable nhc =
      if has_status "False"
        (o.meta.find_status_condition nhc.status.conditions condition_type_disabled)
      then nhc
      else set_condition o.meta now enabling nhc

  -- The unhealthy nodes are remediated, unless the threshold or a storm holds this back.
  unfoldable pub reconcile_unhealthy :
      List Node → Bool → ℤ → NodeHealthCheck → List String → History → Outcome × History
  reconcile_unhealthy matching is_min_healthy_triggered requeue nhc watches h =
      let ((is_storm_active, wish), nhc') =
        evaluate_storm_recovery o.meta now nhc is_min_healthy_triggered in
      let skip = if is_min_healthy_triggered then true else is_storm_active in
      let (done, h') =
        remediate_nodes (reconciler_for o nhc) now skip matching (update_requeue_after requeue wish)
          nhc' h in
      elim done.error [
        | none ↦ (stops done.requeue_after done.nhc watches, h')
        | some e ↦ (breaks e done.requeue_after done.nhc watches, h')
      ]

  -- Reconcile once the healthy nodes have been handled.
  unfoldable pub reconcile_threshold :
      ℕ → ℕ → List Node → ℤ → NodeHealthCheck → List String → History → Outcome × History
  unfolding reconcile_unhealthy
  reconcile_threshold observed healthy [] requeue nhc watches h =
      (stops requeue (with_counts observed healthy nhc) watches, h)
  reconcile_threshold observed healthy (node ∷ nodes) requeue nhc watches h =
      let nhc' = with_counts observed healthy nhc in
      elim (get_min_healthy o.intstr nhc.spec (pos observed)) [
        | Threshold.err e ↦ (breaks (bad_threshold e) requeue nhc' watches, h)
        | Threshold.ok min_healthy ↦
            reconcile_unhealthy (node ∷ nodes) (is_below (pos healthy) min_healthy) requeue nhc'
              watches h
      ]

  -- Reconcile once nothing holds it back.
  unfoldable pub reconcile_nodes :
      ℕ → NodeClasses → ℤ → NodeHealthCheck → List String → History → Outcome × History
  unfolding reconcile_threshold
  reconcile_nodes observed classes requeue nhc watches h =
      let templates = get_all_remediation_templates nhc in
      let nodes = classes.not_matching ++ (classes.soon_matching ++ classes.matching) in
      let ((error, us), h1) =
        delete_orphaned_remediation_crs (manager_for o nhc) templates nodes
          nhc.status.unhealthy_nodes h in
      let nhc1 = set_unhealthy_nodes us nhc in
      elim error [
        | some e ↦ (breaks e requeue nhc1 watches, h1)
        | none ↦
            let (done, h2) =
              handle_healthy_nodes (manager_for o nhc) o.clock now templates classes.not_matching
                requeue us 0 h1 in
            let nhc2 = set_unhealthy_nodes done.unhealthy_nodes nhc in
            elim done.error [
              | some e ↦ (breaks e done.requeue_after nhc2 watches, h2)
              | none ↦
                  reconcile_threshold observed done.healthy_count classes.matching
                    done.requeue_after nhc2 watches h2
            ]
      ]

  -- Reconcile with the selected nodes: an upgrade or a pause request ends it.
  unfoldable pub reconcile_selected :
      List Node → NodeHealthCheck → List String → History → Outcome × History
  unfolding reconcile_nodes
  reconcile_selected nodes nhc watches h =
      let classes = check_node_conditions now nhc (need_ignore_node o) nodes in
      let requeue = update_requeue_after (pos 0) classes.requeue_after in
      let (upgrading, h1) =
        is_cluster_upgrading o.environment o.is_on_openshift classes.matching h in
      if upgrading
      then (stops cluster_upgrade_requeue_after nhc watches, h1)
      else if not (is_empty nhc.spec.pause_requests)
      then (stops requeue nhc watches, h1)
      else reconcile_nodes (length nodes) classes requeue nhc watches h1

  -- Reconcile of an enabled NodeHealthCheck.
  unfoldable pub reconcile_enabled : NodeHealthCheck → List String → History → Outcome × History
  unfolding reconcile_selected get_nodes
  reconcile_enabled nhc watches h =
      let ((error, watches'), h1) = add_watches_nhc o.environment nhc watches h in
      elim error [
        | some e ↦ (breaks e (pos 0) nhc watches', h1)
        | none ↦
            let (selected, h2) = get_nodes o.environment nhc.spec.selector h1 in
            elim selected [
              | failed e ↦ (breaks e (pos 0) nhc watches', h2)
              | ok nodes ↦ reconcile_selected nodes nhc watches' h2
            ]
      ]

  abbrev pub requeue_for_template : String → ℤ
  requeue_for_template reason =
      if reason == condition_reason_disabled_template_not_found
      then template_not_found_requeue_after
      else pos 0

  -- Reconcile up to its end, where the status is patched.
  unfoldable pub reconcile_checked : NodeHealthCheck → List String → History → Outcome × History
  unfolding reconcile_enabled
  reconcile_checked nhc watches h =
      if need_disable_nhc o
      then (
        stops (pos 0)
            (disable condition_reason_disabled_mhc
              "Custom MachineHealthCheck(s) detected, disabling NodeHealthCheck to avoid conflicts"
              (reset nhc))
            watches,
        h,
      )
      else let (validity, h1) =
          validate_templates o.environment (get_all_remediation_templates nhc) h in
        elim validity [
          | unknown e ↦ (breaks e (pos 0) (reset nhc) watches, h1)
          | invalid reason e ↦ (
            stops (requeue_for_template reason)
                (disable reason (o.validity_message reason e) (reset nhc)) watches,
            h1,
          )
          | valid ↦ reconcile_enabled (enable (reset nhc)) watches h1
        ]

  abbrev pub aggregate : Option Error → List Error → List Error
  aggregate none errors = errors
  aggregate (some e) errors = e ∷ errors

  -- The deferred patch of the status.
  unfoldable pub finish : NodeHealthCheck → Outcome × History → Outcome × History
  unfolding with_phase send_status
  finish orig (outcome, h) =
      let nhc = with_phase o.meta outcome.nhc in
      let (error, h') = send_status o.environment now nhc orig h in
      (record outcome { errors = aggregate error outcome.errors; nhc = nhc }, h')

  -- Reconcile of a NodeHealthCheck that has been got; without a lease manager nothing is done.
  unfoldable pub reconcile_nhc : NodeHealthCheck → List String → History → Outcome × History
  unfolding reconcile_checked finish
  reconcile_nhc nhc watches h = elim (o.environment.new_lease_manager (lease_holder_ident nhc)) [
    | some e ↦ (breaks e (pos 0) nhc watches, h)
    | none ↦ finish nhc (reconcile_checked nhc watches h)
  ]

  -- What Reconcile returns without a NodeHealthCheck: the error, and the watches.
  abbrev pub not_got : Error → Option Error
  not_got e = if is_not_found e then none else some e

  -- Reconcile, for the request with a name.
  unfoldable pub reconcile :
      String → List String → History → ((Option Error × List String) × Option Outcome) × History
  unfolding reconcile_nhc
  reconcile name watches h = elim (o.environment.on_get_nhc h name) [
    | failed e ↦ (((not_got e, watches), none), get_nhc name ∷ h)
    | ok nhc ↦
        let (outcome, h') = reconcile_nhc nhc watches (get_nhc name ∷ h) in
        (((none, outcome.watches), some outcome), h')
  ]
