-- ===== src/Examples/Reconcile.antt =====
-- A Reconcile at concrete environments: worker-0 has not been ready for longer than its duration.
use node_healthcheck_operato.Prelude.{
  pos, true, false, none, some, [], ◌∷◌, head, negsuc, length, In, refl, arith, ◌≡◌, ◌≢◌, ℤ, ◌+ℤ◌,
  ◌-ℤ◌, ◌≤ℤ◌, minute, ap, eq_iff, ◌<ℤ◌,
}
use node_healthcheck_operato.Api.{Node, NodeHealthCheck, ObjectReference}
use node_healthcheck_operato.Remediation.{Unstructured}
use node_healthcheck_operato.Status.Unique.{IsMapByName}
use node_healthcheck_operato.Cluster.{not_found, ok, failed, History, Environment}
use node_healthcheck_operato.Templates.{validate_templates, get_current_template_with_timeout}
use node_healthcheck_operato.Upgrade.{is_cluster_upgrading, check}
use node_healthcheck_operato.Orphans.{delete_orphaned_remediation_crs}
use node_healthcheck_operato.Threshold.{get_min_healthy}
use node_healthcheck_operato.Api.Validation.{validate_min_healthy_max_unhealthy}
use node_healthcheck_operato.Storm.Evaluate.{evaluate_storm_recovery}
use node_healthcheck_operato.Remediate.Run.{remediate, remediate_allowed, remediate_with}
use node_healthcheck_operato.Escalation.{current_remediation, verdict}
use node_healthcheck_operato.Status.{find_status_remediation, update_status_node_unhealthy}
use node_healthcheck_operato.NodeLease.{obtain_node_lease}
use node_healthcheck_operato.Manager.Safe.{IsSafe}
use node_healthcheck_operato.Remediate.Safety.{creations}
use node_healthcheck_operato.Health.{matches_unhealthy_conditions, expiry, check_node_conditions}
use node_healthcheck_operato.Upgrade.Detected.{IsUpgrading}
use node_healthcheck_operato.Watches.{add_watches_nhc, add_watches, key_of}
use node_healthcheck_operato.Watches.Started.{AreStarted, IsStarted, add_watches-IsStarted}
use node_healthcheck_operato.Health.Lasting.{last}
use mathlib.Core.Path.{subst}
use node_healthcheck_operato.Manager.{
  list_remediation_crs, create_remediation_cr, generate_remediation_cr,
  generate_remediation_cr_base,
}
use node_healthcheck_operato.Reconcile.Operator.{Operator, manager_for, reconciler_for}
use node_healthcheck_operato.Reconcile.Alert.{alert_all, alert_old_remediation_cr}
use node_healthcheck_operato.Reconcile.Healthy.{handle_healthy_nodes, pending_deletion}
use node_healthcheck_operato.Reconcile.Unhealthy.{remediate_nodes}
use node_healthcheck_operato.Reconcile.Run.{reconcile_nhc}
use node_healthcheck_operato.Reconcile.Safety.{reconcile-IsSafe}
use node_healthcheck_operato.Reconcile.HeldBack.{facts}
use node_healthcheck_operato.Reconcile.GoesAhead.{GoesAhead, creation-GoesAhead}
use node_healthcheck_operato.Reconcile.Recorded.{reconcile-IsMapByName}
use node_healthcheck_operato.Reconcile.InTime.{
  alert-in_time, two_days, IsFlagged, pending_deletion-never_logged,
}
use node_healthcheck_operato.Reconcile.Upgrading.{harmful, IsCaught, AreCaught, upgrading-stops}
use node_healthcheck_operato.Examples.Data.{
  meta, intstr, reboot, worker, not_ready, cr_from, spec, nhc_with,
}
use node_healthcheck_operato.Examples.Manager.{environment, identity, clock, templates}

abbrev pub empty_environment : Environment
empty_environment = record (environment identity) { on_get_cr = λ h cr. failed not_found }

abbrev pub operator : Operator
operator = record {
  environment = empty_environment;
  has_machine_api = false;
  is_on_openshift = true;
  checker = none;
  clock = clock;
  meta = meta;
  intstr = intstr;
  validity_message = λ reason e. reason;
}

abbrev nhc : NodeHealthCheck
nhc = record (nhc_with [] []) { spec = record spec { escalating_remediations = reboot ∷ [] } }

abbrev now : ℤ
now = pos 400000000000

reconcile-IsSafe_example :
    IsSafe (manager_for operator nhc) (reconcile_nhc operator now nhc [] []).1
reconcile-IsSafe_example = reconcile-IsSafe operator now nhc [] [] tt

one_created : length (creations (reconcile_nhc operator now nhc [] []).1) ≡ 1
unfolding reconcile_nhc validate_templates add_watches_nhc is_cluster_upgrading check
    check_node_conditions matches_unhealthy_conditions expiry ◌+ℤ◌ ◌-ℤ◌
    delete_orphaned_remediation_crs list_remediation_crs handle_healthy_nodes get_min_healthy
    validate_min_healthy_max_unhealthy evaluate_storm_recovery remediate_nodes remediate
    remediate_allowed remediate_with create_remediation_cr current_remediation
    get_current_template_with_timeout verdict find_status_remediation update_status_node_unhealthy
    generate_remediation_cr obtain_node_lease alert_all
one_created = refl

a_creation : creations (reconcile_nhc operator now nhc [] []).1 ≢ creations []
a_creation e = ground (arith, ap length e, one_created)

creation-GoesAhead_example :
    GoesAhead operator nhc.spec (facts (reconcile_nhc operator now nhc [] []).0.nhc.status)
creation-GoesAhead_example = creation-GoesAhead operator now nhc [] [] a_creation

reconcile-IsMapByName_example :
    IsMapByName (reconcile_nhc operator now nhc [] []).0.nhc.status.unhealthy_nodes
reconcile-IsMapByName_example = reconcile-IsMapByName operator now nhc [] [] tt

recorded_example_run :
    (remediate_nodes (reconciler_for operator nhc) now true (worker ∷ []) (pos 0) nhc []).0.error
    ≡ none
unfolding remediate_nodes
recorded_example_run = refl

abbrev cr : Unstructured
cr = cr_from "reboot"

alert-in_time_example :
    (wish : ℤ) × (alert_old_remediation_cr (environment identity) now cr []
      ≡ ((false, some wish), []))
    × (now +ℤ wish ≡ cr.creation_timestamp +ℤ two_days +ℤ minute)
    × (flags : IsFlagged cr []
        (alert_old_remediation_cr (environment identity) (now +ℤ wish) cr []).1)
    × ((t : ℤ) (h' : History)
        → now +ℤ wish ≤ℤ t
        → (alert_old_remediation_cr (environment identity) t flags.stored h').1 ≡ h')
unfolding ◌+ℤ◌
alert-in_time_example = alert-in_time (environment identity) now cr [] (omega arith) refl

-- Another one, which is old and flagged.
abbrev flagged_cr : Unstructured
flagged_cr = record cr {
  annotations = ("nodehealthcheck.medik8s.io/old-remediation-cr-flag", "flagon") ∷ [];
  creation_timestamp = negsuc 172800000000000;
}

pending_deletion-never_logged_example :
    let r = pending_deletion (some now) (cr ∷ []) (pos 0) in (r.0 ≡ false) × (pos 0 <ℤ r.1)
pending_deletion-never_logged_example =
    pending_deletion-never_logged now cr [] (pos 0) (tt, tt) (omega arith)

-- A node that is to get another machine config.
abbrev updating : Node
updating = record worker {
  annotations =
      ("machineconfiguration.openshift.io/currentConfig", "worker-1")
      ∷ ("machineconfiguration.openshift.io/desiredConfig", "worker-2")
      ∷ [];
}

updating-IsUpgrading : IsUpgrading updating
updating-IsUpgrading = record {
  desires = λ e. ground (arith, eq_iff "worker-2" "");
  differs = λ e. ground (arith, eq_iff "worker-1" "worker-2");
}

abbrev updating_operator : Operator
updating_operator = record operator {
  environment = record empty_environment { on_list_nodes = λ h selector. ok (updating ∷ []) };
}

updating-IsCaught : IsCaught updating_operator now nhc.spec.unhealthy_conditions updating
unfolding ◌+ℤ◌
updating-IsCaught = record {
  condition = not_ready;
  configured = head refl;
  has_lasted = record {
    condition = record { type = "Ready"; status = "False"; last_transition_time = pos 0 };
    latest = last refl tt;
    in_status = refl;
    too_long = omega arith;
  };
  is_ours = refl;
  is_upgrading = updating-IsUpgrading;
}

updating-AreCaught : AreCaught updating_operator now nhc.spec
updating-AreCaught h nodes e =
    (updating, subst (In updating) (listed e) (head refl), updating-IsCaught)
  where
    listed : ok (updating ∷ []) ≡ ok nodes → updating ∷ [] ≡ nodes
    listed p = cc

upgrading-stops_example : harmful (reconcile_nhc updating_operator now nhc [] []).1 ≡ []
upgrading-stops_example = upgrading-stops updating_operator now nhc [] [] refl updating-AreCaught

nothing-AreStarted : AreStarted (environment identity) [] []
nothing-AreStarted key e = cc

add_watches-IsStarted_example :
    let r = add_watches (environment identity) templates [] [] in
    AreStarted (environment identity) r.0.1 r.1
    × ((ref : ObjectReference)
        → r.0.0 ≡ none
        → In ref templates
        → IsStarted (environment identity) (key_of ref.gvk) r.1
          × IsStarted (environment identity) (key_of (generate_remediation_cr_base ref.gvk)) r.1)
add_watches-IsStarted_example =
    add_watches-IsStarted (environment identity) templates [] [] nothing-AreStarted
