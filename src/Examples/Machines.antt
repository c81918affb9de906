-- ===== src/Examples/Machines.antt =====
-- MachineHealthChecks at concrete environments, with a machine that is starting and one whose node is not
-- ready for longer than its timeout.
use node_healthcheck_operato.Prelude.{
  ◌≢◌, ℤ, pos, ◌+ℤ◌, ◌≤ℤ◌, ◌<ℤ◌, ◌-ℤ◌, true, false, none, some, List, [], ◌∷◌, head, length, filter,
  is_empty, ◌≡◌, ◌≢◌, ◌↔◌, refl, ap, arith, String,
}
use node_healthcheck_operato.MachineApi.{MachineCondition, Machine, MachineHealthCheck}
use node_healthcheck_operato.Cluster.{panicked, ok}
use node_healthcheck_operato.Remediate.Safety.{creations}
use node_healthcheck_operato.Remediation.{Unstructured}
use node_healthcheck_operato.NodeLease.{obtain_node_lease}
use node_healthcheck_operato.Watches.{add_watches_mhc}
use node_healthcheck_operato.Health.{is_healthy, expiry}
use node_healthcheck_operato.Templates.{get_template_with_fallback_namespace}
use node_healthcheck_operato.Machines.Targets.{get_mhc_targets}
use node_healthcheck_operato.Escalation.{default_remediation_duration}
use node_healthcheck_operato.Manager.{create_remediation_cr, generate_remediation_cr, Manager}
use node_healthcheck_operato.Machines.Health.{
  Target, no_node_ref, existing, needs_remediation, check_health,
}
use node_healthcheck_operato.Machines.Verdicts.{
  is_unhealthy, is_fine, check_health-classes, startup-in_time,
}
use node_healthcheck_operato.Machines.Limit.{
  get_max_unhealthy, is_remediations_allowed, get_nr_remediations_allowed,
}
use node_healthcheck_operato.Machines.Bounds.{remediations_allowed_iff}
use node_healthcheck_operato.Machines.Conditions.{set_machine_condition}
use node_healthcheck_operato.Machines.Stated.{
  AreUnique, IsCurrent, first_with, set_machine_condition_unique,
}
use node_healthcheck_operato.Machines.Remediate.{
  get_template_of, generate_remediation_cr_for_machine, remediate_all,
}
use node_healthcheck_operato.Machines.Run.{reconcile_mhc, reconcile_targets}
use node_healthcheck_operato.Machines.Outcome.{
  MachineOperator, mhc_manager_for, remediation_allowed,
}
use node_healthcheck_operato.Machines.Held.{IsLetThrough, creation-IsLetThrough}
use node_healthcheck_operato.Machines.Panics.{unstarted-blocks}
use node_healthcheck_operato.Machines.Unfinished.{remediate_all-unfinished}
use node_healthcheck_operato.Machines.Safety.{IsMachineSafe}
use node_healthcheck_operato.Machines.Allowed.{reconcile_mhc-IsMachineSafe}
use node_healthcheck_operato.Examples.Data.{worker, not_ready, template_ref, mhc_with}
use node_healthcheck_operato.Examples.Manager.{clock, template_of}
use node_healthcheck_operato.Examples.Reconcile.{empty_environment}

abbrev machine : Machine
machine = record {
  name = "machine-0";
  namespace = "openshift-machine-api";
  uid = "9";
  labels = [];
  phase = none;
  node_ref = some "worker-0";
  last_updated = some (pos 0);
  deletion_timestamp = none;
}

abbrev mhc : MachineHealthCheck
mhc = mhc_with (not_ready ∷ []) (some (template_ref "SelfNodeRemediationTemplate" "reboot"))

abbrev now : ℤ
now = pos 400000000000

abbrev unready : Target
unready = record { machine = machine; node = existing worker; mhc = mhc }

abbrev starting : Target
starting = record { machine = record machine { node_ref = none }; node = no_node_ref; mhc = mhc }

abbrev targets : List Target
targets = unready ∷ starting ∷ []

check_health-classes_example :
    ((check_health now targets).need_remediation ≡ filter (is_unhealthy now) targets)
    × ((check_health now targets).healthy ≡ filter (is_fine now) targets)
check_health-classes_example = check_health-classes now targets

startup-in_time_example :
    ((needs_remediation now starting).0 ≡ false)
    × (pos 0 <ℤ (needs_remediation now starting).1)
    × ((needs_remediation (now +ℤ (needs_remediation now starting).1) starting).0 ≡ true)
unfolding ◌+ℤ◌
startup-in_time_example = startup-in_time now starting (pos 0) refl refl refl refl (omega arith)

remediations_allowed_iff_example :
    (is_remediations_allowed (pos 2) (pos 3) ≡ true ↔ pos 2 ≤ℤ pos 3)
    × (pos 2 ≤ℤ pos 3 → get_nr_remediations_allowed (pos 2) (pos 3) ≡ pos 3 -ℤ pos 2)
    × (pos 3 <ℤ pos 2 → get_nr_remediations_allowed (pos 2) (pos 3) ≡ pos 0)
remediations_allowed_iff_example = remediations_allowed_iff (pos 2) (pos 3)

abbrev stated : List MachineCondition
stated = record remediation_allowed { type = "Available" } ∷ []

stated-AreUnique : AreUnique stated
stated-AreUnique type = ground arith

set_machine_condition_unique_example :
    let result = set_machine_condition now remediation_allowed stated in
    AreUnique result
    × IsCurrent now remediation_allowed
        (first_with "RemediationAllowed" stated)
        (first_with "RemediationAllowed" result)
    × ((type : String)
        → type ≢ "RemediationAllowed"
        → first_with type result ≡ first_with type stated)
set_machine_condition_unique_example =
    set_machine_condition_unique now remediation_allowed stated stated-AreUnique

abbrev machine_operator : MachineOperator
machine_operator = record {
  environment = record empty_environment {
    on_list_machines = λ h selector namespace. ok (machine ∷ []);
  };
  checker = none;
  is_mao_mhc_disabled = true;
  clock = clock;
  skip_message = λ total unhealthy max. "skipped";
}

one_created : length (creations (reconcile_mhc machine_operator now mhc [] []).1) ≡ 1
unfolding reconcile_mhc add_watches_mhc get_mhc_targets check_health is_healthy expiry ◌+ℤ◌
    get_max_unhealthy is_remediations_allowed ◌-ℤ◌ remediate_all
    get_template_with_fallback_namespace create_remediation_cr generate_remediation_cr
    obtain_node_lease
one_created = refl

a_creation : creations (reconcile_mhc machine_operator now mhc [] []).1 ≢ creations []
a_creation e = ground (arith, ap length e, one_created)

creation-IsLetThrough_example : IsLetThrough (reconcile_mhc machine_operator now mhc [] []).0.mhc
creation-IsLetThrough_example = creation-IsLetThrough machine_operator now mhc [] [] a_creation

-- A machine without a node, and no timeout for the start of nodes.
abbrev unlimited : MachineHealthCheck
unlimited = record mhc { spec = record mhc.spec { node_startup_timeout = some (pos 0) } }

abbrev unstarted : Target
unstarted = record starting { mhc = unlimited }

unstarted-blocks_example :
    (is_empty (reconcile_targets machine_operator now (unstarted ∷ []) unlimited [] []).0.errors
      ≡ false)
    × (creations (reconcile_targets machine_operator now (unstarted ∷ []) unlimited [] []).1
        ≡ creations [])
unstarted-blocks_example =
    unstarted-blocks machine_operator now (unstarted ∷ []) unlimited [] [] unstarted (head refl)
      refl refl refl

abbrev template : Unstructured
template = template_of (template_ref "SelfNodeRemediationTemplate" "reboot")

abbrev mhc_manager : Manager
mhc_manager = mhc_manager_for machine_operator mhc

template_got : (get_template_of mhc_manager.environment mhc []).0 ≡ ok template
unfolding get_template_of get_template_with_fallback_namespace
template_got = refl

unnamed_created :
    (create_remediation_cr mhc_manager now
      (generate_remediation_cr_for_machine now mhc_manager.owner starting.machine template "")
      none
      default_remediation_duration
      (pos 0)
      (get_template_of mhc_manager.environment mhc []).1).0.created
    ≡ true
unfolding create_remediation_cr generate_remediation_cr_for_machine generate_remediation_cr
unnamed_created = refl

remediate_all-unfinished_example : remediate_all mhc_manager now (starting ∷ unready ∷ []) [] ≡ (
  panicked ∷ [],
  (create_remediation_cr mhc_manager now
      (generate_remediation_cr_for_machine now mhc_manager.owner starting.machine template "")
      none
      default_remediation_duration
      (pos 0)
      (get_template_of mhc_manager.environment mhc []).1).1,
)
remediate_all-unfinished_example =
    remediate_all-unfinished mhc_manager now starting (unready ∷ []) template [] refl refl
      template_got unnamed_created

reconcile_mhc-IsMachineSafe_example :
    IsMachineSafe
      (mhc_manager_for machine_operator mhc)
      (reconcile_mhc machine_operator now mhc [] []).1
reconcile_mhc-IsMachineSafe_example = reconcile_mhc-IsMachineSafe machine_operator now mhc [] [] tt
