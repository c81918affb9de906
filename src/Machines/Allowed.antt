-- ===== src/Machines/Allowed.antt =====
-- Every call of a MachineHealthCheck's Reconcile is allowed.
use node_healthcheck_operato.Prelude.{
  ℤ, pos, String, Bool, true, false, List, [], ◌∷◌, is_some, not, is_empty, ltb_ℤ, has_key,
  str_append, ◌≡◌, refl, Bool-cases, Option-cases, inl, inr, length, if◌then◌else◌, ◌+◌, ◌-ℤ◌, ℕ,
  sym,
}
use mathlib.Core.Path.{subst}
use node_healthcheck_operato.MachineApi.{MachineHealthCheck}
use node_healthcheck_operato.Cluster.{History, Answer-cases}
use node_healthcheck_operato.Manager.{Manager}
use node_healthcheck_operato.Manager.Safe.{IsSafe}
use node_healthcheck_operato.Manager.Healthy.{handle_healthy_node}
use node_healthcheck_operato.Manager.Healthy.Keeps.{handle_healthy_node-IsSafe}
use node_healthcheck_operato.Reconcile.Loops.{IsSafe-kept}
use node_healthcheck_operato.Watches.{reference_list, add_watches_mhc}
use node_healthcheck_operato.Machines.Health.{Target, CheckedHealth, check_health}
use node_healthcheck_operato.Machines.Targets.{get_mhc_targets}
use node_healthcheck_operato.Machines.Limit.{
  get_max_unhealthy, get_nr_remediations_allowed, is_remediations_allowed, to_int32,
}
use node_healthcheck_operato.Machines.Remediate.{remediate_all}
use node_healthcheck_operato.Machines.Quiet.{targets-kept, add_watches_mhc-kept, patch_mhc-kept}
use node_healthcheck_operato.Machines.Safety.{
  IsMachineSafe, safe-IsMachineSafe, IsMachineSafe-kept, remediate_all-IsMachineSafe,
}
use node_healthcheck_operato.Machines.Run.{
  handle_healthy_targets, remediate_targets, reconcile_limit, reconcile_targets,
  reconcile_supported, reconcile_machines, reconcile_mhc,
}
use node_healthcheck_operato.Machines.Outcome.{
  MachineOperator, mhc_manager_for, mhc_paused_annotation, healthy_node_name, with_targets,
  with_allowed,
}

module _ (o : MachineOperator) (now : ℤ) (mhc : MachineHealthCheck) where
  healthy_targets-IsSafe :
      (ts : List Target) (requeue : Bool) (count : ℕ) (h : History)
      → IsSafe (mhc_manager_for o mhc) h
      → IsSafe (mhc_manager_for o mhc) (handle_healthy_targets o now mhc ts requeue count h).1
  unfolding handle_healthy_targets
  healthy_targets-IsSafe [] requeue count h s = s
  healthy_targets-IsSafe (t ∷ ts) requeue count h s =
      elim (Option-cases (healthy_node_name t.node)) [
        | inl bare ↦ rw (bare, handle_healthy_targets) s
        | inr (name, has) ↦
            let m = mhc_manager_for o mhc in
            let templates = reference_list mhc.spec.remediation_template in
            let step = handle_healthy_node m o.clock now templates [] name t.machine.name h in
            let s1 =
              handle_healthy_node-IsSafe m o.clock now templates [] name t.machine.name h s in
            elim (Option-cases step.0.error) [
              | inr (e, broken) ↦ rw (has, handle_healthy_targets) (rw broken s1)
              | inl fine ↦
                  rw (has, handle_healthy_targets)
                    (rw fine (
                      healthy_targets-IsSafe ts (if is_empty step.0.crs then requeue else true)
                        (count + 1) step.1 s1))
            ]
      ]

  -- The manager is that of `mhc`, whatever has become of its status.
  remediate_targets-IsMachineSafe :
      (targets : List Target) (requeue : Bool) (requeue_in : ℤ) (mhc' : MachineHealthCheck)
      (watches : List String) (h : History)
      → mhc_manager_for o mhc' ≡ mhc_manager_for o mhc
      → IsMachineSafe (mhc_manager_for o mhc) h
      → IsMachineSafe
          (mhc_manager_for o mhc)
          (remediate_targets o now targets requeue requeue_in mhc' watches h).1
  unfolding remediate_targets
  remediate_targets-IsMachineSafe targets requeue requeue_in mhc' watches h same s =
      let m = mhc_manager_for o mhc in
      let done = remediate_all (mhc_manager_for o mhc') now targets h in
      let s1 : IsMachineSafe m done.1 =
        subst (λ (n : Manager). IsMachineSafe m (remediate_all n now targets h).1) (sym same)
          (remediate_all-IsMachineSafe m now targets h s) in
      elim (Bool-cases (not (is_empty done.0))) [
        | inl broken ↦ rw (broken, remediate_targets) s1
        | inr fine ↦ elim (Bool-cases (ltb_ℤ (pos 0) requeue_in)) [
          | inl soon ↦ rw (fine, remediate_targets) (rw soon s1)
          | inr never ↦ rw (fine, remediate_targets) (rw never s1)
        ]
      ]

  limit-IsMachineSafe :
      (total healthy : ℕ) (checked : CheckedHealth) (requeue : Bool) (watches : List String)
      (h : History)
      → IsMachineSafe (mhc_manager_for o mhc) h
      → IsMachineSafe
          (mhc_manager_for o mhc)
          (reconcile_limit o now total healthy checked requeue mhc watches h).1
  unfolding reconcile_limit
  limit-IsMachineSafe total healthy checked requeue watches h s =
      let mhc1 = with_targets healthy total mhc in
      let unhealthy = pos total -ℤ pos healthy in
      elim (Option-cases (get_max_unhealthy mhc1)) [
        | inl unknown ↦ rw (unknown, reconcile_limit) s
        | inr (max, known) ↦
            let mhc2 = with_allowed (to_int32 (get_nr_remediations_allowed unhealthy max)) mhc1 in
            elim (Bool-cases (is_remediations_allowed unhealthy max)) [
              | inr too_many ↦ rw (known, reconcile_limit) (rw too_many s)
              | inl few ↦
                  rw (known, reconcile_limit)
                    (rw few (
                      remediate_targets-IsMachineSafe checked.need_remediation requeue
                        checked.requeue_in mhc2 watches h refl s))
            ]
      ]

  targets-IsMachineSafe :
      (ts : List Target) (watches : List String) (h : History)
      → IsSafe (mhc_manager_for o mhc) h
      → IsMachineSafe (mhc_manager_for o mhc) (reconcile_targets o now ts mhc watches h).1
  unfolding reconcile_targets
  targets-IsMachineSafe ts watches h s =
      let m = mhc_manager_for o mhc in
      let checked = check_health now ts in
      let done = handle_healthy_targets o now mhc checked.healthy false 0 h in
      let s1 = safe-IsMachineSafe m done.1 (healthy_targets-IsSafe checked.healthy false 0 h s) in
      elim (Option-cases done.0.error) [
        | inr (e, broken) ↦ rw (broken, reconcile_targets) s1
        | inl fine ↦
            rw (fine, reconcile_targets)
              (limit-IsMachineSafe (length ts) done.0.healthy_count checked done.0.requeue watches
                done.1 s1)
      ]

  supported-IsMachineSafe :
      (watches : List String) (h : History)
      → IsSafe (mhc_manager_for o mhc) h
      → IsMachineSafe (mhc_manager_for o mhc) (reconcile_supported o now mhc watches h).1
  unfolding reconcile_supported
  supported-IsMachineSafe watches h s =
      let m = mhc_manager_for o mhc in
      let first = add_watches_mhc o.environment mhc watches h in
      let s1 = add_watches_mhc-kept (IsSafe m) (IsSafe-kept m) o now mhc watches h s in
      let targets = get_mhc_targets o.environment mhc first.1 in
      let s2 = targets-kept (IsSafe m) (IsSafe-kept m) o now mhc first.1 s1 in
      elim (Option-cases first.0.0) [
        | inr (e, broken) ↦ rw (broken, reconcile_supported) (safe-IsMachineSafe m first.1 s1)
        | inl fine ↦ elim (Answer-cases targets.0) [
          | inl (e, lost) ↦
              rw (fine, reconcile_supported) (rw lost (safe-IsMachineSafe m targets.1 s2))
          | inr (ts, got) ↦
              rw (fine, reconcile_supported)
                (rw got (targets-IsMachineSafe ts first.0.1 targets.1 s2))
        ]
      ]

  machines-IsMachineSafe :
      (watches : List String) (h : History)
      → IsSafe (mhc_manager_for o mhc) h
      → IsMachineSafe (mhc_manager_for o mhc) (reconcile_machines o now mhc watches h).1
  unfolding reconcile_machines
  machines-IsMachineSafe watches h s =
      let w = safe-IsMachineSafe (mhc_manager_for o mhc) h s in
      elim (Bool-cases (has_key mhc_paused_annotation mhc.annotations)) [
        | inl paused ↦ rw (paused, reconcile_machines) w
        | inr active ↦ elim (Bool-cases (not (is_some mhc.spec.remediation_template))) [
          | inl unset ↦ rw (active, reconcile_machines) (rw unset w)
          | inr set ↦ rw (active, reconcile_machines) (rw set (supported-IsMachineSafe watches h s))
        ]
      ]

  -- After allowed calls, every call of a MachineHealthCheck's Reconcile is allowed: a CR is created only
  -- directly after none has been found and, if the CR has the name of a node, the node's lease has been
  -- granted; and a CR is deleted only if it has just been returned, owned by the MachineHealthCheck and
  -- not yet being deleted.
  pub reconcile_mhc-IsMachineSafe :
      (watches : List String) (h : History)
      → IsSafe (mhc_manager_for o mhc) h
      → IsMachineSafe (mhc_manager_for o mhc) (reconcile_mhc o now mhc watches h).1
  unfolding reconcile_mhc
  reconcile_mhc-IsMachineSafe watches h s =
      let m = mhc_manager_for o mhc in
      let run = reconcile_machines o now mhc watches h in
      elim (Option-cases
        (o.environment.new_lease_manager (str_append "MachineHealthCheck-" mhc.name))) [
          | inr (e, broken) ↦ rw (broken, reconcile_mhc) (safe-IsMachineSafe m h s)
          | inl fine ↦
              rw (fine, reconcile_mhc)
                (patch_mhc-kept (IsMachineSafe m) (IsMachineSafe-kept m) o now run.0.mhc mhc run.1
                  (machines-IsMachineSafe watches h s))
        ]
