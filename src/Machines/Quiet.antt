-- ===== src/Machines/Quiet.antt =====
-- The steps of a MachineHealthCheck's Reconcile that create no CR: whatever is true of a history and stays
-- true after calls that create nothing is true after these steps.
use node_healthcheck_operato.Prelude.{
  ℕ, ℤ, String, Bool, true, false, List, [], ◌∷◌, refl, Option-cases, inl, inr, is_empty,
  if◌then◌else◌, ◌+◌,
}
use node_healthcheck_operato.MachineApi.{MachineHealthCheck, Machine}
use node_healthcheck_operato.Cluster.{
  History, Answer-cases, get_node, list_machines, patch_mhc_status,
}
use node_healthcheck_operato.Watches.{reference_list, add_watches_mhc}
use node_healthcheck_operato.Reconcile.Quiet.{IsKept, watches-kept}
use node_healthcheck_operato.Reconcile.Deleting.{IsKeptByOthers, handle_healthy_node-kept}
use node_healthcheck_operato.Manager.Healthy.{handle_healthy_node}
use node_healthcheck_operato.Machines.Health.{Target}
use node_healthcheck_operato.Machines.Targets.{
  get_machines, get_node_from_machine, targets_of, get_mhc_targets,
}
use node_healthcheck_operato.Machines.Run.{handle_healthy_targets, patch_mhc}
use node_healthcheck_operato.Machines.Outcome.{MachineOperator, mhc_manager_for, healthy_node_name}

module _ (P : History → Type 0) (keep : IsKept P) (o : MachineOperator) (now : ℤ) where
  node-kept :
      (machine : Machine) (h : History) → P h → P (get_node_from_machine o.environment machine h).1
  unfolding get_node_from_machine
  node-kept machine h p = elim (Option-cases machine.node_ref) [
    | inl bare ↦ rw (bare, get_node_from_machine) p
    | inr (name, has) ↦ rw (has, get_node_from_machine) (keep (get_node name) h refl p)
  ]

  targets_of-kept :
      (mhc : MachineHealthCheck) (machines : List Machine) (h : History)
      → P h
      → P (targets_of o.environment mhc machines h).1
  unfolding targets_of
  targets_of-kept mhc [] h p = p
  targets_of-kept mhc (machine ∷ machines) h p =
      let node = get_node_from_machine o.environment machine h in
      let p1 = node-kept machine h p in
      elim (Answer-cases node.0) [
        | inl (e, broken) ↦ rw (broken, targets_of) p1
        | inr (n, got) ↦ rw (got, targets_of) (targets_of-kept mhc machines node.1 p1)
      ]

  machines-kept :
      (mhc : MachineHealthCheck) (h : History) → P h → P (get_machines o.environment mhc h).1
  unfolding get_machines
  machines-kept mhc h p = elim (Option-cases (o.environment.selector_error mhc.spec.selector)) [
    | inr (e, broken) ↦ rw (broken, get_machines) p
    | inl fine ↦
        rw (fine, get_machines) (keep (list_machines mhc.spec.selector mhc.namespace) h refl p)
  ]

  pub targets-kept :
      (mhc : MachineHealthCheck) (h : History) → P h → P (get_mhc_targets o.environment mhc h).1
  unfolding get_mhc_targets
  targets-kept mhc h p =
      let listing = get_machines o.environment mhc h in
      let p1 = machines-kept mhc h p in
      elim (Answer-cases listing.0) [
        | inl (e, broken) ↦ rw (broken, get_mhc_targets) p1
        | inr (machines, listed) ↦
            rw (listed, get_mhc_targets) (targets_of-kept mhc machines listing.1 p1)
      ]

  pub add_watches_mhc-kept :
      (mhc : MachineHealthCheck) (watches : List String) (h : History)
      → P h
      → P (add_watches_mhc o.environment mhc watches h).1
  unfolding add_watches_mhc
  add_watches_mhc-kept mhc watches h p =
      watches-kept P keep o.environment (reference_list mhc.spec.remediation_template) watches h p

  pub patch_mhc-kept :
      (mhc orig : MachineHealthCheck) (h : History) → P h → P (patch_mhc o now mhc orig h).1
  unfolding patch_mhc
  patch_mhc-kept mhc orig h p = elim (Answer-cases (o.environment.mhc_merge_is_empty mhc orig)) [
    | inl (e, broken) ↦ rw (broken, patch_mhc) p
    | inr (true, same) ↦ rw (same, patch_mhc) p
    | inr (false, changed) ↦ rw (changed, patch_mhc) (keep (patch_mhc_status mhc) h refl p)
  ]

module _ (P : History → Type 0) (keep : IsKeptByOthers P) (o : MachineOperator) (now : ℤ) where
  pub healthy_targets-kept :
      (mhc : MachineHealthCheck) (ts : List Target) (requeue : Bool) (count : ℕ) (h : History)
      → P h
      → P (handle_healthy_targets o now mhc ts requeue count h).1
  unfolding handle_healthy_targets
  healthy_targets-kept mhc [] requeue count h p = p
  healthy_targets-kept mhc (t ∷ ts) requeue count h p =
      elim (Option-cases (healthy_node_name t.node)) [
        | inl bare ↦ rw (bare, handle_healthy_targets) p
        | inr (name, has) ↦
            let m = mhc_manager_for o mhc in
            let templates = reference_list mhc.spec.remediation_template in
            let step = handle_healthy_node m o.clock now templates [] name t.machine.name h in
            let p1 =
              handle_healthy_node-kept P keep m o.clock now templates [] name t.machine.name h p in
            elim (Option-cases step.0.error) [
              | inr (e, broken) ↦ rw (has, handle_healthy_targets) (rw broken p1)
              | inl fine ↦
                  rw (has, handle_healthy_targets)
                    (rw fine (
                      healthy_targets-kept mhc ts (if is_empty step.0.crs then requeue else true)
                        (count + 1) step.1 p1))
            ]
      ]
