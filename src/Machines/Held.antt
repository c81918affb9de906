-- ===== src/Machines/Held.antt =====
-- A MachineHealthCheck that creates a CR has been let through by its limit.
use mathlib.Core.Path.{subst}
use node_healthcheck_operato.Prelude.{
  ℕ, ℤ, pos, ◌≤ℤ◌, ◌-ℤ◌, String, Bool, false, Option, some, none, List, ◌≡◌, ◌≢◌, ◌⊎◌, refl, sym,
  ap, Bool-cases, Option-cases, inl, inr, has_key, is_empty, is_some, ltb_ℤ, length, not,
  str_append,
}
use node_healthcheck_operato.MachineApi.{MachineHealthCheck}
use node_healthcheck_operato.Cluster.{Error, History, Answer-cases}
use node_healthcheck_operato.Remediate.Safety.{creations}
use node_healthcheck_operato.Watches.{add_watches_mhc}
use node_healthcheck_operato.Reconcile.Deleting.{IsKeptByOthers, harmless-kept}
use node_healthcheck_operato.Reconcile.Unheld.{NothingNew}
use node_healthcheck_operato.Machines.Health.{Target, CheckedHealth, check_health}
use node_healthcheck_operato.Machines.Targets.{get_mhc_targets}
use node_healthcheck_operato.Machines.Limit.{
  get_max_unhealthy, is_remediations_allowed, get_nr_remediations_allowed, to_int32,
}
use node_healthcheck_operato.Machines.Bounds.{remediations_allowed_iff}
use node_healthcheck_operato.Machines.Remediate.{remediate_all}
use node_healthcheck_operato.Machines.Quiet.{
  targets-kept, healthy_targets-kept, add_watches_mhc-kept, patch_mhc-kept,
}
use node_healthcheck_operato.Machines.Run.{
  handle_healthy_targets, remediate_targets, reconcile_limit, reconcile_targets,
  reconcile_supported, reconcile_machines, patch_mhc, with_patch_error, reconcile_mhc,
}
use node_healthcheck_operato.Machines.Outcome.{
  MachineOperator, MhcOutcome, mhc_manager_for, mhc_paused_annotation, with_targets, with_allowed,
  with_condition, remediation_allowed,
}

-- What the status says after a Reconcile that has created a CR.
pub record IsLetThrough (mhc : MachineHealthCheck) : Type 0 where
  pub total : ℕ
  pub healthy : ℕ
  pub max : ℤ
  pub expects : mhc.status.expected_machines ≡ some total
  pub counts : mhc.status.current_healthy ≡ some healthy
  pub known : get_max_unhealthy mhc ≡ some max
  pub few : pos total -ℤ pos healthy ≤ℤ max
  pub still_allowed : mhc.status.remediations_allowed ≡ to_int32 (max -ℤ (pos total -ℤ pos healthy))

pub keeps-NothingNew : (h : History) → IsKeptByOthers (NothingNew h)
keeps-NothingNew h c h' e p = rw e p

module _ (o : MachineOperator) (now : ℤ) where
  -- remediate_targets changes the condition only.
  remediate_targets-mhc :
      (targets : List Target) (requeue : Bool) (requeue_in : ℤ) (mhc : MachineHealthCheck)
      (watches : List String) (h : History)
      → (remediate_targets o now targets requeue requeue_in mhc watches h).0.mhc
        ≡ with_condition now remediation_allowed mhc
  unfolding remediate_targets
  remediate_targets-mhc targets requeue requeue_in mhc watches h =
      let done = remediate_all (mhc_manager_for o mhc) now targets h in
      elim (Bool-cases (not (is_empty done.0))) [
        | inl broken ↦ rw (broken, remediate_targets) refl
        | inr fine ↦ elim (Bool-cases (ltb_ℤ (pos 0) requeue_in)) [
          | inl soon ↦ rw (fine, remediate_targets) (rw soon refl)
          | inr never ↦ rw (fine, remediate_targets) (rw never refl)
        ]
      ]

  limit-creates :
      (total healthy : ℕ) (checked : CheckedHealth) (requeue : Bool) (mhc : MachineHealthCheck)
      (watches : List String) (h0 h : History)
      → NothingNew h0 h
      → let run = reconcile_limit o now total healthy checked requeue mhc watches h in
        NothingNew h0 run.1 ⊎ IsLetThrough run.0.mhc
  unfolding reconcile_limit get_max_unhealthy
  limit-creates total healthy checked requeue mhc watches h0 h n =
      let mhc1 = with_targets healthy total mhc in
      let unhealthy = pos total -ℤ pos healthy in
      elim (Option-cases (get_max_unhealthy mhc1)) [
        | inl unknown ↦ rw (unknown, reconcile_limit) (inl n)
        | inr (max, known) ↦
            let mhc2 = with_allowed (to_int32 (get_nr_remediations_allowed unhealthy max)) mhc1 in
            let rules = remediations_allowed_iff unhealthy max in
            elim (Bool-cases (is_remediations_allowed unhealthy max)) [
              | inr too_many ↦ rw (known, reconcile_limit) (rw too_many (inl n))
              | inl few ↦
                  let le = rules.0.0 few in
                  rw (known, reconcile_limit)
                    (rw few (
                      inr (
                        subst IsLetThrough
                          (sym (
                            remediate_targets-mhc checked.need_remediation requeue
                              checked.requeue_in mhc2 watches h))
                          (record {
                            total = total;
                            healthy = healthy;
                            max = max;
                            expects = refl;
                            counts = refl;
                            known = known;
                            few = le;
                            still_allowed = ap to_int32 (rules.1 le);
                          }))))
            ]
      ]

  targets-creates :
      (targets : List Target) (mhc : MachineHealthCheck) (watches : List String) (h0 h : History)
      → NothingNew h0 h
      → let run = reconcile_targets o now targets mhc watches h in
        NothingNew h0 run.1 ⊎ IsLetThrough run.0.mhc
  unfolding reconcile_targets
  targets-creates targets mhc watches h0 h n =
      let checked = check_health now targets in
      let done = handle_healthy_targets o now mhc checked.healthy false 0 h in
      let n1 =
        healthy_targets-kept (NothingNew h0) (keeps-NothingNew h0) o now mhc checked.healthy false 0
          h n in
      elim (Option-cases done.0.error) [
        | inr (e, broken) ↦ rw (broken, reconcile_targets) (inl n1)
        | inl fine ↦
            rw (fine, reconcile_targets)
              (limit-creates (length targets) done.0.healthy_count checked done.0.requeue mhc
                watches h0 done.1 n1)
      ]

  patch_error-mhc :
      (e : Option Error) (outcome : MhcOutcome)
      → (with_patch_error o now e outcome).mhc ≡ outcome.mhc
  patch_error-mhc none outcome = refl
  patch_error-mhc (some e) outcome = refl

  supported-creates :
      (mhc : MachineHealthCheck) (watches : List String) (h0 h : History)
      → NothingNew h0 h
      → let run = reconcile_supported o now mhc watches h in
        NothingNew h0 run.1 ⊎ IsLetThrough run.0.mhc
  unfolding reconcile_supported
  supported-creates mhc watches h0 h n =
      let keep = harmless-kept (NothingNew h0) (keeps-NothingNew h0) in
      let first = add_watches_mhc o.environment mhc watches h in
      let n1 = add_watches_mhc-kept (NothingNew h0) keep o now mhc watches h n in
      let targets = get_mhc_targets o.environment mhc first.1 in
      let n2 = targets-kept (NothingNew h0) keep o now mhc first.1 n1 in
      elim (Option-cases first.0.0) [
        | inr (e, broken) ↦ rw (broken, reconcile_supported) (inl n1)
        | inl fine ↦ elim (Answer-cases targets.0) [
          | inl (e, lost) ↦ rw (fine, reconcile_supported) (rw lost (inl n2))
          | inr (ts, got) ↦
              rw (fine, reconcile_supported)
                (rw got (targets-creates ts mhc first.0.1 h0 targets.1 n2))
        ]
      ]

  machines-creates :
      (mhc : MachineHealthCheck) (watches : List String) (h0 h : History)
      → NothingNew h0 h
      → let run = reconcile_machines o now mhc watches h in
        NothingNew h0 run.1 ⊎ IsLetThrough run.0.mhc
  unfolding reconcile_machines
  machines-creates mhc watches h0 h n =
      elim (Bool-cases (has_key mhc_paused_annotation mhc.annotations)) [
        | inl paused ↦ rw (paused, reconcile_machines) (inl n)
        | inr active ↦ elim (Bool-cases (not (is_some mhc.spec.remediation_template))) [
          | inl unset ↦ rw (active, reconcile_machines) (rw unset (inl n))
          | inr set ↦
              rw (active, reconcile_machines) (rw set (supported-creates mhc watches h0 h n))
        ]
      ]

  mhc-creates :
      (mhc : MachineHealthCheck) (watches : List String) (h : History)
      → let run = reconcile_mhc o now mhc watches h in NothingNew h run.1 ⊎ IsLetThrough run.0.mhc
  unfolding reconcile_mhc
  mhc-creates mhc watches h =
      let run = reconcile_machines o now mhc watches h in
      let patch = patch_mhc o now run.0.mhc mhc run.1 in
      elim (Option-cases
        (o.environment.new_lease_manager (str_append "MachineHealthCheck-" mhc.name))) [
          | inr (e, broken) ↦ rw (broken, reconcile_mhc) (inl refl)
          | inl fine ↦ elim (machines-creates mhc watches h h refl) [
            | inl nothing ↦
                rw (fine, reconcile_mhc)
                  (inl (
                    patch_mhc-kept (NothingNew h)
                      (harmless-kept (NothingNew h) (keeps-NothingNew h)) o now run.0.mhc mhc run.1
                      nothing))
            | inr free ↦
                rw (fine, reconcile_mhc)
                  (inr (subst IsLetThrough (sym (patch_error-mhc patch.0 run.0)) free))
          ]
        ]

  -- A Reconcile of a MachineHealthCheck that creates a CR leaves a status whose numbers of expected and of
  -- healthy machines differ by no more than getMaxUnhealthy returns for it, and which says how many more
  -- remediations are allowed: the rest of that number, as an int32.
  pub creation-IsLetThrough :
      (mhc : MachineHealthCheck) (watches : List String) (h : History)
      → creations (reconcile_mhc o now mhc watches h).1 ≢ creations h
      → IsLetThrough (reconcile_mhc o now mhc watches h).0.mhc
  creation-IsLetThrough mhc watches h created = elim (mhc-creates mhc watches h) [
    | inl nothing ↦ absurd (created nothing)
    | inr free ↦ free
  ]
