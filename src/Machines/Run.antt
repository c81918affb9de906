-- ===== src/Machines/Run.antt =====
-- Reconcile of internal/controller/machinehealthcheck_controller.go, with patchStatus of
-- internal/controller/shared.go. `now` is the clock reading of the call; `watches` is the map of the watch
-- manager.
use node_healthcheck_operato.Prelude.{
  ℕ, ◌+◌, ℤ, pos, ◌-ℤ◌, ltb_ℤ, String, Bool, true, false, not, ◌||◌, Option, none, some, List, [],
  ◌∷◌, length, is_empty, is_some, has_key, eqb, eqb_ℤ, str_append, if◌then◌else◌,
}
use node_healthcheck_operato.MachineApi.{MachineHealthCheck}
use node_healthcheck_operato.Cluster.{
  Error, other, panicked, is_not_found, ok, failed, get_mhc, list_mhcs, patch_mhc_status, History,
}
use node_healthcheck_operato.Manager.Healthy.{handle_healthy_node}
use node_healthcheck_operato.Mhc.{MhcStatus, update_status}
use node_healthcheck_operato.Watches.{reference_list, add_watches_mhc}
use node_healthcheck_operato.Machines.Health.{Target, CheckedHealth, check_health}
use node_healthcheck_operato.Machines.Targets.{get_mhc_targets}
use node_healthcheck_operato.Machines.Limit.{
  get_max_unhealthy, get_nr_remediations_allowed, is_remediations_allowed, to_int32,
}
use node_healthcheck_operato.Machines.Remediate.{remediate_all}
use node_healthcheck_operato.Machines.Outcome.{
  MachineOperator, MhcOutcome, mhc_returns, mhc_paused_annotation, mhc_manager_for,
  healthy_node_name, HealthyTargets, remediation_allowed, too_many_unhealthy, with_condition,
  with_allowed, with_targets,
}

module _ (o : MachineOperator) (now : ℤ) where
  -- The loop over the healthy targets; all of them count as healthy, also with CRs left.
  unfoldable pub handle_healthy_targets :
      MachineHealthCheck → List Target → Bool → ℕ → History → HealthyTargets × History
  handle_healthy_targets mhc [] requeue count h =
      (record { error = none; requeue = requeue; healthy_count = count }, h)
  handle_healthy_targets mhc (t ∷ ts) requeue count h = elim (healthy_node_name t.node) [
    | none ↦ (record { error = some panicked; requeue = requeue; healthy_count = count }, h)
    | some name ↦
        let (handled, h') =
          handle_healthy_node (mhc_manager_for o mhc) o.clock now
            (reference_list mhc.spec.remediation_template) [] name t.machine.name h in
        elim handled.error [
          | some e ↦ (record { error = some e; requeue = requeue; healthy_count = count }, h')
          | none ↦
              handle_healthy_targets mhc ts (if is_empty handled.crs then requeue else true)
                (count + 1) h'
        ]
  ]

  -- Remediation is allowed.
  unfoldable pub remediate_targets :
      List Target → Bool → ℤ → MachineHealthCheck → List String → History → MhcOutcome × History
  remediate_targets targets requeue requeue_in mhc watches h =
      let (errors, h') = remediate_all (mhc_manager_for o mhc) now targets h in
      let mhc' = with_condition now remediation_allowed mhc in
      if not (is_empty errors)
      then (mhc_returns requeue (pos 0) errors mhc' watches, h')
      else if ltb_ℤ (pos 0) requeue_in
      then (mhc_returns requeue (if requeue then pos 0 else requeue_in) [] mhc' watches, h')
      else (mhc_returns requeue (pos 0) [] mhc' watches, h')

  -- The check of `maxUnhealthy`.
  unfoldable pub reconcile_limit :
      ℕ
      → ℕ
      → CheckedHealth
      → Bool
      → MachineHealthCheck
      → List String
      → History
      → MhcOutcome × History
  unfolding remediate_targets
  reconcile_limit total healthy checked requeue mhc watches h =
      let mhc1 = with_targets healthy total mhc in
      let unhealthy = pos total -ℤ pos healthy in
      elim (get_max_unhealthy mhc1) [
        | none ↦ (
          mhc_returns requeue (pos 0)
              (other "failed to calculate max unhealthy allowed machines" ∷ []) mhc1 watches,
          h,
        )
        | some max ↦
            let mhc2 = with_allowed (to_int32 (get_nr_remediations_allowed unhealthy max)) mhc1 in
            if not (is_remediations_allowed unhealthy max)
            then (
              mhc_returns (if eqb total 0 || eqb_ℤ unhealthy (pos 0) then false else true) (pos 0)
                  []
                  (with_condition now
                    (too_many_unhealthy
                      (o.skip_message (pos total) unhealthy mhc.spec.max_unhealthy))
                    (with_allowed (pos 0) mhc2))
                  watches,
              h,
            )
            else remediate_targets checked.need_remediation requeue checked.requeue_in mhc2 watches
                h
      ]

  -- Reconcile with the targets.
  unfoldable pub reconcile_targets :
      List Target → MachineHealthCheck → List String → History → MhcOutcome × History
  unfolding reconcile_limit handle_healthy_targets
  reconcile_targets targets mhc watches h =
      let checked = check_health now targets in
      let (done, h') = handle_healthy_targets mhc checked.healthy false 0 h in
      elim done.error [
        | some e ↦ (mhc_returns done.requeue (pos 0) (e ∷ []) mhc watches, h')
        | none ↦
            reconcile_limit (length targets) done.healthy_count checked done.requeue mhc watches h'
      ]

  -- Reconcile of a MachineHealthCheck that is neither paused nor without a template.
  unfoldable pub reconcile_supported :
      MachineHealthCheck → List String → History → MhcOutcome × History
  unfolding reconcile_targets
  reconcile_supported mhc watches h =
      let ((error, watches'), h1) = add_watches_mhc o.environment mhc watches h in
      elim error [
        | some e ↦ (mhc_returns false (pos 0) (e ∷ []) mhc watches', h1)
        | none ↦
            let (targets, h2) = get_mhc_targets o.environment mhc h1 in
            elim targets [
              | failed e ↦ (mhc_returns false (pos 0) (e ∷ []) mhc watches', h2)
              | ok ts ↦ reconcile_targets ts mhc watches' h2
            ]
      ]

  -- Reconcile up to its end, where the status is patched.
  unfoldable pub reconcile_machines :
      MachineHealthCheck → List String → History → MhcOutcome × History
  unfolding reconcile_supported
  reconcile_machines mhc watches h =
      if has_key mhc_paused_annotation mhc.annotations
      then (mhc_returns false (pos 0) [] mhc watches, h)
      else if not (is_some mhc.spec.remediation_template)
      then (mhc_returns false (pos 0) [] mhc watches, h)
      else reconcile_supported mhc watches h

  -- patchStatus; the status of a MachineHealthCheck converts.
  unfoldable pub patch_mhc :
      MachineHealthCheck → MachineHealthCheck → History → Option Error × History
  patch_mhc mhc orig h = elim (o.environment.mhc_merge_is_empty mhc orig) [
    | failed e ↦ (some e, h)
    | ok true ↦ (none, h)
    | ok false ↦ (o.environment.on_patch_mhc_status h mhc, patch_mhc_status mhc ∷ h)
  ]

  abbrev pub with_patch_error : Option Error → MhcOutcome → MhcOutcome
  with_patch_error none outcome = outcome
  with_patch_error (some e) outcome = record outcome { errors = e ∷ outcome.errors }

  -- Reconcile of a MachineHealthCheck that has been got, with the deferred patch.
  unfoldable pub reconcile_mhc : MachineHealthCheck → List String → History → MhcOutcome × History
  unfolding reconcile_machines patch_mhc
  reconcile_mhc mhc watches h =
      elim (o.environment.new_lease_manager (str_append "MachineHealthCheck-" mhc.name)) [
        | some e ↦ (mhc_returns false (pos 0) (e ∷ []) mhc watches, h)
        | none ↦
            let (outcome, h1) = reconcile_machines mhc watches h in
            let (error, h2) = patch_mhc outcome.mhc mhc h1 in (with_patch_error error outcome, h2)
      ]

  -- The update of the checker's state at the start, and the error that ends Reconcile.
  unfoldable pub update_checker : History → (Option Error × Option MhcStatus) × History
  update_checker h = elim o.checker [
    | none ↦ ((none, none), h)
    | some status ↦ elim (o.environment.on_list_mhcs h) [
      | failed e ↦ ((some e, some status), list_mhcs ∷ h)
      | ok mhcs ↦ ((none, some (update_status status (some mhcs)).1), list_mhcs ∷ h)
    ]
  ]

  abbrev pub mhc_not_got : Error → Option Error
  mhc_not_got e = if is_not_found e then none else some e

  -- Reconcile, for the request with a namespace and a name.
  unfoldable pub reconcile_machine_health_check :
      String → String → List String → History → (Option Error × Option MhcOutcome) × History
  unfolding reconcile_mhc update_checker
  reconcile_machine_health_check namespace name watches h =
      let ((error, status), h1) = update_checker h in
      elim error [
        | some e ↦ ((some e, none), h1)
        | none ↦
            if not o.is_mao_mhc_disabled
            then ((none, none), h1)
            else elim (o.environment.on_get_mhc h1 namespace name) [
              | failed e ↦ ((mhc_not_got e, none), get_mhc namespace name ∷ h1)
              | ok mhc ↦
                  let (outcome, h2) = reconcile_mhc mhc watches (get_mhc namespace name ∷ h1) in
                  ((none, some outcome), h2)
            ]
      ]
