-- ===== src/Reconcile/HeldBack.antt =====
-- What holds new remediations back: a Reconcile that creates a CR leaves an enabled NodeHealthCheck
-- without pause requests, with enough healthy nodes and without an active storm.
use node_healthcheck_operato.Prelude.{
  ℕ, ℤ, Bool, true, false, ◌&&◌, Option, List, [], ◌∷◌, ◌≡◌, ◌≢◌, refl, sym, ap, ◌∙◌, arith, eq_iff,
  Bool-cases, Option-cases, inl, inr, is_some, if◌then◌else◌,
}
use node_healthcheck_operato.Api.{
  Condition, Node, NodeHealthCheck, NodeHealthCheckStatus, condition_type_disabled,
  condition_type_storm_active, condition_type_storm_cooldown_active,
}
use node_healthcheck_operato.Conditions.{ConditionMeta, is_condition_true}
use node_healthcheck_operato.Requeue.{update_requeue_after}
use node_healthcheck_operato.Storm.Machine.{calm, phase}
use node_healthcheck_operato.Storm.Evaluate.{
  evaluate_storm_recovery, cooldown_cleared, storm_activated, cooldown_activated, storm_deactivated,
  cooldown_completed,
}
use node_healthcheck_operato.Storm.Refinement.{evaluate-machine_step}
use node_healthcheck_operato.Storm.Quiet.{held_unless_calm}
use node_healthcheck_operato.Cluster.{History}
use node_healthcheck_operato.Remediate.Setup.{Reconciler}
use node_healthcheck_operato.Remediate.Run.{remediate}
use node_healthcheck_operato.Reconcile.Alert.{is_node_remediation_excluded}
use node_healthcheck_operato.Reconcile.Unhealthy.{
  after_remediate, gets_template, look_after, with_unhealthy, remediate_nodes,
}

-- What the status says about the nodes and the conditions.
abbrev pub Facts : Type 0
Facts = List Condition × (Option ℕ × Option ℕ)

abbrev pub facts : NodeHealthCheckStatus → Facts
facts status = (status.conditions, (status.observed_nodes, status.healthy_nodes))

module _ (r : Reconciler) (now : ℤ) where
  -- Nothing is called while remediation is skipped.
  pub skipped-history :
      (nodes : List Node) (requeue : ℤ) (nhc : NodeHealthCheck) (h : History)
      → (remediate_nodes r now true nodes requeue nhc h).1 ≡ h
  unfolding remediate_nodes
  skipped-history [] requeue nhc h = refl
  skipped-history (node ∷ nodes) requeue nhc h =
      skipped-history nodes requeue (with_unhealthy r now node nhc) h

  after-facts :
      (node : Node) (nhc : NodeHealthCheck) (us : _) (h : History)
      → facts (after_remediate r now node nhc us h).status ≡ facts nhc.status
  after-facts node nhc us h = elim (Bool-cases (gets_template r now node nhc h)) [
    | inl sorts ↦ rw sorts
    | inr not_it ↦ rw not_it
  ]

  pub remediate_nodes-facts :
      (skip : Bool) (nodes : List Node) (requeue : ℤ) (nhc : NodeHealthCheck) (h : History)
      → facts (remediate_nodes r now skip nodes requeue nhc h).0.nhc.status ≡ facts nhc.status
  unfolding remediate_nodes
  remediate_nodes-facts skip [] requeue nhc h = refl
  remediate_nodes-facts skip (node ∷ nodes) requeue nhc h =
      let nhc' = with_unhealthy r now node nhc in
      let left_out = if skip then true else is_node_remediation_excluded node in
      let step = remediate r now node nhc' nhc'.status.unhealthy_nodes h in
      let nhc2 = after_remediate r now node nhc' step.0.unhealthy_nodes h in
      let seen = look_after r now node nhc2 (update_requeue_after requeue step.0.requeue) step.1 in
      let same = after-facts node nhc' step.0.unhealthy_nodes h in
      elim (Bool-cases left_out) [
        | inl out ↦ rw (out, remediate_nodes) (remediate_nodes-facts skip nodes requeue nhc' h)
        | inr not_out ↦ elim (Option-cases step.0.error) [
          | inr (e, broken) ↦ rw (not_out, remediate_nodes) (rw broken same)
          | inl fine ↦
              rw (not_out, remediate_nodes)
                (rw fine (remediate_nodes-facts skip nodes seen.0 nhc2 seen.1 ∙ same))
        ]
      ]

disabled_ne_active : condition_type_storm_active ≢ condition_type_disabled
disabled_ne_active = ground (arith, eq_iff "StormActive" "Disabled")

disabled_ne_cooldown : condition_type_storm_cooldown_active ≢ condition_type_disabled
disabled_ne_cooldown = ground (arith, eq_iff "StormCooldownActive" "Disabled")

and_false : (a b : Bool) → b ≡ false → (a && b) ≡ false
and_false a b h = ground arith

module _ (meta : ConditionMeta) (now : ℤ) (nhc : NodeHealthCheck) where
  open meta use {find_status_condition, set_status_condition, find-set_ne}

  -- A storm has nothing to do with the condition Disabled.
  pub storm-disabled :
      (triggered : Bool)
      → find_status_condition
          (evaluate_storm_recovery meta now nhc triggered).1.status.conditions
          condition_type_disabled
        ≡ find_status_condition nhc.status.conditions condition_type_disabled
  unfolding evaluate_storm_recovery
  storm-disabled triggered =
      let cs = nhc.status.conditions in
      let cleared = set_status_condition now cs cooldown_cleared in
      let ended = set_status_condition now cs storm_deactivated in
      ground (
        arith,
        find-set_ne now cs cooldown_cleared condition_type_disabled disabled_ne_cooldown,
        find-set_ne now cleared storm_activated condition_type_disabled disabled_ne_active,
        find-set_ne now cs cooldown_activated condition_type_disabled disabled_ne_cooldown,
        find-set_ne now cs storm_deactivated condition_type_disabled disabled_ne_active,
        find-set_ne now ended cooldown_completed condition_type_disabled disabled_ne_cooldown,
      )

  pub storm-counts :
      (triggered : Bool)
      → let status = (evaluate_storm_recovery meta now nhc triggered).1.status in
        (status.observed_nodes ≡ nhc.status.observed_nodes)
        × (status.healthy_nodes ≡ nhc.status.healthy_nodes)
  unfolding evaluate_storm_recovery
  storm-counts triggered = ground arith

  calm-inactive :
      (cs : List Condition)
      → phase meta cs ≡ calm
      → is_condition_true meta cs condition_type_storm_active ≡ false
  calm-inactive cs h = ground arith

  -- An evaluation that lets remediation go ahead leaves no active storm.
  pub storm-calm :
      (triggered : Bool)
      → (evaluate_storm_recovery meta now nhc triggered).0.0 ≡ false
      → (is_some nhc.spec.storm_cooldown_duration
          && is_condition_true meta
              (evaluate_storm_recovery meta now nhc triggered).1.status.conditions
              condition_type_storm_active)
        ≡ false
  storm-calm triggered h =
      let result = evaluate_storm_recovery meta now nhc triggered in
      let active = is_condition_true meta result.1.status.conditions condition_type_storm_active in
      elim (Option-cases nhc.spec.storm_cooldown_duration) [
        | inl absent ↦ ap (λ (d : Option ℤ). is_some d && active) absent
        | inr (delay, given) ↦
            let steps = evaluate-machine_step meta now nhc triggered delay given in
            let p = phase meta nhc.status.conditions in
            let quiet = held_unless_calm delay now triggered p (ap (λ r. r.0.0) (sym steps) ∙ h) in
            and_false (is_some nhc.spec.storm_cooldown_duration) active
              (calm-inactive result.1.status.conditions (ap (λ r. r.1) steps ∙ quiet))
      ]
