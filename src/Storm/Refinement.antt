-- ===== src/Storm/Refinement.antt =====
-- evaluateStormRecovery implements the machine of Storm.Machine.
use node_healthcheck_operato.Prelude.{
  ℤ, Bool, true, false, Option, none, some, ◌≡◌, ◌≢◌, inl, inr, arith, eq_iff, Bool-cases,
}
use node_healthcheck_operato.Api.{
  NodeHealthCheck, condition_type_storm_active, condition_type_storm_cooldown_active,
}
use node_healthcheck_operato.Conditions.{ConditionMeta, has_status}
use node_healthcheck_operato.Storm.Machine.{Phase, storm, machine_step, phase}
use node_healthcheck_operato.Storm.Evaluate.{
  evaluate_delay, cooldown_cleared, storm_activated, storm_deactivated, cooldown_completed,
  cooldown_activated, evaluate_storm_recovery,
}

active_ne_cooldown : condition_type_storm_active ≢ condition_type_storm_cooldown_active
active_ne_cooldown = ground (arith, eq_iff "StormActive" "StormCooldownActive")

cooldown_ne_active : condition_type_storm_cooldown_active ≢ condition_type_storm_active
cooldown_ne_active = ground (arith, eq_iff "StormCooldownActive" "StormActive")

module _ (meta : ConditionMeta) (delay now : ℤ) (nhc : NodeHealthCheck) where
  open meta use {find_status_condition, set_status_condition, find-set_self, find-set_ne}

  abbrev after_step : (Bool × Option ℤ) × NodeHealthCheck → (Bool × Option ℤ) × Phase
  after_step r = (r.0, phase meta r.1.status.conditions)

  refines_triggered : after_step (evaluate_delay meta delay now nhc true) ≡ ((true, none), storm)
  unfolding evaluate_delay
  refines_triggered =
      let cs = nhc.status.conditions in
      let cleared = set_status_condition now cs cooldown_cleared in
      elim (Bool-cases (has_status "True" (find_status_condition cs condition_type_storm_active))) [
        | inl e ↦ rw e (
            ground (
              arith,
              find-set_self now cs cooldown_cleared,
              find-set_ne now cs cooldown_cleared condition_type_storm_active cooldown_ne_active,
            ))
        | inr e ↦ rw e (
            ground (
              arith,
              find-set_self now cs cooldown_cleared,
              find-set_self now cleared storm_activated,
              find-set_ne now cleared storm_activated condition_type_storm_cooldown_active
                  active_ne_cooldown,
            ))
      ]

  refines_untriggered :
      after_step (evaluate_delay meta delay now nhc false)
      ≡ machine_step delay now false (phase meta nhc.status.conditions)
  unfolding evaluate_delay
  refines_untriggered =
      let cs = nhc.status.conditions in
      let ended = set_status_condition now cs storm_deactivated in
      ground (
        arith,
        find-set_self now cs cooldown_activated,
        find-set_ne now cs cooldown_activated condition_type_storm_active cooldown_ne_active,
        find-set_self now cs storm_deactivated,
        find-set_ne now ended cooldown_completed condition_type_storm_active cooldown_ne_active,
      )

  refines :
      (triggered : Bool)
      → after_step (evaluate_delay meta delay now nhc triggered)
        ≡ machine_step delay now triggered (phase meta nhc.status.conditions)
  refines true = refines_triggered
  refines false = refines_untriggered

-- With a cooldown of `delay` configured, an evaluation answers and moves between the phases calm,
-- storm and cooling as the machine does.
pub evaluate-machine_step :
    (meta : ConditionMeta) (now : ℤ) (nhc : NodeHealthCheck) (triggered : Bool) (delay : ℤ)
    → nhc.spec.storm_cooldown_duration ≡ some delay
    → let r = evaluate_storm_recovery meta now nhc triggered in
      (r.0, phase meta r.1.status.conditions)
      ≡ machine_step delay now triggered (phase meta nhc.status.conditions)
unfolding evaluate_storm_recovery
evaluate-machine_step meta now nhc triggered delay h =
    rw (h, evaluate_storm_recovery) (refines meta delay now nhc triggered)

pub evaluate-spec :
    (meta : ConditionMeta) (now : ℤ) (nhc : NodeHealthCheck) (triggered : Bool)
    → (evaluate_storm_recovery meta now nhc triggered).1.spec ≡ nhc.spec
unfolding evaluate_storm_recovery
evaluate-spec meta now nhc triggered = ground arith
