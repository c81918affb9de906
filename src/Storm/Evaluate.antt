-- ===== src/Storm/Evaluate.antt =====
-- Storm recovery, internal/controller/nodehealthcheck_controller.go: evaluateStormRecovery and the
-- three steps it calls. A method returns its results and the NodeHealthCheck with its new
-- conditions; `now` is the clock reading of the call.
use node_healthcheck_operato.Prelude.{
  ℤ, ◌+ℤ◌, ◌-ℤ◌, ltb_ℤ, second, Bool, true, false, not, ◌&&◌, Option, none, some, if◌then◌else◌,
}
use node_healthcheck_operato.Api.{
  NodeHealthCheck, Condition, condition_type_storm_active, condition_type_storm_cooldown_active,
  condition_reason_storm_threshold_change,
}
use node_healthcheck_operato.Conditions.{
  NewCondition, ConditionMeta, is_condition_true, set_condition,
}

abbrev pub cooldown_cleared : NewCondition
cooldown_cleared = record {
  type = condition_type_storm_cooldown_active;
  status = "False";
  reason = condition_reason_storm_threshold_change;
  message = "Cooldown cleared - storm threshold triggered";
}

abbrev pub storm_activated : NewCondition
storm_activated = record {
  type = condition_type_storm_active;
  status = "True";
  reason = condition_reason_storm_threshold_change;
  message =
      "Storm mode is activated - preventing any new remediation until the storm is over and cooldown duration expired";
}

abbrev pub cooldown_activated : NewCondition
cooldown_activated = record {
  type = condition_type_storm_cooldown_active;
  status = "True";
  reason = condition_reason_storm_threshold_change;
  message = "Storm cooldown delay started - waiting before resuming normal remediation";
}

abbrev pub storm_deactivated : NewCondition
storm_deactivated = record {
  type = condition_type_storm_active;
  status = "False";
  reason = condition_reason_storm_threshold_change;
  message = "Storm mode is deactivated, remediation can occur normally";
}

abbrev pub cooldown_completed : NewCondition
cooldown_completed = record {
  type = condition_type_storm_cooldown_active;
  status = "False";
  reason = condition_reason_storm_threshold_change;
  message = "Storm cooldown completed";
}

module _ (meta : ConditionMeta) where
  open meta use {find_status_condition}

  -- activateStorm: clears a cooldown whenever the threshold is triggered.
  unfoldable pub activate_storm : Bool → Bool → ℤ → NodeHealthCheck → Bool × NodeHealthCheck
  activate_storm is_min_healthy_triggered is_storm_active now nhc =
      if is_min_healthy_triggered
      then (let cleared = set_condition meta now cooldown_cleared nhc in
          if is_storm_active
          then (false, cleared)
          else (true, set_condition meta now storm_activated cleared))
      else (false, nhc)

  unfoldable pub remaining : ℤ → ℤ → Option Condition → Option ℤ
  remaining delay now none = none
  remaining delay now (some c) =
      let elapsed = now -ℤ c.last_transition_time in
      if ltb_ℤ elapsed delay then some (delay -ℤ elapsed +ℤ second) else none

  -- startCooldown, with the duration that its pointer refers to.
  unfoldable pub start_cooldown : ℤ → ℤ → NodeHealthCheck → (Bool × Option ℤ) × NodeHealthCheck
  unfolding remaining
  start_cooldown delay now nhc =
      if is_condition_true meta nhc.status.conditions condition_type_storm_cooldown_active
      then (
        (
          false,
          remaining delay now
              (find_status_condition nhc.status.conditions condition_type_storm_cooldown_active),
        ),
        nhc,
      )
      else ((true, some (delay +ℤ second)), set_condition meta now cooldown_activated nhc)

  unfoldable pub expire :
      ℤ → ℤ → NodeHealthCheck → Option Condition → (Bool × Option ℤ) × NodeHealthCheck
  expire delay now nhc none = ((false, none), nhc)
  expire delay now nhc (some c) =
      let elapsed = now -ℤ c.last_transition_time in
      if ltb_ℤ elapsed delay then ((false, some (delay -ℤ elapsed +ℤ second)), nhc) else (
        (true, none),
        set_condition meta now cooldown_completed (set_condition meta now storm_deactivated nhc),
      )

  -- stopCooldown.
  unfoldable pub stop_cooldown : ℤ → ℤ → NodeHealthCheck → (Bool × Option ℤ) × NodeHealthCheck
  unfolding expire
  stop_cooldown delay now nhc =
      expire delay now nhc
        (find_status_condition nhc.status.conditions condition_type_storm_cooldown_active)

  unfoldable pub evaluate_delay :
      ℤ → ℤ → NodeHealthCheck → Bool → (Bool × Option ℤ) × NodeHealthCheck
  unfolding activate_storm start_cooldown stop_cooldown
  evaluate_delay delay now nhc is_min_healthy_triggered =
      let is_storm_active =
        is_condition_true meta nhc.status.conditions condition_type_storm_active in
      if not is_min_healthy_triggered && not is_storm_active
      then ((false, none), nhc)
      else let (activated, nhc1) =
          activate_storm is_min_healthy_triggered is_storm_active now nhc in
        if activated
        then ((true, none), nhc1)
        else if is_min_healthy_triggered
        then ((true, none), nhc1)
        else let ((cooldown_started, requeue), nhc2) = start_cooldown delay now nhc1 in
          if cooldown_started
          then ((true, requeue), nhc2)
          else let ((cooldown_stopped, requeue'), nhc3) = stop_cooldown delay now nhc2 in
            ((not cooldown_stopped, requeue'), nhc3)

  -- evaluateStormRecovery: whether new remediations are held back, and when to look again.
  unfoldable pub evaluate_storm_recovery :
      ℤ → NodeHealthCheck → Bool → (Bool × Option ℤ) × NodeHealthCheck
  unfolding evaluate_delay
  evaluate_storm_recovery now nhc is_min_healthy_triggered = elim nhc.spec.storm_cooldown_duration [
    | none ↦ ((false, none), nhc)
    | some delay ↦ evaluate_delay delay now nhc is_min_healthy_triggered
  ]
