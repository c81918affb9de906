-- ===== src/Storm/Machine.antt =====
-- What storm recovery promises, as a machine with three phases, and the phase that the conditions
-- of a NodeHealthCheck stand for.
use node_healthcheck_operato.Prelude.{
  ℤ, ◌+ℤ◌, ◌-ℤ◌, ltb_ℤ, second, Bool, true, false, Option, none, some, List, if◌then◌else◌, ◌==◌,
}
use node_healthcheck_operato.Api.{
  Condition, condition_type_storm_active, condition_type_storm_cooldown_active,
}
use node_healthcheck_operato.Conditions.{ConditionMeta, has_status}

pub data Phase : Type 0 where
  calm : Phase
  storm : Phase
  cooling : ℤ → Phase

-- Held back, when to look again, and the next phase.
abbrev pub machine_step : ℤ → ℤ → Bool → Phase → (Bool × Option ℤ) × Phase
machine_step delay now true phase = ((true, none), storm)
machine_step delay now false calm = ((false, none), calm)
machine_step delay now false storm = ((true, some (delay +ℤ second)), cooling now)
machine_step delay now false (cooling since) =
    if ltb_ℤ (now -ℤ since) delay
    then ((true, some (delay -ℤ (now -ℤ since) +ℤ second)), cooling since)
    else ((false, none), calm)

abbrev pub cooldown_phase : Option Condition → Phase
cooldown_phase none = storm
cooldown_phase (some c) = if c.status == "True" then cooling c.last_transition_time else storm

abbrev pub phase : ConditionMeta → List Condition → Phase
phase meta cs =
    if has_status "True" (meta.find_status_condition cs condition_type_storm_active)
    then cooldown_phase (meta.find_status_condition cs condition_type_storm_cooldown_active)
    else calm
