-- ===== src/Examples/Storm.antt =====
-- Storm recovery at a concrete NodeHealthCheck with an active storm and a cooldown of half an hour.
use node_healthcheck_operato.Prelude.{
  ℤ, pos, ◌+ℤ◌, ◌-ℤ◌, second, Bool, true, false, Option, some, [], ◌∷◌, ◌≡◌, refl,
}
use node_healthcheck_operato.Api.{NodeHealthCheck}
use node_healthcheck_operato.Storm.Machine.{Phase, storm, cooling, phase}
use node_healthcheck_operato.Storm.Evaluate.{evaluate_storm_recovery}
use node_healthcheck_operato.Storm.Refinement.{evaluate-machine_step}
use node_healthcheck_operato.Storm.Quiet.{replay, Recovered, storm_held_until_quiet}
use node_healthcheck_operato.Examples.Data.{meta, nhc_with, storm_conditions}

abbrev stormy : NodeHealthCheck
stormy = nhc_with storm_conditions []

abbrev half_hour : ℤ
half_hour = pos 1800000000000

stormy-storm : phase meta stormy.status.conditions ≡ storm
stormy-storm = refl

evaluate-machine_step_example :
    let r = evaluate_storm_recovery meta (pos 5) stormy false in
    ◌≡◌ {A = (Bool × Option ℤ) × Phase}
      (r.0, phase meta r.1.status.conditions)
      ((true, some (half_hour +ℤ second)), cooling (pos 5))
evaluate-machine_step_example = evaluate-machine_step meta (pos 5) stormy false half_hour refl

released :
    (evaluate_storm_recovery meta half_hour (replay meta stormy ((pos 0, false) ∷ [])) false).0.0
    ≡ false
unfolding evaluate_storm_recovery replay ◌+ℤ◌ ◌-ℤ◌
released = refl

storm_held_until_quiet_example : Recovered half_hour ((half_hour, false) ∷ (pos 0, false) ∷ [])
storm_held_until_quiet_example =
    storm_held_until_quiet meta half_hour stormy refl stormy-storm ((pos 0, false) ∷ []) half_hour
      false released
