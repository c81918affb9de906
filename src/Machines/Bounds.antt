-- ===== src/Machines/Bounds.antt =====
-- The bounds of maxUnhealthy.
use node_healthcheck_operato.Prelude.{
  ℕ, ℤ, pos, ◌≤ℤ◌, ◌<ℤ◌, ◌-ℤ◌, Option, none, some, true, false, ◌≡◌, ◌↔◌, arith,
}
use node_healthcheck_operato.Api.{IntOrString}
use node_healthcheck_operato.MachineApi.{MachineHealthCheck}
use node_healthcheck_operato.Machines.Limit.{
  expected_machines, get_value_from_int_or_percent, get_max_unhealthy, get_nr_remediations_allowed,
  is_remediations_allowed, at_least_zero, max_of,
}

at_least_zero-nonneg : (o : Option ℤ) (n : ℤ) → at_least_zero o ≡ some n → pos 0 ≤ℤ n
at_least_zero-nonneg none n e = cc
at_least_zero-nonneg (some m) n e = ground arith

max_of-nonneg : (total : ℕ) (m : Option IntOrString) (n : ℤ) → max_of total m ≡ some n → pos 0 ≤ℤ n
max_of-nonneg total none n e = ground arith
max_of-nonneg total (some m) n e =
    at_least_zero-nonneg (get_value_from_int_or_percent (some m) total false) n e

-- getMaxUnhealthy never returns a negative number.
pub get_max_unhealthy-nonneg :
    (mhc : MachineHealthCheck) (max : ℤ) → get_max_unhealthy mhc ≡ some max → pos 0 ≤ℤ max
unfolding get_max_unhealthy
get_max_unhealthy-nonneg mhc max e =
    max_of-nonneg (expected_machines mhc) mhc.spec.max_unhealthy max e

-- Remediation is allowed exactly when no more machines are unhealthy than may be; then the number of
-- remediations that are still allowed is the difference, and else it is 0.
pub remediations_allowed_iff :
    (unhealthy max : ℤ)
    → (is_remediations_allowed unhealthy max ≡ true ↔ unhealthy ≤ℤ max)
      × (unhealthy ≤ℤ max → get_nr_remediations_allowed unhealthy max ≡ max -ℤ unhealthy)
      × (max <ℤ unhealthy → get_nr_remediations_allowed unhealthy max ≡ pos 0)
unfolding is_remediations_allowed get_nr_remediations_allowed ◌-ℤ◌
remediations_allowed_iff unhealthy max =
    (((λ e. ground arith), (λ h. ground arith)), λ h. ground arith, λ h. ground arith)
