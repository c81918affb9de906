-- ===== src/Threshold.antt =====
-- How many healthy nodes are needed: getMinHealthy of
-- internal/controller/nodehealthcheck_controller.go. GetScaledValueFromIntOrPercent of
-- k8s.io/apimachinery is a parameter.
pub mod Gate
use node_healthcheck_operato.Prelude.{
  ℤ, pos, ◌-ℤ◌, ltb_ℤ, String, Bool, true, false, Option, none, some, ◌≡◌, if◌then◌else◌,
}
use node_healthcheck_operato.Api.{IntOrString, int_val, str_val, NodeHealthCheckSpec}
use node_healthcheck_operato.Api.Validation.{ThresholdError, validate_min_healthy_max_unhealthy}

pub data MinHealthyError : Type 0 where
  invalid : ThresholdError → MinHealthyError
  bad_value : String → MinHealthyError
  min_healthy_is_negative : ℤ → MinHealthyError
  max_unhealthy_is_negative : ℤ → MinHealthyError
  max_unhealthy_greater_than_nodes : ℤ → MinHealthyError
  one_should_be_specified : MinHealthyError

pub data Scaled : Type 0 where
  value : ℤ → Scaled
  failed : String → Scaled

-- Package k8s.io/apimachinery/pkg/util/intstr: an integer stands for itself.
pub record IntStr : Type 0 where
  pub get_scaled_value_from_int_or_percent : IntOrString → ℤ → Bool → Scaled
  pub scaled-int_val :
      (n total : ℤ) (round_up : Bool)
      → get_scaled_value_from_int_or_percent (int_val n) total round_up ≡ value n

pub data MinHealthy : Type 0 where
  ok : ℤ → MinHealthy
  err : MinHealthyError → MinHealthy

abbrev pub from_min_healthy : Scaled → MinHealthy
from_min_healthy (failed s) = err (bad_value s)
from_min_healthy (value n) = if ltb_ℤ n (pos 0) then err (min_healthy_is_negative n) else ok n

abbrev pub from_max_unhealthy : ℤ → Scaled → MinHealthy
from_max_unhealthy total (failed s) = err (bad_value s)
from_max_unhealthy total (value n) =
    if ltb_ℤ n (pos 0)
    then err (max_unhealthy_is_negative n)
    else if ltb_ℤ total n
    then err (max_unhealthy_greater_than_nodes total)
    else ok (total -ℤ n)

abbrev min_healthy_of : IntStr → ℤ → Option IntOrString → Option IntOrString → MinHealthy
min_healthy_of intstr total (some m) max =
    from_min_healthy (intstr.get_scaled_value_from_int_or_percent m total true)
min_healthy_of intstr total none (some m) =
    from_max_unhealthy total (intstr.get_scaled_value_from_int_or_percent m total true)
min_healthy_of intstr total none none = err one_should_be_specified

-- getMinHealthy; a value that the code returns beside an error is not read by its caller.
unfoldable pub get_min_healthy : IntStr → NodeHealthCheckSpec → ℤ → MinHealthy
get_min_healthy intstr spec total = elim (validate_min_healthy_max_unhealthy spec) [
  | some e ↦ err (invalid e)
  | none ↦ min_healthy_of intstr total spec.min_healthy spec.max_unhealthy
]

-- The test `*nhc.Status.HealthyNodes < minHealthy` of Reconcile: remediation is skipped.
abbrev pub is_below : ℤ → ℤ → Bool
is_below healthy min_healthy = ltb_ℤ healthy min_healthy
