-- ===== src/Examples/Threshold.antt =====
-- The threshold of a concrete spec with `maxUnhealthy: 1` for three nodes.
use node_healthcheck_operato.Prelude.{pos, ◌-ℤ◌, ◌<ℤ◌, true, none, ◌≡◌, ◌↔◌, refl, arith}
use node_healthcheck_operato.Api.Validation.{validate_min_healthy_max_unhealthy}
use node_healthcheck_operato.Threshold.{ok, get_min_healthy, is_below}
use node_healthcheck_operato.Threshold.Gate.{max_unhealthy_gate}
use node_healthcheck_operato.Examples.Data.{intstr, spec}

two_needed : get_min_healthy intstr spec (pos 3) ≡ ok (pos 2)
unfolding get_min_healthy validate_min_healthy_max_unhealthy ◌-ℤ◌
two_needed = refl

valid : validate_min_healthy_max_unhealthy spec ≡ none
unfolding validate_min_healthy_max_unhealthy
valid = refl

max_unhealthy_gate_example :
    (get_min_healthy intstr spec (pos 3) ≡ ok (pos 3 -ℤ pos 1))
    × ((is_below (pos 1) (pos 3 -ℤ pos 1) ≡ true) ↔ (pos 1 <ℤ pos 3 -ℤ pos 1))
max_unhealthy_gate_example =
    max_unhealthy_gate intstr spec (pos 3) (pos 1) (pos 1) valid refl (omega arith) (omega arith)
