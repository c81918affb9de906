-- ===== src/Threshold/Gate.antt =====
-- The gate that getMinHealthy sets.
use node_healthcheck_operato.Prelude.{
  ℤ, pos, ◌-ℤ◌, ◌≤ℤ◌, ◌<ℤ◌, true, false, Option, none, some, ◌≡◌, ◌≢◌, ◌↔◌, ◌⊎◌, arith, int_laws,
  -ℤ_parts, ltb→lt, lt→ltb, Option-cases, inl, inr, is_some,
}
use node_healthcheck_operato.Api.{IntOrString, int_val, NodeHealthCheckSpec}
use node_healthcheck_operato.Api.Validation.{validate_min_healthy_max_unhealthy}
use node_healthcheck_operato.Threshold.{
  IntStr, ok, err, one_should_be_specified, get_min_healthy, min_healthy_of, is_below,
  from_max_unhealthy, Scaled, value, failed,
}

validated :
    (intstr : IntStr) (spec : NodeHealthCheckSpec) (total : ℤ)
    → validate_min_healthy_max_unhealthy spec ≡ none
    → get_min_healthy intstr spec total
      ≡ min_healthy_of intstr total spec.min_healthy spec.max_unhealthy
unfolding get_min_healthy
validated intstr spec total v = rw (v, get_min_healthy)

-- A spec that passes validation has exactly one of the two fields.
exactly_one :
    (spec : NodeHealthCheckSpec)
    → validate_min_healthy_max_unhealthy spec ≡ none
    → (is_some spec.min_healthy ≡ true) × (is_some spec.max_unhealthy ≡ false)
      ⊎ (is_some spec.min_healthy ≡ false) × (is_some spec.max_unhealthy ≡ true)
unfolding validate_min_healthy_max_unhealthy
exactly_one spec h = ground arith

from_max_unhealthy-nonneg :
    (total : ℤ) (s : Scaled) {n : ℤ} → from_max_unhealthy total s ≡ ok n → pos 0 ≤ℤ n
from_max_unhealthy-nonneg total (failed e) h = cc
from_max_unhealthy-nonneg total (value m) h = ground (arith, -ℤ_parts total m)

min_healthy_of-nonneg :
    (intstr : IntStr) (total : ℤ) (min max : Option IntOrString) {n : ℤ}
    → min_healthy_of intstr total min max ≡ ok n
    → pos 0 ≤ℤ n
min_healthy_of-nonneg intstr total (some m) max h = ground arith
min_healthy_of-nonneg intstr total none (some m) h =
    from_max_unhealthy-nonneg total (intstr.get_scaled_value_from_int_or_percent m total true) h
min_healthy_of-nonneg intstr total none none h = cc

-- A number of healthy nodes that the code goes on with is never negative, whatever the fields hold.
pub get_min_healthy_nonneg :
    (intstr : IntStr) (spec : NodeHealthCheckSpec) (total n : ℤ)
    → get_min_healthy intstr spec total ≡ ok n
    → pos 0 ≤ℤ n
unfolding get_min_healthy
get_min_healthy_nonneg intstr spec total n h =
    elim (Option-cases (validate_min_healthy_max_unhealthy spec)) [
      | inl v ↦
          min_healthy_of-nonneg intstr total spec.min_healthy spec.max_unhealthy
            (rw (v, get_min_healthy) at h)
      | inr (e, v) ↦ cc (rw (v, get_min_healthy) at h)
    ]

-- The last error of getMinHealthy, that neither field is given, is never reached.
pub get_min_healthy-ne-one_should_be_specified :
    (intstr : IntStr) (spec : NodeHealthCheckSpec) (total : ℤ)
    → get_min_healthy intstr spec total ≢ err one_should_be_specified
unfolding get_min_healthy
get_min_healthy-ne-one_should_be_specified intstr spec total h =
    elim (Option-cases (validate_min_healthy_max_unhealthy spec)) [
      | inl v ↦ reached (exactly_one spec v) (rw (v, get_min_healthy) at h)
      | inr (e, v) ↦ cc (rw (v, get_min_healthy) at h)
    ]
  where
    reached :
        (is_some spec.min_healthy ≡ true) × (is_some spec.max_unhealthy ≡ false)
          ⊎ (is_some spec.min_healthy ≡ false) × (is_some spec.max_unhealthy ≡ true)
        → min_healthy_of intstr total spec.min_healthy spec.max_unhealthy
          ≢ err one_should_be_specified
    reached h k = ground arith

from_max_unhealthy-ok :
    (total m : ℤ) → pos 0 ≤ℤ m → m ≤ℤ total → from_max_unhealthy total (value m) ≡ ok (total -ℤ m)
from_max_unhealthy-ok total m h k = ground arith

is_below_iff :
    (total m healthy : ℤ) → (is_below healthy (total -ℤ m) ≡ true) ↔ (m <ℤ total -ℤ healthy)
is_below_iff total m healthy =
    (λ b. omega (int_laws, ltb→lt _ _ b), λ lt. lt→ltb _ _ (omega int_laws))

-- With `maxUnhealthy` given as the integer `m`, between 0 and the number of selected nodes, there is
-- a threshold, and the healthy nodes are below it exactly when more than `m` of the selected nodes
-- are not healthy.
pub max_unhealthy_gate :
    (intstr : IntStr) (spec : NodeHealthCheckSpec) (total m healthy : ℤ)
    → validate_min_healthy_max_unhealthy spec ≡ none
    → spec.max_unhealthy ≡ some (int_val m)
    → pos 0 ≤ℤ m
    → m ≤ℤ total
    → (get_min_healthy intstr spec total ≡ ok (total -ℤ m))
      × ((is_below healthy (total -ℤ m) ≡ true) ↔ (m <ℤ total -ℤ healthy))
max_unhealthy_gate intstr spec total m healthy v given h k = (
  rw (validated intstr spec total v) (
      rw (no_min, given)
        (rw (intstr.scaled-int_val m total true) (from_max_unhealthy-ok total m h k))),
  is_below_iff total m healthy,
)
  where
    no_min : spec.min_healthy ≡ none
    no_min = ground (arith, exactly_one spec v)
