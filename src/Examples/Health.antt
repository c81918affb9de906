-- ===== src/Examples/Health.antt =====
-- Node conditions at a concrete node that is not ready since the time 0, and may be so for five
-- minutes.
use node_healthcheck_operato.Prelude.{
  ℤ, pos, ◌+ℤ◌, ◌-ℤ◌, ◌≤ℤ◌, ◌<ℤ◌, second, true, false, none, some, List, [], ◌∷◌, ◌+◌, ◌≡◌, ◌↔◌,
  refl, length, filter, arith, In,
}
use node_healthcheck_operato.Api.{Node, NodeHealthCheck, NodeCondition, UnhealthyCondition}
use node_healthcheck_operato.Health.{
  matches_unhealthy_conditions, matches_loop, check_node_conditions, is_healthy, expiry,
}
use node_healthcheck_operato.Requeue.{min_requeue_duration}
use node_healthcheck_operato.Health.Matching.{Expired, this}
use node_healthcheck_operato.Health.Lasting.{HasLasted, matches_unhealthy_conditions_iff}
use node_healthcheck_operato.Health.Pending.{requeue_in_time}
use node_healthcheck_operato.Health.Classes.{
  is_unhealthy, is_soon_unhealthy, is_neither, check_node_conditions-partition,
  is_healthy_hides-Expired,
}
use node_healthcheck_operato.Examples.Data.{nhc_with, worker, ready, not_ready, disk_pressure}

abbrev nhc : NodeHealthCheck
nhc = nhc_with [] []

abbrev early : ℤ
early = pos 60000000000

abbrev late : ℤ
late = pos 400000000000

matches_unhealthy_conditions_iff_example :
    ((matches_unhealthy_conditions late nhc worker).0 ≡ true) ↔ (
      (c : UnhealthyCondition) × In c nhc.spec.unhealthy_conditions
      × HasLasted late worker.conditions c)
matches_unhealthy_conditions_iff_example = matches_unhealthy_conditions_iff late nhc worker

asks : matches_unhealthy_conditions early nhc worker ≡ (false, some (pos 241000000000))
unfolding matches_unhealthy_conditions expiry min_requeue_duration ◌+ℤ◌ ◌-ℤ◌
asks = refl

early-healthy : (matches_unhealthy_conditions early nhc worker).0 ≡ false
early-healthy = rw asks

late-unhealthy : (matches_unhealthy_conditions late nhc worker).0 ≡ true
unfolding matches_unhealthy_conditions expiry ◌+ℤ◌
late-unhealthy = refl

requeue_in_time_example :
    (r : ℤ) × ((matches_unhealthy_conditions early nhc worker).1 ≡ some r)
    × (pos 0 <ℤ r)
    × (early +ℤ r ≤ℤ late +ℤ second)
requeue_in_time_example = requeue_in_time early late nhc worker early-healthy late-unhealthy

abbrev nodes : List Node
nodes = worker ∷ ready ∷ []

check_node_conditions-partition_example :
    let r = check_node_conditions late nhc (λ n. false) nodes in
    (r.matching ≡ filter (is_unhealthy late nhc (λ n. false)) nodes)
    × (r.soon_matching ≡ filter (is_soon_unhealthy late nhc (λ n. false)) nodes)
    × (r.not_matching ≡ filter (is_neither late nhc (λ n. false)) nodes)
    × (length r.matching + length r.soon_matching + length r.not_matching ≡ 2)
check_node_conditions-partition_example =
    check_node_conditions-partition late nhc (λ n. false) nodes

late-is_healthy : (is_healthy late worker.conditions (not_ready ∷ [])).0 ≡ false
unfolding is_healthy expiry ◌+ℤ◌
late-is_healthy = refl

-- Not ready for 100 seconds of 300, and under disk pressure for 100 seconds of 60.
abbrev both : List NodeCondition
both =
    record { type = "Ready"; status = "False"; last_transition_time = pos 0 }
    ∷ record { type = "DiskPressure"; status = "True"; last_transition_time = pos 0 }
    ∷ []

abbrev hundred_seconds : ℤ
hundred_seconds = pos 100000000000

expiry-not_ready : expiry both not_ready ≡ some (pos 300000000000)
unfolding expiry ◌+ℤ◌
expiry-not_ready = refl

expiry-disk_pressure : expiry both disk_pressure ≡ some (pos 60000000000)
unfolding expiry ◌+ℤ◌
expiry-disk_pressure = refl

disk_pressure-Expired : Expired hundred_seconds both (disk_pressure ∷ [])
disk_pressure-Expired = this (pos 60000000000) expiry-disk_pressure (omega arith)

is_healthy_hides-Expired_example :
    ((is_healthy hundred_seconds both (not_ready ∷ disk_pressure ∷ [])).0 ≡ true)
    × ((matches_loop hundred_seconds both none (not_ready ∷ disk_pressure ∷ [])).0 ≡ true)
is_healthy_hides-Expired_example =
    is_healthy_hides-Expired hundred_seconds both not_ready (disk_pressure ∷ []) (pos 300000000000)
      expiry-not_ready (omega arith) disk_pressure-Expired
