-- ===== src/Health.antt =====
-- When a node counts as unhealthy: internal/controller/utils/conditions.go (isHealthy, shared code
-- that the MachineHealthCheck reconciler uses) and internal/controller/nodehealthcheck_controller.go
-- (matchesUnhealthyConditions, checkNodeConditions). `now` is the clock reading of a call.
pub mod Matching
pub mod Classes
pub mod Pending
pub mod Lasting
use node_healthcheck_operato.Prelude.{
  ℤ, pos, ◌+ℤ◌, ◌-ℤ◌, ltb_ℤ, second, String, Bool, true, false, ◌&&◌, Option, none, some, List, [],
  ◌∷◌, ◌++◌, ◌==◌, if◌then◌else◌,
}
use node_healthcheck_operato.Api.{Node, NodeCondition, UnhealthyCondition, NodeHealthCheck}
use node_healthcheck_operato.Requeue.{min_requeue_duration}

-- `nodeConditionByType[type]` after the loop that fills the map: a later condition of a type
-- replaces an earlier one.
abbrev pub node_condition_by_type : List NodeCondition → String → Option NodeCondition
node_condition_by_type [] type = none
node_condition_by_type (nc ∷ ncs) type = elim (node_condition_by_type ncs type) [
  | some later ↦ some later
  | none ↦ if nc.type == type then some nc else none
]

-- When the node has the unhealthy condition: the end of its duration.
abbrev pub expiry_of : UnhealthyCondition → Option NodeCondition → Option ℤ
expiry_of c none = none
expiry_of c (some n) =
    if n.status == c.status then some (n.last_transition_time +ℤ c.duration) else none

unfoldable pub expiry : List NodeCondition → UnhealthyCondition → Option ℤ
expiry conditions c = expiry_of c (node_condition_by_type conditions c.type)

-- isHealthy: returns at the first condition that the node has, whether its duration is over or not.
unfoldable pub is_healthy : ℤ → List NodeCondition → List UnhealthyCondition → Bool × Option ℤ
is_healthy now conditions [] = (true, none)
is_healthy now conditions (c ∷ cs) = elim (expiry conditions c) [
  | none ↦ is_healthy now conditions cs
  | some end ↦ if ltb_ℤ end now then (false, none) else (true, some (end -ℤ now +ℤ second))
]

-- The loop of matchesUnhealthyConditions, with `expiresAfter` so far.
unfoldable pub matches_loop :
    ℤ → List NodeCondition → Option ℤ → List UnhealthyCondition → Bool × Option ℤ
matches_loop now conditions expires_after [] = (false, expires_after)
matches_loop now conditions expires_after (c ∷ cs) = elim (expiry conditions c) [
  | none ↦ matches_loop now conditions expires_after cs
  | some end ↦
      let later =
        matches_loop now conditions
          (min_requeue_duration expires_after (some (end -ℤ now +ℤ second))) cs in
      if ltb_ℤ end now then (true, none) else later
]

unfoldable pub matches_unhealthy_conditions : ℤ → NodeHealthCheck → Node → Bool × Option ℤ
unfolding matches_loop
matches_unhealthy_conditions now nhc node =
    matches_loop now node.conditions none nhc.spec.unhealthy_conditions

-- The three lists and the requeue time of checkNodeConditions.
pub record NodeClasses : Type 0 where
  pub not_matching : List Node
  pub soon_matching : List Node
  pub matching : List Node
  pub requeue_after : Option ℤ

abbrev pub is_positive : Option ℤ → Bool
is_positive none = false
is_positive (some d) = ltb_ℤ (pos 0) d

-- One round of the loop; `need_ignore_node` is the MHC checker's.
unfoldable pub check_node : ℤ → NodeHealthCheck → (Node → Bool) → NodeClasses → Node → NodeClasses
check_node now nhc need_ignore_node acc node =
    let (matches, this_requeue_after) = matches_unhealthy_conditions now nhc node in
    if matches
    then (if need_ignore_node node
        then record acc { not_matching = acc.not_matching ++ node ∷ [] }
        else record acc { matching = acc.matching ++ node ∷ [] })
    else if is_positive this_requeue_after
    then record acc {
      soon_matching = acc.soon_matching ++ node ∷ [];
      requeue_after = min_requeue_duration acc.requeue_after this_requeue_after;
    }
    else record acc { not_matching = acc.not_matching ++ node ∷ [] }

unfoldable pub check_nodes :
    ℤ → NodeHealthCheck → (Node → Bool) → NodeClasses → List Node → NodeClasses
unfolding check_node
check_nodes now nhc need_ignore_node acc [] = acc
check_nodes now nhc need_ignore_node acc (node ∷ nodes) =
    check_nodes now nhc need_ignore_node (check_node now nhc need_ignore_node acc node) nodes

unfoldable pub check_node_conditions : ℤ → NodeHealthCheck → (Node → Bool) → List Node → NodeClasses
unfolding check_nodes
check_node_conditions now nhc need_ignore_node nodes =
    check_nodes now nhc need_ignore_node
      (record { not_matching = []; soon_matching = []; matching = []; requeue_after = none }) nodes
