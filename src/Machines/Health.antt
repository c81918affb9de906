-- ===== src/Machines/Health.antt =====
-- Whether a machine needs remediation: checkHealth, needsRemediation and getNodeStartupTimeout of
-- internal/controller/machinehealthcheck_controller.go. `now` is the clock reading of a call.
use node_healthcheck_operato.Prelude.{
  ℤ, pos, ◌+ℤ◌, ◌-ℤ◌, ltb_ℤ, eqb_ℤ, second, String, Bool, true, false, Option, none, some, List, [],
  ◌∷◌, ◌++◌, ◌==◌, if◌then◌else◌,
}
use node_healthcheck_operato.Api.{Node}
use node_healthcheck_operato.MachineApi.{Machine, MachineHealthCheck}
use node_healthcheck_operato.Requeue.{min_requeue_duration}
use node_healthcheck_operato.Health.{is_healthy}

-- The node of a target: a nil pointer, an object with only a name and no UID, or an object of the API
-- server, which has a UID and a resource version.
pub data TargetNode : Type 0 where
  no_node_ref : TargetNode
  missing : String → TargetNode
  existing : Node → TargetNode

-- Target of internal/controller/resources/mhc.go.
pub record Target : Type 0 where
  pub machine : Machine
  pub node : TargetNode
  pub mhc : MachineHealthCheck

abbrev pub default_node_startup_timeout : ℤ
default_node_startup_timeout = pos 600000000000

-- getNodeStartupTimeout.
abbrev pub get_node_startup_timeout : MachineHealthCheck → ℤ
get_node_startup_timeout mhc = elim mhc.spec.node_startup_timeout [
  | none ↦ default_node_startup_timeout
  | some timeout ↦ timeout
]

abbrev pub is_failed : Machine → Bool
is_failed machine = elim machine.phase [ none ↦ false | some phase ↦ phase == "Failed" ]

-- Whether a target needs remediation, and when to look again; 0 for never. The error is always nil.
abbrev pub Verdict : Type 0
Verdict = Bool × ℤ

-- The machine has no node yet.
unfoldable pub without_node : ℤ → ℤ → Option ℤ → Verdict
without_node now timeout last_updated =
    if eqb_ℤ timeout (pos 0) then (false, pos 0) else elim last_updated [
      | none ↦ (false, timeout)
      | some updated ↦
          if ltb_ℤ (updated +ℤ timeout) now
          then (true, pos 0)
          else (false, timeout -ℤ (now -ℤ updated) +ℤ second)
    ]

abbrev pub of_conditions : Bool × Option ℤ → Verdict
of_conditions (false, requeue) = (true, pos 0)
of_conditions (true, none) = (false, pos 0)
of_conditions (true, some requeue) = (false, requeue)

unfoldable pub of_node : ℤ → Target → TargetNode → Verdict
unfolding without_node
of_node now t no_node_ref = without_node now (get_node_startup_timeout t.mhc) t.machine.last_updated
of_node now t (missing name) = (true, pos 0)
of_node now t (existing node) =
    of_conditions (is_healthy now node.conditions t.mhc.spec.unhealthy_conditions)

-- needsRemediation.
unfoldable pub needs_remediation : ℤ → Target → Verdict
unfolding of_node
needs_remediation now t = if is_failed t.machine then (true, pos 0) else of_node now t t.node

-- What checkHealth returns; its list of errors is always empty.
pub record CheckedHealth : Type 0 where
  pub healthy : List Target
  pub need_remediation : List Target
  pub requeue_in : ℤ

-- `*utils.MinRequeueDuration(&overallRequeueIn, &requeueIn)`.
abbrev pub or_zero : Option ℤ → ℤ
or_zero none = pos 0
or_zero (some d) = d

abbrev pub classify : Verdict → Target → CheckedHealth → CheckedHealth
classify (true, requeue) t acc = record acc { need_remediation = acc.need_remediation ++ t ∷ [] }
classify (false, requeue) t acc =
    if ltb_ℤ (pos 0) requeue
    then record acc {
      requeue_in = or_zero (min_requeue_duration (some acc.requeue_in) (some requeue));
    }
    else record acc { healthy = acc.healthy ++ t ∷ [] }

unfoldable pub check_targets : ℤ → List Target → CheckedHealth → CheckedHealth
unfolding needs_remediation
check_targets now [] acc = acc
check_targets now (t ∷ ts) acc = check_targets now ts (classify (needs_remediation now t) t acc)

-- checkHealth.
unfoldable pub check_health : ℤ → List Target → CheckedHealth
unfolding check_targets
check_health now targets =
    check_targets now targets (record { healthy = []; need_remediation = []; requeue_in = pos 0 })
