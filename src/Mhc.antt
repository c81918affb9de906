-- ===== src/Mhc.antt =====
-- Conflicts with MachineHealthChecks, internal/controller/mhc/checker.go. `none` stands for a failed
-- request for the list of MachineHealthChecks.
pub mod Checked
use node_healthcheck_operato.Prelude.{
  String, Bool, true, false, ◌&&◌, Option, none, some, List, [], ◌∷◌, any, ◌==◌, if◌then◌else◌,
}
use node_healthcheck_operato.Api.{Node, NodeCondition, UnhealthyCondition}
use node_healthcheck_operato.MachineApi.{MachineHealthCheck}

pub data MhcStatus : Type 0 where
  unknown no_mhc termination_mhc_only custom_mhc : MhcStatus

abbrev pub node_condition_terminating : String
node_condition_terminating = "Terminating"

abbrev pub is_terminating_only : List UnhealthyCondition → Bool
is_terminating_only [] = false
is_terminating_only (c ∷ []) = c.type == node_condition_terminating
is_terminating_only (c ∷ c' ∷ cs) = false

abbrev pub status_of : List MachineHealthCheck → MhcStatus
status_of [] = no_mhc
status_of (mhc ∷ []) =
    if is_terminating_only mhc.spec.unhealthy_conditions then termination_mhc_only else custom_mhc
status_of (mhc ∷ mhc' ∷ mhcs) = custom_mhc

abbrev pub same_status : MhcStatus → MhcStatus → Bool
same_status unknown unknown = true
same_status no_mhc no_mhc = true
same_status termination_mhc_only termination_mhc_only = true
same_status custom_mhc custom_mhc = true
same_status _ _ = false

-- UpdateStatus: whether the NodeHealthCheck reconciler is notified, and the new status.
unfoldable pub update_status : MhcStatus → Option (List MachineHealthCheck) → Bool × MhcStatus
update_status status none = (false, status)
update_status status (some mhcs) =
    let status' = status_of mhcs in (if same_status status' status then false else true, status')

-- NeedDisableNHC.
unfoldable pub need_disable_nhc : MhcStatus → Bool
need_disable_nhc unknown = false
need_disable_nhc no_mhc = false
need_disable_nhc termination_mhc_only = false
need_disable_nhc custom_mhc = true

-- NeedIgnoreNode.
unfoldable pub need_ignore_node : MhcStatus → Node → Bool
need_ignore_node no_mhc node = false
need_ignore_node _ node =
    any (λ (c : NodeCondition). c.type == node_condition_terminating) node.conditions
