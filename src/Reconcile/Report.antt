-- ===== src/Reconcile/Report.antt =====
-- The end of Reconcile of internal/controller/nodehealthcheck_controller.go: the phase and its reason,
-- and the patch of the status (patchStatus).
use node_healthcheck_operato.Prelude.{
  ℤ, ltb_ℤ, String, Bool, true, false, not, Option, none, some, List, [], ◌∷◌, any, length,
  is_empty, join, itoa, str_append, if◌then◌else◌,
}
use node_healthcheck_operato.Api.{
  NhcPhase, disabled, paused, remediating, enabled, UnhealthyNode, Condition, NodeHealthCheck,
  condition_type_disabled,
}
use node_healthcheck_operato.Conditions.{ConditionMeta, is_condition_true}
use node_healthcheck_operato.Cluster.{
  Error, other, wrapped, panicked, is_not_found, Answer, ok, failed, get_nhc, patch_status, History,
  Environment,
}

-- isRemediating.
abbrev pub is_remediating : List UnhealthyNode → Bool
is_remediating us = any (λ (u : UnhealthyNode). not (is_empty u.remediations)) us

abbrev pub in_phase : NhcPhase → String → NodeHealthCheck → NodeHealthCheck
in_phase phase reason nhc = record nhc {
  status = record nhc.status { phase = phase; reason = reason };
}

abbrev pub disabled_reason : Option Condition → String
disabled_reason none = ""
disabled_reason (some c) =
    str_append "NHC is disabled: " (str_append c.reason (str_append ": " c.message))

-- The phase and the reason that patchStatus writes.
unfoldable pub with_phase : ConditionMeta → NodeHealthCheck → NodeHealthCheck
with_phase meta nhc =
    let c = meta.find_status_condition nhc.status.conditions condition_type_disabled in
    if is_condition_true meta nhc.status.conditions condition_type_disabled
    then in_phase disabled (disabled_reason c) nhc
    else if not (is_empty nhc.spec.pause_requests)
    then in_phase paused (str_append "NHC is paused: " (join "," nhc.spec.pause_requests)) nhc
    else if is_remediating nhc.status.unhealthy_nodes
    then in_phase remediating
        (str_append "NHC is remediating "
          (str_append (itoa (length nhc.status.unhealthy_nodes)) " nodes"))
        nhc
    else in_phase enabled "NHC is enabled, no ongoing remediation" nhc

-- The test of the poll, for the NodeHealthCheck in the cache and the one after the patch. It follows
-- a nil pointer if the latter has no time.
abbrev pub is_reached : NodeHealthCheck → NodeHealthCheck → Answer Bool
is_reached cached patched = elim cached.status.last_update_time [
  | none ↦ ok false
  | some t ↦ elim patched.status.last_update_time [
    | none ↦ failed panicked
    | some p ↦ ok (not (ltb_ℤ t p))
  ]
]

-- One round of the poll: whether it is done.
abbrev pub poll_round : NodeHealthCheck → Answer NodeHealthCheck → Answer Bool
poll_round patched (failed e) = ok (is_not_found e)
poll_round patched (ok cached) = is_reached cached patched

-- The poll, over what it gets until its time is over.
unfoldable pub poll :
    NodeHealthCheck → List (Answer NodeHealthCheck) → History → Option Error × History
poll patched [] h = (
  some (
      wrapped "failed to wait for updated cache after status patch"
        (other "timed out waiting for the condition")),
  h,
)
poll patched (a ∷ answers) h = elim (poll_round patched a) [
  | failed e ↦ (some e, get_nhc patched.name ∷ h)
  | ok true ↦ (none, get_nhc patched.name ∷ h)
  | ok false ↦ poll patched answers (get_nhc patched.name ∷ h)
]

module _ (env : Environment) where
  unfoldable pub after_patch : Answer NodeHealthCheck → History → Option Error × History
  unfolding poll
  after_patch (failed e) h = (some e, h)
  after_patch (ok patched) h = poll patched (env.on_poll h patched.name) h

  abbrev pub stamped : ℤ → NodeHealthCheck → NodeHealthCheck
  stamped now nhc = record nhc { status = record nhc.status { last_update_time = some now } }

  -- patchStatus, for a NodeHealthCheck with its phase, and the original.
  unfoldable pub send_status :
      ℤ → NodeHealthCheck → NodeHealthCheck → History → Option Error × History
  unfolding after_patch
  send_status now nhc orig h = elim (env.merge_is_empty nhc orig) [
    | failed e ↦ (some e, h)
    | ok true ↦ (none, h)
    | ok false ↦
        let nhc' = stamped now nhc in
        after_patch (env.on_patch_status h nhc') (patch_status nhc' ∷ h)
  ]
