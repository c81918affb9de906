-- ===== src/Reconcile/Alert.antt =====
-- Remediation CRs that are very old, and nodes that are left alone: alertOldRemediationCR and
-- isNodeRemediationExcluded of internal/controller/nodehealthcheck_controller.go.
use node_healthcheck_operato.Prelude.{
  ℤ, pos, ◌+ℤ◌, ◌-ℤ◌, ltb_ℤ, minute, String, Bool, false, not, Option, none, some, List, [], ◌∷◌,
  has_key, insert, lookup, is_some, ◌==◌, if◌then◌else◌,
}
use node_healthcheck_operato.Api.{Node}
use node_healthcheck_operato.Remediation.{Unstructured}
use node_healthcheck_operato.Requeue.{update_requeue_after}
use node_healthcheck_operato.Cluster.{update_cr, History, Environment}
use node_healthcheck_operato.Manager.Healthy.{update_error}
use node_healthcheck_operato.NodeEvents.{exclude_from_remediation_label}

abbrev pub old_remediation_cr_annotation : String
old_remediation_cr_annotation = "nodehealthcheck.medik8s.io/old-remediation-cr-flag"

-- 48 hours.
abbrev pub remediation_cr_alert_timeout : ℤ
remediation_cr_alert_timeout = pos 172800000000000

abbrev pub flagged : Unstructured → Unstructured
flagged cr = record cr {
  annotations = insert old_remediation_cr_annotation "flagon" cr.annotations;
}

-- alertOldRemediationCR: whether to alert, and when to look again.
unfoldable pub alert_old_remediation_cr :
    Environment → ℤ → Unstructured → History → (Bool × Option ℤ) × History
alert_old_remediation_cr env now cr h =
    if ltb_ℤ (cr.creation_timestamp +ℤ remediation_cr_alert_timeout) now
    then (if has_key old_remediation_cr_annotation cr.annotations then ((false, none), h) else (
      (not (is_some (update_error (env.on_update_cr h (flagged cr)))), none),
      update_cr (flagged cr) ∷ h,
    ))
    else (
      (false, some (remediation_cr_alert_timeout -ℤ (now -ℤ cr.creation_timestamp) +ℤ minute)),
      h,
    )

-- The loop of Reconcile over the CRs of a node, with the requeue time so far.
unfoldable pub alert_all : Environment → ℤ → List Unstructured → ℤ → History → ℤ × History
unfolding alert_old_remediation_cr
alert_all env now [] requeue h = (requeue, h)
alert_all env now (cr ∷ crs) requeue h =
    let ((is_alert, wish), h') = alert_old_remediation_cr env now cr h in
    alert_all env now crs (update_requeue_after requeue wish) h'

-- isNodeRemediationExcluded.
unfoldable pub is_node_remediation_excluded : Node → Bool
is_node_remediation_excluded node = elim (lookup exclude_from_remediation_label node.labels) [
  | none ↦ false
  | some v ↦ v == "true"
]
