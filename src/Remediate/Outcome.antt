-- ===== src/Remediate/Outcome.antt =====
-- What remediate of internal/controller/nodehealthcheck_controller.go does after CreateRemediationCR:
-- errors, a new CR, a timeout. `now` is the clock reading of the call.
use node_healthcheck_operato.Prelude.{
  ℤ, ◌+ℤ◌, ◌-ℤ◌, ltb_ℤ, second, String, ◌&&◌, not, Option, none, some, List, ◌∷◌, insert,
  if◌then◌else◌,
}
use node_healthcheck_operato.Api.{Node, UnhealthyNode}
use node_healthcheck_operato.Requeue.{min_requeue_duration}
use node_healthcheck_operato.Remediation.{Unstructured, remediation_failed, remediation_succeeded}
use node_healthcheck_operato.Status.{
  update_status_remediation_started, find_status_remediation, mark_timed_out,
}
use node_healthcheck_operato.Status.Tracking.{is_started_from}
use node_healthcheck_operato.Cluster.{
  Error, other, wrapped, is_already_held, is_lease_over_due, Answer, ok, failed, update_cr, History,
}
use node_healthcheck_operato.Manager.{Creation}
use node_healthcheck_operato.Remediate.Setup.{
  Reconciler, Remediated, fails, is_cr_not_owned, nhc_timed_out_annotation, returns,
}

abbrev pub updated : Answer Unstructured → Option Error
updated (failed e) = some (wrapped "failed to update remediation CR with timeout annotation" e)
updated (ok cr) = none

abbrev pub plus_second : Option ℤ → Option ℤ
plus_second none = none
plus_second (some timeout) = some (timeout +ℤ second)

module _ (r : Reconciler) where
  -- addTimeOutAnnotation, for a CR that has not succeeded.
  unfoldable pub add_time_out_annotation : ℤ → Unstructured → History → Option Error × History
  add_time_out_annotation now cr h =
      if remediation_succeeded cr
      then (none, h)
      else let cr' = record cr {
        annotations = insert nhc_timed_out_annotation (r.clock.format now) cr.annotations;
      } in
        (updated (r.manager.environment.on_update_cr h cr'), update_cr cr' ∷ h)

  -- The lease is overdue: the annotation comes before the status.
  unfoldable pub handle_overdue_lease :
      ℤ → Node → String → Unstructured → List UnhealthyNode → History → Remediated × History
  unfolding add_time_out_annotation
  handle_overdue_lease now node template_name cr us h =
      let (error, h') = add_time_out_annotation now cr h in
      elim error [
        | some e ↦ (fails e us, h')
        | none ↦ elim (find_status_remediation node.name (is_started_from cr template_name) us) [
          | none ↦ (
            fails (other "failed to find started remediation in status for handling overdue lease")
                us,
            h',
          )
          | some started ↦ (
            returns none (mark_timed_out node.name (is_started_from cr template_name) now us),
            h',
          )
        ]
      ]

  unfoldable pub handle_creation_error :
      ℤ → Node → String → Creation → Error → List UnhealthyNode → History → Remediated × History
  unfolding handle_overdue_lease
  handle_creation_error now node template_name creation e us h =
      if is_already_held e
      then (returns creation.requeue us, h)
      else if is_lease_over_due e
      then handle_overdue_lease now node template_name creation.cr us h
      else if is_cr_not_owned e
      then (returns none us, h)
      else (fails (wrapped "failed to create remediation CR" e) us, h)

  -- A remediation that was started has timed out or failed.
  unfoldable pub handle_timeout :
      ℤ → Node → String → Unstructured → List UnhealthyNode → History → Remediated × History
  unfolding add_time_out_annotation
  handle_timeout now node template_name cr us h =
      let (error, h') = add_time_out_annotation now cr h in
      elim error [
        | some e ↦ (fails e us, h')
        | none ↦ (
          returns (some second)
              (mark_timed_out node.name (is_started_from cr template_name) now us),
          h',
        )
      ]

  -- The CR existed already, and its remediation has a timeout.
  unfoldable pub check_timeout :
      ℤ → Node → String → ℤ → Creation → List UnhealthyNode → History → Remediated × History
  unfolding handle_timeout
  check_timeout now node template_name timeout creation us h =
      elim (find_status_remediation node.name (is_started_from creation.cr template_name) us) [
        | none ↦ (
          fails (other "failed to find started remediation in status for handling timeout") us,
          h,
        )
        | some started ↦ elim started.timed_out [
          | some t ↦
              (fails (other "unexpected timout found on started remediation in status") us, h)
          | none ↦
              if not (ltb_ℤ (started.started +ℤ timeout) now)
                && not (remediation_failed creation.cr)
              then (
                returns
                    (min_requeue_duration creation.requeue
                      (some (started.started +ℤ timeout -ℤ now)))
                    us,
                h,
              )
              else handle_timeout now node template_name creation.cr us h
        ]
      ]

  -- remediate after CreateRemediationCR.
  unfoldable pub after_creation :
      ℤ → Node → String → Option ℤ → Creation → List UnhealthyNode → History → Remediated × History
  unfolding handle_creation_error check_timeout
  after_creation now node template_name timeout creation us h = elim creation.error [
    | some e ↦ handle_creation_error now node template_name creation e us h
    | none ↦
        let us' = update_status_remediation_started node.name creation.cr us in
        if creation.created
        then (returns (min_requeue_duration creation.requeue (plus_second timeout)) us', h)
        else elim timeout [
          | none ↦ (returns creation.requeue us', h)
          | some t ↦ check_timeout now node template_name t creation us' h
        ]
  ]
