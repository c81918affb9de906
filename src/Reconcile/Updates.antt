-- ===== src/Reconcile/Updates.antt =====
-- The unhealthy nodes of the status change by the updates of Status.Unique only: whatever these keep
-- true stays true over remediate, and over the loops of Reconcile.
use node_healthcheck_operato.Prelude.{
  ℤ, String, Bool, true, false, Option, some, List, ◌≡◌, refl, Bool-cases, Option-cases, inl, inr,
  ltb_ℤ, ◌+ℤ◌, ◌&&◌, not,
}
use node_healthcheck_operato.Api.{Node, NodeHealthCheck, UnhealthyNode}
use node_healthcheck_operato.Remediation.{Unstructured, remediation_failed}
use node_healthcheck_operato.Status.{update_status_remediation_started, find_status_remediation}
use node_healthcheck_operato.Status.Unique.{
  Update, remediation_started, node_healthy, timed_out_at, apply,
}
use node_healthcheck_operato.Status.Tracking.{is_started_from}
use node_healthcheck_operato.Cluster.{
  Error, is_already_held, is_lease_over_due, History, Answer-cases,
}
use node_healthcheck_operato.Manager.{Creation, create_remediation_cr}
use node_healthcheck_operato.Escalation.{get_remediation_duration}
use node_healthcheck_operato.Templates.{get_current_template_with_timeout}
use node_healthcheck_operato.Remediate.Setup.{
  Reconciler, sorted_remediations, is_cr_not_owned, is_no_template_left,
  is_control_plane_remediation_allowed, generate_remediation_cr_for_node,
}
use node_healthcheck_operato.Remediate.Outcome.{
  add_time_out_annotation, handle_overdue_lease, handle_creation_error, handle_timeout,
  check_timeout, after_creation,
}
use node_healthcheck_operato.Remediate.Run.{
  with_label, remediate_with, remediate_allowed, remediate,
}

abbrev pub is_removal : Update → Bool
is_removal (node_healthy n) = true
is_removal _ = false

-- Updates that remove no entry keep `P`.
abbrev pub IsKeptByMarks : (List UnhealthyNode → Type 0) → Type 0
IsKeptByMarks P =
    (u : Update) (us : List UnhealthyNode) → is_removal u ≡ false → P us → P (apply u us)

module _ (P : List UnhealthyNode → Type 0) (keep : IsKeptByMarks P) (r : Reconciler) (now : ℤ)
    (node : Node) where
  overdue-marked :
      (template_name : String) (cr : Unstructured) (us : List UnhealthyNode) (h : History)
      → P us
      → P (handle_overdue_lease r now node template_name cr us h).0.unhealthy_nodes
  unfolding handle_overdue_lease apply
  overdue-marked template_name cr us h p =
      let p' = keep (timed_out_at node.name (is_started_from cr template_name) now) us refl p in
      elim (Option-cases (add_time_out_annotation r now cr h).0) [
        | inr (e, broken) ↦ rw (broken, handle_overdue_lease) p
        | inl fine ↦
            elim (Option-cases
              (find_status_remediation node.name (is_started_from cr template_name) us)) [
                | inl missing ↦ rw (fine, handle_overdue_lease) (rw missing p)
                | inr (started, found) ↦ rw (fine, handle_overdue_lease) (rw found p')
              ]
      ]

  creation_error-marked :
      (template_name : String) (c : Creation) (e : Error) (us : List UnhealthyNode) (h : History)
      → P us
      → P (handle_creation_error r now node template_name c e us h).0.unhealthy_nodes
  unfolding handle_creation_error
  creation_error-marked template_name c e us h p = elim (Bool-cases (is_already_held e)) [
    | inl held ↦ rw (held, handle_creation_error) p
    | inr not_held ↦ elim (Bool-cases (is_lease_over_due e)) [
      | inl overdue ↦
          rw (not_held, handle_creation_error)
            (rw overdue (overdue-marked template_name c.cr us h p))
      | inr not_due ↦ elim (Bool-cases (is_cr_not_owned e)) [
        | inl foreign ↦ rw (not_held, handle_creation_error) (rw not_due (rw foreign p))
        | inr other ↦ rw (not_held, handle_creation_error) (rw not_due (rw other p))
      ]
    ]
  ]

  timeout-marked :
      (template_name : String) (cr : Unstructured) (us : List UnhealthyNode) (h : History)
      → P us
      → P (handle_timeout r now node template_name cr us h).0.unhealthy_nodes
  unfolding handle_timeout apply
  timeout-marked template_name cr us h p =
      let p' = keep (timed_out_at node.name (is_started_from cr template_name) now) us refl p in
      elim (Option-cases (add_time_out_annotation r now cr h).0) [
        | inr (e, broken) ↦ rw (broken, handle_timeout) p
        | inl fine ↦ rw (fine, handle_timeout) p'
      ]

  check-marked :
      (template_name : String) (timeout : ℤ) (c : Creation) (us : List UnhealthyNode) (h : History)
      → P us
      → P (check_timeout r now node template_name timeout c us h).0.unhealthy_nodes
  unfolding check_timeout
  check-marked template_name timeout c us h p =
      elim (Option-cases
        (find_status_remediation node.name (is_started_from c.cr template_name) us)) [
          | inl missing ↦ rw (missing, check_timeout) p
          | inr (started, found) ↦ elim (Option-cases started.timed_out) [
            | inr (t, marked) ↦ rw (found, check_timeout) (rw marked p)
            | inl fresh ↦
                elim (Bool-cases
                  (not (ltb_ℤ (started.started +ℤ timeout) now) && not (remediation_failed c.cr))) [
                    | inl waits ↦ rw (found, check_timeout) (rw fresh (rw waits p))
                    | inr over ↦
                        rw (found, check_timeout)
                          (rw fresh (rw over (timeout-marked template_name c.cr us h p)))
                  ]
          ]
        ]

  after-marked :
      (template_name : String) (timeout : Option ℤ) (c : Creation) (us : List UnhealthyNode)
      (h : History)
      → P us
      → P (after_creation r now node template_name timeout c us h).0.unhealthy_nodes
  unfolding after_creation apply
  after-marked template_name timeout c us h p =
      let p' = keep (remediation_started node.name c.cr) us refl p in
      let us' = update_status_remediation_started node.name c.cr us in
      elim (Option-cases c.error) [
        | inr (e, broken) ↦
            rw (broken, after_creation) (creation_error-marked template_name c e us h p)
        | inl fine ↦ elim (Bool-cases c.created) [
          | inl new ↦ rw (fine, after_creation) (rw new p')
          | inr old ↦ elim (Option-cases timeout) [
            | inl forever ↦ rw (fine, after_creation) (rw old (rw forever p'))
            | inr (t, limited) ↦
                rw (fine, after_creation)
                  (rw old (rw limited (check-marked template_name t c us' h p')))
          ]
        ]
      ]

  with-marked :
      (nhc : NodeHealthCheck) (template : Unstructured) (timeout : Option ℤ)
      (us : List UnhealthyNode) (h : History)
      → P us
      → P (remediate_with r now node nhc template timeout us h).0.unhealthy_nodes
  unfolding remediate_with
  with-marked nhc template timeout us h p =
      let generation = generate_remediation_cr_for_node r now node template h in
      elim (Answer-cases generation.0) [
        | inl (e, broken) ↦ rw (broken, remediate_with) p
        | inr (cr, generated) ↦
            let cr' = with_label (r.manager.environment.is_control_plane node) cr in
            let durations = get_remediation_duration (sorted_remediations nhc.spec) cr'.gvk.kind in
            let creation =
              create_remediation_cr r.manager now cr' (some node.name) durations.0 durations.1
                generation.1 in
            rw (generated, remediate_with)
              (after-marked template.name timeout creation.0 us creation.1 p)
      ]

  allowed-marked :
      (nhc : NodeHealthCheck) (us : List UnhealthyNode) (h : History)
      → P us
      → P (remediate_allowed r now node nhc us h).0.unhealthy_nodes
  unfolding remediate_allowed
  allowed-marked nhc us h p =
      let current =
        get_current_template_with_timeout r.manager.environment node.name nhc.spec us h in
      elim (Answer-cases current.0) [
        | inr ((template, timeout), chosen) ↦
            rw (chosen, remediate_allowed) (with-marked nhc template timeout us current.1 p)
        | inl (e, broken) ↦ elim (Bool-cases (is_no_template_left e)) [
          | inl none_left ↦ rw (broken, remediate_allowed) (rw none_left p)
          | inr other ↦ rw (broken, remediate_allowed) (rw other p)
        ]
      ]

  pub remediate-marked :
      (nhc : NodeHealthCheck) (us : List UnhealthyNode) (h : History)
      → P us
      → P (remediate r now node nhc us h).0.unhealthy_nodes
  unfolding remediate
  remediate-marked nhc us h p =
      let check = is_control_plane_remediation_allowed r node nhc h in
      elim (Bool-cases (r.manager.environment.is_control_plane node)) [
        | inr worker ↦ rw (worker, remediate) (allowed-marked nhc us h p)
        | inl control_plane ↦ elim (Answer-cases check.0) [
          | inl (e, broken) ↦ rw (control_plane, remediate) (rw broken p)
          | inr (true, yes_it_is) ↦
              rw (control_plane, remediate) (rw yes_it_is (allowed-marked nhc us check.1 p))
          | inr (false, refused) ↦ rw (control_plane, remediate) (rw refused p)
        ]
      ]
