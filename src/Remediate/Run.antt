-- ===== src/Remediate/Run.antt =====
-- remediate of internal/controller/nodehealthcheck_controller.go. `now` is the clock reading of the
-- call.
use node_healthcheck_operato.Prelude.{
  ℤ, minute, Bool, true, false, Option, none, some, List, insert, if◌then◌else◌,
}
use node_healthcheck_operato.Api.{Node, NodeHealthCheck, UnhealthyNode}
use node_healthcheck_operato.Remediation.{Unstructured}
use node_healthcheck_operato.Escalation.{get_remediation_duration}
use node_healthcheck_operato.Cluster.{wrapped, ok, failed, History}
use node_healthcheck_operato.Manager.{create_remediation_cr}
use node_healthcheck_operato.Templates.{get_current_template_with_timeout}
use node_healthcheck_operato.Remediate.Setup.{
  Reconciler, Remediated, fails, generate_remediation_cr_for_node,
  is_control_plane_remediation_allowed, is_no_template_left, remediation_control_plane_label,
  returns, sorted_remediations,
}
use node_healthcheck_operato.Remediate.Outcome.{after_creation}

abbrev pub with_label : Bool → Unstructured → Unstructured
with_label true cr = record cr { labels = insert remediation_control_plane_label "" cr.labels }
with_label false cr = cr

module _ (r : Reconciler) where
  -- remediate with the template that it uses.
  unfoldable pub remediate_with :
      ℤ
      → Node
      → NodeHealthCheck
      → Unstructured
      → Option ℤ
      → List UnhealthyNode
      → History
      → Remediated × History
  unfolding generate_remediation_cr_for_node after_creation
  remediate_with now node nhc template timeout us h =
      let (generated, h1) = generate_remediation_cr_for_node r now node template h in
      elim generated [
        | failed e ↦ (fails (wrapped "failed to generate remediation CR" e) us, h1)
        | ok cr ↦
            let cr' = with_label (r.manager.environment.is_control_plane node) cr in
            let (current, previous) =
              get_remediation_duration (sorted_remediations nhc.spec) cr'.gvk.kind in
            let (creation, h2) =
              create_remediation_cr r.manager now cr' (some node.name) current previous h1 in
            after_creation r now node template.name timeout creation us h2
      ]

  -- remediate after the check of control plane nodes.
  unfoldable pub remediate_allowed :
      ℤ → Node → NodeHealthCheck → List UnhealthyNode → History → Remediated × History
  unfolding remediate_with
  remediate_allowed now node nhc us h =
      let (current, h1) =
        get_current_template_with_timeout r.manager.environment node.name nhc.spec us h in
      elim current [
        | failed e ↦
            if is_no_template_left e
            then (returns none us, h1)
            else (fails (wrapped "failed to get current template" e) us, h1)
        | ok (template, timeout) ↦ remediate_with now node nhc template timeout us h1
      ]

  -- remediate; the status holds the unhealthy nodes `us`.
  unfoldable pub remediate :
      ℤ → Node → NodeHealthCheck → List UnhealthyNode → History → Remediated × History
  remediate now node nhc us h =
      if r.manager.environment.is_control_plane node
      then (let (allowed, h1) = is_control_plane_remediation_allowed r node nhc h in
          elim allowed [
            | failed e ↦
                (fails (wrapped "failed to check if control plane remediation is allowed" e) us, h1)
            | ok true ↦ remediate_allowed now node nhc us h1
            | ok false ↦ (returns (some minute) us, h1)
          ])
      else remediate_allowed now node nhc us h
