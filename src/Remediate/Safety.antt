-- ===== src/Remediate/Safety.antt =====
-- Which calls remediate makes.
use node_healthcheck_operato.Prelude.{
  ℤ, String, Bool, true, false, Option, some, List, filter, value_of, ◌≡◌, arith, Bool-cases, inl,
  inr,
}
use node_healthcheck_operato.Api.{Node, NodeHealthCheckSpec, NodeHealthCheck, UnhealthyNode}
use node_healthcheck_operato.Remediation.{
  Unstructured, node_name_annotation, get_all_remediation_templates,
}
use node_healthcheck_operato.Cluster.{ok, Call, create_cr, History, Answer-cases}
use node_healthcheck_operato.Manager.{Creation, generate_remediation_cr, create_remediation_cr}
use node_healthcheck_operato.Manager.Safe.{IsSafe}
use node_healthcheck_operato.Manager.Create.{create_remediation_cr-IsSafe}
use node_healthcheck_operato.Manager.Healthy.Keeps.{list-IsSafe}
use node_healthcheck_operato.Escalation.{get_remediation_duration}
use node_healthcheck_operato.Templates.{
  get_template_with_fallback_namespace, get_current_template_with_timeout,
}
use node_healthcheck_operato.Remediate.Setup.{
  Reconciler, has_control_plane_label, sorted_remediations, is_control_plane_remediation_allowed,
  get_owning_machine_with_namespace, generate_remediation_cr_for_node, is_no_template_left,
}
use node_healthcheck_operato.Remediate.Outcome.{
  add_time_out_annotation, handle_overdue_lease, handle_creation_error, handle_timeout,
  check_timeout, after_creation,
}
use node_healthcheck_operato.Remediate.Run.{
  with_label, remediate_with, remediate_allowed, remediate,
}

module _ (r : Reconciler) where
  allowed-IsSafe :
      (node : Node) (nhc : NodeHealthCheck) (h : History)
      → IsSafe r.manager h
      → IsSafe r.manager (is_control_plane_remediation_allowed r node nhc h).1
  unfolding is_control_plane_remediation_allowed
  allowed-IsSafe node nhc h s =
      ground (
        arith,
        list-IsSafe r.manager (get_all_remediation_templates nhc) has_control_plane_label h s,
      )

  template-IsSafe :
      (node_name : String) (spec : NodeHealthCheckSpec) (us : List UnhealthyNode) (h : History)
      → IsSafe r.manager h
      → IsSafe r.manager
          (get_current_template_with_timeout r.manager.environment node_name spec us h).1
  unfolding get_current_template_with_timeout get_template_with_fallback_namespace
  template-IsSafe node_name spec us h s = ground arith

  generate-IsSafe :
      (now : ℤ) (node : Node) (template : Unstructured) (h : History)
      → IsSafe r.manager h
      → IsSafe r.manager (generate_remediation_cr_for_node r now node template h).1
  unfolding generate_remediation_cr_for_node get_owning_machine_with_namespace
  generate-IsSafe now node template h s = ground arith

  annotation-IsSafe :
      (now : ℤ) (cr : Unstructured) (h : History)
      → IsSafe r.manager h
      → IsSafe r.manager (add_time_out_annotation r now cr h).1
  unfolding add_time_out_annotation
  annotation-IsSafe now cr h s = ground arith

  after_creation-IsSafe :
      (now : ℤ) (node : Node) (template_name : String) (timeout : Option ℤ) (c : Creation)
      (us : List UnhealthyNode) (h : History)
      → IsSafe r.manager h
      → IsSafe r.manager (after_creation r now node template_name timeout c us h).1
  unfolding after_creation handle_creation_error check_timeout handle_timeout handle_overdue_lease
  after_creation-IsSafe now node template_name timeout c us h s =
      ground (arith, annotation-IsSafe now c.cr h s)

  -- The generated CR has the annotation of the node.
  generated-named :
      (now : ℤ) (node : Node) (template cr : Unstructured) (h : History) (b : Bool)
      → (generate_remediation_cr_for_node r now node template h).0 ≡ ok cr
      → value_of node_name_annotation (with_label b cr).annotations ≡ node.name
  unfolding generate_remediation_cr_for_node generate_remediation_cr
  generated-named now node template cr h b g = ground arith

  remediate_with-IsSafe :
      (now : ℤ) (node : Node) (nhc : NodeHealthCheck) (template : Unstructured) (timeout : Option ℤ)
      (us : List UnhealthyNode) (h : History)
      → IsSafe r.manager h
      → IsSafe r.manager (remediate_with r now node nhc template timeout us h).1
  unfolding remediate_with
  remediate_with-IsSafe now node nhc template timeout us h s =
      let generation = generate_remediation_cr_for_node r now node template h in
      let s1 = generate-IsSafe now node template h s in
      elim (Answer-cases generation.0) [
        | inl (e, broken) ↦ rw (broken, remediate_with) s1
        | inr (cr, generated) ↦
            let b = r.manager.environment.is_control_plane node in
            let cr' = with_label b cr in
            let durations = get_remediation_duration (sorted_remediations nhc.spec) cr'.gvk.kind in
            let creation =
              create_remediation_cr r.manager now cr' (some node.name) durations.0 durations.1
                generation.1 in
            rw (generated, remediate_with)
              (after_creation-IsSafe now node template.name timeout creation.0 us creation.1 (
                create_remediation_cr-IsSafe r.manager now cr' node.name durations.0 durations.1
                  generation.1 (generated-named now node template cr h b generated) s1))
      ]

  remediate_allowed-IsSafe :
      (now : ℤ) (node : Node) (nhc : NodeHealthCheck) (us : List UnhealthyNode) (h : History)
      → IsSafe r.manager h
      → IsSafe r.manager (remediate_allowed r now node nhc us h).1
  unfolding remediate_allowed
  remediate_allowed-IsSafe now node nhc us h s =
      let current =
        get_current_template_with_timeout r.manager.environment node.name nhc.spec us h in
      let s1 = template-IsSafe node.name nhc.spec us h s in
      elim (Answer-cases current.0) [
        | inl (e, broken) ↦ elim (Bool-cases (is_no_template_left e)) [
          | inl none_left ↦ rw (broken, remediate_allowed) (rw none_left s1)
          | inr other_error ↦ rw (broken, remediate_allowed) (rw other_error s1)
        ]
        | inr ((template, timeout), got) ↦
            rw (got, remediate_allowed)
              (remediate_with-IsSafe now node nhc template timeout us current.1 s1)
      ]

  -- If every call so far was allowed, so is every call of remediate: a CR is created only directly
  -- after none has been found for the node and the template and the node's lease has been granted,
  -- and a CR is deleted only if it has just been returned, owned by us and not yet being deleted.
  pub remediate-IsSafe :
      (now : ℤ) (node : Node) (nhc : NodeHealthCheck) (us : List UnhealthyNode) (h : History)
      → IsSafe r.manager h
      → IsSafe r.manager (remediate r now node nhc us h).1
  unfolding remediate
  remediate-IsSafe now node nhc us h s =
      let check = is_control_plane_remediation_allowed r node nhc h in
      let s1 = allowed-IsSafe node nhc h s in
      elim (Bool-cases (r.manager.environment.is_control_plane node)) [
        | inr worker ↦ rw (worker, remediate) (remediate_allowed-IsSafe now node nhc us h s)
        | inl control_plane ↦ elim (Answer-cases check.0) [
          | inl (e, broken) ↦ rw (control_plane, remediate) (rw broken s1)
          | inr (true, allowed) ↦
              rw (control_plane, remediate)
                (rw allowed (remediate_allowed-IsSafe now node nhc us check.1 s1))
          | inr (false, refused) ↦ rw (control_plane, remediate) (rw refused s1)
        ]
      ]

-- The creations of a history.
abbrev pub is_creation : Call → Bool
is_creation (create_cr cr) = true
is_creation _ = false

abbrev pub creations : History → List Call
creations h = filter is_creation h
