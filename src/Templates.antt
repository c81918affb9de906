-- ===== src/Templates.antt =====
-- Remediation templates, internal/controller/resources/templates.go.
pub mod Valid
use node_healthcheck_operato.Prelude.{
  ℤ, String, Bool, true, false, ◌&&◌, ◌||◌, not, Option, none, some, List, [], ◌∷◌, contains,
  is_some, ◌==◌, if◌then◌else◌,
}
use node_healthcheck_operato.Api.{
  ObjectReference, EscalatingRemediation, NodeHealthCheck, NodeHealthCheckSpec, UnhealthyNode,
  condition_reason_disabled_template_not_found, condition_reason_disabled_template_invalid,
}
use node_healthcheck_operato.Remediation.{Unstructured, get_all_remediation_templates}
use node_healthcheck_operato.Escalation.{
  Choice, chosen, no_template_left, panics, current_remediation,
}
use node_healthcheck_operato.Cluster.{
  Error, not_found, broken_template, other, wrapped, panicked, is_not_found, Answer, ok, failed,
  Call, get_template, History, Environment,
}
use node_healthcheck_operato.Cluster

-- `err == nil && isNamespaced && template.GetNamespace() == ""`, and the namespace of the template
-- with the fallback to that of the CR.
abbrev pub with_namespace : ObjectReference → String → Answer Bool → Answer ObjectReference
with_namespace ref cr_namespace (failed e) =
    failed (wrapped "failed to check if remediation template is namespaced" e)
with_namespace ref cr_namespace (ok is_namespaced) =
    if is_namespaced && ref.namespace == ""
    then (if cr_namespace == ""
        then failed (other "not found, it is namespaced, but no namespace is provided")
        else ok (record ref { namespace = cr_namespace }))
    else ok ref

abbrev pub checked : Answer Unstructured → Answer Unstructured
checked (failed e) = failed (wrapped "failed to get external remediation template" e)
checked (ok template) =
    if is_some template.template_spec then ok template else failed broken_template

module _ (env : Environment) where
  -- getTemplateWithFallbackNamespace.
  unfoldable pub get_template_with_fallback_namespace :
      ObjectReference → String → History → Answer Unstructured × History
  get_template_with_fallback_namespace ref cr_namespace h =
      elim (with_namespace ref cr_namespace (env.is_object_namespaced ref)) [
        | failed e ↦ (failed e, h)
        | ok ref' ↦ (checked (env.on_get_template h ref'), get_template ref' ∷ h)
      ]

  abbrev pub with_timeout : Option ℤ → Answer Unstructured → Answer (Unstructured × Option ℤ)
  with_timeout timeout (failed e) = failed e
  with_timeout timeout (ok template) = ok (template, timeout)

  -- GetCurrentTemplateWithTimeout.
  unfoldable pub get_current_template_with_timeout :
      String
      → NodeHealthCheckSpec
      → List UnhealthyNode
      → History
      → Answer (Unstructured × Option ℤ) × History
  unfolding get_template_with_fallback_namespace
  get_current_template_with_timeout node_name spec us h = elim spec.remediation_template [
    | some ref ↦
        let (template, h') = get_template_with_fallback_namespace ref "" h in
        (with_timeout none template, h')
    | none ↦ elim (current_remediation node_name us spec.escalating_remediations) [
      | chosen rem ↦
          let (template, h') = get_template_with_fallback_namespace rem.remediation_template "" h in
          (with_timeout (some rem.timeout) template, h')
      | no_template_left ↦ (failed Cluster.no_template_left, h)
      | panics ↦ (failed panicked, h)
    ]
  ]

-- isTemplateNotFoundError; a NoMatch error is told by its text too.
abbrev pub is_template_not_found_error : Error → Bool
is_template_not_found_error not_found = true
is_template_not_found_error (wrapped s e) = is_template_not_found_error e
is_template_not_found_error (other s) = contains s "could not find" || contains s "not found"
is_template_not_found_error _ = false

abbrev is_broken_template : Error → Bool
is_broken_template broken_template = true
is_broken_template _ = false

-- What ValidateTemplates returns; the message of an invalid template is the error behind it.
pub data Validity : Type 0 where
  valid : Validity
  invalid : String → Option Error → Validity
  unknown : Error → Validity

-- handleTemplateError.
unfoldable pub handle_template_error : Error → Validity
handle_template_error e =
    if is_template_not_found_error e
    then invalid condition_reason_disabled_template_not_found (some e)
    else if is_broken_template e
    then invalid condition_reason_disabled_template_invalid (some e)
    else unknown e

abbrev pub metal3_remediation_template_kind : String
metal3_remediation_template_kind = "Metal3RemediationTemplate"

abbrev pub machine_api_namespace : String
machine_api_namespace = "openshift-machine-api"

-- validateTemplate.
unfoldable pub validate_template : Unstructured → Validity
validate_template template =
    if template.gvk.kind == metal3_remediation_template_kind
      && not (template.namespace == machine_api_namespace)
    then invalid condition_reason_disabled_template_invalid none
    else valid

abbrev pub validity : Answer Unstructured → Validity
validity (failed e) = handle_template_error e
validity (ok template) = validate_template template

-- ValidateTemplates, over the one template or those of the escalating remediations: the first that is
-- not valid decides.
unfoldable pub validate_templates :
    Environment → List ObjectReference → History → Validity × History
unfolding get_template_with_fallback_namespace handle_template_error validate_template
validate_templates env [] h = (valid, h)
validate_templates env (ref ∷ refs) h =
    let (template, h') = get_template_with_fallback_namespace env ref "" h in
    elim (validity template) [
      | valid ↦ validate_templates env refs h'
      | invalid reason e ↦ (invalid reason e, h')
      | unknown e ↦ (unknown e, h')
    ]
