-- ===== src/Webhook.antt =====
-- The validating webhook, internal/webhook/v1alpha1/nodehealthcheck_webhook.go. Parameters:
-- LabelSelectorAsSelector of k8s.io/apimachinery, and the list of templates that the API server
-- returns.
pub mod Escalating
pub mod Admission
use node_healthcheck_operato.Prelude.{
  ℤ, ltb_ℤ, eqb_ℤ, minute, String, StringMap, Bool, true, false, ◌&&◌, ◌||◌, not, Option, none,
  some, List, [], ◌∷◌, ◌++◌, any, all, is_empty, is_some, has_key, ◌==◌, if◌then◌else◌,
}
use node_healthcheck_operato.Api.{
  LabelSelector, LabelSelectorRequirement, ObjectReference, GroupVersionKind, EscalatingRemediation,
  UnhealthyNode, NodeHealthCheck, NodeHealthCheckSpec,
}
use node_healthcheck_operato.Api.Validation.{ThresholdError, validate_min_healthy_max_unhealthy}
use node_healthcheck_operato.Remediation.{Unstructured, gvk_eq}

pub data Field : Type 0 where
  selector_field remediation_template_field escalating_remediations_field : Field

pub data WebhookError : Type 0 where
  threshold : ThresholdError → WebhookError
  missing_selector mandatory_remediation mutual_remediation : WebhookError
  invalid_selector : String → WebhookError
  duplicate_order minimum_timeout : ℤ → WebhookError
  duplicate_template_kind : String → WebhookError
  unsupported_cp_topology : WebhookError
  update_prohibited : Field → WebhookError
  deletion_prohibited : WebhookError

-- What the validator asks of others: the error of a label selector, if any, and the templates of a
-- kind, where `none` stands for a failed request.
pub record Validator : Type 0 where
  pub is_supported_control_plane_topology : Bool
  pub selector_error : LabelSelector → Option String
  pub list_templates : GroupVersionKind → Option (List Unstructured)

abbrev pub multiple_templates_annotation : String
multiple_templates_annotation = "remediation.medik8s.io/multiple-templates-support"

-- HasMultipleTemplatesAnnotation of internal/controller/utils/annotations.
abbrev pub has_multiple_templates_annotation : Unstructured → Bool
has_multiple_templates_annotation o = has_key multiple_templates_annotation o.annotations

unfoldable pub validate_control_plane_topology : Validator → Option WebhookError
validate_control_plane_topology v =
    if not v.is_supported_control_plane_topology then some unsupported_cp_topology else none

abbrev pub selector_verdict : Option String → Option WebhookError
selector_verdict none = none
selector_verdict (some e) = some (invalid_selector e)

unfoldable pub validate_selector : Validator → NodeHealthCheckSpec → Option WebhookError
validate_selector v spec =
    if is_empty spec.selector.match_expressions && is_empty spec.selector.match_labels
    then some missing_selector
    else selector_verdict (v.selector_error spec.selector)

unfoldable pub validate_mutual_remediations : NodeHealthCheckSpec → Option WebhookError
validate_mutual_remediations spec =
    if not (is_some spec.remediation_template) && is_empty spec.escalating_remediations
    then some mandatory_remediation
    else if is_some spec.remediation_template && not (is_empty spec.escalating_remediations)
    then some mutual_remediation
    else none

-- `seen` holds the keys of the map of orders.
unfoldable pub unique_order : List ℤ → List EscalatingRemediation → Option WebhookError
unique_order seen [] = none
unique_order seen (r ∷ rs) =
    let rest = unique_order (r.order ∷ seen) rs in
    if any (eqb_ℤ r.order) seen then some (duplicate_order r.order) else rest

unfoldable pub timeout_at_least_minute : List EscalatingRemediation → Option WebhookError
timeout_at_least_minute [] = none
timeout_at_least_minute (r ∷ rs) =
    let rest = timeout_at_least_minute rs in
    if ltb_ℤ r.timeout minute then some (minimum_timeout r.timeout) else rest

abbrev pub all_support : Option (List Unstructured) → Bool
all_support none = false
all_support (some items) =
    if is_empty items then false else all has_multiple_templates_annotation items

unfoldable pub is_multiple_templates_supported : Validator → ObjectReference → Bool
is_multiple_templates_supported v template = all_support (v.list_templates template.gvk)

unfoldable pub unique_remediator :
    Validator → List String → List EscalatingRemediation → Option WebhookError
unique_remediator v seen [] = none
unique_remediator v seen (r ∷ rs) =
    let kind = r.remediation_template.gvk.kind in
    let rest = unique_remediator v (kind ∷ seen) rs in
    if any (λ k. k == kind) seen && not (is_multiple_templates_supported v r.remediation_template)
    then some (duplicate_template_kind kind)
    else rest

abbrev pub to_list : Option WebhookError → List WebhookError
to_list none = []
to_list (some e) = e ∷ []

abbrev pub threshold_error : Option ThresholdError → List WebhookError
threshold_error none = []
threshold_error (some e) = threshold e ∷ []

-- validateEscalatingRemediations: without any, all three rules hold, as for a nil list.
unfoldable pub validate_escalating_remediations :
    Validator → List EscalatingRemediation → List WebhookError
unfolding unique_order timeout_at_least_minute unique_remediator
validate_escalating_remediations v rems =
    to_list (unique_order [] rems)
    ++ (to_list (timeout_at_least_minute rems) ++ to_list (unique_remediator v [] rems))

-- validate: all errors that the rules find.
unfoldable pub validate : Validator → NodeHealthCheckSpec → List WebhookError
unfolding validate_selector validate_mutual_remediations validate_control_plane_topology
validate v spec =
    threshold_error (validate_min_healthy_max_unhealthy spec)
    ++ (to_list (validate_selector v spec)
        ++ (to_list (validate_mutual_remediations spec)
            ++ (validate_escalating_remediations v spec.escalating_remediations
                ++ to_list (validate_control_plane_topology v))))

unfoldable pub is_remediating : List UnhealthyNode → Bool
is_remediating [] = false
is_remediating (u ∷ us) = not (is_empty u.remediations) || is_remediating us

-- reflect.DeepEqual on the three fields of isRestrictedFieldUpdated.
pub record DeepEqual : Type 0 where
  pub selector_eq : LabelSelector → LabelSelector → Bool
  pub template_eq : Option ObjectReference → Option ObjectReference → Bool
  pub escalating_eq : List EscalatingRemediation → List EscalatingRemediation → Bool

unfoldable pub is_restricted_field_updated :
    DeepEqual → NodeHealthCheckSpec → NodeHealthCheckSpec → Option Field
is_restricted_field_updated eq new old =
    if not (eq.selector_eq new.selector old.selector)
    then some selector_field
    else if not (eq.template_eq new.remediation_template old.remediation_template)
    then some remediation_template_field
    else if not (eq.escalating_eq new.escalating_remediations old.escalating_remediations)
    then some escalating_remediations_field
    else none

unfoldable pub validate_create : Validator → NodeHealthCheck → List WebhookError
validate_create v nhc = validate v nhc.spec

abbrev pub restricted : Option Field → List WebhookError
restricted none = []
restricted (some f) = update_prohibited f ∷ []

unfoldable pub validate_update :
    Validator → DeepEqual → NodeHealthCheck → NodeHealthCheck → List WebhookError
validate_update v eq old_nhc nhc =
    let errors = validate v nhc.spec in
    if not (is_empty errors)
    then errors
    else if is_remediating nhc.status.unhealthy_nodes
    then restricted (is_restricted_field_updated eq nhc.spec old_nhc.spec)
    else []

unfoldable pub validate_delete : NodeHealthCheck → List WebhookError
validate_delete nhc =
    if is_remediating nhc.status.unhealthy_nodes then deletion_prohibited ∷ [] else []
