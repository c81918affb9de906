-- ===== src/Api/Validation.antt =====
-- api/v1alpha1/validation.go: the rules on `minHealthy` and `maxUnhealthy` that the webhook and the
-- reconciler share.
use node_healthcheck_operato.Prelude.{
  pos, ltb_ℤ, Bool, true, false, ◌&&◌, Option, none, some, any, is_some, equal_fold, if◌then◌else◌,
}
use node_healthcheck_operato.Api.{
  IntOrString, int_val, str_val, NodeHealthCheckSpec, ObjectReference,
}

pub data ThresholdError : Type 0 where
  both_specified none_specified min_healthy_negative max_unhealthy_negative : ThresholdError
  max_unhealthy_with_machine_deletion : ThresholdError
  max_unhealthy_with_machine_deletion_escalating : ThresholdError

-- `p != nil && p.Type == intstr.Int && p.IntVal < 0`.
abbrev pub is_negative : Option IntOrString → Bool
is_negative none = false
is_negative (some (int_val n)) = ltb_ℤ n (pos 0)
is_negative (some (str_val s)) = false

abbrev pub is_machine_deletion : ObjectReference → Bool
is_machine_deletion ref = equal_fold ref.gvk.kind "MachineDeletionRemediationTemplate"

abbrev pub template_is_machine_deletion : Option ObjectReference → Bool
template_is_machine_deletion none = false
template_is_machine_deletion (some ref) = is_machine_deletion ref

-- ValidateMinHealthyMaxUnhealthy: the first rule that is broken, or none.
unfoldable pub validate_min_healthy_max_unhealthy : NodeHealthCheckSpec → Option ThresholdError
validate_min_healthy_max_unhealthy spec =
    if is_some spec.min_healthy && is_some spec.max_unhealthy
    then some both_specified
    else if no_min && no_max
    then some none_specified
    else if is_negative spec.min_healthy
    then some min_healthy_negative
    else if is_negative spec.max_unhealthy
    then some max_unhealthy_negative
    else if is_some spec.max_unhealthy && template_is_machine_deletion spec.remediation_template
    then some max_unhealthy_with_machine_deletion
    else if is_some spec.max_unhealthy
        && any (λ e. is_machine_deletion e.remediation_template) spec.escalating_remediations
    then some max_unhealthy_with_machine_deletion_escalating
    else none
  where
    no_min : Bool
    no_min = if is_some spec.min_healthy then false else true

    no_max : Bool
    no_max = if is_some spec.max_unhealthy then false else true
