-- ===== src/Examples/Webhook.antt =====
-- Admission of a concrete NodeHealthCheck.
use node_healthcheck_operato.Prelude.{true, none, some, [], ◌∷◌, ◌≡◌, ◌↔◌, refl}
use node_healthcheck_operato.Api.{NodeHealthCheck}
use node_healthcheck_operato.Api.Validation.{validate_min_healthy_max_unhealthy}
use node_healthcheck_operato.Status.{new_entry}
use node_healthcheck_operato.Webhook.{
  Validator, DeepEqual, validate, validate_create, validate_update, validate_selector,
  validate_mutual_remediations, validate_control_plane_topology, validate_escalating_remediations,
  unique_order, timeout_at_least_minute, unique_remediator, is_restricted_field_updated,
  is_remediating,
}
use node_healthcheck_operato.Webhook.Admission.{IsAdmissible, validate_create_iff}
use node_healthcheck_operato.Examples.Data.{cr_from, nhc_with}

abbrev validator : Validator
validator = record {
  is_supported_control_plane_topology = true;
  selector_error = λ s. none;
  list_templates = λ gvk. some [];
}

-- Comparisons that find every pair equal.
abbrev all_equal : DeepEqual
all_equal = record {
  selector_eq = λ a b. true;
  template_eq = λ a b. true;
  escalating_eq = λ a b. true;
}

abbrev busy : NodeHealthCheck
busy = nhc_with [] (new_entry "worker-0" (cr_from "reboot") ∷ [])

validate_create_iff_example :
    (validate_create validator (nhc_with [] []) ≡ []) ↔ IsAdmissible validator (nhc_with [] []).spec
validate_create_iff_example = validate_create_iff validator (nhc_with [] [])

update_admitted : validate_update validator all_equal busy busy ≡ []
unfolding validate_update validate validate_selector validate_mutual_remediations
    validate_control_plane_topology validate_escalating_remediations unique_order
    timeout_at_least_minute unique_remediator is_restricted_field_updated is_remediating
    validate_min_healthy_max_unhealthy
update_admitted = refl
