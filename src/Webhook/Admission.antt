-- ===== src/Webhook/Admission.antt =====
-- What the webhook admits.
use node_healthcheck_operato.Prelude.{
  String, true, false, Option, none, some, List, [], ◌∷◌, ◌++◌, is_empty, is_some, ◌≡◌, ◌↔◌, ◌⊎◌,
  inl, inr, refl, arith, Bool-cases,
}
use node_healthcheck_operato.Api.{NodeHealthCheck, NodeHealthCheckSpec, UnhealthyNode}
use node_healthcheck_operato.Api.Validation.{ThresholdError, validate_min_healthy_max_unhealthy}
use node_healthcheck_operato.Webhook.{
  Validator, DeepEqual, validate, validate_selector, validate_mutual_remediations,
  validate_control_plane_topology, validate_escalating_remediations, selector_verdict,
  is_remediating, validate_update, validate_delete, validate_create, is_restricted_field_updated,
  to_list, threshold_error,
}
use node_healthcheck_operato.Webhook.Escalating.{
  HasUniqueOrders, HasLongTimeouts, HasUniqueRemediators, escalating_sound, escalating_complete,
  to_list-nil, append-nil_left, append-nil_right,
}

-- What a spec has to satisfy.
pub record IsAdmissible (v : Validator) (spec : NodeHealthCheckSpec) : Type 0 where
  pub thresholds : validate_min_healthy_max_unhealthy spec ≡ none
  pub selects :
      (is_empty spec.selector.match_expressions ≡ false)
      ⊎ (is_empty spec.selector.match_labels ≡ false)
  pub selector_converts : v.selector_error spec.selector ≡ none
  pub one_kind_of_remediation :
      (is_some spec.remediation_template ≡ true) × (is_empty spec.escalating_remediations ≡ true)
      ⊎ (is_some spec.remediation_template ≡ false)
        × (is_empty spec.escalating_remediations ≡ false)
  pub unique_orders : HasUniqueOrders spec.escalating_remediations
  pub long_timeouts : HasLongTimeouts spec.escalating_remediations
  pub unique_remediators : HasUniqueRemediators v spec.escalating_remediations
  pub topology : v.is_supported_control_plane_topology ≡ true

threshold_error-nil : (o : Option ThresholdError) → threshold_error o ≡ [] → o ≡ none
threshold_error-nil none h = refl
threshold_error-nil (some e) h = cc

selector_verdict-none : (o : Option String) → selector_verdict o ≡ none → o ≡ none
selector_verdict-none none h = refl
selector_verdict-none (some e) h = cc

module _ (v : Validator) (spec : NodeHealthCheckSpec) where
  selector_sound :
      validate_selector v spec ≡ none
      → ((is_empty spec.selector.match_expressions ≡ false)
          ⊎ (is_empty spec.selector.match_labels ≡ false))
        × (v.selector_error spec.selector ≡ none)
  unfolding validate_selector
  selector_sound h = (ground arith, selector_verdict-none _ (ground arith))

  mutual_sound :
      validate_mutual_remediations spec ≡ none
      → (is_some spec.remediation_template ≡ true) × (is_empty spec.escalating_remediations ≡ true)
        ⊎ (is_some spec.remediation_template ≡ false)
          × (is_empty spec.escalating_remediations ≡ false)
  unfolding validate_mutual_remediations
  mutual_sound h = ground arith

  topology_sound :
      validate_control_plane_topology v ≡ none → v.is_supported_control_plane_topology ≡ true
  unfolding validate_control_plane_topology
  topology_sound h = ground arith

  -- No rule finds an error, if all errors together are none.
  abbrev NoErrors : Type 0
  NoErrors =
      (validate_min_healthy_max_unhealthy spec ≡ none)
      × (validate_selector v spec ≡ none)
      × (validate_mutual_remediations spec ≡ none)
      × (validate_escalating_remediations v spec.escalating_remediations ≡ [])
      × (validate_control_plane_topology v ≡ none)

  validate-NoErrors : validate v spec ≡ [] → NoErrors
  unfolding validate
  validate-NoErrors h =
      let thresholds = threshold_error (validate_min_healthy_max_unhealthy spec) in
      let selector = to_list (validate_selector v spec) in
      let mutual_ = to_list (validate_mutual_remediations spec) in
      let escalating = validate_escalating_remediations v spec.escalating_remediations in
      let topology = to_list (validate_control_plane_topology v) in
      let r1 = append-nil_right thresholds (selector ++ (mutual_ ++ (escalating ++ topology))) h in
      let r2 = append-nil_right selector (mutual_ ++ (escalating ++ topology)) r1 in
      let r3 = append-nil_right mutual_ (escalating ++ topology) r2 in
      (
        threshold_error-nil _
            (append-nil_left thresholds (selector ++ (mutual_ ++ (escalating ++ topology))) h),
        to_list-nil _ (append-nil_left selector (mutual_ ++ (escalating ++ topology)) r1),
        to_list-nil _ (append-nil_left mutual_ (escalating ++ topology) r2),
        append-nil_left escalating topology r3,
        to_list-nil _ (append-nil_right escalating topology r3),
      )

  validate_sound : validate v spec ≡ [] → IsAdmissible v spec
  validate_sound h =
      let e = validate-NoErrors h in
      let s = selector_sound e.1 in
      let rems = escalating_sound v spec.escalating_remediations e.3 in
      record {
        thresholds = e.0;
        selects = s.0;
        selector_converts = s.1;
        one_kind_of_remediation = mutual_sound e.2;
        unique_orders = rems.0;
        long_timeouts = rems.1;
        unique_remediators = rems.2;
        topology = topology_sound e.4;
      }

  validate_complete : IsAdmissible v spec → validate v spec ≡ []
  unfolding validate
  validate_complete a = ground (
    arith,
    escalating_complete v spec.escalating_remediations
        (a.unique_orders, a.long_timeouts, a.unique_remediators),
  )

-- The webhook admits a new NodeHealthCheck exactly when: its thresholds are valid, it has a selector
-- that converts, it has either a template or escalating remediations, the orders of these are
-- distinct, their timeouts are at least a minute, a repeated kind of template is supported, and the
-- control plane topology is supported.
pub validate_create_iff :
    (v : Validator) (nhc : NodeHealthCheck) → (validate_create v nhc ≡ []) ↔ IsAdmissible v nhc.spec
unfolding validate_create
validate_create_iff v nhc = (validate_sound v nhc.spec, validate_complete v nhc.spec)

-- Some node has a remediation.
pub data HasRemediation : List UnhealthyNode → Type 0 where
  first :
      {u : UnhealthyNode} {us : List UnhealthyNode}
      → is_empty u.remediations ≡ false
      → HasRemediation (u ∷ us)
  other :
      {u : UnhealthyNode} {us : List UnhealthyNode} → HasRemediation us → HasRemediation (u ∷ us)

is_remediating_sound : (us : List UnhealthyNode) → is_remediating us ≡ true → HasRemediation us
unfolding is_remediating
is_remediating_sound [] h = cc
is_remediating_sound (u ∷ us) h = elim (Bool-cases (is_empty u.remediations)) [
  | inl none_here ↦ other (is_remediating_sound us (ground arith))
  | inr here ↦ first here
]

is_remediating_complete : (us : List UnhealthyNode) → HasRemediation us → is_remediating us ≡ true
unfolding is_remediating
is_remediating_complete [] h = elim h [ ]
is_remediating_complete (u ∷ us) (first e) = ground arith
is_remediating_complete (u ∷ us) (other h) = ground (arith, is_remediating_complete us h)

-- A NodeHealthCheck can be deleted exactly when no node has a remediation.
pub validate_delete_iff :
    (nhc : NodeHealthCheck)
    → (validate_delete nhc ≡ []) ↔ (¬ HasRemediation nhc.status.unhealthy_nodes)
unfolding validate_delete
validate_delete_iff nhc = (
  λ h r. cc (is_remediating_complete nhc.status.unhealthy_nodes r, allowed h),
  λ n. elim (Bool-cases (is_remediating nhc.status.unhealthy_nodes)) [
    | inl busy ↦ absurd (n (is_remediating_sound nhc.status.unhealthy_nodes busy))
    | inr idle ↦ rw idle
  ],
)
  where
    allowed : validate_delete nhc ≡ [] → is_remediating nhc.status.unhealthy_nodes ≡ false
    allowed h = ground arith

-- An update that is admitted while a node has a remediation is admissible in itself and leaves the
-- selector, the template and the escalating remediations as they were.
pub validate_update-keeps :
    (v : Validator) (eq : DeepEqual) (old nhc : NodeHealthCheck)
    → validate_update v eq old nhc ≡ []
    → HasRemediation nhc.status.unhealthy_nodes
    → IsAdmissible v nhc.spec
      × (eq.selector_eq nhc.spec.selector old.spec.selector ≡ true)
      × (eq.template_eq nhc.spec.remediation_template old.spec.remediation_template ≡ true)
      × (eq.escalating_eq nhc.spec.escalating_remediations old.spec.escalating_remediations ≡ true)
unfolding validate_update is_restricted_field_updated
validate_update-keeps v eq old nhc h r =
    let busy = is_remediating_complete nhc.status.unhealthy_nodes r in
    (validate_sound v nhc.spec valid, ground arith, ground arith, ground arith)
  where
    valid : validate v nhc.spec ≡ []
    valid = ground arith
