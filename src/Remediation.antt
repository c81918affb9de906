-- ===== src/Remediation.antt =====
-- Remediation and template objects (unstructured.Unstructured) as far as the operator reads them, and
-- the small readers of internal/controller/utils/utils.go and
-- internal/controller/nodehealthcheck_controller.go.
use node_healthcheck_operato.Prelude.{
  ℤ, String, StringMap, Bool, false, ◌&&◌, Option, none, some, List, [], ◌∷◌, find, lookup,
  value_of, ◌==◌, map,
}
use node_healthcheck_operato.Api.{
  GroupVersionKind, ObjectReference, NodeHealthCheck, EscalatingRemediation,
}

-- metav1.OwnerReference.
pub record OwnerReference : Type 0 where
  pub api_version : String
  pub kind : String
  pub name : String
  pub uid : String

pub record CrCondition : Type 0 where
  pub type : String
  pub status : String

-- An object; `spec` stands for the payload of a CR, and `template_spec` for what a template has under
-- spec.template. The operator only copies them.
pub record Unstructured : Type 0 where
  pub gvk : GroupVersionKind
  pub name : String
  pub generate_name : String
  pub namespace : String
  pub uid : String
  pub labels : StringMap
  pub annotations : StringMap
  pub owner_references : List OwnerReference
  pub creation_timestamp : ℤ
  pub deletion_timestamp : Option ℤ
  pub conditions : List CrCondition
  pub spec : String
  pub template_spec : Option String

abbrev pub node_name_annotation : String
node_name_annotation = "remediation.medik8s.io/node-name"

abbrev pub template_name_annotation : String
template_name_annotation = "remediation.medik8s.io/template-name"

abbrev pub gvk_eq : GroupVersionKind → GroupVersionKind → Bool
gvk_eq a b = a.group == b.group && (a.version == b.version && a.kind == b.kind)

-- GetNodeNameFromCR.
abbrev pub get_node_name_from_cr : Unstructured → String
get_node_name_from_cr cr = elim (lookup node_name_annotation cr.annotations) [
  | none ↦ cr.name
  | some node_name ↦ node_name
]

-- GetTemplateNameFromCR.
abbrev pub get_template_name_from_cr : Unstructured → String
get_template_name_from_cr cr = value_of template_name_annotation cr.annotations

-- getCondition: the status of the first condition of the type.
abbrev pub get_condition : Unstructured → String → Option String
get_condition cr type = elim (find (λ c. c.type == type) cr.conditions) [
  | none ↦ none
  | some c ↦ some c.status
]

abbrev pub succeeded_is : String → Unstructured → Bool
succeeded_is status cr = elim (get_condition cr "Succeeded") [ none ↦ false | some s ↦ s == status ]

abbrev pub remediation_failed : Unstructured → Bool
remediation_failed cr = succeeded_is "False" cr

abbrev pub remediation_succeeded : Unstructured → Bool
remediation_succeeded cr = succeeded_is "True" cr

-- GetAllRemediationTemplates, for a NodeHealthCheck.
abbrev pub get_all_remediation_templates : NodeHealthCheck → List ObjectReference
get_all_remediation_templates nhc = elim nhc.spec.remediation_template [
  | some ref ↦ ref ∷ []
  | none ↦
      map (λ (e : EscalatingRemediation). e.remediation_template) nhc.spec.escalating_remediations
]
