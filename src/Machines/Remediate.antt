-- ===== src/Machines/Remediate.antt =====
-- Remediation of machines: remediateAll and remediate of
-- internal/controller/machinehealthcheck_controller.go, GenerateRemediationCRForMachine of
-- internal/controller/resources/manager.go and GetTemplate of internal/controller/resources/templates.go.
use node_healthcheck_operato.Prelude.{
  ℤ, pos, String, Bool, true, false, Option, none, some, List, [], ◌∷◌, is_some, ◌==◌,
  if◌then◌else◌,
}
use node_healthcheck_operato.MachineApi.{Machine, MachineHealthCheck}
use node_healthcheck_operato.Remediation.{OwnerReference, Unstructured}
use node_healthcheck_operato.Cluster.{
  Error, other, wrapped, panicked, Answer, ok, failed, History, Environment,
}
use node_healthcheck_operato.Escalation.{default_remediation_duration}
use node_healthcheck_operato.Manager.{
  Owner, Manager, Creation, create_owner_ref, generate_remediation_cr, create_remediation_cr,
}
use node_healthcheck_operato.Templates.{get_template_with_fallback_namespace}
use node_healthcheck_operato.Remediate.Setup.{is_cr_not_owned}
use node_healthcheck_operato.Machines.Health.{TargetNode, no_node_ref, missing, existing, Target}

-- GetTemplate.
unfoldable pub get_template_of :
    Environment → MachineHealthCheck → History → Answer Unstructured × History
get_template_of env mhc h = elim mhc.spec.remediation_template [
  | none ↦ (failed (other "remediation template must set for MHC"), h)
  | some ref ↦ get_template_with_fallback_namespace env ref mhc.namespace h
]

abbrev machine_owner_ref : Machine → OwnerReference
machine_owner_ref machine = record {
  api_version = "machine.openshift.io/v1beta1";
  kind = "Machine";
  name = machine.name;
  uid = machine.uid;
}

-- GenerateRemediationCRForMachine: the machine is an owner if the template is in its namespace.
unfoldable pub generate_remediation_cr_for_machine :
    ℤ → Owner → Machine → Unstructured → String → Unstructured
generate_remediation_cr_for_machine now owner machine template node_name =
    generate_remediation_cr now machine.name node_name (create_owner_ref owner)
      (if machine.namespace == template.namespace then some (machine_owner_ref machine) else none)
      template

-- `nodeNamePtr`: the node that exists.
abbrev pub node_name_of : TargetNode → Option String
node_name_of no_node_ref = none
node_name_of (missing name) = none
node_name_of (existing node) = some node.name

abbrev pub or_empty : Option String → String
or_empty none = ""
or_empty (some s) = s

-- The event after the creation of a CR follows the pointer to the node.
abbrev pub event_error : Bool → TargetNode → Option Error
event_error true no_node_ref = some panicked
event_error _ _ = none

abbrev pub of_creation : TargetNode → Creation → Option Error
of_creation node creation = elim creation.error [
  | none ↦ event_error creation.created node
  | some e ↦ if is_cr_not_owned e then none else some (wrapped "failed to create remediation CR" e)
]

-- A nil pointer was followed, in remediate or in what it calls.
abbrev pub comes_from_panic : Error → Bool
comes_from_panic panicked = true
comes_from_panic (wrapped s e) = comes_from_panic e
comes_from_panic _ = false

abbrev pub is_panic : Option Error → Bool
is_panic none = false
is_panic (some e) = comes_from_panic e

module _ (m : Manager) (now : ℤ) where
  -- remediate.
  unfoldable pub remediate_machine : Target → History → Option Error × History
  unfolding get_template_of generate_remediation_cr_for_machine
  remediate_machine t h =
      if is_some t.machine.deletion_timestamp
      then (none, h)
      else let (template, h1) = get_template_of m.environment t.mhc h in
        elim template [
          | failed e ↦ (some (wrapped "failed to get remediation template" e), h1)
          | ok tmpl ↦
              let node_name = node_name_of t.node in
              let cr =
                generate_remediation_cr_for_machine now m.owner t.machine tmpl
                  (or_empty node_name) in
              let (creation, h2) =
                create_remediation_cr m now cr node_name default_remediation_duration (pos 0) h1 in
              (of_creation t.node creation, h2)
        ]

  abbrev with_error : Option Error → List Error → List Error
  with_error none es = es
  with_error (some e) es = e ∷ es

  -- remediateAll: it goes on after an error. A nil pointer ends it, with the one error.
  unfoldable pub remediate_all : List Target → History → List Error × History
  unfolding remediate_machine
  remediate_all [] h = ([], h)
  remediate_all (t ∷ ts) h =
      let (error, h1) = remediate_machine t h in
      elim (is_panic error) [
        | true ↦ (panicked ∷ [], h1)
        | false ↦ let (rest, h2) = remediate_all ts h1 in (with_error error rest, h2)
      ]
