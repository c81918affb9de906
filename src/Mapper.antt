-- ===== src/Mapper.antt =====
-- Which health checks an event wakes up, internal/controller/utils/mapper.go. A mapper's answers come from
-- the API server, through the record Reader.
pub mod Woken
pub mod Misdirected
use node_healthcheck_operato.Prelude.{
  String, StringMap, Bool, true, false, ◌&&◌, ◌||◌, not, Option, none, some, List, [], ◌∷◌, any,
  filter, map, ◌==◌, if◌then◌else◌,
}
use node_healthcheck_operato.Api.{
  GroupVersionKind, ObjectReference, LabelSelector, Node, NodeHealthCheck, EscalatingRemediation,
}
use node_healthcheck_operato.MachineApi.{Machine, MachineHealthCheck}
use node_healthcheck_operato.Remediation.{OwnerReference, Unstructured}
use node_healthcheck_operato.Cluster.{Error, other, is_not_found, Answer, ok, failed}

-- reconcile.Request.
pub record Request : Type 0 where
  pub namespace : String
  pub name : String

-- labels.Selector of k8s.io/apimachinery.
pub record Selector : Type 0 where
  pub is_empty : Bool
  pub matches : StringMap → Bool

-- The answers during one call of a mapper, with LabelSelectorAsSelector and the feature gates accessor.
pub record Reader : Type 0 where
  pub node_named : String → Answer Node
  pub nhc_list : Answer (List NodeHealthCheck)
  pub mhc_list : Answer (List MachineHealthCheck)
  pub machine_named : String → String → Answer Machine
  -- The machines that the index by the names of nodes returns.
  pub machines_of_node : String → Answer (List Machine)
  pub label_selector_as_selector : LabelSelector → Answer Selector
  pub is_mao_mhc_disabled : Bool

-- Errors are logged, and nothing is queued.
abbrev pub or_no_items {ℓ} : {A : Type ℓ} → Answer (List A) → List A
or_no_items (failed e) = []
or_no_items (ok items) = items

abbrev pub nhc_request : NodeHealthCheck → Request
nhc_request nhc = record { namespace = ""; name = nhc.name }

abbrev pub mhc_request : MachineHealthCheck → Request
mhc_request mhc = record { namespace = mhc.namespace; name = mhc.name }

-- The node, or `none` after an error, where the node counts as deleted.
abbrev pub node_or_deleted : Answer Node → Option Node
node_or_deleted (failed e) = none
node_or_deleted (ok node) = some node

abbrev pub selects_labels : StringMap → Answer Selector → Bool
selects_labels labels (failed e) = false
selects_labels labels (ok selector) = selector.matches labels

-- A deleted node wakes up every NodeHealthCheck.
abbrev pub is_woken_by_node : Reader → Option Node → NodeHealthCheck → Bool
is_woken_by_node r none nhc = true
is_woken_by_node r (some node) nhc =
    selects_labels node.labels (r.label_selector_as_selector nhc.spec.selector)

-- NHCByNodeMapperFunc, for the name of the node.
unfoldable pub nhc_by_node : Reader → String → List Request
nhc_by_node r name =
    map nhc_request
      (filter (is_woken_by_node r (node_or_deleted (r.node_named name))) (or_no_items r.nhc_list))

-- NHCByMHCEventMapperFunc.
unfoldable pub nhc_by_mhc_event : Reader → List Request
nhc_by_mhc_event r = map nhc_request (or_no_items r.nhc_list)

pub data WatchType : Type 0 where
  nhc_watch : WatchType
  mhc_watch : WatchType

-- isCrNeedWatching.
unfoldable pub is_cr_need_watching : OwnerReference → WatchType → Bool
is_cr_need_watching owner nhc_watch =
    owner.kind == "NodeHealthCheck" && owner.api_version == "remediation.medik8s.io/v1alpha1"
is_cr_need_watching owner mhc_watch =
    owner.kind == "MachineHealthCheck" && owner.api_version == "machine.openshift.io/v1beta1"

abbrev pub owner_request : WatchType → String → OwnerReference → Request
owner_request nhc_watch namespace owner = record { namespace = ""; name = owner.name }
owner_request mhc_watch namespace owner = record { namespace = namespace; name = owner.name }

abbrev pub first_owner : WatchType → String → List OwnerReference → List Request
first_owner type namespace [] = []
first_owner type namespace (owner ∷ owners) =
    if is_cr_need_watching owner type
    then owner_request type namespace owner ∷ []
    else first_owner type namespace owners

-- RemediationCRMapperFunc.
unfoldable pub by_remediation_cr : WatchType → Unstructured → List Request
by_remediation_cr type cr = first_owner type cr.namespace cr.owner_references

-- `templateMatches`, for the kind and the name of the template.
abbrev pub template_matches : String → String → ObjectReference → Bool
template_matches kind name ref = ref.gvk.kind == kind && ref.name == name

abbrev pub uses_template : String → String → NodeHealthCheck → Bool
uses_template kind name nhc = elim nhc.spec.remediation_template [
  | some ref ↦ template_matches kind name ref
  | none ↦
      any (λ (e : EscalatingRemediation). template_matches kind name e.remediation_template)
        nhc.spec.escalating_remediations
]

-- NHCByRemediationTemplateCRMapperFunc.
unfoldable pub nhc_by_template : Reader → String → String → List Request
nhc_by_template r kind name =
    map nhc_request (filter (uses_template kind name) (or_no_items r.nhc_list))

abbrev pub mhc_uses_template : String → String → MachineHealthCheck → Bool
mhc_uses_template kind name mhc = elim mhc.spec.remediation_template [
  | some ref ↦ template_matches kind name ref
  | none ↦ false
]

-- The request of MHCByRemediationTemplateCRMapperFunc has a name only.
abbrev pub unqualified_request : MachineHealthCheck → Request
unqualified_request mhc = record { namespace = ""; name = mhc.name }

-- MHCByRemediationTemplateCRMapperFunc.
unfoldable pub mhc_by_template : Reader → String → String → List Request
mhc_by_template r kind name =
    map unqualified_request (filter (mhc_uses_template kind name) (or_no_items r.mhc_list))

abbrev pub one_machine : Answer (List Machine) → Answer Machine
one_machine (failed e) = failed (other "failed getting machine list")
one_machine (ok (machine ∷ [])) = ok machine
one_machine (ok _) = failed (other "expecting one machine for node")

-- getMachineFromNode.
unfoldable pub get_machine_from_node : Reader → String → Answer Machine
get_machine_from_node r name = one_machine (r.machines_of_node name)

abbrev pub selects_machine : StringMap → Answer Selector → Bool
selects_machine labels (failed e) = false
selects_machine labels (ok selector) = selector.is_empty || selector.matches labels

-- The loop over the MachineHealthChecks, for the machine.
abbrev pub is_woken_by_machine : Reader → Machine → MachineHealthCheck → Bool
is_woken_by_machine r machine mhc =
    selects_machine machine.labels (r.label_selector_as_selector mhc.spec.selector)

abbrev pub mhcs_of_machine : Reader → Answer Machine → List Request
mhcs_of_machine r (failed e) = []
mhcs_of_machine r (ok machine) =
    map mhc_request (filter (is_woken_by_machine r machine) (or_no_items r.mhc_list))

abbrev pub named_node : String → Answer Node → Answer String
named_node name (ok node) = ok node.name
named_node name (failed e) = if is_not_found e then ok name else failed e

-- MHCByNodeMapperFunc, for the name of the node; one that is not found has been deleted.
unfoldable pub mhc_by_node : Reader → String → List Request
unfolding get_machine_from_node
mhc_by_node r name =
    if not r.is_mao_mhc_disabled then [] else elim (named_node name (r.node_named name)) [
      | failed e ↦ []
      | ok node_name ↦ mhcs_of_machine r (get_machine_from_node r node_name)
    ]

-- MHCByMachineMapperFunc.
unfoldable pub mhc_by_machine : Reader → String → String → List Request
mhc_by_machine r namespace name =
    if not r.is_mao_mhc_disabled then [] else mhcs_of_machine r (r.machine_named namespace name)

-- MHCByFeatureGateEventMapperFunc.
unfoldable pub mhc_by_feature_gate_event : Reader → List Request
mhc_by_feature_gate_event r =
    if not r.is_mao_mhc_disabled then [] else map mhc_request (or_no_items r.mhc_list)
