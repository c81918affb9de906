-- ===== src/Status.antt =====
-- The bookkeeping of unhealthy nodes and their remediations in the status of a NodeHealthCheck,
-- internal/controller/resources/status.go. Metrics are left out.
pub mod Unique
pub mod Tracking
use node_healthcheck_operato.Prelude.{
  ℤ, String, Bool, true, false, ◌&&◌, not, Option, none, some, List, [], ◌∷◌, ◌++◌, any, value_of,
  is_some, ◌==◌, if◌then◌else◌,
}
use node_healthcheck_operato.Api.{
  ObjectReference, Remediation, UnhealthyNode, NodeHealthCheck, NodeHealthCheckStatus,
}
use node_healthcheck_operato.Remediation.{
  Unstructured, gvk_eq, get_node_name_from_cr, get_template_name_from_cr,
}

abbrev pub healthy_delay_annotation : String
healthy_delay_annotation = "remediation.medik8s.io/healthy-delay"

abbrev pub is_named : String → UnhealthyNode → Bool
is_named node_name u = u.name == node_name

abbrev pub set_unhealthy_nodes : List UnhealthyNode → NodeHealthCheck → NodeHealthCheck
set_unhealthy_nodes us nhc = record nhc { status = record nhc.status { unhealthy_nodes = us } }

-- The remediation that UpdateStatusRemediationStarted records for a CR.
abbrev pub remediation_of : Unstructured → Remediation
remediation_of cr = record {
  resource = record { gvk = cr.gvk; namespace = cr.namespace; name = cr.name; uid = cr.uid };
  started = cr.creation_timestamp;
  timed_out = none;
  template_name = get_template_name_from_cr cr;
}

abbrev pub has_gvk : Unstructured → Remediation → Bool
has_gvk cr rem = gvk_eq rem.resource.gvk cr.gvk

abbrev pub add_remediation : Unstructured → UnhealthyNode → UnhealthyNode
add_remediation cr u =
    if any (has_gvk cr) u.remediations
    then u
    else record u { remediations = u.remediations ++ remediation_of cr ∷ [] }

-- A `for` loop that changes the first entry of the name and then breaks.
abbrev pub update_first :
    String → (UnhealthyNode → UnhealthyNode) → List UnhealthyNode → List UnhealthyNode
update_first node_name f [] = []
update_first node_name f (u ∷ us) =
    if is_named node_name u then f u ∷ us else u ∷ update_first node_name f us

abbrev pub new_entry : String → Unstructured → UnhealthyNode
new_entry node_name cr = record {
  name = node_name;
  remediations = remediation_of cr ∷ [];
  conditions_healthy_timestamp = none;
  healthy_delayed = none;
}

-- UpdateStatusRemediationStarted.
unfoldable pub update_status_remediation_started :
    String → Unstructured → List UnhealthyNode → List UnhealthyNode
update_status_remediation_started node_name cr us =
    if any (is_named node_name) us
    then update_first node_name (add_remediation cr) us
    else us ++ new_entry node_name cr ∷ []

-- UpdateStatusNodeHealthy: drops the first entry of the name.
unfoldable pub update_status_node_healthy : String → List UnhealthyNode → List UnhealthyNode
update_status_node_healthy node_name [] = []
update_status_node_healthy node_name (u ∷ us) =
    if is_named node_name u then us else u ∷ update_status_node_healthy node_name us

-- isNodeHealthyDelayed: some CR of the node carries a start time of the delay.
abbrev pub is_node_healthy_delayed : String → List Unstructured → Bool
is_node_healthy_delayed node_name crs =
    any
      (λ cr.
        not (value_of healthy_delay_annotation cr.annotations == "")
        && get_node_name_from_cr cr == node_name)
      crs

-- UpdateStatusNodeDelayedHealthy.
unfoldable pub update_status_node_delayed_healthy :
    String → List Unstructured → List UnhealthyNode → List UnhealthyNode
update_status_node_delayed_healthy node_name crs us =
    if is_node_healthy_delayed node_name crs
    then update_first node_name (λ u. record u { healthy_delayed = some true }) us
    else us

-- UpdateStatusNodeUnhealthy.
unfoldable pub update_status_node_unhealthy : String → List UnhealthyNode → List UnhealthyNode
update_status_node_unhealthy node_name us =
    if any (is_named node_name) us
    then us
    else us
      ++ record {
        name = node_name;
        remediations = [];
        conditions_healthy_timestamp = none;
        healthy_delayed = none;
      }
        ∷ []

abbrev pub set_healthy_timestamp : ℤ → UnhealthyNode → UnhealthyNode
set_healthy_timestamp now u =
    if is_some u.conditions_healthy_timestamp
    then u
    else record u { conditions_healthy_timestamp = some now }

abbrev pub first_healthy_timestamp : String → List UnhealthyNode → Option ℤ
first_healthy_timestamp node_name [] = none
first_healthy_timestamp node_name (u ∷ us) =
    if is_named node_name u
    then u.conditions_healthy_timestamp
    else first_healthy_timestamp node_name us

-- UpdateStatusNodeConditionsHealthy, with the timestamp that it returns.
unfoldable pub update_status_node_conditions_healthy :
    String → ℤ → List UnhealthyNode → Option ℤ × List UnhealthyNode
update_status_node_conditions_healthy node_name now us =
    let us' = update_first node_name (set_healthy_timestamp now) us in
    (first_healthy_timestamp node_name us', us')

abbrev pub find_remediation : (Remediation → Bool) → List Remediation → Option Remediation
find_remediation filter [] = none
find_remediation filter (r ∷ rs) = if filter r then some r else find_remediation filter rs

-- FindStatusRemediation: the first match in any entry of the node's name.
unfoldable pub find_status_remediation :
    String → (Remediation → Bool) → List UnhealthyNode → Option Remediation
find_status_remediation node_name filter [] = none
find_status_remediation node_name filter (u ∷ us) =
    let rest = find_status_remediation node_name filter us in
    if is_named node_name u
    then elim (find_remediation filter u.remediations) [ some r ↦ some r | none ↦ rest ]
    else rest

abbrev pub mark_first : (Remediation → Bool) → ℤ → List Remediation → List Remediation
mark_first filter now [] = []
mark_first filter now (r ∷ rs) =
    if filter r then record r { timed_out = some now } ∷ rs else r ∷ mark_first filter now rs

-- `startedRemediation.TimedOut = &now` through the pointer that FindStatusRemediation returned.
unfoldable pub mark_timed_out :
    String → (Remediation → Bool) → ℤ → List UnhealthyNode → List UnhealthyNode
mark_timed_out node_name filter now [] = []
mark_timed_out node_name filter now (u ∷ us) =
    let rest = u ∷ mark_timed_out node_name filter now us in
    if is_named node_name u
    then elim (find_remediation filter u.remediations) [
      | some r ↦ record u { remediations = mark_first filter now u.remediations } ∷ us
      | none ↦ rest
    ]
    else rest
