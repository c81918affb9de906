-- ===== src/Capabilities.antt =====
-- The capabilities of the cluster, internal/controller/cluster/capabilities.go.
pub mod Detected
use node_healthcheck_operato.Prelude.{
  String, Bool, true, false, ◌&&◌, ◌||◌, List, [], ◌∷◌, ◌==◌, if◌then◌else◌,
}
use node_healthcheck_operato.Cluster.{Answer, ok, failed}

pub record Capabilities : Type 0 where
  pub is_on_openshift : Bool
  pub has_machine_api : Bool
  pub is_supported_control_plane_topology : Bool

abbrev pub ocp_group_version : String
ocp_group_version = "config.openshift.io/v1"

abbrev pub machine_api_group : String
machine_api_group = "machine.openshift.io/v1"

-- The loop over the versions of a group, which ends at the first that is looked for.
unfoldable pub scan_versions : List String → Capabilities → Capabilities
scan_versions [] caps = caps
scan_versions (version ∷ versions) caps =
    let rest = scan_versions versions caps in
    if version == ocp_group_version
    then record caps { is_on_openshift = true }
    else if version == machine_api_group
    then record caps { has_machine_api = true }
    else rest

unfoldable pub scan_groups : List (List String) → Capabilities → Capabilities
unfolding scan_versions
scan_groups [] caps = caps
scan_groups (versions ∷ groups) caps = scan_groups groups (scan_versions versions caps)

abbrev pub is_supported_topology : String → Bool
is_supported_topology topology =
    topology == "HighlyAvailable"
    || (topology == "SingleReplica"
        || (topology == "HighlyAvailableArbiter" || topology == "External"))

abbrev pub with_topology : Capabilities → Answer String → Answer Capabilities
with_topology caps (failed e) = failed e
with_topology caps (ok topology) =
    ok (record caps { is_supported_control_plane_topology = is_supported_topology topology })

abbrev pub no_capabilities : Capabilities
no_capabilities = record {
  is_on_openshift = false;
  has_machine_api = false;
  is_supported_control_plane_topology = true;
}

-- NewCapabilities, for the versions of every API group and the topology of the control plane, which is
-- asked for on OpenShift.
unfoldable pub new_capabilities : Answer (List (List String)) → Answer String → Answer Capabilities
unfolding scan_groups
new_capabilities (failed e) topology = failed e
new_capabilities (ok groups) topology =
    let caps = scan_groups groups no_capabilities in
    if caps.is_on_openshift then with_topology caps topology else ok caps
