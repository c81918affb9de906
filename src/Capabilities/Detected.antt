-- ===== src/Capabilities/Detected.antt =====
-- What the capabilities say of the API groups.
use node_healthcheck_operato.Prelude.{
  String, Bool, true, false, ◌&&◌, ◌||◌, List, [], ◌∷◌, any, All, ◌==◌, ◌≡◌, arith, eq_iff,
  if◌then◌else◌,
}
use node_healthcheck_operato.Cluster.{ok}
use node_healthcheck_operato.Capabilities.{
  Capabilities, ocp_group_version, machine_api_group, scan_versions, scan_groups, no_capabilities,
  is_supported_topology, with_topology, new_capabilities,
}

abbrev pub has_version : String → List String → Bool
has_version wanted versions = any (λ v. v == wanted) versions

tail_apart :
    (v : String) (vs : List String)
    → (has_version ocp_group_version (v ∷ vs) && has_version machine_api_group (v ∷ vs)) ≡ false
    → (has_version ocp_group_version vs && has_version machine_api_group vs) ≡ false
tail_apart v vs h = ground arith

capabilities_of :
    (topology : String) (caps : Capabilities) (on_openshift has_machine_api : Bool)
    → (caps.is_on_openshift ≡ on_openshift)
      × (caps.has_machine_api ≡ has_machine_api)
      × (caps.is_supported_control_plane_topology ≡ true)
    → (if caps.is_on_openshift then with_topology caps (ok topology) else ok caps)
      ≡ ok (record {
        is_on_openshift = on_openshift;
        has_machine_api = has_machine_api;
        is_supported_control_plane_topology =
            if on_openshift then is_supported_topology topology else true;
      })
capabilities_of topology caps on_openshift has_machine_api f = ground arith

versions-found :
    (versions : List String) (caps : Capabilities)
    → (has_version ocp_group_version versions && has_version machine_api_group versions) ≡ false
    → let caps' = scan_versions versions caps in
      (caps'.is_on_openshift ≡ (caps.is_on_openshift || has_version ocp_group_version versions))
      × (caps'.has_machine_api ≡ (caps.has_machine_api || has_version machine_api_group versions))
      × (caps'.is_supported_control_plane_topology ≡ caps.is_supported_control_plane_topology)
unfolding scan_versions
versions-found [] caps h = ground arith
versions-found (v ∷ vs) caps h = ground (
  arith,
  eq_iff v ocp_group_version,
  eq_iff v machine_api_group,
  eq_iff ocp_group_version machine_api_group,
  versions-found vs caps (tail_apart v vs h),
)

groups-found :
    (groups : List (List String)) (caps : Capabilities)
    → All
        (λ versions.
          (has_version ocp_group_version versions && has_version machine_api_group versions)
          ≡ false)
        groups
    → let caps' = scan_groups groups caps in
      (caps'.is_on_openshift
        ≡ (caps.is_on_openshift || any (λ g. has_version ocp_group_version g) groups))
      × (caps'.has_machine_api
          ≡ (caps.has_machine_api || any (λ g. has_version machine_api_group g) groups))
      × (caps'.is_supported_control_plane_topology ≡ caps.is_supported_control_plane_topology)
unfolding scan_groups
groups-found [] caps h = ground arith
groups-found (g ∷ gs) caps h =
    ground (arith, versions-found g caps h.0, groups-found gs (scan_versions g caps) h.1)

-- If no API group has both versions that are looked for, and the control plane's topology is known, the
-- capabilities say whether some group has the version of OpenShift's configuration and whether some group
-- has the one of the machine API; a topology counts as unsupported exactly on OpenShift and when it is none
-- of the four.
pub new_capabilities-found :
    (groups : List (List String)) (topology : String)
    → All
        (λ versions.
          (has_version ocp_group_version versions && has_version machine_api_group versions)
          ≡ false)
        groups
    → let on_openshift = any (λ g. has_version ocp_group_version g) groups in
      new_capabilities (ok groups) (ok topology)
      ≡ ok (record {
        is_on_openshift = on_openshift;
        has_machine_api = any (λ g. has_version machine_api_group g) groups;
        is_supported_control_plane_topology =
            if on_openshift then is_supported_topology topology else true;
      })
unfolding new_capabilities
new_capabilities-found groups topology h =
    capabilities_of topology (scan_groups groups no_capabilities)
      (any (λ g. has_version ocp_group_version g) groups)
      (any (λ g. has_version machine_api_group g) groups) (groups-found groups no_capabilities h)
