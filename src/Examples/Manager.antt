-- ===== src/Examples/Manager.antt =====
-- Leases and CRs at a concrete environment that grants every request.
use node_healthcheck_operato.Prelude.{
  true, false, ℤ, pos, ◌+ℤ◌, ◌*ℤ◌, String, Option, none, some, List, [], ◌∷◌, ◌≡◌, ◌≢◌, refl, arith,
}
use node_healthcheck_operato.Api.{ObjectReference}
use node_healthcheck_operato.Remediation.{Unstructured}
use node_healthcheck_operato.Cluster.{
  not_found, other, failed, ok, Lease, get_node, get_lease, Environment,
}
use node_healthcheck_operato.NodeLease.{
  manage_lease, manage, extend, calc_lease_expiration, obtain_node_lease, requested,
}
use node_healthcheck_operato.NodeLease.Secured.{IsSecured, manage_lease-IsSecured}
use node_healthcheck_operato.Manager.{Manager}
use node_healthcheck_operato.Manager.Healthy.{Rfc3339}
use node_healthcheck_operato.Examples.Data.{worker, cr_from, template_ref, nhc_with, mhc_with}

abbrev pub lease_of : String → Lease
lease_of holder = record {
  holder_identity = some holder;
  acquire_time = some (pos 0);
  renew_time = some (pos 0);
  lease_duration_seconds = some (pos 600);
}

abbrev pub template_of : ObjectReference → Unstructured
template_of ref = record (cr_from ref.name) {
  gvk = ref.gvk;
  name = ref.name;
  template_spec = some "";
}

abbrev pub environment : String → Environment
environment holder = record {
  on_get_node = λ h name. ok worker;
  on_patch_node = λ h node. none;
  on_request_lease = λ h name duration. none;
  on_get_lease = λ h name. ok (lease_of holder);
  on_invalidate_lease = λ h name. none;
  on_get_cr = λ h cr. ok cr;
  on_list_crs = λ h gvk. ok [];
  on_create_cr = λ h cr. ok cr;
  on_delete_cr = λ h cr. none;
  on_update_cr = λ h cr. ok cr;
  on_get_template = λ h ref. ok (template_of ref);
  on_get_machine = λ h namespace name. failed not_found;
  on_etcd_disruption = λ h name. ok true;
  on_get_nhc = λ h name. ok (nhc_with [] []);
  on_list_nodes = λ h selector. ok (worker ∷ []);
  on_list_cluster_versions = λ h. ok [];
  on_watch = λ h gvk. none;
  on_patch_status = λ h nhc. ok nhc;
  on_poll = λ h name. [];
  merge_is_empty = λ nhc orig. ok true;
  on_get_mhc = λ h namespace name. ok (mhc_with [] none);
  on_list_mhcs = λ h. ok [];
  on_list_machines = λ h selector namespace. ok [];
  on_patch_mhc_status = λ h mhc. none;
  mhc_merge_is_empty = λ mhc orig. ok true;
  new_lease_manager = λ holder. none;
  selector_error = λ selector. none;
  error_text = λ e. "error";
  is_object_namespaced = λ ref. ok true;
  split_meta_namespace_key = λ key. failed (other key);
  is_control_plane = λ node. false;
  nhc_type = ("remediation.medik8s.io/v1alpha1", "NodeHealthCheck");
  mhc_type = ("machine.openshift.io/v1beta1", "MachineHealthCheck");
}

abbrev pub five_minutes : ℤ
five_minutes = pos 300000000000

abbrev pub identity : String
identity = "NodeHealthCheck-nhc-worker"

abbrev pub manager : Option ℤ → Manager
manager healthy_delay = record {
  environment = environment identity;
  owner = record {
    api_version = "remediation.medik8s.io/v1alpha1";
    kind = "NodeHealthCheck";
    name = "nhc-worker";
    uid = "1234";
  };
  holder_identity = identity;
  healthy_delay = healthy_delay;
}

lease_managed :
    (manage_lease (environment identity) (pos 1) identity "worker-0" five_minutes (pos 0) []).0
    ≡ (five_minutes, none)
unfolding manage_lease manage extend calc_lease_expiration ◌+ℤ◌ ◌*ℤ◌
lease_managed = refl

five_minutes_nonzero : five_minutes ≢ pos 0
five_minutes_nonzero h = ground arith

manage_lease-IsSecured_example :
    (lease : Lease) × (ok (lease_of identity) ≡ ok lease)
    × IsSecured
        (environment identity)
        (pos 1)
        identity
        "worker-0"
        five_minutes
        (pos 0)
        lease
        (get_lease "worker-0" ∷ get_node "worker-0" ∷ [])
manage_lease-IsSecured_example =
    manage_lease-IsSecured (environment identity) (pos 1) identity "worker-0" five_minutes (pos 0)
      [] lease_managed five_minutes_nonzero

lease_granted : (obtain_node_lease (environment identity) "worker-0" five_minutes []).0.1 ≡ none
unfolding obtain_node_lease requested
lease_granted = refl

abbrev annotated : Unstructured
annotated = record (cr_from "reboot") {
  annotations =
      ("remediation.medik8s.io/node-name", "worker-0")
      ∷ ("remediation.medik8s.io/template-name", "reboot")
      ∷ [];
}

abbrev pub clock : Rfc3339
clock = record { format = λ t. "2025-01-01T00:00:00Z"; parse = λ text. none }

abbrev pub templates : List ObjectReference
templates = template_ref "SelfNodeRemediationTemplate" "reboot" ∷ []
