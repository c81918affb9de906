-- ===== src/Cluster.antt =====
-- The world outside: the API server and the lease manager of github.com/medik8s/common, which answer
-- every call as they like, depending on the calls before it. What the operator does is the history of
-- its calls, the latest first.
use node_healthcheck_operato.Prelude.{
  ℤ, String, Bool, true, false, Option, List, ◌≡◌, ◌⊎◌, inl, inr, refl,
}
use node_healthcheck_operato.Api.{
  GroupVersionKind, ObjectReference, LabelSelector, Node, NodeHealthCheck,
}
use node_healthcheck_operato.MachineApi.{Machine, MachineHealthCheck}
use node_healthcheck_operato.Threshold.{MinHealthyError}
use node_healthcheck_operato.Remediation.{OwnerReference, CrCondition, Unstructured}

-- Errors, by what the code finds out about them.
pub data Error : Type 0 where
  not_found : Error
  already_held : Error
  lease_over_due : Error
  cr_not_owned : Error
  no_template_left : Error
  broken_template : Error
  other : String → Error
  -- An error of getMinHealthy.
  bad_threshold : MinHealthyError → Error
  -- errors.Wrapf.
  wrapped : String → Error → Error
  -- A nil pointer is followed.
  panicked : Error

-- apierrors.IsNotFound, which looks through wrapped errors.
abbrev pub is_not_found : Error → Bool
is_not_found not_found = true
is_not_found (wrapped s e) = is_not_found e
is_not_found _ = false

-- The type assertions on lease.AlreadyHeldError and LeaseOverDueError, which do not.
abbrev pub is_already_held : Error → Bool
is_already_held already_held = true
is_already_held _ = false

abbrev pub is_lease_over_due : Error → Bool
is_lease_over_due lease_over_due = true
is_lease_over_due _ = false

pub data Answer {ℓ} (A : Type ℓ) : Type ℓ where
  ok : A → Answer A
  failed : Error → Answer A

-- coordv1.LeaseSpec, as far as it is read.
pub record Lease : Type 0 where
  pub holder_identity : Option String
  pub acquire_time : Option ℤ
  pub renew_time : Option ℤ
  pub lease_duration_seconds : Option ℤ

pub data Call : Type 0 where
  get_node : String → Call
  patch_node : Node → Call
  request_lease : String → ℤ → Call
  get_lease : String → Call
  invalidate_lease : String → Call
  get_cr : Unstructured → Call
  list_crs : GroupVersionKind → Call
  create_cr : Unstructured → Call
  delete_cr : Unstructured → Call
  update_cr : Unstructured → Call
  get_template : ObjectReference → Call
  get_machine : String → String → Call
  check_etcd_disruption : String → Call
  get_nhc : String → Call
  list_nodes : LabelSelector → Call
  list_cluster_versions : Call
  watch : GroupVersionKind → Call
  patch_status : NodeHealthCheck → Call
  get_mhc : String → String → Call
  list_mhcs : Call
  list_machines : LabelSelector → String → Call
  patch_mhc_status : MachineHealthCheck → Call

abbrev pub History : Type 0
History = List Call

-- How a call is answered after a history. A CR is asked for by its kind, namespace and name; a lease
-- by the name of its node, a machine by its namespace and name, and answered with its reference.
pub record Environment : Type 0 where
  pub on_get_node : History → String → Answer Node
  pub on_patch_node : History → Node → Option Error
  pub on_request_lease : History → String → ℤ → Option Error
  pub on_get_lease : History → String → Answer Lease
  pub on_invalidate_lease : History → String → Option Error
  pub on_get_cr : History → Unstructured → Answer Unstructured
  pub on_list_crs : History → GroupVersionKind → Answer (List Unstructured)
  pub on_create_cr : History → Unstructured → Answer Unstructured
  pub on_delete_cr : History → Unstructured → Option Error
  pub on_update_cr : History → Unstructured → Answer Unstructured
  pub on_get_template : History → ObjectReference → Answer Unstructured
  pub on_get_machine : History → String → String → Answer OwnerReference
  pub on_etcd_disruption : History → String → Answer Bool
  pub on_get_nhc : History → String → Answer NodeHealthCheck
  pub on_list_nodes : History → LabelSelector → Answer (List Node)
  -- The conditions of every ClusterVersion.
  pub on_list_cluster_versions : History → Answer (List (List CrCondition))
  pub on_watch : History → GroupVersionKind → Option Error
  -- The object as the API server returns it after the patch.
  pub on_patch_status : History → NodeHealthCheck → Answer NodeHealthCheck
  -- What PollWithContext of k8s.io/apimachinery gets, until its time is over.
  pub on_poll : History → String → List (Answer NodeHealthCheck)
  -- Whether the patch of client.MergeFrom is empty, for the changed object and the original.
  pub merge_is_empty : NodeHealthCheck → NodeHealthCheck → Answer Bool
  pub on_get_mhc : History → String → String → Answer MachineHealthCheck
  pub on_list_mhcs : History → Answer (List MachineHealthCheck)
  -- In a namespace.
  pub on_list_machines : History → LabelSelector → String → Answer (List Machine)
  pub on_patch_mhc_status : History → MachineHealthCheck → Option Error
  pub mhc_merge_is_empty : MachineHealthCheck → MachineHealthCheck → Answer Bool
  -- NewManager of the lease manager, for a holder.
  pub new_lease_manager : String → Option Error
  -- LabelSelectorAsSelector of k8s.io/apimachinery, and the method Error of an error.
  pub selector_error : LabelSelector → Option Error
  pub error_text : Error → String
  -- IsObjectNamespaced of the client, for a template.
  pub is_object_namespaced : ObjectReference → Answer Bool
  -- SplitMetaNamespaceKey of k8s.io/client-go: namespace and name.
  pub split_meta_namespace_key : String → Answer (String × String)
  -- IsControlPlane of github.com/medik8s/common.
  pub is_control_plane : Node → Bool
  -- The apiVersion and the kind that a NodeHealthCheck and a MachineHealthCheck carry when the client returns them.
  pub nhc_type : String × String
  pub mhc_type : String × String

pub Answer-cases {ℓ} :
    {A : Type ℓ} (a : Answer A) → ((e : Error) × (a ≡ failed e)) ⊎ ((x : A) × (a ≡ ok x))
Answer-cases (failed e) = inl (e, refl)
Answer-cases (ok x) = inr (x, refl)
