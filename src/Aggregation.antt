-- ===== src/Aggregation.antt =====
-- The aggregated role of the operator, internal/controller/rbac/aggregation.go. The cluster's role, role
-- binding and deployment of the operator are a state; `fails` says which calls fail.
pub mod Settled
use node_healthcheck_operato.Prelude.{
  String, StringMap, Bool, true, false, Option, none, some, List, [], ◌∷◌, if◌then◌else◌,
}
use node_healthcheck_operato.Remediation.{OwnerReference}
use node_healthcheck_operato.Cluster.{
  Error, other, wrapped, not_found, is_not_found, Answer, ok, failed,
}

-- rbacv1.ClusterRole; the selectors of an aggregation rule are their labels.
pub record ClusterRole : Type 0 where
  pub name : String
  pub owner_references : List OwnerReference
  pub rules : List String
  pub aggregation_rule : Option (List StringMap)

pub record RoleRef : Type 0 where
  pub api_group : String
  pub kind : String
  pub name : String

pub record Subject : Type 0 where
  pub kind : String
  pub name : String
  pub namespace : String

-- rbacv1.ClusterRoleBinding.
pub record ClusterRoleBinding : Type 0 where
  pub name : String
  pub owner_references : List OwnerReference
  pub role_ref : RoleRef
  pub subjects : List Subject

-- The objects with the names that the operator uses; of the deployment, its UID.
pub record Store : Type 0 where
  pub role : Option ClusterRole
  pub binding : Option ClusterRoleBinding
  pub deployment_uid : Option String

pub data Operation : Type 0 where
  get_role : Operation
  create_role : Operation
  update_role : Operation
  get_binding : Operation
  create_binding : Operation
  update_binding : Operation
  get_deployment : Operation

abbrev pub role_name : String
role_name = "node-healthcheck-operator-aggregation"

abbrev pub service_account_name : String
service_account_name = "node-healthcheck-controller-manager"

abbrev pub deployment_name : String
deployment_name = "node-healthcheck-controller-manager"

abbrev pub aggregation_label_key : String
aggregation_label_key = "rbac.ext-remediation/aggregate-to-ext-remediation"

abbrev pub deployment_refs : Option String → List OwnerReference
deployment_refs none = []
deployment_refs (some uid) =
    record { api_version = "apps/v1"; kind = "Deployment"; name = deployment_name; uid = uid } ∷ []

-- What a Get returns, of what is in the store.
abbrev pub got {ℓ} : {A : Type ℓ} → Option Error → Option A → Answer A
got (some e) o = failed e
got none none = failed not_found
got none (some a) = ok a

abbrev pub already_exists : Error
already_exists = other "already exists"

abbrev pub wanted_rule : Option (List StringMap)
wanted_rule = some (((aggregation_label_key, "true") ∷ []) ∷ [])

abbrev pub wanted_role_ref : RoleRef
wanted_role_ref = record {
  api_group = "rbac.authorization.k8s.io";
  kind = "ClusterRole";
  name = role_name;
}

abbrev pub wanted_subjects : String → List Subject
wanted_subjects namespace =
    record { kind = "ServiceAccount"; name = service_account_name; namespace = namespace } ∷ []

module _ (fails : Operation → Option Error) (namespace : String) where
  -- getOwnerRefs.
  unfoldable pub get_owner_refs : Store → List OwnerReference
  get_owner_refs store = elim (fails get_deployment) [
    | some e ↦ []
    | none ↦ deployment_refs store.deployment_uid
  ]

  -- getRole.
  abbrev pub the_role : Store → ClusterRole
  the_role store = record {
    name = role_name;
    owner_references = get_owner_refs store;
    rules = [];
    aggregation_rule = wanted_rule;
  }

  abbrev pub put_role : Option Error → ClusterRole → Store → Option Error × Store
  put_role (some e) role store = (some e, store)
  put_role none role store = (none, record store { role = some role })

  -- createRole; a Create of an object that exists fails.
  unfoldable pub create_role_in : Store → Option Error × Store
  create_role_in store = elim store.role [
    | some role ↦ (some already_exists, store)
    | none ↦ put_role (fails create_role) (the_role store) store
  ]

  -- updateRole.
  abbrev pub update_role_in : ClusterRole → Store → Option Error × Store
  update_role_in old store =
      put_role (fails update_role) (record old { rules = []; aggregation_rule = wanted_rule }) store

  -- createOrUpdateRole.
  unfoldable pub create_or_update_role : Store → Option Error × Store
  unfolding create_role_in
  create_or_update_role store = elim (got (fails get_role) store.role) [
    | ok role ↦ update_role_in role store
    | failed e ↦
        let created = create_role_in store in
        if is_not_found e then created else (some (wrapped "failed to get cluster role" e), store)
  ]

  -- getRoleBinding.
  abbrev pub the_binding : Store → ClusterRoleBinding
  the_binding store = record {
    name = role_name;
    owner_references = get_owner_refs store;
    role_ref = wanted_role_ref;
    subjects = wanted_subjects namespace;
  }

  abbrev pub put_binding : Option Error → ClusterRoleBinding → Store → Option Error × Store
  put_binding (some e) binding store = (some e, store)
  put_binding none binding store = (none, record store { binding = some binding })

  -- createRoleBinding.
  unfoldable pub create_binding_in : Store → Option Error × Store
  create_binding_in store = elim store.binding [
    | some binding ↦ (some already_exists, store)
    | none ↦ put_binding (fails create_binding) (the_binding store) store
  ]

  -- updateRoleBinding.
  abbrev pub update_binding_in : ClusterRoleBinding → Store → Option Error × Store
  update_binding_in old store =
      put_binding (fails update_binding)
        (record old { role_ref = wanted_role_ref; subjects = wanted_subjects namespace }) store

  -- createOrUpdateRoleBinding.
  unfoldable pub create_or_update_role_binding : Store → Option Error × Store
  unfolding create_binding_in
  create_or_update_role_binding store = elim (got (fails get_binding) store.binding) [
    | ok binding ↦ update_binding_in binding store
    | failed e ↦
        let created = create_binding_in store in
        if is_not_found e
        then created
        else (some (wrapped "failed to get cluster role binding" e), store)
  ]

  -- CreateOrUpdateAggregation.
  unfoldable pub create_or_update_aggregation : Store → Option Error × Store
  unfolding create_or_update_role create_or_update_role_binding
  create_or_update_aggregation store =
      let (error, store') = create_or_update_role store in
      elim error [ some e ↦ (some e, store') | none ↦ create_or_update_role_binding store' ]
