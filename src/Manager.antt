-- ===== src/Manager.antt =====
-- Remediation CRs at the API server, internal/controller/resources/manager.go. A method returns its
-- results and the history with its calls; `now` is the clock reading of the call.
pub mod Safe
pub mod Create
pub mod Healthy
use node_healthcheck_operato.Prelude.{
  ℤ, pos, String, StringMap, Bool, true, false, ◌&&◌, not, Option, none, some, List, [], ◌∷◌, ◌++◌,
  any, find, filter, is_some, is_empty, has_key, value_of, trim_suffix, str_append, ◌==◌,
  if◌then◌else◌,
}
use node_healthcheck_operato.Api.{GroupVersionKind, ObjectReference}
use node_healthcheck_operato.Remediation.{
  Unstructured, OwnerReference, node_name_annotation, template_name_annotation,
  get_node_name_from_cr,
}
use node_healthcheck_operato.Cluster.{
  Error, not_found, cr_not_owned, wrapped, panicked, is_not_found, Answer, ok, failed, Call, get_cr,
  list_crs, create_cr, delete_cr, History, Environment,
}
use node_healthcheck_operato.NodeLease.{obtain_node_lease, manage_lease}
use node_healthcheck_operato.Webhook.{has_multiple_templates_annotation}

-- The health check that owns the CRs.
pub record Owner : Type 0 where
  pub api_version : String
  pub kind : String
  pub name : String
  pub uid : String

-- The manager with its client, its owner, its lease manager's identity and the healthy delay of its
-- context.
pub record Manager : Type 0 where
  pub environment : Environment
  pub owner : Owner
  pub holder_identity : String
  pub healthy_delay : Option ℤ

-- IsOwner.
abbrev pub is_owner : Unstructured → Owner → Bool
is_owner cr owner =
    any
      (λ (ref : OwnerReference).
        ref.kind == owner.kind && (ref.api_version == owner.api_version && ref.name == owner.name))
      cr.owner_references

-- createOwnerRef.
abbrev pub create_owner_ref : Owner → OwnerReference
create_owner_ref owner = record {
  api_version = owner.api_version;
  kind = owner.kind;
  name = owner.name;
  uid = owner.uid;
}

-- GenerateRemediationCRBase: the kind of the CRs of a template's kind.
abbrev pub generate_remediation_cr_base : GroupVersionKind → GroupVersionKind
generate_remediation_cr_base gvk = record gvk { kind = trim_suffix gvk.kind "Template" }

abbrev pub machine_ref_list : Option OwnerReference → List OwnerReference
machine_ref_list none = []
machine_ref_list (some ref) = ref ∷ []

-- generateRemediationCR.
unfoldable pub generate_remediation_cr :
    ℤ → String → String → OwnerReference → Option OwnerReference → Unstructured → Unstructured
generate_remediation_cr now name node_name owner_ref machine_ref template =
    let generates = has_multiple_templates_annotation template && name == node_name in
    record {
      gvk = generate_remediation_cr_base template.gvk;
      name = if generates then "" else name;
      generate_name = if generates then str_append name "-" else "";
      namespace = template.namespace;
      uid = "";
      labels = ("app.kubernetes.io/part-of", "node-healthcheck-controller") ∷ [];
      annotations =
          (node_name_annotation, node_name) ∷ (template_name_annotation, template.name) ∷ [];
      owner_references = owner_ref ∷ machine_ref_list machine_ref;
      creation_timestamp = now;
      deletion_timestamp = none;
      conditions = [];
      spec = elim template.template_spec [ none ↦ "" | some spec ↦ spec ];
      template_spec = none;
    }

-- isMatchNodeTemplate.
unfoldable pub is_match_node_template : Unstructured → String → String → Bool
is_match_node_template cr node_name template_name =
    if has_key template_name_annotation cr.annotations
    then value_of template_name_annotation cr.annotations == template_name
      && value_of node_name_annotation cr.annotations == node_name
    else cr.name == node_name

abbrev pub matching_cr : Unstructured → Unstructured → Bool
matching_cr cr c =
    is_match_node_template c (value_of node_name_annotation cr.annotations)
      (value_of template_name_annotation cr.annotations)

abbrev pub first_match : Unstructured → Answer (List Unstructured) → Answer Unstructured
first_match cr (failed e) = failed e
first_match cr (ok items) = elim (find (matching_cr cr) items) [
  | some c ↦ ok c
  | none ↦ failed not_found
]

-- What CreateRemediationCR returns.
pub record Creation : Type 0 where
  pub created : Bool
  pub requeue : Option ℤ
  pub cr : Unstructured
  pub error : Option Error

module _ (m : Manager) where
  -- The look-up at the start of CreateRemediationCR, with getCRWithNodeNameAnnotation.
  unfoldable pub find_existing : Unstructured → History → Answer Unstructured × History
  find_existing cr h =
      if value_of node_name_annotation cr.annotations == ""
      then (m.environment.on_get_cr h cr, get_cr cr ∷ h)
      else let gvk = generate_remediation_cr_base cr.gvk in
        (first_match cr (m.environment.on_list_crs h gvk), list_crs gvk ∷ h)

  abbrev pub created_as : Unstructured → Option ℤ → Answer Unstructured → Creation
  created_as cr requeue (failed e) = record {
    created = false;
    requeue = none;
    cr = cr;
    error = some e;
  }
  created_as cr requeue (ok c) = record { created = true; requeue = requeue; cr = c; error = none }

  -- Whether getCRWithNodeNameAnnotation returns no CR besides an error that says that nothing was found: its List
  -- was answered so.
  abbrev pub is_nil : Unstructured → History → Bool
  is_nil cr h =
      if value_of node_name_annotation cr.annotations == ""
      then false
      else elim (m.environment.on_list_crs h (generate_remediation_cr_base cr.gvk)) [
        | failed e ↦ is_not_found e
        | ok items ↦ false
      ]

  -- The creation; the name of a nil CR is asked for before it.
  abbrev pub create : Bool → Unstructured → Option ℤ → History → Creation × History
  create true cr requeue h =
      (record { created = false; requeue = none; cr = cr; error = some panicked }, h)
  create false cr requeue h =
      (created_as cr requeue (m.environment.on_create_cr h cr), create_cr cr ∷ h)

  -- No CR exists: the lease of the node, if there is one, comes first.
  unfoldable pub create_new : Bool → Unstructured → Option String → ℤ → History → Creation × History
  create_new nil cr none current h = create nil cr none h
  create_new nil cr (some node) current h =
      let ((requeue, error), h') = obtain_node_lease m.environment node current h in
      elim error [
        | some e ↦ (record { created = false; requeue = requeue; cr = cr; error = some e }, h')
        | none ↦ create nil cr requeue h'
      ]

  -- A CR exists: its lease is looked after.
  unfoldable pub keep_existing :
      ℤ → Unstructured → Option String → ℤ → ℤ → History → Creation × History
  keep_existing now c node_name current previous h =
      if not (is_owner c m.owner)
      then (record { created = false; requeue = none; cr = c; error = some cr_not_owned }, h)
      else elim node_name [
        | none ↦ (record { created = false; requeue = none; cr = c; error = none }, h)
        | some node ↦
            let ((duration, error), h') =
              manage_lease m.environment now m.holder_identity node current previous h in
            (record { created = false; requeue = some duration; cr = c; error = error }, h')
      ]

  -- CreateRemediationCR.
  unfoldable pub create_remediation_cr :
      ℤ → Unstructured → Option String → ℤ → ℤ → History → Creation × History
  unfolding find_existing create_new keep_existing
  create_remediation_cr now cr node_name current previous h =
      let (found, h') = find_existing cr h in
      elim found [
        | ok c ↦ keep_existing now c node_name current previous h'
        | failed e ↦
            if is_not_found e
            then create_new (is_nil cr h) cr node_name current h'
            else (record { created = false; requeue = none; cr = cr; error = some e }, h')
      ]

  abbrev pub deletion : Option Error → Bool × Option Error
  deletion none = (true, none)
  deletion (some e) = if is_not_found e then (true, none) else (false, some e)

  -- DeleteRemediationCR.
  unfoldable pub delete_remediation_cr : Unstructured → History → (Bool × Option Error) × History
  delete_remediation_cr cr h = elim (m.environment.on_get_cr h cr) [
    | failed e ↦ (
      (false, if is_not_found e then none else some (wrapped "failed to get remediation CR" e)),
      get_cr cr ∷ h,
    )
    | ok c ↦
        if is_some c.deletion_timestamp
        then ((false, none), get_cr cr ∷ h)
        else if not (is_owner c m.owner)
        then ((false, none), get_cr cr ∷ h)
        else (deletion (m.environment.on_delete_cr (get_cr cr ∷ h) c), delete_cr c ∷ get_cr cr ∷ h)
  ]

  abbrev pub of_template : ObjectReference → Answer (List Unstructured) → Answer (List Unstructured)
  of_template template (failed e) =
      if is_not_found e then ok [] else failed (wrapped "failed to get all remediation objects" e)
  of_template template (ok items) =
      ok (filter (λ cr. is_match_node_template cr (get_node_name_from_cr cr) template.name) items)

  -- ListRemediationCRs before its filter: a template that is not found has no CRs.
  unfoldable pub list_all :
      List ObjectReference → List Unstructured → History → Answer (List Unstructured) × History
  list_all [] crs h = (ok crs, h)
  list_all (template ∷ templates) crs h =
      let gvk = generate_remediation_cr_base template.gvk in
      elim (of_template template (m.environment.on_list_crs h gvk)) [
        | failed e ↦ (failed e, list_crs gvk ∷ h)
        | ok items ↦ list_all templates (crs ++ items) (list_crs gvk ∷ h)
      ]

  abbrev pub filtered :
      (Unstructured → Bool) → Answer (List Unstructured) → Answer (List Unstructured)
  filtered p (failed e) = failed e
  filtered p (ok crs) = ok (filter p crs)

  -- ListRemediationCRs.
  unfoldable pub list_remediation_crs :
      List ObjectReference → (Unstructured → Bool) → History → Answer (List Unstructured) × History
  unfolding list_all
  list_remediation_crs templates p h =
      let (crs, h') = list_all templates [] h in (filtered p crs, h')
