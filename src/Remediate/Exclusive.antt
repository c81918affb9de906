-- ===== src/Remediate/Exclusive.antt =====
-- A CR of a control plane node keeps the other control plane nodes from being remediated.
use node_healthcheck_operato.Prelude.{
  ℤ, minute, String, StringMap, Bool, true, false, Option, some, List, [], ◌∷◌, ◌++◌, any, filter,
  is_empty, length, has_key, insert, In, head, tail, ◌==◌, ◌≡◌, ◌⊎◌, refl, sym, ap, ◌∙◌, arith,
  eq_refl, Bool-cases, Option-cases, inl, inr,
}
use mathlib.Core.Path.{subst}
use node_healthcheck_operato.Api.{
  ObjectReference, Node, NodeHealthCheckSpec, NodeHealthCheck, UnhealthyNode,
}
use node_healthcheck_operato.Remediation.{
  Unstructured, get_node_name_from_cr, get_all_remediation_templates,
}
use node_healthcheck_operato.Cluster.{
  Call, create_cr, list_crs, ok, is_not_found, History, Answer-cases,
}
use node_healthcheck_operato.NodeLease.{obtain_node_lease, manage_lease, manage, extend}
use node_healthcheck_operato.Manager.{
  Manager, Creation, find_existing, is_nil, create, create_new, keep_existing,
  create_remediation_cr, list_all, list_remediation_crs, of_template, generate_remediation_cr_base,
}
use node_healthcheck_operato.Escalation.{get_remediation_duration}
use node_healthcheck_operato.Templates.{
  get_template_with_fallback_namespace, get_current_template_with_timeout,
}
use node_healthcheck_operato.Remediate.Setup.{
  Reconciler, returns, has_control_plane_label, remediation_control_plane_label,
  sorted_remediations, is_control_plane_remediation_allowed, get_owning_machine_with_namespace,
  generate_remediation_cr_for_node, is_no_template_left,
}
use node_healthcheck_operato.Remediate.Outcome.{
  add_time_out_annotation, handle_overdue_lease, handle_creation_error, handle_timeout,
  check_timeout, after_creation,
}
use node_healthcheck_operato.Remediate.Run.{
  with_label, remediate_with, remediate_allowed, remediate,
}
use node_healthcheck_operato.Remediate.Safety.{creations}

list_all-creations :
    (m : Manager) (templates : List ObjectReference) (crs : List Unstructured) (h : History)
    → creations (list_all m templates crs h).1 ≡ creations h
unfolding list_all
list_all-creations m [] crs h = refl
list_all-creations m (template ∷ templates) crs h =
    let gvk = generate_remediation_cr_base template.gvk in
    elim (Answer-cases (of_template m template (m.environment.on_list_crs h gvk))) [
      | inl (e, broken) ↦ rw (broken, list_all)
      | inr (items, listed) ↦
          rw (listed, list_all) (list_all-creations m templates (crs ++ items) (list_crs gvk ∷ h))
    ]

module _ (r : Reconciler) (node : Node) (nhc : NodeHealthCheck) (h : History) where
  not_allowed :
      (crs : List Unstructured)
      → r.manager.environment.is_control_plane node ≡ true
      → (list_remediation_crs r.manager
          (get_all_remediation_templates nhc)
          has_control_plane_label
          h).0
        ≡ ok crs
      → is_empty crs ≡ false
      → any (λ cr. get_node_name_from_cr cr == node.name) crs ≡ false
      → (is_control_plane_remediation_allowed r node nhc h).0 ≡ ok false
  unfolding is_control_plane_remediation_allowed
  not_allowed crs control_plane listed others not_this = ground arith

  allowed-creations : creations (is_control_plane_remediation_allowed r node nhc h).1 ≡ creations h
  unfolding is_control_plane_remediation_allowed list_remediation_crs
  allowed-creations =
      ground (arith, list_all-creations r.manager (get_all_remediation_templates nhc) [] h)

-- Nothing has been created since `h0` but one CR, or nothing at all.
abbrev CreatesOnly : Unstructured → History → History → Type 0
CreatesOnly cr h0 h = (creations h ≡ creations h0) ⊎ (creations h ≡ create_cr cr ∷ creations h0)

module _ (m : Manager) where
  find_existing-creations :
      (cr : Unstructured) (h : History) → creations (find_existing m cr h).1 ≡ creations h
  unfolding find_existing
  find_existing-creations cr h = ground arith

  obtain-creations :
      (node : String) (current : ℤ) (h : History)
      → creations (obtain_node_lease m.environment node current h).1 ≡ creations h
  unfolding obtain_node_lease
  obtain-creations node current h = ground arith

  manage-creations :
      (now : ℤ) (holder node : String) (current previous : ℤ) (h : History)
      → creations (manage_lease m.environment now holder node current previous h).1 ≡ creations h
  unfolding manage_lease manage extend
  manage-creations now holder node current previous h = ground arith

  keep_existing-creations :
      (now : ℤ) (c : Unstructured) (node : String) (current previous : ℤ) (h : History)
      → creations (keep_existing m now c (some node) current previous h).1 ≡ creations h
  unfolding keep_existing
  keep_existing-creations now c node current previous h =
      ground (arith, manage-creations now m.holder_identity node current previous h)

  created-CreatesOnly :
      (nil : Bool) (cr : Unstructured) (requeue : Option ℤ) (h h' : History)
      → creations h' ≡ creations h
      → CreatesOnly cr h (create m nil cr requeue h').1
  created-CreatesOnly true cr requeue h h' s = inl s
  created-CreatesOnly false cr requeue h h' s = inr (ap (λ cs. create_cr cr ∷ cs) s)

  create_new-CreatesOnly :
      (nil : Bool) (cr : Unstructured) (node : String) (current : ℤ) (h : History)
      → CreatesOnly cr h (create_new m nil cr (some node) current h).1
  unfolding create_new
  create_new-CreatesOnly nil cr node current h =
      let s = obtain-creations node current h in
      elim (Option-cases (obtain_node_lease m.environment node current h).0.1) [
        | inl granted ↦ rw (granted, create_new) (created-CreatesOnly nil cr _ h _ s)
        | inr (e, refused) ↦ rw (refused, create_new) (inl s)
      ]

  create-CreatesOnly :
      (now : ℤ) (cr : Unstructured) (node : String) (current previous : ℤ) (h : History)
      → CreatesOnly cr h (create_remediation_cr m now cr (some node) current previous h).1
  unfolding create_remediation_cr
  create-CreatesOnly now cr node current previous h =
      let found = find_existing m cr h in
      let nil = is_nil m cr h in
      let s = find_existing-creations cr h in
      elim (Answer-cases found.0) [
        | inr (c, exists) ↦
            rw (exists, create_remediation_cr)
              (inl (keep_existing-creations now c node current previous found.1 ∙ s))
        | inl (e, missing) ↦ elim (Bool-cases (is_not_found e)) [
          | inr broken ↦ rw (missing, create_remediation_cr) (rw broken (inl s))
          | inl absent ↦
              rw (missing, create_remediation_cr)
                (rw absent (
                  subst
                    (λ (cs : List Call).
                      (creations (create_new m nil cr (some node) current found.1).1 ≡ cs)
                      ⊎ (creations (create_new m nil cr (some node) current found.1).1
                          ≡ create_cr cr ∷ cs))
                    s (create_new-CreatesOnly nil cr node current found.1)))
        ]
      ]

module _ (r : Reconciler) where
  template-creations :
      (node_name : String) (spec : NodeHealthCheckSpec) (us : List UnhealthyNode) (h : History)
      → creations (get_current_template_with_timeout r.manager.environment node_name spec us h).1
        ≡ creations h
  unfolding get_current_template_with_timeout get_template_with_fallback_namespace
  template-creations node_name spec us h = ground arith

  generate-creations :
      (now : ℤ) (node : Node) (template : Unstructured) (h : History)
      → creations (generate_remediation_cr_for_node r now node template h).1 ≡ creations h
  unfolding generate_remediation_cr_for_node get_owning_machine_with_namespace
  generate-creations now node template h = ground arith

  annotation-creations :
      (now : ℤ) (cr : Unstructured) (h : History)
      → creations (add_time_out_annotation r now cr h).1 ≡ creations h
  unfolding add_time_out_annotation
  annotation-creations now cr h = ground arith

  after_creation-creations :
      (now : ℤ) (node : Node) (template_name : String) (timeout : Option ℤ) (c : Creation)
      (us : List UnhealthyNode) (h : History)
      → creations (after_creation r now node template_name timeout c us h).1 ≡ creations h
  unfolding after_creation handle_creation_error check_timeout handle_timeout handle_overdue_lease
  after_creation-creations now node template_name timeout c us h =
      ground (arith, annotation-creations now c.cr h)

insert-has_key : (k : String) (m : StringMap) → has_key k (insert k "" m) ≡ true
insert-has_key k [] = rw (eq_refl k) refl
insert-has_key k ((j, w) ∷ m) = elim (Bool-cases (j == k)) [
  | inl same ↦ rw same (rw (eq_refl k) refl)
  | inr other ↦ rw other (rw other (insert-has_key k m))
]

-- All creations since `h0` are of CRs with the label.
abbrev AreLabelled : History → History → Type 0
AreLabelled h0 h =
    (creations h ≡ creations h0)
    ⊎ ((cr : Unstructured) × (has_control_plane_label cr ≡ true)
        × (creations h ≡ create_cr cr ∷ creations h0))

since : (h0 h1 h : History) → creations h1 ≡ creations h0 → AreLabelled h1 h → AreLabelled h0 h
since h0 h1 h s (inl nothing) = inl (nothing ∙ s)
since h0 h1 h s (inr (cr, labelled, one)) =
    inr (cr, labelled, one ∙ ap (λ (cs : List Call). create_cr cr ∷ cs) s)

no_loop : (c : Call) (cs : List Call) → cs ≡ c ∷ cs → ⊥
no_loop c cs e = omega (arith, ap (λ (l : List Call). length l) e)

module _ (r : Reconciler) (now : ℤ) (node : Node) (nhc : NodeHealthCheck)
    (control_plane : r.manager.environment.is_control_plane node ≡ true) where
  with-AreLabelled :
      (template : Unstructured) (timeout : Option ℤ) (us : List UnhealthyNode) (h : History)
      → AreLabelled h (remediate_with r now node nhc template timeout us h).1
  unfolding remediate_with
  with-AreLabelled template timeout us h =
      let generation = generate_remediation_cr_for_node r now node template h in
      let s1 = generate-creations r now node template h in
      elim (Answer-cases generation.0) [
        | inl (e, broken) ↦ rw (broken, remediate_with) (inl s1)
        | inr (cr, generated) ↦
            let cr' = with_label true cr in
            let durations = get_remediation_duration (sorted_remediations nhc.spec) cr'.gvk.kind in
            let creation =
              create_remediation_cr r.manager now cr' (some node.name) durations.0 durations.1
                generation.1 in
            let after =
              after_creation-creations r now node template.name timeout creation.0 us creation.1 in
            rw (generated, remediate_with)
              (rw control_plane
                (elim (create-CreatesOnly r.manager now cr' node.name durations.0 durations.1
                  generation.1) [
                    | inl nothing ↦ inl (after ∙ nothing ∙ s1)
                    | inr one ↦ inr (
                      cr',
                      insert-has_key remediation_control_plane_label cr.labels,
                      after ∙ one ∙ ap (λ cs. create_cr cr' ∷ cs) s1,
                    )
                  ]))
      ]

  allowed-AreLabelled :
      (us : List UnhealthyNode) (h : History)
      → AreLabelled h (remediate_allowed r now node nhc us h).1
  unfolding remediate_allowed
  allowed-AreLabelled us h =
      let current =
        get_current_template_with_timeout r.manager.environment node.name nhc.spec us h in
      let s1 = template-creations r node.name nhc.spec us h in
      elim (Answer-cases current.0) [
        | inl (e, broken) ↦ elim (Bool-cases (is_no_template_left e)) [
          | inl none_left ↦ rw (broken, remediate_allowed) (rw none_left (inl s1))
          | inr other_error ↦ rw (broken, remediate_allowed) (rw other_error (inl s1))
        ]
        | inr ((template, timeout), got) ↦
            rw (got, remediate_allowed)
              (since h current.1 (remediate_with r now node nhc template timeout us current.1).1 s1
                (with-AreLabelled template timeout us current.1))
      ]

  remediate-AreLabelled :
      (us : List UnhealthyNode) (h : History) → AreLabelled h (remediate r now node nhc us h).1
  unfolding remediate
  remediate-AreLabelled us h =
      let check = is_control_plane_remediation_allowed r node nhc h in
      let s1 = allowed-creations r node nhc h in
      elim (Answer-cases check.0) [
        | inl (e, broken) ↦ rw (control_plane, remediate) (rw broken (inl s1))
        | inr (false, refused) ↦ rw (control_plane, remediate) (rw refused (inl s1))
        | inr (true, allowed) ↦
            rw (control_plane, remediate)
              (rw allowed (
                since h check.1 (remediate_allowed r now node nhc us check.1).1 s1
                  (allowed-AreLabelled us check.1)))
      ]

  created-labelled :
      (us : List UnhealthyNode) (h : History) (cr : Unstructured)
      → creations (remediate r now node nhc us h).1 ≡ create_cr cr ∷ creations h
      → has_control_plane_label cr ≡ true
  created-labelled us h cr created = go (remediate-AreLabelled us h)
    where
      go : AreLabelled h (remediate r now node nhc us h).1 → has_control_plane_label cr ≡ true
      go (inl nothing) = absurd (no_loop (create_cr cr) (creations h) (sym nothing ∙ created))
      go (inr (cr', labelled, one)) =
          let same : cr' ≡ cr = cc (sym one ∙ created) in
          subst (λ (c : Unstructured). has_control_plane_label c ≡ true) same labelled

labelled-left :
    (cr : Unstructured) (crs : List Unstructured)
    → In cr crs
    → has_control_plane_label cr ≡ true
    → is_empty (filter has_control_plane_label crs) ≡ false
labelled-left cr [] i h = elim i [ ]
labelled-left cr (x ∷ xs) (head e) h =
    let hit : has_control_plane_label x ≡ true =
      subst (λ (c : Unstructured). has_control_plane_label c ≡ true) e h in
    rw hit refl
labelled-left cr (x ∷ xs) (tail i) h = ground (arith, labelled-left cr xs i h)

any-filter :
    (p q : Unstructured → Bool) (crs : List Unstructured)
    → any p crs ≡ false
    → any p (filter q crs) ≡ false
any-filter p q [] h = refl
any-filter p q (x ∷ xs) h = ground (arith, any-filter p q xs)

-- Two control plane nodes of one NodeHealthCheck: when remediate of the first one has created a CR, and later
-- the API server returns this CR, with the labels that it was created with, among the CRs of the
-- templates, but none for the second node, then remediate of the second one creates no CR, leaves the
-- status as it is, and asks to be called again in a minute.
pub remediate-one_control_plane :
    (r : Reconciler) (now : ℤ) (first : Node) (nhc : NodeHealthCheck) (us : List UnhealthyNode)
    (h : History) (cr : Unstructured) (later : ℤ) (second : Node) (us' : List UnhealthyNode)
    (h' : History) (crs : List Unstructured) (stored : Unstructured)
    → r.manager.environment.is_control_plane first ≡ true
    → r.manager.environment.is_control_plane second ≡ true
    → creations (remediate r now first nhc us h).1 ≡ create_cr cr ∷ creations h
    → (list_all r.manager (get_all_remediation_templates nhc) [] h').0 ≡ ok crs
    → In stored crs
    → stored.labels ≡ cr.labels
    → any (λ c. get_node_name_from_cr c == second.name) crs ≡ false
    → let result = remediate r later second nhc us' h' in
      (result.0 ≡ returns (some minute) us') × (creations result.1 ≡ creations h')
unfolding remediate list_remediation_crs
remediate-one_control_plane r now first nhc us h cr later second us' h' crs stored one two created
      listed i labels not_this =
    let labelled : has_control_plane_label stored ≡ true =
      ap (has_key remediation_control_plane_label) labels
      ∙ created-labelled r now first nhc one us h cr created in
    let refused =
      not_allowed r second nhc h' (filter has_control_plane_label crs) two (rw listed refl)
        (labelled-left stored crs i labelled) (any-filter _ has_control_plane_label crs not_this) in
    (
      rw (two, remediate) (rw refused refl),
      rw (two, remediate) (rw refused (allowed-creations r second nhc h')),
    )
