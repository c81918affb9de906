-- ===== src/Manager/Healthy/Keeps.antt =====
-- What HandleHealthyNode deletes, and what it keeps.
use node_healthcheck_operato.Prelude.{
  ℤ, pos, negsuc, ◌<ℤ◌, String, Bool, true, false, Option, none, some, List, [], ◌∷◌, ◌++◌, has_key,
  ◌≡◌, refl, arith, ap, ◌∙◌, Bool-cases, Option-cases, inl, inr, filter,
}
use node_healthcheck_operato.Api.{ObjectReference, Node, UnhealthyNode}
use node_healthcheck_operato.Remediation.{Unstructured}
use node_healthcheck_operato.Cluster.{
  ok, Call, get_node, delete_cr, list_crs, History, Answer-cases,
}
use node_healthcheck_operato.NodeLease.{invalidate_node_lease}
use node_healthcheck_operato.Manager.{
  Manager, list_all, list_remediation_crs, delete_remediation_cr, of_template,
  generate_remediation_cr_base,
}
use node_healthcheck_operato.Manager.Safe.{IsSafe}
use node_healthcheck_operato.Manager.Create.{delete_remediation_cr-IsSafe}
use node_healthcheck_operato.Manager.Healthy.{
  Rfc3339, delay_in_loop, calc_cr_deletion_delay, decide, handle_crs, handle_known,
  handle_healthy_node, clean_up, remove_confirmed_healthy_annotation, is_confirmed, is_cr_of,
  manually_confirmed_healthy_annotation,
}

module _ (m : Manager) where
  pub list_all-IsSafe :
      (templates : List ObjectReference) (crs : List Unstructured) (h : History)
      → IsSafe m h
      → IsSafe m (list_all m templates crs h).1
  unfolding list_all
  list_all-IsSafe [] crs h s = s
  list_all-IsSafe (template ∷ templates) crs h s =
      let gvk = generate_remediation_cr_base template.gvk in
      elim (Answer-cases (of_template m template (m.environment.on_list_crs h gvk))) [
        | inl (e, broken) ↦ rw (broken, list_all) (tt, s)
        | inr (items, listed) ↦
            rw (listed, list_all)
              (list_all-IsSafe templates (crs ++ items) (list_crs gvk ∷ h) (tt, s))
      ]

  pub list-IsSafe :
      (templates : List ObjectReference) (p : Unstructured → Bool) (h : History)
      → IsSafe m h
      → IsSafe m (list_remediation_crs m templates p h).1
  unfolding list_remediation_crs
  list-IsSafe templates p h s = list_all-IsSafe templates [] h s

  pub clean_up-IsSafe :
      (node_name : String) (confirmed : Bool) (h : History)
      → IsSafe m h
      → IsSafe m (clean_up m node_name confirmed h).1
  unfolding clean_up remove_confirmed_healthy_annotation invalidate_node_lease
  clean_up-IsSafe node_name false h s = (tt, s)
  clean_up-IsSafe node_name true h s = ground arith

  module _ (clock : Rfc3339) (now : ℤ) where
    delay-IsSafe :
        (confirmed : Bool) (cr : Unstructured) (h : History)
        → IsSafe m h
        → IsSafe m (delay_in_loop m clock now confirmed cr h).1.1
    unfolding calc_cr_deletion_delay
    delay-IsSafe true cr h s = s
    delay-IsSafe false cr h s = ground arith

    handle_crs-IsSafe :
        (confirmed : Bool) (crs passed : List Unstructured) (requeue : Option ℤ) (h : History)
        → IsSafe m h
        → IsSafe m (handle_crs m clock now confirmed crs passed requeue h).1
    unfolding handle_crs
    handle_crs-IsSafe confirmed [] passed requeue h s = s
    handle_crs-IsSafe confirmed (cr ∷ crs) passed requeue h s =
        let step = delay_in_loop m clock now confirmed cr h in
        let cr' = step.1.0 in
        let s1 = delay-IsSafe confirmed cr h s in
        let rest = decide step.0 requeue in
        elim (Bool-cases rest.0) [
          | inr kept ↦
              rw (kept, handle_crs)
                (handle_crs-IsSafe confirmed crs (passed ++ cr' ∷ []) rest.1 step.1.1 s1)
          | inl goes ↦
              let deletion = delete_remediation_cr m cr' step.1.1 in
              let s2 = delete_remediation_cr-IsSafe m cr' step.1.1 s1 in
              elim (Option-cases deletion.0.1) [
                | inl done ↦
                    rw (goes, handle_crs)
                      (rw done
                        (handle_crs-IsSafe confirmed crs (passed ++ cr' ∷ []) rest.1 deletion.1 s2))
                | inr (e, broken) ↦ rw (goes, handle_crs) (rw broken s2)
              ]
        ]

    handle_known-IsSafe :
        (node_name : String) (us : List UnhealthyNode) (confirmed : Bool) (crs : List Unstructured)
        (h : History)
        → IsSafe m h
        → IsSafe m (handle_known m clock now node_name us confirmed crs h).1
    unfolding handle_known
    handle_known-IsSafe node_name us confirmed [] h s = clean_up-IsSafe node_name confirmed h s
    handle_known-IsSafe node_name us confirmed (cr ∷ crs) h s =
        handle_crs-IsSafe confirmed (cr ∷ crs) [] none h s

    -- If every call so far was allowed, so is every call of HandleHealthyNode: a CR is deleted only if
    -- the API server has just returned it, owned by us and not yet being deleted, and a CR is
    -- created only with the lease of its node.
    pub handle_healthy_node-IsSafe :
        (templates : List ObjectReference) (us : List UnhealthyNode) (node_name cr_name : String)
        (h : History)
        → IsSafe m h
        → IsSafe m (handle_healthy_node m clock now templates us node_name cr_name h).1
    unfolding handle_healthy_node
    handle_healthy_node-IsSafe templates us node_name cr_name h s =
        let listing = list_remediation_crs m templates (is_cr_of m node_name cr_name) h in
        let s1 = list-IsSafe templates (is_cr_of m node_name cr_name) h s in
        let answer = is_confirmed (m.environment.on_get_node listing.1 node_name) in
        elim (Answer-cases listing.0) [
          | inl (e, broken) ↦ rw (broken, handle_healthy_node) s1
          | inr (crs, listed) ↦ elim (Answer-cases answer) [
            | inl (e, broken) ↦ rw (listed, handle_healthy_node) (rw broken (tt, s1))
            | inr (confirmed, got) ↦
                rw (listed, handle_healthy_node)
                  (rw got (
                    handle_known-IsSafe node_name us confirmed crs (get_node node_name ∷ listing.1)
                      (tt, s1)))
          ]
        ]

-- The deletions of a history.
abbrev pub is_deletion : Call → Bool
is_deletion (delete_cr cr) = true
is_deletion _ = false

abbrev pub deletions : History → List Call
deletions h = filter is_deletion h

module _ (m : Manager) (clock : Rfc3339) (now d : ℤ) (never : m.healthy_delay ≡ some d)
    (negative : d <ℤ pos 0) where
  list_all-deletions :
      (templates : List ObjectReference) (crs : List Unstructured) (h : History)
      → deletions (list_all m templates crs h).1 ≡ deletions h
  unfolding list_all
  list_all-deletions [] crs h = refl
  list_all-deletions (template ∷ templates) crs h =
      let gvk = generate_remediation_cr_base template.gvk in
      elim (Answer-cases (of_template m template (m.environment.on_list_crs h gvk))) [
        | inl (e, broken) ↦ rw (broken, list_all)
        | inr (items, listed) ↦
            rw (listed, list_all) (list_all-deletions templates (crs ++ items) (list_crs gvk ∷ h))
      ]

  delay-permanent :
      (cr : Unstructured) (h : History)
      → delay_in_loop m clock now false cr h ≡ ((negsuc 0, none), (cr, h))
  unfolding calc_cr_deletion_delay
  delay-permanent cr h = rw never (ground arith)

  handle_crs-deletions :
      (crs passed : List Unstructured) (requeue : Option ℤ) (h : History)
      → deletions (handle_crs m clock now false crs passed requeue h).1 ≡ deletions h
  unfolding handle_crs decide
  handle_crs-deletions [] passed requeue h = refl
  handle_crs-deletions (cr ∷ crs) passed requeue h =
      let step = delay_in_loop m clock now false cr h in
      let e = delay-permanent cr h in
      let kept : (decide step.0 requeue).0 ≡ false = ap (λ p. (decide p.0 requeue).0) e in
      rw (kept, handle_crs)
        (handle_crs-deletions crs (passed ++ step.1.0 ∷ []) (decide step.0 requeue).1 step.1.1
          ∙ ap (λ p. deletions p.1.1) e)

  handle_known-deletions :
      (node_name : String) (us : List UnhealthyNode) (crs : List Unstructured) (h : History)
      → deletions (handle_known m clock now node_name us false crs h).1 ≡ deletions h
  unfolding handle_known clean_up invalidate_node_lease
  handle_known-deletions node_name us [] h = refl
  handle_known-deletions node_name us (cr ∷ crs) h = handle_crs-deletions (cr ∷ crs) [] none h

  -- With a negative healthy delay, no call of HandleHealthyNode deletes a CR while the node is not
  -- confirmed to be healthy by hand.
  pub negative_delay_keeps :
      (templates : List ObjectReference) (us : List UnhealthyNode) (node_name cr_name : String)
      (h : History) (node : Node)
      → m.environment.on_get_node
          (list_remediation_crs m templates (is_cr_of m node_name cr_name) h).1
          node_name
        ≡ ok node
      → has_key manually_confirmed_healthy_annotation node.annotations ≡ false
      → deletions (handle_healthy_node m clock now templates us node_name cr_name h).1 ≡ deletions h
  unfolding handle_healthy_node list_remediation_crs
  negative_delay_keeps templates us node_name cr_name h node got unconfirmed =
      let listing = list_remediation_crs m templates (is_cr_of m node_name cr_name) h in
      let listed_only = list_all-deletions templates [] h in
      elim (Answer-cases listing.0) [
        | inl (e, broken) ↦ rw (broken, handle_healthy_node) listed_only
        | inr (crs, listed) ↦
            rw (listed, handle_healthy_node)
              (rw got (
                rw unconfirmed (
                  handle_known-deletions node_name us crs (get_node node_name ∷ listing.1)
                  ∙ listed_only)))
      ]
