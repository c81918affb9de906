-- ===== src/Reconcile/Deleting.antt =====
-- The steps of Reconcile that may delete CRs, but create none: whatever is true of a history and stays
-- true after calls that create nothing is true after these steps.
use node_healthcheck_operato.Prelude.{
  ℕ, ℤ, String, Bool, true, false, Option, none, List, [], ◌∷◌, ◌++◌, ◌≡◌, refl, Bool-cases,
  Option-cases, inl, inr, is_some, has_key, pos, eqb_ℤ, ltb_ℤ, lookup,
}
use node_healthcheck_operato.Api.{ObjectReference, Node, UnhealthyNode}
use node_healthcheck_operato.Remediation.{Unstructured, get_node_name_from_cr}
use node_healthcheck_operato.Status.{healthy_delay_annotation, update_status_node_healthy}
use node_healthcheck_operato.Cluster.{
  Call, create_cr, get_node, patch_node, invalidate_lease, get_cr, delete_cr, update_cr, History,
  Answer-cases,
}
use node_healthcheck_operato.NodeLease.{invalidate_node_lease}
use node_healthcheck_operato.Manager.{
  Manager, is_owner, list_remediation_crs, delete_remediation_cr,
}
use node_healthcheck_operato.Manager.Healthy.{
  Rfc3339, positive_delay, delay_in_loop, calc_cr_deletion_delay, decide, handle_crs, handle_known,
  handle_healthy_node, clean_up, remove_confirmed_healthy_annotation, is_confirmed, is_cr_of,
  manually_confirmed_healthy_annotation,
}
use node_healthcheck_operato.Orphans.{is_orphaned, delete_orphans, delete_orphaned_remediation_crs}
use node_healthcheck_operato.Remediate.Safety.{is_creation}
use node_healthcheck_operato.Reconcile.Quiet.{is_harmless, IsKept, list-kept}
use node_healthcheck_operato.Reconcile.Healthy.{handle_healthy_nodes, count_node}

-- Calls that create no CR keep `P`.
abbrev pub IsKeptByOthers : (History → Type 0) → Type 0
IsKeptByOthers P = (c : Call) (h : History) → is_creation c ≡ false → P h → P (c ∷ h)

harmless-no_creation : (c : Call) → is_harmless c ≡ true → is_creation c ≡ false
harmless-no_creation (create_cr cr) e = cc
harmless-no_creation _ e = refl

module _ (P : History → Type 0) (keep : IsKeptByOthers P) where
  pub harmless-kept : IsKept P
  harmless-kept c h e p = keep c h (harmless-no_creation c e) p

  delete-kept :
      (m : Manager) (cr : Unstructured) (h : History) → P h → P (delete_remediation_cr m cr h).1
  unfolding delete_remediation_cr
  delete-kept m cr h p =
      let p1 = keep (get_cr cr) h refl p in
      elim (Answer-cases (m.environment.on_get_cr h cr)) [
        | inl (e, missing) ↦ rw (missing, delete_remediation_cr) p1
        | inr (c, got) ↦
            let p2 = keep (delete_cr c) (get_cr cr ∷ h) refl p1 in
            elim (Bool-cases (is_some c.deletion_timestamp)) [
              | inl going ↦ rw (got, delete_remediation_cr) (rw going p1)
              | inr stays ↦ elim (Bool-cases (is_owner c m.owner)) [
                | inr theirs ↦ rw (got, delete_remediation_cr) (rw stays (rw theirs p1))
                | inl mine ↦ rw (got, delete_remediation_cr) (rw stays (rw mine p2))
              ]
            ]
      ]

  confirmation-kept :
      (m : Manager) (node_name : String) (h : History)
      → P h
      → P (remove_confirmed_healthy_annotation m node_name h).1
  unfolding remove_confirmed_healthy_annotation
  confirmation-kept m node_name h p =
      let p1 = keep (get_node node_name) h refl p in
      elim (Answer-cases (m.environment.on_get_node h node_name)) [
        | inl (e, broken) ↦ rw (broken, remove_confirmed_healthy_annotation) p1
        | inr (node, got) ↦
            elim (Bool-cases (has_key manually_confirmed_healthy_annotation node.annotations)) [
              | inr other ↦ rw (got, remove_confirmed_healthy_annotation) (rw other p1)
              | inl confirmed ↦
                  rw (got, remove_confirmed_healthy_annotation)
                    (rw confirmed (keep (patch_node _) _ refl p1))
            ]
      ]

  clean_up-kept :
      (m : Manager) (node_name : String) (confirmed : Bool) (h : History)
      → P h
      → P (clean_up m node_name confirmed h).1
  unfolding clean_up invalidate_node_lease
  clean_up-kept m node_name false h p = keep (invalidate_lease node_name) h refl p
  clean_up-kept m node_name true h p =
      let removal = remove_confirmed_healthy_annotation m node_name h in
      let p1 = confirmation-kept m node_name h p in
      elim (Option-cases removal.0) [
        | inr (e, broken) ↦ rw (broken, clean_up) p1
        | inl fine ↦ rw (fine, clean_up) (keep (invalidate_lease node_name) removal.1 refl p1)
      ]

  module _ (m : Manager) (clock : Rfc3339) (now : ℤ) where
    positive-kept :
        (d : ℤ) (cr : Unstructured) (h : History)
        → P h
        → P (positive_delay m clock now d cr (lookup healthy_delay_annotation cr.annotations) h).1.1
    positive-kept d cr h p = elim (Option-cases (lookup healthy_delay_annotation cr.annotations)) [
      | inl fresh ↦ rw fresh (keep (update_cr _) h refl p)
      | inr (text, started) ↦ rw started p
    ]

    delay-kept :
        (confirmed : Bool) (cr : Unstructured) (h : History)
        → P h
        → P (delay_in_loop m clock now confirmed cr h).1.1
    unfolding calc_cr_deletion_delay
    delay-kept true cr h p = p
    delay-kept false cr h p = elim (Option-cases m.healthy_delay) [
      | inl no_delay ↦ rw (no_delay, calc_cr_deletion_delay) p
      | inr (d, has_delay) ↦ elim (Bool-cases (eqb_ℤ d (pos 0))) [
        | inl zero_delay ↦ rw (has_delay, calc_cr_deletion_delay) (rw zero_delay p)
        | inr other ↦ elim (Bool-cases (ltb_ℤ d (pos 0))) [
          | inl negative ↦ rw (has_delay, calc_cr_deletion_delay) (rw other (rw negative p))
          | inr positive ↦
              rw (has_delay, calc_cr_deletion_delay)
                (rw other (rw positive (positive-kept d cr h p)))
        ]
      ]
    ]

    handle_crs-kept :
        (confirmed : Bool) (crs passed : List Unstructured) (requeue : Option ℤ) (h : History)
        → P h
        → P (handle_crs m clock now confirmed crs passed requeue h).1
    unfolding handle_crs
    handle_crs-kept confirmed [] passed requeue h p = p
    handle_crs-kept confirmed (cr ∷ crs) passed requeue h p =
        let step = delay_in_loop m clock now confirmed cr h in
        let cr' = step.1.0 in
        let p1 = delay-kept confirmed cr h p in
        let rest = decide step.0 requeue in
        elim (Bool-cases rest.0) [
          | inr kept ↦
              rw (kept, handle_crs)
                (handle_crs-kept confirmed crs (passed ++ cr' ∷ []) rest.1 step.1.1 p1)
          | inl goes ↦
              let deletion = delete_remediation_cr m cr' step.1.1 in
              let p2 = delete-kept m cr' step.1.1 p1 in
              elim (Option-cases deletion.0.1) [
                | inl done ↦
                    rw (goes, handle_crs)
                      (rw done
                        (handle_crs-kept confirmed crs (passed ++ cr' ∷ []) rest.1 deletion.1 p2))
                | inr (e, broken) ↦ rw (goes, handle_crs) (rw broken p2)
              ]
        ]

    handle_known-kept :
        (node_name : String) (us : List UnhealthyNode) (confirmed : Bool) (crs : List Unstructured)
        (h : History)
        → P h
        → P (handle_known m clock now node_name us confirmed crs h).1
    unfolding handle_known
    handle_known-kept node_name us confirmed [] h p = clean_up-kept m node_name confirmed h p
    handle_known-kept node_name us confirmed (cr ∷ crs) h p =
        handle_crs-kept confirmed (cr ∷ crs) [] none h p

    pub handle_healthy_node-kept :
        (templates : List ObjectReference) (us : List UnhealthyNode) (node_name cr_name : String)
        (h : History)
        → P h
        → P (handle_healthy_node m clock now templates us node_name cr_name h).1
    unfolding handle_healthy_node
    handle_healthy_node-kept templates us node_name cr_name h p =
        let listing = list_remediation_crs m templates (is_cr_of m node_name cr_name) h in
        let p1 = list-kept P harmless-kept m templates (is_cr_of m node_name cr_name) h p in
        let p2 = keep (get_node node_name) listing.1 refl p1 in
        let answer = is_confirmed (m.environment.on_get_node listing.1 node_name) in
        elim (Answer-cases listing.0) [
          | inl (e, broken) ↦ rw (broken, handle_healthy_node) p1
          | inr (crs, listed) ↦ elim (Answer-cases answer) [
            | inl (e, broken) ↦ rw (listed, handle_healthy_node) (rw broken p2)
            | inr (confirmed, got) ↦
                rw (listed, handle_healthy_node)
                  (rw got (
                    handle_known-kept node_name us confirmed crs (get_node node_name ∷ listing.1)
                      p2))
          ]
        ]

    pub healthy_nodes-kept :
        (templates : List ObjectReference) (nodes : List Node) (requeue : ℤ)
        (us : List UnhealthyNode) (count : ℕ) (h : History)
        → P h
        → P (handle_healthy_nodes m clock now templates nodes requeue us count h).1
    unfolding handle_healthy_nodes
    healthy_nodes-kept templates [] requeue us count h p = p
    healthy_nodes-kept templates (node ∷ nodes) requeue us count h p =
        let step = handle_healthy_node m clock now templates us node.name node.name h in
        let p1 = handle_healthy_node-kept templates us node.name node.name h p in
        let next = count_node m clock now templates node requeue count step.0 in
        elim (Option-cases step.0.error) [
          | inr (e, broken) ↦ rw (broken, handle_healthy_nodes) p1
          | inl fine ↦
              rw (fine, handle_healthy_nodes)
                (healthy_nodes-kept templates nodes next.requeue_after next.unhealthy_nodes
                  next.healthy_count step.1 p1)
        ]

  orphans-kept :
      (m : Manager) (crs : List Unstructured) (us : List UnhealthyNode) (h : History)
      → P h
      → P (delete_orphans m crs us h).1
  unfolding delete_orphans
  orphans-kept m [] us h p = p
  orphans-kept m (cr ∷ crs) us h p =
      let name = get_node_name_from_cr cr in
      let cleaning = clean_up m name false h in
      let us' = update_status_node_healthy name us in
      let deletion = delete_remediation_cr m cr cleaning.1 in
      let p1 = clean_up-kept m name false h p in
      let p2 = delete-kept m cr cleaning.1 p1 in
      elim (Option-cases cleaning.0) [
        | inr (e, broken) ↦ rw (broken, delete_orphans) p1
        | inl cleaned ↦ elim (Option-cases deletion.0.1) [
          | inr (e, broken) ↦ rw (cleaned, delete_orphans) (rw broken p2)
          | inl deleted ↦
              rw (cleaned, delete_orphans) (rw deleted (orphans-kept m crs us' deletion.1 p2))
        ]
      ]

  pub delete_orphaned-kept :
      (m : Manager) (templates : List ObjectReference) (nodes : List Node) (us : List UnhealthyNode)
      (h : History)
      → P h
      → P (delete_orphaned_remediation_crs m templates nodes us h).1
  unfolding delete_orphaned_remediation_crs
  delete_orphaned-kept m templates nodes us h p =
      let listing = list_remediation_crs m templates (is_orphaned m nodes) h in
      let p1 = list-kept P harmless-kept m templates (is_orphaned m nodes) h p in
      elim (Answer-cases listing.0) [
        | inl (e, broken) ↦ rw (broken, delete_orphaned_remediation_crs) p1
        | inr (crs, listed) ↦
            rw (listed, delete_orphaned_remediation_crs) (orphans-kept m crs us listing.1 p1)
      ]
