-- ===== src/Orphans/Safety.antt =====
-- deleteOrphanedRemediationCRs makes allowed calls only, and forgets no node that is still there.
use node_healthcheck_operato.Prelude.{
  String, Bool, true, false, List, [], ◌∷◌, any, All, In, head, tail, filter, ◌==◌, eq_iff, ◌≡◌,
  refl, arith, ap, ◌∙◌, Bool-cases, Option-cases, inl, inr,
}
use node_healthcheck_operato.Api.{ObjectReference, Node, UnhealthyNode}
use node_healthcheck_operato.Remediation.{Unstructured, get_node_name_from_cr}
use node_healthcheck_operato.Status.{is_named, update_status_node_healthy}
use node_healthcheck_operato.Cluster.{Answer, ok, failed, History, Answer-cases}
use node_healthcheck_operato.Manager.{
  Manager, filtered, list_all, list_remediation_crs, delete_remediation_cr,
}
use node_healthcheck_operato.Manager.Safe.{IsSafe}
use node_healthcheck_operato.Manager.Create.{delete_remediation_cr-IsSafe}
use node_healthcheck_operato.Manager.Healthy.{clean_up}
use node_healthcheck_operato.Manager.Healthy.Keeps.{list-IsSafe, clean_up-IsSafe}
use node_healthcheck_operato.Orphans.{is_orphaned, delete_orphans, delete_orphaned_remediation_crs}

module _ (m : Manager) where
  delete_orphans-IsSafe :
      (crs : List Unstructured) (us : List UnhealthyNode) (h : History)
      → IsSafe m h
      → IsSafe m (delete_orphans m crs us h).1
  unfolding delete_orphans
  delete_orphans-IsSafe [] us h s = s
  delete_orphans-IsSafe (cr ∷ crs) us h s =
      let cleaning = clean_up m (get_node_name_from_cr cr) false h in
      let deletion = delete_remediation_cr m cr cleaning.1 in
      let s1 = clean_up-IsSafe m (get_node_name_from_cr cr) false h s in
      let s2 = delete_remediation_cr-IsSafe m cr cleaning.1 s1 in
      elim (Option-cases cleaning.0) [
        | inr (e, broken) ↦ rw (broken, delete_orphans) s1
        | inl cleaned ↦ elim (Option-cases deletion.0.1) [
          | inr (e, broken) ↦ rw (cleaned, delete_orphans) (rw broken s2)
          | inl deleted ↦
              rw (cleaned, delete_orphans)
                (rw deleted (
                  delete_orphans-IsSafe crs
                    (update_status_node_healthy (get_node_name_from_cr cr) us) deletion.1 s2))
        ]
      ]

  -- If every call so far was allowed, so is every call of deleteOrphanedRemediationCRs: a CR is deleted
  -- only if the API server has just returned it, owned by us and not yet being deleted.
  pub delete_orphaned-IsSafe :
      (templates : List ObjectReference) (nodes : List Node) (us : List UnhealthyNode) (h : History)
      → IsSafe m h
      → IsSafe m (delete_orphaned_remediation_crs m templates nodes us h).1
  unfolding delete_orphaned_remediation_crs
  delete_orphaned-IsSafe templates nodes us h s =
      let listing = list_remediation_crs m templates (is_orphaned m nodes) h in
      let s1 = list-IsSafe m templates (is_orphaned m nodes) h s in
      elim (Answer-cases listing.0) [
        | inl (e, broken) ↦ rw (broken, delete_orphaned_remediation_crs) s1
        | inr (crs, listed) ↦
            rw (listed, delete_orphaned_remediation_crs) (delete_orphans-IsSafe crs us listing.1 s1)
      ]

healthy-other :
    (n k : String) (us : List UnhealthyNode)
    → n == k ≡ false
    → any (is_named k) (update_status_node_healthy n us) ≡ any (is_named k) us
unfolding update_status_node_healthy
healthy-other n k [] h = refl
healthy-other n k (u ∷ us) h =
    ground (arith, eq_iff u.name n, eq_iff u.name k, eq_iff n k, healthy-other n k us)

-- CRs of other nodes only.
abbrev AreOfOthers : String → List Unstructured → Type 0
AreOfOthers k crs = All (λ cr. get_node_name_from_cr cr == k ≡ false) crs

filter-All :
    (p : Unstructured → Bool) (k : String) (crs : List Unstructured)
    → ((cr : Unstructured) → p cr ≡ true → get_node_name_from_cr cr == k ≡ false)
    → AreOfOthers k (filter p crs)
filter-All p k [] f = tt
filter-All p k (cr ∷ crs) f = elim (Bool-cases (p cr)) [
  | inl yes_it_is ↦ rw yes_it_is (f cr yes_it_is, filter-All p k crs f)
  | inr not_it ↦ rw not_it (filter-All p k crs f)
]

filtered-All :
    (m : Manager) (p : Unstructured → Bool) (k : String) (a : Answer (List Unstructured))
    (crs : List Unstructured)
    → ((cr : Unstructured) → p cr ≡ true → get_node_name_from_cr cr == k ≡ false)
    → filtered m p a ≡ ok crs
    → AreOfOthers k crs
filtered-All m p k (failed e) crs f h = cc
filtered-All m p k (ok all_crs) crs f h = rw (same h) at (filter-All p k all_crs f)
  where
    same : filtered m p (ok all_crs) ≡ ok crs → filter p all_crs ≡ crs
    same e = cc

any-present :
    (node : Node) (nodes : List Node) (name : String)
    → In node nodes
    → any (λ (n : Node). n.name == name) nodes ≡ false
    → name == node.name ≡ false
any-present node [] name i h = elim i [ ]
any-present node (n ∷ nodes) name (head e) h =
    ground (arith, ap (λ (x : Node). x.name) e, eq_iff n.name name, eq_iff name node.name)
any-present node (n ∷ nodes) name (tail i) h = any-present node nodes name i (ground arith)

module _ (m : Manager) where
  orphaned-other :
      (node : Node) (nodes : List Node) (cr : Unstructured)
      → In node nodes
      → is_orphaned m nodes cr ≡ true
      → get_node_name_from_cr cr == node.name ≡ false
  unfolding is_orphaned
  orphaned-other node nodes cr i o =
      any-present node nodes (get_node_name_from_cr cr) i (ground arith)

  delete_orphans-keeps :
      (k : String) (crs : List Unstructured) (us : List UnhealthyNode) (h : History)
      → AreOfOthers k crs
      → any (is_named k) (delete_orphans m crs us h).0.1 ≡ any (is_named k) us
  unfolding delete_orphans
  delete_orphans-keeps k [] us h o = refl
  delete_orphans-keeps k (cr ∷ crs) us h o =
      let name = get_node_name_from_cr cr in
      let cleaning = clean_up m name false h in
      let us' = update_status_node_healthy name us in
      let deletion = delete_remediation_cr m cr cleaning.1 in
      let step = healthy-other name k us o.0 in
      elim (Option-cases cleaning.0) [
        | inr (e, broken) ↦ rw (broken, delete_orphans)
        | inl cleaned ↦ elim (Option-cases deletion.0.1) [
          | inr (e, broken) ↦ rw (cleaned, delete_orphans) (rw broken step)
          | inl deleted ↦
              rw (cleaned, delete_orphans)
                (rw deleted (delete_orphans-keeps k crs us' deletion.1 o.1 ∙ step))
        ]
      ]

  -- deleteOrphanedRemediationCRs keeps the entries of the status for all nodes that still exist.
  pub delete_orphaned_keeps_present :
      (templates : List ObjectReference) (nodes : List Node) (us : List UnhealthyNode) (h : History)
      (node : Node)
      → In node nodes
      → any (is_named node.name) (delete_orphaned_remediation_crs m templates nodes us h).0.1
        ≡ any (is_named node.name) us
  unfolding delete_orphaned_remediation_crs list_remediation_crs
  delete_orphaned_keeps_present templates nodes us h node i =
      let listing = list_remediation_crs m templates (is_orphaned m nodes) h in
      elim (Answer-cases listing.0) [
        | inl (e, broken) ↦ rw (broken, delete_orphaned_remediation_crs)
        | inr (crs, listed) ↦
            rw (listed, delete_orphaned_remediation_crs)
              (delete_orphans-keeps node.name crs us listing.1 (
                filtered-All m (is_orphaned m nodes) node.name (list_all m templates [] h).0 crs
                  (λ cr o. orphaned-other node nodes cr i o) listed))
      ]
