-- ===== src/Orphans.antt =====
-- CRs of nodes that are gone, deleteOrphanedRemediationCRs of
-- internal/controller/nodehealthcheck_controller.go. It returns an error, the unhealthy nodes of the
-- status, and the history with its calls.
pub mod Safety
use node_healthcheck_operato.Prelude.{
  String, Bool, true, false, ◌&&◌, not, Option, none, some, List, [], ◌∷◌, any, is_some, ◌==◌,
  if◌then◌else◌,
}
use node_healthcheck_operato.Api.{ObjectReference, Node, UnhealthyNode}
use node_healthcheck_operato.Remediation.{
  Unstructured, get_condition, get_node_name_from_cr, remediation_succeeded,
}
use node_healthcheck_operato.Status.{update_status_node_healthy}
use node_healthcheck_operato.Cluster.{Error, Answer, ok, failed, History}
use node_healthcheck_operato.Manager.{
  Manager, is_owner, list_remediation_crs, delete_remediation_cr,
}
use node_healthcheck_operato.Manager.Healthy.{clean_up}

abbrev pub permanent_node_deletion_expected : Unstructured → Bool
permanent_node_deletion_expected cr = elim (get_condition cr "PermanentNodeDeletionExpected") [
  | none ↦ false
  | some status ↦ status == "True"
]

-- The filter of ListRemediationCRs: ours, not being deleted, done if the deletion of the node is
-- expected, and without a node.
unfoldable pub is_orphaned : Manager → List Node → Unstructured → Bool
is_orphaned m nodes cr =
    if is_some cr.deletion_timestamp
    then false
    else if not (is_owner cr m.owner)
    then false
    else if permanent_node_deletion_expected cr && not (remediation_succeeded cr)
    then false
    else not (any (λ (node : Node). node.name == get_node_name_from_cr cr) nodes)

module _ (m : Manager) where
  -- The loop over the orphaned CRs: the lease is released before the CR is deleted.
  unfoldable pub delete_orphans :
      List Unstructured
      → List UnhealthyNode
      → History
      → (Option Error × List UnhealthyNode) × History
  delete_orphans [] us h = ((none, us), h)
  delete_orphans (cr ∷ crs) us h =
      let node_name = get_node_name_from_cr cr in
      let (cleaned, h1) = clean_up m node_name false h in
      elim cleaned [
        | some e ↦ ((some e, us), h1)
        | none ↦
            let us' = update_status_node_healthy node_name us in
            let ((deleted, error), h2) = delete_remediation_cr m cr h1 in
            elim error [ some e ↦ ((some e, us'), h2) | none ↦ delete_orphans crs us' h2 ]
      ]

  -- deleteOrphanedRemediationCRs.
  unfoldable pub delete_orphaned_remediation_crs :
      List ObjectReference
      → List Node
      → List UnhealthyNode
      → History
      → (Option Error × List UnhealthyNode) × History
  unfolding is_orphaned delete_orphans
  delete_orphaned_remediation_crs templates nodes us h =
      let (listed, h') = list_remediation_crs m templates (is_orphaned m nodes) h in
      elim listed [ failed e ↦ ((some e, us), h') | ok crs ↦ delete_orphans crs us h' ]
