-- ===== src/Reconcile/Healthy.antt =====
-- The loop of Reconcile over the nodes that match no unhealthy condition,
-- internal/controller/nodehealthcheck_controller.go.
use node_healthcheck_operato.Prelude.{
  ℕ, ◌+◌, ℤ, pos, ◌+ℤ◌, ◌-ℤ◌, ltb_ℤ, second, Bool, true, false, Option, none, some, List, [], ◌∷◌,
  is_empty, if◌then◌else◌,
}
use node_healthcheck_operato.Api.{ObjectReference, Node, UnhealthyNode}
use node_healthcheck_operato.Remediation.{Unstructured}
use node_healthcheck_operato.Requeue.{update_requeue_after}
use node_healthcheck_operato.Status.{
  update_status_node_healthy, update_status_node_conditions_healthy,
}
use node_healthcheck_operato.Cluster.{Error, History}
use node_healthcheck_operato.Manager.{Manager}
use node_healthcheck_operato.Manager.Healthy.{Rfc3339, Handled, handle_healthy_node}

-- logWhenCRPendingDeletionDuration.
abbrev pub log_when_cr_pending_deletion_duration : ℤ
log_when_cr_pending_deletion_duration = pos 10000000000

-- `cr.GetDeletionTimestamp() == nil || cr.GetDeletionTimestamp().After(logThreshold)`.
abbrev pub is_recent : ℤ → Option ℤ → Bool
is_recent log_threshold none = true
is_recent log_threshold (some deleted) = ltb_ℤ log_threshold deleted

abbrev pub log_in : ℤ → Option ℤ → ℤ
log_in log_threshold none = log_when_cr_pending_deletion_duration +ℤ second
log_in log_threshold (some deleted) = deleted -ℤ log_threshold +ℤ second

-- The loop over the CRs: `doLog` and the requeue time so far.
unfoldable pub pending_crs : ℤ → List Unstructured → Bool → ℤ → Bool × ℤ
pending_crs log_threshold [] do_log requeue = (do_log, requeue)
pending_crs log_threshold (cr ∷ crs) do_log requeue =
    let recent = is_recent log_threshold cr.deletion_timestamp in
    pending_crs log_threshold crs (if recent then false else do_log) (
      update_requeue_after requeue
        (if recent then some (log_in log_threshold cr.deletion_timestamp) else none))

-- What is done about CRs that are still there, given the time that the status keeps: whether it is
-- logged that their deletion is pending, and the requeue time.
unfoldable pub pending_deletion : Option ℤ → List Unstructured → ℤ → Bool × ℤ
unfolding pending_crs
pending_deletion none crs requeue = (false, requeue)
pending_deletion (some healthy_since) crs requeue =
    pending_crs (healthy_since -ℤ log_when_cr_pending_deletion_duration) crs true requeue

-- What the loop returns.
pub record HealthyNodes : Type 0 where
  pub error : Option Error
  pub requeue_after : ℤ
  pub unhealthy_nodes : List UnhealthyNode
  pub healthy_count : ℕ

module _ (m : Manager) (clock : Rfc3339) (now : ℤ) (templates : List ObjectReference) where
  -- A node whose CRs have been handled without an error: only one without CRs counts as healthy.
  unfoldable pub count_node : Node → ℤ → ℕ → Handled → HealthyNodes
  unfolding pending_deletion
  count_node node requeue count handled =
      let requeue' = update_requeue_after requeue handled.requeue in
      if is_empty handled.crs
      then record {
        error = none;
        requeue_after = requeue';
        unhealthy_nodes = update_status_node_healthy node.name handled.unhealthy_nodes;
        healthy_count = count + 1;
      }
      else let (healthy_since, us) =
          update_status_node_conditions_healthy node.name now handled.unhealthy_nodes in
        record {
          error = none;
          requeue_after = (pending_deletion healthy_since handled.crs requeue').1;
          unhealthy_nodes = us;
          healthy_count = count;
        }

  unfoldable pub handle_healthy_nodes :
      List Node → ℤ → List UnhealthyNode → ℕ → History → HealthyNodes × History
  unfolding count_node
  handle_healthy_nodes [] requeue us count h = (
    record { error = none; requeue_after = requeue; unhealthy_nodes = us; healthy_count = count },
    h,
  )
  handle_healthy_nodes (node ∷ nodes) requeue us count h =
      let (handled, h') = handle_healthy_node m clock now templates us node.name node.name h in
      elim handled.error [
        | some e ↦ (
          record {
            error = some e;
            requeue_after = requeue;
            unhealthy_nodes = handled.unhealthy_nodes;
            healthy_count = count;
          },
          h',
        )
        | none ↦
            let next = count_node node requeue count handled in
            handle_healthy_nodes nodes next.requeue_after next.unhealthy_nodes next.healthy_count h'
      ]
