-- ===== src/Reconcile/AlertLoop.antt =====
-- When Reconcile looks again at the CRs of a node.
use node_healthcheck_operato.Prelude.{ℤ, pos, ◌+ℤ◌, ◌<ℤ◌, Option, some, none}
use node_healthcheck_operato.Remediation.{Unstructured}
use node_healthcheck_operato.Cluster.{Environment}
use node_healthcheck_operato.Reconcile.Alert.{remediation_cr_alert_timeout}

module _ (env : Environment) (now : ℤ) where
  -- No wish, or a positive one.
  abbrev IsWish : Option ℤ → Type 0
  IsWish none = Unit
  IsWish (some w) = pos 0 <ℤ w

  abbrev limit : Unstructured → ℤ
  limit cr = cr.creation_timestamp +ℤ remediation_cr_alert_timeout
