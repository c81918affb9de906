-- ===== src/Requeue.antt =====
-- How the wishes for a later reconcile are merged: MinRequeueDuration of
-- internal/controller/utils/utils.go and updateRequeueAfter of
-- internal/controller/nodehealthcheck_controller.go.
use node_healthcheck_operato.Prelude.{ℤ, pos, ltb_ℤ, eqb_ℤ, ◌||◌, Option, none, some, if◌then◌else◌}

-- MinRequeueDuration.
unfoldable pub min_requeue_duration : Option ℤ → Option ℤ → Option ℤ
min_requeue_duration old none = old
min_requeue_duration none (some new) = if eqb_ℤ new (pos 0) then none else some new
min_requeue_duration (some old) (some new) =
    if eqb_ℤ new (pos 0)
    then some old
    else if eqb_ℤ old (pos 0) || ltb_ℤ new old
    then some new
    else some old

-- updateRequeueAfter, on `result.RequeueAfter`, where 0 asks for no requeue.
unfoldable pub update_requeue_after : ℤ → Option ℤ → ℤ
update_requeue_after current none = current
update_requeue_after current (some new) =
    if eqb_ℤ current (pos 0) || ltb_ℤ new current then new else current
