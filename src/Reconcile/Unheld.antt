-- ===== src/Reconcile/Unheld.antt =====
-- Remediation is not skipped: the threshold is met and no storm is active.
use mathlib.Core.Path.{subst}
use node_healthcheck_operato.Prelude.{
  ℕ, ℤ, pos, String, Bool, true, false, ◌&&◌, some, List, [], ◌∷◌, ◌≡◌, ◌⊎◌, refl, sym, ap, ◌∙◌,
  arith, Bool-cases, Option-cases, inl, inr, is_some, if◌then◌else◌, ◌≤ℤ◌,
}
use node_healthcheck_operato.Api.{
  Condition, Node, NodeHealthCheck, NodeHealthCheckSpec, condition_type_disabled,
  condition_type_storm_active,
}
use node_healthcheck_operato.Conditions.{is_condition_true}
use node_healthcheck_operato.Requeue.{update_requeue_after}
use node_healthcheck_operato.Threshold.{get_min_healthy, is_below}
use node_healthcheck_operato.Threshold
use node_healthcheck_operato.Storm.Evaluate.{evaluate_storm_recovery}
use node_healthcheck_operato.Cluster.{History}
use node_healthcheck_operato.Remediate.Safety.{creations}
use node_healthcheck_operato.Remediate.Setup.{Reconciler}
use node_healthcheck_operato.Reconcile.Operator.{Operator, reconciler_for}
use node_healthcheck_operato.Reconcile.Quiet.{MinHealthy-cases}
use node_healthcheck_operato.Reconcile.Unhealthy.{remediate_nodes}
use node_healthcheck_operato.Reconcile.HeldBack.{
  Facts, facts, skipped-history, remediate_nodes-facts, storm-disabled, storm-counts, storm-calm,
}
use node_healthcheck_operato.Reconcile.Run.{reconcile_unhealthy, reconcile_threshold}
use node_healthcheck_operato.Reconcile.Outcome.{with_counts}

-- No CR has been created since a history.
abbrev pub NothingNew : History → History → Type 0
NothingNew h h' = creations h' ≡ creations h

-- There are enough healthy nodes, by the counts of the status.
pub record IsEnough (o : Operator) (spec : NodeHealthCheckSpec) (f : Facts) : Type 0 where
  pub observed : ℕ
  pub healthy : ℕ
  pub min_healthy : ℤ
  pub observes : f.1.0 ≡ some observed
  pub counts : f.1.1 ≡ some healthy
  pub known : get_min_healthy o.intstr spec (pos observed) ≡ Threshold.ok min_healthy
  pub enough : min_healthy ≤ℤ pos healthy

-- No storm is active, if there is a cooldown.
abbrev pub IsCalm : Operator → NodeHealthCheckSpec → Facts → Type 0
IsCalm o spec f =
    (is_some spec.storm_cooldown_duration
      && is_condition_true o.meta f.0 condition_type_storm_active)
    ≡ false

pub record Unheld (o : Operator) (spec : NodeHealthCheckSpec) (cs : List Condition) (f : Facts)
    : Type 0 where
  pub is_calm : IsCalm o spec f
  pub same_disabled :
      o.meta.find_status_condition f.0 condition_type_disabled
      ≡ o.meta.find_status_condition cs condition_type_disabled
  pub is_enough : IsEnough o spec f

module _ (o : Operator) (now : ℤ) where
  pub unhealthy-parts :
      (matching : List Node) (below : Bool) (requeue : ℤ) (nhc : NodeHealthCheck)
      (watches : List String) (h : History)
      → let storm = evaluate_storm_recovery o.meta now nhc below in
        let run = reconcile_unhealthy o now matching below requeue nhc watches h in
        let done =
          remediate_nodes
            (reconciler_for o nhc)
            now
            (if below then true else storm.0.0)
            matching
            (update_requeue_after requeue storm.0.1)
            storm.1
            h in
        (run.1 ≡ done.1) × (run.0.nhc ≡ done.0.nhc)
  unfolding reconcile_unhealthy
  unhealthy-parts matching below requeue nhc watches h =
      let storm = evaluate_storm_recovery o.meta now nhc below in
      let done =
        remediate_nodes (reconciler_for o nhc) now (if below then true else storm.0.0) matching
          (update_requeue_after requeue storm.0.1) storm.1 h in
      elim (Option-cases done.0.error) [
        | inl fine ↦ (rw (fine, reconcile_unhealthy), rw (fine, reconcile_unhealthy))
        | inr (e, broken) ↦ (rw (broken, reconcile_unhealthy), rw (broken, reconcile_unhealthy))
      ]

  is_skipped :
      (r : Reconciler) (matching : List Node) (requeue : ℤ) (nhc : NodeHealthCheck) (h : History)
      (skip : Bool)
      → skip ≡ true
      → (remediate_nodes r now skip matching requeue nhc h).1 ≡ h
  is_skipped r matching requeue nhc h true e = skipped-history r now matching requeue nhc h
  is_skipped r matching requeue nhc h false e = cc

  unheld :
      (observed healthy : ℕ) (min : ℤ) (nhc : NodeHealthCheck) (below : Bool)
      → get_min_healthy o.intstr nhc.spec (pos observed) ≡ Threshold.ok min
      → is_below (pos healthy) min ≡ false
      → (evaluate_storm_recovery o.meta now (with_counts observed healthy nhc) below).0.0 ≡ false
      → Unheld o nhc.spec nhc.status.conditions (
          facts
            (evaluate_storm_recovery o.meta now (with_counts observed healthy nhc) below).1.status)
  unheld observed healthy min nhc below known fine quiet =
      let nhc' = with_counts observed healthy nhc in
      let kept = storm-counts o.meta now nhc' below in
      record {
        is_calm = storm-calm o.meta now nhc' below quiet;
        same_disabled = storm-disabled o.meta now nhc' below;
        is_enough = record {
          observed = observed;
          healthy = healthy;
          min_healthy = min;
          observes = kept.0;
          counts = kept.1;
          known = known;
          enough = ground arith;
        };
      }

  -- Either nothing is created, or nothing skips the nodes.
  unhealthy-creates :
      (matching : List Node) (below : Bool) (requeue : ℤ) (nhc : NodeHealthCheck)
      (watches : List String) (h : History)
      → let run = reconcile_unhealthy o now matching below requeue nhc watches h in
        let storm = evaluate_storm_recovery o.meta now nhc below in
        NothingNew h run.1
        ⊎ ((below ≡ false) × (storm.0.0 ≡ false) × (facts run.0.nhc.status ≡ facts storm.1.status))
  unhealthy-creates matching below requeue nhc watches h =
      let storm = evaluate_storm_recovery o.meta now nhc below in
      let r = reconciler_for o nhc in
      let wish = update_requeue_after requeue storm.0.1 in
      let skip = if below then true else storm.0.0 in
      let parts = unhealthy-parts matching below requeue nhc watches h in
      let nothing =
        λ (e : skip ≡ true). ap creations (parts.0 ∙ is_skipped r matching wish storm.1 h skip e) in
      elim (Bool-cases below) [
        | inl low ↦ inl (nothing (ap (λ b. if b then true else storm.0.0) low))
        | inr fine ↦ elim (Bool-cases storm.0.0) [
          | inl active ↦ inl (nothing (ap (λ b. if b then true else storm.0.0) fine ∙ active))
          | inr quiet ↦ inr (
            fine,
            quiet,
            ap (λ (n : NodeHealthCheck). facts n.status) parts.1
                ∙ remediate_nodes-facts r now skip matching wish storm.1 h,
          )
        ]
      ]

  pub threshold-creates :
      (observed healthy : ℕ) (matching : List Node) (requeue : ℤ) (nhc : NodeHealthCheck)
      (watches : List String) (h : History)
      → let run = reconcile_threshold o now observed healthy matching requeue nhc watches h in
        NothingNew h run.1 ⊎ Unheld o nhc.spec nhc.status.conditions (facts run.0.nhc.status)
  unfolding reconcile_threshold
  threshold-creates observed healthy [] requeue nhc watches h = inl refl
  threshold-creates observed healthy (node ∷ nodes) requeue nhc watches h =
      elim (MinHealthy-cases (get_min_healthy o.intstr nhc.spec (pos observed))) [
        | inl (e, broken) ↦ rw (broken, reconcile_threshold) (inl refl)
        | inr (min, known) ↦
            rw (known, reconcile_threshold)
              (let nhc' = with_counts observed healthy nhc in
                let below = is_below (pos healthy) min in
                let storm = evaluate_storm_recovery o.meta now nhc' below in
                elim (unhealthy-creates (node ∷ nodes) below requeue nhc' watches h) [
                  | inl nothing ↦ inl nothing
                  | inr (fine, quiet, same) ↦ inr (
                      subst (Unheld o nhc.spec nhc.status.conditions) (sym same)
                        (unheld observed healthy min nhc below known fine quiet))
                ])
      ]
