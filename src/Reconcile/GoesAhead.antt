-- ===== src/Reconcile/GoesAhead.antt =====
-- A Reconcile that creates a CR has been let through by all checks.
use mathlib.Core.Path.{subst}
use node_healthcheck_operato.Prelude.{
  ℕ, ℤ, pos, String, true, false, Option, some, none, List, ◌++◌, ◌≡◌, ◌≢◌, ◌⊎◌, refl, sym, ap, ◌∙◌,
  arith, Bool-cases, Option-cases, inl, inr, is_empty, length, eq_iff,
}
use node_healthcheck_operato.Api.{
  Condition, Node, NodeHealthCheck, NodeHealthCheckSpec, condition_type_disabled,
}
use node_healthcheck_operato.Conditions.{has_status, is_condition_true}
use node_healthcheck_operato.Requeue.{update_requeue_after}
use node_healthcheck_operato.Remediation.{get_all_remediation_templates}
use node_healthcheck_operato.Health.{NodeClasses, check_node_conditions}
use node_healthcheck_operato.Status.{set_unhealthy_nodes}
use node_healthcheck_operato.Cluster.{History, Answer-cases}
use node_healthcheck_operato.Orphans.{delete_orphaned_remediation_crs}
use node_healthcheck_operato.Templates.{validate_templates}
use node_healthcheck_operato.Remediate.Safety.{creations}
use node_healthcheck_operato.Upgrade.{is_cluster_upgrading}
use node_healthcheck_operato.Watches.{add_watches_nhc}
use node_healthcheck_operato.Reconcile.Operator.{
  Operator, need_disable_nhc, need_ignore_node, manager_for, lease_holder_ident,
}
use node_healthcheck_operato.Reconcile.Quiet.{
  get_nodes-kept, upgrade-kept, add_watches_nhc-kept, validate_templates-kept, send_status-kept,
  Validity-cases,
}
use node_healthcheck_operato.Reconcile.Deleting.{
  IsKeptByOthers, harmless-kept, healthy_nodes-kept, delete_orphaned-kept,
}
use node_healthcheck_operato.Reconcile.Healthy.{handle_healthy_nodes}
use node_healthcheck_operato.Reconcile.Report.{with_phase}
use node_healthcheck_operato.Reconcile.Unheld.{
  NothingNew, IsEnough, IsCalm, Unheld, threshold-creates,
}
use node_healthcheck_operato.Reconcile.HeldBack.{Facts, facts}
use node_healthcheck_operato.Reconcile.Run.{
  enable, reconcile_nodes, reconcile_selected, reconcile_enabled, reconcile_checked, finish,
  reconcile_nhc,
}
use node_healthcheck_operato.Reconcile.Outcome.{reset, get_nodes, enabling}

keeps-NothingNew : (h : History) → IsKeptByOthers (NothingNew h)
keeps-NothingNew h c h' e p = rw e p

false_not_true : (c : Option Condition) → has_status "False" c ≡ true → has_status "True" c ≡ false
false_not_true none h = cc
false_not_true (some c) h =
    ground (arith, eq_iff c.status "False", eq_iff c.status "True", eq_iff "False" "True")

-- What the status and the spec say after a Reconcile that has created a CR.
pub record GoesAhead (o : Operator) (spec : NodeHealthCheckSpec) (f : Facts) : Type 0 where
  pub is_enabled : is_condition_true o.meta f.0 condition_type_disabled ≡ false
  pub is_unpaused : is_empty spec.pause_requests ≡ true
  pub is_calm : IsCalm o spec f
  pub is_enough : IsEnough o spec f

module _ (o : Operator) (now : ℤ) where
  nodes-creates :
      (observed : ℕ) (classes : NodeClasses) (requeue : ℤ) (nhc : NodeHealthCheck)
      (watches : List String) (h0 h : History)
      → NothingNew h0 h
      → let run = reconcile_nodes o now observed classes requeue nhc watches h in
        NothingNew h0 run.1 ⊎ Unheld o nhc.spec nhc.status.conditions (facts run.0.nhc.status)
  unfolding reconcile_nodes
  nodes-creates observed classes requeue nhc watches h0 h n =
      let m = manager_for o nhc in
      let us = nhc.status.unhealthy_nodes in
      let templates = get_all_remediation_templates nhc in
      let nodes = classes.not_matching ++ (classes.soon_matching ++ classes.matching) in
      let orphans = delete_orphaned_remediation_crs m templates nodes us h in
      let n1 =
        delete_orphaned-kept (NothingNew h0) (keeps-NothingNew h0) m templates nodes us h n in
      let healthy =
        handle_healthy_nodes m o.clock now templates classes.not_matching requeue orphans.0.1 0
          orphans.1 in
      let n2 =
        healthy_nodes-kept (NothingNew h0) (keeps-NothingNew h0) m o.clock now templates
          classes.not_matching requeue orphans.0.1 0 orphans.1 n1 in
      elim (Option-cases orphans.0.0) [
        | inr (e, broken) ↦ rw (broken, reconcile_nodes) (inl n1)
        | inl fine ↦ elim (Option-cases healthy.0.error) [
          | inr (e, broken) ↦ rw (fine, reconcile_nodes) (rw broken (inl n2))
          | inl fine_too ↦
              rw (fine, reconcile_nodes)
                (rw fine_too (
                  let nhc' = set_unhealthy_nodes healthy.0.unhealthy_nodes nhc in
                  elim (threshold-creates o now observed healthy.0.healthy_count classes.matching
                    healthy.0.requeue_after nhc' watches healthy.1) [
                      | inl nothing ↦ inl (nothing ∙ n2)
                      | inr free ↦ inr free
                    ]))
        ]
      ]

  -- The NodeHealthCheck is not paused either.
  abbrev Free : NodeHealthCheck → Facts → Type 0
  Free nhc f = (is_empty nhc.spec.pause_requests ≡ true) × Unheld o nhc.spec nhc.status.conditions f

  selected-creates :
      (nodes : List Node) (nhc : NodeHealthCheck) (watches : List String) (h0 h : History)
      → NothingNew h0 h
      → let run = reconcile_selected o now nodes nhc watches h in
        NothingNew h0 run.1 ⊎ Free nhc (facts run.0.nhc.status)
  unfolding reconcile_selected
  selected-creates nodes nhc watches h0 h n =
      let classes = check_node_conditions now nhc (need_ignore_node o) nodes in
      let upgrade = is_cluster_upgrading o.environment o.is_on_openshift classes.matching h in
      let keep = harmless-kept (NothingNew h0) (keeps-NothingNew h0) in
      let n1 =
        upgrade-kept (NothingNew h0) keep o.environment o.is_on_openshift classes.matching h n in
      let wish = update_requeue_after (pos 0) classes.requeue_after in
      elim (Bool-cases upgrade.0) [
        | inl yes_it_is ↦ rw (yes_it_is, reconcile_selected) (inl n1)
        | inr not_it ↦ elim (Bool-cases (is_empty nhc.spec.pause_requests)) [
          | inr held ↦ rw (not_it, reconcile_selected) (rw held (inl n1))
          | inl free ↦
              rw (not_it, reconcile_selected)
                (rw free
                  (elim (nodes-creates (length nodes) classes wish nhc watches h0 upgrade.1 n1) [
                    | inl nothing ↦ inl nothing
                    | inr unheld ↦ inr (refl, unheld)
                  ]))
        ]
      ]

  enabled-creates :
      (nhc : NodeHealthCheck) (watches : List String) (h0 h : History)
      → NothingNew h0 h
      → let run = reconcile_enabled o now nhc watches h in
        NothingNew h0 run.1 ⊎ Free nhc (facts run.0.nhc.status)
  unfolding reconcile_enabled
  enabled-creates nhc watches h0 h n =
      let keep = harmless-kept (NothingNew h0) (keeps-NothingNew h0) in
      let watching = add_watches_nhc o.environment nhc watches h in
      let n1 = add_watches_nhc-kept (NothingNew h0) keep o.environment nhc watches h n in
      let selected = get_nodes o.environment nhc.spec.selector watching.1 in
      let n2 = get_nodes-kept (NothingNew h0) keep o.environment nhc.spec.selector watching.1 n1 in
      elim (Option-cases watching.0.0) [
        | inr (e, broken) ↦ rw (broken, reconcile_enabled) (inl n1)
        | inl fine ↦ elim (Answer-cases selected.0) [
          | inl (e, broken) ↦ rw (fine, reconcile_enabled) (rw broken (inl n2))
          | inr (nodes, got) ↦
              rw (fine, reconcile_enabled)
                (rw got (selected-creates nodes nhc watching.0.1 h0 selected.1 n2))
        ]
      ]

  pub spec-enable : (nhc : NodeHealthCheck) → (enable o now nhc).spec ≡ nhc.spec
  spec-enable nhc =
      elim (Bool-cases (
        has_status "False"
          (o.meta.find_status_condition nhc.status.conditions condition_type_disabled))) [
            | inl enabled ↦ rw enabled
            | inr other ↦ rw other
          ]

  enable-enabled :
      (nhc : NodeHealthCheck)
      → is_condition_true o.meta (enable o now nhc).status.conditions condition_type_disabled
        ≡ false
  enable-enabled nhc =
      let c = o.meta.find_status_condition nhc.status.conditions condition_type_disabled in
      elim (Bool-cases (has_status "False" c)) [
        | inl on ↦ rw on (false_not_true c on)
        | inr other ↦
            rw other
              (ap (has_status "True") (o.meta.find-set_self now nhc.status.conditions enabling))
      ]

  goes_ahead :
      (nhc nhc' : NodeHealthCheck) (f : Facts)
      → nhc'.spec ≡ nhc.spec
      → is_condition_true o.meta nhc'.status.conditions condition_type_disabled ≡ false
      → Free nhc' f
      → GoesAhead o nhc.spec f
  goes_ahead nhc nhc' f same on (unpaused, unheld) =
      subst (λ spec. GoesAhead o spec f) same
        (record {
          is_enabled = ap (has_status "True") unheld.same_disabled ∙ on;
          is_unpaused = unpaused;
          is_calm = unheld.is_calm;
          is_enough = unheld.is_enough;
        })

  checked-creates :
      (nhc : NodeHealthCheck) (watches : List String) (h : History)
      → let run = reconcile_checked o now nhc watches h in
        NothingNew h run.1 ⊎ GoesAhead o nhc.spec (facts run.0.nhc.status)
  unfolding reconcile_checked
  checked-creates nhc watches h =
      let keep = harmless-kept (NothingNew h) (keeps-NothingNew h) in
      let refs = get_all_remediation_templates nhc in
      let validation = validate_templates o.environment refs h in
      let n1 = validate_templates-kept (NothingNew h) keep o.environment refs h refl in
      let nhc' = enable o now (reset nhc) in
      elim (Bool-cases (need_disable_nhc o)) [
        | inl conflict ↦ rw (conflict, reconcile_checked) (inl refl)
        | inr no_conflict ↦ elim (Validity-cases validation.0) [
          | inr (inl (reason, e, bad)) ↦ rw (no_conflict, reconcile_checked) (rw bad (inl n1))
          | inr (inr (e, broken)) ↦ rw (no_conflict, reconcile_checked) (rw broken (inl n1))
          | inl good ↦
              rw (no_conflict, reconcile_checked)
                (rw good (elim (enabled-creates nhc' watches h validation.1 n1) [
                  | inl nothing ↦ inl nothing
                  | inr free ↦ inr (
                      goes_ahead nhc nhc' _ (spec-enable (reset nhc)) (enable-enabled (reset nhc))
                        free)
                ]))
        ]
      ]

  with_phase-facts :
      (nhc : NodeHealthCheck) → facts (with_phase o.meta nhc).status ≡ facts nhc.status
  unfolding with_phase
  with_phase-facts nhc = ground arith

  nhc-creates :
      (nhc : NodeHealthCheck) (watches : List String) (h : History)
      → let run = reconcile_nhc o now nhc watches h in
        NothingNew h run.1 ⊎ GoesAhead o nhc.spec (facts run.0.nhc.status)
  unfolding reconcile_nhc finish
  nhc-creates nhc watches h =
      let run = reconcile_checked o now nhc watches h in
      let keep = λ (h' : History). harmless-kept (NothingNew h') (keeps-NothingNew h') in
      let sent = λ (h0 : History) (n : NothingNew h0 run.1).
        send_status-kept (NothingNew h0) (keep h0) o.environment now (with_phase o.meta run.0.nhc)
          nhc run.1 n in
      elim (Option-cases (o.environment.new_lease_manager (lease_holder_ident nhc))) [
        | inr (e, broken) ↦ rw (broken, reconcile_nhc) (inl refl)
        | inl fine ↦
            rw (fine, reconcile_nhc)
              (elim (checked-creates nhc watches h) [
                | inl nothing ↦ inl (sent h nothing)
                | inr free ↦
                    inr (subst (GoesAhead o nhc.spec) (sym (with_phase-facts run.0.nhc)) free)
              ])
      ]

  -- A Reconcile that creates a CR leaves a status in which the NodeHealthCheck is not disabled, no storm
  -- is active if there is a cooldown, and the number of healthy nodes is at least what getMinHealthy
  -- asks for the number of observed nodes; and there are no pause requests.
  pub creation-GoesAhead :
      (nhc : NodeHealthCheck) (watches : List String) (h : History)
      → creations (reconcile_nhc o now nhc watches h).1 ≢ creations h
      → GoesAhead o nhc.spec (facts (reconcile_nhc o now nhc watches h).0.nhc.status)
  creation-GoesAhead nhc watches h created = elim (nhc-creates nhc watches h) [
    | inl nothing ↦ absurd (created nothing)
    | inr free ↦ free
  ]
