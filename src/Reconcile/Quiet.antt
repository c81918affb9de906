-- ===== src/Reconcile/Quiet.antt =====
-- The steps of Reconcile that neither create nor delete a CR: whatever is true of a history and stays
-- true after calls that do neither is true after these steps.
use node_healthcheck_operato.Prelude.{
  ℤ, String, Bool, true, false, Option, List, [], ◌∷◌, ◌++◌, ◌≡◌, refl, arith, Option-cases, inl,
  inr, ◌⊎◌,
}
use node_healthcheck_operato.Api.{
  GroupVersionKind, ObjectReference, LabelSelector, Node, NodeHealthCheck,
}
use node_healthcheck_operato.Threshold.{MinHealthy, MinHealthyError, err}
use node_healthcheck_operato.Threshold
use node_healthcheck_operato.Remediation.{Unstructured}
use node_healthcheck_operato.Requeue.{update_requeue_after}
use node_healthcheck_operato.Cluster.{
  Error, Answer, ok, failed, Call, create_cr, delete_cr, update_cr, get_nhc, list_nodes, list_crs,
  list_cluster_versions, watch, patch_status, get_template, History, Environment, Answer-cases,
}
use node_healthcheck_operato.Manager.{
  Manager, list_all, list_remediation_crs, of_template, generate_remediation_cr_base,
}
use node_healthcheck_operato.Templates.{
  Validity, valid, invalid, unknown, validate_templates, validity, with_namespace,
  get_template_with_fallback_namespace,
}
use node_healthcheck_operato.Upgrade.{check, is_cluster_upgrading}
use node_healthcheck_operato.Watches.{add_watch, add_watches, add_watches_nhc}
use node_healthcheck_operato.Reconcile.Alert.{alert_old_remediation_cr, alert_all, flagged}
use node_healthcheck_operato.Reconcile.Report.{poll, poll_round, after_patch, send_status, stamped}
use node_healthcheck_operato.Reconcile.Outcome.{get_nodes}

abbrev pub is_harmless : Call → Bool
is_harmless (create_cr cr) = false
is_harmless (delete_cr cr) = false
is_harmless _ = true

-- Calls that neither create nor delete a CR keep `P`.
abbrev pub IsKept : (History → Type 0) → Type 0
IsKept P = (c : Call) (h : History) → is_harmless c ≡ true → P h → P (c ∷ h)

pub Validity-cases :
    (v : Validity)
    → (v ≡ valid)
      ⊎ (((reason : String) × (e : Option Error) × (v ≡ invalid reason e))
          ⊎ ((e : Error) × (v ≡ unknown e)))
Validity-cases valid = inl refl
Validity-cases (invalid reason e) = inr (inl (reason, e, refl))
Validity-cases (unknown e) = inr (inr (e, refl))

pub MinHealthy-cases :
    (a : MinHealthy) → ((e : MinHealthyError) × (a ≡ err e)) ⊎ ((m : ℤ) × (a ≡ Threshold.ok m))
MinHealthy-cases (err e) = inl (e, refl)
MinHealthy-cases (Threshold.ok m) = inr (m, refl)

module _ (P : History → Type 0) (keep : IsKept P) where
  watch-kept :
      (env : Environment) (gvk : GroupVersionKind) (watches : List String) (h : History)
      → P h
      → P (add_watch env gvk watches h).1
  unfolding add_watch
  watch-kept env gvk watches h p = ground (arith, keep (watch gvk) h refl p)

  pub watches-kept :
      (env : Environment) (refs : List ObjectReference) (watches : List String) (h : History)
      → P h
      → P (add_watches env refs watches h).1
  unfolding add_watches
  watches-kept env [] watches h p = p
  watches-kept env (ref ∷ refs) watches h p =
      let first = add_watch env ref.gvk watches h in
      let second = add_watch env (generate_remediation_cr_base ref.gvk) first.0.1 first.1 in
      let p1 = watch-kept env ref.gvk watches h p in
      let p2 = watch-kept env (generate_remediation_cr_base ref.gvk) first.0.1 first.1 p1 in
      elim (Option-cases first.0.0) [
        | inr (e, broken) ↦ rw (broken, add_watches) p1
        | inl added ↦ elim (Option-cases second.0.0) [
          | inr (e, broken) ↦ rw (added, add_watches) (rw broken p2)
          | inl added_too ↦
              rw (added, add_watches) (rw added_too (watches-kept env refs second.0.1 second.1 p2))
        ]
      ]

  pub add_watches_nhc-kept :
      (env : Environment) (nhc : NodeHealthCheck) (watches : List String) (h : History)
      → P h
      → P (add_watches_nhc env nhc watches h).1
  unfolding add_watches_nhc
  add_watches_nhc-kept env nhc watches h p = watches-kept env _ watches h p

  pub template-kept :
      (env : Environment) (ref : ObjectReference) (namespace : String) (h : History)
      → P h
      → P (get_template_with_fallback_namespace env ref namespace h).1
  unfolding get_template_with_fallback_namespace
  template-kept env ref namespace h p =
      elim (Answer-cases (with_namespace ref namespace (env.is_object_namespaced ref))) [
        | inl (e, broken) ↦ rw (broken, get_template_with_fallback_namespace) p
        | inr (ref', found) ↦
            rw (found, get_template_with_fallback_namespace) (keep (get_template ref') h refl p)
      ]

  pub validate_templates-kept :
      (env : Environment) (refs : List ObjectReference) (h : History)
      → P h
      → P (validate_templates env refs h).1
  unfolding validate_templates
  validate_templates-kept env [] h p = p
  validate_templates-kept env (ref ∷ refs) h p =
      let got = get_template_with_fallback_namespace env ref "" h in
      let p' = template-kept env ref "" h p in
      elim (Validity-cases (validity got.0)) [
        | inl good ↦ rw (good, validate_templates) (validate_templates-kept env refs got.1 p')
        | inr (inl (reason, e, bad)) ↦ rw (bad, validate_templates) p'
        | inr (inr (e, broken)) ↦ rw (broken, validate_templates) p'
      ]

  pub get_nodes-kept :
      (env : Environment) (selector : LabelSelector) (h : History)
      → P h
      → P (get_nodes env selector h).1
  unfolding get_nodes
  get_nodes-kept env selector h p = ground (arith, keep (list_nodes selector) h refl p)

  pub upgrade-kept :
      (env : Environment) (b : Bool) (nodes : List Node) (h : History)
      → P h
      → P (is_cluster_upgrading env b nodes h).1
  unfolding is_cluster_upgrading check
  upgrade-kept env b nodes h p = ground (arith, keep list_cluster_versions h refl p)

  alert-kept :
      (env : Environment) (now : ℤ) (cr : Unstructured) (h : History)
      → P h
      → P (alert_old_remediation_cr env now cr h).1
  unfolding alert_old_remediation_cr
  alert-kept env now cr h p = ground (arith, keep (update_cr (flagged cr)) h refl p)

  pub alert_all-kept :
      (env : Environment) (now : ℤ) (crs : List Unstructured) (requeue : ℤ) (h : History)
      → P h
      → P (alert_all env now crs requeue h).1
  unfolding alert_all
  alert_all-kept env now [] requeue h p = p
  alert_all-kept env now (cr ∷ crs) requeue h p =
      let step = alert_old_remediation_cr env now cr h in
      alert_all-kept env now crs (update_requeue_after requeue step.0.1) step.1
        (alert-kept env now cr h p)

  list_all-kept :
      (m : Manager) (templates : List ObjectReference) (crs : List Unstructured) (h : History)
      → P h
      → P (list_all m templates crs h).1
  unfolding list_all
  list_all-kept m [] crs h p = p
  list_all-kept m (template ∷ templates) crs h p =
      let gvk = generate_remediation_cr_base template.gvk in
      let p' = keep (list_crs gvk) h refl p in
      elim (Answer-cases (of_template m template (m.environment.on_list_crs h gvk))) [
        | inl (e, broken) ↦ rw (broken, list_all) p'
        | inr (items, listed) ↦
            rw (listed, list_all) (list_all-kept m templates (crs ++ items) (list_crs gvk ∷ h) p')
      ]

  pub list-kept :
      (m : Manager) (templates : List ObjectReference) (q : Unstructured → Bool) (h : History)
      → P h
      → P (list_remediation_crs m templates q h).1
  unfolding list_remediation_crs
  list-kept m templates q h p = list_all-kept m templates [] h p

  poll-kept :
      (patched : NodeHealthCheck) (answers : List (Answer NodeHealthCheck)) (h : History)
      → P h
      → P (poll patched answers h).1
  unfolding poll
  poll-kept patched [] h p = p
  poll-kept patched (a ∷ answers) h p =
      let p' = keep (get_nhc patched.name) h refl p in
      elim (Answer-cases (poll_round patched a)) [
        | inl (e, broken) ↦ rw (broken, poll) p'
        | inr (true, done) ↦ rw (done, poll) p'
        | inr (false, again) ↦
            rw (again, poll) (poll-kept patched answers (get_nhc patched.name ∷ h) p')
      ]

  after_patch-kept :
      (env : Environment) (a : Answer NodeHealthCheck) (h : History)
      → P h
      → P (after_patch env a h).1
  unfolding after_patch
  after_patch-kept env (failed e) h p = p
  after_patch-kept env (ok patched) h p = poll-kept patched (env.on_poll h patched.name) h p

  pub send_status-kept :
      (env : Environment) (now : ℤ) (nhc orig : NodeHealthCheck) (h : History)
      → P h
      → P (send_status env now nhc orig h).1
  unfolding send_status
  send_status-kept env now nhc orig h p = elim (Answer-cases (env.merge_is_empty nhc orig)) [
    | inl (e, broken) ↦ rw (broken, send_status) p
    | inr (true, same) ↦ rw (same, send_status) p
    | inr (false, changed) ↦
        rw (changed, send_status)
          (after_patch-kept env _ _ (keep (patch_status (stamped env now nhc)) h refl p))
  ]
