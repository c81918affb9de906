-- ===== src/Machines/Panics.antt =====
-- Where a MachineHealthCheck's Reconcile follows the nil pointer of a machine that has no node.
use mathlib.Core.Path.{subst}
use node_healthcheck_operato.Prelude.{
  ℕ, ℤ, pos, String, Bool, true, false, some, List, [], ◌∷◌, filter, In, head, tail, ◌≡◌, refl, ap,
  Bool-cases, Option-cases, inl, inr, eqb_ℤ, is_empty, is_some, if◌then◌else◌, ◌+◌,
}
use node_healthcheck_operato.MachineApi.{MachineHealthCheck}
use node_healthcheck_operato.Cluster.{History}
use node_healthcheck_operato.Remediate.Safety.{creations}
use node_healthcheck_operato.Watches.{reference_list}
use node_healthcheck_operato.Reconcile.Unheld.{NothingNew}
use node_healthcheck_operato.Manager.Healthy.{handle_healthy_node}
use node_healthcheck_operato.Machines.Health.{
  Target, no_node_ref, get_node_startup_timeout, is_failed, of_node, without_node,
  needs_remediation, check_health,
}
use node_healthcheck_operato.Machines.Verdicts.{is_fine, check_health-classes}
use node_healthcheck_operato.Machines.Held.{keeps-NothingNew}
use node_healthcheck_operato.Machines.Quiet.{healthy_targets-kept}
use node_healthcheck_operato.Machines.Run.{handle_healthy_targets, reconcile_targets}
use node_healthcheck_operato.Machines.Outcome.{MachineOperator, mhc_manager_for, healthy_node_name}

In-filter :
    (p : Target → Bool) (t : Target) (ts : List Target) → In t ts → p t ≡ true → In t (filter p ts)
In-filter p t [] i h = elim i [ ]
In-filter p t (x ∷ xs) (head e) h = rw (subst (λ (y : Target). p y ≡ true) e h) (head e)
In-filter p t (x ∷ xs) (tail i) h = elim (Bool-cases (p x)) [
  | inl passes ↦ rw passes (tail (In-filter p t xs i h))
  | inr fails ↦ rw fails (In-filter p t xs i h)
]

-- A machine without a node, when the timeout for the start of nodes is 0, counts as healthy.
abbrev IsUnstarted : Target → Type 0
IsUnstarted t =
    (is_failed t.machine ≡ false)
    × (t.node ≡ no_node_ref)
    × (eqb_ℤ (get_node_startup_timeout t.mhc) (pos 0) ≡ true)

unstarted-fine : (now : ℤ) (t : Target) → IsUnstarted t → is_fine now t ≡ true
unfolding needs_remediation of_node without_node
unstarted-fine now t (alive, bare, unlimited) =
    rw (alive, needs_remediation) (rw (bare, of_node) (rw (unlimited, without_node) refl))

no_name :
    (x : Target) (name : String) → x.node ≡ no_node_ref → healthy_node_name x.node ≡ some name → ⊥
no_name x name bare has = cc (ap healthy_node_name bare, has)

module _ (o : MachineOperator) (now : ℤ) where
  healthy_targets-breaks :
      (mhc : MachineHealthCheck) (ts : List Target) (requeue : Bool) (count : ℕ) (h : History)
      (t : Target)
      → In t ts
      → t.node ≡ no_node_ref
      → is_some (handle_healthy_targets o now mhc ts requeue count h).0.error ≡ true
  unfolding handle_healthy_targets
  healthy_targets-breaks mhc [] requeue count h t i bare = elim i [ ]
  healthy_targets-breaks mhc (x ∷ xs) requeue count h t i bare =
      elim (Option-cases (healthy_node_name x.node)) [
        | inl none_here ↦ rw (none_here, handle_healthy_targets) refl
        | inr (name, has) ↦
            let m = mhc_manager_for o mhc in
            let templates = reference_list mhc.spec.remediation_template in
            let step = handle_healthy_node m o.clock now templates [] name x.machine.name h in
            elim (Option-cases step.0.error) [
              | inr (e, broken) ↦ rw (has, handle_healthy_targets) (rw broken refl)
              | inl fine ↦ elim i [
                | head e ↦
                    absurd
                      (no_name x name (subst (λ (y : Target). y.node ≡ no_node_ref) e bare) has)
                | tail j ↦
                    rw (has, handle_healthy_targets)
                      (rw fine (
                        healthy_targets-breaks mhc xs
                          (if is_empty step.0.crs then requeue else true) (count + 1) step.1 t j
                          bare))
              ]
            ]
      ]

  -- When one of the targets has a machine that has not failed and has no node yet, and the timeout for the
  -- start of nodes is 0, Reconcile ends with an error and creates no CR for any other target either.
  pub unstarted-blocks :
      (ts : List Target) (mhc : MachineHealthCheck) (watches : List String) (h : History)
      (t : Target)
      → In t ts
      → is_failed t.machine ≡ false
      → t.node ≡ no_node_ref
      → eqb_ℤ (get_node_startup_timeout t.mhc) (pos 0) ≡ true
      → (is_empty (reconcile_targets o now ts mhc watches h).0.errors ≡ false)
        × (creations (reconcile_targets o now ts mhc watches h).1 ≡ creations h)
  unfolding reconcile_targets
  unstarted-blocks ts mhc watches h t i alive bare unlimited =
      let checked = check_health now ts in
      let done = handle_healthy_targets o now mhc checked.healthy false 0 h in
      let n =
        healthy_targets-kept (NothingNew h) (keeps-NothingNew h) o now mhc checked.healthy false 0 h
          refl in
      let member : In t checked.healthy =
        rw (check_health-classes now ts).1
          (In-filter (is_fine now) t ts i (unstarted-fine now t (alive, bare, unlimited))) in
      let breaks = healthy_targets-breaks mhc checked.healthy false 0 h t member bare in
      elim (Option-cases done.0.error) [
        | inl fine ↦ cc (rw fine at breaks)
        | inr (e, broken) ↦ rw (broken, reconcile_targets) (refl, n)
      ]
