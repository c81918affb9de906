-- ===== src/Reconcile/Upgrading.antt =====
-- No CR is created or deleted while a node that is to be remediated is being upgraded.
use node_healthcheck_operato.Prelude.{
  ℤ, List, [], ◌∷◌, String, Bool, true, false, not, In, head, tail, filter, ◌≡◌, refl, sym,
  Bool-cases, Option-cases, inl, inr,
}
use mathlib.Core.Path.{subst}
use node_healthcheck_operato.Api.{
  Node, LabelSelector, UnhealthyCondition, NodeHealthCheck, NodeHealthCheckSpec,
}
use node_healthcheck_operato.Remediation.{get_all_remediation_templates}
use node_healthcheck_operato.Health.{check_node_conditions}
use node_healthcheck_operato.Health.Lasting.{HasLasted, matches_unhealthy_conditions_iff}
use node_healthcheck_operato.Health.Classes.{is_unhealthy, check_node_conditions-partition}
use node_healthcheck_operato.Cluster.{Call, ok, History, Environment, Answer-cases}
use node_healthcheck_operato.Templates.{validate_templates}
use node_healthcheck_operato.Upgrade.Detected.{IsUpgrading, upgrading-IsUpgrading}
use node_healthcheck_operato.Watches.{add_watches_nhc}
use node_healthcheck_operato.Reconcile.Operator.{
  Operator, need_disable_nhc, need_ignore_node, lease_holder_ident,
}
use node_healthcheck_operato.Reconcile.Outcome.{reset, get_nodes}
use node_healthcheck_operato.Reconcile.Report.{with_phase}
use node_healthcheck_operato.Reconcile.Quiet.{
  is_harmless, get_nodes-kept, add_watches_nhc-kept, validate_templates-kept, send_status-kept,
  Validity-cases,
}
use node_healthcheck_operato.Reconcile.GoesAhead.{spec-enable}
use node_healthcheck_operato.Reconcile.Run.{
  enable, reconcile_selected, reconcile_enabled, reconcile_checked, finish, reconcile_nhc,
}

-- The creations and deletions of CRs.
abbrev pub harmful : History → List Call
harmful h = filter (λ c. not (is_harmless c)) h

In-filter :
    (p : Node → Bool) (node : Node) (nodes : List Node)
    → In node nodes
    → p node ≡ true
    → In node (filter p nodes)
In-filter p node [] i h = elim i [ ]
In-filter p node (x ∷ xs) (head e) h =
    let hit : p x ≡ true = subst (λ (y : Node). p y ≡ true) e h in rw hit (head e)
In-filter p node (x ∷ xs) (tail i) h = elim (Bool-cases (p x)) [
  | inl hit ↦ rw hit (tail (In-filter p node xs i h))
  | inr miss ↦ rw miss (In-filter p node xs i h)
]

-- A node that is unhealthy by one of the conditions, is not left to MachineHealthChecks, and is to get another
-- machine config than it has.
pub record IsCaught (o : Operator) (now : ℤ) (cs : List UnhealthyCondition) (node : Node)
    : Type 0 where
  pub condition : UnhealthyCondition
  pub configured : In condition cs
  pub has_lasted : HasLasted now node.conditions condition
  pub is_ours : need_ignore_node o node ≡ false
  pub is_upgrading : IsUpgrading node

-- There is always such a node among those that the selector selects.
abbrev pub AreCaught : Operator → ℤ → NodeHealthCheckSpec → Type 0
AreCaught o now spec =
    (h : History) (nodes : List Node)
    → o.environment.on_list_nodes h spec.selector ≡ ok nodes
    → (node : Node) × In node nodes × IsCaught o now spec.unhealthy_conditions node

listed :
    (env : Environment) (selector : LabelSelector) (h : History) (nodes : List Node)
    → (get_nodes env selector h).0 ≡ ok nodes
    → env.on_list_nodes h selector ≡ ok nodes
unfolding get_nodes
listed env selector h nodes got = elim (Option-cases (env.selector_error selector)) [
  | inr (e, broken) ↦ cc (rw (broken, get_nodes) at got)
  | inl fine ↦ rw (fine, get_nodes) at got
]

module _ (o : Operator) (now : ℤ) (on : o.is_on_openshift ≡ true) where
  caught-matching :
      (nhc : NodeHealthCheck) (node : Node) (nodes : List Node)
      → In node nodes
      → IsCaught o now nhc.spec.unhealthy_conditions node
      → In node (check_node_conditions now nhc (need_ignore_node o) nodes).matching
  caught-matching nhc node nodes i c =
      let matches =
        (matches_unhealthy_conditions_iff now nhc node).1
          (c.condition, c.configured, c.has_lasted) in
      let ours = c.is_ours in
      rw ((check_node_conditions-partition now nhc (need_ignore_node o) nodes).0) (
        In-filter (is_unhealthy now nhc (need_ignore_node o)) node nodes i
          (rw matches (rw ours refl)))

  selected-stops :
      (nodes : List Node) (nhc : NodeHealthCheck) (watches : List String) (h : History)
      (node : Node)
      → In node nodes
      → IsCaught o now nhc.spec.unhealthy_conditions node
      → (reconcile_selected o now nodes nhc watches h).1 ≡ h
  unfolding reconcile_selected
  selected-stops nodes nhc watches h node i c =
      let classes = check_node_conditions now nhc (need_ignore_node o) nodes in
      rw
        (upgrading-IsUpgrading o.environment o.is_on_openshift classes.matching h node on
          (caught-matching nhc node nodes i c) c.is_upgrading)
        refl

  module _ (h0 : History) where
    abbrev Same : History → Type 0
    Same h = harmful h ≡ harmful h0

    keep : (c : Call) (h : History) → is_harmless c ≡ true → Same h → Same (c ∷ h)
    keep c h e s = rw e s

    enabled-stops :
        (nhc : NodeHealthCheck) (watches : List String) (h : History)
        → AreCaught o now nhc.spec
        → Same h
        → Same (reconcile_enabled o now nhc watches h).1
    unfolding reconcile_enabled get_nodes
    enabled-stops nhc watches h caught s =
        let watching = add_watches_nhc o.environment nhc watches h in
        let s1 = add_watches_nhc-kept Same keep o.environment nhc watches h s in
        let selected = get_nodes o.environment nhc.spec.selector watching.1 in
        let s2 = get_nodes-kept Same keep o.environment nhc.spec.selector watching.1 s1 in
        elim (Option-cases watching.0.0) [
          | inr (e, broken) ↦ rw (broken, reconcile_enabled) s1
          | inl fine ↦ elim (Answer-cases selected.0) [
            | inl (e, broken) ↦ rw (fine, reconcile_enabled) (rw broken s2)
            | inr (nodes, got) ↦
                let (node, i, c) =
                  caught watching.1 nodes
                    (listed o.environment nhc.spec.selector watching.1 nodes got) in
                rw (fine, reconcile_enabled)
                  (rw got (rw (selected-stops nodes nhc watching.0.1 selected.1 node i c) s2))
          ]
        ]

    checked-stops :
        (nhc : NodeHealthCheck) (watches : List String)
        → AreCaught o now nhc.spec
        → Same (reconcile_checked o now nhc watches h0).1
    unfolding reconcile_checked
    checked-stops nhc watches caught =
        let refs = get_all_remediation_templates nhc in
        let validation = validate_templates o.environment refs h0 in
        let s1 = validate_templates-kept Same keep o.environment refs h0 refl in
        let nhc' = enable o now (reset nhc) in
        let caught' : AreCaught o now nhc'.spec =
          subst (AreCaught o now) (sym (spec-enable o now (reset nhc))) caught in
        elim (Bool-cases (need_disable_nhc o)) [
          | inl conflict ↦ rw (conflict, reconcile_checked) refl
          | inr no_conflict ↦ elim (Validity-cases validation.0) [
            | inr (inl (reason, e, bad)) ↦ rw (no_conflict, reconcile_checked) (rw bad s1)
            | inr (inr (e, broken)) ↦ rw (no_conflict, reconcile_checked) (rw broken s1)
            | inl good ↦
                rw (no_conflict, reconcile_checked)
                  (rw good (enabled-stops nhc' watches validation.1 caught' s1))
          ]
        ]

-- On OpenShift, when among the selected nodes, whenever they are listed, there is one that is unhealthy, is not
-- left to MachineHealthChecks, and is to get another machine config than it has, then Reconcile creates
-- no remediation CR and deletes none, neither for this node nor for any other.
pub upgrading-stops :
    (o : Operator) (now : ℤ) (nhc : NodeHealthCheck) (watches : List String) (h : History)
    → o.is_on_openshift ≡ true
    → AreCaught o now nhc.spec
    → harmful (reconcile_nhc o now nhc watches h).1 ≡ harmful h
unfolding reconcile_nhc finish
upgrading-stops o now nhc watches h on caught =
    let run = reconcile_checked o now nhc watches h in
    elim (Option-cases (o.environment.new_lease_manager (lease_holder_ident nhc))) [
      | inr (e, broken) ↦ rw (broken, reconcile_nhc) refl
      | inl fine ↦
          rw (fine, reconcile_nhc)
            (send_status-kept (Same o now on h) (keep o now on h) o.environment now
              (with_phase o.meta run.0.nhc) nhc run.1 (checked-stops o now on h nhc watches caught))
    ]
