-- ===== src/Upgrade/Detected.antt =====
-- What counts as an upgrade of a node.
use node_healthcheck_operato.Prelude.{
  Bool, true, false, List, [], ◌∷◌, any, In, head, tail, value_of, not, ◌&&◌, ◌==◌, ◌≡◌, ◌≢◌, arith,
  eq_iff,
}
use mathlib.Core.Path.{subst}
use node_healthcheck_operato.Api.{Node}
use node_healthcheck_operato.Cluster.{History, Environment}
use node_healthcheck_operato.Upgrade.{
  current_machine_config_annotation, desired_machine_config_annotation, is_node_upgrading, check,
  is_cluster_upgrading,
}

-- A node is to get another machine config than it has.
pub record IsUpgrading (node : Node) : Type 0 where
  pub desires : value_of desired_machine_config_annotation node.annotations ≢ ""
  pub differs :
      value_of current_machine_config_annotation node.annotations
      ≢ value_of desired_machine_config_annotation node.annotations

pub any-In :
    (p : Node → Bool) (node : Node) (nodes : List Node)
    → In node nodes
    → p node ≡ true
    → any p nodes ≡ true
any-In p node [] i h = elim i [ ]
any-In p node (n ∷ nodes) (head e) h = let h' = subst (λ x. p x ≡ true) e h in rw h'
any-In p node (n ∷ nodes) (tail i) h = ground (arith, any-In p node nodes i h)

pub upgrading-IsUpgrading :
    (env : Environment) (is_on_openshift : Bool) (nodes : List Node) (h : History) (node : Node)
    → is_on_openshift ≡ true
    → In node nodes
    → IsUpgrading node
    → is_cluster_upgrading env is_on_openshift nodes h ≡ (true, h)
unfolding is_cluster_upgrading check is_node_upgrading
upgrading-IsUpgrading env false nodes h node on i u = cc
upgrading-IsUpgrading env true nodes h node on i u =
    let desired = value_of desired_machine_config_annotation node.annotations in
    let current = value_of current_machine_config_annotation node.annotations in
    rw (
      any-In
        (λ (n : Node).
          not (value_of desired_machine_config_annotation n.annotations == "")
          && not (
              value_of current_machine_config_annotation n.annotations
              == value_of desired_machine_config_annotation n.annotations))
        node nodes i
        (ground (arith, u.desires, u.differs, eq_iff desired "", eq_iff current desired)))
