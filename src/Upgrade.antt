-- ===== src/Upgrade.antt =====
-- Whether the cluster is being upgraded, internal/controller/cluster/upgrade_checker.go.
pub mod Detected
use node_healthcheck_operato.Prelude.{
  Bool, true, false, ◌&&◌, not, List, [], ◌∷◌, any, String, value_of, ◌==◌, if◌then◌else◌,
}
use node_healthcheck_operato.Api.{Node}
use node_healthcheck_operato.Remediation.{CrCondition}
use node_healthcheck_operato.Cluster.{
  wrapped, Answer, ok, failed, list_cluster_versions, History, Environment,
}

abbrev pub current_machine_config_annotation : String
current_machine_config_annotation = "machineconfiguration.openshift.io/currentConfig"

abbrev pub desired_machine_config_annotation : String
desired_machine_config_annotation = "machineconfiguration.openshift.io/desiredConfig"

-- isNodeUpgrading.
unfoldable pub is_node_upgrading : List Node → Bool
is_node_upgrading nodes =
    any
      (λ (node : Node).
        not (value_of desired_machine_config_annotation node.annotations == "")
        && not (
            value_of current_machine_config_annotation node.annotations
            == value_of desired_machine_config_annotation node.annotations))
      nodes

abbrev pub is_progressing : CrCondition → Bool
is_progressing c = c.type == "Progressing" && c.status == "True"

abbrev pub any_progressing : Answer (List (List CrCondition)) → Answer Bool
any_progressing (failed e) =
    failed (wrapped "failed to check for Openshift cluster upgrade status" e)
any_progressing (ok versions) = ok (any (λ cs. any is_progressing cs) versions)

-- Check, of the checker that NewClusterUpgradeStatusChecker returns.
unfoldable pub check : Environment → Bool → List Node → History → Answer Bool × History
unfolding is_node_upgrading
check env is_on_openshift nodes h =
    if not is_on_openshift
    then (ok false, h)
    else if is_node_upgrading nodes
    then (ok true, h)
    else (any_progressing (env.on_list_cluster_versions h), list_cluster_versions ∷ h)

abbrev pub or_false : Answer Bool → Bool
or_false (failed e) = false
or_false (ok b) = b

-- isClusterUpgrading of internal/controller/nodehealthcheck_controller.go: after an error remediation
-- goes on.
unfoldable pub is_cluster_upgrading : Environment → Bool → List Node → History → Bool × History
is_cluster_upgrading env is_on_openshift nodes h =
    let (answer, h') = check env is_on_openshift nodes h in (or_false answer, h')
