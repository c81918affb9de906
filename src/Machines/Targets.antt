-- ===== src/Machines/Targets.antt =====
-- The machines of a MachineHealthCheck and their nodes: GetMHCTargets of
-- internal/controller/resources/mhc.go.
use node_healthcheck_operato.Prelude.{String, none, some, List, [], ◌∷◌, if◌then◌else◌}
use node_healthcheck_operato.Api.{Node}
use node_healthcheck_operato.MachineApi.{Machine, MachineHealthCheck}
use node_healthcheck_operato.Cluster.{
  wrapped, is_not_found, Answer, ok, failed, get_node, list_machines, History, Environment,
}
use node_healthcheck_operato.Machines.Health.{TargetNode, no_node_ref, missing, existing, Target}

module _ (env : Environment) where
  -- getMachines.
  unfoldable pub get_machines : MachineHealthCheck → History → Answer (List Machine) × History
  get_machines mhc h = elim (env.selector_error mhc.spec.selector) [
    | some e ↦ (failed (wrapped "failed converting a selector from MHC selector" e), h)
    | none ↦ (
      env.on_list_machines h mhc.spec.selector mhc.namespace,
      list_machines mhc.spec.selector mhc.namespace ∷ h,
    )
  ]

  abbrev pub node_answer : String → Answer Node → Answer TargetNode
  node_answer name (ok node) = ok (existing node)
  node_answer name (failed e) =
      if is_not_found e
      then ok (missing name)
      else failed (wrapped "failed to get node for machine" e)

  -- getNodeFromMachine; a node that is not found stays in the target by its name.
  unfoldable pub get_node_from_machine : Machine → History → Answer TargetNode × History
  get_node_from_machine machine h = elim machine.node_ref [
    | none ↦ (ok no_node_ref, h)
    | some name ↦ (node_answer name (env.on_get_node h name), get_node name ∷ h)
  ]

  abbrev pub with_target : Target → Answer (List Target) → Answer (List Target)
  with_target t (failed e) = failed e
  with_target t (ok ts) = ok (t ∷ ts)

  unfoldable pub targets_of :
      MachineHealthCheck → List Machine → History → Answer (List Target) × History
  unfolding get_node_from_machine
  targets_of mhc [] h = (ok [], h)
  targets_of mhc (machine ∷ machines) h =
      let (node, h1) = get_node_from_machine machine h in
      elim node [
        | failed e ↦ (failed e, h1)
        | ok n ↦
            let (rest, h2) = targets_of mhc machines h1 in
            (with_target (record { machine = machine; node = n; mhc = mhc }) rest, h2)
      ]

  -- GetMHCTargets.
  unfoldable pub get_mhc_targets : MachineHealthCheck → History → Answer (List Target) × History
  unfolding get_machines targets_of
  get_mhc_targets mhc h =
      let (machines, h1) = get_machines mhc h in
      elim machines [
        | failed e ↦ (failed (wrapped "failed to get machines for selector" e), h1)
        | ok ms ↦ targets_of mhc ms h1
      ]
