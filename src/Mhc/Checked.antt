-- ===== src/Mhc/Checked.antt =====
-- What the checker makes of the MachineHealthChecks of the cluster.
use node_healthcheck_operato.Prelude.{
  String, true, false, some, List, [], ◌∷◌, eq_iff, ◌≡◌, ◌↔◌, refl, arith, ap, ◌==◌,
}
use node_healthcheck_operato.Api.{UnhealthyCondition}
use node_healthcheck_operato.MachineApi.{MachineHealthCheck}
use node_healthcheck_operato.Mhc.{
  MhcStatus, node_condition_terminating, is_terminating_only, update_status, need_disable_nhc,
}

-- The cluster has no MachineHealthCheck, or only one that looks for terminating nodes.
pub data IsHarmless : List MachineHealthCheck → Type 0 where
  none_there : IsHarmless []
  terminating :
      {mhc : MachineHealthCheck} {c : UnhealthyCondition}
      → mhc.spec.unhealthy_conditions ≡ c ∷ []
      → c.type ≡ node_condition_terminating
      → IsHarmless (mhc ∷ [])

terminating_only :
    (cs : List UnhealthyCondition)
    → is_terminating_only cs ≡ true
    → (c : UnhealthyCondition) × (cs ≡ c ∷ []) × (c.type ≡ node_condition_terminating)
terminating_only [] h = cc
terminating_only (c ∷ []) h = (c, refl, ground (arith, eq_iff c.type node_condition_terminating))
terminating_only (c ∷ c' ∷ cs) h = cc

-- After the MachineHealthChecks have been listed, NodeHealthChecks are disabled unless there is no
-- MachineHealthCheck, or a single one whose only unhealthy condition is that a node terminates.
pub enabled_iff_IsHarmless :
    (status : MhcStatus) (mhcs : List MachineHealthCheck)
    → (need_disable_nhc (update_status status (some mhcs)).1 ≡ false) ↔ IsHarmless mhcs
unfolding need_disable_nhc update_status
enabled_iff_IsHarmless status [] = (λ h. none_there, λ h. refl)
enabled_iff_IsHarmless status (mhc ∷ []) = (
  λ h.
      let (c, only, e) = terminating_only mhc.spec.unhealthy_conditions (ground arith) in
      terminating only e,
  λ h. elim h [
    | terminating only e ↦ ground (
      arith,
      eq_iff "Terminating" "Terminating",
      ap is_terminating_only only,
      ap (λ (s : String). s == "Terminating") e,
    )
  ],
)
enabled_iff_IsHarmless status (mhc ∷ mhc' ∷ mhcs) = (λ h. cc, λ h. elim h [ ])
