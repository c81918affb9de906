-- ===== src/FeatureGates/Followed.antt =====
-- The accessor follows the feature gate.
use node_healthcheck_operato.Prelude.{
  ◌+◌, String, Bool, ◌&&◌, not, List, [], ◌∷◌, any, ◌==◌, ◌≡◌, arith, if◌then◌else◌,
}
use node_healthcheck_operato.FeatureGates.{Accessor, disable_controller_gate, feature_gate_changed}

abbrev pub is_enabled : List String → Bool
is_enabled gates = any (λ gate. gate == disable_controller_gate) gates

-- After a change of the feature gates the accessor says whether the gate is enabled now, and it has sent
-- one event exactly if the gate was not enabled before and is enabled now.
pub feature_gate_changed-follows :
    (gates : List String) (a : Accessor)
    → ((feature_gate_changed gates a).is_mao_mhc_disabled ≡ is_enabled gates)
      × ((feature_gate_changed gates a).events
          ≡ (if is_enabled gates && not a.is_mao_mhc_disabled then a.events + 1 else a.events))
unfolding feature_gate_changed
feature_gate_changed-follows [] a = ground arith
feature_gate_changed-follows (gate ∷ gates) a = ground (arith, feature_gate_changed-follows gates a)
