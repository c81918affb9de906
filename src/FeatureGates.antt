-- ===== src/FeatureGates.antt =====
-- The state of the feature gates accessor, internal/controller/featuregates/accessor.go: featureGateChanged
-- and isFeatureGateAccessorSupported. An event on the channel is a counted one.
pub mod Followed
use node_healthcheck_operato.Prelude.{
  ℕ, ◌+◌, ℤ, pos, ltb_ℤ, eqb_ℤ, String, Bool, true, false, ◌&&◌, ◌||◌, not, Option, none, some,
  List, [], ◌∷◌, any, ◌==◌, if◌then◌else◌, codes, ◌≡◌, refl,
}
use node_healthcheck_operato.Machines.Limit.{atoi, atoi_codes, is_digit}
use node_healthcheck_operato.Cluster.{Error, other, Answer, ok, failed}

abbrev pub disable_controller_gate : String
disable_controller_gate = "MachineAPIOperatorDisableMachineHealthCheckController"

-- `isMaoMhcDisabled`, and the events sent so far.
pub record Accessor : Type 0 where
  pub is_mao_mhc_disabled : Bool
  pub events : ℕ

-- featureGateChanged, for the gates that are enabled now.
unfoldable pub feature_gate_changed : List String → Accessor → Accessor
feature_gate_changed [] a =
    if a.is_mao_mhc_disabled then record a { is_mao_mhc_disabled = false } else a
feature_gate_changed (gate ∷ gates) a =
    let rest = feature_gate_changed gates a in
    if gate == disable_controller_gate
    then (if a.is_mao_mhc_disabled
        then a
        else record a { is_mao_mhc_disabled = true; events = a.events + 1 })
    else rest

-- `leadingDigits.FindString`.
abbrev pub leading_digits : List ℕ → List ℕ
leading_digits [] = []
leading_digits (c ∷ cs) = let rest = leading_digits cs in if is_digit c then c ∷ rest else []

-- The Kubernetes version is at least 1.27.
abbrev pub is_recent_version : ℤ → ℤ → Bool
is_recent_version major minor =
    ltb_ℤ (pos 1) major || (eqb_ℤ major (pos 1) && not (ltb_ℤ minor (pos 27)))

-- isFeatureGateAccessorSupported, for the answer with the major and the minor version.
unfoldable pub is_feature_gate_accessor_supported : Answer (String × String) → Answer Bool
unfolding atoi
is_feature_gate_accessor_supported (failed e) = failed e
is_feature_gate_accessor_supported (ok (major, minor)) = elim (atoi major) [
  | none ↦ failed (other "couldn't parse k8s major version")
  | some major_ver ↦ elim (atoi_codes (leading_digits (codes minor))) [
    | none ↦ failed (other "couldn't parse k8s minor version")
    | some minor_ver ↦ ok (is_recent_version major_ver minor_ver)
  ]
]

supported_version : is_feature_gate_accessor_supported (ok ("1", "27+")) ≡ ok true
unfolding is_feature_gate_accessor_supported
supported_version = refl

old_version : is_feature_gate_accessor_supported (ok ("1", "9")) ≡ ok false
unfolding is_feature_gate_accessor_supported
old_version = refl
