-- ===== src/Conditions.antt =====
-- Status conditions: the tests of internal/controller/utils/conditions.go, over FindStatusCondition
-- and SetStatusCondition of k8s.io/apimachinery, which are parameters with their documented laws.
use node_healthcheck_operato.Prelude.{
  ℤ, String, Bool, false, ◌&&◌, Option, none, some, is_some, List, ◌==◌, if◌then◌else◌, ◌≡◌, ◌≢◌,
}
use node_healthcheck_operato.Api.{Condition, NodeHealthCheck}

-- The argument of SetStatusCondition; the operator never sets its transition time.
pub record NewCondition : Type 0 where
  pub type : String
  pub status : String
  pub reason : String
  pub message : String

-- The transition time changes with the status only.
abbrev pub transition_time : ℤ → Option Condition → String → ℤ
transition_time now none status = now
transition_time now (some old) status =
    if old.status == status then old.last_transition_time else now

abbrev pub merged : ℤ → Option Condition → NewCondition → Condition
merged now old new = record {
  type = new.type;
  status = new.status;
  last_transition_time = transition_time now old new.status;
  reason = new.reason;
  message = new.message;
}

-- Package k8s.io/apimachinery/pkg/api/meta.
pub record ConditionMeta : Type 0 where
  pub find_status_condition : List Condition → String → Option Condition
  pub set_status_condition : ℤ → List Condition → NewCondition → List Condition
  pub find-set_self :
      (now : ℤ) (cs : List Condition) (new : NewCondition)
      → find_status_condition (set_status_condition now cs new) new.type
        ≡ some (merged now (find_status_condition cs new.type) new)
  pub find-set_ne :
      (now : ℤ) (cs : List Condition) (new : NewCondition) (type : String)
      → new.type ≢ type
      → find_status_condition (set_status_condition now cs new) type ≡ find_status_condition cs type

abbrev pub has_status : String → Option Condition → Bool
has_status status none = false
has_status status (some c) = c.status == status

abbrev pub has_reason : String → Option Condition → Bool
has_reason reason none = false
has_reason reason (some c) = c.reason == reason

module _ (meta : ConditionMeta) where
  open meta use {find_status_condition, set_status_condition}

  -- IsConditionTrueWithReason.
  abbrev pub is_condition_true_with_reason : List Condition → String → String → Bool
  is_condition_true_with_reason cs type reason =
      let c = find_status_condition cs type in has_status "True" c && has_reason reason c

  -- IsConditionFalseWithReason.
  abbrev pub is_condition_false_with_reason : List Condition → String → String → Bool
  is_condition_false_with_reason cs type reason =
      let c = find_status_condition cs type in has_status "False" c && has_reason reason c

  -- IsConditionSet.
  abbrev pub is_condition_set : List Condition → String → Bool
  is_condition_set cs type = is_some (find_status_condition cs type)

  -- IsConditionTrue.
  abbrev pub is_condition_true : List Condition → String → Bool
  is_condition_true cs type = has_status "True" (find_status_condition cs type)

  -- `meta.SetStatusCondition(&nhc.Status.Conditions, new)`.
  abbrev pub set_condition : ℤ → NewCondition → NodeHealthCheck → NodeHealthCheck
  set_condition now new nhc = record nhc {
    status = record nhc.status { conditions = set_status_condition now nhc.status.conditions new };
  }
