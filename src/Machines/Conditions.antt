-- ===== src/Machines/Conditions.antt =====
-- The conditions of a MachineHealthCheck: SetMachineCondition, hasSameState and lexicographicLess of
-- internal/controller/utils/conditions.go.
use node_healthcheck_operato.Prelude.{
  ◌-◌, ◌%◌, ℤ, pos, negsuc, Bool, ◌&&◌, List, [], ◌∷◌, ◌++◌, any, ◌==◌, if◌then◌else◌,
}
use Prim.Native.String.{compare}
use text.Mathlib.Text.{is_lt}
use node_healthcheck_operato.MachineApi.{MachineCondition}

-- hasSameState.
unfoldable pub has_same_state : MachineCondition → MachineCondition → Bool
has_same_state i j =
    i.type == j.type
    && (i.status == j.status
        && (i.reason == j.reason && (i.severity == j.severity && i.message == j.message)))

-- lexicographicLess, and sort.Slice by it. The order of conditions of one type, which sort.Slice leaves open, is
-- kept here; with one condition for each type there is one sorted list only.
abbrev pub lexicographic_less : MachineCondition → MachineCondition → Bool
lexicographic_less i j = is_lt (compare i.type j.type)

unfoldable pub insert_condition : MachineCondition → List MachineCondition → List MachineCondition
insert_condition c [] = c ∷ []
insert_condition c (x ∷ xs) =
    if lexicographic_less x c then x ∷ insert_condition c xs else c ∷ x ∷ xs

unfoldable pub sort_conditions : List MachineCondition → List MachineCondition
unfolding insert_condition
sort_conditions [] = []
sort_conditions (c ∷ cs) = insert_condition c (sort_conditions cs)

-- `time.Now().UTC().Truncate(time.Second)`, for a time after the epoch.
abbrev pub truncate_second : ℤ → ℤ
truncate_second now = elim now [ pos n ↦ pos (n - n % 1000000000) | negsuc n ↦ negsuc n ]

abbrev pub at : ℤ → MachineCondition → MachineCondition
at time c = record c { last_transition_time = time }

-- The loop: the first condition of the type is replaced when its state differs.
unfoldable pub replace_condition :
    ℤ → MachineCondition → List MachineCondition → List MachineCondition
replace_condition now c [] = []
replace_condition now c (x ∷ xs) =
    if x.type == c.type
    then (if has_same_state x c then x ∷ xs else at (truncate_second now) c ∷ xs)
    else x ∷ replace_condition now c xs

-- SetMachineCondition, for a condition without a transition time.
unfoldable pub set_machine_condition :
    ℤ → MachineCondition → List MachineCondition → List MachineCondition
unfolding replace_condition sort_conditions
set_machine_condition now c cs = sort_conditions (
    if any (λ (x : MachineCondition). x.type == c.type) cs
    then replace_condition now c cs
    else cs ++ at (truncate_second now) c ∷ [])
