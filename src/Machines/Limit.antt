-- ===== src/Machines/Limit.antt =====
-- How many machines may be unhealthy: getMaxUnhealthy, getValueFromIntOrPercent, getIntOrPercentValue,
-- getNrRemediationsAllowed and isRemediationsAllowed of
-- internal/controller/machinehealthcheck_controller.go. The products of float64 are exact below 2^53, where
-- Ceil and Floor of a hundredth are those of the integer division.
use node_healthcheck_operato.Prelude.{
  ℕ, zero, suc, ◌+◌, ◌-◌, ◌*◌, ◌/◌, ◌%◌, ◌^◌, ℤ, pos, negsuc, ◌-ℤ◌, ltb_ℤ, ltb, leb, String, codes,
  Bool, true, false, ◌&&◌, not, Option, none, some, List, [], ◌∷◌, trim_suffix, ◌==◌, ◌≡◌, refl,
  if◌then◌else◌,
}
use node_healthcheck_operato.Api.{IntOrString, int_val, str_val}
use node_healthcheck_operato.MachineApi.{MachineHealthCheck}

abbrev pub is_digit : ℕ → Bool
is_digit c = leb b'0' c && leb c b'9'

-- The number that digits stand for, after `acc`; `none` for another character.
unfoldable pub atoi_digits : ℕ → List ℕ → Option ℕ
atoi_digits acc [] = some acc
atoi_digits acc (c ∷ cs) =
    let rest = atoi_digits (acc * 10 + (c - b'0')) cs in if is_digit c then rest else none

abbrev int_max : ℕ
int_max = 9223372036854775807

abbrev positive_in_range : Option ℕ → Option ℤ
positive_in_range none = none
positive_in_range (some n) = if leb n int_max then some (pos n) else none

abbrev negative : ℕ → ℤ
negative zero = pos 0
negative (suc n) = negsuc n

abbrev negative_in_range : Option ℕ → Option ℤ
negative_in_range none = none
negative_in_range (some n) = if leb n (int_max + 1) then some (negative n) else none

abbrev some_digits : List ℕ → Option ℕ
some_digits [] = none
some_digits (c ∷ cs) = atoi_digits 0 (c ∷ cs)

abbrev pub atoi_codes : List ℕ → Option ℤ
atoi_codes [] = none
atoi_codes (c ∷ cs) =
    if leb b'-' c && leb c b'-'
    then negative_in_range (some_digits cs)
    else if leb b'+' c && leb c b'+'
    then positive_in_range (some_digits cs)
    else positive_in_range (some_digits (c ∷ cs))

-- strconv.Atoi, for 64-bit integers.
unfoldable pub atoi : String → Option ℤ
unfolding atoi_digits
atoi s = atoi_codes (codes s)

-- getIntOrPercentValue: the value, and whether it is a percentage. A text that ends in "%" is one.
unfoldable pub get_int_or_percent_value : IntOrString → Option (ℤ × Bool)
unfolding atoi
get_int_or_percent_value (int_val n) = some (n, false)
get_int_or_percent_value (str_val s) =
    let trimmed = trim_suffix s "%" in
    elim (atoi trimmed) [ none ↦ none | some v ↦ some (v, not (trimmed == s)) ]

-- `math.Floor(value * total / 100)` and `math.Ceil`.
abbrev floor_percent : ℤ → ℕ → ℤ
floor_percent (pos v) total = pos (v * total / 100)
floor_percent (negsuc v) total = negative ((suc v * total + 99) / 100)

abbrev ceil_percent : ℤ → ℕ → ℤ
ceil_percent (pos v) total = pos ((v * total + 99) / 100)
ceil_percent (negsuc v) total = negative (suc v * total / 100)

abbrev scaled_percent : Bool → ℤ → ℕ → ℤ
scaled_percent true v total = ceil_percent v total
scaled_percent false v total = floor_percent v total

-- getValueFromIntOrPercent.
unfoldable pub get_value_from_int_or_percent : Option IntOrString → ℕ → Bool → Option ℤ
unfolding get_int_or_percent_value
get_value_from_int_or_percent none total round_up = none
get_value_from_int_or_percent (some m) total round_up = elim (get_int_or_percent_value m) [
  | none ↦ none
  | some (v, is_percent) ↦ some (if is_percent then scaled_percent round_up v total else v)
]

abbrev pub expected_machines : MachineHealthCheck → ℕ
expected_machines mhc = elim mhc.status.expected_machines [ none ↦ 0 | some n ↦ n ]

abbrev pub at_least_zero : Option ℤ → Option ℤ
at_least_zero none = none
at_least_zero (some n) = if ltb_ℤ n (pos 0) then some (pos 0) else some n

abbrev pub max_of : ℕ → Option IntOrString → Option ℤ
max_of total none = some (pos total)
max_of total (some m) = at_least_zero (get_value_from_int_or_percent (some m) total false)

-- getMaxUnhealthy; `none` stands for the error of a value that cannot be read.
unfoldable pub get_max_unhealthy : MachineHealthCheck → Option ℤ
unfolding get_value_from_int_or_percent
get_max_unhealthy mhc = max_of (expected_machines mhc) mhc.spec.max_unhealthy

-- getNrRemediationsAllowed.
unfoldable pub get_nr_remediations_allowed : ℤ → ℤ → ℤ
get_nr_remediations_allowed unhealthy max_unhealthy =
    let allowed = max_unhealthy -ℤ unhealthy in if ltb_ℤ allowed (pos 0) then pos 0 else allowed

-- The conversion to int32.
abbrev pub to_int32 : ℤ → ℤ
to_int32 (pos n) = let r = n % 2 ^ 32 in if ltb r (2 ^ 31) then pos r else negsuc (2 ^ 32 - 1 - r)
to_int32 (negsuc n) =
    let r = n % 2 ^ 32 in if ltb r (2 ^ 31) then negsuc r else pos (2 ^ 32 - 1 - r)

-- isRemediationsAllowed.
unfoldable pub is_remediations_allowed : ℤ → ℤ → Bool
is_remediations_allowed unhealthy max_unhealthy = not (ltb_ℤ (max_unhealthy -ℤ unhealthy) (pos 0))

forty_percent : get_value_from_int_or_percent (some (str_val "40%")) 8 false ≡ some (pos 3)
unfolding get_value_from_int_or_percent
forty_percent = refl
