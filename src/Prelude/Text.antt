-- ===== src/Prelude/Text.antt =====
-- Go's maps from strings, and the functions of package strings that the operator calls.
use Prim.Native.Nat.{ℕ, zero, suc, ◌+◌, ◌-◌, ◌/◌, ◌%◌}
use mathlib.Core.Path.{◌≡◌, refl}
use Prim.Native.Char.{code}
use Prim.Native.String.{String}
use text.Mathlib.Text.{◌==◌}
use mathlib.Core.Bool.{Bool, true, false, ◌&&◌, ◌||◌}
use mathlib.Core.List.{List, [], ◌∷◌}
use mathlib.Core.Option.{Option, none, some}
use node_healthcheck_operato.Prelude.Tests.{leb, eqb, ltb, if◌then◌else◌, is_some}

-- A `map[string]string`; an absent key and a nil map read alike.
abbrev pub StringMap : Type 0
StringMap = List (String × String)

module _ {ℓ} {V : Type ℓ} where
  -- `v, exists := m[k]`.
  abbrev pub lookup : String → List (String × V) → Option V
  lookup k [] = none
  lookup k ((j, v) ∷ m) = if j == k then some v else lookup k m

  abbrev pub has_key : String → List (String × V) → Bool
  has_key k m = is_some (lookup k m)

  -- `m[k] = v`.
  abbrev pub insert : String → V → List (String × V) → List (String × V)
  insert k v [] = (k, v) ∷ []
  insert k v ((j, w) ∷ m) = if j == k then (k, v) ∷ m else (j, w) ∷ insert k v m

  -- `delete(m, k)`.
  abbrev pub delete : String → List (String × V) → List (String × V)
  delete k [] = []
  delete k ((j, w) ∷ m) = let rest = delete k m in if j == k then rest else (j, w) ∷ rest

-- `m[k]`, which is the empty string for a missing key.
abbrev pub value_of : String → StringMap → String
value_of k m = elim (lookup k m) [ none ↦ "" | some v ↦ v ]

abbrev pub codes : String → List ℕ
codes String.[] = []
codes (String.◌∷◌ c s) = code c ∷ codes s

-- `strings.TrimSuffix(s, suffix)`.
abbrev pub trim_suffix : String → String → String
trim_suffix String.[] suffix = ""
trim_suffix (String.◌∷◌ c s) suffix =
    let rest = trim_suffix s suffix in if String.◌∷◌ c s == suffix then "" else String.◌∷◌ c rest

abbrev lower : ℕ → ℕ
lower c = if leb b'A' c && leb c b'Z' then c + 32 else c

abbrev codes_fold : List ℕ → List ℕ → Bool
codes_fold [] [] = true
codes_fold (a ∷ s) (b ∷ t) = eqb (lower a) (lower b) && codes_fold s t
codes_fold _ _ = false

-- `strings.EqualFold`, for ASCII texts.
abbrev pub equal_fold : String → String → Bool
equal_fold s t = codes_fold (codes s) (codes t)

abbrev str_length : String → ℕ
str_length String.[] = 0
str_length (String.◌∷◌ c s) = suc (str_length s)

abbrev str_take : String → ℕ → String
str_take String.[] n = ""
str_take (String.◌∷◌ c s) zero = ""
str_take (String.◌∷◌ c s) (suc n) = String.◌∷◌ c (str_take s n)

-- `s[:len(s)-n]` for an ASCII text, which panics on a text of fewer than `n` bytes.
abbrev pub slice_off : ℕ → String → Option String
slice_off n s = if ltb (str_length s) n then none else some (str_take s (str_length s - n))

-- `s + t`.
abbrev pub str_append : String → String → String
str_append String.[] t = t
str_append (String.◌∷◌ c s) t = String.◌∷◌ c (str_append s t)

abbrev starts_with : List ℕ → List ℕ → Bool
starts_with s [] = true
starts_with [] (b ∷ t) = false
starts_with (a ∷ s) (b ∷ t) = eqb a b && starts_with s t

abbrev codes_contain : List ℕ → List ℕ → Bool
codes_contain [] t = starts_with [] t
codes_contain (a ∷ s) t = starts_with (a ∷ s) t || codes_contain s t

-- `strings.Contains(s, t)`.
abbrev pub contains : String → String → Bool
contains s t = codes_contain (codes s) (codes t)

-- `strings.Join(texts, separator)`.
abbrev pub join : String → List String → String
join separator [] = ""
join separator (s ∷ []) = s
join separator (s ∷ t ∷ ts) = str_append s (str_append separator (join separator (t ∷ ts)))

abbrev digit : ℕ → String
digit zero = "0"
digit (suc zero) = "1"
digit (suc (suc zero)) = "2"
digit (suc (suc (suc zero))) = "3"
digit (suc (suc (suc (suc zero)))) = "4"
digit (suc (suc (suc (suc (suc zero))))) = "5"
digit (suc (suc (suc (suc (suc (suc zero)))))) = "6"
digit (suc (suc (suc (suc (suc (suc (suc zero))))))) = "7"
digit (suc (suc (suc (suc (suc (suc (suc (suc zero)))))))) = "8"
digit _ = "9"

-- The digits of `n` before a text; a fuel of `n + 1` is enough, as `n / 10` is less than `n`.
digits : ℕ → ℕ → String → String
digits zero n s = s
digits (suc fuel) n s = elim (n / 10) [
  | zero ↦ str_append (digit n) s
  | suc q ↦ digits fuel (n / 10) (str_append (digit (n % 10)) s)
]

-- `fmt.Sprintf("%v", n)`.
pub itoa : ℕ → String
itoa n = digits (suc n) n ""

itoa_example : itoa 1024 ≡ "1024"
unfolding itoa digits
itoa_example = refl
