-- ===== src/Machines/Stated.antt =====
-- What SetMachineCondition does to the conditions.
use node_healthcheck_operato.Prelude.{
  ◌≤◌, ℤ, String, Bool, true, false, Option, none, some, length, ◌≢◌, List, [], ◌∷◌, ◌++◌, any,
  filter, ◌==◌, ◌≡◌, refl, sym, ap, ◌∙◌, arith, eq_iff, eq_refl, Bool-cases, inl, inr,
  if◌then◌else◌,
}
use mathlib.Core.Path.{subst}
use Prim.Native.String.{compare}
use text.Mathlib.Text.{is_lt}
use text.Mathlib.TextPositions.{compare_refl}
use node_healthcheck_operato.MachineApi.{MachineCondition}
use node_healthcheck_operato.Machines.Conditions.{
  has_same_state, lexicographic_less, insert_condition, sort_conditions, at, truncate_second,
  replace_condition, set_machine_condition,
}

abbrev has_type : String → MachineCondition → Bool
has_type type c = c.type == type

-- The conditions of one type, in their order.
abbrev pub of_type : String → List MachineCondition → List MachineCondition
of_type type cs = filter (has_type type) cs

less_irrefl : (type : String) → is_lt (compare type type) ≡ false
less_irrefl type = rw (compare_refl type) refl

one_type :
    (type : String) (x c : MachineCondition)
    → lexicographic_less x c ≡ true
    → has_type type c ≡ true
    → has_type type x ≡ false
one_type type x c less e = elim (Bool-cases (has_type type x)) [
  | inr other ↦ other
  | inl same ↦
      let p : x.type ≡ type = ground (arith, eq_iff x.type type) in
      let q : c.type ≡ type = ground (arith, eq_iff c.type type) in
      let both : is_lt (compare x.type c.type) ≡ is_lt (compare type type) =
        ap (λ k. is_lt (compare k c.type)) p ∙ ap (λ k. is_lt (compare type k)) q in
      cc (sym less ∙ both ∙ less_irrefl type)
]

insert-of_type :
    (type : String) (c : MachineCondition) (cs : List MachineCondition)
    → of_type type (insert_condition c cs) ≡ of_type type (c ∷ cs)
unfolding insert_condition
insert-of_type type c [] = refl
insert-of_type type c (x ∷ xs) = elim (Bool-cases (lexicographic_less x c)) [
  | inr stops ↦ rw (stops, insert_condition) refl
  | inl goes ↦ elim (Bool-cases (has_type type c)) [
    | inl ours ↦
        rw (goes, insert_condition)
          (rw (one_type type x c goes ours) (rw ours (insert-of_type type c xs ∙ rw ours refl)))
    | inr other ↦
        rw (goes, insert_condition)
          (rw other (
            ap (λ rest. if has_type type x then x ∷ rest else rest)
              (insert-of_type type c xs ∙ rw other refl)))
  ]
]

sort-of_type :
    (type : String) (cs : List MachineCondition)
    → of_type type (sort_conditions cs) ≡ of_type type cs
unfolding sort_conditions
sort-of_type type [] = refl
sort-of_type type (c ∷ cs) =
    insert-of_type type c (sort_conditions cs)
    ∙ ap (λ rest. if c.type == type then c ∷ rest else rest) (sort-of_type type cs)

-- The first condition of the type has the new state afterwards, and keeps its transition time when it had
-- this state before.
abbrev pub first_of : ℤ → MachineCondition → List MachineCondition → List MachineCondition
first_of now c [] = at (truncate_second now) c ∷ []
first_of now c (x ∷ xs) = if has_same_state x c then x ∷ xs else at (truncate_second now) c ∷ xs

replace-first_of :
    (now : ℤ) (c : MachineCondition) (cs : List MachineCondition)
    → any (has_type c.type) cs ≡ true
    → of_type c.type (replace_condition now c cs) ≡ first_of now c (of_type c.type cs)
unfolding replace_condition
replace-first_of now c [] there = cc
replace-first_of now c (x ∷ xs) there = elim (Bool-cases (x.type == c.type)) [
  | inl same ↦ elim (Bool-cases (has_same_state x c)) [
    | inl still ↦ rw (same, replace_condition) (rw still (rw same refl))
    | inr changed ↦ rw (same, replace_condition) (rw changed (rw (eq_refl c.type) refl))
  ]
  | inr other ↦
      rw (other, replace_condition) (rw other (replace-first_of now c xs (rw other at there)))
]

replace-others :
    (now : ℤ) (c : MachineCondition) (cs : List MachineCondition) (type : String)
    → (c.type == type) ≡ false
    → of_type type (replace_condition now c cs) ≡ of_type type cs
unfolding replace_condition
replace-others now c [] type ne = refl
replace-others now c (x ∷ xs) type ne = elim (Bool-cases (x.type == c.type)) [
  | inl same ↦ elim (Bool-cases (has_same_state x c)) [
    | inl still ↦ rw (same, replace_condition) (rw still refl)
    | inr changed ↦
        let x_ne : has_type type x ≡ false =
          ground (arith, eq_iff x.type c.type, eq_iff x.type type, eq_iff c.type type) in
        rw (same, replace_condition) (rw changed (rw ne (rw x_ne refl)))
  ]
  | inr other ↦
      rw (other, replace_condition)
        (ap (λ rest. if has_type type x then x ∷ rest else rest) (replace-others now c xs type ne))
]

append-of_type :
    (type : String) (cs : List MachineCondition) (c : MachineCondition)
    → of_type type (cs ++ c ∷ []) ≡ of_type type cs ++ of_type type (c ∷ [])
append-of_type type [] c = refl
append-of_type type (x ∷ xs) c = ground (arith, append-of_type type xs c)

of_type-none :
    (type : String) (cs : List MachineCondition)
    → any (has_type type) cs ≡ false
    → of_type type cs ≡ []
of_type-none type [] h = refl
of_type-none type (x ∷ xs) h = ground (arith, of_type-none type xs)

append_nil : (cs : List MachineCondition) → cs ++ [] ≡ cs
append_nil [] = refl
append_nil (x ∷ xs) = ap (λ l. x ∷ l) (append_nil xs)

set_machine_condition-first_of :
    (now : ℤ) (c : MachineCondition) (cs : List MachineCondition)
    → (of_type c.type (set_machine_condition now c cs) ≡ first_of now c (of_type c.type cs))
      × ((type : String)
          → (c.type == type) ≡ false
          → of_type type (set_machine_condition now c cs) ≡ of_type type cs)
unfolding set_machine_condition
set_machine_condition-first_of now c cs = elim (Bool-cases (any (has_type c.type) cs)) [
  | inl there ↦
      rw (there, set_machine_condition)
        (
          sort-of_type c.type (replace_condition now c cs) ∙ replace-first_of now c cs there,
          λ type ne.
              sort-of_type type (replace_condition now c cs) ∙ replace-others now c cs type ne,
        )
  | inr new ↦
      let added = cs ++ at (truncate_second now) c ∷ [] in
      rw (new, set_machine_condition)
        (
          sort-of_type c.type added
              ∙ append-of_type c.type cs (at (truncate_second now) c)
              ∙ rw (of_type-none c.type cs new) (rw (eq_refl c.type) refl),
          λ type ne.
              sort-of_type type added
              ∙ append-of_type type cs (at (truncate_second now) c)
              ∙ rw ne (append_nil (of_type type cs)),
        )
]

-- At most one condition has each type.
abbrev pub AreUnique : List MachineCondition → Type 0
AreUnique cs = (type : String) → length (of_type type cs) ≤ 1

abbrev first : List MachineCondition → Option MachineCondition
first [] = none
first (c ∷ cs) = some c

-- The condition of a type.
abbrev pub first_with : String → List MachineCondition → Option MachineCondition
first_with type cs = first (of_type type cs)

-- After the old condition has been set to the state of `c`: one in this state is left as it was, and else `c` has
-- replaced it at the current second.
pub data IsCurrent (now : ℤ) (c : MachineCondition)
    : Option MachineCondition → Option MachineCondition → Type 0 where
  added : IsCurrent now c none (some (at (truncate_second now) c))
  changed :
      {old : MachineCondition}
      → record old { last_transition_time = c.last_transition_time } ≢ c
      → IsCurrent now c (some old) (some (at (truncate_second now) c))
  kept :
      {old : MachineCondition}
      → record old { last_transition_time = c.last_transition_time } ≡ c
      → IsCurrent now c (some old) (some old)

same_state :
    (x c : MachineCondition)
    → has_same_state x c ≡ true
    → record x { last_transition_time = c.last_transition_time } ≡ c
unfolding has_same_state
same_state x c e = ground (
  arith,
  eq_iff x.type c.type,
  eq_iff x.status c.status,
  eq_iff x.reason c.reason,
  eq_iff x.severity c.severity,
  eq_iff x.message c.message,
)

has_same_state_refl : (c : MachineCondition) → has_same_state c c ≡ true
unfolding has_same_state
has_same_state_refl c =
    rw (eq_refl c.type, eq_refl c.status, eq_refl c.reason, eq_refl c.severity, eq_refl c.message)
      refl

other_state :
    (x c : MachineCondition)
    → has_same_state x c ≡ false
    → record x { last_transition_time = c.last_transition_time } ≢ c
unfolding has_same_state
other_state x c e same =
    let again : has_same_state (record x { last_transition_time = c.last_transition_time }) c
        ≡ true =
      subst (λ (y : MachineCondition). has_same_state y c ≡ true) (sym same)
        (has_same_state_refl c) in
    cc (e, again)

first_of-IsCurrent :
    (now : ℤ) (c : MachineCondition) (cs : List MachineCondition)
    → IsCurrent now c (first cs) (first (first_of now c cs))
first_of-IsCurrent now c [] = added
first_of-IsCurrent now c (x ∷ xs) = elim (Bool-cases (has_same_state x c)) [
  | inl same ↦ rw same (kept (same_state x c same))
  | inr other ↦ rw other (changed (other_state x c other))
]

first_of-length :
    (now : ℤ) (c : MachineCondition) (cs : List MachineCondition)
    → length cs ≤ 1
    → length (first_of now c cs) ≤ 1
first_of-length now c [] h = omega arith
first_of-length now c (x ∷ xs) h = ground arith

-- When at most one condition has each type, this is so after SetMachineCondition too. Then the condition of the type
-- that is set is left as it was if it is in the same state but for its time, is the new one at the current
-- second if it was in another state or missing, and no other type's condition has changed.
pub set_machine_condition_unique :
    (now : ℤ) (c : MachineCondition) (cs : List MachineCondition)
    → AreUnique cs
    → let result = set_machine_condition now c cs in
      AreUnique result
      × IsCurrent now c (first_with c.type cs) (first_with c.type result)
      × ((type : String) → type ≢ c.type → first_with type result ≡ first_with type cs)
set_machine_condition_unique now c cs unique =
    let (own, others) = set_machine_condition-first_of now c cs in
    let others' = λ (type : String) (ne : type ≢ c.type). others type (differs type ne) in
    (
      λ type. elim (Bool-cases (c.type == type)) [
        | inr other ↦ subst (λ l. length l ≤ 1) (sym (others type other)) (unique type)
        | inl same ↦
            subst (λ t. length (of_type t (set_machine_condition now c cs)) ≤ 1) (equal type same)
              (subst (λ l. length l ≤ 1) (sym own) (first_of-length now c _ (unique c.type)))
      ],
      subst (λ l. IsCurrent now c (first_with c.type cs) (first l)) (sym own)
          (first_of-IsCurrent now c (of_type c.type cs)),
      λ type ne. ap first (others' type ne),
    )
  where
    differs : (type : String) → type ≢ c.type → (c.type == type) ≡ false
    differs type ne = ground (arith, eq_iff c.type type)

    equal : (type : String) → (c.type == type) ≡ true → c.type ≡ type
    equal type e = ground (arith, eq_iff c.type type)
