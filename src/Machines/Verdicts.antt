-- ===== src/Machines/Verdicts.antt =====
-- What checkHealth makes of the targets, and when it asks to be called again.
use node_healthcheck_operato.Prelude.{
  ℤ, pos, ◌+ℤ◌, ◌-ℤ◌, ◌≤ℤ◌, ◌<ℤ◌, ltb_ℤ, eqb_ℤ, second, Bool, true, false, ◌&&◌, not, some, List,
  [], ◌∷◌, ◌++◌, filter, if◌then◌else◌, In, head, tail, ◌≡◌, refl, sym, ap, ◌∙◌, arith, int_laws,
  Bool-cases, inl, inr, lt→ltb, le→not-ltb,
}
use mathlib.Core.Path.{subst}
use node_healthcheck_operato.Requeue.{min_requeue_duration}
use node_healthcheck_operato.Machines.Health.{
  Target, no_node_ref, get_node_startup_timeout, is_failed, of_node, Verdict, without_node,
  needs_remediation, CheckedHealth, classify, check_targets, check_health,
}

-- The three classes.
abbrev pub is_unhealthy : ℤ → Target → Bool
is_unhealthy now t = (needs_remediation now t).0

abbrev pub is_pending : ℤ → Target → Bool
is_pending now t = not (needs_remediation now t).0 && ltb_ℤ (pos 0) (needs_remediation now t).1

abbrev pub is_fine : ℤ → Target → Bool
is_fine now t = not (needs_remediation now t).0 && not (ltb_ℤ (pos 0) (needs_remediation now t).1)

append_cons : (xs ys : List Target) (t : Target) → (xs ++ t ∷ []) ++ ys ≡ xs ++ t ∷ ys
append_cons [] ys t = refl
append_cons (x ∷ xs) ys t = ap (λ l. x ∷ l) (append_cons xs ys t)

append_nil : (xs : List Target) → xs ++ [] ≡ xs
append_nil [] = refl
append_nil (x ∷ xs) = ap (λ l. x ∷ l) (append_nil xs)

-- One target, before the rest of the loop.
classify-classes :
    (v : Verdict) (t : Target) (acc : CheckedHealth) (rest : List Target)
    → ((classify v t acc).need_remediation ++ rest
        ≡ acc.need_remediation ++ (if v.0 then t ∷ rest else rest))
      × ((classify v t acc).healthy ++ rest
          ≡ acc.healthy ++ (if not v.0 && not (ltb_ℤ (pos 0) v.1) then t ∷ rest else rest))
classify-classes (true, r) t acc rest = (append_cons acc.need_remediation rest t, refl)
classify-classes (false, r) t acc rest = elim (Bool-cases (ltb_ℤ (pos 0) r)) [
  | inl pending ↦ rw pending (refl, refl)
  | inr fine ↦ rw fine (refl, append_cons acc.healthy rest t)
]

targets-classes :
    (now : ℤ) (ts : List Target) (acc : CheckedHealth)
    → ((check_targets now ts acc).need_remediation
        ≡ acc.need_remediation ++ filter (is_unhealthy now) ts)
      × ((check_targets now ts acc).healthy ≡ acc.healthy ++ filter (is_fine now) ts)
unfolding check_targets
targets-classes now [] acc = (sym (append_nil acc.need_remediation), sym (append_nil acc.healthy))
targets-classes now (t ∷ ts) acc =
    let v = needs_remediation now t in
    let step = targets-classes now ts (classify v t acc) in
    (
      step.0 ∙ (classify-classes v t acc (filter (is_unhealthy now) ts)).0,
      step.1 ∙ (classify-classes v t acc (filter (is_fine now) ts)).1,
    )

-- checkHealth returns, in the order of the targets, exactly those that need remediation, and as healthy
-- ones exactly those that neither need it nor are to be looked at again later.
pub check_health-classes :
    (now : ℤ) (ts : List Target)
    → ((check_health now ts).need_remediation ≡ filter (is_unhealthy now) ts)
      × ((check_health now ts).healthy ≡ filter (is_fine now) ts)
unfolding check_health
check_health-classes now ts =
    targets-classes now ts (record { healthy = []; need_remediation = []; requeue_in = pos 0 })

-- The time of the next check so far: 0, or a positive one.
classify-requeue :
    (v : Verdict) (t : Target) (acc : CheckedHealth)
    → pos 0 ≤ℤ acc.requeue_in
    → pos 0 ≤ℤ (classify v t acc).requeue_in
unfolding min_requeue_duration
classify-requeue (true, r) t acc h = h
classify-requeue (false, r) t acc h = ground arith

-- It is positive and at most `bound`.
abbrev IsWithin : ℤ → CheckedHealth → Type 0
IsWithin bound acc = (pos 0 <ℤ acc.requeue_in) × (acc.requeue_in ≤ℤ bound)

classify-IsWithin :
    (v : Verdict) (t : Target) (acc : CheckedHealth) (bound : ℤ)
    → IsWithin bound acc
    → IsWithin bound (classify v t acc)
unfolding min_requeue_duration
classify-IsWithin (true, r) t acc bound w = w
classify-IsWithin (false, r) t acc bound w = ground arith

pending-IsWithin :
    (v : Verdict) (t : Target) (acc : CheckedHealth)
    → pos 0 ≤ℤ acc.requeue_in
    → (not v.0 && ltb_ℤ (pos 0) v.1) ≡ true
    → IsWithin v.1 (classify v t acc)
unfolding min_requeue_duration
pending-IsWithin (true, r) t acc h p = cc
pending-IsWithin (false, r) t acc h p = ground arith

targets-IsWithin :
    (now : ℤ) (ts : List Target) (acc : CheckedHealth) (bound : ℤ)
    → IsWithin bound acc
    → IsWithin bound (check_targets now ts acc)
unfolding check_targets
targets-IsWithin now [] acc bound w = w
targets-IsWithin now (t ∷ ts) acc bound w =
    let v = needs_remediation now t in
    targets-IsWithin now ts (classify v t acc) bound (classify-IsWithin v t acc bound w)

targets-early :
    (now : ℤ) (ts : List Target) (acc : CheckedHealth) (t : Target)
    → pos 0 ≤ℤ acc.requeue_in
    → In t ts
    → is_pending now t ≡ true
    → IsWithin (needs_remediation now t).1 (check_targets now ts acc)
unfolding check_targets
targets-early now [] acc t h i p = elim i [ ]
targets-early now (first ∷ ts) acc t h (head e) p =
    let v = needs_remediation now first in
    subst
      (λ (x : Target).
        IsWithin (needs_remediation now x).1 (check_targets now ts (classify v first acc)))
      (sym e)
      (targets-IsWithin now ts (classify v first acc) v.1
        (pending-IsWithin v first acc h (subst (λ (x : Target). is_pending now x ≡ true) e p)))
targets-early now (first ∷ ts) acc t h (tail i) p =
    let v = needs_remediation now first in
    targets-early now ts (classify v first acc) t (classify-requeue v first acc h) i p

-- The time after which checkHealth asks to be called again is positive and no later than the one of any
-- target that is not unhealthy yet.
pub check_health-in_time :
    (now : ℤ) (ts : List Target) (t : Target)
    → In t ts
    → is_pending now t ≡ true
    → (pos 0 <ℤ (check_health now ts).requeue_in)
      × ((check_health now ts).requeue_in ≤ℤ (needs_remediation now t).1)
unfolding check_health
check_health-in_time now ts t i p =
    targets-early now ts (record { healthy = []; need_remediation = []; requeue_in = pos 0 }) t
      (omega arith) i p

starting :
    (now : ℤ) (t : Target) (updated : ℤ)
    → is_failed t.machine ≡ false
    → t.node ≡ no_node_ref
    → t.machine.last_updated ≡ some updated
    → eqb_ℤ (get_node_startup_timeout t.mhc) (pos 0) ≡ false
    → let timeout = get_node_startup_timeout t.mhc in
      needs_remediation now t ≡ (
        if ltb_ℤ (updated +ℤ timeout) now
        then (true, pos 0)
        else (false, timeout -ℤ (now -ℤ updated) +ℤ second))
unfolding needs_remediation of_node without_node
starting now t updated alive bare since limited =
    rw (alive, needs_remediation) (rw (bare, of_node) (rw (since, without_node) (rw limited refl)))

-- A machine that has not failed, has no node, and was updated at some time, with a timeout for the start of
-- nodes that is not 0: as long as the timeout is not over, checkHealth is to be called again after a
-- positive time, at which the machine needs remediation if nothing has changed.
pub startup-in_time :
    (now : ℤ) (t : Target) (updated : ℤ)
    → is_failed t.machine ≡ false
    → t.node ≡ no_node_ref
    → t.machine.last_updated ≡ some updated
    → eqb_ℤ (get_node_startup_timeout t.mhc) (pos 0) ≡ false
    → now ≤ℤ updated +ℤ get_node_startup_timeout t.mhc
    → let wish = (needs_remediation now t).1 in
      ((needs_remediation now t).0 ≡ false)
      × (pos 0 <ℤ wish)
      × ((needs_remediation (now +ℤ wish) t).0 ≡ true)
startup-in_time now t updated alive bare since limited young =
    let timeout = get_node_startup_timeout t.mhc in
    let wish = timeout -ℤ (now -ℤ updated) +ℤ second in
    let not_yet : ltb_ℤ (updated +ℤ timeout) now ≡ false = le→not-ltb _ _ young in
    let then_over : ltb_ℤ (updated +ℤ timeout) (now +ℤ wish) ≡ true = lt→ltb _ _ (omega int_laws) in
    let waits : needs_remediation now t ≡ (false, wish) =
      starting now t updated alive bare since limited ∙ rw not_yet refl in
    let ends : needs_remediation (now +ℤ wish) t ≡ (true, pos 0) =
      starting (now +ℤ wish) t updated alive bare since limited ∙ rw then_over refl in
    rw waits (refl, omega int_laws, rw ends refl)
