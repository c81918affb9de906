-- ===== src/Storm/Quiet.antt =====
-- Runs of storm recovery: remediation comes back only after a quiet cooldown.
use node_healthcheck_operato.Prelude.{
  ℤ, ◌+ℤ◌, ◌-ℤ◌, ltb_ℤ, Bool-cases, inl, inr, not-ltb→le, ◌≤ℤ◌, Bool, true, false, List, [], ◌∷◌,
  some, ◌≡◌, refl, arith, int_laws, ap, sym, ◌∙◌,
}
use node_healthcheck_operato.Api.{NodeHealthCheck}
use node_healthcheck_operato.Conditions.{ConditionMeta}
use node_healthcheck_operato.Storm.Machine.{Phase, calm, storm, cooling, machine_step, phase}
use node_healthcheck_operato.Storm.Evaluate.{evaluate_storm_recovery}
use node_healthcheck_operato.Storm.Refinement.{evaluate-machine_step, evaluate-spec}

-- One evaluation: its time, and whether the healthy nodes were below the threshold.
abbrev pub Evaluation : Type 0
Evaluation = ℤ × Bool

-- The evaluations since `since` were all above the threshold, and the first took place then. The
-- latest stands first.
pub data QuietSince (since : ℤ) : List Evaluation → Type 0 where
  start : {t : ℤ} {es : List Evaluation} → t ≡ since → QuietSince since ((t, false) ∷ es)
  stay : {t : ℤ} {es : List Evaluation} → QuietSince since es → QuietSince since ((t, false) ∷ es)

-- The evaluations end in a quiet period that lasted for the delay.
pub data Recovered (delay : ℤ) : List Evaluation → Type 0 where
  lasted :
      {t since : ℤ} {es : List Evaluation}
      → QuietSince since es
      → since +ℤ delay ≤ℤ t
      → Recovered delay ((t, false) ∷ es)
  more : {t : ℤ} {es : List Evaluation} → Recovered delay es → Recovered delay ((t, false) ∷ es)

-- The NodeHealthCheck after a history of evaluations, the latest first.
unfoldable pub replay : ConditionMeta → NodeHealthCheck → List Evaluation → NodeHealthCheck
replay meta nhc [] = nhc
replay meta nhc ((now, triggered) ∷ es) =
    (evaluate_storm_recovery meta now (replay meta nhc es) triggered).1

-- What a phase says of the history that led to it from a storm.
abbrev Explains : ℤ → List Evaluation → Phase → Type 0
Explains delay es storm = Unit
Explains delay es (cooling since) = QuietSince since es
Explains delay es calm = Recovered delay es

step-Explains :
    (delay now : ℤ) (triggered : Bool) (es : List Evaluation) (p : Phase)
    → Explains delay es p
    → Explains delay ((now, triggered) ∷ es) (machine_step delay now triggered p).1
step-Explains delay now true es p h = tt
step-Explains delay now false es calm h = more h
step-Explains delay now false es storm h = start refl
step-Explains delay now false es (cooling since) h =
    elim (Bool-cases (ltb_ℤ (now -ℤ since) delay)) [
      | inl early ↦ rw early (stay h)
      | inr late ↦ rw late (lasted h (omega (int_laws, not-ltb→le _ _ late)))
    ]

-- The answer of the machine is "go ahead" in the phase calm only.
pub held_unless_calm :
    (delay now : ℤ) (triggered : Bool) (p : Phase)
    → (machine_step delay now triggered p).0.0 ≡ false
    → (machine_step delay now triggered p).1 ≡ calm
held_unless_calm delay now true p h = cc
held_unless_calm delay now false calm h = refl
held_unless_calm delay now false storm h = cc
held_unless_calm delay now false (cooling since) h = ground arith

module _ (meta : ConditionMeta) (delay : ℤ) (nhc : NodeHealthCheck)
    (configured : nhc.spec.storm_cooldown_duration ≡ some delay) where
  replay-spec : (es : List Evaluation) → (replay meta nhc es).spec ≡ nhc.spec
  unfolding replay
  replay-spec [] = refl
  replay-spec ((now, triggered) ∷ es) =
      evaluate-spec meta now (replay meta nhc es) triggered ∙ replay-spec es

  replay-Explains :
      (es : List Evaluation)
      → phase meta nhc.status.conditions ≡ storm
      → Explains delay es (phase meta (replay meta nhc es).status.conditions)
  unfolding replay
  replay-Explains [] h = rw h tt
  replay-Explains ((now, triggered) ∷ es) h =
      rw
        (ap (λ r. r.1)
          (evaluate-machine_step meta now (replay meta nhc es) triggered delay
            (ap (λ s. s.storm_cooldown_duration) (replay-spec es) ∙ configured)))
        (step-Explains delay now triggered es _ (replay-Explains es h))

-- Once a storm is active with a cooldown of `delay`, an evaluation that lets new remediations go
-- ahead ends a history in which, after its last evaluation below the threshold, a quiet period
-- began that has lasted for at least `delay`.
pub storm_held_until_quiet :
    (meta : ConditionMeta) (delay : ℤ) (nhc : NodeHealthCheck)
    → nhc.spec.storm_cooldown_duration ≡ some delay
    → phase meta nhc.status.conditions ≡ storm
    → (es : List Evaluation) (now : ℤ) (triggered : Bool)
    → (evaluate_storm_recovery meta now (replay meta nhc es) triggered).0.0 ≡ false
    → Recovered delay ((now, triggered) ∷ es)
storm_held_until_quiet meta delay nhc configured active es now triggered free =
    let still =
      ap (λ s. s.storm_cooldown_duration) (replay-spec meta delay nhc configured es) ∙ configured in
    let step = evaluate-machine_step meta now (replay meta nhc es) triggered delay still in
    let before = phase meta (replay meta nhc es).status.conditions in
    rw (held_unless_calm delay now triggered before (sym (ap (λ r. r.0.0) step) ∙ free)) at (
      step-Explains delay now triggered es before
        (replay-Explains meta delay nhc configured es active))
