-- ===== src/Health/Pending.antt =====
-- When matchesUnhealthyConditions asks to be called again.
use node_healthcheck_operato.Prelude.{
  ℤ, pos, ◌+ℤ◌, ◌-ℤ◌, ◌≤ℤ◌, ◌<ℤ◌, ltb_ℤ, second, true, false, Option, none, some, List, [], ◌∷◌,
  ◌≡◌, ◌⊎◌, inl, inr, refl, arith, int_laws, Bool-cases, Option-cases, not-ltb→le, ltb→lt, ap,
}
use node_healthcheck_operato.Api.{Node, NodeCondition, UnhealthyCondition, NodeHealthCheck}
use node_healthcheck_operato.Requeue.{min_requeue_duration}
use node_healthcheck_operato.Health.{expiry, matches_loop, matches_unhealthy_conditions}
use node_healthcheck_operato.Health.Matching.{
  Expired, this, later, matches_loop-absent, matches_loop-over, matches_loop-pending,
  matches_unhealthy_conditions-Expired,
}

-- A wait that is set, positive and at most `bound`.
abbrev IsWithin : ℤ → Option ℤ → Type 0
IsWithin bound none = ⊥
IsWithin bound (some r) = (pos 0 <ℤ r) × (r ≤ℤ bound)

abbrev IsUsable : Option ℤ → Type 0
IsUsable none = Unit
IsUsable (some r) = pos 0 <ℤ r

min_requeue-new :
    (acc : Option ℤ) (w : ℤ)
    → IsUsable acc
    → pos 0 <ℤ w
    → IsWithin w (min_requeue_duration acc (some w))
unfolding min_requeue_duration
min_requeue-new none w u h = ground arith
min_requeue-new (some a) w u h = ground arith

min_requeue-old :
    (acc : Option ℤ) (w b : ℤ)
    → IsWithin b acc
    → pos 0 <ℤ w
    → IsWithin b (min_requeue_duration acc (some w))
unfolding min_requeue_duration
min_requeue-old none w b u h = absurd u
min_requeue-old (some a) w b u h = ground arith

min_requeue-IsUsable :
    (acc : Option ℤ) (w : ℤ)
    → IsUsable acc
    → pos 0 <ℤ w
    → IsUsable (min_requeue_duration acc (some w))
unfolding min_requeue_duration
min_requeue-IsUsable none w u h = ground arith
min_requeue-IsUsable (some a) w u h = ground arith

IsWithin-mono : (o : Option ℤ) (b b' : ℤ) → b ≤ℤ b' → IsWithin b o → IsWithin b' o
IsWithin-mono none b b' h w = w
IsWithin-mono (some r) b b' h w = omega arith

min_requeue-or :
    (acc : Option ℤ) (w r : ℤ)
    → min_requeue_duration acc (some w) ≡ some r
    → (acc ≡ some r) ⊎ (w ≡ r)
unfolding min_requeue_duration
min_requeue-or none w r h = ground arith
min_requeue-or (some a) w r h = ground arith

wait_positive : (now end : ℤ) → ltb_ℤ end now ≡ false → pos 0 <ℤ end -ℤ now +ℤ second
wait_positive now end h = omega (int_laws, not-ltb→le _ _ h)

module _ (now : ℤ) (conditions : List NodeCondition) where
  -- The loop never asks for more time than it has already decided to.
  matches_loop-IsWithin :
      (b : ℤ) (cs : List UnhealthyCondition) (acc : Option ℤ)
      → IsWithin b acc
      → (matches_loop now conditions acc cs).0 ≡ false
      → IsWithin b (matches_loop now conditions acc cs).1
  unfolding matches_loop
  matches_loop-IsWithin b [] acc u h = u
  matches_loop-IsWithin b (c ∷ cs) acc u h = elim (Option-cases (expiry conditions c)) [
    | inl e ↦
        let step = matches_loop-absent now conditions acc c cs e in
        rw step (matches_loop-IsWithin b cs acc u (rw step at h))
    | inr (end, e) ↦ elim (Bool-cases (ltb_ℤ end now)) [
      | inl over ↦ cc (matches_loop-over now conditions acc c cs e (ltb→lt _ _ over))
      | inr more ↦
          let step = matches_loop-pending now conditions acc c cs e more in
          rw step (
            matches_loop-IsWithin b cs _ (min_requeue-old acc _ b u (wait_positive now end more))
              (rw step at h))
    ]
  ]

  -- If the conditions match at `t`, the loop has asked to be called by then.
  Expired-IsWithin :
      (t : ℤ) (cs : List UnhealthyCondition) (acc : Option ℤ)
      → IsUsable acc
      → (matches_loop now conditions acc cs).0 ≡ false
      → Expired t conditions cs
      → IsWithin (t -ℤ now +ℤ second) (matches_loop now conditions acc cs).1
  Expired-IsWithin t [] acc u h x = elim x [ ]
  Expired-IsWithin t (c ∷ cs) acc u h (this end e lt) = elim (Bool-cases (ltb_ℤ end now)) [
    | inl over ↦ cc (matches_loop-over now conditions acc c cs e (ltb→lt _ _ over))
    | inr more ↦
        let step = matches_loop-pending now conditions acc c cs e more in
        let wait = end -ℤ now +ℤ second in
        rw step (
          IsWithin-mono _ wait _ (omega int_laws) (
            matches_loop-IsWithin wait cs _
              (min_requeue-new acc wait u (wait_positive now end more)) (rw step at h)))
  ]
  Expired-IsWithin t (c ∷ cs) acc u h (later x) = elim (Option-cases (expiry conditions c)) [
    | inl e ↦
        let step = matches_loop-absent now conditions acc c cs e in
        rw step (Expired-IsWithin t cs acc u (rw step at h) x)
    | inr (end, e) ↦ elim (Bool-cases (ltb_ℤ end now)) [
      | inl over ↦ cc (matches_loop-over now conditions acc c cs e (ltb→lt _ _ over))
      | inr more ↦
          let step = matches_loop-pending now conditions acc c cs e more in
          rw step (
            Expired-IsWithin t cs _ (min_requeue-IsUsable acc _ u (wait_positive now end more))
              (rw step at h) x)
    ]
  ]

  -- A wait that the loop asks for is one that it started with, or ends in a match.
  matches_loop-reaches :
      (r : ℤ) (cs : List UnhealthyCondition) (acc : Option ℤ)
      → matches_loop now conditions acc cs ≡ (false, some r)
      → (acc ≡ some r) ⊎ Expired (now +ℤ r) conditions cs
  unfolding matches_loop
  matches_loop-reaches r [] acc h = inl (ap (λ p. p.1) h)
  matches_loop-reaches r (c ∷ cs) acc h = elim (Option-cases (expiry conditions c)) [
    | inl e ↦
        Or-later
          (matches_loop-reaches r cs acc (rw (matches_loop-absent now conditions acc c cs e) at h))
    | inr (end, e) ↦ elim (Bool-cases (ltb_ℤ end now)) [
      | inl over ↦ cc (matches_loop-over now conditions acc c cs e (ltb→lt _ _ over))
      | inr more ↦ reached end e (
          matches_loop-reaches r cs (min_requeue_duration acc (some (end -ℤ now +ℤ second)))
            (rw (matches_loop-pending now conditions acc c cs e more) at h))
    ]
  ]
    where
      Or-later :
          (acc ≡ some r) ⊎ Expired (now +ℤ r) conditions cs
          → (acc ≡ some r) ⊎ Expired (now +ℤ r) conditions (c ∷ cs)
      Or-later (inl p) = inl p
      Or-later (inr x) = inr (later x)

      from_wait :
          (end : ℤ)
          → expiry conditions c ≡ some end
          → (acc ≡ some r) ⊎ (end -ℤ now +ℤ second ≡ r)
          → (acc ≡ some r) ⊎ Expired (now +ℤ r) conditions (c ∷ cs)
      from_wait end e (inl p) = inl p
      from_wait end e (inr p) = inr (this end e (rw (← p) (omega int_laws)))

      reached :
          (end : ℤ)
          → expiry conditions c ≡ some end
          → (min_requeue_duration acc (some (end -ℤ now +ℤ second)) ≡ some r)
            ⊎ Expired (now +ℤ r) conditions cs
          → (acc ≡ some r) ⊎ Expired (now +ℤ r) conditions (c ∷ cs)
      reached end e (inl p) = from_wait end e (min_requeue-or acc _ r p)
      reached end e (inr x) = inr (later x)

from_none : {r : ℤ} {P : Type 0} → (none ≡ some r) ⊎ P → P
from_none (inl h) = cc
from_none (inr p) = p

-- A node that is healthy at `now` and for which the code asks to be called again after `r` counts
-- as unhealthy at that time, if its conditions stay as they are.
pub requeue_reaches_match :
    (now r : ℤ) (nhc : NodeHealthCheck) (node : Node)
    → matches_unhealthy_conditions now nhc node ≡ (false, some r)
    → (matches_unhealthy_conditions (now +ℤ r) nhc node).0 ≡ true
unfolding matches_unhealthy_conditions
requeue_reaches_match now r nhc node h =
    (matches_unhealthy_conditions-Expired (now +ℤ r) nhc node).1
      (from_none (matches_loop-reaches now node.conditions r nhc.spec.unhealthy_conditions none h))

-- If a node is healthy at `now`, and its conditions unchanged make it unhealthy at `t`, then the
-- code has asked to be called again, after a positive time that ends at most one second after
-- `t`.
pub requeue_in_time :
    (now t : ℤ) (nhc : NodeHealthCheck) (node : Node)
    → (matches_unhealthy_conditions now nhc node).0 ≡ false
    → (matches_unhealthy_conditions t nhc node).0 ≡ true
    → (r : ℤ) × ((matches_unhealthy_conditions now nhc node).1 ≡ some r)
      × (pos 0 <ℤ r)
      × (now +ℤ r ≤ℤ t +ℤ second)
unfolding matches_unhealthy_conditions
requeue_in_time now t nhc node healthy unhealthy = unpack _ refl (
    Expired-IsWithin now node.conditions t nhc.spec.unhealthy_conditions none tt healthy
      ((matches_unhealthy_conditions-Expired t nhc node).0 unhealthy))
  where
    unpack :
        (o : Option ℤ)
        → (matches_unhealthy_conditions now nhc node).1 ≡ o
        → IsWithin (t -ℤ now +ℤ second) o
        → (r : ℤ) × ((matches_unhealthy_conditions now nhc node).1 ≡ some r)
          × (pos 0 <ℤ r)
          × (now +ℤ r ≤ℤ t +ℤ second)
    unpack none e w = absurd w
    unpack (some r) e w = (r, e, w.0, omega (int_laws, w))
