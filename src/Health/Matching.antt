-- ===== src/Health/Matching.antt =====
-- What matchesUnhealthyConditions decides, and when it asks to be called again.
use node_healthcheck_operato.Prelude.{
  ℤ, ◌+ℤ◌, ◌-ℤ◌, ◌<ℤ◌, ltb_ℤ, second, true, false, Option, none, some, List, [], ◌∷◌, ◌≡◌, ◌↔◌, inl,
  inr, Bool-cases, Option-cases, ltb→lt, lt→ltb,
}
use node_healthcheck_operato.Api.{Node, NodeCondition, UnhealthyCondition, NodeHealthCheck}
use node_healthcheck_operato.Requeue.{min_requeue_duration}
use node_healthcheck_operato.Health.{expiry, matches_loop, matches_unhealthy_conditions}

-- Some unhealthy condition that the node has lasted longer than its duration.
pub data Expired (now : ℤ) (conditions : List NodeCondition)
    : List UnhealthyCondition → Type 0 where
  this :
      {c : UnhealthyCondition} {cs : List UnhealthyCondition} (end : ℤ)
      → expiry conditions c ≡ some end
      → end <ℤ now
      → Expired now conditions (c ∷ cs)
  later :
      {c : UnhealthyCondition} {cs : List UnhealthyCondition}
      → Expired now conditions cs
      → Expired now conditions (c ∷ cs)

module _ (now : ℤ) (conditions : List NodeCondition) (acc : Option ℤ) (c : UnhealthyCondition)
    (cs : List UnhealthyCondition) where
  pub matches_loop-absent :
      expiry conditions c ≡ none
      → matches_loop now conditions acc (c ∷ cs) ≡ matches_loop now conditions acc cs
  unfolding matches_loop
  matches_loop-absent e = rw (e, matches_loop)

  pub matches_loop-over :
      {end : ℤ}
      → expiry conditions c ≡ some end
      → end <ℤ now
      → matches_loop now conditions acc (c ∷ cs) ≡ (true, none)
  unfolding matches_loop
  matches_loop-over e over = rw (e, matches_loop) (rw (lt→ltb _ _ over))

  pub matches_loop-pending :
      {end : ℤ}
      → expiry conditions c ≡ some end
      → ltb_ℤ end now ≡ false
      → matches_loop now conditions acc (c ∷ cs)
        ≡ matches_loop now conditions (min_requeue_duration acc (some (end -ℤ now +ℤ second))) cs
  unfolding matches_loop
  matches_loop-pending e more = rw (e, matches_loop) (rw more)

pub matches-Expired :
    (now : ℤ) (conditions : List NodeCondition) (acc : Option ℤ) (cs : List UnhealthyCondition)
    → (matches_loop now conditions acc cs).0 ≡ true
    → Expired now conditions cs
unfolding matches_loop
matches-Expired now conditions acc [] h = cc
matches-Expired now conditions acc (c ∷ cs) h = elim (Option-cases (expiry conditions c)) [
  | inl e ↦ later (
      matches-Expired now conditions acc cs
        (rw (matches_loop-absent now conditions acc c cs e) at h))
  | inr (end, e) ↦ elim (Bool-cases (ltb_ℤ end now)) [
    | inl over ↦ this end e (ltb→lt _ _ over)
    | inr more ↦ later (
        matches-Expired now conditions (min_requeue_duration acc (some (end -ℤ now +ℤ second))) cs
          (rw (matches_loop-pending now conditions acc c cs e more) at h))
  ]
]

pub Expired-matches :
    (now : ℤ) (conditions : List NodeCondition) (acc : Option ℤ) (cs : List UnhealthyCondition)
    → Expired now conditions cs
    → (matches_loop now conditions acc cs).0 ≡ true
Expired-matches now conditions acc [] x = elim x [ ]
Expired-matches now conditions acc (c ∷ cs) (this end e over) =
    rw (matches_loop-over now conditions acc c cs e over)
Expired-matches now conditions acc (c ∷ cs) (later x) = elim (Option-cases (expiry conditions c)) [
  | inl e ↦
      rw (matches_loop-absent now conditions acc c cs e) (Expired-matches now conditions acc cs x)
  | inr (end, e) ↦ elim (Bool-cases (ltb_ℤ end now)) [
    | inl over ↦ rw (matches_loop-over now conditions acc c cs e (ltb→lt _ _ over))
    | inr more ↦ rw (matches_loop-pending now conditions acc c cs e more) (
        Expired-matches now conditions (min_requeue_duration acc (some (end -ℤ now +ℤ second))) cs
          x)
  ]
]

-- matchesUnhealthyConditions, in terms of the end of the durations.
pub matches_unhealthy_conditions-Expired :
    (now : ℤ) (nhc : NodeHealthCheck) (node : Node)
    → ((matches_unhealthy_conditions now nhc node).0 ≡ true)
      ↔ Expired now node.conditions nhc.spec.unhealthy_conditions
unfolding matches_unhealthy_conditions
matches_unhealthy_conditions-Expired now nhc node = (
  matches-Expired now node.conditions none nhc.spec.unhealthy_conditions,
  Expired-matches now node.conditions none nhc.spec.unhealthy_conditions,
)
