-- ===== src/Health/Lasting.antt =====
-- An unhealthy condition that a node has for too long, said without the code's own look-up.
use node_healthcheck_operato.Prelude.{
  ℤ, ◌+ℤ◌, ◌<ℤ◌, String, true, none, some, List, [], ◌∷◌, All, In, head, tail, ◌==◌, ◌≡◌, ◌≢◌, ◌↔◌,
  refl, arith, eq_iff, Bool-cases, Option-cases, inl, inr,
}
use mathlib.Core.Path.{subst}
use node_healthcheck_operato.Api.{Node, NodeCondition, UnhealthyCondition, NodeHealthCheck}
use node_healthcheck_operato.Health.{node_condition_by_type, expiry, matches_unhealthy_conditions}
use node_healthcheck_operato.Health.Matching.{
  Expired, this, later, matches_unhealthy_conditions-Expired,
}

-- The last condition of a type.
pub data Latest (type : String) (nc : NodeCondition) : List NodeCondition → Type 0 where
  last :
      {ncs : List NodeCondition}
      → nc.type ≡ type
      → All (λ (x : NodeCondition). x.type ≢ type) ncs
      → Latest type nc (nc ∷ ncs)
  further :
      {x : NodeCondition} {ncs : List NodeCondition} → Latest type nc ncs → Latest type nc (x ∷ ncs)

-- The node is in the status of the unhealthy condition, and has been for longer than its duration.
pub record HasLasted (now : ℤ) (conditions : List NodeCondition) (c : UnhealthyCondition)
    : Type 0 where
  pub condition : NodeCondition
  pub latest : Latest c.type condition conditions
  pub in_status : condition.status ≡ c.status
  pub too_long : condition.last_transition_time +ℤ c.duration <ℤ now

by_type-none :
    (type : String) (ncs : List NodeCondition)
    → All (λ (x : NodeCondition). x.type ≢ type) ncs
    → node_condition_by_type ncs type ≡ none
by_type-none type [] a = refl
by_type-none type (x ∷ xs) a =
    rw (by_type-none type xs a.1) (ground (arith, eq_iff x.type type, a.0))

All-by_type :
    (type : String) (ncs : List NodeCondition)
    → node_condition_by_type ncs type ≡ none
    → All (λ (x : NodeCondition). x.type ≢ type) ncs
All-by_type type [] h = tt
All-by_type type (x ∷ xs) h = elim (Option-cases (node_condition_by_type xs type)) [
  | inr (nc, e) ↦ cc (rw e at h)
  | inl e ↦ (ground (arith, eq_iff x.type type, rw e at h), All-by_type type xs e)
]

Latest-by_type :
    (type : String) (nc : NodeCondition) (ncs : List NodeCondition)
    → Latest type nc ncs
    → node_condition_by_type ncs type ≡ some nc
Latest-by_type type nc _ (last {ncs} e a) =
    rw (by_type-none type ncs a) (ground (arith, eq_iff nc.type type))
Latest-by_type type nc _ (further {x} {ncs} l) = rw (Latest-by_type type nc ncs l)

by_type-Latest :
    (type : String) (nc : NodeCondition) (ncs : List NodeCondition)
    → node_condition_by_type ncs type ≡ some nc
    → Latest type nc ncs
by_type-Latest type nc [] h = cc
by_type-Latest type nc (x ∷ xs) h = elim (Option-cases (node_condition_by_type xs type)) [
  | inr (nc', e) ↦ further (by_type-Latest type nc xs (ground (arith, e, rw e at h)))
  | inl e ↦
      let found : x.type ≡ type = ground (arith, eq_iff x.type type, rw e at h) in
      let same : x ≡ nc = ground (arith, rw e at h) in
      subst (λ (y : NodeCondition). Latest type y (x ∷ xs)) same
        (last found (All-by_type type xs e))
]

module _ (now : ℤ) (conditions : List NodeCondition) where
  HasLasted-expiry :
      (c : UnhealthyCondition) (l : HasLasted now conditions c)
      → expiry conditions c ≡ some (l.condition.last_transition_time +ℤ c.duration)
  unfolding expiry
  HasLasted-expiry c l =
      rw (Latest-by_type c.type l.condition conditions l.latest)
        (ground (arith, l.in_status, eq_iff l.condition.status c.status))

  expiry-HasLasted :
      (c : UnhealthyCondition) (end : ℤ)
      → expiry conditions c ≡ some end
      → end <ℤ now
      → HasLasted now conditions c
  unfolding expiry
  expiry-HasLasted c end e over = elim (Option-cases (node_condition_by_type conditions c.type)) [
    | inl missing ↦ cc (rw missing at e)
    | inr (nc, found) ↦ elim (Bool-cases (nc.status == c.status)) [
      | inr differs ↦ cc (rw differs at (rw found at e))
      | inl same ↦ record {
        condition = nc;
        latest = by_type-Latest c.type nc conditions found;
        in_status = ground (arith, eq_iff nc.status c.status);
        too_long = ground (arith, rw same at (rw found at e));
      }
    ]
  ]

  lasted-Expired :
      (c : UnhealthyCondition) (cs : List UnhealthyCondition)
      → In c cs
      → HasLasted now conditions c
      → Expired now conditions cs
  lasted-Expired c [] i l = elim i [ ]
  lasted-Expired c (x ∷ xs) (tail i) l = later (lasted-Expired c xs i l)
  lasted-Expired c (x ∷ xs) (head e) l =
      subst (λ (y : UnhealthyCondition). Expired now conditions (y ∷ xs)) e
        (this _ (HasLasted-expiry c l) l.too_long)

  Expired-lasted :
      (cs : List UnhealthyCondition)
      → Expired now conditions cs
      → (c : UnhealthyCondition) × In c cs × HasLasted now conditions c
  Expired-lasted [] x = elim x [ ]
  Expired-lasted (c ∷ cs) (this end e over) = (c, head refl, expiry-HasLasted c end e over)
  Expired-lasted (c ∷ cs) (later x) = let (c', i, l) = Expired-lasted cs x in (c', tail i, l)

-- A node counts as unhealthy exactly when for one of the configured conditions, whichever it is, the
-- node's last condition of its type is in the configured status and has been for longer than the
-- configured duration.
pub matches_unhealthy_conditions_iff :
    (now : ℤ) (nhc : NodeHealthCheck) (node : Node)
    → ((matches_unhealthy_conditions now nhc node).0 ≡ true) ↔ (
        (c : UnhealthyCondition) × In c nhc.spec.unhealthy_conditions
        × HasLasted now node.conditions c)
matches_unhealthy_conditions_iff now nhc node =
    let expired = matches_unhealthy_conditions-Expired now nhc node in
    let cs = nhc.spec.unhealthy_conditions in
    (
      λ h. Expired-lasted now node.conditions cs (expired.0 h),
      λ (c, i, l). expired.1 (lasted-Expired now node.conditions c cs i l),
    )
