-- ===== src/NodeLease/Secured.antt =====
-- What ManageLease and ObtainNodeLease promise when they report success.
use node_healthcheck_operato.Prelude.{
  ℤ, pos, ◌+ℤ◌, ◌*ℤ◌, ◌≤ℤ◌, ltb_ℤ, minute, second, String, true, none, some, ◌∷◌, ◌≡◌, ◌≢◌, ◌⊎◌,
  inl, inr, arith, Bool-cases, Option-cases, not-ltb→le,
}
use node_healthcheck_operato.Cluster.{
  ok, Lease, get_node, request_lease, get_lease, History, Environment, Answer-cases,
}
use node_healthcheck_operato.NodeLease.{
  is_lease_owner, lease_buffer, calc_lease_expiration, manage, manage_lease, obtain_node_lease,
  requested, extend, renewed,
}

-- The node's lease is held by us, has not been held for too long, and lasts for the duration of the
-- remediation: as it stands, or because a renewal was granted.
pub data IsSecured (env : Environment) (now : ℤ) (holder node : String) (current previous : ℤ)
    (lease : Lease) (h : History) : Type 0 where
  secured :
      {acquired renewed_at seconds : ℤ}
      → is_lease_owner holder lease ≡ true
      → lease.acquire_time ≡ some acquired
      → now ≤ℤ calc_lease_expiration acquired current previous
      → lease.renew_time ≡ some renewed_at
      → lease.lease_duration_seconds ≡ some seconds
      → (now +ℤ current ≤ℤ renewed_at +ℤ seconds *ℤ second)
        ⊎ (env.on_request_lease h node (current +ℤ lease_buffer) ≡ none)
      → IsSecured env now holder node current previous lease h

module _ (env : Environment) (now : ℤ) (holder node : String) (current previous : ℤ) (lease : Lease)
    (h : History) where
  extend-lasts :
      {renewed_at seconds : ℤ}
      → lease.renew_time ≡ some renewed_at
      → lease.lease_duration_seconds ≡ some seconds
      → (extend env now node current lease h).0.1 ≡ none
      → (now +ℤ current ≤ℤ renewed_at +ℤ seconds *ℤ second)
        ⊎ (env.on_request_lease h node (current +ℤ lease_buffer) ≡ none)
  unfolding extend renewed
  extend-lasts r s e = ground arith

  extend-set :
      (extend env now node current lease h).0.1 ≡ none
      → (r : ℤ) × (s : ℤ) × (lease.renew_time ≡ some r) × (lease.lease_duration_seconds ≡ some s)
  unfolding extend
  extend-set e = elim (Option-cases lease.renew_time) [
    | inl none_set ↦ ground arith
    | inr (r, is_set) ↦ elim (Option-cases lease.lease_duration_seconds) [
      | inl none_set' ↦ ground arith
      | inr (s, is_set') ↦ (r, s, is_set, is_set')
    ]
  ]

  manage-ours :
      (manage env now holder node current previous lease h).0 ≡ (current, none)
      → current ≢ pos 0
      → is_lease_owner holder lease ≡ true
  unfolding manage
  manage-ours e positive = elim (Bool-cases (is_lease_owner holder lease)) [
    | inl ours ↦ ours
    | inr theirs ↦ ground arith
  ]

  manage-acquired :
      is_lease_owner holder lease ≡ true
      → (manage env now holder node current previous lease h).0 ≡ (current, none)
      → (a : ℤ) × (lease.acquire_time ≡ some a)
        × (now ≤ℤ calc_lease_expiration a current previous)
        × ((extend env now node current lease h).0.1 ≡ none)
  unfolding manage
  manage-acquired ours e = elim (Option-cases lease.acquire_time) [
    | inl none_set ↦ ground arith
    | inr (a, is_set) ↦ elim (Bool-cases (ltb_ℤ (calc_lease_expiration a current previous) now)) [
      | inl over ↦ elim (Option-cases (env.on_invalidate_lease h node)) [
        | inl done ↦ ground arith
        | inr (err, refused) ↦ ground arith
      ]
      | inr in_time ↦ (a, is_set, not-ltb→le _ _ in_time, ground arith)
    ]
  ]

  manage-IsSecured :
      (manage env now holder node current previous lease h).0 ≡ (current, none)
      → current ≢ pos 0
      → IsSecured env now holder node current previous lease h
  manage-IsSecured e positive =
      let ours = manage-ours e positive in
      let (a, acquired, in_time, extended) = manage-acquired ours e in
      let (r, s, renewed_at, seconds) = extend-set extended in
      secured ours acquired in_time renewed_at seconds (extend-lasts renewed_at seconds extended)

-- If ManageLease reports success with the duration of the remediation, which is not zero, it has got
-- the node's lease, and we hold it, not for longer than three times the duration and the durations
-- before it, and it lasts for the duration: as it stands, or because its renewal was granted.
pub manage_lease-IsSecured :
    (env : Environment) (now : ℤ) (holder node : String) (current previous : ℤ) (h : History)
    → (manage_lease env now holder node current previous h).0 ≡ (current, none)
    → current ≢ pos 0
    → (lease : Lease) × (env.on_get_lease (get_node node ∷ h) node ≡ ok lease)
      × IsSecured env now holder node current previous lease (get_lease node ∷ get_node node ∷ h)
unfolding manage_lease
manage_lease-IsSecured env now holder node current previous h e positive =
    elim (Answer-cases (env.on_get_node h node)) [
      | inl (err, no_node) ↦ absurd (positive (ground arith))
      | inr (n, got) ↦ elim (Answer-cases (env.on_get_lease (get_node node ∷ h) node)) [
        | inl (err, no_lease) ↦ absurd (positive (ground arith))
        | inr (lease, has_lease) ↦ (
          lease,
          has_lease,
          manage-IsSecured env now holder node current previous lease
              (get_lease node ∷ get_node node ∷ h) (ground arith) positive,
        )
      ]
    ]

-- ObtainNodeLease fails, or the lease of the node was granted for the duration of the remediation
-- and a minute more, in its last call.
pub obtain_node_lease-granted :
    (env : Environment) (node : String) (current : ℤ) (h : History)
    → (obtain_node_lease env node current h).0.1 ≡ none
    → let r = obtain_node_lease env node current h in
      (r.0.0 ≡ some current)
      × (r.1 ≡ request_lease node (current +ℤ minute) ∷ get_node node ∷ h)
      × (env.on_request_lease (get_node node ∷ h) node (current +ℤ minute) ≡ none)
unfolding obtain_node_lease requested
obtain_node_lease-granted env node current h e = ground arith
