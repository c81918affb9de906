-- ===== src/NodeLease.antt =====
-- The lease of a node under remediation, internal/controller/resources/lease.go: nhcLeaseManager. Every
-- method returns its results and the history with its calls; `now` is the clock reading of the call.
pub mod Secured
use node_healthcheck_operato.Prelude.{
  ℤ, pos, ◌+ℤ◌, ◌*ℤ◌, ltb_ℤ, minute, second, String, Bool, true, false, Option, none, some, ◌∷◌,
  if◌then◌else◌, ◌==◌, not,
}
use node_healthcheck_operato.Cluster.{
  Error, not_found, already_held, lease_over_due, other, panicked, is_not_found, is_already_held,
  Answer, ok, failed, Lease, Call, get_node, request_lease, get_lease, invalidate_lease, History,
  Environment,
}

-- RequeueIfLeaseTaken and LeaseBuffer.
abbrev pub requeue_if_lease_taken : ℤ
requeue_if_lease_taken = minute

abbrev pub lease_buffer : ℤ
lease_buffer = minute

-- isLeaseOwner.
abbrev pub is_lease_owner : String → Lease → Bool
is_lease_owner holder lease = elim lease.holder_identity [
  | none ↦ false
  | some identity ↦ identity == holder
]

-- calcLeaseExpiration, with maxTimesToExtendLease = 2 and one more for the creation.
unfoldable pub calc_lease_expiration : ℤ → ℤ → ℤ → ℤ
calc_lease_expiration acquired current previous =
    acquired +ℤ (current +ℤ current +ℤ current +ℤ previous)

unfoldable pub requested : ℤ → Option Error → Option ℤ × Option Error
requested current none = (some current, none)
requested current (some e) =
    if is_already_held e then (some requeue_if_lease_taken, some e) else (none, some e)

unfoldable pub released : Option Error → ℤ × Option Error
released none = (pos 0, some lease_over_due)
released (some e) = (pos 0, some e)

unfoldable pub renewed : ℤ → Option Error → ℤ × Option Error
renewed current none = (current, none)
renewed current (some e) = (pos 0, some e)

module _ (env : Environment) where
  -- ObtainNodeLease.
  unfoldable pub obtain_node_lease : String → ℤ → History → (Option ℤ × Option Error) × History
  unfolding requested
  obtain_node_lease node current h = elim (env.on_get_node h node) [
    | failed e ↦ ((none, some e), get_node node ∷ h)
    | ok n ↦ (
      requested current (env.on_request_lease (get_node node ∷ h) node (current +ℤ lease_buffer)),
      request_lease node (current +ℤ lease_buffer) ∷ get_node node ∷ h,
    )
  ]

  -- The lease is ours and not overdue: it is renewed when it ends before the remediation may.
  unfoldable pub extend : ℤ → String → ℤ → Lease → History → (ℤ × Option Error) × History
  unfolding renewed
  extend now node current lease h = elim lease.renew_time [
    | none ↦ ((pos 0, some panicked), h)
    | some renewed_at ↦ elim lease.lease_duration_seconds [
      | none ↦ ((pos 0, some panicked), h)
      | some seconds ↦
          if ltb_ℤ (renewed_at +ℤ seconds *ℤ second) (now +ℤ current)
          then (
            renewed current (env.on_request_lease h node (current +ℤ lease_buffer)),
            request_lease node (current +ℤ lease_buffer) ∷ h,
          )
          else ((current, none), h)
    ]
  ]

  -- What ManageLease does with the lease that it has got.
  unfoldable pub manage :
      ℤ → String → String → ℤ → ℤ → Lease → History → (ℤ × Option Error) × History
  unfolding released extend calc_lease_expiration
  manage now holder node current previous lease h =
      if not (is_lease_owner holder lease) then ((pos 0, none), h) else elim lease.acquire_time [
        | none ↦ ((pos 0, some (other "lease Spec.AcquireTime is nil")), h)
        | some acquired ↦
            if ltb_ℤ (calc_lease_expiration acquired current previous) now
            then (released (env.on_invalidate_lease h node), invalidate_lease node ∷ h)
            else extend now node current lease h
      ]

  -- ManageLease.
  unfoldable pub manage_lease : ℤ → String → String → ℤ → ℤ → History → (ℤ × Option Error) × History
  unfolding manage
  manage_lease now holder node current previous h = elim (env.on_get_node h node) [
    | failed e ↦ ((pos 0, some e), get_node node ∷ h)
    | ok n ↦
        let h' = get_lease node ∷ get_node node ∷ h in
        elim (env.on_get_lease (get_node node ∷ h) node) [
          | failed e ↦ ((pos 0, if is_not_found e then none else some e), h')
          | ok lease ↦ manage now holder node current previous lease h'
        ]
  ]

  unfoldable pub ignore_already_held : Option Error → Option Error
  ignore_already_held none = none
  ignore_already_held (some e) = if is_already_held e then none else some e

  -- InvalidateLease.
  unfoldable pub invalidate_node_lease : String → History → Option Error × History
  unfolding ignore_already_held
  invalidate_node_lease node h =
      (ignore_already_held (env.on_invalidate_lease h node), invalidate_lease node ∷ h)
