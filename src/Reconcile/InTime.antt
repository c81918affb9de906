-- ===== src/Reconcile/InTime.antt =====
-- When Reconcile looks again at old remediation CRs, and at CRs that are about to be deleted.
use node_healthcheck_operato.Prelude.{
  ℤ, pos, ◌+ℤ◌, ◌-ℤ◌, ◌≤ℤ◌, ◌<ℤ◌, ltb_ℤ, minute, true, false, Option, some, none, List, [], ◌∷◌,
  ◌≡◌, refl, arith, int_laws, has_key, lookup, insert, is_some, StringMap, String, ◌*◌, ◌≢◌, ◌==◌,
  ap, eq_iff, eq_refl, eq_of_parts, Bool-cases, inl, inr, All, le→not-ltb, lt→ltb,
}
use node_healthcheck_operato.Remediation.{Unstructured}
use node_healthcheck_operato.Requeue.{update_requeue_after}
use node_healthcheck_operato.Cluster.{History, Environment, update_cr}
use node_healthcheck_operato.Reconcile.Alert.{
  alert_old_remediation_cr, remediation_cr_alert_timeout, old_remediation_cr_annotation, flagged,
}
use node_healthcheck_operato.Reconcile.Healthy.{
  pending_crs, pending_deletion, is_recent, log_in, log_when_cr_pending_deletion_duration,
}

lookup-insert_self : (k : String) (m : StringMap) → lookup k (insert k "flagon" m) ≡ some "flagon"
lookup-insert_self k [] = rw (eq_refl k) refl
lookup-insert_self k ((j, w) ∷ m) = elim (Bool-cases (j == k)) [
  | inl same ↦ rw same (rw (eq_refl k) refl)
  | inr other ↦ rw other (rw other (lookup-insert_self k m))
]

lookup-insert_ne :
    (k key : String) (m : StringMap) → k ≢ key → lookup key (insert k "flagon" m) ≡ lookup key m
lookup-insert_ne k key [] ne = ground (arith, eq_iff k key)
lookup-insert_ne k key ((j, w) ∷ m) ne =
    ground (arith, eq_iff k key, eq_iff j k, eq_iff j key, lookup-insert_ne k key m ne)

-- 48 hours in nanoseconds.
abbrev pub two_days : ℤ
two_days = pos (48 * 60 * 60 * 1000000000)

-- What is done about an old CR: whether a call is made that stores it with the flag and as it was otherwise.
pub record IsFlagged (cr : Unstructured) (h h' : History) : Type 0 where
  pub stored : Unstructured
  pub is_call : h' ≡ update_cr stored ∷ h
  pub has_flag :
      lookup "nodehealthcheck.medik8s.io/old-remediation-cr-flag" stored.annotations ≡ some "flagon"
  pub others :
      (key : String)
      → "nodehealthcheck.medik8s.io/old-remediation-cr-flag" ≢ key
      → lookup key stored.annotations ≡ lookup key cr.annotations
  pub same_cr : record stored { annotations = cr.annotations } ≡ cr

-- While a remediation CR is at most 48 hours old, no call is made for it, and the code asks to be called again at
-- the minute after these 48 hours. When it is called then, and the CR does not carry the flag, it stores the CR with
-- the flag; for the CR as it was stored no further call is made at any later time.
pub alert-in_time :
    (env : Environment) (now : ℤ) (cr : Unstructured) (h : History)
    → now ≤ℤ cr.creation_timestamp +ℤ two_days
    → has_key "nodehealthcheck.medik8s.io/old-remediation-cr-flag" cr.annotations ≡ false
    → (wish : ℤ) × (alert_old_remediation_cr env now cr h ≡ ((false, some wish), h))
      × (now +ℤ wish ≡ cr.creation_timestamp +ℤ two_days +ℤ minute)
      × (flags : IsFlagged cr h (alert_old_remediation_cr env (now +ℤ wish) cr h).1) × ((t : ℤ)
            (h' : History)
          → now +ℤ wish ≤ℤ t
          → (alert_old_remediation_cr env t flags.stored h').1 ≡ h')
unfolding alert_old_remediation_cr
alert-in_time env now cr h young unflagged =
    let wish = remediation_cr_alert_timeout -ℤ (now -ℤ cr.creation_timestamp) +ℤ minute in
    let limit = cr.creation_timestamp +ℤ remediation_cr_alert_timeout in
    let not_yet : ltb_ℤ limit now ≡ false = le→not-ltb _ _ young in
    let then_old : ltb_ℤ limit (now +ℤ wish) ≡ true = lt→ltb _ _ (omega int_laws) in
    (
      wish,
      rw (not_yet, alert_old_remediation_cr) refl,
      eq_of_parts _ _ (omega int_laws),
      record {
        stored = flagged cr;
        is_call = rw (then_old, alert_old_remediation_cr) (rw unflagged refl);
        has_flag = lookup-insert_self old_remediation_cr_annotation cr.annotations;
        others = λ key ne. lookup-insert_ne old_remediation_cr_annotation key cr.annotations ne;
        same_cr = refl;
      },
      λ t h' late.
          let still : ltb_ℤ limit t ≡ true = lt→ltb _ _ (omega int_laws) in
          let has : has_key old_remediation_cr_annotation (flagged cr).annotations ≡ true =
            ap is_some (lookup-insert_self old_remediation_cr_annotation cr.annotations) in
          rw (still, alert_old_remediation_cr) (rw has refl),
    )

-- Not deleted before the conditions became healthy.
abbrev pub IsDeletedSince : ℤ → Option ℤ → Type 0
IsDeletedSince healthy_since none = Unit
IsDeletedSince healthy_since (some deleted) = healthy_since ≤ℤ deleted

recent :
    (healthy_since : ℤ) (d : Option ℤ)
    → IsDeletedSince healthy_since d
    → is_recent (healthy_since -ℤ log_when_cr_pending_deletion_duration) d ≡ true
recent healthy_since none h = refl
recent healthy_since (some deleted) h = lt→ltb _ _ (omega int_laws)

-- A CR that keeps the log from being written, with a positive wish.
abbrev Waits : ℤ → Unstructured → Type 0
Waits log_threshold cr =
    (is_recent log_threshold cr.deletion_timestamp ≡ true)
    × (pos 0 <ℤ log_in log_threshold cr.deletion_timestamp)

waits :
    (healthy_since : ℤ) (d : Option ℤ)
    → IsDeletedSince healthy_since d
    → pos 0 <ℤ log_in (healthy_since -ℤ log_when_cr_pending_deletion_duration) d
waits healthy_since none h = omega int_laws
waits healthy_since (some deleted) h = omega int_laws

wish-positive :
    (requeue wish : ℤ)
    → pos 0 ≤ℤ requeue
    → pos 0 <ℤ wish
    → pos 0 <ℤ update_requeue_after requeue (some wish)
unfolding update_requeue_after
wish-positive requeue wish h k = ground arith

pending_crs-Waits :
    (t : ℤ) (crs : List Unstructured) (requeue : ℤ)
    → All (Waits t) crs
    → pos 0 <ℤ requeue
    → let r = pending_crs t crs false requeue in (r.0 ≡ false) × (pos 0 <ℤ r.1)
unfolding pending_crs
pending_crs-Waits t [] requeue w h = (refl, h)
pending_crs-Waits t (cr ∷ crs) requeue w h =
    let wish = log_in t cr.deletion_timestamp in
    rw (w.0.0, pending_crs)
      (pending_crs-Waits t crs (update_requeue_after requeue (some wish)) w.1
        (wish-positive requeue wish (omega arith) w.0.1))

since-Waits :
    (healthy_since : ℤ) (crs : List Unstructured)
    → All (λ (cr : Unstructured). IsDeletedSince healthy_since cr.deletion_timestamp) crs
    → All (Waits (healthy_since -ℤ log_when_cr_pending_deletion_duration)) crs
since-Waits healthy_since [] d = tt
since-Waits healthy_since (cr ∷ crs) d = (
  (recent healthy_since cr.deletion_timestamp d.0, waits healthy_since cr.deletion_timestamp d.0),
  since-Waits healthy_since crs d.1,
)

-- When no CR of a healthy node was deleted before its conditions became healthy, it is never logged that
-- the deletion is pending, however much time passes, and the code asks again and again to be called
-- later for that log.
pub pending_deletion-never_logged :
    (healthy_since : ℤ) (cr : Unstructured) (crs : List Unstructured) (requeue : ℤ)
    → All (λ (c : Unstructured). IsDeletedSince healthy_since c.deletion_timestamp) (cr ∷ crs)
    → pos 0 ≤ℤ requeue
    → let r = pending_deletion (some healthy_since) (cr ∷ crs) requeue in
      (r.0 ≡ false) × (pos 0 <ℤ r.1)
unfolding pending_deletion pending_crs
pending_deletion-never_logged healthy_since cr crs requeue d h =
    let t = healthy_since -ℤ log_when_cr_pending_deletion_duration in
    let w = since-Waits healthy_since (cr ∷ crs) d in
    rw (w.0.0, pending_crs)
      (pending_crs-Waits t crs
        (update_requeue_after requeue (some (log_in t cr.deletion_timestamp))) w.1
        (wish-positive requeue (log_in t cr.deletion_timestamp) h w.0.1))
