-- ===== src/Escalation/Ends.antt =====
-- The escalation of a node ends: every time-out uses a template up, and none becomes usable again.
use node_healthcheck_operato.Prelude.{
  ℕ, suc, ◌+◌, ◌≤◌, ◌<◌, ℤ, String, Bool, true, false, not, Option, some, none, List, [], ◌∷◌, ◌++◌,
  length, filter, In, head, tail, ◌≡◌, refl, ap, arith, is_some, any, slice_off, Bool-cases, inl,
  inr,
}
use mathlib.Core.Path.{subst}
use node_healthcheck_operato.Api.{
  EscalatingRemediation, Remediation, UnhealthyNode, ObjectReference,
}
use node_healthcheck_operato.Remediation.{Unstructured}
use node_healthcheck_operato.Status.{
  find_remediation, find_status_remediation, mark_first, mark_timed_out, add_remediation,
  remediation_of, new_entry, update_first, update_status_remediation_started,
  update_status_node_unhealthy, is_named,
}
use node_healthcheck_operato.Escalation.{
  chosen, Verdict, usable, used_up, slice_out_of_bounds, verdict, verdict_of, current_remediation,
  sort_by_order, is_timed_out_of,
}
use node_healthcheck_operato.Escalation.Order.{sort_by_order-IsSorted, In-sort}
use node_healthcheck_operato.Escalation.Progress.{chosen-usable, choose-chosen}
use node_healthcheck_operato.Escalation.Timeout.{is_started, mark_timed_out-used}

-- Some remediation of the node from the template has timed out.
abbrev IsOver : String → ObjectReference → String → List UnhealthyNode → Type 0
IsOver n template kind us =
    is_some (find_status_remediation n (is_timed_out_of template kind) us) ≡ true

module _ (template : ObjectReference) (kind : String) where
  mark_first-over :
      (f : Remediation → Bool) (now : ℤ) (rs : List Remediation)
      → is_some (find_remediation (is_timed_out_of template kind) rs) ≡ true
      → is_some (find_remediation (is_timed_out_of template kind) (mark_first f now rs)) ≡ true
  mark_first-over f now [] h = cc
  mark_first-over f now (r ∷ rs) h = ground (arith, mark_first-over f now rs)

  mark_timed_out-IsOver :
      (n m : String) (f : Remediation → Bool) (now : ℤ) (us : List UnhealthyNode)
      → IsOver n template kind us
      → IsOver n template kind (mark_timed_out m f now us)
  unfolding find_status_remediation mark_timed_out
  mark_timed_out-IsOver n m f now [] h = cc
  mark_timed_out-IsOver n m f now (u ∷ us) h =
      ground (arith, mark_first-over f now u.remediations, mark_timed_out-IsOver n m f now us)

  append-over :
      (rs : List Remediation) (r : Remediation)
      → is_some (find_remediation (is_timed_out_of template kind) rs) ≡ true
      → is_some (find_remediation (is_timed_out_of template kind) (rs ++ r ∷ [])) ≡ true
  append-over [] r h = cc
  append-over (x ∷ xs) r h = ground (arith, append-over xs r)

  update_first-IsOver :
      (n m : String) (cr : Unstructured) (us : List UnhealthyNode)
      → IsOver n template kind us
      → IsOver n template kind (update_first m (add_remediation cr) us)
  unfolding find_status_remediation
  update_first-IsOver n m cr [] h = cc
  update_first-IsOver n m cr (u ∷ us) h =
      ground (arith, append-over u.remediations (remediation_of cr), update_first-IsOver n m cr us)

  append-IsOver :
      (n : String) (us : List UnhealthyNode) (u : UnhealthyNode)
      → IsOver n template kind us
      → IsOver n template kind (us ++ u ∷ [])
  unfolding find_status_remediation
  append-IsOver n [] u h = cc
  append-IsOver n (x ∷ xs) u h = ground (arith, append-IsOver n xs u)

  started-IsOver :
      (n m : String) (cr : Unstructured) (us : List UnhealthyNode)
      → IsOver n template kind us
      → IsOver n template kind (update_status_remediation_started m cr us)
  unfolding update_status_remediation_started
  started-IsOver n m cr us h =
      ground (arith, update_first-IsOver n m cr us h, append-IsOver n us (new_entry m cr) h)

unhealthy-IsOver :
    (template : ObjectReference) (kind : String) (n m : String) (us : List UnhealthyNode)
    → IsOver n template kind us
    → IsOver n template kind (update_status_node_unhealthy m us)
unfolding update_status_node_unhealthy
unhealthy-IsOver template kind n m us h = elim (Bool-cases (any (is_named m) us)) [
  | inl known ↦ rw (known, update_status_node_unhealthy) h
  | inr new ↦ rw (new, update_status_node_unhealthy) (append-IsOver template kind n us _ h)
]

verdict_of-used_up :
    (n : String) (us us' : List UnhealthyNode) (template : ObjectReference) (kind : Option String)
    → ((k : String) → IsOver n template k us → IsOver n template k us')
    → verdict_of n us template kind ≡ used_up
    → verdict_of n us' template kind ≡ used_up
verdict_of-used_up n us us' template none stays v = ground arith
verdict_of-used_up n us us' template (some k) stays v = ground (arith, stays k)

abbrev is_used_up : Verdict → Bool
is_used_up used_up = true
is_used_up _ = false

abbrev is_open : String → List UnhealthyNode → EscalatingRemediation → Bool
is_open n us q = not (is_used_up (verdict n us q))

-- The templates that are not used up.
abbrev open_count : String → List UnhealthyNode → List EscalatingRemediation → ℕ
open_count n us rems = length (filter (is_open n us) rems)

-- No template that is used up becomes usable again.
abbrev IsLater : String → List UnhealthyNode → List UnhealthyNode → Type 0
IsLater n us us' =
    (template : ObjectReference) (kind : String)
    → IsOver n template kind us
    → IsOver n template kind us'

used_of : (v : Verdict) → not (is_used_up v) ≡ false → v ≡ used_up
used_of used_up h = refl
used_of usable h = cc
used_of slice_out_of_bounds h = cc

module _ (n : String) (us us' : List UnhealthyNode) (later : IsLater n us us') where
  stays_used_up : (q : EscalatingRemediation) → is_open n us q ≡ false → is_open n us' q ≡ false
  unfolding verdict
  stays_used_up q closed =
      let template = q.remediation_template in
      let v : verdict n us q ≡ used_up = used_of (verdict n us q) closed in
      ap (λ w. not (is_used_up w))
        (verdict_of-used_up n us us' template (slice_off 8 template.gvk.kind) (later template) v)

  open_count-le : (rems : List EscalatingRemediation) → open_count n us' rems ≤ open_count n us rems
  open_count-le [] = omega arith
  open_count-le (q ∷ rems) = ground (arith, stays_used_up q, open_count-le rems)

  open_count-lt :
      (rems : List EscalatingRemediation) (r : EscalatingRemediation)
      → In r rems
      → is_open n us r ≡ true
      → is_open n us' r ≡ false
      → open_count n us' rems < open_count n us rems
  open_count-lt [] r i o c = elim i [ ]
  open_count-lt (q ∷ rems) r (head e) o c =
      let o' = subst (λ (x : EscalatingRemediation). is_open n us x ≡ true) e o in
      let c' = subst (λ (x : EscalatingRemediation). is_open n us' x ≡ false) e c in
      ground (arith, o', c', open_count-le rems)
  open_count-lt (q ∷ rems) r (tail i) o c =
      ground (arith, stays_used_up q, open_count-lt rems r i o c)

open_count-length :
    (n : String) (us : List UnhealthyNode) (rems : List EscalatingRemediation)
    → open_count n us rems ≤ length rems
open_count-length n us [] = omega arith
open_count-length n us (q ∷ rems) = ground (arith, open_count-length n us rems)

-- What becomes of the unhealthy nodes in the status while a node is remediated: a remediation of some node is
-- started, some node turns
-- unhealthy, or the one of the current template times out for the node. The number counts the time-outs.
pub data Escalates (n : String) (rems : List EscalatingRemediation)
    : ℕ → List UnhealthyNode → Type 0 where
  begins : (us : List UnhealthyNode) → Escalates n rems 0 us
  starts :
      {k : ℕ} {us : List UnhealthyNode} (m : String) (cr : Unstructured)
      → Escalates n rems k us
      → Escalates n rems k (update_status_remediation_started m cr us)
  turns_unhealthy :
      {k : ℕ} {us : List UnhealthyNode} (m : String)
      → Escalates n rems k us
      → Escalates n rems k (update_status_node_unhealthy m us)
  times_out :
      {k : ℕ} {us : List UnhealthyNode} (r : EscalatingRemediation) (kind : String) (now : ℤ)
      → Escalates n rems k us
      → current_remediation n us rems ≡ chosen r
      → slice_off 8 r.remediation_template.gvk.kind ≡ some kind
      → is_some (find_status_remediation n (is_started r.remediation_template kind) us) ≡ true
      → Escalates n rems (suc k) (mark_timed_out n (is_started r.remediation_template kind) now us)

chosen-In :
    (n : String) (us : List UnhealthyNode) (rems : List EscalatingRemediation)
    (r : EscalatingRemediation)
    → current_remediation n us rems ≡ chosen r
    → In r rems
unfolding current_remediation
chosen-In n us rems r h =
    (In-sort r rems).0 (choose-chosen n us (sort_by_order rems) r (sort_by_order-IsSorted rems) h).0

time_out-lt :
    (n : String) (rems : List EscalatingRemediation) (us : List UnhealthyNode)
    (r : EscalatingRemediation) (kind : String) (now : ℤ)
    → current_remediation n us rems ≡ chosen r
    → slice_off 8 r.remediation_template.gvk.kind ≡ some kind
    → is_some (find_status_remediation n (is_started r.remediation_template kind) us) ≡ true
    → open_count n (mark_timed_out n (is_started r.remediation_template kind) now us) rems
      < open_count n us rems
unfolding verdict
time_out-lt n rems us r kind now h k started =
    let template = r.remediation_template in
    let f = is_started template kind in
    let us' = mark_timed_out n f now us in
    let used : verdict n us' r ≡ used_up =
      rw (k, verdict) (rw (mark_timed_out-used template kind now n us started)) in
    open_count-lt n us us' (λ t j. mark_timed_out-IsOver t j n n f now us) rems r
      (chosen-In n us rems r h) (ap (λ w. not (is_used_up w)) (chosen-usable n us rems r h))
      (ap (λ w. not (is_used_up w)) used)

Escalates-open_count :
    (n : String) (rems : List EscalatingRemediation) (k : ℕ) (us : List UnhealthyNode)
    → Escalates n rems k us
    → k + open_count n us rems ≤ length rems
Escalates-open_count n rems _ _ (begins us) = omega (arith, open_count-length n us rems)
Escalates-open_count n rems _ _ (starts {k} {us} m cr e) =
    let us' = update_status_remediation_started m cr us in
    omega (
      arith,
      Escalates-open_count n rems k us e,
      open_count-le n us us' (λ t j. started-IsOver t j n m cr us) rems,
    )
Escalates-open_count n rems _ _ (turns_unhealthy {k} {us} m e) =
    let us' = update_status_node_unhealthy m us in
    omega (
      arith,
      Escalates-open_count n rems k us e,
      open_count-le n us us' (λ t j. unhealthy-IsOver t j n m us) rems,
    )
Escalates-open_count n rems _ _ (times_out {k} {us} r kind now e h s started) =
    omega (arith, Escalates-open_count n rems k us e, time_out-lt n rems us r kind now h s started)

-- The escalation of a node ends: in any sequence of started remediations, nodes that turn unhealthy, and
-- time-outs of its current template,
-- there are at most as many time-outs as escalating remediations.
pub escalation_ends :
    (n : String) (rems : List EscalatingRemediation) (k : ℕ) (us : List UnhealthyNode)
    → Escalates n rems k us
    → k ≤ length rems
escalation_ends n rems k us e = omega (arith, Escalates-open_count n rems k us e)
