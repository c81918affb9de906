-- ===== src/Escalation/Lowest.antt =====
-- Which template is chosen, said of the remediations that are recorded in the status.
use node_healthcheck_operato.Prelude.{
  ◌<ℤ◌, String, Bool, true, false, Option, some, none, List, [], ◌∷◌, In, head, tail, ◌≡◌, ◌≢◌, ◌⊎◌,
  ◌↔◌, refl, arith, is_some, slice_off, eq_iff, Bool-cases, Option-cases, inl, inr, if◌then◌else◌,
}
use mathlib.Core.Path.{subst}
use node_healthcheck_operato.Api.{
  ObjectReference, EscalatingRemediation, Remediation, UnhealthyNode,
}
use node_healthcheck_operato.Status.{find_remediation, find_status_remediation, is_named}
use node_healthcheck_operato.Escalation.{
  chosen, no_template_left, usable, used_up, slice_out_of_bounds, verdict, current_remediation,
  is_timed_out_of, has_remediations,
}
use node_healthcheck_operato.Escalation.Progress.{
  current_remediation-IsFirstUsable, current_remediation-none_left,
}

-- The remediation was started from the template, whose name may not be recorded, and has timed out.
pub record TimedOut (template : ObjectReference) (kind : String) (rem : Remediation) : Type 0 where
  pub timed_out : rem.timed_out ≢ none
  pub same_group : rem.resource.gvk.group ≡ template.gvk.group
  pub same_version : rem.resource.gvk.version ≡ template.gvk.version
  pub same_kind : rem.resource.gvk.kind ≡ kind
  pub same_template : (rem.template_name ≡ "") ⊎ (rem.template_name ≡ template.name)

-- The status records such a remediation for the node, `kind` being the kind of the template without its
-- last eight letters.
pub record HasTimedOut (n : String) (us : List UnhealthyNode) (r : EscalatingRemediation)
    : Type 0 where
  pub entry : UnhealthyNode
  pub recorded : In entry us
  pub of_node : entry.name ≡ n
  pub kind : String
  pub kind_of : slice_off 8 r.remediation_template.gvk.kind ≡ some kind
  pub remediation : Remediation
  pub listed : In remediation entry.remediations
  pub is_over : TimedOut r.remediation_template kind remediation

is_some-ne_none : {A : Type 0} (o : Option A) → (is_some o ≡ true) ↔ (o ≢ none)
is_some-ne_none none = (λ h. cc, λ h. absurd (h refl))
is_some-ne_none (some x) = (λ h e. cc, λ h. refl)

module _ (template : ObjectReference) (kind : String) where
  of_template :
      (rem : Remediation) → is_timed_out_of template kind rem ≡ true → TimedOut template kind rem
  of_template rem h =
      let gvk = rem.resource.gvk in
      record {
        timed_out = (is_some-ne_none rem.timed_out).0 (ground arith);
        same_group = ground (arith, eq_iff gvk.group template.gvk.group);
        same_version = ground (arith, eq_iff gvk.version template.gvk.version);
        same_kind = ground (arith, eq_iff gvk.kind kind);
        same_template =
            ground (arith, eq_iff rem.template_name "", eq_iff rem.template_name template.name);
      }

  to_template :
      (rem : Remediation) → TimedOut template kind rem → is_timed_out_of template kind rem ≡ true
  to_template rem t =
      let gvk = rem.resource.gvk in
      ground (
        arith,
        (is_some-ne_none rem.timed_out).1 t.timed_out,
        t.same_group,
        t.same_version,
        t.same_kind,
        t.same_template,
        eq_iff gvk.group template.gvk.group,
        eq_iff gvk.version template.gvk.version,
        eq_iff gvk.kind kind,
        eq_iff rem.template_name "",
        eq_iff rem.template_name template.name,
      )

-- Some remediation of some entry of the node passes.
record Recorded (n : String) (f : Remediation → Bool) (us : List UnhealthyNode) : Type 0 where
  entry : UnhealthyNode
  recorded : In entry us
  of_node : entry.name ≡ n
  remediation : Remediation
  listed : In remediation entry.remediations
  passes : f remediation ≡ true

module _ (f : Remediation → Bool) where
  find-In :
      (rs : List Remediation)
      → is_some (find_remediation f rs) ≡ true
      → (r : Remediation) × In r rs × (f r ≡ true)
  find-In [] h = cc
  find-In (r ∷ rs) h = elim (Bool-cases (f r)) [
    | inl hit ↦ (r, head refl, hit)
    | inr miss ↦ let (r', i, p) = find-In rs (rw miss at h) in (r', tail i, p)
  ]

  In-find :
      (r : Remediation) (rs : List Remediation)
      → In r rs
      → f r ≡ true
      → is_some (find_remediation f rs) ≡ true
  In-find r [] i h = elim i [ ]
  In-find r (x ∷ xs) (head e) h =
      let hit : f x ≡ true = subst (λ (y : Remediation). f y ≡ true) e h in rw hit refl
  In-find r (x ∷ xs) (tail i) h = ground (arith, In-find r xs i h)

  module _ (n : String) where
    status-Recorded :
        (us : List UnhealthyNode)
        → is_some (find_status_remediation n f us) ≡ true
        → Recorded n f us
    unfolding find_status_remediation
    status-Recorded [] h = cc
    status-Recorded (u ∷ us) h = elim (Bool-cases (is_named n u)) [
      | inr other ↦ deeper (status-Recorded us (rw (other, find_status_remediation) at h))
      | inl named ↦ elim (Option-cases (find_remediation f u.remediations)) [
        | inl nothing ↦
            deeper (status-Recorded us (rw nothing at (rw (named, find_status_remediation) at h)))
        | inr (r, found) ↦
            let (r', i, p) = find-In u.remediations (rw found refl) in
            record {
              entry = u;
              recorded = head refl;
              of_node = ground (arith, eq_iff u.name n);
              remediation = r';
              listed = i;
              passes = p;
            }
      ]
    ]
      where
        deeper : Recorded n f us → Recorded n f (u ∷ us)
        deeper d = record {
          entry = d.entry;
          recorded = tail d.recorded;
          of_node = d.of_node;
          remediation = d.remediation;
          listed = d.listed;
          passes = d.passes;
        }

    Recorded-status :
        (us : List UnhealthyNode) (entry : UnhealthyNode) (r : Remediation)
        → In entry us
        → entry.name ≡ n
        → In r entry.remediations
        → f r ≡ true
        → is_some (find_status_remediation n f us) ≡ true
    unfolding find_status_remediation
    Recorded-status [] entry r i e j h = elim i [ ]
    Recorded-status (u ∷ us) entry r (head same) e j h =
        let named : u.name ≡ n = subst (λ (x : UnhealthyNode). x.name ≡ n) same e in
        let found : is_some (find_remediation f u.remediations) ≡ true =
          In-find r u.remediations (subst (λ (x : UnhealthyNode). In r x.remediations) same j) h in
        ground (arith, named, found, eq_iff u.name n)
    Recorded-status (u ∷ us) entry r (tail i) e j h =
        ground (arith, Recorded-status us entry r i e j h)

never_used_up : (b : Bool) → (if b then slice_out_of_bounds else usable) ≡ used_up → ⊥
never_used_up true h = cc
never_used_up false h = cc

used_up_if : (b : Bool) → (if b then used_up else usable) ≡ used_up → b ≡ true
used_up_if true h = refl
used_up_if false h = cc

usable_if : (b : Bool) → (if b then used_up else usable) ≡ usable → b ≡ true → ⊥
usable_if true h e = cc
usable_if false h e = cc

module _ (n : String) (us : List UnhealthyNode) (r : EscalatingRemediation) where
  used_up-HasTimedOut : verdict n us r ≡ used_up → HasTimedOut n us r
  unfolding verdict
  used_up-HasTimedOut v = elim (Option-cases (slice_off 8 r.remediation_template.gvk.kind)) [
    | inl short ↦ absurd (never_used_up _ (rw (short, verdict) at v))
    | inr (kind, long) ↦
        let template = r.remediation_template in
        let found =
          status-Recorded (is_timed_out_of template kind) n us
            (used_up_if _ (rw (long, verdict) at v)) in
        record {
          entry = found.entry;
          recorded = found.recorded;
          of_node = found.of_node;
          kind = kind;
          kind_of = long;
          remediation = found.remediation;
          listed = found.listed;
          is_over = of_template template kind found.remediation found.passes;
        }
  ]

  usable-not : verdict n us r ≡ usable → HasTimedOut n us r → ⊥
  unfolding verdict
  usable-not v t =
      let template = r.remediation_template in
      let found =
        Recorded-status (is_timed_out_of template t.kind) n us t.entry t.remediation t.recorded
          t.of_node t.listed (to_template template t.kind t.remediation t.is_over) in
      usable_if _ (rw (t.kind_of, verdict) at v) found

-- The template that is chosen for a node is one of the configured ones, and no remediation from it is
-- recorded as timed out for the node, while one is for every configured template of a lower order.
pub current_remediation-lowest :
    (n : String) (us : List UnhealthyNode) (rems : List EscalatingRemediation)
    (r : EscalatingRemediation)
    → current_remediation n us rems ≡ chosen r
    → In r rems
      × ¬ HasTimedOut n us r
      × ((q : EscalatingRemediation) → In q rems → q.order <ℤ r.order → HasTimedOut n us q)
current_remediation-lowest n us rems r h =
    let (i, v, lower) = current_remediation-IsFirstUsable n us rems r h in
    (i, usable-not n us r v, λ q j lt. used_up-HasTimedOut n us q (lower q j lt))

-- As soon as the node has a remediation in the status, a template whose kind has fewer than eight letters
-- blocks all templates of a higher order, even if no remediation from it was ever started: none of them is
-- chosen for the node, and it is not reported that none is left either.
pub short_kind-blocks :
    (n : String) (us : List UnhealthyNode) (rems : List EscalatingRemediation)
    (q : EscalatingRemediation)
    → has_remediations n us ≡ true
    → In q rems
    → slice_off 8 q.remediation_template.gvk.kind ≡ none
    → (current_remediation n us rems ≢ no_template_left)
      × ((r : EscalatingRemediation)
          → q.order <ℤ r.order
          → current_remediation n us rems ≢ chosen r)
unfolding verdict
short_kind-blocks n us rems q started i short =
    let out : verdict n us q ≢ used_up = λ v. cc (rw started at (rw (short, verdict) at v)) in
    (
      λ none_left. out (current_remediation-none_left n us rems q none_left i),
      λ r lt h. out ((current_remediation-IsFirstUsable n us rems r h).2 q i lt),
    )
