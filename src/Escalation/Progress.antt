-- ===== src/Escalation/Progress.antt =====
-- Escalation takes the templates in their order, each until it has timed out.
use node_healthcheck_operato.Prelude.{
  ℤ, pos_part, neg_part, ◌≤ℤ◌, ◌<ℤ◌, String, List, [], ◌∷◌, All, In, head, tail, ◌≡◌, refl, sym, ap,
  ◌∙◌, arith, ◌⊎◌, inl, inr,
}
use node_healthcheck_operato.Api.{EscalatingRemediation, UnhealthyNode}
use node_healthcheck_operato.Escalation.{
  chosen, no_template_left, panics, Verdict, usable, used_up, slice_out_of_bounds, verdict, choose,
  current_remediation, sort_by_order,
}
use node_healthcheck_operato.Escalation.Order.{IsSorted, sort_by_order-IsSorted, In-sort}

All-In :
    {a : EscalatingRemediation} (o : ℤ) (rs : List EscalatingRemediation)
    → All (λ s. o ≤ℤ s.order) rs
    → In a rs
    → o ≤ℤ a.order
All-In o [] h i = elim i [ ]
All-In o (x ∷ xs) h (head e) = rw e h.0
All-In o (x ∷ xs) h (tail i) = All-In o xs h.1 i

verdict-cases : (v : Verdict) → (v ≡ usable) ⊎ ((v ≡ used_up) ⊎ (v ≡ slice_out_of_bounds))
verdict-cases usable = inl refl
verdict-cases used_up = inr (inl refl)
verdict-cases slice_out_of_bounds = inr (inr refl)

module _ (n : String) (us : List UnhealthyNode) where
  choose-usable :
      (rem : EscalatingRemediation) (rems : List EscalatingRemediation)
      → verdict n us rem ≡ usable
      → choose n us (rem ∷ rems) ≡ chosen rem
  unfolding choose
  choose-usable rem rems v = rw (v, choose)

  choose-used_up :
      (rem : EscalatingRemediation) (rems : List EscalatingRemediation)
      → verdict n us rem ≡ used_up
      → choose n us (rem ∷ rems) ≡ choose n us rems
  unfolding choose
  choose-used_up rem rems v = rw (v, choose)

  choose-panics :
      (rem : EscalatingRemediation) (rems : List EscalatingRemediation)
      → verdict n us rem ≡ slice_out_of_bounds
      → choose n us (rem ∷ rems) ≡ panics
  unfolding choose
  choose-panics rem rems v = rw (v, choose)

  -- What the choice says of the templates of a list.
  abbrev pub IsFirstUsable : List EscalatingRemediation → EscalatingRemediation → Type 0
  IsFirstUsable rems r =
      In r rems
      × (verdict n us r ≡ usable)
      × ((q : EscalatingRemediation) → In q rems → q.order <ℤ r.order → verdict n us q ≡ used_up)

  pub choose-chosen :
      (rems : List EscalatingRemediation) (r : EscalatingRemediation)
      → IsSorted rems
      → choose n us rems ≡ chosen r
      → IsFirstUsable rems r
  unfolding choose
  choose-chosen [] r s h = cc
  choose-chosen (x ∷ xs) r s h = elim (verdict-cases (verdict n us x)) [
    | inl v ↦ here v (chosen_inj (sym (choose-usable x xs v) ∙ h))
    | inr (inl v) ↦ there v (choose-chosen xs r s.1 (sym (choose-used_up x xs v) ∙ h))
    | inr (inr v) ↦ cc (choose-panics x xs v)
  ]
    where
      chosen_inj : chosen x ≡ chosen r → x ≡ r
      chosen_inj e = cc

      first_lowest : x ≡ r → (q : EscalatingRemediation) → In q (x ∷ xs) → q.order <ℤ r.order → ⊥
      first_lowest e q (head i) lt =
          omega (arith, ap (λ k. pos_part k.order) (i ∙ e), ap (λ k. neg_part k.order) (i ∙ e))
      first_lowest e q (tail i) lt = omega (
        arith,
        All-In x.order xs s.0 i,
        ap (λ k. pos_part k.order) e,
        ap (λ k. neg_part k.order) e,
      )

      here : verdict n us x ≡ usable → x ≡ r → IsFirstUsable (x ∷ xs) r
      here v e = (head (sym e), rw (← e) v, λ q i lt. absurd (first_lowest e q i lt))

      later :
          verdict n us x ≡ used_up
          → IsFirstUsable xs r
          → (q : EscalatingRemediation) → In q (x ∷ xs)
          → q.order <ℤ r.order
          → verdict n us q ≡ used_up
      later v f q (head e) lt = rw e v
      later v f q (tail i) lt = f.2 q i lt

      there : verdict n us x ≡ used_up → IsFirstUsable xs r → IsFirstUsable (x ∷ xs) r
      there v f = (tail f.0, f.1, later v f)

  choose-no_template_left :
      (rems : List EscalatingRemediation)
      → choose n us rems ≡ no_template_left
      → (q : EscalatingRemediation) → In q rems
      → verdict n us q ≡ used_up
  unfolding choose
  choose-no_template_left [] h q i = elim i [ ]
  choose-no_template_left (x ∷ xs) h q (head e) = elim (verdict-cases (verdict n us x)) [
    | inl v ↦ cc (choose-usable x xs v)
    | inr (inl v) ↦ rw e v
    | inr (inr v) ↦ cc (choose-panics x xs v)
  ]
  choose-no_template_left (x ∷ xs) h q (tail i) = elim (verdict-cases (verdict n us x)) [
    | inl v ↦ cc (choose-usable x xs v)
    | inr (inl v) ↦ choose-no_template_left xs (sym (choose-used_up x xs v) ∙ h) q i
    | inr (inr v) ↦ cc (choose-panics x xs v)
  ]

pub chosen-usable :
    (n : String) (us : List UnhealthyNode) (rems : List EscalatingRemediation)
    (r : EscalatingRemediation)
    → current_remediation n us rems ≡ chosen r
    → verdict n us r ≡ usable
unfolding current_remediation
chosen-usable n us rems r h =
    (choose-chosen n us (sort_by_order rems) r (sort_by_order-IsSorted rems) h).1

-- There is no template left only if remediations of the node from all templates have timed out.
pub current_remediation-none_left :
    (n : String) (us : List UnhealthyNode) (rems : List EscalatingRemediation)
    (q : EscalatingRemediation)
    → current_remediation n us rems ≡ no_template_left
    → In q rems
    → verdict n us q ≡ used_up
unfolding current_remediation
current_remediation-none_left n us rems q h i =
    choose-no_template_left n us (sort_by_order rems) h q ((In-sort q rems).1 i)

pub current_remediation-IsFirstUsable :
    (n : String) (us : List UnhealthyNode) (rems : List EscalatingRemediation)
    (r : EscalatingRemediation)
    → current_remediation n us rems ≡ chosen r
    → IsFirstUsable n us rems r
unfolding current_remediation
current_remediation-IsFirstUsable n us rems r h =
    let (i, v, lower) = choose-chosen n us (sort_by_order rems) r (sort_by_order-IsSorted rems) h in
    ((In-sort r rems).0 i, v, λ q j lt. lower q ((In-sort q rems).1 j) lt)
