-- ===== src/Webhook/Escalating.antt =====
-- When the escalating remediations of a spec pass the rules of the webhook.
use node_healthcheck_operato.Prelude.{
  ℤ, ◌≤ℤ◌, eqb_ℤ, minute, String, true, false, Option, none, some, List, [], ◌∷◌, ◌++◌, any, All,
  ◌==◌, ◌≡◌, ◌≢◌, ◌↔◌, inl, inr, refl, sym, arith, eq_iff, Bool-cases,
}
use node_healthcheck_operato.Api.{EscalatingRemediation}
use node_healthcheck_operato.Webhook.{
  Validator, WebhookError, unique_order, timeout_at_least_minute, unique_remediator,
  is_multiple_templates_supported, validate_escalating_remediations, to_list,
}

eqb_ℤ_iff : (a b : ℤ) → (eqb_ℤ a b ≡ true) ↔ (a ≡ b)
eqb_ℤ_iff a b = ground arith

-- No two remediations have one order.
abbrev pub HasUniqueOrders : List EscalatingRemediation → Type 0
HasUniqueOrders [] = Unit
HasUniqueOrders (r ∷ rs) = All (λ s. s.order ≢ r.order) rs × HasUniqueOrders rs

All-both :
    {P Q R : EscalatingRemediation → Type 0} (rs : List EscalatingRemediation)
    → ((s : EscalatingRemediation) → P s → Q s → R s)
    → All P rs
    → All Q rs
    → All R rs
All-both [] f p q = tt
All-both (r ∷ rs) f p q = (f r p.0 q.0, All-both rs f p.1 q.1)

All-map :
    {P Q : EscalatingRemediation → Type 0} (rs : List EscalatingRemediation)
    → ((s : EscalatingRemediation) → P s → Q s)
    → All P rs
    → All Q rs
All-map [] f p = tt
All-map (r ∷ rs) f p = (f r p.0, All-map rs f p.1)

abbrev IsFreshFor : List ℤ → EscalatingRemediation → Type 0
IsFreshFor seen s = any (eqb_ℤ s.order) seen ≡ false

unique_order_sound :
    (seen : List ℤ) (rs : List EscalatingRemediation)
    → unique_order seen rs ≡ none
    → All (IsFreshFor seen) rs × HasUniqueOrders rs
unfolding unique_order
unique_order_sound seen [] h = (tt, tt)
unique_order_sound seen (r ∷ rs) h =
    let (fresh, unique) = unique_order_sound (r.order ∷ seen) rs (ground arith) in
    (
      (ground arith, All-map rs (λ s f. ground arith) fresh),
      (All-map rs (λ s f e. ground (arith, eqb_ℤ_iff s.order r.order)) fresh, unique),
    )

unique_order_complete :
    (seen : List ℤ) (rs : List EscalatingRemediation)
    → All (IsFreshFor seen) rs
    → HasUniqueOrders rs
    → unique_order seen rs ≡ none
unfolding unique_order
unique_order_complete seen [] f u = refl
unique_order_complete seen (r ∷ rs) f u = ground (
  arith,
  unique_order_complete (r.order ∷ seen) rs
      (All-both rs (λ s a b. ground (arith, eqb_ℤ_iff s.order r.order)) f.1 u.0) u.1,
)

nothing_seen : (rs : List EscalatingRemediation) → All (IsFreshFor []) rs
nothing_seen [] = tt
nothing_seen (r ∷ rs) = (refl, nothing_seen rs)

abbrev pub HasLongTimeouts : List EscalatingRemediation → Type 0
HasLongTimeouts rs = All (λ r. minute ≤ℤ r.timeout) rs

timeout_at_least_minute_iff :
    (rs : List EscalatingRemediation) → (timeout_at_least_minute rs ≡ none) ↔ HasLongTimeouts rs
unfolding timeout_at_least_minute
timeout_at_least_minute_iff [] = (λ h. tt, λ h. refl)
timeout_at_least_minute_iff (r ∷ rs) =
    let ih = timeout_at_least_minute_iff rs in
    (λ h. (ground arith, ih.0 (ground arith)), λ h. ground (arith, ih.1 h.1))

-- Of two remediations with templates of one kind, the later one's template supports that.
abbrev pub HasUniqueRemediators : Validator → List EscalatingRemediation → Type 0
HasUniqueRemediators v [] = Unit
HasUniqueRemediators v (r ∷ rs) =
    All
      (λ s.
        s.remediation_template.gvk.kind ≡ r.remediation_template.gvk.kind
        → is_multiple_templates_supported v s.remediation_template ≡ true)
      rs
    × HasUniqueRemediators v rs

abbrev IsAllowedAfter : Validator → List String → EscalatingRemediation → Type 0
IsAllowedAfter v seen s =
    any (λ k. k == s.remediation_template.gvk.kind) seen ≡ true
    → is_multiple_templates_supported v s.remediation_template ≡ true

unique_remediator_sound :
    (v : Validator) (seen : List String) (rs : List EscalatingRemediation)
    → unique_remediator v seen rs ≡ none
    → All (IsAllowedAfter v seen) rs × HasUniqueRemediators v rs
unfolding unique_remediator
unique_remediator_sound v seen [] h = (tt, tt)
unique_remediator_sound v seen (r ∷ rs) h =
    let (allowed, unique) =
      unique_remediator_sound v (r.remediation_template.gvk.kind ∷ seen) rs (ground arith) in
    (
      (λ e. ground arith, All-map rs (λ s f e. f (ground arith)) allowed),
      (
        All-map rs
            (λ s f e. f (
              ground
                (arith, eq_iff r.remediation_template.gvk.kind s.remediation_template.gvk.kind)))
            allowed,
        unique,
      ),
    )

unique_remediator_complete :
    (v : Validator) (seen : List String) (rs : List EscalatingRemediation)
    → All (IsAllowedAfter v seen) rs
    → HasUniqueRemediators v rs
    → unique_remediator v seen rs ≡ none
unfolding unique_remediator
unique_remediator_complete v seen [] a u = refl
unique_remediator_complete v seen (r ∷ rs) a u = ground (
  arith,
  a.0,
  unique_remediator_complete v (r.remediation_template.gvk.kind ∷ seen) rs
      (All-both rs
        (λ s f g e.
          elim (Bool-cases (r.remediation_template.gvk.kind == s.remediation_template.gvk.kind)) [
            | inl same ↦ g (
                sym
                  ((eq_iff r.remediation_template.gvk.kind s.remediation_template.gvk.kind).0 same))
            | inr other ↦ f (ground arith)
          ])
        a.1 u.0)
      u.1,
)

nothing_required : (v : Validator) (rs : List EscalatingRemediation) → All (IsAllowedAfter v []) rs
nothing_required v [] = tt
nothing_required v (r ∷ rs) = (λ e. cc, nothing_required v rs)

pub to_list-nil : (o : Option WebhookError) → to_list o ≡ [] → o ≡ none
to_list-nil none h = refl
to_list-nil (some e) h = cc

pub append-nil_left : (xs ys : List WebhookError) → xs ++ ys ≡ [] → xs ≡ []
append-nil_left [] ys h = refl
append-nil_left (x ∷ xs) ys h = cc

pub append-nil_right : (xs ys : List WebhookError) → xs ++ ys ≡ [] → ys ≡ []
append-nil_right [] ys h = h
append-nil_right (x ∷ xs) ys h = cc

module _ (v : Validator) (rems : List EscalatingRemediation) where
  abbrev pub RemediationsOk : Type 0
  RemediationsOk = HasUniqueOrders rems × HasLongTimeouts rems × HasUniqueRemediators v rems

  pub escalating_sound : validate_escalating_remediations v rems ≡ [] → RemediationsOk
  unfolding validate_escalating_remediations
  escalating_sound h =
      let orders = to_list (unique_order [] rems) in
      let timeouts = to_list (timeout_at_least_minute rems) in
      let kinds = to_list (unique_remediator v [] rems) in
      let rest = append-nil_right orders (timeouts ++ kinds) h in
      (
        (unique_order_sound [] rems
            (to_list-nil _ (append-nil_left orders (timeouts ++ kinds) h))).1,
        (timeout_at_least_minute_iff rems).0 (to_list-nil _ (append-nil_left timeouts kinds rest)),
        (unique_remediator_sound v [] rems
            (to_list-nil _ (append-nil_right timeouts kinds rest))).1,
      )

  pub escalating_complete : RemediationsOk → validate_escalating_remediations v rems ≡ []
  unfolding validate_escalating_remediations
  escalating_complete ok = rw (unique_order_complete [] rems (nothing_seen rems) ok.0) (
      rw ((timeout_at_least_minute_iff rems).1 ok.1)
        (rw (unique_remediator_complete v [] rems (nothing_required v rems) ok.2)))
