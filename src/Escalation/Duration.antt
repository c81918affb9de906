-- ===== src/Escalation/Duration.antt =====
-- What GetRemediationDuration returns.
use node_healthcheck_operato.Prelude.{
  ℤ, pos, ◌+ℤ◌, ltb_ℤ, String, true, false, some, List, [], ◌∷◌, In, head, tail, find, filter, ◌≡◌,
  refl, ap, Bool-cases, inl, inr, is_empty,
}
use node_healthcheck_operato.Api.{EscalatingRemediation}
use node_healthcheck_operato.Escalation.{sum_previous, makes_kind, get_remediation_duration}

-- The sum of the timeouts of a list.
abbrev pub total_timeout : ℤ → List EscalatingRemediation → ℤ
total_timeout acc [] = acc
total_timeout acc (r ∷ rs) = total_timeout (acc +ℤ r.timeout) rs

-- The remediations of a lower order.
abbrev pub before : ℤ → List EscalatingRemediation → List EscalatingRemediation
before order = filter (λ r. ltb_ℤ r.order order)

sum_previous-before :
    (order acc : ℤ) (rs : List EscalatingRemediation)
    → sum_previous order acc rs ≡ total_timeout acc (before order rs)
sum_previous-before order acc [] = refl
sum_previous-before order acc (r ∷ rs) = elim (Bool-cases (ltb_ℤ r.order order)) [
  | inl lt ↦ rw lt (sum_previous-before order (acc +ℤ r.timeout) rs)
  | inr ge ↦ rw ge (sum_previous-before order acc rs)
]

find_unique :
    (kind : String) (r : EscalatingRemediation) (rs : List EscalatingRemediation)
    → In r rs
    → makes_kind kind r ≡ true
    → ((q : EscalatingRemediation) → In q rs → makes_kind kind q ≡ true → q ≡ r)
    → find (makes_kind kind) rs ≡ some r
find_unique kind r [] i m u = elim i [ ]
find_unique kind r (x ∷ xs) i m u = elim (Bool-cases (makes_kind kind x)) [
  | inl hit ↦ rw hit (ap some (u x (head refl) hit))
  | inr miss ↦ rw miss (find_unique kind r xs (rest miss i) m (λ q j. u q (tail j)))
]
  where
    rest : makes_kind kind x ≡ false → In r (x ∷ xs) → In r xs
    rest miss (head e) = cc
    rest miss (tail j) = j

not_empty :
    {r : EscalatingRemediation} (rs : List EscalatingRemediation) → In r rs → is_empty rs ≡ false
not_empty [] i = elim i [ ]
not_empty (x ∷ xs) i = refl

-- If only one remediation makes CRs of a kind, the duration for such a CR is its timeout, and the
-- previous duration is the sum of the timeouts of all remediations of a lower order.
pub get_remediation_duration_unique :
    (rems : List EscalatingRemediation) (r : EscalatingRemediation) (kind : String)
    → In r rems
    → makes_kind kind r ≡ true
    → ((q : EscalatingRemediation) → In q rems → makes_kind kind q ≡ true → q ≡ r)
    → get_remediation_duration rems kind ≡ (r.timeout, total_timeout (pos 0) (before r.order rems))
unfolding get_remediation_duration
get_remediation_duration_unique rems r kind i m u = rw (not_empty rems i) (
    rw (find_unique kind r rems i m u)
      (ap (λ t. (r.timeout, t)) (sum_previous-before r.order (pos 0) rems)))
