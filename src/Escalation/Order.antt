-- ===== src/Escalation/Order.antt =====
-- The sort by order.
use node_healthcheck_operato.Prelude.{
  ℤ, ◌≤ℤ◌, ltb_ℤ, List, [], ◌∷◌, All, In, head, tail, arith, Bool-cases, inl, inr, not-ltb→le,
  ltb→lt, ◌↔◌,
}
use node_healthcheck_operato.Api.{EscalatingRemediation}
use node_healthcheck_operato.Escalation.{insert_by_order, sort_by_order}

-- Orders do not fall along the list.
abbrev pub IsSorted : List EscalatingRemediation → Type 0
IsSorted [] = Unit
IsSorted (r ∷ rs) = All (λ s. r.order ≤ℤ s.order) rs × IsSorted rs

All-insert :
    (o : ℤ) (r : EscalatingRemediation) (rs : List EscalatingRemediation)
    → o ≤ℤ r.order
    → All (λ s. o ≤ℤ s.order) rs
    → All (λ s. o ≤ℤ s.order) (insert_by_order r rs)
All-insert o r [] h a = (h, tt)
All-insert o r (x ∷ xs) h a = elim (Bool-cases (ltb_ℤ x.order r.order)) [
  | inl lt ↦ rw lt (a.0, All-insert o r xs h a.1)
  | inr ge ↦ rw ge (h, a)
]

All-le_trans :
    (o p : ℤ) (rs : List EscalatingRemediation)
    → o ≤ℤ p
    → All (λ s. p ≤ℤ s.order) rs
    → All (λ s. o ≤ℤ s.order) rs
All-le_trans o p [] h a = tt
All-le_trans o p (x ∷ xs) h a = (omega arith, All-le_trans o p xs h a.1)

insert_by_order-IsSorted :
    (r : EscalatingRemediation) (rs : List EscalatingRemediation)
    → IsSorted rs
    → IsSorted (insert_by_order r rs)
insert_by_order-IsSorted r [] s = (tt, tt)
insert_by_order-IsSorted r (x ∷ xs) s = elim (Bool-cases (ltb_ℤ x.order r.order)) [
  | inl lt ↦ rw lt (
    All-insert x.order r xs (omega (arith, ltb→lt _ _ lt)) s.0,
    insert_by_order-IsSorted r xs s.1,
  )
  | inr ge ↦
      let first = not-ltb→le _ _ ge in rw ge ((first, All-le_trans r.order x.order xs first s.0), s)
]

pub sort_by_order-IsSorted : (rs : List EscalatingRemediation) → IsSorted (sort_by_order rs)
unfolding sort_by_order
sort_by_order-IsSorted [] = tt
sort_by_order-IsSorted (r ∷ rs) =
    insert_by_order-IsSorted r (sort_by_order rs) (sort_by_order-IsSorted rs)

In-swap :
    {a r x : EscalatingRemediation} {xs : List EscalatingRemediation}
    → In a (r ∷ x ∷ xs)
    → In a (x ∷ r ∷ xs)
In-swap (head e) = tail (head e)
In-swap (tail (head e)) = head e
In-swap (tail (tail i)) = tail (tail i)

In-cons :
    {a x : EscalatingRemediation} {xs ys : List EscalatingRemediation}
    → (In a xs → In a ys)
    → In a (x ∷ xs)
    → In a (x ∷ ys)
In-cons f (head e) = head e
In-cons f (tail i) = tail (f i)

In-insert :
    (a r : EscalatingRemediation) (rs : List EscalatingRemediation)
    → In a (insert_by_order r rs) ↔ In a (r ∷ rs)
In-insert a r [] = (λ i. i, λ i. i)
In-insert a r (x ∷ xs) = elim (Bool-cases (ltb_ℤ x.order r.order)) [
  | inl lt ↦
      let ih = In-insert a r xs in
      rw lt (λ i. In-swap (In-cons ih.0 i), λ i. In-cons ih.1 (In-swap i))
  | inr ge ↦ rw ge (λ i. i, λ i. i)
]

pub In-sort :
    (a : EscalatingRemediation) (rs : List EscalatingRemediation)
    → In a (sort_by_order rs) ↔ In a rs
unfolding sort_by_order
In-sort a [] = (λ i. i, λ i. i)
In-sort a (r ∷ rs) =
    let ih = In-sort a rs in
    let top = In-insert a r (sort_by_order rs) in
    (λ i. In-cons ih.0 (top.0 i), λ i. top.1 (In-cons ih.1 i))
