-- ===== src/Health/Classes.antt =====
-- What checkNodeConditions makes of the selected nodes, and how isHealthy differs.
use mathlib.Core.List.{append_assoc, append-nil}
use node_healthcheck_operato.Prelude.{
  ℤ, ◌+◌, ◌≤ℤ◌, ltb_ℤ, Bool, true, false, not, ◌&&◌, none, some, List, [], ◌∷◌, ◌++◌, ◌≡◌, inl, inr,
  refl, arith, Bool-cases, Option-cases, filter, length, filter-cons, ap, sym, ◌∙◌, ltb→lt,
}
use node_healthcheck_operato.Api.{Node, NodeCondition, UnhealthyCondition, NodeHealthCheck}
use node_healthcheck_operato.Health.{
  NodeClasses, is_positive, check_node, check_nodes, check_node_conditions, is_healthy, expiry,
  matches_loop, matches_unhealthy_conditions,
}
use node_healthcheck_operato.Health.Matching.{Expired, this, later, Expired-matches}

extend_again :
    {A : Type 0} (p : A → Bool) (x : A) (xs l m r : List A)
    → m ≡ l ++ filter p (x ∷ [])
    → r ≡ m ++ filter p xs
    → r ≡ l ++ filter p (x ∷ xs)
extend_again p x xs l m r first rest =
    rest
    ∙ ap (λ k. k ++ filter p xs) first
    ∙ append_assoc l (filter p (x ∷ [])) (filter p xs)
    ∙ ap (λ k. l ++ k) (sym (filter-cons p x xs))

module _ (now : ℤ) (nhc : NodeHealthCheck) (need_ignore_node : Node → Bool) where
  -- Unhealthy, and not left to the MachineHealthChecks.
  abbrev pub is_unhealthy : Node → Bool
  is_unhealthy node = (matches_unhealthy_conditions now nhc node).0 && not (need_ignore_node node)

  -- Still healthy, with an unhealthy condition whose duration is not over.
  abbrev pub is_soon_unhealthy : Node → Bool
  is_soon_unhealthy node =
      not (matches_unhealthy_conditions now nhc node).0
      && is_positive (matches_unhealthy_conditions now nhc node).1

  abbrev pub is_neither : Node → Bool
  is_neither node = not (is_unhealthy node) && not (is_soon_unhealthy node)

  -- The classes with the nodes of a list added, each at the end of its list.
  abbrev Extends : NodeClasses → List Node → NodeClasses → Type 0
  Extends acc nodes r =
      (r.matching ≡ acc.matching ++ filter is_unhealthy nodes)
      × (r.soon_matching ≡ acc.soon_matching ++ filter is_soon_unhealthy nodes)
      × (r.not_matching ≡ acc.not_matching ++ filter is_neither nodes)

  check_node-Extends :
      (acc : NodeClasses) (node : Node)
      → Extends acc (node ∷ []) (check_node now nhc need_ignore_node acc node)
  unfolding check_node
  check_node-Extends acc node =
      ground
        (arith, append-nil acc.matching, append-nil acc.soon_matching, append-nil acc.not_matching)

  check_nodes-Extends :
      (nodes : List Node) (acc : NodeClasses)
      → Extends acc nodes (check_nodes now nhc need_ignore_node acc nodes)
  unfolding check_nodes
  check_nodes-Extends [] acc = (
    sym (append-nil acc.matching),
    sym (append-nil acc.soon_matching),
    sym (append-nil acc.not_matching),
  )
  check_nodes-Extends (node ∷ nodes) acc =
      let first = check_node-Extends acc node in
      let rest = check_nodes-Extends nodes (check_node now nhc need_ignore_node acc node) in
      (
        extend_again is_unhealthy node nodes acc.matching _ _ first.0 rest.0,
        extend_again is_soon_unhealthy node nodes acc.soon_matching _ _ first.1 rest.1,
        extend_again is_neither node nodes acc.not_matching _ _ first.2 rest.2,
      )

-- The selected nodes are split into three lists, in their order: those that have an unhealthy
-- condition for its duration and are not left to the MachineHealthChecks; those that are about to;
-- and all others. Every node stands in exactly one of them.
pub check_node_conditions-partition :
    (now : ℤ) (nhc : NodeHealthCheck) (ignore : Node → Bool) (nodes : List Node)
    → let r = check_node_conditions now nhc ignore nodes in
      (r.matching ≡ filter (is_unhealthy now nhc ignore) nodes)
      × (r.soon_matching ≡ filter (is_soon_unhealthy now nhc ignore) nodes)
      × (r.not_matching ≡ filter (is_neither now nhc ignore) nodes)
      × (length r.matching + length r.soon_matching + length r.not_matching ≡ length nodes)
unfolding check_node_conditions
check_node_conditions-partition now nhc ignore nodes =
    let e =
      check_nodes-Extends now nhc ignore nodes
        (record { not_matching = []; soon_matching = []; matching = []; requeue_after = none }) in
    (e.0, e.1, e.2, omega (arith, ap length e.0, ap length e.1, ap length e.2, sizes nodes))
  where
    sizes :
        (ns : List Node)
        → length (filter (is_unhealthy now nhc ignore) ns)
            + length (filter (is_soon_unhealthy now nhc ignore) ns)
            + length (filter (is_neither now nhc ignore) ns)
          ≡ length ns
    sizes [] = refl
    sizes (n ∷ ns) = ground (arith, sizes ns)

-- isHealthy says that a node is unhealthy only if one of its conditions has expired.
pub is_healthy_sound :
    (now : ℤ) (conditions : List NodeCondition) (cs : List UnhealthyCondition)
    → (is_healthy now conditions cs).0 ≡ false
    → Expired now conditions cs
unfolding is_healthy
is_healthy_sound now conditions [] h = cc
is_healthy_sound now conditions (c ∷ cs) h = elim (Option-cases (expiry conditions c)) [
  | inl e ↦ later (is_healthy_sound now conditions cs (rw (e, is_healthy) at h))
  | inr (end, e) ↦ elim (Bool-cases (ltb_ℤ end now)) [
    | inl over ↦ this end e (ltb→lt _ _ over)
    | inr more ↦ cc (rw more at (rw (e, is_healthy) at h))
  ]
]

-- The converse fails: while the first condition that the node has is still within its duration,
-- isHealthy calls the node healthy although a later condition has expired, for which
-- matchesUnhealthyConditions calls it unhealthy.
pub is_healthy_hides-Expired :
    (now : ℤ) (conditions : List NodeCondition) (c : UnhealthyCondition)
    (cs : List UnhealthyCondition) (end : ℤ)
    → expiry conditions c ≡ some end
    → now ≤ℤ end
    → Expired now conditions cs
    → ((is_healthy now conditions (c ∷ cs)).0 ≡ true)
      × ((matches_loop now conditions none (c ∷ cs)).0 ≡ true)
unfolding is_healthy
is_healthy_hides-Expired now conditions c cs end e pending x =
    (rw (e, is_healthy) (ground arith), Expired-matches now conditions none (c ∷ cs) (later x))
