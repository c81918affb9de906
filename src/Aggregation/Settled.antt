-- ===== src/Aggregation/Settled.antt =====
-- What CreateOrUpdateAggregation leaves in the cluster.
use node_healthcheck_operato.Prelude.{
  String, Option, none, some, [], ◌≡◌, sym, ◌∙◌, arith, ap, Option-cases, inl, inr,
}
use mathlib.Core.Path.{subst}
use node_healthcheck_operato.Cluster.{Error}
use node_healthcheck_operato.Aggregation.{
  ClusterRole, ClusterRoleBinding, Store, Operation, get_role, update_role, get_binding,
  update_binding, wanted_rule, wanted_role_ref, wanted_subjects, create_or_update_aggregation,
  create_or_update_role, create_or_update_role_binding, create_role_in, create_binding_in,
}

abbrev pub IsRoleSettled : Option ClusterRole → Type 0
IsRoleSettled none = ⊥
IsRoleSettled (some role) = (role.rules ≡ []) × (role.aggregation_rule ≡ wanted_rule)

abbrev pub IsBindingSettled : String → Option ClusterRoleBinding → Type 0
IsBindingSettled namespace none = ⊥
IsBindingSettled namespace (some binding) =
    (binding.role_ref ≡ wanted_role_ref) × (binding.subjects ≡ wanted_subjects namespace)

module _ (fails : Operation → Option Error) (namespace : String) where
  role-settles :
      (store : Store)
      → (create_or_update_role fails namespace store).0 ≡ none
      → IsRoleSettled (create_or_update_role fails namespace store).1.role
  unfolding create_or_update_role create_role_in
  role-settles store fine = ground arith

  binding-settles :
      (store : Store)
      → (create_or_update_role_binding fails namespace store).0 ≡ none
      → IsBindingSettled namespace (create_or_update_role_binding fails namespace store).1.binding
  unfolding create_or_update_role_binding create_binding_in
  binding-settles store fine = ground arith

  binding-keeps_role :
      (store : Store) → (create_or_update_role_binding fails namespace store).1.role ≡ store.role
  unfolding create_or_update_role_binding create_binding_in
  binding-keeps_role store = ground arith

  -- Whichever calls fail: if CreateOrUpdateAggregation returns no error, the cluster has the role, without
  -- rules of its own and with the rule that aggregates, and the binding of this role to the service
  -- account of the operator's namespace.
  pub create_or_update_aggregation-settles :
      (store : Store)
      → (create_or_update_aggregation fails namespace store).0 ≡ none
      → IsRoleSettled (create_or_update_aggregation fails namespace store).1.role
        × IsBindingSettled namespace (create_or_update_aggregation fails namespace store).1.binding
  unfolding create_or_update_aggregation
  create_or_update_aggregation-settles store fine =
      let first = create_or_update_role fails namespace store in
      elim (Option-cases first.0) [
        | inr (e, broken) ↦ cc (rw (broken, create_or_update_aggregation) at fine)
        | inl made ↦
            let rest = rw (made, create_or_update_aggregation) at fine in
            rw (made, create_or_update_aggregation)
              (
                subst IsRoleSettled (sym (binding-keeps_role first.1)) (role-settles store made),
                binding-settles first.1 rest,
              )
      ]

  role-stays :
      (store : Store)
      → ((op : Operation) → fails op ≡ none)
      → IsRoleSettled store.role
      → create_or_update_role fails namespace store ≡ (none, store)
  unfolding create_or_update_role create_role_in
  role-stays store fine settled = ground (arith, fine get_role, fine update_role)

  binding-stays :
      (store : Store)
      → ((op : Operation) → fails op ≡ none)
      → IsBindingSettled namespace store.binding
      → create_or_update_role_binding fails namespace store ≡ (none, store)
  unfolding create_or_update_role_binding create_binding_in
  binding-stays store fine settled = ground (arith, fine get_binding, fine update_binding)

  -- If no call fails, CreateOrUpdateAggregation changes nothing in a cluster where it has been run before.
  pub create_or_update_aggregation-again :
      (store : Store)
      → ((op : Operation) → fails op ≡ none)
      → IsRoleSettled store.role
      → IsBindingSettled namespace store.binding
      → create_or_update_aggregation fails namespace store ≡ (none, store)
  unfolding create_or_update_aggregation
  create_or_update_aggregation-again store fine role binding =
      let first = role-stays store fine role in
      rw (first, create_or_update_aggregation)
        (ap (λ (r : Option Error × Store). create_or_update_role_binding fails namespace r.1) first
          ∙ binding-stays store fine binding)
