-- ===== src/Manager/Create.antt =====
-- CreateRemediationCR and DeleteRemediationCR make allowed calls only.
use node_healthcheck_operato.Prelude.{
  ℤ, String, Bool, true, false, Option, none, some, is_some, value_of, ◌≡◌, arith, Bool-cases,
  Option-cases, inl, inr,
}
use node_healthcheck_operato.Remediation.{Unstructured, node_name_annotation}
use node_healthcheck_operato.Cluster.{Error, is_not_found, failed, History, Answer-cases}
use node_healthcheck_operato.NodeLease.{obtain_node_lease, manage_lease, manage, extend}
use node_healthcheck_operato.NodeLease.Secured.{obtain_node_lease-granted}
use node_healthcheck_operato.Manager.{
  Manager, is_owner, find_existing, is_nil, create, create_new, keep_existing,
  create_remediation_cr, delete_remediation_cr,
}
use node_healthcheck_operato.Manager.Safe.{MayCreate, IsSafe, leased, ours}

module _ (m : Manager) where
  find_existing-IsSafe :
      (cr : Unstructured) (h : History) → IsSafe m h → IsSafe m (find_existing m cr h).1
  unfolding find_existing
  find_existing-IsSafe cr h s = ground arith

  obtain-IsSafe :
      (node : String) (current : ℤ) (h : History)
      → IsSafe m h
      → IsSafe m (obtain_node_lease m.environment node current h).1
  unfolding obtain_node_lease
  obtain-IsSafe node current h s = ground arith

  manage-IsSafe :
      (now : ℤ) (holder node : String) (current previous : ℤ) (h : History)
      → IsSafe m h
      → IsSafe m (manage_lease m.environment now holder node current previous h).1
  unfolding manage_lease manage extend
  manage-IsSafe now holder node current previous h s = ground arith

  keep_existing-IsSafe :
      (now : ℤ) (c : Unstructured) (node_name : Option String) (current previous : ℤ) (h : History)
      → IsSafe m h
      → IsSafe m (keep_existing m now c node_name current previous h).1
  unfolding keep_existing
  keep_existing-IsSafe now c none current previous h s = ground arith
  keep_existing-IsSafe now c (some node) current previous h s =
      ground (arith, manage-IsSafe now m.holder_identity node current previous h s)

  created-IsSafe :
      (nil : Bool) (cr : Unstructured) (requeue : Option ℤ) (h : History)
      → MayCreate m cr h
      → IsSafe m h
      → IsSafe m (create m nil cr requeue h).1
  created-IsSafe true cr requeue h may s = s
  created-IsSafe false cr requeue h may s = (may, s)

  create_new-IsSafe :
      (nil : Bool) (cr : Unstructured) (node : String) (current : ℤ) (e : Error) (h : History)
      → value_of node_name_annotation cr.annotations ≡ node
      → (find_existing m cr h).0 ≡ failed e
      → is_not_found e ≡ true
      → IsSafe m (find_existing m cr h).1
      → IsSafe m (create_new m nil cr (some node) current (find_existing m cr h).1).1
  unfolding create_new
  create_new-IsSafe nil cr node current e h named found absent s =
      let h' = (find_existing m cr h).1 in
      elim (Option-cases (obtain_node_lease m.environment node current h').0.1) [
        | inl granted ↦
            let (requeue, calls, lease) =
              obtain_node_lease-granted m.environment node current h' granted in
            rw (granted, create_new)
              (rw calls
                (created-IsSafe nil cr _ _ (leased h e found absent named lease) (tt, (tt, s))))
        | inr (err, refused) ↦ rw (refused, create_new) (obtain-IsSafe node current h' s)
      ]

  -- If every call so far was allowed, so is every call of CreateRemediationCR for a node and a CR with
  -- the annotation of the node: a CR is created only directly after none has been found for the node
  -- and the template and the node's lease has been granted, and a CR is deleted only if it has just
  -- been returned, owned by us and not yet being deleted.
  pub create_remediation_cr-IsSafe :
      (now : ℤ) (cr : Unstructured) (node : String) (current previous : ℤ) (h : History)
      → value_of node_name_annotation cr.annotations ≡ node
      → IsSafe m h
      → IsSafe m (create_remediation_cr m now cr (some node) current previous h).1
  unfolding create_remediation_cr
  create_remediation_cr-IsSafe now cr node current previous h named safe =
      let s = find_existing-IsSafe cr h safe in
      elim (Answer-cases (find_existing m cr h).0) [
        | inr (c, found) ↦
            rw (found, create_remediation_cr)
              (keep_existing-IsSafe now c (some node) current previous _ s)
        | inl (e, found) ↦ elim (Bool-cases (is_not_found e)) [
          | inl absent ↦
              rw (found, create_remediation_cr)
                (rw absent
                  (create_new-IsSafe (is_nil m cr h) cr node current e h named found absent s))
          | inr broken ↦ rw (found, create_remediation_cr) (rw broken s)
        ]
      ]

  -- If every call so far was allowed, so is every call of DeleteRemediationCR: a CR is deleted only if
  -- the API server has just returned it, owned by us and not yet being deleted, and a CR is created
  -- only with the lease of its node.
  pub delete_remediation_cr-IsSafe :
      (cr : Unstructured) (h : History) → IsSafe m h → IsSafe m (delete_remediation_cr m cr h).1
  unfolding delete_remediation_cr
  delete_remediation_cr-IsSafe cr h s = elim (Answer-cases (m.environment.on_get_cr h cr)) [
    | inl (e, missing) ↦ ground arith
    | inr (c, got) ↦ elim (Bool-cases (is_some c.deletion_timestamp)) [
      | inl going ↦ ground arith
      | inr stays ↦ elim (Bool-cases (is_owner c m.owner)) [
        | inl mine ↦
            rw (got, delete_remediation_cr) (rw stays (rw mine (ours got mine stays, (tt, s))))
        | inr theirs ↦ ground arith
      ]
    ]
  ]
