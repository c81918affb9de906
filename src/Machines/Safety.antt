-- ===== src/Machines/Safety.antt =====
-- Which calls the MachineHealthCheck reconciler may make.
use node_healthcheck_operato.Prelude.{
  Bool, false, ℤ, pos, String, true, Option, none, some, List, [], ◌∷◌, is_some, value_of, ◌≡◌,
  refl, arith, Bool-cases, Option-cases, inl, inr,
}
use node_healthcheck_operato.MachineApi.{MachineHealthCheck}
use node_healthcheck_operato.Remediation.{Unstructured, node_name_annotation}
use node_healthcheck_operato.Cluster.{
  Error, is_not_found, failed, Call, create_cr, delete_cr, History, Answer-cases,
}
use node_healthcheck_operato.NodeLease.{obtain_node_lease, manage_lease, manage, extend}
use node_healthcheck_operato.NodeLease.Secured.{obtain_node_lease-granted}
use node_healthcheck_operato.Manager.{
  Manager, find_existing, is_nil, create, create_new, keep_existing, create_remediation_cr,
  generate_remediation_cr,
}
use node_healthcheck_operato.Manager.Safe.{IsSafe, MayCreate, MayDelete, leased}
use node_healthcheck_operato.Reconcile.Quiet.{IsKept, template-kept}
use node_healthcheck_operato.Escalation.{default_remediation_duration}
use node_healthcheck_operato.Machines.Health.{Target}
use node_healthcheck_operato.Machines.Remediate.{
  get_template_of, generate_remediation_cr_for_machine, node_name_of, or_empty, remediate_machine,
  remediate_all, is_panic,
}

-- The last calls before the creation of a CR: as for a node, or, without the name of a node, that no CR was
-- found.
pub data MayCreateForMachine (m : Manager) (cr : Unstructured) : History → Type 0 where
  for_node : {h : History} → MayCreate m cr h → MayCreateForMachine m cr h
  nameless :
      (h : History) (e : Error)
      → (find_existing m cr h).0 ≡ failed e
      → is_not_found e ≡ true
      → value_of node_name_annotation cr.annotations ≡ ""
      → MayCreateForMachine m cr (find_existing m cr h).1

abbrev pub IsMachineAllowed : Manager → Call → History → Type 0
IsMachineAllowed m (create_cr cr) h = MayCreateForMachine m cr h
IsMachineAllowed m (delete_cr cr) h = MayDelete m cr h
IsMachineAllowed m _ h = Unit

-- Every call was allowed after the calls before it.
abbrev pub IsMachineSafe : Manager → History → Type 0
IsMachineSafe m [] = Unit
IsMachineSafe m (call ∷ h) = IsMachineAllowed m call h × IsMachineSafe m h

module _ (m : Manager) where
  pub safe-IsMachineSafe : (h : History) → IsSafe m h → IsMachineSafe m h
  safe-IsMachineSafe [] s = tt
  safe-IsMachineSafe (create_cr cr ∷ h) s = (for_node s.0, safe-IsMachineSafe h s.1)
  safe-IsMachineSafe (delete_cr cr ∷ h) s = (s.0, safe-IsMachineSafe h s.1)
  safe-IsMachineSafe (_ ∷ h) s = (tt, safe-IsMachineSafe h s.1)

  pub IsMachineSafe-kept : IsKept (IsMachineSafe m)
  IsMachineSafe-kept (create_cr cr) h e p = cc
  IsMachineSafe-kept (delete_cr cr) h e p = cc
  IsMachineSafe-kept _ h e p = (tt, p)

  find_existing-IsMachineSafe :
      (cr : Unstructured) (h : History)
      → IsMachineSafe m h
      → IsMachineSafe m (find_existing m cr h).1
  unfolding find_existing
  find_existing-IsMachineSafe cr h s = ground arith

  obtain-IsMachineSafe :
      (node : String) (current : ℤ) (h : History)
      → IsMachineSafe m h
      → IsMachineSafe m (obtain_node_lease m.environment node current h).1
  unfolding obtain_node_lease
  obtain-IsMachineSafe node current h s = ground arith

  manage-IsMachineSafe :
      (now : ℤ) (holder node : String) (current previous : ℤ) (h : History)
      → IsMachineSafe m h
      → IsMachineSafe m (manage_lease m.environment now holder node current previous h).1
  unfolding manage_lease manage extend
  manage-IsMachineSafe now holder node current previous h s = ground arith

  keep_existing-IsMachineSafe :
      (now : ℤ) (c : Unstructured) (node_name : Option String) (current previous : ℤ) (h : History)
      → IsMachineSafe m h
      → IsMachineSafe m (keep_existing m now c node_name current previous h).1
  unfolding keep_existing
  keep_existing-IsMachineSafe now c none current previous h s = ground arith
  keep_existing-IsMachineSafe now c (some node) current previous h s =
      ground (arith, manage-IsMachineSafe now m.holder_identity node current previous h s)

  created-IsMachineSafe :
      (nil : Bool) (cr : Unstructured) (requeue : Option ℤ) (h : History)
      → MayCreateForMachine m cr h
      → IsMachineSafe m h
      → IsMachineSafe m (create m nil cr requeue h).1
  created-IsMachineSafe true cr requeue h may s = s
  created-IsMachineSafe false cr requeue h may s = (may, s)

  create_new-IsMachineSafe :
      (nil : Bool) (cr : Unstructured) (node_name : Option String) (current : ℤ) (e : Error)
      (h : History)
      → value_of node_name_annotation cr.annotations ≡ or_empty node_name
      → (find_existing m cr h).0 ≡ failed e
      → is_not_found e ≡ true
      → IsMachineSafe m (find_existing m cr h).1
      → IsMachineSafe m (create_new m nil cr node_name current (find_existing m cr h).1).1
  unfolding create_new
  create_new-IsMachineSafe nil cr none current e h named found absent s =
      created-IsMachineSafe nil cr none _ (nameless h e found absent named) s
  create_new-IsMachineSafe nil cr (some node) current e h named found absent s =
      let h' = (find_existing m cr h).1 in
      elim (Option-cases (obtain_node_lease m.environment node current h').0.1) [
        | inl granted ↦
            let (requeue, calls, lease) =
              obtain_node_lease-granted m.environment node current h' granted in
            rw (granted, create_new)
              (rw calls (
                created-IsMachineSafe nil cr _ _ (for_node (leased h e found absent named lease))
                  (tt, (tt, s))))
        | inr (err, refused) ↦ rw (refused, create_new) (obtain-IsMachineSafe node current h' s)
      ]

  create-IsMachineSafe :
      (now : ℤ) (cr : Unstructured) (node_name : Option String) (current previous : ℤ) (h : History)
      → value_of node_name_annotation cr.annotations ≡ or_empty node_name
      → IsMachineSafe m h
      → IsMachineSafe m (create_remediation_cr m now cr node_name current previous h).1
  unfolding create_remediation_cr
  create-IsMachineSafe now cr node_name current previous h named safe =
      let s = find_existing-IsMachineSafe cr h safe in
      elim (Answer-cases (find_existing m cr h).0) [
        | inr (c, found) ↦
            rw (found, create_remediation_cr)
              (keep_existing-IsMachineSafe now c node_name current previous _ s)
        | inl (e, found) ↦ elim (Bool-cases (is_not_found e)) [
          | inl absent ↦
              rw (found, create_remediation_cr)
                (rw absent (
                  create_new-IsMachineSafe (is_nil m cr h) cr node_name current e h named found
                    absent s))
          | inr broken ↦ rw (found, create_remediation_cr) (rw broken s)
        ]
      ]

  generated-named :
      (now : ℤ) (t : Target) (tmpl : Unstructured) (name : String)
      → value_of node_name_annotation
          (generate_remediation_cr_for_machine now m.owner t.machine tmpl name).annotations
        ≡ name
  unfolding generate_remediation_cr_for_machine generate_remediation_cr
  generated-named now t tmpl name = refl

  template_of-IsMachineSafe :
      (mhc : MachineHealthCheck) (h : History)
      → IsMachineSafe m h
      → IsMachineSafe m (get_template_of m.environment mhc h).1
  unfolding get_template_of
  template_of-IsMachineSafe mhc h s = elim (Option-cases mhc.spec.remediation_template) [
    | inl unset ↦ rw (unset, get_template_of) s
    | inr (ref, set) ↦
        rw (set, get_template_of)
          (template-kept (IsMachineSafe m) IsMachineSafe-kept m.environment ref mhc.namespace h s)
  ]

  machine-IsMachineSafe :
      (now : ℤ) (t : Target) (h : History)
      → IsMachineSafe m h
      → IsMachineSafe m (remediate_machine m now t h).1
  unfolding remediate_machine
  machine-IsMachineSafe now t h s =
      let got = get_template_of m.environment t.mhc h in
      let s1 = template_of-IsMachineSafe t.mhc h s in
      let name = node_name_of t.node in
      elim (Bool-cases (is_some t.machine.deletion_timestamp)) [
        | inl going ↦ rw (going, remediate_machine) s
        | inr stays ↦ elim (Answer-cases got.0) [
          | inl (e, broken) ↦ rw (stays, remediate_machine) (rw broken s1)
          | inr (tmpl, found) ↦
              rw (stays, remediate_machine)
                (rw found (
                  create-IsMachineSafe now
                    (generate_remediation_cr_for_machine now m.owner t.machine tmpl (or_empty name))
                    name default_remediation_duration (pos 0) got.1
                    (generated-named now t tmpl (or_empty name)) s1))
        ]
      ]

  pub remediate_all-IsMachineSafe :
      (now : ℤ) (ts : List Target) (h : History)
      → IsMachineSafe m h
      → IsMachineSafe m (remediate_all m now ts h).1
  unfolding remediate_all
  remediate_all-IsMachineSafe now [] h s = s
  remediate_all-IsMachineSafe now (t ∷ ts) h s =
      let step = remediate_machine m now t h in
      let s1 = machine-IsMachineSafe now t h s in
      elim (Bool-cases (is_panic step.0)) [
        | inl stops ↦ rw (stops, remediate_all) s1
        | inr goes ↦ rw (goes, remediate_all) (remediate_all-IsMachineSafe now ts step.1 s1)
      ]
