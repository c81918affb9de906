-- ===== src/Machines/Unfinished.antt =====
-- What remediateAll does after it has created a CR for a machine that has no node.
use node_healthcheck_operato.Prelude.{
  Bool, ℤ, pos, true, false, Option, some, none, List, [], ◌∷◌, ◌≡◌, ◌∙◌, ap, refl, is_some,
  Bool-cases, inl, inr,
}
use node_healthcheck_operato.Remediation.{Unstructured}
use node_healthcheck_operato.Cluster.{
  panicked, ok, failed, Answer, History, Answer-cases, is_not_found,
}
use node_healthcheck_operato.Escalation.{default_remediation_duration}
use node_healthcheck_operato.Manager.{
  Manager, Creation, create_remediation_cr, is_nil, create, create_new, keep_existing,
  find_existing, created_as, is_owner,
}
use node_healthcheck_operato.Machines.Health.{Target, no_node_ref}
use node_healthcheck_operato.Machines.Remediate.{
  get_template_of, generate_remediation_cr_for_machine, remediate_machine, remediate_all,
  of_creation, event_error, node_name_of,
}

created_as-fine :
    (m : Manager) (cr : Unstructured) (requeue : Option ℤ) (a : Answer Unstructured)
    → (created_as m cr requeue a).created ≡ true
    → (created_as m cr requeue a).error ≡ none
created_as-fine m cr requeue (failed e) made = cc
created_as-fine m cr requeue (ok c) made = refl

create-fine :
    (m : Manager) (nil : Bool) (cr : Unstructured) (requeue : Option ℤ) (h : History)
    → (create m nil cr requeue h).0.created ≡ true
    → (create m nil cr requeue h).0.error ≡ none
create-fine m true cr requeue h made = cc
create-fine m false cr requeue h made =
    created_as-fine m cr requeue (m.environment.on_create_cr h cr) made

keep_existing-uncreated :
    (m : Manager) (now : ℤ) (c : Unstructured) (current previous : ℤ) (h : History)
    → (keep_existing m now c none current previous h).0.created ≡ false
unfolding keep_existing
keep_existing-uncreated m now c current previous h = elim (Bool-cases (is_owner c m.owner)) [
  | inl mine ↦ rw (mine, keep_existing) refl
  | inr theirs ↦ rw (theirs, keep_existing) refl
]

-- Without a lease a CR that has been created comes without an error.
created-fine :
    (m : Manager) (now : ℤ) (cr : Unstructured) (current previous : ℤ) (h : History)
    → (create_remediation_cr m now cr none current previous h).0.created ≡ true
    → (create_remediation_cr m now cr none current previous h).0.error ≡ none
unfolding create_remediation_cr create_new
created-fine m now cr current previous h made =
    let found = find_existing m cr h in
    elim (Answer-cases found.0) [
      | inr (c, there) ↦ cc (
        keep_existing-uncreated m now c current previous found.1,
        rw (there, create_remediation_cr) at made,
      )
      | inl (e, missing) ↦ elim (Bool-cases (is_not_found e)) [
        | inl not_there ↦
            rw (missing, create_remediation_cr)
              (rw not_there (
                create-fine m (is_nil m cr h) cr none found.1
                  (rw not_there at (rw (missing, create_remediation_cr) at made))))
        | inr broken ↦ cc (rw broken at (rw (missing, create_remediation_cr) at made))
      ]
    ]

created-panics :
    (t : Target) (c : Creation)
    → t.node ≡ no_node_ref
    → c.created ≡ true
    → c.error ≡ none
    → of_creation t.node c ≡ some panicked
created-panics t c bare made fine =
    rw (fine, of_creation)
      (ap (event_error c.created) bare ∙ ap (λ b. event_error b no_node_ref) made)

-- When a CR has been created for a machine that has no node, remediateAll follows a nil pointer: it ends
-- there, with this error, and makes no call for the targets that are left.
pub remediate_all-unfinished :
    (m : Manager) (now : ℤ) (t : Target) (ts : List Target) (tmpl : Unstructured) (h : History)
    → is_some t.machine.deletion_timestamp ≡ false
    → t.node ≡ no_node_ref
    → (get_template_of m.environment t.mhc h).0 ≡ ok tmpl
    → let h1 = (get_template_of m.environment t.mhc h).1 in
      let cr = generate_remediation_cr_for_machine now m.owner t.machine tmpl "" in
      let creation = create_remediation_cr m now cr none default_remediation_duration (pos 0) h1 in
      creation.0.created ≡ true → remediate_all m now (t ∷ ts) h ≡ (panicked ∷ [], creation.1)
unfolding remediate_all remediate_machine
remediate_all-unfinished m now t ts tmpl h stays bare got made =
    let h1 = (get_template_of m.environment t.mhc h).1 in
    let cr = generate_remediation_cr_for_machine now m.owner t.machine tmpl "" in
    let creation = create_remediation_cr m now cr none default_remediation_duration (pos 0) h1 in
    let nameless : node_name_of t.node ≡ none = ap node_name_of bare in
    let fine = created-fine m now cr default_remediation_duration (pos 0) h1 made in
    let run : remediate_machine m now t h ≡ (some panicked, creation.1) =
      rw (stays, remediate_machine)
        (rw got
          (rw nameless (ap (λ e. (e, creation.1)) (created-panics t creation.0 bare made fine)))) in
    rw (run, remediate_all) (ap (λ r. (panicked ∷ [], r.1)) run)
