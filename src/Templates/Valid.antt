-- ===== src/Templates/Valid.antt =====
-- What a positive answer of ValidateTemplates means.
use node_healthcheck_operato.Prelude.{
  String, Bool, true, Option, List, [], ◌∷◌, In, head, tail, is_some, eq_iff, ◌≡◌, ◌≢◌, ◌⊎◌, inl,
  inr, refl, arith,
}
use node_healthcheck_operato.Api.{ObjectReference}
use node_healthcheck_operato.Remediation.{Unstructured}
use node_healthcheck_operato.Cluster.{
  Error, broken_template, Answer, ok, failed, History, Environment, Answer-cases,
}
use node_healthcheck_operato.Templates.{
  Validity, valid, invalid, unknown, validity, validate_template, validate_templates,
  handle_template_error, get_template_with_fallback_namespace, checked, with_namespace,
  metal3_remediation_template_kind, machine_api_namespace,
}

Validity-cases :
    (v : Validity)
    → (v ≡ valid)
      ⊎ (((reason : String) × (e : Option Error) × (v ≡ invalid reason e))
          ⊎ ((e : Error) × (v ≡ unknown e)))
Validity-cases valid = inl refl
Validity-cases (invalid reason e) = inr (inl (reason, e, refl))
Validity-cases (unknown e) = inr (inr (e, refl))

-- The API server has returned the template; it has what CRs are made of, and is in the namespace of
-- the machines if it is for Metal3.
pub data IsGood (env : Environment) (ref : ObjectReference) : Type 0 where
  good :
      (h : History) (template : Unstructured)
      → env.on_get_template h ref ≡ ok template
      → is_some template.template_spec ≡ true
      → (template.gvk.kind ≡ metal3_remediation_template_kind
          → template.namespace ≡ machine_api_namespace)
      → IsGood env ref

handle_template_error_invalid : (e : Error) → handle_template_error e ≢ valid
unfolding handle_template_error
handle_template_error_invalid e h = ground arith

with_namespace_same :
    (ref ref' : ObjectReference) (a : Answer Bool) → with_namespace ref "" a ≡ ok ref' → ref' ≡ ref
with_namespace_same ref ref' (failed e) h = cc
with_namespace_same ref ref' (ok n) h = ground arith

module _ (env : Environment) where
  checked-IsGood :
      (ref : ObjectReference) (h : History)
      → validity (checked (env.on_get_template h ref)) ≡ valid
      → IsGood env ref
  unfolding validate_template
  checked-IsGood ref h v = elim (Answer-cases (env.on_get_template h ref)) [
    | inl (e, missing) ↦ absurd (handle_template_error_invalid _ (rw missing at v))
    | inr (template, got) ↦
        good h template got (ground (arith, handle_template_error_invalid broken_template)) (λ k.
          ground (
            arith,
            handle_template_error_invalid broken_template,
            eq_iff template.gvk.kind metal3_remediation_template_kind,
            eq_iff template.namespace machine_api_namespace,
          ))
  ]

  got-IsGood :
      (ref : ObjectReference) (h : History)
      → validity (get_template_with_fallback_namespace env ref "" h).0 ≡ valid
      → IsGood env ref
  unfolding get_template_with_fallback_namespace
  got-IsGood ref h v = elim (Answer-cases (with_namespace ref "" (env.is_object_namespaced ref))) [
    | inl (e, broken) ↦ absurd (handle_template_error_invalid e (ground arith))
    | inr (ref', named) ↦
        let same = with_namespace_same ref ref' (env.is_object_namespaced ref) named in
        checked-IsGood ref h (ground arith)
  ]

  -- If ValidateTemplates finds the templates valid, the API server has returned each of them, each
  -- has what CRs are made of, and those for Metal3 are in the namespace of the machines.
  pub validate_templates-IsGood :
      (refs : List ObjectReference) (h : History) (ref : ObjectReference)
      → (validate_templates env refs h).0 ≡ valid
      → In ref refs
      → IsGood env ref
  unfolding validate_templates
  validate_templates-IsGood [] h ref v i = elim i [ ]
  validate_templates-IsGood (r ∷ refs) h ref v i =
      let got = get_template_with_fallback_namespace env r "" h in
      elim (Validity-cases (validity got.0)) [
        | inr (inl (reason, e, bad)) ↦ cc (rw (bad, validate_templates) at v)
        | inr (inr (e, bad)) ↦ cc (rw (bad, validate_templates) at v)
        | inl fine ↦ elim i [
          | head same ↦ rw same (got-IsGood r h fine)
          | tail j ↦ validate_templates-IsGood refs got.1 ref (rw (fine, validate_templates) at v) j
        ]
      ]
