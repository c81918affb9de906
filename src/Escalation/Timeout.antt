-- ===== src/Escalation/Timeout.antt =====
-- A remediation that has timed out uses its template up.
use node_healthcheck_operato.Prelude.{
  ℤ, String, Bool, true, ◌&&◌, ◌||◌, some, List, [], ◌∷◌, ◌==◌, ◌≡◌, ◌≢◌, sym, ap, ◌∙◌, arith,
  is_some, slice_off,
}
use node_healthcheck_operato.Api.{
  GroupVersionKind, EscalatingRemediation, Remediation, UnhealthyNode, ObjectReference,
}
use node_healthcheck_operato.Remediation.{Unstructured, gvk_eq}
use node_healthcheck_operato.Status.Tracking.{is_started_from}
use node_healthcheck_operato.Status.{
  find_remediation, find_status_remediation, mark_first, mark_timed_out,
}
use node_healthcheck_operato.Escalation.{
  chosen, used_up, verdict, current_remediation, is_timed_out_of,
}
use node_healthcheck_operato.Escalation.Progress.{chosen-usable}

-- The remediations that were started from a template, by the kind of its CRs.
abbrev pub is_started : ObjectReference → String → Remediation → Bool
is_started template kind r =
    gvk_eq r.resource.gvk (record template.gvk { kind = kind })
    && (r.template_name == "" || r.template_name == template.name)

module _ (template : ObjectReference) (kind : String) (now : ℤ) where
  mark_first-used :
      (rs : List Remediation)
      → is_some (find_remediation (is_started template kind) rs) ≡ true
      → is_some (
          find_remediation
            (is_timed_out_of template kind)
            (mark_first (is_started template kind) now rs))
        ≡ true
  mark_first-used [] h = cc
  mark_first-used (r ∷ rs) h = ground (arith, mark_first-used rs)

  pub mark_timed_out-used :
      (n : String) (us : List UnhealthyNode)
      → is_some (find_status_remediation n (is_started template kind) us) ≡ true
      → is_some (
          find_status_remediation n
            (is_timed_out_of template kind)
            (mark_timed_out n (is_started template kind) now us))
        ≡ true
  unfolding find_status_remediation mark_timed_out
  mark_timed_out-used n [] h = cc
  mark_timed_out-used n (u ∷ us) h =
      ground (arith, mark_first-used u.remediations, mark_timed_out-used n us)

timed_out-used_up :
    (n : String) (us : List UnhealthyNode) (rems : List EscalatingRemediation)
    (r : EscalatingRemediation) (kind : String) (now : ℤ)
    → slice_off 8 r.remediation_template.gvk.kind ≡ some kind
    → is_some (find_status_remediation n (is_started r.remediation_template kind) us) ≡ true
    → current_remediation n (mark_timed_out n (is_started r.remediation_template kind) now us) rems
      ≢ chosen r
unfolding verdict
timed_out-used_up n us rems r kind now k started h =
    let us' = mark_timed_out n (is_started r.remediation_template kind) now us in
    let used : verdict n us' r ≡ used_up =
      rw (k, verdict) (rw (mark_timed_out-used r.remediation_template kind now n us started)) in
    cc (used, chosen-usable n us' rems r h)

-- When the remediation that remediate finds for a CR and its template is marked as timed out, where
-- the kind of the CR is that of the template without its suffix, then the template is not chosen
-- for the node: another one is, or none is left.
pub timed_out-moves_on :
    (n : String) (us : List UnhealthyNode) (rems : List EscalatingRemediation)
    (r : EscalatingRemediation) (cr : Unstructured) (kind : String) (now : ℤ)
    → slice_off 8 r.remediation_template.gvk.kind ≡ some kind
    → cr.gvk ≡ record r.remediation_template.gvk { kind = kind }
    → is_some (find_status_remediation n (is_started_from cr r.remediation_template.name) us) ≡ true
    → current_remediation n
        (mark_timed_out n (is_started_from cr r.remediation_template.name) now us)
        rems
      ≢ chosen r
timed_out-moves_on n us rems r cr kind now k made started h =
    let template = r.remediation_template in
    let same : is_started_from cr template.name ≡ is_started template kind =
      ap {B = Remediation → Bool}
        (λ (g : GroupVersionKind) (x : Remediation).
          gvk_eq x.resource.gvk g && (x.template_name == "" || x.template_name == template.name))
        made in
    timed_out-used_up n us rems r kind now k
      (sym (ap (λ (f : Remediation → Bool). is_some (find_status_remediation n f us)) same)
        ∙ started)
      (sym (
          ap (λ (f : Remediation → Bool). current_remediation n (mark_timed_out n f now us) rems)
            same)
        ∙ h)
