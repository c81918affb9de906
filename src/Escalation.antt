-- ===== src/Escalation.antt =====
-- Which template comes next, GetCurrentTemplateWithTimeout of
-- internal/controller/resources/templates.go without the request for the template itself, and
-- GetRemediationDuration of internal/controller/utils/utils.go.
pub mod Order
pub mod Progress
pub mod Lowest
pub mod Timeout
pub mod Ends
pub mod Duration
use node_healthcheck_operato.Prelude.{
  ℤ, pos, ◌+ℤ◌, ltb_ℤ, minute, String, Bool, true, false, ◌&&◌, ◌||◌, Option, none, some, List, [],
  ◌∷◌, find, slice_off, trim_suffix, is_some, any, is_empty, ◌==◌, if◌then◌else◌,
}
use node_healthcheck_operato.Api.{
  ObjectReference, GroupVersionKind, EscalatingRemediation, Remediation, UnhealthyNode,
}
use node_healthcheck_operato.Remediation.{gvk_eq}
use node_healthcheck_operato.Status.{is_named, find_status_remediation}

-- `sort.Slice(remediations, less by Order)`.
abbrev pub insert_by_order :
    EscalatingRemediation → List EscalatingRemediation → List EscalatingRemediation
insert_by_order r [] = r ∷ []
insert_by_order r (x ∷ xs) = if ltb_ℤ x.order r.order then x ∷ insert_by_order r xs else r ∷ x ∷ xs

unfoldable pub sort_by_order : List EscalatingRemediation → List EscalatingRemediation
sort_by_order [] = []
sort_by_order (r ∷ rs) = insert_by_order r (sort_by_order rs)

-- The filter for a started remediation of the template that has timed out; `kind` is the kind
-- without the suffix.
abbrev pub is_timed_out_of : ObjectReference → String → Remediation → Bool
is_timed_out_of template kind r =
    gvk_eq r.resource.gvk (record template.gvk { kind = kind })
    && (is_some r.timed_out && (r.template_name == "" || r.template_name == template.name))

abbrev pub has_remediations : String → List UnhealthyNode → Bool
has_remediations node_name us = is_some (find_status_remediation node_name (λ r. true) us)

pub data Choice : Type 0 where
  chosen : EscalatingRemediation → Choice
  no_template_left : Choice
  panics : Choice

-- What the loop makes of one remediation; the filter slices the kind whenever it is called, that is,
-- when the node has a remediation in the status.
pub data Verdict : Type 0 where
  usable used_up slice_out_of_bounds : Verdict

abbrev pub verdict_of : String → List UnhealthyNode → ObjectReference → Option String → Verdict
verdict_of node_name us template none =
    if has_remediations node_name us then slice_out_of_bounds else usable
verdict_of node_name us template (some kind) =
    if is_some (find_status_remediation node_name (is_timed_out_of template kind) us)
    then used_up
    else usable

unfoldable pub verdict : String → List UnhealthyNode → EscalatingRemediation → Verdict
verdict node_name us rem =
    verdict_of node_name us rem.remediation_template (slice_off 8 rem.remediation_template.gvk.kind)

unfoldable pub choose : String → List UnhealthyNode → List EscalatingRemediation → Choice
choose node_name us [] = no_template_left
choose node_name us (rem ∷ rems) = elim (verdict node_name us rem) [
  | usable ↦ chosen rem
  | used_up ↦ choose node_name us rems
  | slice_out_of_bounds ↦ panics
]

-- The loop of GetCurrentTemplateWithTimeout over the sorted remediations.
unfoldable pub current_remediation :
    String → List UnhealthyNode → List EscalatingRemediation → Choice
unfolding choose sort_by_order
current_remediation node_name us rems = choose node_name us (sort_by_order rems)

abbrev pub default_remediation_duration : ℤ
default_remediation_duration = pos 600000000000

abbrev pub sum_previous : ℤ → ℤ → List EscalatingRemediation → ℤ
sum_previous order acc [] = acc
sum_previous order acc (r ∷ rs) =
    sum_previous order (if ltb_ℤ r.order order then acc +ℤ r.timeout else acc) rs

abbrev pub makes_kind : String → EscalatingRemediation → Bool
makes_kind cr_kind r = trim_suffix r.remediation_template.gvk.kind "Template" == cr_kind

abbrev duration_of : List EscalatingRemediation → Option EscalatingRemediation → ℤ × ℤ
duration_of rems none = (default_remediation_duration, pos 0)
duration_of rems (some current) = (current.timeout, sum_previous current.order (pos 0) rems)

-- GetRemediationDuration: the timeout of the CR's remediation, and the sum of those before it.
unfoldable pub get_remediation_duration : List EscalatingRemediation → String → ℤ × ℤ
get_remediation_duration rems cr_kind =
    if is_empty rems
    then (default_remediation_duration, pos 0)
    else duration_of rems (find (makes_kind cr_kind) rems)
