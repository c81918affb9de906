-- ===== src/Status/Tracking.antt =====
-- What the updates record, and what they forget.
use node_healthcheck_operato.Prelude.{
  ◌∙◌, ℤ, String, Bool, true, false, ◌&&◌, ◌||◌, none, some, List, [], ◌∷◌, ◌++◌, any, ◌==◌, ◌≡◌,
  refl, arith, eq_iff, eq_refl, if◌then◌else◌, Bool-cases, inl, inr, is_some,
}
use node_healthcheck_operato.Api.{UnhealthyNode, Remediation}
use node_healthcheck_operato.Remediation.{Unstructured, gvk_eq, get_template_name_from_cr}
use node_healthcheck_operato.Status.{
  is_named, update_status_node_unhealthy, add_remediation, update_first,
  update_status_remediation_started, find_remediation, find_status_remediation,
  update_status_node_healthy, update_status_node_conditions_healthy, new_entry, remediation_of,
  has_gvk, set_healthy_timestamp,
}
use node_healthcheck_operato.Status.Unique.{any-update_first, IsMapByName, add_remediation-name}

-- The filter of remediate: the remediation that was started from a template.
abbrev pub is_started_from : Unstructured → String → Remediation → Bool
is_started_from cr template_name r =
    gvk_eq r.resource.gvk cr.gvk && (r.template_name == "" || r.template_name == template_name)

find_remediation-append :
    (f : Remediation → Bool) (rs : List Remediation) (r : Remediation)
    → f r ≡ true
    → is_some (find_remediation f (rs ++ r ∷ [])) ≡ true
find_remediation-append f [] r h = ground arith
find_remediation-append f (x ∷ rs) r h = ground (arith, find_remediation-append f rs r h)

any-find_remediation :
    (f : Remediation → Bool) (rs : List Remediation) → any f rs ≡ is_some (find_remediation f rs)
any-find_remediation f [] = refl
any-find_remediation f (r ∷ rs) = ground (arith, any-find_remediation f rs)

has_gvk_self : (cr : Unstructured) → has_gvk cr (remediation_of cr) ≡ true
has_gvk_self cr = ground (arith, eq_refl cr.gvk.group, eq_refl cr.gvk.version, eq_refl cr.gvk.kind)

add_remediation-found :
    (cr : Unstructured) (u : UnhealthyNode)
    → is_some (find_remediation (has_gvk cr) (add_remediation cr u).remediations) ≡ true
add_remediation-found cr u = ground (
  arith,
  any-find_remediation (has_gvk cr) u.remediations,
  find_remediation-append (has_gvk cr) u.remediations (remediation_of cr) (has_gvk_self cr),
)

update_first-found :
    (n : String) (cr : Unstructured) (us : List UnhealthyNode)
    → any (is_named n) us ≡ true
    → is_some (find_status_remediation n (has_gvk cr) (update_first n (add_remediation cr) us))
      ≡ true
unfolding find_status_remediation
update_first-found n cr [] h = cc
update_first-found n cr (u ∷ us) h =
    ground
      (arith, add_remediation-found cr u, add_remediation-name cr u, update_first-found n cr us)

append-found :
    (n : String) (cr : Unstructured) (us : List UnhealthyNode) (x : UnhealthyNode)
    → is_named n x ≡ true
    → is_some (find_remediation (has_gvk cr) x.remediations) ≡ true
    → is_some (find_status_remediation n (has_gvk cr) (us ++ x ∷ [])) ≡ true
unfolding find_status_remediation
append-found n cr [] x named found = ground arith
append-found n cr (u ∷ us) x named found = ground (arith, append-found n cr us x named found)

-- A CR for which remediation has started is in the status from then on: a remediation of its kind is
-- found for the node.
pub started-found :
    (n : String) (cr : Unstructured) (us : List UnhealthyNode)
    → is_some (find_status_remediation n (has_gvk cr) (update_status_remediation_started n cr us))
      ≡ true
unfolding update_status_remediation_started find_status_remediation
started-found n cr us = elim (Bool-cases (any (is_named n) us)) [
  | inl known ↦ rw known (update_first-found n cr us known)
  | inr new ↦
      rw new (append-found n cr us (new_entry n cr) (eq_refl n) (ground (arith, has_gvk_self cr)))
]

not_named-none :
    (n : String) (f : Remediation → Bool) (us : List UnhealthyNode)
    → any (is_named n) us ≡ false
    → find_status_remediation n f us ≡ none
unfolding find_status_remediation
not_named-none n f [] h = refl
not_named-none n f (u ∷ us) h = ground (arith, not_named-none n f us)

update_first-recorded :
    (n : String) (cr : Unstructured) (us : List UnhealthyNode)
    → IsMapByName us
    → is_some (find_status_remediation n (has_gvk cr) us) ≡ true
    → (update_first n (add_remediation cr) us ≡ us) × (any (is_named n) us ≡ true)
unfolding find_status_remediation
update_first-recorded n cr [] m old = cc
update_first-recorded n cr (u ∷ us) m old = ground (
  arith,
  eq_iff u.name n,
  not_named-none n (has_gvk cr) us,
  any-find_remediation (has_gvk cr) u.remediations,
  update_first-recorded n cr us m.1,
)

-- Once a remediation of the CR's kind is recorded for a node, another one of that kind, started from
-- another template, is not: what is found in the status for its template stays missing.
pub started_drops_second_template :
    (n : String) (cr : Unstructured) (r : Remediation) (us : List UnhealthyNode)
    → IsMapByName us
    → find_status_remediation n (has_gvk cr) us ≡ some r
    → find_status_remediation n (is_started_from cr (get_template_name_from_cr cr)) us ≡ none
    → find_status_remediation n
        (is_started_from cr (get_template_name_from_cr cr))
        (update_status_remediation_started n cr us)
      ≡ none
unfolding update_status_remediation_started find_status_remediation
started_drops_second_template n cr r us m old missing =
    let (same, known) = update_first-recorded n cr us m (rw old) in rw known (rw same missing)

absent_if_unique :
    (n : String) (us : List UnhealthyNode)
    → any (is_named n) us ≡ false
    → any (is_named n) (update_status_node_healthy n us) ≡ false
unfolding update_status_node_healthy
absent_if_unique n [] h = refl
absent_if_unique n (u ∷ us) h = ground (arith, absent_if_unique n us)

-- A node that is healthy again is in the status no longer, and the entries of other nodes stay.
pub node_healthy-removed :
    (n k : String) (us : List UnhealthyNode)
    → IsMapByName us
    → any (is_named k) (update_status_node_healthy n us)
      ≡ (if n == k then false else any (is_named k) us)
unfolding update_status_node_healthy
node_healthy-removed n k [] m = ground arith
node_healthy-removed n k (u ∷ us) m = ground (
  arith,
  eq_iff n k,
  eq_iff u.name n,
  eq_iff u.name k,
  eq_iff n u.name,
  node_healthy-removed n k us m.1,
)

set_healthy_timestamp-once :
    (n : String) (now later : ℤ) (us : List UnhealthyNode)
    → update_first n (set_healthy_timestamp later) (update_first n (set_healthy_timestamp now) us)
      ≡ update_first n (set_healthy_timestamp now) us
set_healthy_timestamp-once n now later [] = refl
set_healthy_timestamp-once n now later (u ∷ us) =
    ground (arith, set_healthy_timestamp-once n now later us)

node_unhealthy_known :
    (n : String) (us : List UnhealthyNode)
    → any (is_named n) us ≡ true
    → update_status_node_unhealthy n us ≡ us
unfolding update_status_node_unhealthy
node_unhealthy_known n us known = rw known

-- The time at which the conditions of a node in the status became healthy is recorded once: when the
-- node has been unhealthy again in between, a later call returns the first time and changes nothing.
pub conditions_healthy_once :
    (n : String) (now later : ℤ) (us : List UnhealthyNode)
    → any (is_named n) us ≡ true
    → let r = update_status_node_conditions_healthy n now us in
      update_status_node_conditions_healthy n later (update_status_node_unhealthy n r.1) ≡ r
unfolding update_status_node_conditions_healthy
conditions_healthy_once n now later us known =
    let still : any (is_named n) (update_first n (set_healthy_timestamp now) us) ≡ true =
      any-update_first n (set_healthy_timestamp now) (λ u. ground arith) n us ∙ known in
    rw (node_unhealthy_known n (update_first n (set_healthy_timestamp now) us) still)
      (rw (set_healthy_timestamp-once n now later us))
