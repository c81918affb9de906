-- ===== src/Mapper/Woken.antt =====
-- Which events wake up a NodeHealthCheck.
use mathlib.Core.Path.{subst}
use node_healthcheck_operato.Prelude.{
  String, Bool, true, Option, none, some, List, [], ◌∷◌, any, filter, map, In, head, tail, ◌≡◌,
  refl, ap, arith, eq_refl, Bool-cases, inl, inr,
}
use node_healthcheck_operato.Api.{ObjectReference, NodeHealthCheck, EscalatingRemediation, Node}
use node_healthcheck_operato.Remediation.{get_all_remediation_templates}
use node_healthcheck_operato.Cluster.{ok, failed, Answer}
use node_healthcheck_operato.Mapper.{
  Reader, Selector, nhc_request, template_matches, uses_template, nhc_by_template, is_woken_by_node,
  nhc_by_node, node_or_deleted,
}

In-map-filter :
    (p : NodeHealthCheck → Bool) (nhc : NodeHealthCheck) (nhcs : List NodeHealthCheck)
    → In nhc nhcs
    → p nhc ≡ true
    → In (nhc_request nhc) (map nhc_request (filter p nhcs))
In-map-filter p nhc [] i h = elim i [ ]
In-map-filter p nhc (x ∷ xs) (head e) h =
    rw (subst (λ (y : NodeHealthCheck). p y ≡ true) e h) (head (ap nhc_request e))
In-map-filter p nhc (x ∷ xs) (tail i) h = elim (Bool-cases (p x)) [
  | inl passes ↦ rw passes (tail (In-map-filter p nhc xs i h))
  | inr fails ↦ rw fails (In-map-filter p nhc xs i h)
]

matches_self : (ref : ObjectReference) → template_matches ref.gvk.kind ref.name ref ≡ true
matches_self ref = ground (arith, eq_refl ref.gvk.kind, eq_refl ref.name)

any-map :
    (kind name : String) (ref : ObjectReference) (es : List EscalatingRemediation)
    → In ref (map (λ (e : EscalatingRemediation). e.remediation_template) es)
    → template_matches kind name ref ≡ true
    → any (λ (e : EscalatingRemediation). template_matches kind name e.remediation_template) es
      ≡ true
any-map kind name ref [] i h = elim i [ ]
any-map kind name ref (e ∷ es) (head q) h =
    rw (subst (λ (x : ObjectReference). template_matches kind name x ≡ true) q h) refl
any-map kind name ref (e ∷ es) (tail i) h = ground (arith, any-map kind name ref es i h)

used :
    (ref : ObjectReference) (o : Option ObjectReference) (es : List EscalatingRemediation)
    → In ref (elim o [
      | some r ↦ r ∷ []
      | none ↦ map (λ (e : EscalatingRemediation). e.remediation_template) es
    ])
    → elim o [
      | some r ↦ template_matches ref.gvk.kind ref.name r
      | none ↦
          any
            (λ (e : EscalatingRemediation).
              template_matches ref.gvk.kind ref.name e.remediation_template)
            es
    ]
      ≡ true
used ref none es i = any-map ref.gvk.kind ref.name ref es i (matches_self ref)
used ref (some r) es (head q) =
    subst (λ (x : ObjectReference). template_matches ref.gvk.kind ref.name x ≡ true) q
      (matches_self ref)
used ref (some r) es (tail i) = elim i [ ]

uses_template-In :
    (nhc : NodeHealthCheck) (ref : ObjectReference)
    → In ref (get_all_remediation_templates nhc)
    → uses_template ref.gvk.kind ref.name nhc ≡ true
uses_template-In nhc ref i =
    used ref nhc.spec.remediation_template nhc.spec.escalating_remediations i

-- An event about a template wakes up every NodeHealthCheck that has the template among the ones that its
-- Reconcile validates and remediates with.
pub nhc_by_template-wakes :
    (r : Reader) (nhcs : List NodeHealthCheck) (nhc : NodeHealthCheck) (ref : ObjectReference)
    → r.nhc_list ≡ ok nhcs
    → In nhc nhcs
    → In ref (get_all_remediation_templates nhc)
    → In (nhc_request nhc) (nhc_by_template r ref.gvk.kind ref.name)
unfolding nhc_by_template
nhc_by_template-wakes r nhcs nhc ref listed i j =
    rw (listed, nhc_by_template)
      (In-map-filter (uses_template ref.gvk.kind ref.name) nhc nhcs i (uses_template-In nhc ref j))

woken :
    (r : Reader) (nhc : NodeHealthCheck) (a : Answer Node)
    → ((node : Node)
        → a ≡ ok node
        → (s : Selector) × (r.label_selector_as_selector nhc.spec.selector ≡ ok s)
          × (s.matches node.labels ≡ true))
    → is_woken_by_node r (node_or_deleted a) nhc ≡ true
woken r nhc (failed e) selects = refl
woken r nhc (ok node) selects = let (s, known, matches) = selects node refl in rw known matches

-- An event about a node wakes up every NodeHealthCheck whose selector matches the node's labels, and
-- every one if the node cannot be got.
pub nhc_by_node-wakes :
    (r : Reader) (nhcs : List NodeHealthCheck) (nhc : NodeHealthCheck) (name : String)
    → r.nhc_list ≡ ok nhcs
    → In nhc nhcs
    → ((node : Node)
        → r.node_named name ≡ ok node
        → (s : Selector) × (r.label_selector_as_selector nhc.spec.selector ≡ ok s)
          × (s.matches node.labels ≡ true))
    → In (nhc_request nhc) (nhc_by_node r name)
unfolding nhc_by_node
nhc_by_node-wakes r nhcs nhc name listed i selects =
    rw (listed, nhc_by_node)
      (In-map-filter (is_woken_by_node r (node_or_deleted (r.node_named name))) nhc nhcs i
        (woken r nhc (r.node_named name) selects))
