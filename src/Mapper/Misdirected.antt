-- ===== src/Mapper/Misdirected.antt =====
-- The events about templates of MachineHealthChecks.
use node_healthcheck_operato.Prelude.{
  String, List, [], ◌∷◌, map, filter, In, head, tail, ◌≡◌, ◌≢◌, ap,
}
use node_healthcheck_operato.MachineApi.{MachineHealthCheck}
use node_healthcheck_operato.Mapper.{
  Reader, Request, mhc_request, unqualified_request, mhc_uses_template, mhc_by_template,
  or_no_items,
}

unqualified :
    (mhcs : List MachineHealthCheck) (r : Request)
    → In r (map unqualified_request mhcs)
    → r.namespace ≡ ""
unqualified [] r i = elim i [ ]
unqualified (x ∷ xs) r (head e) = ap (λ (q : Request). q.namespace) e
unqualified (x ∷ xs) r (tail i) = unqualified xs r i

-- No event about a template wakes up a MachineHealthCheck that is in a namespace.
pub mhc_by_template-asleep :
    (r : Reader) (kind name : String) (mhc : MachineHealthCheck)
    → mhc.namespace ≢ ""
    → ¬ In (mhc_request mhc) (mhc_by_template r kind name)
unfolding mhc_by_template
mhc_by_template-asleep r kind name mhc named i = named (
    unqualified (filter (mhc_uses_template kind name) (or_no_items r.mhc_list)) (mhc_request mhc) i)
