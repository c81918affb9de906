-- ===== src/Manager/Safe.antt =====
-- Which calls the manager may make: a remediation CR is created only with the lease of its node and
-- when none exists, and only a CR of the owner is deleted, as the API server has just returned it.
use node_healthcheck_operato.Prelude.{ℤ, String, true, false, none, [], ◌∷◌, is_some, value_of, ◌≡◌}
use node_healthcheck_operato.Remediation.{Unstructured, node_name_annotation}
use node_healthcheck_operato.Cluster.{
  Error, is_not_found, ok, failed, Call, get_node, request_lease, get_cr, create_cr, delete_cr,
  History,
}
use node_healthcheck_operato.Manager.{Manager, is_owner, find_existing}

-- The last calls before the creation of a CR with the annotation of a node: no CR was found for the
-- node and the template, and the node's lease was granted.
pub data MayCreate (m : Manager) (cr : Unstructured) : History → Type 0 where
  leased :
      {node : String} {duration : ℤ} (h : History) (e : Error)
      → (find_existing m cr h).0 ≡ failed e
      → is_not_found e ≡ true
      → value_of node_name_annotation cr.annotations ≡ node
      → m.environment.on_request_lease (get_node node ∷ (find_existing m cr h).1) node duration
        ≡ none
      → MayCreate m cr (request_lease node duration ∷ get_node node ∷ (find_existing m cr h).1)

-- The last call before the deletion of a CR: the CR was returned, it is owned by us, and it is not
-- being deleted.
pub data MayDelete (m : Manager) (cr : Unstructured) : History → Type 0 where
  ours :
      {h : History} {asked : Unstructured}
      → m.environment.on_get_cr h asked ≡ ok cr
      → is_owner cr m.owner ≡ true
      → is_some cr.deletion_timestamp ≡ false
      → MayDelete m cr (get_cr asked ∷ h)

abbrev pub IsAllowed : Manager → Call → History → Type 0
IsAllowed m (create_cr cr) h = MayCreate m cr h
IsAllowed m (delete_cr cr) h = MayDelete m cr h
IsAllowed m _ h = Unit

-- Every call was allowed after the calls before it.
abbrev pub IsSafe : Manager → History → Type 0
IsSafe m [] = Unit
IsSafe m (call ∷ h) = IsAllowed m call h × IsSafe m h
