-- ===== src/Status/Unique.antt =====
-- The list of unhealthy nodes is a map by name: every update keeps the names distinct.
use node_healthcheck_operato.Prelude.{
  ℤ, String, Bool, true, false, ◌||◌, none, some, List, [], ◌∷◌, ◌++◌, any, ◌≡◌, refl, arith,
  eq_iff,
}
use node_healthcheck_operato.Api.{UnhealthyNode, Remediation}
use node_healthcheck_operato.Remediation.{Unstructured}
use node_healthcheck_operato.Status.{
  is_named, add_remediation, update_first, update_status_remediation_started,
  update_status_node_healthy, update_status_node_delayed_healthy, update_status_node_unhealthy,
  update_status_node_conditions_healthy, mark_timed_out, set_healthy_timestamp, new_entry,
}

-- No two entries have one name.
abbrev pub IsMapByName : List UnhealthyNode → Type 0
IsMapByName [] = Unit
IsMapByName (u ∷ us) = (any (is_named u.name) us ≡ false) × IsMapByName us

module _ (node_name : String) (f : UnhealthyNode → UnhealthyNode)
    (keeps : (u : UnhealthyNode) → (f u).name ≡ u.name) where
  pub any-update_first :
      (k : String) (us : List UnhealthyNode)
      → any (is_named k) (update_first node_name f us) ≡ any (is_named k) us
  any-update_first k [] = refl
  any-update_first k (u ∷ us) = ground (arith, keeps u, any-update_first k us)

  update_first-IsMapByName :
      (us : List UnhealthyNode) → IsMapByName us → IsMapByName (update_first node_name f us)
  update_first-IsMapByName [] h = tt
  update_first-IsMapByName (u ∷ us) h =
      ground (arith, keeps u, any-update_first u.name us, update_first-IsMapByName us h.1)

pub add_remediation-name :
    (cr : Unstructured) (u : UnhealthyNode) → (add_remediation cr u).name ≡ u.name
add_remediation-name cr u = ground arith

pub any-append :
    (k : String) (us : List UnhealthyNode) (x : UnhealthyNode)
    → any (is_named k) (us ++ x ∷ []) ≡ (any (is_named k) us || is_named k x)
any-append k [] x = ground arith
any-append k (u ∷ us) x = ground (arith, any-append k us x)

append-IsMapByName :
    (us : List UnhealthyNode) (x : UnhealthyNode)
    → any (is_named x.name) us ≡ false
    → IsMapByName us
    → IsMapByName (us ++ x ∷ [])
append-IsMapByName [] x new h = (refl, tt)
append-IsMapByName (u ∷ us) x new h = ground (
  arith,
  any-append u.name us x,
  eq_iff u.name x.name,
  eq_iff x.name u.name,
  append-IsMapByName us x (ground arith) h.1,
)

any-healthy :
    (k node_name : String) (us : List UnhealthyNode)
    → any (is_named k) us ≡ false
    → any (is_named k) (update_status_node_healthy node_name us) ≡ false
unfolding update_status_node_healthy
any-healthy k node_name [] h = refl
any-healthy k node_name (u ∷ us) h = ground (arith, any-healthy k node_name us)

healthy-IsMapByName :
    (node_name : String) (us : List UnhealthyNode)
    → IsMapByName us
    → IsMapByName (update_status_node_healthy node_name us)
unfolding update_status_node_healthy
healthy-IsMapByName node_name [] h = tt
healthy-IsMapByName node_name (u ∷ us) h =
    ground (arith, any-healthy u.name node_name us h.0, healthy-IsMapByName node_name us h.1)

pub any-mark :
    (k node_name : String) (filter : Remediation → Bool) (now : ℤ) (us : List UnhealthyNode)
    → any (is_named k) (mark_timed_out node_name filter now us) ≡ any (is_named k) us
unfolding mark_timed_out
any-mark k node_name filter now [] = refl
any-mark k node_name filter now (u ∷ us) = ground (arith, any-mark k node_name filter now us)

mark-IsMapByName :
    (node_name : String) (filter : Remediation → Bool) (now : ℤ) (us : List UnhealthyNode)
    → IsMapByName us
    → IsMapByName (mark_timed_out node_name filter now us)
unfolding mark_timed_out
mark-IsMapByName node_name filter now [] h = tt
mark-IsMapByName node_name filter now (u ∷ us) h =
    ground
      (arith, any-mark u.name node_name filter now us, mark-IsMapByName node_name filter now us h.1)

-- The updates that the reconciler makes.
pub data Update : Type 0 where
  remediation_started : String → Unstructured → Update
  node_healthy : String → Update
  node_delayed_healthy : String → List Unstructured → Update
  node_unhealthy : String → Update
  node_conditions_healthy : String → ℤ → Update
  timed_out_at : String → (Remediation → Bool) → ℤ → Update

unfoldable pub apply : Update → List UnhealthyNode → List UnhealthyNode
apply (remediation_started n cr) us = update_status_remediation_started n cr us
apply (node_healthy n) us = update_status_node_healthy n us
apply (node_delayed_healthy n crs) us = update_status_node_delayed_healthy n crs us
apply (node_unhealthy n) us = update_status_node_unhealthy n us
apply (node_conditions_healthy n now) us = (update_status_node_conditions_healthy n now us).1
apply (timed_out_at n filter now) us = mark_timed_out n filter now us

-- Every update of the list keeps the names of its entries distinct.
pub apply-IsMapByName :
    (update : Update) (us : List UnhealthyNode) → IsMapByName us → IsMapByName (apply update us)
unfolding apply update_status_remediation_started update_status_node_delayed_healthy
    update_status_node_unhealthy update_status_node_conditions_healthy
apply-IsMapByName (remediation_started n cr) us h = ground (
  arith,
  update_first-IsMapByName n (add_remediation cr) (add_remediation-name cr) us h,
  append-IsMapByName us (new_entry n cr),
)
apply-IsMapByName (node_healthy n) us h = healthy-IsMapByName n us h
apply-IsMapByName (node_delayed_healthy n crs) us h = ground (
  arith,
  update_first-IsMapByName n (λ u. record u { healthy_delayed = some true }) (λ u. refl) us h,
)
apply-IsMapByName (node_unhealthy n) us h = ground (
  arith,
  append-IsMapByName us (record {
    name = n;
    remediations = [];
    conditions_healthy_timestamp = none;
    healthy_delayed = none;
  }),
)
apply-IsMapByName (node_conditions_healthy n now) us h =
    update_first-IsMapByName n (set_healthy_timestamp now) (λ u. ground arith) us h
apply-IsMapByName (timed_out_at n filter now) us h = mark-IsMapByName n filter now us h
