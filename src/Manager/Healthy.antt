-- ===== src/Manager/Healthy.antt =====
-- Healthy nodes with remediation CRs, internal/controller/resources/manager.go: HandleHealthyNode and
-- what it calls. Times in annotations are formatted and parsed by package time.
pub mod Keeps
use node_healthcheck_operato.Prelude.{
  ℤ, pos, negsuc, ◌+ℤ◌, ◌-ℤ◌, ◌*ℤ◌, ltb_ℤ, eqb_ℤ, second, String, Bool, true, false, ◌&&◌, ◌||◌,
  Option, none, some, List, [], ◌∷◌, ◌++◌, is_empty, has_key, lookup, insert, delete, ◌==◌,
  if◌then◌else◌, ◌≡◌,
}
use node_healthcheck_operato.Api.{ObjectReference, Node, UnhealthyNode}
use node_healthcheck_operato.Remediation.{Unstructured, get_node_name_from_cr}
use node_healthcheck_operato.Cluster.{
  Error, other, Answer, ok, failed, Call, get_node, patch_node, update_cr, History, Environment,
}
use node_healthcheck_operato.NodeLease.{invalidate_node_lease}
use node_healthcheck_operato.Status.{healthy_delay_annotation, update_status_node_delayed_healthy}
use node_healthcheck_operato.Manager.{
  Manager, is_owner, delete_remediation_cr, list_remediation_crs,
}

-- time.Parse and Format for RFC 3339.
pub record Rfc3339 : Type 0 where
  pub format : ℤ → String
  pub parse : String → Option ℤ

abbrev pub manually_confirmed_healthy_annotation : String
manually_confirmed_healthy_annotation = "remediation.medik8s.io/manually-confirmed-healthy"

abbrev pub remaining_delay : ℤ → ℤ → Option ℤ → ℤ × Option Error
remaining_delay now delay none = (pos 0, some (other "parsing time"))
remaining_delay now delay (some start) =
    if ltb_ℤ now (start +ℤ delay) then (start +ℤ delay -ℤ now, none) else (pos 0, none)

abbrev pub update_error : Answer Unstructured → Option Error
update_error (failed e) = some e
update_error (ok c) = none

abbrev pub earlier : Option ℤ → ℤ → Option ℤ
earlier none delay = some delay
earlier (some requeue) delay = if ltb_ℤ delay requeue then some delay else some requeue

-- Whether a CR is deleted, and the requeue time so far; after an error the CR is deleted.
unfoldable pub decide : ℤ × Option Error → Option ℤ → Bool × Option ℤ
decide (delay, some e) requeue = (true, requeue)
decide (delay, none) requeue =
    if ltb_ℤ delay (pos 0)
    then (false, requeue)
    else if ltb_ℤ (pos 0) delay
    then (false, earlier requeue delay)
    else (true, requeue)

-- The results of HandleHealthyNode, and the unhealthy nodes of the status.
pub record Handled : Type 0 where
  pub crs : List Unstructured
  pub requeue : Option ℤ
  pub error : Option Error
  pub unhealthy_nodes : List UnhealthyNode

-- isManuallyConfirmedHealthyAnnotationSet.
abbrev pub is_confirmed : Answer Node → Answer Bool
is_confirmed (failed e) = failed e
is_confirmed (ok node) = ok (has_key manually_confirmed_healthy_annotation node.annotations)

abbrev pub delayed :
    String → List UnhealthyNode → List Unstructured → Option ℤ → Option Error → Handled
delayed node_name us crs requeue (some e) = record {
  crs = crs;
  requeue = none;
  error = some e;
  unhealthy_nodes = us;
}
delayed node_name us crs none none = record {
  crs = crs;
  requeue = none;
  error = none;
  unhealthy_nodes = us;
}
delayed node_name us crs (some r) none = record {
  crs = crs;
  requeue = some (r +ℤ second);
  error = none;
  unhealthy_nodes = update_status_node_delayed_healthy node_name crs us;
}

module _ (m : Manager) where
  -- removeConfirmedHealthyAnnotation.
  unfoldable pub remove_confirmed_healthy_annotation : String → History → Option Error × History
  remove_confirmed_healthy_annotation node_name h = elim (m.environment.on_get_node h node_name) [
    | failed e ↦ (some e, get_node node_name ∷ h)
    | ok node ↦
        if has_key manually_confirmed_healthy_annotation node.annotations
        then (let node' = record node {
          annotations = delete manually_confirmed_healthy_annotation node.annotations;
        } in
            (
              m.environment.on_patch_node (get_node node_name ∷ h) node',
              patch_node node' ∷ get_node node_name ∷ h,
            ))
        else (none, get_node node_name ∷ h)
  ]

  -- CleanUp.
  unfoldable pub clean_up : String → Bool → History → Option Error × History
  unfolding remove_confirmed_healthy_annotation
  clean_up node_name false h = invalidate_node_lease m.environment node_name h
  clean_up node_name true h =
      let (error, h') = remove_confirmed_healthy_annotation node_name h in
      elim error [ some e ↦ (some e, h') | none ↦ invalidate_node_lease m.environment node_name h' ]

  abbrev pub is_cr_of : String → String → Unstructured → Bool
  is_cr_of node_name cr_name cr =
      (cr.name == cr_name || get_node_name_from_cr cr == node_name) && is_owner cr m.owner

module _ (m : Manager) (clock : Rfc3339) (now : ℤ) where
  -- A delay of `d` > 0; the CR without a start time gets one, in the list of CRs too.
  abbrev pub positive_delay :
      ℤ → Unstructured → Option String → History → (ℤ × Option Error) × (Unstructured × History)
  positive_delay d cr (some text) h = (remaining_delay now d (clock.parse text), (cr, h))
  positive_delay d cr none h =
      let cr' = record cr {
        annotations = insert healthy_delay_annotation (clock.format now) cr.annotations;
      } in
      ((d, update_error (m.environment.on_update_cr h cr')), (cr', update_cr cr' ∷ h))

  abbrev pub delay_of :
      Option ℤ → Unstructured → History → (ℤ × Option Error) × (Unstructured × History)
  delay_of none cr h = ((pos 0, none), (cr, h))
  delay_of (some d) cr h =
      if eqb_ℤ d (pos 0)
      then ((pos 0, none), (cr, h))
      else if ltb_ℤ d (pos 0)
      then ((negsuc 0, none), (cr, h))
      else positive_delay d cr (lookup healthy_delay_annotation cr.annotations) h

  -- calcCrDeletionDelay.
  unfoldable pub calc_cr_deletion_delay :
      Unstructured → History → (ℤ × Option Error) × (Unstructured × History)
  calc_cr_deletion_delay cr h = delay_of m.healthy_delay cr h

  -- The delay of a CR in the loop of HandleHealthyNode: a confirmed node has none.
  abbrev pub delay_in_loop :
      Bool → Unstructured → History → (ℤ × Option Error) × (Unstructured × History)
  delay_in_loop true cr h = ((pos 0, none), (cr, h))
  delay_in_loop false cr h = calc_cr_deletion_delay cr h

  -- The loop over the CRs, with the CRs that it has passed and the requeue time so far.
  unfoldable pub handle_crs :
      Bool
      → List Unstructured
      → List Unstructured
      → Option ℤ
      → History
      → ((List Unstructured × Option ℤ) × Option Error) × History
  unfolding decide
  handle_crs confirmed [] passed requeue h = (((passed, requeue), none), h)
  handle_crs confirmed (cr ∷ crs) passed requeue h =
      let (delay, (cr', h1)) = delay_in_loop confirmed cr h in
      let (should_delete, requeue') = decide delay requeue in
      elim should_delete [
        | false ↦ handle_crs confirmed crs (passed ++ cr' ∷ []) requeue' h1
        | true ↦
            let ((deleted, error), h2) = delete_remediation_cr m cr' h1 in
            elim error [
              | some e ↦ (((passed ++ cr' ∷ crs, none), some e), h2)
              | none ↦ handle_crs confirmed crs (passed ++ cr' ∷ []) requeue' h2
            ]
      ]

  -- HandleHealthyNode once the CRs of the node and its confirmation are known.
  unfoldable pub handle_known :
      String → List UnhealthyNode → Bool → List Unstructured → History → Handled × History
  unfolding handle_crs clean_up
  handle_known node_name us confirmed [] h =
      let (error, h') = clean_up m node_name confirmed h in
      (record { crs = []; requeue = none; error = error; unhealthy_nodes = us }, h')
  handle_known node_name us confirmed (cr ∷ crs) h =
      let (((crs', requeue), error), h') = handle_crs confirmed (cr ∷ crs) [] none h in
      (delayed node_name us crs' requeue error, h')

  -- HandleHealthyNode, for a NodeHealthCheck with these templates and unhealthy nodes.
  unfoldable pub handle_healthy_node :
      List ObjectReference → List UnhealthyNode → String → String → History → Handled × History
  unfolding handle_known
  handle_healthy_node templates us node_name cr_name h =
      let (listed, h1) = list_remediation_crs m templates (is_cr_of m node_name cr_name) h in
      elim listed [
        | failed e ↦ (record { crs = []; requeue = none; error = some e; unhealthy_nodes = us }, h1)
        | ok crs ↦ elim (is_confirmed (m.environment.on_get_node h1 node_name)) [
          | failed e ↦ (
            record { crs = crs; requeue = none; error = some e; unhealthy_nodes = us },
            get_node node_name ∷ h1,
          )
          | ok confirmed ↦ handle_known node_name us confirmed crs (get_node node_name ∷ h1)
        ]
      ]
