-- ===== src/Watches.antt =====
-- Watches on templates and remediation CRs, internal/controller/resources/watch.go. The state is the
-- map of keys; it is returned with the history of calls.
pub mod Complete
pub mod Started
use node_healthcheck_operato.Prelude.{
  String, Bool, true, false, Option, none, some, List, [], ◌∷◌, ◌++◌, any, map, str_append, ◌==◌,
  if◌then◌else◌,
}
use node_healthcheck_operato.Api.{
  GroupVersionKind, ObjectReference, EscalatingRemediation, NodeHealthCheck,
}
use node_healthcheck_operato.MachineApi.{MachineHealthCheck}
use node_healthcheck_operato.Cluster.{Error, watch, History, Environment}
use node_healthcheck_operato.Manager.{generate_remediation_cr_base}

-- The method String of a GroupVersionKind.
abbrev pub key_of : GroupVersionKind → String
key_of gvk =
    str_append gvk.group (str_append "/" (str_append gvk.version (str_append ", Kind=" gvk.kind)))

abbrev pub is_watched : GroupVersionKind → List String → Bool
is_watched gvk watches = any (λ key. key == key_of gvk) watches

module _ (env : Environment) where
  -- addRemediationTemplateCRWatch and addRemediationCRWatch.
  unfoldable pub add_watch :
      GroupVersionKind → List String → History → (Option Error × List String) × History
  add_watch gvk watches h =
      if is_watched gvk watches then ((none, watches), h) else elim (env.on_watch h gvk) [
        | some e ↦ ((some e, watches), watch gvk ∷ h)
        | none ↦ ((none, key_of gvk ∷ watches), watch gvk ∷ h)
      ]

  -- addWatches: for every template its own kind, and then the kind of its CRs.
  unfoldable pub add_watches :
      List ObjectReference → List String → History → (Option Error × List String) × History
  unfolding add_watch
  add_watches [] watches h = ((none, watches), h)
  add_watches (ref ∷ refs) watches h =
      let ((error, watches1), h1) = add_watch ref.gvk watches h in
      elim error [
        | some e ↦ ((some e, watches1), h1)
        | none ↦
            let ((error', watches2), h2) =
              add_watch (generate_remediation_cr_base ref.gvk) watches1 h1 in
            elim error' [ some e ↦ ((some e, watches2), h2) | none ↦ add_watches refs watches2 h2 ]
      ]

abbrev pub reference_list : Option ObjectReference → List ObjectReference
reference_list none = []
reference_list (some ref) = ref ∷ []

-- AddWatchesNhc: the one template, if it is set, and the escalating ones.
unfoldable pub add_watches_nhc :
    Environment → NodeHealthCheck → List String → History → (Option Error × List String) × History
unfolding add_watches
add_watches_nhc env nhc watches h =
    add_watches env
      (reference_list nhc.spec.remediation_template
        ++ map (λ (e : EscalatingRemediation). e.remediation_template)
            nhc.spec.escalating_remediations)
      watches h

-- AddWatchesMhc.
unfoldable pub add_watches_mhc :
    Environment
    → MachineHealthCheck
    → List String
    → History
    → (Option Error × List String) × History
unfolding add_watches
add_watches_mhc env mhc watches h =
    add_watches env (reference_list mhc.spec.remediation_template) watches h
