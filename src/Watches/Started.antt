-- ===== src/Watches/Started.antt =====
-- Every key in the map of watches stands for a watch that was started.
use node_healthcheck_operato.Prelude.{
  String, true, none, List, [], ◌∷◌, any, In, ◌==◌, ◌≡◌, arith, eq_iff, Bool-cases, Option-cases,
  inl, inr,
}
use node_healthcheck_operato.Api.{GroupVersionKind, ObjectReference}
use node_healthcheck_operato.Cluster.{Call, watch, History, Environment}
use node_healthcheck_operato.Manager.{generate_remediation_cr_base}
use node_healthcheck_operato.Watches.{key_of, is_watched, add_watch, add_watches}
use node_healthcheck_operato.Watches.Complete.{add_watches-watched}

module _ (env : Environment) where
  -- The controller was told to watch a kind with this key, and gave no error.
  pub data IsStarted (key : String) : History → Type 0 where
    latest :
        {gvk : GroupVersionKind} {h : History}
        → key_of gvk ≡ key
        → env.on_watch h gvk ≡ none
        → IsStarted key (watch gvk ∷ h)
    before : {c : Call} {h : History} → IsStarted key h → IsStarted key (c ∷ h)

  -- So it is for every key of the map.
  abbrev pub AreStarted : List String → History → Type 0
  AreStarted watches h =
      (key : String) → any (λ (k : String). k == key) watches ≡ true → IsStarted key h

  added :
      (gvk : GroupVersionKind) (watches : List String) (h : History)
      → AreStarted watches h
      → env.on_watch h gvk ≡ none
      → AreStarted (key_of gvk ∷ watches) (watch gvk ∷ h)
  added gvk watches h s fine key w = elim (Bool-cases (key_of gvk == key)) [
    | inl same ↦ latest (ground (arith, eq_iff (key_of gvk) key)) fine
    | inr other ↦ before (s key (rw other at w))
  ]

  watch-AreStarted :
      (gvk : GroupVersionKind) (watches : List String) (h : History)
      → AreStarted watches h
      → AreStarted (add_watch env gvk watches h).0.1 (add_watch env gvk watches h).1
  unfolding add_watch
  watch-AreStarted gvk watches h s = elim (Bool-cases (is_watched gvk watches)) [
    | inl old ↦ rw (old, add_watch) s
    | inr new ↦ elim (Option-cases (env.on_watch h gvk)) [
      | inr (e, broken) ↦ rw (new, add_watch) (rw broken (λ key w. before (s key w)))
      | inl fine ↦ rw (new, add_watch) (rw fine (added gvk watches h s fine))
    ]
  ]

  watches-AreStarted :
      (refs : List ObjectReference) (watches : List String) (h : History)
      → AreStarted watches h
      → AreStarted (add_watches env refs watches h).0.1 (add_watches env refs watches h).1
  unfolding add_watches
  watches-AreStarted [] watches h s = s
  watches-AreStarted (ref ∷ refs) watches h s =
      let base = generate_remediation_cr_base ref.gvk in
      let first = add_watch env ref.gvk watches h in
      let second = add_watch env base first.0.1 first.1 in
      let s1 = watch-AreStarted ref.gvk watches h s in
      let s2 = watch-AreStarted base first.0.1 first.1 s1 in
      elim (Option-cases first.0.0) [
        | inr (e, broken) ↦ rw (broken, add_watches) s1
        | inl fine ↦ elim (Option-cases second.0.0) [
          | inr (e, broken) ↦ rw (fine, add_watches) (rw broken s2)
          | inl fine_too ↦
              rw (fine, add_watches) (rw fine_too (watches-AreStarted refs second.0.1 second.1 s2))
        ]
      ]

  -- If every key of the map of watches stands for a watch that the controller has started without an
  -- error, then this is so after watches have been added too, whether there was an error or not; and if
  -- there was none, a watch has been started for the kind of every template and for the kind of its CRs.
  pub add_watches-IsStarted :
      (refs : List ObjectReference) (watches : List String) (h : History)
      → AreStarted watches h
      → let r = add_watches env refs watches h in
        AreStarted r.0.1 r.1
        × ((ref : ObjectReference)
            → r.0.0 ≡ none
            → In ref refs
            → IsStarted (key_of ref.gvk) r.1
              × IsStarted (key_of (generate_remediation_cr_base ref.gvk)) r.1)
  add_watches-IsStarted refs watches h s =
      let all = watches-AreStarted refs watches h s in
      (
        all,
        λ ref fine i.
            let (w, w') = add_watches-watched env refs watches h ref fine i in
            (all (key_of ref.gvk) w, all (key_of (generate_remediation_cr_base ref.gvk)) w'),
      )
