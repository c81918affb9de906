-- ===== src/Watches/Complete.antt =====
-- What is watched after watches have been added, and that nothing is watched twice.
use node_healthcheck_operato.Prelude.{
  String, true, false, none, List, [], ◌∷◌, any, In, head, tail, ◌==◌, ◌≡◌, sym, arith, eq_refl,
  Bool-cases, Option-cases, inl, inr,
}
use mathlib.Core.Path.{subst}
use node_healthcheck_operato.Api.{GroupVersionKind, ObjectReference}
use node_healthcheck_operato.Cluster.{History, Environment}
use node_healthcheck_operato.Manager.{generate_remediation_cr_base}
use node_healthcheck_operato.Watches.{key_of, is_watched, add_watch, add_watches}

-- No key stands twice in the map of watches.
abbrev pub AreDistinct : List String → Type 0
AreDistinct [] = Unit
AreDistinct (k ∷ ks) = (any (λ (j : String). j == k) ks ≡ false) × AreDistinct ks

module _ (env : Environment) where
  -- Watches are only added.
  watch-grows :
      (key gvk : GroupVersionKind) (watches : List String) (h : History)
      → is_watched key watches ≡ true
      → is_watched key (add_watch env gvk watches h).0.1 ≡ true
  unfolding add_watch
  watch-grows key gvk watches h w = ground arith

  watch-watched :
      (gvk : GroupVersionKind) (watches : List String) (h : History)
      → (add_watch env gvk watches h).0.0 ≡ none
      → is_watched gvk (add_watch env gvk watches h).0.1 ≡ true
  unfolding add_watch
  watch-watched gvk watches h fine = ground (arith, eq_refl (key_of gvk))

  watch-AreDistinct :
      (gvk : GroupVersionKind) (watches : List String) (h : History)
      → AreDistinct watches
      → AreDistinct (add_watch env gvk watches h).0.1
  unfolding add_watch
  watch-AreDistinct gvk watches h d = elim (Bool-cases (is_watched gvk watches)) [
    | inl old ↦ rw (old, add_watch) d
    | inr new ↦ elim (Option-cases (env.on_watch h gvk)) [
      | inr (e, broken) ↦ rw (new, add_watch) (rw broken d)
      | inl fine ↦ rw (new, add_watch) (rw fine (new, d))
    ]
  ]

  grows :
      (key : GroupVersionKind) (refs : List ObjectReference) (watches : List String) (h : History)
      → is_watched key watches ≡ true
      → is_watched key (add_watches env refs watches h).0.1 ≡ true
  unfolding add_watches
  grows key [] watches h w = w
  grows key (ref ∷ refs) watches h w =
      let first = add_watch env ref.gvk watches h in
      let second = add_watch env (generate_remediation_cr_base ref.gvk) first.0.1 first.1 in
      let w1 = watch-grows key ref.gvk watches h w in
      let w2 = watch-grows key (generate_remediation_cr_base ref.gvk) first.0.1 first.1 w1 in
      elim (Option-cases first.0.0) [
        | inr (e, broken) ↦ rw (broken, add_watches) w1
        | inl added ↦ elim (Option-cases second.0.0) [
          | inr (e, broken) ↦ rw (added, add_watches) (rw broken w2)
          | inl added_too ↦
              rw (added, add_watches) (rw added_too (grows key refs second.0.1 second.1 w2))
        ]
      ]

  here_or_later :
      (r : ObjectReference) (refs : List ObjectReference) (ref : ObjectReference)
      (watches : List String) (h : History)
      → In ref (r ∷ refs)
      → is_watched r.gvk watches ≡ true
      → is_watched (generate_remediation_cr_base r.gvk) watches ≡ true
      → (In ref refs
          → (is_watched ref.gvk (add_watches env refs watches h).0.1 ≡ true)
            × (is_watched
                  (generate_remediation_cr_base ref.gvk)
                  (add_watches env refs watches h).0.1
                ≡ true))
      → (is_watched ref.gvk (add_watches env refs watches h).0.1 ≡ true)
        × (is_watched (generate_remediation_cr_base ref.gvk) (add_watches env refs watches h).0.1
            ≡ true)
  here_or_later r refs ref watches h (tail i) w1 w2 rest = rest i
  here_or_later r refs ref watches h (head e) w1 w2 rest =
      subst
        (λ (x : ObjectReference).
          (is_watched x.gvk (add_watches env refs watches h).0.1 ≡ true)
          × (is_watched (generate_remediation_cr_base x.gvk) (add_watches env refs watches h).0.1
              ≡ true))
        (sym e)
        (
          grows r.gvk refs watches h w1,
          grows (generate_remediation_cr_base r.gvk) refs watches h w2,
        )

  -- After watches have been added without an error, the kind of every template is watched, and so is the
  -- kind of its CRs.
  pub add_watches-watched :
      (refs : List ObjectReference) (watches : List String) (h : History) (ref : ObjectReference)
      → (add_watches env refs watches h).0.0 ≡ none
      → In ref refs
      → (is_watched ref.gvk (add_watches env refs watches h).0.1 ≡ true)
        × (is_watched (generate_remediation_cr_base ref.gvk) (add_watches env refs watches h).0.1
            ≡ true)
  unfolding add_watches
  add_watches-watched [] watches h ref fine i = elim i [ ]
  add_watches-watched (r ∷ refs) watches h ref fine i =
      let first = add_watch env r.gvk watches h in
      let base = generate_remediation_cr_base r.gvk in
      let second = add_watch env base first.0.1 first.1 in
      elim (Option-cases first.0.0) [
        | inr (e, broken) ↦ cc (rw (broken, add_watches) at fine)
        | inl added ↦ elim (Option-cases second.0.0) [
          | inr (e, broken) ↦ cc (rw broken at (rw (added, add_watches) at fine))
          | inl added_too ↦
              let w1 =
                watch-grows r.gvk base first.0.1 first.1 (watch-watched r.gvk watches h added) in
              let w2 = watch-watched base first.0.1 first.1 added_too in
              rw (added, add_watches)
                (rw added_too (
                  here_or_later r refs ref second.0.1 second.1 i w1 w2 (λ j.
                    add_watches-watched refs second.0.1 second.1 ref
                      (rw added_too at (rw (added, add_watches) at fine)) j)))
        ]
      ]

  -- Adding watches starts none for a kind that is watched already: the keys of the map stay distinct.
  pub add_watches-AreDistinct :
      (refs : List ObjectReference) (watches : List String) (h : History)
      → AreDistinct watches
      → AreDistinct (add_watches env refs watches h).0.1
  unfolding add_watches
  add_watches-AreDistinct [] watches h d = d
  add_watches-AreDistinct (ref ∷ refs) watches h d =
      let base = generate_remediation_cr_base ref.gvk in
      let first = add_watch env ref.gvk watches h in
      let second = add_watch env base first.0.1 first.1 in
      let d1 = watch-AreDistinct ref.gvk watches h d in
      let d2 = watch-AreDistinct base first.0.1 first.1 d1 in
      elim (Option-cases first.0.0) [
        | inr (e, broken) ↦ rw (broken, add_watches) d1
        | inl added ↦ elim (Option-cases second.0.0) [
          | inr (e, broken) ↦ rw (added, add_watches) (rw broken d2)
          | inl added_too ↦
              rw (added, add_watches)
                (rw added_too (add_watches-AreDistinct refs second.0.1 second.1 d2))
        ]
      ]
