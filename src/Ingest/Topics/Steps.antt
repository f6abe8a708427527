-- ===== src/Ingest/Topics/Steps.antt =====
-- One step of `reconcile` of telemetry_engine/ingest/topics.py against a granting broker.
use llm_telemetry_engine.Base.{
  ℕ, ◌≤◌, ◌≡◌, refl, ap, ◌∙◌, Bool, true, false, Option, none, some, List, [], ◌∷◌, ◌++◌, String,
  str_eq, ltb, ltb→lt, le_of_ltb, arith, Result, ok, Dict, is_empty, if-elim,
}
use llm_telemetry_engine.Base.Exec.{Exec}
use llm_telemetry_engine.Ingest.Specs.{TopicSpec}
use llm_telemetry_engine.Ingest.Topics.{
  Admin, World, Request, create_topics, create_partitions, alter_configs, ReconcileResult, drift,
  ask, reconcile_partitions, current_config, reconcile_config, reconcile_found,
}
use llm_telemetry_engine.Ingest.Topics.Granting.{
  View, HasKeysOnce, IsAllowed, AgreeOn, IsGranting, Fits,
}

module _ {S : Type 0} (view : View S) (admin : Admin S) (laws : IsGranting view admin) where
  -- The topic is as the spec says.
  abbrev pub IsAsWanted : S → TopicSpec → Type 0
  IsAsWanted s spec =
      (view.partitions_of s spec.name ≡ some spec.partitions)
      × (drift spec.config (view.config_of s spec.name) ≡ [])

  -- The call returns, and changes no topic but the one with the name.
  abbrev pub Settles : {A : Type 0} → TopicSpec → World S → Result A × World S → Type 0
  Settles {A} spec w m =
      (a : A) × (v : World S) × (m ≡ (ok a, v))
      × IsAsWanted v.broker spec
      × ((name : String) → str_eq spec.name name ≡ false → AgreeOn view w.broker v.broker name)

  -- The call returns, with the partitions of the spec, and changes no topic but the one with the name.
  abbrev Grows : {A : Type 0} → TopicSpec → World S → Result A × World S → Type 0
  Grows {A} spec w m =
      (a : A) × (v : World S) × (m ≡ (ok a, v))
      × (view.partitions_of v.broker spec.name ≡ some spec.partitions)
      × ((name : String) → str_eq spec.name name ≡ false → AgreeOn view w.broker v.broker name)

  ask-eq :
      (r : Request) (w : World S)
      → IsAllowed view r w.broker
      → ask admin false r w
        ≡ (ok tt, record { broker = (admin.request r w.broker).1; issued = w.issued ++ (r ∷ []) })
  unfolding ask
  ask-eq r w h = rw (laws.granted r w.broker h) refl

  is_empty-eq : {A : Type 0} (xs : List A) → is_empty xs ≡ true → xs ≡ []
  is_empty-eq [] h = refl
  is_empty-eq (x ∷ xs) h = cc h

  config-Settles :
      (spec : TopicSpec) (before : ReconcileResult × Bool) (w : World S)
      → view.partitions_of w.broker spec.name ≡ some spec.partitions
      → HasKeysOnce spec.config
      → Settles spec w (reconcile_config admin false spec before w)
  unfolding reconcile_config current_config
  config-Settles spec (result, topic_changed) w there once =
      if-elim (λ (m : Exec (World S) (ReconcileResult × Bool)). Settles spec w (m w))
        (is_empty spec.config)
        (λ nothing. (
          _,
          _,
          refl,
          (
            there,
            ap (λ (c : Dict String). drift c (view.config_of w.broker spec.name))
                (is_empty-eq spec.config nothing),
          ),
          (λ name h. (refl, refl)),
        ))
        (λ some_config. rw (laws.described w.broker spec.name spec.partitions there) (
          if-elim (λ (m : Exec (World S) (ReconcileResult × Bool)). Settles spec w (m w))
            (is_empty (drift spec.config (view.config_of w.broker spec.name)))
            (λ same. (_, _, refl, (there, is_empty-eq _ same), (λ name h. (refl, refl))))
            (λ differs.
              let r = alter_configs spec.name spec.config in
              let allowed : IsAllowed view r w.broker = (spec.partitions, there, once) in
              let (kept, set) = laws.done r w.broker allowed in
              rw (ask-eq r w allowed) (
                _,
                _,
                refl,
                (kept ∙ there, set),
                (λ name h. laws.others r w.broker name allowed h),
              ))))

  partitions-Settles :
      (spec : TopicSpec) (c : ℕ) (result : ReconcileResult) (w : World S)
      → view.partitions_of w.broker spec.name ≡ some c
      → c ≤ spec.partitions
      → (a : ReconcileResult × Bool) × (v : World S) × (reconcile_partitions admin false spec c
            result w
          ≡ (ok a, v))
        × (view.partitions_of v.broker spec.name ≡ some spec.partitions)
        × ((name : String) → str_eq spec.name name ≡ false → AgreeOn view w.broker v.broker name)
  unfolding reconcile_partitions
  partitions-Settles spec c result w there fits =
      if-elim (λ (m : Exec (World S) (ReconcileResult × Bool)). Grows spec w (m w))
        (ltb c spec.partitions)
        (λ fewer.
          let r = create_partitions spec.name spec.partitions in
          let allowed : IsAllowed view r w.broker = (c, there, ltb→lt c spec.partitions fewer) in
          rw (ask-eq r w allowed) (
            _,
            _,
            refl,
            (laws.done r w.broker allowed).0,
            (λ name h. laws.others r w.broker name allowed h),
          ))
        (λ enough.
          let le = le_of_ltb c spec.partitions enough in
          let same : c ≡ spec.partitions = omega (arith, le, fits) in
          if-elim (λ (m : Exec (World S) (ReconcileResult × Bool)). Grows spec w (m w))
            (ltb spec.partitions c)
            (λ more. let lt = ltb→lt spec.partitions c more in absurd (omega (arith, lt, fits)))
            (λ equal. (_, _, refl, there ∙ ap (λ (n : ℕ). some n) same, (λ name h. (refl, refl)))))

  pub AgreeOn-trans :
      (s t u : S) (name : String)
      → AgreeOn view s t name
      → AgreeOn view t u name
      → AgreeOn view s u name
  AgreeOn-trans s t u name h k = (k.0 ∙ h.0, k.1 ∙ h.1)

  pub found-Settles :
      (spec : TopicSpec) (result : ReconcileResult) (found : Option ℕ) (w : World S)
      → view.partitions_of w.broker spec.name ≡ found
      → Fits spec.partitions found
      → HasKeysOnce spec.config
      → Settles spec w (reconcile_found admin false spec result found w)
  unfolding reconcile_found
  found-Settles spec result none w missing fits once =
      let r = create_topics spec in
      rw (ask-eq r w (missing, once)) (
        _,
        _,
        refl,
        laws.done r w.broker (missing, once),
        (λ name h. laws.others r w.broker name (missing, once) h),
      )
  found-Settles spec result (some c) w there fits once =
      let (a, v, e, grown, kept) = partitions-Settles spec c result w there fits in
      let (b, u, e', wanted, kept') = config-Settles spec a v grown once in
      rw (e, e')
        (
          _,
          _,
          refl,
          wanted,
          (λ name h. AgreeOn-trans w.broker v.broker u.broker name (kept name h) (kept' name h)),
        )
