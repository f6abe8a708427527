-- ===== src/Ingest/Topics/Converge.antt =====
-- A second run of `reconcile` of telemetry_engine/ingest/topics.py, against a broker that grants what
-- it is asked for.
use mathlib.Core.Path.{subst}
use llm_telemetry_engine.Base.{
  ℕ, ◌≡◌, refl, ap, sym, ◌∙◌, Bool, false, List, [], ◌∷◌, map, String, str_eq, str_eq-sym, All-mono,
  ok, Dict, lookup, All,
}
use llm_telemetry_engine.Ingest.Specs.{TopicSpec}
use llm_telemetry_engine.Ingest.Topics.{
  Admin, World, ReconcileResult, no_result, partition_counts, drift, existing_partition_counts,
  reconcile_spec, reconcile_loop, reconcile,
}
use llm_telemetry_engine.Ingest.Topics.DryRun.{IsSettled, reconcile-settled}
use llm_telemetry_engine.Ingest.Topics.Granting.{
  View, HasKeysOnce, AgreeOn, IsGranting, Fits, AreDistinct,
}
use llm_telemetry_engine.Ingest.Topics.Steps.{IsAsWanted, AgreeOn-trans, found-Settles}

module _ {S : Type 0} (view : View S) (admin : Admin S) (laws : IsGranting view admin) where
  -- The dict of the run's start says of these topics what the broker does.
  abbrev IsCurrent : Dict ℕ → S → TopicSpec → Type 0
  IsCurrent existing s spec = view.partitions_of s spec.name ≡ lookup existing spec.name

  keeps-IsCurrent :
      (existing : Dict ℕ) (name : String) (s s' : S) (specs : List TopicSpec)
      → ((other : String) → str_eq name other ≡ false → AgreeOn view s s' other)
      → All (λ (t : TopicSpec). str_eq name t.name ≡ false) specs
      → All (IsCurrent existing s) specs
      → All (IsCurrent existing s') specs
  keeps-IsCurrent existing name s s' [] kept h k = tt
  keeps-IsCurrent existing name s s' (t ∷ specs) kept h k =
      ((kept t.name h.0).0 ∙ k.0, keeps-IsCurrent existing name s s' specs kept h.1 k.1)

  loop-Settles :
      (existing : Dict ℕ) (specs : List TopicSpec) (result : ReconcileResult) (w : World S)
      → AreDistinct specs
      → All (IsCurrent existing w.broker) specs
      → All (λ (s : TopicSpec). Fits s.partitions (lookup existing s.name)) specs
      → All (λ (s : TopicSpec). HasKeysOnce s.config) specs
      → (a : ReconcileResult) × (v : World S) × (reconcile_loop admin false existing specs result w
          ≡ (ok a, v))
        × All (IsAsWanted view admin laws v.broker) specs
        × ((name : String)
            → All (λ (s : TopicSpec). str_eq s.name name ≡ false) specs
            → AgreeOn view w.broker v.broker name)
  unfolding reconcile_loop reconcile_spec
  loop-Settles existing [] result w distinct current fits once =
      (_, _, refl, tt, λ name h. (refl, refl))
  loop-Settles existing (spec ∷ specs) result w distinct current fits once =
      let (a, v, e, (there, config), kept) =
        found-Settles view admin laws spec result (lookup existing spec.name) w current.0 fits.0
          once.0 in
      let still =
        keeps-IsCurrent existing spec.name w.broker v.broker specs kept distinct.0 current.1 in
      let (b, u, e', wanted, kept') =
        loop-Settles existing specs a v distinct.1 still fits.1 once.1 in
      let others = All-mono specs (λ (s : TopicSpec) h. str_eq-sym spec.name s.name h) distinct.0 in
      let (same_count, same_config) = kept' spec.name others in
      rw (e, e')
        (
          _,
          _,
          refl,
          ((same_count ∙ there, ap (λ c. drift spec.config c) same_config ∙ config), wanted),
          (λ name h.
              AgreeOn-trans view admin laws w.broker v.broker u.broker name (kept name h.0)
                (kept' name h.1)),
        )

  -- Let the broker list and describe its topics and grant what is allowed. Let no topic be desired twice or with fewer partitions than it has, and no configuration have a key twice. Then `reconcile` returns, and a second `reconcile` behind it, dry or not, issues no request and reports every topic as unchanged.
  pub reconcile-converges :
      (desired : List TopicSpec) (w : World S) (dry_run : Bool)
      → AreDistinct desired
      → All (λ (s : TopicSpec). Fits s.partitions (view.partitions_of w.broker s.name)) desired
      → All (λ (s : TopicSpec). HasKeysOnce s.config) desired
      → (a : ReconcileResult) × (v : World S) × (reconcile admin false desired w ≡ (ok a, v))
        × (reconcile admin dry_run desired v
            ≡ (ok (record no_result { unchanged = map (λ (s : TopicSpec). s.name) desired }), v))
  unfolding reconcile existing_partition_counts
  reconcile-converges desired w dry_run distinct fits once =
      let (topics, e, counts) = laws.listed w.broker in
      let (a, v, e', wanted, kept) =
        loop-Settles (partition_counts topics) desired no_result w distinct
          (All-mono {P = λ (s : TopicSpec). Fits s.partitions (view.partitions_of w.broker s.name)}
            desired (λ s h. sym (counts s.name)) fits)
          (All-mono {P = λ (s : TopicSpec). Fits s.partitions (view.partitions_of w.broker s.name)}
            desired (λ s h. subst (Fits s.partitions) (sym (counts s.name)) h) fits)
          once in
      let (topics', again, counts') = laws.listed v.broker in
      let settled =
        All-mono {P = IsAsWanted view admin laws v.broker}
          {Q = IsSettled admin (partition_counts topics') v.broker} desired
          (λ s h. (
            counts' s.name ∙ h.0,
            view.config_of v.broker s.name,
            laws.described v.broker s.name s.partitions h.0,
            h.1,
          ))
          wanted in
      let second = reconcile-settled admin dry_run desired v topics' again settled in
      let first : reconcile admin false desired w ≡ (ok a, v) = rw e e' in (a, v, first, second)
