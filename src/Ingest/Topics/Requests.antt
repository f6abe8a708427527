-- ===== src/Ingest/Topics/Requests.antt =====
-- What `reconcile` of telemetry_engine/ingest/topics.py asks of the broker.
use llm_telemetry_engine.Base.{
  ℕ, ◌<◌, ◌≡◌, refl, Bool, true, false, Option, none, some, if-elim, List, [], ◌∷◌, ltb, ltb→lt,
  Result, ok, Dict, lookup, is_empty,
}
use llm_telemetry_engine.Base.Issues as Log
use llm_telemetry_engine.Base.Exec.{Exec, next, pure}
use llm_telemetry_engine.Ingest.Specs.{TopicSpec}
use llm_telemetry_engine.Ingest.Topics.{
  Request, create_topics, create_partitions, alter_configs, TopicMetadata, Admin, World,
  ReconcileResult, no_result, partition_counts, drift, existing_partition_counts, ask,
  reconcile_partitions, current_config, reconcile_config, reconcile_spec, reconcile_found,
  reconcile_loop, reconcile,
}

-- A topic is created that is not there, grown to more partitions than it has, or configured where it is there.
abbrev pub IsAllowed : Dict ℕ → Request → Type 0
IsAllowed existing (create_topics spec) = lookup existing spec.name ≡ none
IsAllowed existing (create_partitions name n) = (c : ℕ) × (lookup existing name ≡ some c) × (c < n)
IsAllowed existing (alter_configs name config) = (c : ℕ) × (lookup existing name ≡ some c)

module _ {S : Type 0} (existing : Dict ℕ) where
  abbrev pub Issues : World S → World S → Type 0
  Issues = Log.Issues (λ (w : World S). w.issued) (IsAllowed existing)

  abbrev Issues-refl : (w : World S) → Issues w w
  Issues-refl = Log.Issues-refl (λ (w : World S). w.issued) (IsAllowed existing)

  Issues-next :
      {A B : Type 0} (w : World S) (m : Result A × World S) (f : A → Exec (World S) B)
      → Issues w m.1
      → ((a : A) (v : World S) → Issues v (f a v).1)
      → Issues w (next m f).1
  Issues-next = Log.Issues-next (λ (w : World S). w.issued) (IsAllowed existing)

  ask-Issues :
      (admin : Admin S) (dry_run : Bool) (r : Request) (w : World S)
      → IsAllowed existing r
      → Issues w (ask admin dry_run r w).1
  unfolding ask
  ask-Issues admin true r w h = Issues-refl w
  ask-Issues admin false r w h = (r ∷ [], refl, (h, tt))

  module _ (admin : Admin S) (dry_run : Bool) where
    abbrev IssuesOf : {A : Type 0} → World S → Exec (World S) A → Type 0
    IssuesOf w m = Issues w (m w).1

    reconcile_partitions-Issues :
        (spec : TopicSpec) (current : ℕ) (result : ReconcileResult) (w : World S)
        → lookup existing spec.name ≡ some current
        → Issues w (reconcile_partitions admin dry_run spec current result w).1
    unfolding reconcile_partitions
    reconcile_partitions-Issues spec current result w there =
        if-elim (IssuesOf w) (ltb current spec.partitions)
          (λ less.
            Issues-next w (ask admin dry_run _ w) (λ _. pure _)
              (ask-Issues admin dry_run (create_partitions spec.name spec.partitions) w
                (current, there, ltb→lt current spec.partitions less))
              (λ a v. Issues-refl v))
          (λ more.
            if-elim (IssuesOf w) (ltb spec.partitions current) (λ _. Issues-refl w)
              (λ _. Issues-refl w))

    reconcile_config-Issues :
        (spec : TopicSpec) (current : ℕ) (before : ReconcileResult × Bool) (w : World S)
        → lookup existing spec.name ≡ some current
        → Issues w (reconcile_config admin dry_run spec before w).1
    unfolding reconcile_config current_config
    reconcile_config-Issues spec current (result, topic_changed) w there =
        if-elim (IssuesOf w) (is_empty spec.config) (λ _. Issues-refl w)
          (λ _.
            Issues-next w (current_config admin dry_run spec.name w) _ (Issues-refl w) (λ config v.
              if-elim (IssuesOf v) (is_empty (drift spec.config config)) (λ _. Issues-refl v)
                (λ _.
                  Issues-next v (ask admin dry_run _ v) (λ _. pure _)
                    (ask-Issues admin dry_run (alter_configs spec.name spec.config) v
                      (current, there))
                    (λ a u. Issues-refl u))))

    reconcile_found-Issues :
        (spec : TopicSpec) (result : ReconcileResult) (found : Option ℕ) (w : World S)
        → lookup existing spec.name ≡ found
        → Issues w (reconcile_found admin dry_run spec result found w).1
    unfolding reconcile_found
    reconcile_found-Issues spec result none w missing =
        Issues-next w (ask admin dry_run (create_topics spec) w) (λ _. pure _)
          (ask-Issues admin dry_run (create_topics spec) w missing) (λ a v. Issues-refl v)
    reconcile_found-Issues spec result (some current) w there =
        Issues-next w (reconcile_partitions admin dry_run spec current result w) _
          (reconcile_partitions-Issues spec current result w there)
          (λ after v.
            Issues-next v (reconcile_config admin dry_run spec after v) (λ _. pure _)
              (reconcile_config-Issues spec current after v there) (λ a u. Issues-refl u))

    reconcile_spec-Issues :
        (spec : TopicSpec) (result : ReconcileResult) (w : World S)
        → Issues w (reconcile_spec admin dry_run existing spec result w).1
    unfolding reconcile_spec
    reconcile_spec-Issues spec result w =
        reconcile_found-Issues spec result (lookup existing spec.name) w refl

    reconcile_loop-Issues :
        (specs : List TopicSpec) (result : ReconcileResult) (w : World S)
        → Issues w (reconcile_loop admin dry_run existing specs result w).1
    unfolding reconcile_loop
    reconcile_loop-Issues [] result w = Issues-refl w
    reconcile_loop-Issues (spec ∷ specs) result w =
        Issues-next w (reconcile_spec admin dry_run existing spec result w) _
          (reconcile_spec-Issues spec result w) (λ r v. reconcile_loop-Issues specs r v)

-- Whatever the broker answers, and however `reconcile` ends, each request that it issues either creates a topic that the listing lacks, grows a topic to more partitions than the listing gives it, or sets the configuration of a topic in the listing. It never asks for fewer partitions.
pub reconcile-requests :
    {S : Type 0} (admin : Admin S) (dry_run : Bool) (desired : List TopicSpec) (w : World S)
    (topics : List TopicMetadata)
    → admin.list_topics w.broker ≡ ok topics
    → Issues (partition_counts topics) w (reconcile admin dry_run desired w).1
unfolding reconcile existing_partition_counts
reconcile-requests admin dry_run desired w topics listed =
    rw listed (reconcile_loop-Issues (partition_counts topics) admin dry_run desired no_result w)
