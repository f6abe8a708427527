-- ===== src/Ingest/Topics.antt =====
-- `reconcile` of telemetry_engine/ingest/topics.py. The broker's admin client is a parameter.
pub mod Requests
pub mod DryRun
pub mod Granting
pub mod Steps
pub mod Converge
use llm_telemetry_engine.Base.{
  ℕ, Bool, true, false, not, ◌&&◌, Option, none, some, List, [], ◌∷◌, ◌++◌, String, ltb, str_eq,
  if◌then◌else◌, Result, ok, err, Dict, lookup, is_empty, contains, map_ok,
}
use llm_telemetry_engine.Base.Exec.{Exec, pure, ◌>>=◌, ◌>>◌}
use llm_telemetry_engine.Ingest.Specs.{TopicSpec}

pub record ReconcileResult : Type 0 where
  pub created : List String
  pub partitions_grown : List String
  pub configs_updated : List String
  pub unchanged : List String
  pub refused : List String

abbrev pub no_result : ReconcileResult
no_result = record {
  created = [];
  partitions_grown = [];
  configs_updated = [];
  unchanged = [];
  refused = [];
}

-- `ReconcileResult.changed`
unfoldable pub changed : ReconcileResult → Bool
changed r = not (is_empty r.created && is_empty r.partitions_grown && is_empty r.configs_updated)

-- What reconciliation asks of the broker that may change it.
pub data Request : Type 0 where
  create_topics : TopicSpec → Request
  create_partitions : String → ℕ → Request
  alter_configs : String → Dict String → Request

pub record TopicMetadata : Type 0 where
  pub name : String
  pub partitions : ℕ
  pub error : Bool

-- The admin client on a broker's state `S`: a request is answered and leaves a state.
pub record Admin (S : Type 0) : Type 0 where
  pub list_topics : S → Result (List TopicMetadata)
  pub describe_configs : S → String → Result (Dict String)
  pub request : Request → S → Result (Unit {0}) × S

-- The broker, and the requests issued so far.
pub record World (S : Type 0) : Type 0 where
  pub broker : S
  pub issued : List Request

abbrev pub partition_counts : List TopicMetadata → Dict ℕ
partition_counts [] = []
partition_counts (t ∷ ts) =
    if t.error then partition_counts ts else (t.name, t.partitions) ∷ partition_counts ts

-- `{k: v for k, v in wanted.items() if current.get(k) != v}`
abbrev pub differs : Option String → String → Bool
differs none v = true
differs (some w) v = not (str_eq w v)

abbrev pub drift : Dict String → Dict String → Dict String
drift [] current = []
drift ((k, v) ∷ wanted) current =
    if differs (lookup current k) v then (k, v) ∷ drift wanted current else drift wanted current

module _ {S : Type 0} (admin : Admin S) (dry_run : Bool) where
  -- `_existing_partition_counts`
  unfoldable pub existing_partition_counts : Exec (World S) (Dict ℕ)
  existing_partition_counts w = (map_ok partition_counts (admin.list_topics w.broker), w)

  -- `if not dry_run: admin....result()`
  unfoldable pub ask : Request → Exec (World S) (Unit {0})
  ask r w =
      if dry_run
      then (ok tt, w)
      else (let (answer, broker) = admin.request r w.broker in
          (answer, record { broker = broker; issued = w.issued ++ (r ∷ []) }))

  -- The result after the partitions, and `topic_changed`.
  unfoldable pub reconcile_partitions :
      TopicSpec → ℕ → ReconcileResult → Exec (World S) (ReconcileResult × Bool)
  unfolding ask
  reconcile_partitions spec current result =
      if ltb current spec.partitions
      then (ask (create_partitions spec.name spec.partitions)
          >> pure (
            record result { partitions_grown = result.partitions_grown ++ (spec.name ∷ []) },
            true,
          ))
      else if ltb spec.partitions current
      then pure (record result { refused = result.refused ++ (spec.name ∷ []) }, false)
      else pure (result, false)

  -- `_current_config`
  unfoldable pub current_config : String → Exec (World S) (Dict String)
  current_config name w = (admin.describe_configs w.broker name, w)

  unfoldable pub reconcile_config :
      TopicSpec → ReconcileResult × Bool → Exec (World S) (ReconcileResult × Bool)
  unfolding ask current_config
  reconcile_config spec (result, topic_changed) =
      if is_empty spec.config
      then pure (result, topic_changed)
      else (current_config spec.name >>= λ current.
          if is_empty (drift spec.config current)
          then pure (result, topic_changed)
          else (ask (alter_configs spec.name spec.config)
              >> pure (
                record result { configs_updated = result.configs_updated ++ (spec.name ∷ []) },
                true,
              )))

  abbrev pub conclude : TopicSpec → ReconcileResult × Bool → ReconcileResult
  conclude spec (result, topic_changed) =
      if not topic_changed && not (contains result.refused spec.name)
      then record result { unchanged = result.unchanged ++ (spec.name ∷ []) }
      else result

  -- The body of the loop, by `existing.get(spec.name)`.
  unfoldable pub reconcile_found :
      TopicSpec → ReconcileResult → Option ℕ → Exec (World S) ReconcileResult
  unfolding ask reconcile_partitions reconcile_config
  reconcile_found spec result none =
      ask (create_topics spec)
      >> pure (record result { created = result.created ++ (spec.name ∷ []) })
  reconcile_found spec result (some current) = do
    after ← reconcile_partitions spec current result
    last ← reconcile_config spec after
    pure (conclude spec last)

  unfoldable pub reconcile_spec :
      Dict ℕ → TopicSpec → ReconcileResult → Exec (World S) ReconcileResult
  unfolding reconcile_found
  reconcile_spec existing spec result = reconcile_found spec result (lookup existing spec.name)

  unfoldable pub reconcile_loop :
      Dict ℕ → List TopicSpec → ReconcileResult → Exec (World S) ReconcileResult
  unfolding reconcile_spec
  reconcile_loop existing [] result = pure result
  reconcile_loop existing (spec ∷ specs) result =
      reconcile_spec existing spec result >>= reconcile_loop existing specs

  unfoldable pub reconcile : List TopicSpec → Exec (World S) ReconcileResult
  unfolding existing_partition_counts reconcile_loop
  reconcile desired = do
    existing ← existing_partition_counts
    reconcile_loop existing desired no_result
