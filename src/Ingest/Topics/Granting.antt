-- ===== src/Ingest/Topics/Granting.antt =====
-- A broker that grants what `reconcile` of telemetry_engine/ingest/topics.py may ask of it.
use llm_telemetry_engine.Base.{
  ℕ, ◌≤◌, ◌<◌, ◌≡◌, false, Option, none, some, List, [], ◌∷◌, String, str_eq, ok, Dict, lookup, All,
}
use llm_telemetry_engine.Ingest.Specs.{TopicSpec}
use llm_telemetry_engine.Ingest.Topics.{
  TopicMetadata, Admin, Request, create_topics, create_partitions, alter_configs, partition_counts,
  drift,
}

-- What a state of the broker says of a topic.
pub record View (S : Type 0) : Type 0 where
  pub partitions_of : S → String → Option ℕ
  pub config_of : S → String → Dict String

-- The dict differs from itself nowhere: a key that stood in it twice would have one value.
abbrev pub HasKeysOnce : Dict String → Type 0
HasKeysOnce config = drift config config ≡ []

abbrev pub target : Request → String
target (create_topics spec) = spec.name
target (create_partitions name count) = name
target (alter_configs name config) = name

module _ {S : Type 0} (view : View S) where
  -- A topic is created where it is missing, and changed where it is there, to more partitions; a configuration has no key twice.
  abbrev pub IsAllowed : Request → S → Type 0
  IsAllowed (create_topics spec) s =
      (view.partitions_of s spec.name ≡ none) × HasKeysOnce spec.config
  IsAllowed (create_partitions name count) s =
      (c : ℕ) × (view.partitions_of s name ≡ some c) × (c < count)
  IsAllowed (alter_configs name config) s =
      (c : ℕ) × (view.partitions_of s name ≡ some c) × HasKeysOnce config

  -- What a granted request changes of its topic.
  abbrev pub IsDone : Request → S → S → Type 0
  IsDone (create_topics spec) s s' =
      (view.partitions_of s' spec.name ≡ some spec.partitions)
      × (drift spec.config (view.config_of s' spec.name) ≡ [])
  IsDone (create_partitions name count) s s' =
      (view.partitions_of s' name ≡ some count) × (view.config_of s' name ≡ view.config_of s name)
  IsDone (alter_configs name config) s s' =
      (view.partitions_of s' name ≡ view.partitions_of s name)
      × (drift config (view.config_of s' name) ≡ [])

  abbrev pub AgreeOn : S → S → String → Type 0
  AgreeOn s s' name =
      (view.partitions_of s' name ≡ view.partitions_of s name)
      × (view.config_of s' name ≡ view.config_of s name)

  -- The broker lists its topics, describes those that are there, and grants what is allowed. A request changes no other topic.
  pub record IsGranting (admin : Admin S) : Type 0 where
    pub listed :
        (s : S)
        → (topics : List TopicMetadata) × (admin.list_topics s ≡ ok topics)
          × ((name : String) → lookup (partition_counts topics) name ≡ view.partitions_of s name)
    pub described :
        (s : S) (name : String) (c : ℕ)
        → view.partitions_of s name ≡ some c
        → admin.describe_configs s name ≡ ok (view.config_of s name)
    pub granted : (r : Request) (s : S) → IsAllowed r s → (admin.request r s).0 ≡ ok tt
    pub done : (r : Request) (s : S) → IsAllowed r s → IsDone r s (admin.request r s).1
    pub others :
        (r : Request) (s : S) (name : String)
        → IsAllowed r s
        → str_eq (target r) name ≡ false
        → AgreeOn s (admin.request r s).1 name

-- The topic needs no shrinking.
abbrev pub Fits : ℕ → Option ℕ → Type 0
Fits wanted none = Unit
Fits wanted (some c) = c ≤ wanted

-- No topic is named twice.
abbrev pub AreDistinct : List TopicSpec → Type 0
AreDistinct [] = Unit
AreDistinct (spec ∷ specs) =
    All (λ (s : TopicSpec). str_eq spec.name s.name ≡ false) specs × AreDistinct specs
