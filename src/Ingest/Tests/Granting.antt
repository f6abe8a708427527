-- ===== src/Ingest/Tests/Granting.antt =====
-- The convergence of `reconcile` against a broker that is a list of topics, the last change first.
use llm_telemetry_engine.Base.{
  ℕ, ◌≡◌, refl, false, true, Option, none, some, List, [], ◌∷◌, map, String, str_eq, eq_iff, ok,
  Dict, lookup, arith, if◌then◌else◌, get,
}
use llm_telemetry_engine.Ingest.Specs.{TopicSpec}
use llm_telemetry_engine.Ingest.Topics.{
  TopicMetadata, Admin, World, ReconcileResult, Request, create_topics, create_partitions,
  alter_configs, no_result, partition_counts, reconcile,
}
use llm_telemetry_engine.Ingest.Topics.Granting.{
  View, IsGranting, IsAllowed, IsDone, AgreeOn, target,
}
use llm_telemetry_engine.Ingest.Topics.Converge.{reconcile-converges}

record Topic : Type 0 where
  name : String
  count : ℕ
  config : Dict String

abbrev find : List Topic → String → Option Topic
find [] name = none
find (t ∷ ts) name = if str_eq t.name name then some t else find ts name

abbrev count_of : Option Topic → Option ℕ
count_of none = none
count_of (some t) = some t.count

abbrev config_of : Option Topic → Dict String
config_of none = []
config_of (some t) = t.config

abbrev view : View (List Topic)
view = record {
  partitions_of = λ ts name. count_of (find ts name);
  config_of = λ ts name. config_of (find ts name);
}

abbrev changed_by : Request → List Topic → Topic
changed_by (create_topics spec) ts = record {
  name = spec.name;
  count = spec.partitions;
  config = spec.config;
}
changed_by (create_partitions name count) ts = record {
  name = name;
  count = count;
  config = config_of (find ts name);
}
changed_by (alter_configs name config) ts = record {
  name = name;
  count = get (count_of (find ts name)) 0;
  config = config;
}

abbrev listing : List Topic → List TopicMetadata
listing [] = []
listing (t ∷ ts) = record { name = t.name; partitions = t.count; error = false } ∷ listing ts

abbrev broker : Admin (List Topic)
broker = record {
  list_topics = λ ts. ok (listing ts);
  describe_configs = λ ts name. ok (config_of (find ts name));
  request = λ r ts. (ok tt, changed_by r ts ∷ ts);
}

lookup-listing :
    (ts : List Topic) (name : String)
    → lookup (partition_counts (listing ts)) name ≡ count_of (find ts name)
lookup-listing [] name = refl
lookup-listing (t ∷ ts) name = ground (arith, lookup-listing ts name)

itself : (name : String) → str_eq name name ≡ true
itself name = (eq_iff name name).1 refl

done :
    (r : Request) (ts : List Topic) → IsAllowed view r ts → IsDone view r ts (changed_by r ts ∷ ts)
done (create_topics spec) ts (missing, once) = rw (itself spec.name) (refl, once)
done (create_partitions name count) ts allowed = rw (itself name) (refl, refl)
done (alter_configs name config) ts (c, there, once) = rw (itself name, there) (refl, once)

others :
    (r : Request) (ts : List Topic) (name : String)
    → str_eq (target r) name ≡ false
    → AgreeOn view ts (changed_by r ts ∷ ts) name
others (create_topics spec) ts name h = rw h (refl, refl)
others (create_partitions changed count) ts name h = rw h (refl, refl)
others (alter_configs changed config) ts name h = rw h (refl, refl)

broker-IsGranting : IsGranting view broker
broker-IsGranting = record {
  listed = λ ts. (listing ts, refl, lookup-listing ts);
  described = λ ts name c h. refl;
  granted = λ r ts h. refl;
  done = done;
  others = λ r ts name allowed h. others r ts name h;
}

-- One topic to grow and configure, and one to create.
abbrev desired : List TopicSpec
desired =
    (record {
      name = "spans";
      partitions = 6;
      replication_factor = 1;
      config = ("retention.ms", "21600000") ∷ [];
    })
    ∷ (record { name = "dead"; partitions = 1; replication_factor = 1; config = [] })
    ∷ []

abbrev start : World (List Topic)
start = record { broker = record { name = "spans"; count = 3; config = [] } ∷ []; issued = [] }

reconcile-converges_example :
    (a : ReconcileResult) × (v : World (List Topic)) × (reconcile broker false desired start
      ≡ (ok a, v))
    × (reconcile broker true desired v
        ≡ (ok (record no_result { unchanged = map (λ (s : TopicSpec). s.name) desired }), v))
reconcile-converges_example =
    reconcile-converges view broker broker-IsGranting desired start true ((refl, tt), (tt, tt))
      (omega arith, (tt, tt)) (refl, (refl, tt))
