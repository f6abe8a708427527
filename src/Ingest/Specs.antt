-- ===== src/Ingest/Specs.antt =====
-- The desired topics of telemetry_engine/ingest/topics.py: `load_specs` starts at the parsed document.
use llm_telemetry_engine.Base.{
  ℕ, Option, List, [], ◌∷◌, String, ltb, Result, ok, err, value_error, ◌>>=◌, ◌>>◌, raise_if, Dict,
  get,
}

pub record TopicSpec : Type 0 where
  pub name : String
  pub partitions : ℕ
  pub replication_factor : ℕ
  pub config : Dict String

-- `TopicSpec(...)`
unfoldable pub new_spec : TopicSpec → Result TopicSpec
new_spec spec = do
  raise_if (ltb spec.partitions 1) value_error
  raise_if (ltb spec.replication_factor 1) value_error
  ok spec

-- A parsed entry of `topics:`; `none` is a key that is not there.
pub record Entry : Type 0 where
  pub name : String
  pub partitions : ℕ
  pub replication_factor : Option ℕ
  pub config : Option (Dict String)

unfoldable pub specs_of : List Entry → Result (List TopicSpec)
unfolding new_spec
specs_of [] = ok []
specs_of (t ∷ ts) = do
  spec ← new_spec (record {
    name = t.name;
    partitions = t.partitions;
    replication_factor = get t.replication_factor 1;
    config = get t.config [];
  })
  specs ← specs_of ts
  ok (spec ∷ specs)

-- `raw.get("topics") or []`
unfoldable pub load_specs : List Entry → Result (List TopicSpec)
unfolding specs_of
load_specs [] = err value_error
load_specs (t ∷ ts) = specs_of (t ∷ ts)
