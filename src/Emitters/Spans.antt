-- ===== src/Emitters/Spans.antt =====
-- The span data of telemetry_engine/emitters/workload.py. Offsets and durations are whole picoseconds
-- where the code has doubles of milliseconds.
pub mod Nested
use llm_telemetry_engine.Base.{
  ℕ, ◌≡◌, refl, ap, Bool, String, List, [], ◌∷◌, ◌++◌, Dict, length, All,
}

-- `StatusClass`
pub data StatusClass : Type 0 where
  ok client_error server_error timeout : StatusClass

-- `StatusClass.value`
abbrev pub status_value : StatusClass → String
status_value ok = "ok"
status_value client_error = "client_error"
status_value server_error = "server_error"
status_value timeout = "timeout"

-- `c.status is not StatusClass.OK`
abbrev pub is_failure : StatusClass → Bool
is_failure ok = Bool.false
is_failure _ = Bool.true

-- The value of an attribute. `decimal n d` is n / 10 ^ d, and `hex n d` a number in d digits.
pub data Attribute : Type 0 where
  string : String → Attribute
  int : ℕ → Attribute
  decimal : ℕ → ℕ → Attribute
  flag : Bool → Attribute
  hex : ℕ → ℕ → Attribute

pub record SpanFields : Type 0 where
  pub name : String
  pub kind : String
  pub start_offset : ℕ
  pub duration : ℕ
  pub attributes : Dict Attribute
  pub status : StatusClass

-- `SpanData`, and the tuple of its children.
mutual
  pub data SpanData : Type 0 where
    span_data : SpanFields → Children → SpanData

  pub data Children : Type 0 where
    none_left : Children
    child : SpanData → Children → Children

abbrev pub fields : SpanData → SpanFields
fields (span_data f children) = f

abbrev pub tuple : List SpanFields → Children
tuple [] = none_left
tuple (f ∷ fs) = child (span_data f none_left) (tuple fs)

-- `SpanData.walk`, the spans without their children.
unfoldable mutual
  pub walk : SpanData → List SpanFields
  walk (span_data f children) = f ∷ walk_children children

  pub walk_children : Children → List SpanFields
  walk_children none_left = []
  walk_children (child s rest) = walk s ++ walk_children rest

-- `SpanData.span_count`
unfoldable pub span_count : SpanData → ℕ
span_count s = length (walk s)

-- `TraceData`
pub record TraceData : Type 0 where
  pub root : SpanData
  pub tenant_id : String

pub walk-tuple : (fs : List SpanFields) → walk_children (tuple fs) ≡ fs
unfolding walk
walk-tuple [] = refl
walk-tuple (f ∷ fs) = ap (λ (l : List SpanFields). f ∷ l) (walk-tuple fs)
