-- ===== src/Base/Dicts.antt =====
-- Dicts and the tests of collections.
use mathlib.Core.Bool.{Bool, true, false, ◌||◌}
use mathlib.Core.Option.{Option, none, some}
use mathlib.Core.List.{List, [], ◌∷◌}
use Prim.Native.String.{String}
use llm_telemetry_engine.Base.Tests.{str_eq, if◌then◌else◌}

-- A dict, in order of insertion.
abbrev pub Dict : Type 0 → Type 0
Dict V = List (String × V)

-- `d.get(key)`
abbrev pub lookup : {V : Type 0} → Dict V → String → Option V
lookup [] key = none
lookup ((k, v) ∷ d) key = if str_eq k key then some v else lookup d key

-- `d.get(key, default)`, of what `d.get(key)` is
abbrev pub get : {A : Type 0} → Option A → A → A
get none default = default
get (some a) default = a

abbrev pub is_empty : {A : Type 0} → List A → Bool
is_empty [] = true
is_empty (_ ∷ _) = false

-- `value in values`
abbrev pub contains : List String → String → Bool
contains [] v = false
contains (x ∷ xs) v = str_eq x v || contains xs v
