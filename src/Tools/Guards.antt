-- ===== src/Tools/Guards.antt =====
-- scripts/find_inert_guards.py. What `ast` finds in the files is a parameter: the functions that they
-- define, and the names that each file refers to.
pub mod Shape
pub mod Audit
use llm_telemetry_engine.Base.{
  ℕ, ◌+◌, zero, suc, String, Bool, true, false, not, ◌&&◌, ◌||◌, List, [], ◌∷◌, ◌++◌, length, Dict,
  contains, is_empty, if◌then◌else◌,
}
use llm_telemetry_engine.Base.Text.{Text, codes, strip_prefix}
use llm_telemetry_engine.Base.{Option, none, some}
use llm_telemetry_engine.Tools.Tasks.{ℤ, pos}

pub record Definition : Type 0 where
  pub name : String
  pub module_path : String
  pub lineno : ℕ
  pub doc_first_line : String

pub record Report : Type 0 where
  pub never_referenced : List Definition
  pub only_tests : List Definition
  pub reviewed : List Definition

unfoldable pub total : Report → ℕ
total report = length report.never_referenced + length report.only_tests

unfoldable pub guard_prefixes : List String
guard_prefixes =
    "verify" ∷ "validate" ∷ "check" ∷ "assert" ∷ "ensure" ∷ "require" ∷ "guard" ∷ "_verify"
    ∷ "_validate" ∷ "_check" ∷ "_assert" ∷ "_ensure" ∷ "_require" ∷ []

unfoldable pub guard_substrings : List String
guard_substrings = "fingerprint" ∷ "sanity" ∷ "invariant" ∷ "consistency" ∷ []

unfoldable pub reviewed_test_only : List String
reviewed_test_only = "assert_dimensions_are_disjoint" ∷ []

abbrev pub is_some : {A : Type 0} → Option A → Bool
is_some none = false
is_some (some a) = true

-- `text.startswith(prefix)`
abbrev pub starts_with : Text → Text → Bool
starts_with prefix text = is_some (strip_prefix prefix text)

-- `part in text`
abbrev pub occurs : Text → Text → Bool
occurs part [] = is_empty part
occurs part (c ∷ text) = starts_with part (c ∷ text) || occurs part text

-- `any(p(x) for x in xs)`
abbrev pub any : {A : Type 0} → (A → Bool) → List A → Bool
any p [] = false
any p (x ∷ xs) = p x || any p xs

-- Of a name in lower case.
unfoldable pub is_guard_shaped : Text → Bool
unfolding guard_prefixes guard_substrings
is_guard_shaped lowered =
    any (λ p. starts_with (codes p) lowered) guard_prefixes
    || any (λ s. occurs (codes s) lowered) guard_substrings

-- A function that `ast.walk` finds, and the lower case of its name.
pub record Function : Type 0 where
  pub definition : Definition
  pub lowered : Text

-- `_definitions`, of what the files define
unfoldable pub definitions : List Function → List Definition
unfolding is_guard_shaped
definitions [] = []
definitions (f ∷ found) =
    let rest = definitions found in if is_guard_shaped f.lowered then f.definition ∷ rest else rest

-- Whether the module is a test: `m.startswith("tests/")`
unfoldable pub is_test : String → Bool
is_test m = starts_with (codes "tests/") (codes m)

-- `references.get(name, set())`, of the names that each module refers to
unfoldable pub used_in : Dict (List String) → String → List String
used_in [] name = []
used_in ((m, names) ∷ modules) name =
    let rest = used_in modules name in if contains names name then m ∷ rest else rest

-- Whether `used_in_production` has a module.
unfoldable pub is_used_in_production : List String → Bool
unfolding is_test
is_used_in_production modules = any (λ m. not (is_test m)) modules

-- What `main` returns for a total.
unfoldable pub exit_code : ℕ → ℤ
exit_code zero = pos 0
exit_code (suc n) = pos 1

module _ (references : Dict (List String)) where
  unfoldable pub add : Definition → Report → Report
  unfolding used_in is_used_in_production reviewed_test_only
  add d report =
      let found = used_in references d.name in
      if contains reviewed_test_only d.name
      then record report { reviewed = report.reviewed ++ (d ∷ []) }
      else if is_used_in_production found
      then report
      else if is_empty found
      then record report { never_referenced = report.never_referenced ++ (d ∷ []) }
      else record report { only_tests = report.only_tests ++ (d ∷ []) }

  unfoldable pub audit_loop : List Definition → Report → Report
  unfolding add
  audit_loop [] report = report
  audit_loop (d ∷ ds) report = audit_loop ds (add d report)

  unfoldable pub audit : List Function → Report
  unfolding audit_loop definitions
  audit found =
      audit_loop (definitions found)
        (record { never_referenced = []; only_tests = []; reviewed = [] })

  unfoldable pub main : List Function → ℤ
  unfolding audit exit_code
  main found = exit_code (total (audit found))
