-- ===== src/Tools/Tasks/Targets.antt =====
-- tasks.py: the targets, and the choice of one by its name.
use llm_telemetry_engine.Base.{
  String, Bool, Option, none, some, List, [], ◌∷◌, ◌||◌, Dict, lookup, str_eq, if◌then◌else◌,
}
use llm_telemetry_engine.Base.Exec.{Exec, pure, ◌>>=◌}
use llm_telemetry_engine.Tools.Tasks.{
  ℤ, pos, is_zero, Host, Setting, World, first_failure_of, py, compose, guarded, install,
}

unfoldable pub is_help : String → Bool
is_help name = str_eq name "-h" || str_eq name "--help" || str_eq name "help"

module _ {S : Type 0} (host : Host S) (setting : Setting) where
  -- A target whose body is one command of Python behind the guard.
  abbrev target : List String → Exec (World S) ℤ
  target args = guarded host setting (py host setting args)

  -- Two commands of Python behind the guard: both run, whatever the first returns.
  abbrev pub both : List String → List String → Exec (World S) ℤ
  both first second =
      guarded host setting (first_failure_of (py host setting first ∷ py host setting second ∷ []))

  unfoldable pub lint : Exec (World S) ℤ
  lint = both ("-m" ∷ "ruff" ∷ "check" ∷ "." ∷ []) ("-m" ∷ "ruff" ∷ "format" ∷ "--check" ∷ "." ∷ [])

  unfoldable pub fmt : Exec (World S) ℤ
  fmt = both ("-m" ∷ "ruff" ∷ "check" ∷ "--fix" ∷ "." ∷ []) ("-m" ∷ "ruff" ∷ "format" ∷ "." ∷ [])

  unfoldable pub test : Exec (World S) ℤ
  test = target ("-m" ∷ "pytest" ∷ "-m" ∷ "not integration" ∷ [])

  unfoldable pub test_integration : Exec (World S) ℤ
  test_integration = target ("-m" ∷ "pytest" ∷ "-m" ∷ "integration" ∷ [])

  unfoldable pub typecheck : Exec (World S) ℤ
  typecheck = target ("-m" ∷ "mypy" ∷ [])

  unfoldable pub audit_guards : Exec (World S) ℤ
  audit_guards = target ("scripts/find_inert_guards.py" ∷ [])

  unfoldable pub coverage : Exec (World S) ℤ
  coverage = target (
      "-m" ∷ "pytest" ∷ "-m" ∷ "not integration" ∷ "--cov=telemetry_engine"
      ∷ "--cov-report=term-missing:skip-covered" ∷ "--cov-report=html" ∷ [])

  unfoldable pub check_docs : Exec (World S) ℤ
  check_docs = target ("scripts/check_docs.py" ∷ [])

  unfoldable pub ci : Exec (World S) ℤ
  ci = first_failure_of (lint ∷ typecheck ∷ audit_guards ∷ check_docs ∷ test ∷ [])

  -- `py("-m", "telemetry_engine.cli", ...)`
  abbrev engine : List String → Exec (World S) ℤ
  engine args = target ("-m" ∷ "telemetry_engine.cli" ∷ args)

  unfoldable pub bootstrap : Exec (World S) ℤ
  bootstrap = engine ("bootstrap" ∷ [])

  unfoldable pub migrate : Exec (World S) ℤ
  migrate = engine ("migrate" ∷ [])

  unfoldable pub serve : Exec (World S) ℤ
  serve = engine ("serve" ∷ [])

  unfoldable pub load : Exec (World S) ℤ
  load = engine ("load" ∷ [])

  unfoldable pub load_burst : Exec (World S) ℤ
  load_burst = engine ("load" ∷ "--profile" ∷ "burst" ∷ "--duration" ∷ "60" ∷ [])

  unfoldable pub web : Exec (World S) ℤ
  web = engine ("web" ∷ [])

  unfoldable pub powerbi : Exec (World S) ℤ
  powerbi = target ("scripts/build_powerbi.py" ∷ [])

  unfoldable pub demo : Exec (World S) ℤ
  demo = target ("scripts/demo.py" ∷ [])

  unfoldable pub up : Exec (World S) ℤ
  unfolding is_zero bootstrap
  up = do
    rc ← compose host setting ("up" ∷ "-d" ∷ "--wait" ∷ [])
    if is_zero rc then bootstrap else pure rc

  unfoldable pub up_bare : Exec (World S) ℤ
  up_bare = compose host setting ("up" ∷ "-d" ∷ "--wait" ∷ [])

  unfoldable pub down : Exec (World S) ℤ
  down = compose host setting ("down" ∷ [])

  unfoldable pub nuke : Exec (World S) ℤ
  nuke = compose host setting ("down" ∷ "-v" ∷ [])

  unfoldable pub logs : Exec (World S) ℤ
  logs = compose host setting ("logs" ∷ "-f" ∷ "--tail" ∷ "100" ∷ [])

  unfoldable pub ps : Exec (World S) ℤ
  ps = compose host setting ("ps" ∷ [])

  -- `TARGETS`, which the decorator fills in the order of the file
  unfoldable pub targets : Dict (Exec (World S) ℤ)
  targets =
      ("install", install host setting)
      ∷ ("lint", lint)
      ∷ ("fmt", fmt)
      ∷ ("test", test)
      ∷ ("test-integration", test_integration)
      ∷ ("typecheck", typecheck)
      ∷ ("audit-guards", audit_guards)
      ∷ ("coverage", coverage)
      ∷ ("check-docs", check_docs)
      ∷ ("ci", ci)
      ∷ ("bootstrap", bootstrap)
      ∷ ("migrate", migrate)
      ∷ ("serve", serve)
      ∷ ("load", load)
      ∷ ("load-burst", load_burst)
      ∷ ("web", web)
      ∷ ("powerbi", powerbi)
      ∷ ("demo", demo)
      ∷ ("up", up)
      ∷ ("up-bare", up_bare)
      ∷ ("down", down)
      ∷ ("nuke", nuke)
      ∷ ("logs", logs)
      ∷ ("ps", ps)
      ∷ []

  unfoldable pub dispatch : Option (Exec (World S) ℤ) → Exec (World S) ℤ
  dispatch none = pure (pos 2)
  dispatch (some fn) = fn

  unfoldable pub main : List String → Exec (World S) ℤ
  unfolding dispatch targets
  main [] = pure (pos 0)
  main (name ∷ _) = if is_help name then pure (pos 0) else dispatch (lookup targets name)
