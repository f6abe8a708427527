-- ===== src/Tools/Tasks/Isolation.antt =====
-- Which interpreter the targets of tasks.py run under.
use llm_telemetry_engine.Base.{
  not, ◌&&◌, arith, ◌≡◌, refl, ap, ◌⊎◌, inl, inr, String, Bool, true, false, Option, none, some,
  List, [], ◌∷◌, if-elim, Bool-cases, Result, ok, err, Dict, lookup, str_eq, All, if◌then◌else◌,
}
use llm_telemetry_engine.Base.Exec.{Exec, next, pure, ◌>>=◌}
use llm_telemetry_engine.Base.Issues as Logs
use llm_telemetry_engine.Tools.Tasks.{
  first_failure, first_failure_of, evaluate, ℤ, pos, Host, Setting, Process, World, has_venv,
  python_exe, start, run_found, run, py, compose, require_venv, guarded, create_venv, install,
  is_zero,
}
use llm_telemetry_engine.Tools.Tasks.Targets.{
  both, lint, fmt, test, test_integration, typecheck, audit_guards, coverage, check_docs, ci,
  bootstrap, migrate, serve, load, load_burst, web, powerbi, demo, up, up_bare, down, nuke, logs,
  ps, targets, dispatch, is_help, main,
}

-- The process runs under the interpreter of the environment, or is docker's.
abbrev pub IsIsolated : Setting → Process → Type 0
IsIsolated setting p = (p.exe ≡ setting.venv_python) ⊎ (p.asked ≡ "docker")

-- No process removes the interpreter of the environment, and creating the environment gives it one.
pub record IsKept {S : Type 0} (host : Host S) (setting : Setting) : Type 0 where
  pub keeps :
      (exe : String) (args : List String) (s : S)
      → host.path_exists setting.venv_python s ≡ true
      → host.path_exists setting.venv_python (host.call exe args s).1 ≡ true
  pub creates :
      (s : S)
      → (host.create s).0 ≡ ok tt
      → host.path_exists setting.venv_python (host.create s).1 ≡ true

abbrev log : {S : Type 0} → World S → List Process
log w = w.started

-- The world has every process of another one, and more that are isolated.
abbrev pub Issues : {S : Type 0} → Setting → World S → World S → Type 0
Issues {S} setting = Logs.Issues {W = World S} log (IsIsolated setting)

-- A proof for each target of the list, in order.
infixr 20 ◌&◌
◌&◌ : {A B : Type 0} → A → B → A × B
a & b = (a, b)

module _ {S : Type 0} (host : Host S) (setting : Setting) (kept : IsKept host setting)
    (used : setting.use_venv ≡ true) where
  abbrev Isolates : {A : Type 0} → Exec (World S) A → Type 0
  Isolates m = (w : World S) → Issues setting w (m w).1

  -- Where the environment is there, it stays, and the processes are isolated.
  abbrev Inside : {A : Type 0} → Exec (World S) A → Type 0
  Inside m =
      (w : World S)
      → has_venv host setting w ≡ true
      → Issues setting w (m w).1 × (has_venv host setting (m w).1 ≡ true)

  pure-Inside : {A : Type 0} (a : A) → Inside (pure a)
  pure-Inside a w h = (Logs.Issues-refl log (IsIsolated setting) w, h)

  next-Inside :
      {A B : Type 0} (w : World S) (m : Result A × World S) (f : A → Exec (World S) B)
      → Issues setting w m.1
      → has_venv host setting m.1 ≡ true
      → ((a : A) → Inside (f a))
      → Issues setting w (next m f).1 × (has_venv host setting (next m f).1 ≡ true)
  next-Inside w (err e, v) f h there k = (h, there)
  next-Inside w (ok a, v) f h there k =
      let (more, still) = k a v there in
      (Logs.Issues-trans log (IsIsolated setting) w v (f a v).1 h more, still)

  >>=-Inside :
      {A B : Type 0} (m : Exec (World S) A) (f : A → Exec (World S) B)
      → Inside m
      → ((a : A) → Inside (f a))
      → Inside (m >>= f)
  >>=-Inside m f h k w there = let (first, still) = h w there in next-Inside w (m w) f first still k

  start-Inside :
      (asked exe : String) (args : List String)
      → (exe ≡ setting.venv_python) ⊎ (asked ≡ "docker")
      → Inside (start host asked exe args)
  unfolding start has_venv
  start-Inside asked exe args h w there =
      (((_ ∷ [], refl, (h, tt))), kept.keeps exe args w.machine there)

  start-Isolates :
      (asked exe : String) (args : List String)
      → (exe ≡ setting.venv_python) ⊎ (asked ≡ "docker")
      → Isolates (start host asked exe args)
  unfolding start
  start-Isolates asked exe args h w = (_ ∷ [], refl, (h, tt))

  py-Inside : (args : List String) → Inside (py host setting args)
  unfolding py python_exe run run_found has_venv
  py-Inside args w there =
      rw (used, there, there)
        (start-Inside setting.venv_python setting.venv_python args (inl refl) w there)

  run_found-Isolates :
      (args : List String) (found : Option String) → Isolates (run_found host "docker" args found)
  unfolding run_found
  run_found-Isolates args none w = Logs.Issues-refl log (IsIsolated setting) w
  run_found-Isolates args (some exe) w = start-Isolates "docker" exe args (inr refl) w

  compose-Isolates : (args : List String) → Isolates (compose host setting args)
  unfolding compose run
  compose-Isolates args w = run_found-Isolates _ _ w

  guarded-Isolates : (rest : Exec (World S) ℤ) → Inside rest → Isolates (guarded host setting rest)
  unfolding guarded require_venv is_zero
  guarded-Isolates rest h w = elim (Bool-cases (has_venv host setting w)) [
    | inl there ↦ rw (used, there) ((h w there).0)
    | inr missing ↦ rw (used, missing) (Logs.Issues-refl log (IsIsolated setting) w)
  ]

  >>=-Isolates :
      {A B : Type 0} (m : Exec (World S) A) (f : A → Exec (World S) B)
      → Isolates m
      → ((a : A) → Isolates (f a))
      → Isolates (m >>= f)
  >>=-Isolates m f h k w = Logs.Issues-next log (IsIsolated setting) w (m w) f (h w) k

  target-Isolates : (args : List String) → Isolates (guarded host setting (py host setting args))
  target-Isolates args = guarded-Isolates (py host setting args) (py-Inside args)

  stop : {A : Type 0} (a : A) → Isolates (pure a)
  stop a w = Logs.Issues-refl log (IsIsolated setting) w

  there : (wanted has : Bool) → wanted ≡ true → (wanted && not has) ≡ false → has ≡ true
  there wanted has h k = ground arith

  install-Isolates : Isolates (install host setting)
  unfolding install create_venv has_venv
  install-Isolates w =
      if-elim (λ (m : Result ℤ × World S). Issues setting w m.1) _
        (λ h. created (host.create w.machine) refl)
        (λ h. (py-Inside _ w (there (setting.use_venv) (has_venv host setting w) used h)).0)
    where
      created :
          (m : Result (Unit {0}) × S)
          → host.create w.machine ≡ m
          → Issues setting w
              (next
                (m.0, record w { machine = m.1 })
                (λ _. py host setting ("-m" ∷ "pip" ∷ "install" ∷ "-e" ∷ ".[dev]" ∷ []))).1
      created (err e, s) h = Logs.Issues-refl log (IsIsolated setting) w
      created (ok u, s) h =
          let there = kept.creates w.machine (ap (λ (m : Result (Unit {0}) × S). m.0) h) in
          (py-Inside _ (record w { machine = s }) (rw h at there)).0

  evaluate-Inside : (calls : List (Exec (World S) ℤ)) → All Inside calls → Inside (evaluate calls)
  unfolding evaluate
  evaluate-Inside [] h = pure-Inside {A = List ℤ} []
  evaluate-Inside (call ∷ calls) h =
      >>=-Inside call (λ c. evaluate calls >>= λ codes. pure (c ∷ codes)) h.0
        (λ c.
          >>=-Inside (evaluate calls) (λ codes. pure (c ∷ codes)) (evaluate-Inside calls h.1)
            (λ codes. pure-Inside (c ∷ codes)))

  evaluate-Isolates :
      (calls : List (Exec (World S) ℤ)) → All Isolates calls → Isolates (evaluate calls)
  unfolding evaluate
  evaluate-Isolates [] h = stop {A = List ℤ} []
  evaluate-Isolates (call ∷ calls) h =
      >>=-Isolates call (λ c. evaluate calls >>= λ codes. pure (c ∷ codes)) h.0
        (λ c.
          >>=-Isolates (evaluate calls) (λ codes. pure (c ∷ codes)) (evaluate-Isolates calls h.1)
            (λ codes. stop (c ∷ codes)))

  first_failure_of-Inside :
      (calls : List (Exec (World S) ℤ)) → All Inside calls → Inside (first_failure_of calls)
  unfolding first_failure_of
  first_failure_of-Inside calls h =
      >>=-Inside (evaluate calls) (λ codes. pure (first_failure codes)) (evaluate-Inside calls h)
        (λ codes. pure-Inside (first_failure codes))

  first_failure_of-Isolates :
      (calls : List (Exec (World S) ℤ)) → All Isolates calls → Isolates (first_failure_of calls)
  unfolding first_failure_of
  first_failure_of-Isolates calls h =
      >>=-Isolates (evaluate calls) (λ codes. pure (first_failure codes))
        (evaluate-Isolates calls h) (λ codes. stop (first_failure codes))

  both-Isolates : (first second : List String) → Isolates (both host setting first second)
  both-Isolates first second = guarded-Isolates _ (
      first_failure_of-Inside (py host setting first ∷ py host setting second ∷ [])
        (py-Inside first, (py-Inside second, tt)))

  lint-Isolates : Isolates (lint host setting)
  unfolding lint
  lint-Isolates = both-Isolates _ _

  ci-Isolates : Isolates (ci host setting)
  unfolding ci typecheck audit_guards check_docs test
  ci-Isolates =
      first_failure_of-Isolates
        (lint host setting
          ∷ typecheck host setting
          ∷ audit_guards host setting
          ∷ check_docs host setting
          ∷ test host setting
          ∷ [])
        (
          lint-Isolates,
          (target-Isolates _, (target-Isolates _, (target-Isolates _, (target-Isolates _, tt)))),
        )

  up-Isolates : Isolates (up host setting)
  unfolding up bootstrap
  up-Isolates =
      >>=-Isolates (compose host setting ("up" ∷ "-d" ∷ "--wait" ∷ []))
        (λ rc. if is_zero rc then bootstrap host setting else pure rc) (compose-Isolates _)
        (λ rc. if-elim Isolates (is_zero rc) (λ h. target-Isolates _) (λ h. stop rc))

  targets-Isolates : All (λ b. Isolates b.1) (targets host setting)
  unfolding targets fmt test test_integration typecheck audit_guards coverage check_docs bootstrap
      migrate serve load load_burst web powerbi demo up_bare down nuke logs ps
  targets-Isolates =
      install-Isolates
      & lint-Isolates
      & both-Isolates _ _
      & target-Isolates _
      & target-Isolates _
      & target-Isolates _
      & target-Isolates _
      & target-Isolates _
      & target-Isolates _
      & ci-Isolates
      & target-Isolates _
      & target-Isolates _
      & target-Isolates _
      & target-Isolates _
      & target-Isolates _
      & target-Isolates _
      & target-Isolates _
      & target-Isolates _
      & up-Isolates
      & compose-Isolates _
      & compose-Isolates _
      & compose-Isolates _
      & compose-Isolates _
      & compose-Isolates _
      & tt

  dispatch-Isolates :
      (d : Dict (Exec (World S) ℤ)) (name : String)
      → All (λ b. Isolates b.1) d
      → Isolates (dispatch host setting (lookup d name))
  unfolding dispatch
  dispatch-Isolates [] name h w = Logs.Issues-refl log (IsIsolated setting) w
  dispatch-Isolates ((k, fn) ∷ d) name h w =
      if-elim (λ found. Isolates (dispatch host setting found)) (str_eq k name) (λ same. h.0)
        (λ other. dispatch-Isolates d name h.1) w

  -- Where the environment is in use, no process removes its interpreter, and creating it gives it one: whatever the arguments and whatever comes of it, each process that `main` starts runs under the interpreter of the environment, or is docker's.
  pub main-Isolates :
      (argv : List String) (w : World S) → Issues setting w (main host setting argv w).1
  unfolding main
  main-Isolates [] w = Logs.Issues-refl log (IsIsolated setting) w
  main-Isolates (name ∷ argv) w =
      let found : Isolates (
          if is_help name
          then pure (pos 0)
          else dispatch host setting (lookup (targets host setting) name)) =
        if-elim Isolates (is_help name) (λ h. stop (pos 0))
          (λ h. dispatch-Isolates (targets host setting) name targets-Isolates) in
      found w
