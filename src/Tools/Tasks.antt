-- ===== src/Tools/Tasks.antt =====
-- tasks.py: the targets as the commands that they start. The machine is a parameter.
pub mod Targets
pub mod Isolation
pub mod Checks
use llm_telemetry_engine.Base.{
  ℕ, zero, suc, String, Bool, true, false, not, ◌&&◌, ◌||◌, Option, none, some, List, [], ◌∷◌, ◌++◌,
  if◌then◌else◌, Result,
}
use llm_telemetry_engine.Base.Exec.{Exec, pure, ◌>>=◌, ◌>>◌}

-- An exit code: that of a process that a signal ended is below zero.
pub data ℤ : Type 0 where
  pos negsuc : ℕ → ℤ

unfoldable pub is_zero : ℤ → Bool
is_zero (pos zero) = true
is_zero (pos (suc n)) = false
is_zero (negsuc n) = false

-- The machine: files, the search path, processes, and the creation of an environment.
pub record Host (S : Type 0) : Type 0 where
  pub path_exists : String → S → Bool
  pub which : String → S → Option String
  pub call : String → List String → S → Result ℤ × S
  pub create : S → Result (Unit {0}) × S

-- The constants that the module reads at its start.
pub record Setting : Type 0 where
  -- `os.environ.get("TE_NO_VENV", "") != "1"`
  pub use_venv : Bool
  pub venv_python : String
  pub sys_executable : String
  pub compose_file : String

-- A process: what was asked for, the file that was started for it, and the arguments.
pub record Process : Type 0 where
  pub asked : String
  pub exe : String
  pub args : List String

pub record World (S : Type 0) : Type 0 where
  pub machine : S
  pub started : List Process

unfoldable pub first_failure : List ℤ → ℤ
unfolding is_zero
first_failure [] = pos 0
first_failure (c ∷ codes) = if is_zero c then first_failure codes else c

-- The arguments of a call are evaluated in order, and all of them.
unfoldable pub evaluate : {S : Type 0} → List (Exec (World S) ℤ) → Exec (World S) (List ℤ)
evaluate [] = pure []
evaluate (call ∷ calls) = do c ← call; codes ← evaluate calls; pure (c ∷ codes)

-- `first_failure(a(), b(), ...)`
unfoldable pub first_failure_of : {S : Type 0} → List (Exec (World S) ℤ) → Exec (World S) ℤ
unfolding evaluate first_failure
first_failure_of calls = do codes ← evaluate calls; pure (first_failure codes)

module _ {S : Type 0} (host : Host S) where
  unfoldable pub start : String → String → List String → Exec (World S) ℤ
  start asked exe args w =
      let (answer, machine) = host.call exe args w.machine in
      (
        answer,
        record {
          machine = machine;
          started = w.started ++ ((record { asked = asked; exe = exe; args = args }) ∷ []);
        },
      )

  unfoldable pub run_found : String → List String → Option String → Exec (World S) ℤ
  run_found command args none = pure (pos 127)
  run_found command args (some exe) = start command exe args

  unfoldable pub run : String → List String → Exec (World S) ℤ
  unfolding run_found
  run command args w =
      run_found command args
        (if host.path_exists command w.machine then some command else host.which command w.machine)
        w

  module _ (setting : Setting) where
    unfoldable pub has_venv : World S → Bool
    has_venv w = host.path_exists setting.venv_python w.machine

    unfoldable pub python_exe : World S → String
    unfolding has_venv
    python_exe w =
        if setting.use_venv && has_venv w then setting.venv_python else setting.sys_executable

    unfoldable pub py : List String → Exec (World S) ℤ
    unfolding python_exe
    py args w = run (python_exe w) args w

    unfoldable pub compose : List String → Exec (World S) ℤ
    compose args = run "docker" ("compose" ∷ "-f" ∷ setting.compose_file ∷ args)

    unfoldable pub require_venv : Exec (World S) ℤ
    unfolding has_venv
    require_venv w = pure (if not setting.use_venv || has_venv w then pos 0 else pos 1) w

    -- `if (rc := require_venv()) != 0: return rc`, before the rest of a target
    unfoldable pub guarded : Exec (World S) ℤ → Exec (World S) ℤ
    unfolding is_zero require_venv
    guarded rest = do rc ← require_venv; if is_zero rc then rest else pure rc

    unfoldable pub create_venv : Exec (World S) (Unit {0})
    create_venv w =
        let (answer, machine) = host.create w.machine in (answer, record w { machine = machine })

    unfoldable pub install : Exec (World S) ℤ
    unfolding has_venv create_venv py
    install w =
        let rest = py ("-m" ∷ "pip" ∷ "install" ∷ "-e" ∷ ".[dev]" ∷ []) in
        if setting.use_venv && not (has_venv w) then (create_venv >> rest) w else rest w
