-- ===== src/Tools/Tests.antt =====
-- The theorems on the tooling at concrete inputs.
use llm_telemetry_engine.Base.{
  ◌≡◌, ◌↔◌, ◌⊎◌, refl, All, Dict, List, String, str_eq, Bool, true, false, some, [], ◌∷◌, ok, ◌&&◌,
}
use llm_telemetry_engine.Tools.Tasks.{Host, Setting, World, pos}
use llm_telemetry_engine.Base.Text.{codes}
use llm_telemetry_engine.Tools.Guards as Guards
use llm_telemetry_engine.Tools.Guards.{Function}
use llm_telemetry_engine.Tools.Guards.Audit.{IsLive, main-zero_iff}
use llm_telemetry_engine.Tools.Guards.Shape.{IsGuard}
use llm_telemetry_engine.Tools.Tasks.Targets.{ci, main}
use llm_telemetry_engine.Tools.Tasks.Isolation.{IsKept, Issues, main-Isolates}
use llm_telemetry_engine.Tools.Tasks.Checks.{Reported, checks, ci-Reported}

-- The state says whether there is an environment.
abbrev machine : Host Bool
machine = record {
  path_exists = λ path there. str_eq path ".venv/bin/python" && there;
  which = λ command there. some command;
  call = λ exe args there. (ok (pos 0), there);
  create = λ there. (ok tt, true);
}

abbrev developer : Setting
developer = record {
  use_venv = true;
  venv_python = ".venv/bin/python";
  sys_executable = "/usr/bin/python";
  compose_file = "deploy/docker-compose.yml";
}

machine-IsKept : IsKept machine developer
machine-IsKept = record { keeps = λ exe args s h. h; creates = λ s h. refl }

abbrev clone : World Bool
clone = record { machine = false; started = [] }

main-Isolates_example : Issues developer clone (main machine developer ("install" ∷ []) clone).1
main-Isolates_example = main-Isolates machine developer machine-IsKept refl ("install" ∷ []) clone

abbrev installed : World Bool
installed = record { machine = true; started = [] }

ci-Reported_example : Reported (checks machine developer) installed (ci machine developer installed)
ci-Reported_example = ci-Reported machine developer installed

abbrev validate : Function
validate = record {
  definition = record {
    name = "validate";
    module_path = "src/config.py";
    lineno = 7;
    doc_first_line = "";
  };
  lowered = codes "validate";
}

abbrev references : Dict (List String)
references =
    ("tests/test_config.py", "validate" ∷ []) ∷ ("src/config.py", "load" ∷ "validate" ∷ []) ∷ []

main-zero_iff_example :
    (Guards.main references (validate ∷ []) ≡ pos 0)
    ↔ All
        (λ (f : Function). (IsGuard f.lowered → ⊥) ⊎ IsLive references f.definition)
        (validate ∷ [])
main-zero_iff_example = main-zero_iff references (validate ∷ [])
