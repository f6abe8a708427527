-- ===== src/Tools/Guards/Audit.antt =====
-- What the exit code of scripts/find_inert_guards.py says of the guards.
use mathlib.Core.List.{Memᴰ}
use llm_telemetry_engine.Base.{
  ℕ, zero, suc, ◌+◌, ◌≡◌, refl, sym, ap, ◌∙◌, ◌↔◌, ◌⊎◌, inl, inr, String, Bool, true, false, not,
  ◌||◌, List, [], ◌∷◌, ◌++◌, length-append, All, All-mono, Dict, contains, is_empty, Bool-cases,
  if◌then◌else◌, arith, str_eq, eq_iff,
}
use llm_telemetry_engine.Tools.Tasks.{pos}
use llm_telemetry_engine.Tools.Guards.Shape.{
  IsGuard, IsProduction, definitions-All_iff, is_test-IsProduction,
}
use llm_telemetry_engine.Tools.Guards.{
  Definition, Report, total, Function, reviewed_test_only, definitions, is_test, used_in,
  is_used_in_production, add, audit_loop, audit, exit_code, main,
}

module _ (references : Dict (List String)) where
  -- A module that is not a test refers to the name.
  abbrev pub IsUsed : String → Type 0
  IsUsed name =
      (m : String) × (names : List String) × Memᴰ (m, names) references
      × (contains names name ≡ true)
      × IsProduction m

  -- A guard that needs no review.
  abbrev pub IsLive : Definition → Type 0
  IsLive d = (d.name ≡ "assert_dimensions_are_disjoint") ⊎ IsUsed d.name

  abbrev is_live : Definition → Bool
  is_live d =
      contains reviewed_test_only d.name || is_used_in_production (used_in references d.name)

reviewed_name :
    (name : String)
    → contains reviewed_test_only name ≡ true
    → name ≡ "assert_dimensions_are_disjoint"
unfolding reviewed_test_only
reviewed_name name h = elim (Bool-cases (str_eq "assert_dimensions_are_disjoint" name)) [
  | inl same ↦ sym ((eq_iff "assert_dimensions_are_disjoint" name).0 same)
  | inr other ↦ let never = rw other at h in cc never
]

name_reviewed :
    (name : String)
    → name ≡ "assert_dimensions_are_disjoint"
    → contains reviewed_test_only name ≡ true
unfolding reviewed_test_only
name_reviewed name e =
    let same = (eq_iff "assert_dimensions_are_disjoint" name).1 (sym e) in rw same refl

not-true : (b : Bool) → not b ≡ true → b ≡ false
not-true true h = cc h
not-true false h = refl

IsUsed-tail :
    (head : String × List String) (references : Dict (List String)) (name : String)
    → IsUsed references name
    → IsUsed (head ∷ references) name
IsUsed-tail head references name (m, names, there, refers, production) =
    (m, names, Memᴰ.tail there, refers, production)

production-IsUsed :
    (references : Dict (List String)) (name : String)
    → is_used_in_production (used_in references name) ≡ true
    → IsUsed references name
unfolding used_in is_used_in_production
production-IsUsed [] name h = cc h
production-IsUsed ((m, names) ∷ modules) name h = elim (Bool-cases (contains names name)) [
  | inr other ↦ IsUsed-tail (m, names) modules name (production-IsUsed modules name (rw other at h))
  | inl refers ↦ elim (Bool-cases (is_test m)) [
    | inr production ↦ (m, names, Memᴰ.head refl, refers, (is_test-IsProduction m).0 production)
    | inl tested ↦
        IsUsed-tail (m, names) modules name
          (production-IsUsed modules name (rw (refers, tested) at h))
  ]
]

used_in-production :
    (references : Dict (List String)) (name m : String) (names : List String)
    → Memᴰ (m, names) references
    → contains names name ≡ true
    → is_test m ≡ false
    → is_used_in_production (used_in references name) ≡ true
unfolding used_in is_used_in_production
used_in-production [] name m names there refers production = elim there [ ]
used_in-production ((m', names') ∷ modules) name m names (Memᴰ.head e) refers production =
    let refers' : contains names' name ≡ true =
      sym (ap (λ (p : String × List String). contains p.1 name) e) ∙ refers in
    let production' : is_test m' ≡ false =
      sym (ap (λ (p : String × List String). is_test p.0) e) ∙ production in
    rw (refers', production') refl
used_in-production ((m', names') ∷ modules) name m names (Memᴰ.tail there) refers production =
    let rest = used_in-production modules name m names there refers production in
    elim (Bool-cases (contains names' name)) [
      | inr other ↦ rw other rest
      | inl also ↦ rw (also, rest) (or_true (not (is_test m')))
    ]
  where
    or_true : (b : Bool) → (b || true) ≡ true
    or_true true = refl
    or_true false = refl

module _ (references : Dict (List String)) where
  is_live_iff : (d : Definition) → (is_live references d ≡ true) ↔ IsLive references d
  is_live_iff d = (to, from)
    where
      to : is_live references d ≡ true → IsLive references d
      to h = elim (Bool-cases (contains reviewed_test_only d.name)) [
        | inl known ↦ inl (reviewed_name d.name known)
        | inr other ↦ inr (production-IsUsed references d.name (rw other at h))
      ]

      from : IsLive references d → is_live references d ≡ true
      from (inl known) = rw (name_reviewed d.name known) refl
      from (inr (m, names, there, refers, production)) =
          let used =
            used_in-production references d.name m names there refers
              ((is_test-IsProduction m).1 production) in
          ground (arith, used)

  total-add :
      (d : Definition) (report : Report)
      → total (add references d report) ≡ total report + (if is_live references d then 0 else 1)
  unfolding add total
  total-add d report =
      by (contains reviewed_test_only d.name) (is_used_in_production (used_in references d.name))
        (is_empty (used_in references d.name))
    where
      by :
          (known used none_at_all : Bool)
          → total (
              if known
              then record report { reviewed = report.reviewed ++ (d ∷ []) }
              else if used
              then report
              else if none_at_all
              then record report { never_referenced = report.never_referenced ++ (d ∷ []) }
              else record report { only_tests = report.only_tests ++ (d ∷ []) })
            ≡ total report + (if known || used then 0 else 1)
      by true used none_at_all = omega arith
      by false true none_at_all = omega arith
      by false false true = omega (arith, length-append report.never_referenced (d ∷ []))
      by false false false = omega (arith, length-append report.only_tests (d ∷ []))

  total-audit_loop :
      (ds : List Definition) (report : Report)
      → (total (audit_loop references ds report) ≡ 0)
        ↔ ((total report ≡ 0) × All (λ d. is_live references d ≡ true) ds)
  unfolding audit_loop
  total-audit_loop [] report = ((λ h. (h, tt)), λ h. h.0)
  total-audit_loop (d ∷ ds) report =
      let (to, from) = total-audit_loop ds (add references d report) in
      let step = total-add d report in
      elim (Bool-cases (is_live references d)) [
        | inl live ↦
            let same : total (add references d report) ≡ total report + 0 = rw live at step in
            (
              (λ h. let (none_left, rest) = to h in (omega (arith, none_left, same), (live, rest))),
              λ h. from (omega (arith, h.0, same), h.1.1),
            )
        | inr inert ↦
            let more : total (add references d report) ≡ total report + 1 = rw inert at step in
            ((λ h. absurd (omega (arith, (to h).0, more))), λ h. cc (h.1.0, inert))
      ]

  exit_code-zero : (n : ℕ) → exit_code n ≡ pos 0 → n ≡ 0
  unfolding exit_code
  exit_code-zero zero h = refl
  exit_code-zero (suc n) h = cc h

  total-empty : total (record { never_referenced = []; only_tests = []; reviewed = [] }) ≡ 0
  unfolding total
  total-empty = refl

  main-zero-IsLive :
      (found : List Function)
      → (main references found ≡ pos 0) ↔ All (IsLive references) (definitions found)
  unfolding main audit exit_code
  main-zero-IsLive found =
      let empty : Report = record { never_referenced = []; only_tests = []; reviewed = [] } in
      let (to, from) = total-audit_loop (definitions found) empty in
      (
        (λ h. All-mono (definitions found) (λ d. (is_live_iff d).0) (to (exit_code-zero _ h)).1),
        λ h.
            let none_left =
              from (total-empty, All-mono (definitions found) (λ d. (is_live_iff d).1) h) in
            rw none_left refl,
      )

  -- The script exits with 0 exactly where each function of the sources either has no name of a guard, or is the one reviewed guard, or is referred to by some module that is not a test, its own included: a guard's name, in lower case, begins with one of thirteen words or has one of four words in it.
  pub main-zero_iff :
      (found : List Function)
      → (main references found ≡ pos 0)
        ↔ All (λ (f : Function). (IsGuard f.lowered → ⊥) ⊎ IsLive references f.definition) found
  main-zero_iff found =
      let (to, from) = main-zero-IsLive found in
      let (to', from') = definitions-All_iff (IsLive references) found in
      ((λ h. to' (to h)), λ h. from (from' h))
