-- ===== src/Tools/Tasks/Checks.antt =====
-- What the exit code of `ci` in tasks.py says of its checks.
use llm_telemetry_engine.Base.{
  Error, Option, none, some, ◌≡◌, refl, ap, ◌⊎◌, inl, inr, true, false, List, [], ◌∷◌, ◌++◌, All,
  Bool-cases, Result, ok, err, zero, suc,
}
use llm_telemetry_engine.Base.Exec.{Exec, next, pure, ◌>>=◌}
use llm_telemetry_engine.Tools.Tasks.{
  ℤ, pos, negsuc, is_zero, first_failure, evaluate, first_failure_of, Host, Setting, World,
}
use llm_telemetry_engine.Tools.Tasks.Targets.{lint, typecheck, audit_guards, check_docs, test, ci}

-- The calls ran in order, each from the state that the one before left, and returned these codes, up to one that raised if any did.
pub data Ran {S : Type 0}
    : List (Exec (World S) ℤ) → World S → List ℤ → Option Error → World S → Type 0 where
  done : {w : World S} → Ran [] w [] none w
  then :
      {call : Exec (World S) ℤ} {calls : List (Exec (World S) ℤ)} {codes : List ℤ}
      {o : Option Error} {w v u : World S} {c : ℤ}
      → call w ≡ (ok c, v)
      → Ran calls v codes o u
      → Ran (call ∷ calls) w (c ∷ codes) o u
  raised :
      {call : Exec (World S) ℤ} {calls : List (Exec (World S) ℤ)} {w v : World S} {e : Error}
      → call w ≡ (err e, v)
      → Ran (call ∷ calls) w [] (some e) v

-- The code is zero and so are all, or it is the first of them that is not.
abbrev pub IsFirstFailure : ℤ → List ℤ → Type 0
IsFirstFailure c codes =
    ((c ≡ pos 0) × All (λ d. d ≡ pos 0) codes)
    ⊎ ((zeros : List ℤ) × (rest : List ℤ) × (codes ≡ zeros ++ (c ∷ rest))
        × All (λ d. d ≡ pos 0) zeros
        × (is_zero c ≡ false))

is_zero-true : (c : ℤ) → is_zero c ≡ true → c ≡ pos 0
unfolding is_zero
is_zero-true (pos zero) h = refl
is_zero-true (pos (suc n)) h = cc h
is_zero-true (negsuc n) h = cc h

first_failure-IsFirstFailure : (codes : List ℤ) → IsFirstFailure (first_failure codes) codes
unfolding first_failure
first_failure-IsFirstFailure [] = inl (refl, tt)
first_failure-IsFirstFailure (c ∷ codes) = elim (Bool-cases (is_zero c)) [
  | inl z ↦ rw z (elim (first_failure-IsFirstFailure codes) [
    | inl (none_failed, h) ↦ inl (none_failed, (is_zero-true c z, h))
    | inr (zeros, rest, e, h, k) ↦
        inr (c ∷ zeros, rest, ap (λ (l : List ℤ). c ∷ l) e, (is_zero-true c z, h), k)
  ])
  | inr failed ↦ rw failed (inr ([], codes, refl, tt, failed))
]

-- What came of the calls is what came of the whole: the codes, or what the last of them raised.
abbrev Evaluated :
    {S : Type 0} → List (Exec (World S) ℤ) → World S → Result (List ℤ) × World S → Type 0
Evaluated calls w (ok codes, u) = Ran calls w codes none u
Evaluated calls w (err e, u) = (codes : List ℤ) × Ran calls w codes (some e) u

abbrev pub Reported : {S : Type 0} → List (Exec (World S) ℤ) → World S → Result ℤ × World S → Type 0
Reported calls w (ok c, u) = (codes : List ℤ) × Ran calls w codes none u × IsFirstFailure c codes
Reported calls w (err e, u) = (codes : List ℤ) × Ran calls w codes (some e) u

module _ {S : Type 0} where
  Evaluated-cons :
      (call : Exec (World S) ℤ) (calls : List (Exec (World S) ℤ)) (w v : World S) (c : ℤ)
      (m : Result (List ℤ) × World S)
      → call w ≡ (ok c, v)
      → Evaluated calls v m
      → Evaluated (call ∷ calls) w (next m (λ codes. pure (c ∷ codes)))
  Evaluated-cons call calls w v c (ok codes, u) e h = Ran.then e h
  Evaluated-cons call calls w v c (err x, u) e (codes, h) = (c ∷ codes, Ran.then e h)

  evaluate-Evaluated :
      (calls : List (Exec (World S) ℤ)) (w : World S) → Evaluated calls w (evaluate calls w)
  unfolding evaluate
  evaluate-Evaluated [] w = Ran.done
  evaluate-Evaluated (call ∷ calls) w = go (call w) refl (evaluate-Evaluated calls)
    where
      go :
          (m : Result ℤ × World S)
          → call w ≡ m
          → ((v : World S) → Evaluated calls v (evaluate calls v))
          → Evaluated (call ∷ calls) w (next m (λ c. evaluate calls >>= λ codes. pure (c ∷ codes)))
      go (err x, v) e rest = ([], Ran.raised e)
      go (ok c, v) e rest = Evaluated-cons call calls w v c (evaluate calls v) e (rest v)

  Reported-of_Evaluated :
      (calls : List (Exec (World S) ℤ)) (w : World S) (m : Result (List ℤ) × World S)
      → Evaluated calls w m
      → Reported calls w (next m (λ codes. pure (first_failure codes)))
  Reported-of_Evaluated calls w (ok codes, u) h = (codes, h, first_failure-IsFirstFailure codes)
  Reported-of_Evaluated calls w (err e, u) h = h

abbrev pub checks : {S : Type 0} → Host S → Setting → List (Exec (World S) ℤ)
checks host setting =
    lint host setting
    ∷ typecheck host setting
    ∷ audit_guards host setting
    ∷ check_docs host setting
    ∷ test host setting
    ∷ []

-- `ci` runs its five checks in their order, each whatever the ones before returned, up to one that raises. Where none raises, its exit code is zero if all their codes are, and otherwise the first of them that is not zero.
pub ci-Reported :
    {S : Type 0} (host : Host S) (setting : Setting) (w : World S)
    → Reported (checks host setting) w (ci host setting w)
unfolding ci first_failure_of
ci-Reported host setting w =
    Reported-of_Evaluated (checks host setting) w (evaluate (checks host setting) w)
      (evaluate-Evaluated (checks host setting) w)
