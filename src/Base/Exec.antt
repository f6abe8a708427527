-- ===== src/Base/Exec.antt =====
-- Calls that change a state and may raise: what a call returns, and the state that it leaves,
-- also when it raises.
use mathlib.Core.Path.{◌≡◌, refl}
use mathlib.Core.Option.{Option, none, some}
use llm_telemetry_engine.Base.Errors.{Error, Result, ok, err}

abbrev pub Exec : Type 0 → Type 0 → Type 0
Exec S A = S → Result A × S

abbrev pub next : {S A B : Type 0} → Result A × S → (A → Exec S B) → Result B × S
next (ok a, s) f = f a s
next (err e, s) f = (err e, s)

infixl 5 ◌>>=◌ ◌>>◌
abbrev pub ◌>>=◌ : {S A B : Type 0} → Exec S A → (A → Exec S B) → Exec S B
◌>>=◌ m f s = next (m s) f

abbrev pub ◌>>◌ : {S A B : Type 0} → Exec S A → Exec S B → Exec S B
m >> n = m >>= λ _. n

abbrev pub pure : {S A : Type 0} → A → Exec S A
pure a s = (ok a, s)

abbrev pub lift : {S A : Type 0} → Result A → Exec S A
lift r s = (r, s)

-- A call that raises, or changes the state.
abbrev pub run : {S : Type 0} → Option Error → (S → S) → Exec S (Unit {0})
run (some e) f s = (err e, s)
run none f s = (ok tt, f s)

-- Where the whole returned, the call did, and what follows it.
pub next-eq-ok :
    {S A B : Type 0} {y : B} (m : Result A × S) (f : A → Exec S B)
    → (next m f).0 ≡ ok y
    → (x : A) × (m.0 ≡ ok x) × ((f x m.1).0 ≡ ok y)
next-eq-ok (ok a, s) f h = (a, refl, h)
next-eq-ok (err e, s) f h = cc h
