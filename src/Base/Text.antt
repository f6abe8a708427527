-- ===== src/Base/Text.antt =====
-- Names of files and directories as lists of code points, and the string methods that read them.
use Prim.Native.Nat.{ℕ, ◌+◌, ◌<◌}
use Prim.Native.Char.{code}
use Prim.Native.String.{String}
use mathlib.Core.Path.{◌≡◌, refl}
use mathlib.Core.Option.{Option, none, some}
use mathlib.Core.List.{List, [], ◌∷◌, ◌++◌, append-nil}
use native.Mathlib.Omega.{arith}
use llm_telemetry_engine.Base.Tests.{ltb, ◌==◌, if◌then◌else◌}
use llm_telemetry_engine.Base.Lists.{length, length-append}

abbrev pub Text : Type 0
Text = List ℕ

abbrev pub codes : String → Text
codes String.[] = []
codes (String.◌∷◌ c s) = code c ∷ codes s

-- `text.removeprefix(p)` where `text.startswith(p)`
abbrev pub strip_prefix : Text → Text → Option Text
strip_prefix [] text = some text
strip_prefix (p ∷ ps) [] = none
strip_prefix (p ∷ ps) (c ∷ cs) = if p == c then strip_prefix ps cs else none

pub strip_prefix-append : (p text : Text) → strip_prefix p (p ++ text) ≡ some text
strip_prefix-append [] text = refl
strip_prefix-append (c ∷ p) text = ground (arith, strip_prefix-append p text)

-- What stands before the last dot.
unfoldable pub before_dot : Text → Option Text
before_dot [] = none
before_dot (c ∷ cs) = elim (before_dot cs) [
  | some stem ↦ some (c ∷ stem)
  | none ↦ if c == 46 then some [] else none
]

pub before_dot-append :
    (x y : Text) {stem : Text} → before_dot y ≡ some stem → before_dot (x ++ y) ≡ some (x ++ stem)
unfolding before_dot
before_dot-append [] y h = h
before_dot-append (c ∷ x) y h = ground (arith, before_dot-append x y h)

-- `PurePath.with_suffix` on a name. A dot that begins or ends the name starts no suffix.
unfoldable pub with_suffix : Text → Text → Text
with_suffix suffix name = elim (before_dot name) [
  | none ↦ name ++ suffix
  | some [] ↦ name ++ suffix
  | some (c ∷ stem) ↦
      if ltb (length stem + 2) (length name) then (c ∷ stem) ++ suffix else name ++ suffix
]

pub with_suffix-append :
    (suffix : Text) (c : ℕ) (x e : Text)
    → before_dot e ≡ some []
    → 1 < length e
    → with_suffix suffix (c ∷ (x ++ e)) ≡ c ∷ (x ++ suffix)
unfolding with_suffix
with_suffix-append suffix c x e dot long =
    let stem : before_dot (c ∷ (x ++ e)) ≡ some (c ∷ (x ++ [])) = before_dot-append (c ∷ x) e dot in
    rw (stem, with_suffix, append-nil x) (ground (arith, length-append x e))
