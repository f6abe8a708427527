-- ===== src/Base/Issues.antt =====
-- What a call adds to the log of the requests that it issues.
use mathlib.Core.Path.{◌≡◌, sym, ap, ◌∙◌}
use mathlib.Core.List.{List, [], ◌∷◌, ◌++◌, append_assoc, append-nil}
use llm_telemetry_engine.Base.Lists.{All}
use llm_telemetry_engine.Base.Errors.{Result, ok, err}
use llm_telemetry_engine.Base.Exec.{Exec, next}

pub All-append {ℓ κ} :
    {A : Type ℓ} (P : A → Type κ) (xs ys : List A) → All P xs → All P ys → All P (xs ++ ys)
All-append P [] ys h k = k
All-append P (x ∷ xs) ys h k = (h.0, All-append P xs ys h.1 k)

module _ {W R : Type 0} (log : W → List R) (P : R → Type 0) where
  -- The log grows, by requests of which `P` holds.
  abbrev pub Issues : W → W → Type 0
  Issues w w' = (new : List R) × (log w' ≡ log w ++ new) × All P new

  pub Issues-refl : (w : W) → Issues w w
  Issues-refl w = ([], sym (append-nil (log w)), tt)

  pub Issues-trans : (u v w : W) → Issues u v → Issues v w → Issues u w
  Issues-trans u v w (rs, e, h) (qs, e', h') = (
    rs ++ qs,
    e' ∙ ap (λ (l : List R). l ++ qs) e ∙ append_assoc (log u) rs qs,
    All-append P rs qs h h',
  )

  pub Issues-next :
      {A B : Type 0} (w : W) (m : Result A × W) (f : A → Exec W B)
      → Issues w m.1
      → ((a : A) (v : W) → Issues v (f a v).1)
      → Issues w (next m f).1
  Issues-next w (ok a, v) f h k = Issues-trans w v (f a v).1 h (k a v)
  Issues-next w (err e, v) f h k = h
