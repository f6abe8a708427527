-- ===== src/ColdTier/Fingerprint.antt =====
-- `_fingerprints_agree` of telemetry_engine/coldtier/export.py. A fingerprint is the tuple of
-- aggregates that one query returns; `none` is SQL's NULL. The summed duration, at index 3, is
-- rounded to three decimals by both queries and stands here in thousandths, so its tolerance is
-- exact arithmetic here where the code computes in doubles.
use llm_telemetry_engine.Base.{
  ℕ, suc, ◌+◌, ◌-◌, ◌*◌, ◌≤◌, ◌≡◌, ◌≢◌, refl, ap, ◌↔◌, ◌⊎◌, Bool, true, false, not, ◌&&◌, Option,
  none, some, List, [], ◌∷◌, ltb, ◌==◌, if◌then◌else◌, length, arith,
}

abbrev pub Fingerprint : Type 0
Fingerprint = List (Option ℕ)

-- `abs(a - b)`
abbrev pub distance : ℕ → ℕ → ℕ
distance a b = (a - b) + (b - a)

-- `abs(a - b) > max(1.0, abs(a) * 1e-6)`, in thousandths
abbrev pub too_far : ℕ → ℕ → Bool
too_far a b = ltb 1000 (distance a b) && ltb a (distance a b * 1_000_000)

unfoldable pub column_agrees : ℕ → Option ℕ → Option ℕ → Bool
column_agrees index none none = true
column_agrees index none (some b) = false
column_agrees index (some a) none = false
column_agrees index (some a) (some b) = if index == 3 then not (too_far a b) else a == b

-- The loop over `enumerate(zip(source, parquet, strict=True))`.
unfoldable pub columns_agree : ℕ → Fingerprint → Fingerprint → Bool
columns_agree index (a ∷ source) (b ∷ parquet) =
    column_agrees index a b && columns_agree (suc index) source parquet
columns_agree index _ _ = true

unfoldable pub fingerprints_agree : Fingerprint → Fingerprint → Bool
unfolding columns_agree
fingerprints_agree source parquet =
    if length source == length parquet then columns_agree 0 source parquet else false

-- Two summed durations that differ by one unit at most, or by a millionth of the source's.
abbrev pub IsClose : ℕ → ℕ → Type 0
IsClose a b = (distance a b ≤ 1000) ⊎ (distance a b * 1_000_000 ≤ a)

abbrev pub SameColumn : ℕ → Option ℕ → Option ℕ → Type 0
SameColumn index none none = Unit
SameColumn index none (some b) = ⊥
SameColumn index (some a) none = ⊥
SameColumn index (some a) (some b) = ((index ≢ 3) × (a ≡ b)) ⊎ ((index ≡ 3) × IsClose a b)

-- As many columns on both sides, and each pair the same.
abbrev pub SameFrom : ℕ → Fingerprint → Fingerprint → Type 0
SameFrom index [] [] = Unit
SameFrom index (a ∷ s) (b ∷ p) = SameColumn index a b × SameFrom (suc index) s p
SameFrom index [] (b ∷ p) = ⊥
SameFrom index (a ∷ s) [] = ⊥

column_agrees_iff :
    (index : ℕ) (a b : Option ℕ) → (column_agrees index a b ≡ true) ↔ SameColumn index a b
unfolding column_agrees
column_agrees_iff index none none = (λ h. tt, λ h. refl)
column_agrees_iff index none (some b) = (λ h. cc, λ h. absurd h)
column_agrees_iff index (some a) none = (λ h. cc, λ h. absurd h)
column_agrees_iff index (some a) (some b) = ground arith

columns_agree→SameFrom :
    (index : ℕ) (s p : Fingerprint)
    → length s ≡ length p
    → columns_agree index s p ≡ true
    → SameFrom index s p
unfolding columns_agree
columns_agree→SameFrom index [] [] l h = tt
columns_agree→SameFrom index [] (b ∷ p) l h = absurd (omega arith)
columns_agree→SameFrom index (a ∷ s) [] l h = absurd (omega arith)
columns_agree→SameFrom index (a ∷ s) (b ∷ p) l h = (
  (column_agrees_iff index a b).0 (ground arith),
  columns_agree→SameFrom (suc index) s p (omega arith) (ground arith),
)

SameFrom→columns_agree :
    (index : ℕ) (s p : Fingerprint)
    → SameFrom index s p
    → (length s ≡ length p) × (columns_agree index s p ≡ true)
unfolding columns_agree
SameFrom→columns_agree index [] [] h = (refl, refl)
SameFrom→columns_agree index [] (b ∷ p) h = absurd h
SameFrom→columns_agree index (a ∷ s) [] h = absurd h
SameFrom→columns_agree index (a ∷ s) (b ∷ p) h =
    let first = (column_agrees_iff index a b).1 h.0 in
    let (same_length, rest) = SameFrom→columns_agree (suc index) s p h.1 in
    (ap suc same_length, rw (first, rest))

-- `_fingerprints_agree` accepts exactly the pairs with as many columns on both sides in which every column but the summed duration is equal, NULL only to NULL, and the summed duration is within one unit or a millionth of the source's.
pub fingerprints_agree_iff :
    (source parquet : Fingerprint)
    → (fingerprints_agree source parquet ≡ true) ↔ SameFrom 0 source parquet
unfolding fingerprints_agree
fingerprints_agree_iff source parquet = (
  λ h. columns_agree→SameFrom 0 source parquet (ground arith) (ground arith),
  λ h. let (l, c) = SameFrom→columns_agree 0 source parquet h in ground (arith, l, c),
)
