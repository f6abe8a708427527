-- ===== src/ColdTier/Run/Windows.antt =====
-- Windows that tile a range have distinct files, and every instant of the range lies in one.
use mathlib.Core.Path.{subst}
use llm_telemetry_engine.Base.{
  ℕ, zero, suc, ◌%◌, ◌≤◌, ◌<◌, ◌≡◌, refl, sym, ap, ◌⊎◌, inl, inr, List, [], ◌∷◌, ◌++◌, max, take,
  All, leb, Bool-cases, tests, arith,
}
use llm_telemetry_engine.Datetime.{Datetime, Timedelta, date, datetime_max, hour}
use llm_telemetry_engine.ColdTier.Window.{ExportWindow}
use llm_telemetry_engine.ColdTier.Layout.{Calendar, FilePath}
use llm_telemetry_engine.ColdTier.Layout.Names.{
  IsCalendar, InRange, year_1000, file_path-injective, temp_path-ne-file_path,
}
use llm_telemetry_engine.ColdTier.Plan.Tiles.{Tiles, IsEnd}
use llm_telemetry_engine.ColdTier.Export.{Engine}
use llm_telemetry_engine.ColdTier.Run.Progress.{Apart, Distinct}

-- Each window lies in [a, b) and is not empty.
abbrev Inside : Datetime → Datetime → ExportWindow → Type 0
Inside a b w = (a ≤ w.start) × (w.start < w.end) × (w.end ≤ b)

Inside-wider :
    (a a' b : Datetime) (ws : List ExportWindow)
    → a ≤ a'
    → All (Inside a' b) ws
    → All (Inside a b) ws
Inside-wider a a' b [] h k = tt
Inside-wider a a' b (w ∷ ws) h k = (omega (arith, k.0), Inside-wider a a' b ws h k.1)

pub Tiles-le : (a b : Datetime) (ws : List ExportWindow) → Tiles a ws b → a ≤ b
Tiles-le a b [] h = omega arith
Tiles-le a b (w ∷ ws) h = omega (arith, h.1, Tiles-le w.end b ws h.2)

Tiles-Inside : (a b : Datetime) (ws : List ExportWindow) → Tiles a ws b → All (Inside a b) ws
Tiles-Inside a b [] h = tt
Tiles-Inside a b (w ∷ ws) h = (
  omega (arith, h.0, h.1, Tiles-le w.end b ws h.2),
  Inside-wider a w.end b ws (omega (arith, h.1)) (Tiles-Inside w.end b ws h.2),
)

-- Every instant of the range lies in a window, which has whatever all of them have.
pub Tiles-cover :
    (P : ExportWindow → Type 0) (a b t : Datetime) (ws : List ExportWindow)
    → Tiles a ws b
    → All P ws
    → a ≤ t
    → t < b
    → (w : ExportWindow) × P w × (w.start ≤ t) × (t < w.end)
Tiles-cover P a b t [] tiles h k l = absurd (omega arith)
Tiles-cover P a b t (w ∷ ws) tiles h k l = elim (Bool-cases (leb w.end t)) [
  | inl later ↦ Tiles-cover P w.end b t ws tiles.2 h.1 (omega tests) l
  | inr here ↦ (w, h.0, omega (arith, tiles.0), omega tests)
]

-- A first part of the windows tiles a first part of the range.
pub Tiles-prefix :
    (a b : Datetime) (ws vs : List ExportWindow)
    → Tiles a (ws ++ vs) b
    → (m : Datetime) × Tiles a ws m × (m ≤ b)
Tiles-prefix a b [] vs h = (a, refl, Tiles-le a b vs h)
Tiles-prefix a b (w ∷ ws) vs h =
    let (m, tiles, le) = Tiles-prefix w.end b ws vs h.2 in (m, (h.0, h.1, tiles), le)

pub take-prefix :
    (n : ℕ) (ws : List ExportWindow) → (rest : List ExportWindow) × (ws ≡ take n ws ++ rest)
take-prefix zero ws = (ws, refl)
take-prefix (suc n) [] = ([], refl)
take-prefix (suc n) (w ∷ ws) =
    let (rest, e) = take-prefix n ws in (rest, ap (λ (vs : List ExportWindow). w ∷ vs) e)

pub All-prefix :
    (P : ExportWindow → Type 0) (ws vs : List ExportWindow) → All P (ws ++ vs) → All P ws
All-prefix P [] vs h = tt
All-prefix P (w ∷ ws) vs h = (h.0, All-prefix P ws vs h.1)

module _ (cal : Calendar) (L : IsCalendar cal) (root : FilePath) (engine : Engine) where
  -- A window that ends on a full second and another that begins no earlier have distinct files.
  Apart-of_order :
      (w v : ExportWindow) (a b : Datetime)
      → (year_1000 ≤ date a) × (b ≤ datetime_max)
      → Inside a b w
      → Inside w.end b v
      → w.end % hour ≡ 0
      → Apart cal root engine w v
  Apart-of_order w v a b range hw hv whole =
      let w_start : InRange w.start = (omega (arith, range.0, hw.0), omega (arith, range.1, hw)) in
      let w_end : InRange w.end = (omega (arith, range.0, hw), omega (arith, range.1, hw)) in
      let v_start : InRange v.start =
        (omega (arith, range.0, hw, hv), omega (arith, range.1, hv)) in
      let v_end : InRange v.end = (omega (arith, range.0, hw, hv), omega (arith, range.1, hv)) in
      (
        λ e. temp_path-ne-file_path cal L root v w v_start v_end w_start w_end (sym e),
        λ e.
            let same = file_path-injective cal L root w v w_start w_end v_start v_end e in
            absurd (omega (arith, same.0, hw, hv, whole)),
      )

  Apart-All :
      (w : ExportWindow) (a b : Datetime) (ws : List ExportWindow)
      → (year_1000 ≤ date a) × (b ≤ datetime_max)
      → Inside a b w
      → All (Inside w.end b) ws
      → (w.end % hour ≡ 0) ⊎ (w.end ≡ b)
      → All (Apart cal root engine w) ws
  Apart-All w a b [] range hw h ends = tt
  Apart-All w a b (v ∷ vs) range hw h (inl whole) =
      (Apart-of_order w v a b range hw h.0 whole, Apart-All w a b vs range hw h.1 (inl whole))
  Apart-All w a b (v ∷ vs) range hw h (inr at_end) = absurd (omega (arith, h.0, at_end))

  Distinct-of_Tiles :
      (a b : Datetime) (window : Timedelta) (ws : List ExportWindow)
      → (year_1000 ≤ date a) × (b ≤ datetime_max)
      → hour ≤ window
      → Tiles a ws b
      → All (λ w. IsEnd window b w.start w.end) ws
      → Distinct cal root engine ws
  Distinct-of_Tiles a b window [] range wide tiles ends = tt
  Distinct-of_Tiles a b window (w ∷ ws) range wide tiles ends =
      let inside = Tiles-Inside a b (w ∷ ws) tiles in
      let rest = Tiles-Inside w.end b ws tiles.2 in
      let w_start : InRange w.start =
        (omega (arith, range.0, inside.0), omega (arith, range.1, inside.0)) in
      let w_end : InRange w.end =
        (omega (arith, range.0, inside.0), omega (arith, range.1, inside.0)) in
      (
        temp_path-ne-file_path cal L root w w w_start w_end w_start w_end,
        Apart-All w a b ws range inside.0 rest (ends.0.aligned wide),
        Distinct-of_Tiles w.end b window ws (omega (arith, range.0, inside.0), range.1) wide tiles.2
            ends.1,
      )

  pub Distinct-of_plan :
      (start horizon : Datetime) (window : Timedelta) (ws : List ExportWindow)
      → (year_1000 ≤ date start) × (horizon ≤ datetime_max)
      → hour ≤ window
      → Tiles start ws (max start horizon)
      → All (λ w. IsEnd window horizon w.start w.end) ws
      → Distinct cal root engine ws
  Distinct-of_plan start horizon window [] range wide tiles ends = tt
  Distinct-of_plan start horizon window (w ∷ ws) range wide tiles ends =
      let e : max start horizon ≡ horizon = omega (arith, tiles.0, tiles.1, ends.0.within) in
      Distinct-of_Tiles start horizon window (w ∷ ws) range wide
        (subst (Tiles start (w ∷ ws)) e tiles) ends

  pub Distinct-prefix :
      (ws vs : List ExportWindow)
      → Distinct cal root engine (ws ++ vs)
      → Distinct cal root engine ws
  Distinct-prefix [] vs h = tt
  Distinct-prefix (w ∷ ws) vs h =
      (h.0, All-prefix (Apart cal root engine w) ws vs h.1, Distinct-prefix ws vs h.2)
