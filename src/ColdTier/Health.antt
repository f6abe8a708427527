-- ===== src/ColdTier/Health.antt =====
-- `ExportHealth` and `health` of telemetry_engine/coldtier/export.py.
use llm_telemetry_engine.Base.{
  ℕ, ◌-◌, ◌*◌, ◌≤◌, ◌<◌, ◌≡◌, refl, ◌==◌, ltb, le_of_ltb, Bool, true, false, ◌&&◌, Option, none,
  some, if◌then◌else◌, Result, arith,
}
use llm_telemetry_engine.Base.Exec.{Exec, lift, pure, ◌>>=◌}
use llm_telemetry_engine.Datetime.{Datetime, hour}
use llm_telemetry_engine.ColdTier.Query.{LakeStats}
use llm_telemetry_engine.ColdTier.Run.{Server, Store, read_watermark, default_start}

pub record ExportHealth : Type 0 where
  pub watermark : Option Datetime
  pub hot_tier_oldest : Option Datetime
  pub ttl_hours : ℕ
  pub now : Datetime
  pub lake_rows : ℕ

abbrev pub is_some : {A : Type 0} → Option A → Bool
is_some none = false
is_some (some _) = true

-- `ExportHealth.watermark_without_data`
unfoldable pub watermark_without_data : ExportHealth → Bool
watermark_without_data h = is_some h.watermark && h.lake_rows == 0

-- `hours_behind > ttl_hours * 0.75` in microseconds, exactly; a watermark ahead of the clock is
-- not behind.
abbrev pub too_late : ℕ → Datetime → Option Datetime → Bool
too_late ttl_hours now none = true
too_late ttl_hours now (some watermark) = ltb (ttl_hours * (3 * hour)) ((now - watermark) * 4)

-- `ExportHealth.at_risk`
unfoldable pub at_risk : ExportHealth → Bool
unfolding watermark_without_data
at_risk h = if watermark_without_data h then true else too_late h.ttl_hours h.now h.watermark

unfoldable pub health : Server → Result LakeStats → ℕ → Exec Store ExportHealth
unfolding read_watermark default_start
health server stats ttl_hours = do
  now ← lift server.now
  lake ← lift stats
  watermark ← read_watermark server
  oldest ← default_start server
  pure (record {
    watermark = watermark;
    hot_tier_oldest = oldest;
    ttl_hours = ttl_hours;
    now = now;
    lake_rows = lake.rows;
  })

-- What it is not to be at risk.
abbrev IsSafe : ℕ → Datetime → ℕ → Option Datetime → Type 0
IsSafe ttl_hours now lake_rows watermark =
    (t : Datetime) × (watermark ≡ some t)
    × (0 < lake_rows)
    × ((now - t) * 4 ≤ ttl_hours * (3 * hour))

too_late-IsSafe :
    (ttl_hours : ℕ) (now : Datetime) (lake_rows : ℕ) (watermark : Option Datetime)
    → (is_some watermark && lake_rows == 0) ≡ false
    → too_late ttl_hours now watermark ≡ false
    → IsSafe ttl_hours now lake_rows watermark
too_late-IsSafe ttl_hours now lake_rows none h k = cc
too_late-IsSafe ttl_hours now lake_rows (some t) h k =
    (t, refl, ground arith, le_of_ltb (ttl_hours * (3 * hour)) ((now - t) * 4) k)

if-false : (b c : Bool) → (if b then true else c) ≡ false → (b ≡ false) × (c ≡ false)
if-false true c h = cc
if-false false c h = (refl, h)

-- An exporter that is not at risk has a watermark, its lake has rows, and the watermark is at most three quarters of the hot tier's time to live behind the clock.
at_risk-IsSafe :
    (h : ExportHealth) → at_risk h ≡ false → IsSafe h.ttl_hours h.now h.lake_rows h.watermark
unfolding at_risk watermark_without_data
at_risk-IsSafe h safe =
    let (filled, late) = if-false _ _ safe in
    too_late-IsSafe h.ttl_hours h.now h.lake_rows h.watermark filled late
