-- ===== src/ColdTier/Layout/Names.antt =====
-- What a name in the lake says, and that names of different windows differ.
use mathlib.Core.List.{append_assoc}
use llm_telemetry_engine.Base.{
  ℕ, ◌≤◌, ◌≡◌, ◌≢◌, refl, ap, ◌∙◌, some, ◌++◌, ok, ◌>>=◌, length, length-append, arith,
}
use llm_telemetry_engine.Base.Text.{Text, codes, before_dot, with_suffix, with_suffix-append}
use llm_telemetry_engine.Datetime.{Datetime, floor_second, datetime_max, date}
use llm_telemetry_engine.ColdTier.Window.{ExportWindow, new_window}
use llm_telemetry_engine.ColdTier.Layout.{
  name, Calendar, FilePath, filename, file_path, temp_path, partition_dir, parse_window,
  parse_partition,
}
use llm_telemetry_engine.ColdTier.Layout.Pattern.{file_re, partition_re}
use llm_telemetry_engine.ColdTier.Layout.Shapes.{
  IsDigits, IsStamp, file_re-stamps, partition_re-date, stamp-append,
}

-- From this day on a year has four digits in every format.
abbrev pub year_1000 : ℕ
year_1000 = 364_877

abbrev pub InRange : Datetime → Type 0
InRange t = (year_1000 ≤ date t) × (t ≤ datetime_max)

-- What the standard library documents of the formats, for the years 1000 to 9999.
pub record IsCalendar (cal : Calendar) : Type 0 where
  pub strftime_shape :
      (t : Datetime)
      → InRange t
      → (d : Text) × (s : Text) × (cal.strftime t ≡ d ++ (codes "T" ++ s))
        × IsDigits cal.is_digit 8 d
        × IsDigits cal.is_digit 6 s
  pub strptime-strftime :
      (t : Datetime) → InRange t → cal.strptime (cal.strftime t) ≡ some (floor_second t)
  pub isoformat_shape :
      (n : ℕ)
      → year_1000 ≤ n
      → n ≤ date datetime_max
      → (y : Text) × (m : Text) × (d : Text) × (cal.isoformat n
          ≡ y ++ (codes "-" ++ (m ++ (codes "-" ++ d))))
        × IsDigits cal.is_digit 4 y
        × IsDigits cal.is_digit 2 m
        × IsDigits cal.is_digit 2 d
  pub fromisoformat-isoformat :
      (n : ℕ) → year_1000 ≤ n → n ≤ date datetime_max → cal.fromisoformat (cal.isoformat n) ≡ some n

module _ (cal : Calendar) (L : IsCalendar cal) where
  strftime-IsStamp : (t : Datetime) → InRange t → IsStamp cal.is_digit (cal.strftime t)
  strftime-IsStamp t h rest =
      let (d, s, e, hd, hs) = L.strftime_shape t h in
      rw e (stamp-append cal.is_digit d s rest hd hs)

  -- The two groups of a file's name are the stamps of its window.
  filename-groups :
      (w : ExportWindow)
      → InRange w.start
      → InRange w.end
      → file_re cal.is_digit (filename cal w) ≡ some (cal.strftime w.start, cal.strftime w.end)
  unfolding filename
  filename-groups w hs he =
      file_re-stamps cal.is_digit (cal.strftime w.start) (cal.strftime w.end)
        (strftime-IsStamp w.start hs) (strftime-IsStamp w.end he)

  -- For a window with both ends in the years 1000 to 9999, and formats as the standard library documents them, the name of its file says it to the second: parsing it makes an `ExportWindow` from the two ends without their microseconds, and fails only where that constructor does.
  pub parse_window-file_path :
      (root : FilePath) (w : ExportWindow)
      → InRange w.start
      → InRange w.end
      → parse_window cal (file_path cal root w)
        ≡ (new_window (floor_second w.start) (floor_second w.end) >>= λ v. ok (some v))
  unfolding parse_window file_path
  parse_window-file_path root w hs he =
      rw (filename-groups w hs he)
        (rw (L.strptime-strftime w.start hs) (rw (L.strptime-strftime w.end he)))

  partition_re-isoformat :
      (n : ℕ)
      → year_1000 ≤ n
      → n ≤ date datetime_max
      → partition_re cal.is_digit (codes "dt=" ++ cal.isoformat n) ≡ some (cal.isoformat n)
  partition_re-isoformat n h k =
      let (y, m, d, e, hy, hm, hd) = L.isoformat_shape n h k in
      rw e (partition_re-date cal.is_digit y m d hy hm hd)

  -- The directory of a day of the years 1000 to 9999 is parsed back to that day.
  parse_partition-partition_dir :
      (root : FilePath) (n : ℕ)
      → year_1000 ≤ n
      → n ≤ date datetime_max
      → parse_partition cal (partition_dir cal root n) ≡ ok (some n)
  unfolding parse_partition partition_dir
  parse_partition-partition_dir root n h k =
      rw (partition_re-isoformat n h k) (rw (L.fromisoformat-isoformat n h k))

  strftime-length : (t : Datetime) → InRange t → length (cal.strftime t) ≡ 15
  strftime-length t h =
      let (d, s, e, hd, hs) = L.strftime_shape t h in
      rw e (omega (arith, length-append d (codes "T" ++ s), hd.0, hs.0))

  strftime-injective :
      (t u : Datetime)
      → InRange t
      → InRange u
      → cal.strftime t ≡ cal.strftime u
      → floor_second t ≡ floor_second u
  strftime-injective t u ht hu e =
      cc (L.strptime-strftime t ht, L.strptime-strftime u hu, ap cal.strptime e)

  -- Two windows with all ends in the years 1000 to 9999 that share a path agree to the second.
  pub file_path-injective :
      (root : FilePath) (v w : ExportWindow)
      → InRange v.start
      → InRange v.end
      → InRange w.start
      → InRange w.end
      → file_path cal root v ≡ file_path cal root w
      → (floor_second v.start ≡ floor_second w.start) × (floor_second v.end ≡ floor_second w.end)
  unfolding file_path
  file_path-injective root v w hvs hve hws hwe e =
      let groups = ap (λ (p : FilePath). file_re cal.is_digit (name p)) e in
      let v_groups = filename-groups v hvs hve in
      let w_groups = filename-groups w hws hwe in
      (
        strftime-injective v.start w.start hvs hws (cc (v_groups, w_groups)),
        strftime-injective v.end w.end hve hwe (cc (v_groups, w_groups)),
      )

  filename-length :
      (w : ExportWindow) → InRange w.start → InRange w.end → length (filename cal w) ≡ 45
  unfolding filename
  filename-length w hs he = omega (
    arith,
    length-append (cal.strftime w.start) (codes "-" ++ (cal.strftime w.end ++ codes ".parquet")),
    length-append (cal.strftime w.end) (codes ".parquet"),
    strftime-length w.start hs,
    strftime-length w.end he,
  )

  stem-append :
      (w : ExportWindow) (rest : Text)
      → (codes "spans-" ++ (cal.strftime w.start ++ (codes "-" ++ cal.strftime w.end))) ++ rest
        ≡ codes "spans-" ++ (cal.strftime w.start ++ (codes "-" ++ (cal.strftime w.end ++ rest)))
  stem-append w rest =
      ap (λ (t : Text). codes "spans-" ++ t)
        (append_assoc (cal.strftime w.start) (codes "-" ++ cal.strftime w.end) rest)

  -- `temp_path` puts the staging suffix in the place of `.parquet`.
  with_suffix-filename :
      (w : ExportWindow)
      → with_suffix (codes ".parquet.tmp") (filename cal w)
        ≡ codes "spans-"
          ++ (cal.strftime w.start ++ (codes "-" ++ (cal.strftime w.end ++ codes ".parquet.tmp")))
  unfolding filename before_dot
  with_suffix-filename w = rw (← stem-append w (codes ".parquet")) (
      with_suffix-append (codes ".parquet.tmp") 115
        (codes "pans-" ++ (cal.strftime w.start ++ (codes "-" ++ cal.strftime w.end)))
        (codes ".parquet") refl (omega arith)
      ∙ stem-append w (codes ".parquet.tmp"))

  staged-length :
      (w : ExportWindow)
      → InRange w.start
      → InRange w.end
      → length (with_suffix (codes ".parquet.tmp") (filename cal w)) ≡ 49
  staged-length w hs he = rw (with_suffix-filename w) (
      omega (
        arith,
        length-append (cal.strftime w.start)
            (codes "-" ++ (cal.strftime w.end ++ codes ".parquet.tmp")),
        length-append (cal.strftime w.end) (codes ".parquet.tmp"),
        strftime-length w.start hs,
        strftime-length w.end he,
      ))

  -- No staging path is the path of a final file, for any two windows with all ends in the years 1000 to 9999.
  pub temp_path-ne-file_path :
      (root : FilePath) (v w : ExportWindow)
      → InRange v.start
      → InRange v.end
      → InRange w.start
      → InRange w.end
      → temp_path (file_path cal root v) ≢ file_path cal root w
  unfolding file_path temp_path
  temp_path-ne-file_path root v w hvs hve hws hwe e =
      let same = ap (λ (p : FilePath). length (name p)) e in
      absurd (omega (arith, same, staged-length v hvs hve, filename-length w hws hwe))
