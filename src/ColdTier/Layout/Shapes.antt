-- ===== src/ColdTier/Layout/Shapes.antt =====
-- The expressions of telemetry_engine/coldtier/layout.py match the texts of their shape.
use mathlib.Core.List.{append-nil, append_assoc}
use llm_telemetry_engine.Base.{
  ℕ, zero, suc, ◌≡◌, refl, Bool, true, some, [], ◌∷◌, ◌++◌, All, length, arith,
}
use llm_telemetry_engine.Base.Text.{Text, codes, strip_prefix-append}
use llm_telemetry_engine.ColdTier.Layout.Pattern.{
  file_re, partition_re, digits, lit, stamp, iso_date, ◌>>=◌,
}

abbrev pub IsDigits : (ℕ → Bool) → ℕ → Text → Type 0
IsDigits is_digit n text = (length text ≡ n) × All (λ c. is_digit c ≡ true) text

pub digits-append :
    (is_digit : ℕ → Bool) (n : ℕ) (ds rest : Text)
    → IsDigits is_digit n ds
    → digits is_digit n (ds ++ rest) ≡ some (ds, rest)
unfolding digits
digits-append is_digit zero [] rest h = refl
digits-append is_digit zero (c ∷ ds) rest h = absurd (omega (arith, h.0))
digits-append is_digit (suc n) [] rest h = absurd (omega (arith, h.0))
digits-append is_digit (suc n) (c ∷ ds) rest h =
    ground (arith, digits-append is_digit n ds rest (omega (arith, h.0), h.1.1), h.1.0)

pub lit-append : (p rest : Text) → lit p (p ++ rest) ≡ some (tt, rest)
unfolding lit
lit-append p rest = rw (strip_prefix-append p rest, lit)

module _ (is_digit : ℕ → Bool) where
  pub stamp-append :
      (d s rest : Text)
      → IsDigits is_digit 8 d
      → IsDigits is_digit 6 s
      → stamp is_digit ((d ++ (codes "T" ++ s)) ++ rest) ≡ some (d ++ (codes "T" ++ s), rest)
  unfolding stamp
  stamp-append d s rest hd hs =
      rw (append_assoc d (codes "T" ++ s) rest, digits-append is_digit 8 d _ hd, ◌>>=◌)
        (rw (lit-append (codes "T") (s ++ rest), ◌>>=◌)
          (rw (digits-append is_digit 6 s rest hs, ◌>>=◌)))

  pub iso_date-append :
      (y m d rest : Text)
      → IsDigits is_digit 4 y
      → IsDigits is_digit 2 m
      → IsDigits is_digit 2 d
      → iso_date is_digit (y ++ (codes "-" ++ (m ++ (codes "-" ++ (d ++ rest)))))
        ≡ some (y ++ (codes "-" ++ (m ++ (codes "-" ++ d))), rest)
  unfolding iso_date
  iso_date-append y m d rest hy hm hd =
      rw (digits-append is_digit 4 y _ hy, ◌>>=◌)
        (rw (lit-append (codes "-") (m ++ (codes "-" ++ (d ++ rest))), ◌>>=◌)
          (rw (digits-append is_digit 2 m _ hm, ◌>>=◌)
            (rw (lit-append (codes "-") (d ++ rest), ◌>>=◌)
              (rw (digits-append is_digit 2 d rest hd, ◌>>=◌)))))

-- A text that `stamp` reads whole, whatever follows it.
abbrev pub IsStamp : (ℕ → Bool) → Text → Type 0
IsStamp is_digit text = (rest : Text) → stamp is_digit (text ++ rest) ≡ some (text, rest)

module _ (is_digit : ℕ → Bool) where
  pub file_re-stamps :
      (a b : Text)
      → IsStamp is_digit a
      → IsStamp is_digit b
      → file_re is_digit (codes "spans-" ++ (a ++ (codes "-" ++ (b ++ codes ".parquet"))))
        ≡ some (a, b)
  unfolding file_re
  file_re-stamps a b ha hb =
      rw (lit-append (codes "spans-") (a ++ (codes "-" ++ (b ++ codes ".parquet"))), ◌>>=◌)
        (rw (ha (codes "-" ++ (b ++ codes ".parquet")), ◌>>=◌)
          (rw (lit-append (codes "-") (b ++ codes ".parquet"), ◌>>=◌)
            (rw (hb (codes ".parquet"), ◌>>=◌) (rw (lit-append (codes ".parquet") [], ◌>>=◌)))))

  pub partition_re-date :
      (y m d : Text)
      → IsDigits is_digit 4 y
      → IsDigits is_digit 2 m
      → IsDigits is_digit 2 d
      → partition_re is_digit (codes "dt=" ++ (y ++ (codes "-" ++ (m ++ (codes "-" ++ d)))))
        ≡ some (y ++ (codes "-" ++ (m ++ (codes "-" ++ d))))
  unfolding partition_re
  partition_re-date y m d hy hm hd =
      rw (lit-append (codes "dt=") (y ++ (codes "-" ++ (m ++ (codes "-" ++ d)))), ◌>>=◌)
        (rw (iso_date-whole y m d hy hm hd))
    where
      iso_date-whole :
          (y m d : Text)
          → IsDigits is_digit 4 y
          → IsDigits is_digit 2 m
          → IsDigits is_digit 2 d
          → iso_date is_digit (y ++ (codes "-" ++ (m ++ (codes "-" ++ d))))
            ≡ some (y ++ (codes "-" ++ (m ++ (codes "-" ++ d))), [])
      iso_date-whole y m d hy hm hd =
          let e = iso_date-append is_digit y m d [] hy hm hd in rw append-nil at e
