-- ===== src/Storage/Migrations/DryRun.antt =====
-- How the dry run of `apply_all` of telemetry_engine/storage/migrations.py relates to the run itself.
use mathlib.Core.List.{append_assoc, append-nil}
use mathlib.Core.Path.{subst}
use llm_telemetry_engine.Base.{
  ◌≡◌, refl, sym, ap, ◌∙◌, Bool, not, false, Option, none, some, List, [], ◌∷◌, ◌++◌, String,
  str_eq, ok, Dict, lookup, Bool-cases, inl, inr, ok-inj, if◌then◌else◌,
}
use llm_telemetry_engine.Base.Exec.{next-eq-ok}
use llm_telemetry_engine.Storage.Migrations.{
  Migration, MigrationResult, no_result, create_bookkeeping, insert_applied, Server, World, is_same,
  plan_from, send, execute, execute_all, record_applied, skip, record_bootstrap, apply_one,
  apply_rest, read_applied, apply,
}

-- The third list is made of the first two, each in its order.
pub data Merges : List String → List String → List String → Type 0 where
  nothing : Merges [] [] []
  first : {x : String} {xs ys zs : List String} → Merges xs ys zs → Merges (x ∷ xs) ys (x ∷ zs)
  second : {y : String} {xs ys zs : List String} → Merges xs ys zs → Merges xs (y ∷ ys) (y ∷ zs)

Merges-first :
    {xs ys zs : List String} (x : String)
    → Merges xs ys zs
    → Merges (xs ++ (x ∷ [])) ys (zs ++ (x ∷ []))
Merges-first x nothing = first nothing
Merges-first x (first h) = first (Merges-first x h)
Merges-first x (second h) = second (Merges-first x h)

Merges-second :
    {xs ys zs : List String} (y : String)
    → Merges xs ys zs
    → Merges xs (ys ++ (y ∷ [])) (zs ++ (y ∷ []))
Merges-second y nothing = second nothing
Merges-second y (first h) = first (Merges-second y h)
Merges-second y (second h) = second (Merges-second y h)

-- What a dry run reports as applied is what the run applies and what it finds drifted, and both skip
-- the same files.
abbrev pub IsPlanned : MigrationResult → MigrationResult → Type 0
IsPlanned result dry =
    Merges result.applied result.drifted dry.applied × (result.skipped ≡ dry.skipped)

-- Whether the file is recorded with another checksum.
abbrev pub is_drifted : Option String → String → Bool
is_drifted none checksum = false
is_drifted (some prior) checksum = not (str_eq prior checksum)

-- The names of the files that are recorded with another checksum than they have.
abbrev pub drifted_names : Dict String → List Migration → List String
drifted_names already [] = []
drifted_names already (m ∷ ms) =
    let rest = drifted_names already ms in
    if is_drifted (lookup already m.name) m.checksum then m.name ∷ rest else rest

-- The step of the dry run.
abbrev planned : Dict String → Migration → MigrationResult → MigrationResult
planned already m dry =
    if is_same (lookup already m.name) m.checksum
    then record dry { skipped = dry.skipped ++ (m.name ∷ []) }
    else record dry { applied = dry.applied ++ (m.name ∷ []) }

module _ {S : Type 0} (server : Server S) (already : Dict String) where
  record_applied-IsPlanned :
      (m : Migration) (result dry : MigrationResult) (w : World S) {out : MigrationResult}
      → IsPlanned result dry
      → (record_applied server m result w).0 ≡ ok out
      → IsPlanned out (record dry { applied = dry.applied ++ (m.name ∷ []) })
  unfolding record_applied
  record_applied-IsPlanned m result dry w (merged, same) h =
      let (_, _, done) = next-eq-ok (send server (insert_applied m.name m.checksum) w) _ h in
      subst
        (λ (r : MigrationResult).
          IsPlanned r (record dry { applied = dry.applied ++ (m.name ∷ []) }))
        (ok-inj done) (Merges-first m.name merged, same)

  skip-IsPlanned :
      (m : Migration) (result dry : MigrationResult) (w : World S) {out : MigrationResult}
      → IsPlanned result dry
      → (skip server m result w).0 ≡ ok out
      → IsPlanned out (record dry { skipped = dry.skipped ++ (m.name ∷ []) })
  unfolding skip
  skip-IsPlanned m result dry w (merged, same) h =
      subst
        (λ (r : MigrationResult).
          IsPlanned r (record dry { skipped = dry.skipped ++ (m.name ∷ []) }))
        (ok-inj h) (merged, ap (λ (l : List String). l ++ (m.name ∷ [])) same)

  apply_one-IsPlanned :
      (m : Migration) (found : Option String) (result dry : MigrationResult) (w : World S)
      {out : MigrationResult}
      → IsPlanned result dry
      → (apply_one server m found result w).0 ≡ ok out
      → IsPlanned out (
          if is_same found m.checksum
          then record dry { skipped = dry.skipped ++ (m.name ∷ []) }
          else record dry { applied = dry.applied ++ (m.name ∷ []) })
  unfolding apply_one
  apply_one-IsPlanned m none result dry w p h =
      let (_, _, rest) = next-eq-ok (execute server m.statements w) _ h in
      record_applied-IsPlanned m result dry _ p rest
  apply_one-IsPlanned m (some prior) result dry w p h =
      elim (Bool-cases (str_eq prior m.checksum)) [
        | inl same ↦ rw same (skip-IsPlanned m result dry w p (rw same at h))
        | inr other ↦ rw other (
            subst
              (λ (r : MigrationResult).
                IsPlanned r (record dry { applied = dry.applied ++ (m.name ∷ []) }))
              (ok-inj (rw other at h)) (Merges-second m.name p.0, p.1))
      ]

  apply_rest-IsPlanned :
      (ms : List Migration) (result dry : MigrationResult) (w : World S) {out : MigrationResult}
      → IsPlanned result dry
      → (apply_rest server already ms result w).0 ≡ ok out
      → IsPlanned out (plan_from already ms dry)
  unfolding apply_rest plan_from
  apply_rest-IsPlanned [] result dry w p h =
      subst (λ (r : MigrationResult). IsPlanned r dry) (ok-inj h) p
  apply_rest-IsPlanned (m ∷ ms) result dry w p h =
      let (after, one, rest) =
        next-eq-ok (apply_one server m (lookup already m.name) result w) _ h in
      apply_rest-IsPlanned ms after (planned already m dry) _
        (apply_one-IsPlanned m (lookup already m.name) result dry w p one) rest

  record_bootstrap-IsPlanned :
      (b : Migration) (result dry : MigrationResult) (w : World S) {out : MigrationResult}
      → IsPlanned result dry
      → (record_bootstrap server already (b ∷ []) result w).0 ≡ ok out
      → IsPlanned out (planned already b dry)
  unfolding record_bootstrap
  record_bootstrap-IsPlanned b result dry w p h =
      elim (Bool-cases (is_same (lookup already b.name) b.checksum)) [
        | inl same ↦ rw same (skip-IsPlanned b result dry w p (rw same at h))
        | inr other ↦
            let (after, one, rest) =
              next-eq-ok (record_applied server b result w) _ (rw other at h) in
            rw other (
              subst
                (λ (r : MigrationResult).
                  IsPlanned r (record dry { applied = dry.applied ++ (b.name ∷ []) }))
                (ok-inj rest) (record_applied-IsPlanned b result dry w p one))
      ]

  record_applied-drifted :
      (m : Migration) (result : MigrationResult) (w : World S) {out : MigrationResult}
      → (record_applied server m result w).0 ≡ ok out
      → out.drifted ≡ result.drifted
  unfolding record_applied
  record_applied-drifted m result w h =
      let (_, _, done) = next-eq-ok (send server (insert_applied m.name m.checksum) w) _ h in
      sym (ap (λ (r : MigrationResult). r.drifted) (ok-inj done))

  apply_one-drifted :
      (m : Migration) (found : Option String) (result : MigrationResult) (w : World S)
      {out : MigrationResult}
      → (apply_one server m found result w).0 ≡ ok out
      → out.drifted
        ≡ (if is_drifted found m.checksum then result.drifted ++ (m.name ∷ []) else result.drifted)
  unfolding apply_one skip
  apply_one-drifted m none result w h =
      let (_, _, rest) = next-eq-ok (execute server m.statements w) _ h in
      record_applied-drifted m result _ rest
  apply_one-drifted m (some prior) result w h = elim (Bool-cases (str_eq prior m.checksum)) [
    | inl same ↦ rw same (sym (ap (λ (r : MigrationResult). r.drifted) (ok-inj (rw same at h))))
    | inr other ↦ rw other (sym (ap (λ (r : MigrationResult). r.drifted) (ok-inj (rw other at h))))
  ]

  apply_rest-drifted :
      (ms : List Migration) (result : MigrationResult) (w : World S) {out : MigrationResult}
      → (apply_rest server already ms result w).0 ≡ ok out
      → out.drifted ≡ result.drifted ++ drifted_names already ms
  unfolding apply_rest
  apply_rest-drifted [] result w h =
      sym (ap (λ (r : MigrationResult). r.drifted) (ok-inj h)) ∙ sym (append-nil result.drifted)
  apply_rest-drifted (m ∷ ms) result w h =
      let (after, one, rest) =
        next-eq-ok (apply_one server m (lookup already m.name) result w) _ h in
      let head = apply_one-drifted m (lookup already m.name) result w one in
      let tail = apply_rest-drifted ms after _ rest in
      elim (Bool-cases (is_drifted (lookup already m.name) m.checksum)) [
        | inl there ↦ rw there (
            tail
            ∙ ap (λ (l : List String). l ++ drifted_names already ms) (rw there at head)
            ∙ append_assoc result.drifted (m.name ∷ []) (drifted_names already ms))
        | inr absent ↦
            rw absent
              (tail ∙ ap (λ (l : List String). l ++ drifted_names already ms) (rw absent at head))
      ]

  record_bootstrap-drifted :
      (b : Migration) (result : MigrationResult) (w : World S) {out : MigrationResult}
      → (record_bootstrap server already (b ∷ []) result w).0 ≡ ok out
      → out.drifted ≡ result.drifted
  unfolding record_bootstrap skip
  record_bootstrap-drifted b result w h =
      elim (Bool-cases (is_same (lookup already b.name) b.checksum)) [
        | inl same ↦ sym (ap (λ (r : MigrationResult). r.drifted) (ok-inj (rw same at h)))
        | inr other ↦
            let (after, one, rest) =
              next-eq-ok (record_applied server b result w) _ (rw other at h) in
            sym (ap (λ (r : MigrationResult). r.drifted) (ok-inj rest))
            ∙ record_applied-drifted b result w one
      ]

  -- Let the statements of the first file and the one of the bookkeeping go through, and `already` be what the bookkeeping holds by then. If the run returns, it has skipped the files that a dry run on these records reports as skipped, and what the dry run reports as applied is what the run has applied merged with what it reports as drifted, which are the later files that are recorded with another checksum: a dry run says of such a file that it would be applied.
  pub apply-IsPlanned :
      (b : Migration) (ms : List Migration) (u v w : World S) {out : MigrationResult}
      → execute_all server (b ∷ []) w ≡ (ok tt, u)
      → send server create_bookkeeping u ≡ (ok tt, v)
      → server.applied_checksums v.database ≡ ok already
      → (apply server (b ∷ ms) w).0 ≡ ok out
      → IsPlanned out (plan_from already (b ∷ ms) no_result)
        × (out.drifted ≡ drifted_names already ms)
  unfolding apply read_applied plan_from
  apply-IsPlanned b ms u v w bootstrapped sent answered h =
      let h' = rw (bootstrapped, sent, answered) at h in
      let (after, one, rest) =
        next-eq-ok (record_bootstrap server already (b ∷ []) no_result v) _ h' in
      (
        apply_rest-IsPlanned ms after (planned already b no_result) _
            (record_bootstrap-IsPlanned b no_result no_result v (nothing, refl) one) rest,
        apply_rest-drifted ms after _ rest
            ∙ ap (λ (l : List String). l ++ drifted_names already ms)
                (record_bootstrap-drifted b no_result v one),
      )
