-- ===== src/Storage/Migrations/Reruns.antt =====
-- What `apply_all` of telemetry_engine/storage/migrations.py sends, and what a run does on a database
-- that has every file.
use mathlib.Core.List.{Memᴰ, append_assoc, append-nil}
use llm_telemetry_engine.Base.{
  ◌≡◌, ◌≢◌, refl, sym, true, ◌⊎◌, inl, inr, Bool-cases, ap, ◌∙◌, false, Option, none, some, if-elim,
  map, List, [], ◌∷◌, ◌++◌, String, str_eq, Result, ok, Dict, lookup, All, eq_iff,
}
use llm_telemetry_engine.Base.Issues as Log
use llm_telemetry_engine.Base.Exec.{Exec, next}
use llm_telemetry_engine.Storage.Migrations.{
  Migration, MigrationResult, no_result, Request, command, create_bookkeeping, insert_applied,
  Server, World, plan_from, send, execute, execute_all, record_applied, skip, record_bootstrap,
  apply_one, apply_rest, read_applied, apply, is_same,
}

-- One of the files that has no record.
abbrev pub IsNew : List Migration → Dict String → Migration → Type 0
IsNew files already m = Memᴰ m files × (lookup already m.name ≡ none)

-- A statement of a new file, or the record of one with its checksum.
abbrev pub IsPending : List Migration → Dict String → Request → Type 0
IsPending files already (command s) = (m : Migration) × IsNew files already m × Memᴰ s m.statements
IsPending files already create_bookkeeping = ⊥
IsPending files already (insert_applied name checksum) =
    (m : Migration) × IsNew files already m × (m.name ≡ name) × (m.checksum ≡ checksum)

-- What a run may send behind the bookkeeping: what is pending among the later files, or the record of
-- the first file, unless it is recorded with the checksum that it has.
abbrev pub IsDue : Migration → List Migration → Dict String → Request → Type 0
IsDue b ms already r =
    ((r ≡ insert_applied b.name b.checksum) × (lookup already b.name ≢ some b.checksum))
    ⊎ IsPending ms already r

module _ {S : Type 0} (server : Server S) (already : Dict String) where
  module _ (b : Migration) (files : List Migration) where
    abbrev pub Issues : World S → World S → Type 0
    Issues = Log.Issues (λ (w : World S). w.issued) (IsDue b files already)

    abbrev Issues-refl : (w : World S) → Issues w w
    Issues-refl = Log.Issues-refl (λ (w : World S). w.issued) (IsDue b files already)

    Issues-next :
        {A B : Type 0} (w : World S) (m : Result A × World S) (f : A → Exec (World S) B)
        → Issues w m.1
        → ((a : A) (v : World S) → Issues v (f a v).1)
        → Issues w (next m f).1
    Issues-next = Log.Issues-next (λ (w : World S). w.issued) (IsDue b files already)

    send-Issues :
        (r : Request) (w : World S) → IsDue b files already r → Issues w (send server r w).1
    unfolding send
    send-Issues r w h = (r ∷ [], refl, (h, tt))

    execute-Issues :
        (ss : List String) (w : World S)
        → ((s : String) → Memᴰ s ss → IsDue b files already (command s))
        → Issues w (execute server ss w).1
    unfolding execute
    execute-Issues [] w h = Issues-refl w
    execute-Issues (s ∷ ss) w h =
        Issues-next w (send server (command s) w) _
          (send-Issues (command s) w (h s (Memᴰ.head refl)))
          (λ u v. execute-Issues ss v (λ t m. h t (Memᴰ.tail m)))

    apply_one-Issues :
        (m : Migration) (found : Option String) (result : MigrationResult) (w : World S)
        → Memᴰ m files
        → lookup already m.name ≡ found
        → Issues w (apply_one server m found result w).1
    unfolding apply_one record_applied skip
    apply_one-Issues m none result w file missing =
        Issues-next w (execute server m.statements w) _
          (execute-Issues m.statements w (λ s there. inr (m, (file, missing), there)))
          (λ u v.
            Issues-next v (send server (insert_applied m.name m.checksum) v) _
              (send-Issues (insert_applied m.name m.checksum) v
                (inr (m, (file, missing), refl, refl)))
              (λ a x. Issues-refl x))
    apply_one-Issues m (some prior) result w file there =
        if-elim (λ (f : Exec (World S) MigrationResult). Issues w (f w).1) (str_eq prior m.checksum)
          (λ _. Issues-refl w) (λ _. Issues-refl w)

    apply_rest-Issues :
        (ms : List Migration) (result : MigrationResult) (w : World S)
        → ((m : Migration) → Memᴰ m ms → Memᴰ m files)
        → Issues w (apply_rest server already ms result w).1
    unfolding apply_rest
    apply_rest-Issues [] result w sub = Issues-refl w
    apply_rest-Issues (m ∷ ms) result w sub =
        Issues-next w (apply_one server m (lookup already m.name) result w) _
          (apply_one-Issues m (lookup already m.name) result w (sub m (Memᴰ.head refl)) refl)
          (λ r v. apply_rest-Issues ms r v (λ n there. sub n (Memᴰ.tail there)))

    is_same_self :
        (lookup already b.name ≡ some b.checksum)
        → is_same (lookup already b.name) b.checksum ≡ true
    is_same_self e = rw e ((eq_iff b.checksum b.checksum).1 refl)

    record_bootstrap-Issues :
        (result : MigrationResult) (w : World S)
        → Issues w (record_bootstrap server already (b ∷ []) result w).1
    unfolding record_bootstrap record_applied skip
    record_bootstrap-Issues result w =
        let due : is_same (lookup already b.name) b.checksum ≡ false
            → lookup already b.name ≢ some b.checksum =
          λ other e. let same = is_same_self e in cc in
        elim (Bool-cases (is_same (lookup already b.name) b.checksum)) [
          | inl same ↦ rw same (Issues-refl w)
          | inr other ↦ rw other (
              Issues-next w (record_applied server b result w) _
                (Issues-next w (send server (insert_applied b.name b.checksum) w) _
                  (send-Issues (insert_applied b.name b.checksum) w (inl (refl, due other)))
                  (λ a x. Issues-refl x))
                (λ r x. Issues-refl x))
        ]

  -- Let the statements of the first file and the one of the bookkeeping go through, and `already` be what the bookkeeping holds by then. Then, whatever ClickHouse answers from there on, and however the run ends, it sends only the record of the first file, where that is not there with the checksum of the file, and statements and records of later files of this run that have no record at all: a later file that changed after it was applied is not executed again.
  pub apply-Issues :
      (b : Migration) (ms : List Migration) (u v w : World S)
      → execute_all server (b ∷ []) w ≡ (ok tt, u)
      → send server create_bookkeeping u ≡ (ok tt, v)
      → server.applied_checksums v.database ≡ ok already
      → Issues b ms v (apply server (b ∷ ms) w).1
  unfolding apply read_applied
  apply-Issues b ms u v w bootstrapped sent answered = rw bootstrapped (
      rw sent (
        rw answered (
          Issues-next b ms v (record_bootstrap server already (b ∷ []) no_result v) _
            (record_bootstrap-Issues b ms no_result v)
            (λ r x. apply_rest-Issues b ms ms r x (λ m there. there)))))

  -- The file is recorded with the checksum that it has.
  abbrev pub IsCurrent : Migration → Type 0
  IsCurrent m = lookup already m.name ≡ some m.checksum

  abbrev skipped_too : MigrationResult → List Migration → MigrationResult
  skipped_too result ms = record result {
    skipped = result.skipped ++ map (λ (m : Migration). m.name) ms;
  }

  skipped_too-cons :
      (result : MigrationResult) (m : Migration) (ms : List Migration)
      → skipped_too (record result { skipped = result.skipped ++ (m.name ∷ []) }) ms
        ≡ skipped_too result (m ∷ ms)
  skipped_too-cons result m ms =
      rw (append_assoc result.skipped (m.name ∷ []) (map (λ (n : Migration). n.name) ms)) refl

  apply_rest-current :
      (ms : List Migration) (result : MigrationResult) (w : World S)
      → All IsCurrent ms
      → apply_rest server already ms result w ≡ (ok (skipped_too result ms), w)
  unfolding apply_rest apply_one skip
  apply_rest-current [] result w h = rw (append-nil result.skipped) refl
  apply_rest-current (m ∷ ms) result w h = rw h.0 (
      rw ((eq_iff m.checksum m.checksum).1 refl) (
        apply_rest-current ms (record result { skipped = result.skipped ++ (m.name ∷ []) }) w h.1
        ∙ rw (skipped_too-cons result m ms) refl))

  record_bootstrap-current :
      (ms : List Migration) (result : MigrationResult) (w : World S)
      → All IsCurrent ms
      → record_bootstrap server already ms result w ≡ (ok (skipped_too result ms), w)
  unfolding record_bootstrap skip
  record_bootstrap-current [] result w h = rw (append-nil result.skipped) refl
  record_bootstrap-current (m ∷ ms) result w h = rw h.0 (
      rw ((eq_iff m.checksum m.checksum).1 refl) (
        record_bootstrap-current ms (record result { skipped = result.skipped ++ (m.name ∷ []) }) w
          h.1
        ∙ rw (skipped_too-cons result m ms) refl))

  plan_from-current :
      (ms : List Migration) (result : MigrationResult)
      → All IsCurrent ms
      → plan_from already ms result ≡ skipped_too result ms
  unfolding plan_from
  plan_from-current [] result h = rw (append-nil result.skipped) refl
  plan_from-current (m ∷ ms) result h = rw h.0 (
      rw ((eq_iff m.checksum m.checksum).1 refl) (
        plan_from-current ms (record result { skipped = result.skipped ++ (m.name ∷ []) }) h.1
        ∙ rw (skipped_too-cons result m ms) refl))

  -- Where each file is recorded with the checksum that it has, once the statements of the first file and the one of the bookkeeping are through, a run sends nothing else, and it reports each file as skipped, as a dry run does.
  pub apply-current :
      (b : Migration) (ms : List Migration) (u v w : World S)
      → execute_all server (b ∷ []) w ≡ (ok tt, u)
      → send server create_bookkeeping u ≡ (ok tt, v)
      → server.applied_checksums v.database ≡ ok already
      → All IsCurrent (b ∷ ms)
      → apply server (b ∷ ms) w ≡ (ok (plan_from already (b ∷ ms) no_result), v)
  unfolding apply read_applied
  apply-current b ms u v w bootstrapped sent answered h = rw bootstrapped (
      rw sent (
        rw answered (
          rw (record_bootstrap-current (b ∷ []) no_result v (h.0, tt)) (
            apply_rest-current ms (skipped_too no_result (b ∷ [])) v h.1
            ∙ ap (λ (r : MigrationResult). (ok r, v))
                (sym (plan_from-current (b ∷ ms) no_result h))))))
