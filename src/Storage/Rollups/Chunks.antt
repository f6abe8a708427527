-- ===== src/Storage/Rollups/Chunks.antt =====
-- The windows that `backfill` of telemetry_engine/storage/rollups.py aggregates.
use mathlib.Core.List.{append_assoc, append-nil}
use mathlib.Core.Path.{subst}
use llm_telemetry_engine.Base.{
  ℕ, zero, suc, ◌+◌, ◌-◌, ◌≤◌, ◌<◌, min, ◌≡◌, refl, sym, ap, ◌∙◌, if-elim, List, [], ◌∷◌, ◌++◌, ltb,
  ltb→lt, lt→leb, leb, gt_of_leb, le_of_ltb, Result, ok, err, Error, overflow_error, arith, inl,
  inr, ◌⊎◌,
}
use llm_telemetry_engine.Base.Exec.{Exec, next, pure, lift, ◌>>=◌, ◌>>◌}
use llm_telemetry_engine.Datetime.{Datetime, hour, add, datetime_max}
use llm_telemetry_engine.Storage.Rollups.{
  Server, World, backfill_loop, backfill, insert_chunk, set_timeout,
}

abbrev pub Window : Type 0
Window = Datetime × Datetime

-- Each window starts where the one before it ends, and lasts an hour at most and more than nothing.
abbrev pub Tiles : Datetime → List Window → Datetime → Type 0
Tiles a [] b = a ≡ b
Tiles a (w ∷ ws) b = (w.0 ≡ a) × (a < w.1) × (w.1 ≤ a + hour) × Tiles w.1 ws b

module _ {S : Type 0} (server : Server S) where
  -- How the loop comes to raise: the query on the last of the windows does, or an hour behind what is
  -- reached there is no time any more.
  abbrev pub Raises : Datetime → List Window → Datetime → Error → Type 0
  Raises end windows reached e =
      ((before : List Window) × (a : Datetime) × (d : S) × (windows ≡ before ++ ((a, reached) ∷ []))
        × ((server.insert a reached d).0 ≡ err e))
      ⊎ ((e ≡ overflow_error) × (reached < end) × (datetime_max < reached + hour))

  Raises-cons :
      (end : Datetime) (x : Window) (windows : List Window) (reached : Datetime) (e : Error)
      → Raises end windows reached e
      → Raises end (x ∷ windows) reached e
  Raises-cons end x windows reached e (inl (before, a, d, split, answer)) =
      inl (x ∷ before, a, d, ap (λ (l : List Window). x ∷ l) split, answer)
  Raises-cons end x windows reached e (inr over) = inr over

  -- What the loop has done by its end: windows that tile the time up to `reached`, which is `end` where it returns.
  abbrev pub Done : Datetime → Datetime → World S → Result (Unit {0}) × World S → Type 0
  Done start end w (answer, w') =
      (windows : List Window) × (reached : Datetime) × Tiles start windows reached
      × (w'.inserted ≡ w.inserted ++ windows)
      × (reached ≤ end)
      × (answer ≡ ok tt → reached ≡ end)
      × ((e : Error) → answer ≡ err e → Raises end windows reached e)

  Done-stop : (end : Datetime) (w : World S) → Done end end w (ok tt, w)
  Done-stop end w =
      ([], end, refl, sym (append-nil w.inserted), omega arith, (λ e. refl), (λ e h. cc))

  Done-overflow :
      (start end : Datetime) (w : World S)
      → start < end
      → datetime_max < start + hour
      → Done start end w (err overflow_error, w)
  Done-overflow start end w lt over = (
    [],
    start,
    refl,
    sym (append-nil w.inserted),
    omega (arith, lt),
    (λ h. cc),
    (λ e same. let raised : e ≡ overflow_error = cc in inr (raised, lt, over)),
  )

  -- One window more, before what the rest does.
  Done-insert :
      (start c end : Datetime) (w : World S) (rest : Exec (World S) (Unit {0}))
      → start < c
      → c ≤ start + hour
      → c ≤ end
      → ((v : World S) → Done c end v (rest v))
      → Done start end w ((insert_chunk server start c >> rest) w)
  unfolding insert_chunk
  Done-insert start c end w rest lt le fits done = go (insert_chunk server start c w) refl
    where
      go :
          (m : Result (Unit {0}) × World S)
          → insert_chunk server start c w ≡ m
          → Done start end w (next m (λ _. rest))
      go (ok u, v) e =
          let (windows, reached, tiles, log, up_to, whole, raised) = done v in
          let head = sym (ap (λ (m : Result (Unit {0}) × World S). m.1.inserted) e) in
          (
            (start, c) ∷ windows,
            reached,
            (refl, lt, le, tiles),
            log
                ∙ ap (λ (l : List Window). l ++ windows) head
                ∙ append_assoc w.inserted ((start, c) ∷ []) windows,
            up_to,
            whole,
            (λ e' same. Raises-cons end (start, c) windows reached e' (raised e' same)),
          )
      go (err x, v) e =
          let head = sym (ap (λ (m : Result (Unit {0}) × World S). m.1.inserted) e) in
          let answer = ap (λ (m : Result (Unit {0}) × World S). m.0) e in
          (
            (start, c) ∷ [],
            c,
            (refl, lt, le, refl),
            head,
            fits,
            (λ h. cc),
            (λ e' same. inl ([], start, w.database, refl, answer ∙ same)),
          )

  backfill_loop-Done :
      (fuel : ℕ) (start end : Datetime) (w : World S)
      → start ≤ end
      → end ≤ start + fuel
      → Done start end w (backfill_loop server fuel start end w)
  unfolding backfill_loop add
  backfill_loop-Done zero start end w h k =
      if-elim (λ (m : Exec (World S) (Unit {0})). Done start end w (m w)) (ltb start end)
        (λ less. let lt = ltb→lt start end less in absurd (omega (arith, lt, k)))
        (λ more.
          let le = le_of_ltb start end more in
          let same : end ≡ start = omega (arith, le, h) in
          subst (λ (t : Datetime). Done t end w (ok tt, w)) same (Done-stop end w))
  backfill_loop-Done (suc fuel) start end w h k =
      if-elim (λ (m : Exec (World S) (Unit {0})). Done start end w (m w)) (ltb start end)
        (λ less.
          let lt = ltb→lt start end less in
          if-elim
            (λ (m : Result Datetime). Done start end w (
              (lift m >>= λ later.
              insert_chunk server start (min later end)
              >> backfill_loop server fuel (min later end) end)
                w))
            (ltb datetime_max (start + hour))
            (λ over. Done-overflow start end w lt (ltb→lt datetime_max (start + hour) over))
            (λ fits.
              Done-insert start (min (start + hour) end) end w
                (backfill_loop server fuel (min (start + hour) end) end) (omega (arith, lt))
                (omega arith) (omega arith)
                (λ v.
                  backfill_loop-Done fuel (min (start + hour) end) end v (omega arith)
                    (omega (arith, k)))))
        (λ more.
          let le = le_of_ltb start end more in
          let same : end ≡ start = omega (arith, le, h) in
          subst (λ (t : Datetime). Done t end w (ok tt, w)) same (Done-stop end w))

  -- The answer of the loop, and then the count.
  backfill-eq :
      (start end : Datetime) (w : World S) (total : ℕ)
      → start < end
      → server.count start end w.database ≡ ok total
      → (server.set_timeout w.database).0 ≡ ok tt
      → backfill server start end w
        ≡ next
            (backfill_loop server
              (end - start)
              start
              end
              (record w { database = (server.set_timeout w.database).1 }))
            (λ _. pure total)
  unfolding backfill set_timeout
  backfill-eq start end w total h counted set = rw (lt→leb start end h) (rw counted (rw set refl))

  abbrev pub Answers : Datetime → Datetime → World S → ℕ → Result ℕ × World S → Type 0
  Answers start end w total (answer, w') =
      (windows : List Window) × (reached : Datetime) × Tiles start windows reached
      × (w'.inserted ≡ w.inserted ++ windows)
      × (reached ≤ end)
      × (((answer ≡ ok total) × (reached ≡ end))
          ⊎ ((e : Error) × (answer ≡ err e) × Raises end windows reached e))

  Answers-of_Done :
      (start end : Datetime) (w : World S) (total : ℕ) (m : Result (Unit {0}) × World S)
      → Done start end w m
      → Answers start end w total (next m (λ _. pure total))
  Answers-of_Done start end w total (ok u, v) (windows, reached, tiles, log, up_to, whole, raised) =
      (windows, reached, tiles, log, up_to, inl (refl, whole refl))
  Answers-of_Done start end w total (err e, v)
        (windows, reached, tiles, log, up_to, whole, raised) =
      (windows, reached, tiles, log, up_to, inr (e, refl, raised e refl))

  -- Let `start` be before `end`, and the count and the setting succeed. Then the backfill aggregates windows of an hour at most, each one starting where the one before ends, from `start` on and not beyond `end`. Either it returns the count and has reached `end`, or it raises what the query on the last of these windows raised, or it raises `OverflowError` short of `end`, where an hour behind the windows is beyond `datetime.max`: the loop always comes to its end, and no instant is in two windows.
  pub backfill-Answers :
      (start end : Datetime) (w : World S) (total : ℕ)
      → start < end
      → server.count start end w.database ≡ ok total
      → (server.set_timeout w.database).0 ≡ ok tt
      → Answers start end w total (backfill server start end w)
  backfill-Answers start end w total h counted set =
      let v : World S = record w { database = (server.set_timeout w.database).1 } in
      rw (backfill-eq start end w total h counted set) (
        Answers-of_Done start end w total _
          (backfill_loop-Done (end - start) start end v (omega arith) (omega (arith, h))))

  -- What any backfill adds to the log: nothing, or windows that tile a part of its time.
  abbrev pub Logs : Datetime → Datetime → World S → World S → Type 0
  Logs start end w w' =
      (w'.inserted ≡ w.inserted)
      ⊎ ((windows : List Window) × (reached : Datetime) × Tiles start windows reached
          × (w'.inserted ≡ w.inserted ++ windows)
          × (reached ≤ end))

  Logs-of_Done :
      (start end : Datetime) (w : World S) (total : ℕ) (m : Result (Unit {0}) × World S)
      → Done start end w m
      → Logs start end w (next m (λ _. pure total)).1
  Logs-of_Done start end w total (ok u, v) (windows, reached, tiles, log, up_to, whole, raised) =
      inr (windows, reached, tiles, log, up_to)
  Logs-of_Done start end w total (err e, v) (windows, reached, tiles, log, up_to, whole, raised) =
      inr (windows, reached, tiles, log, up_to)

  backfill_timed :
      (start end : Datetime) (w : World S) (total : ℕ) (m : Result (Unit {0}) × S)
      → start < end
      → Logs start end w
          (next
            (m.0, record w { database = m.1 })
            (λ _. backfill_loop server (end - start) start end >>= λ _. pure total)).1
  backfill_timed start end w total (err e, d) h = inl refl
  backfill_timed start end w total (ok u, d) h = Logs-of_Done start end w total _ (
      backfill_loop-Done (end - start) start end (record w { database = d }) (omega (arith, h))
        (omega (arith, h)))

  backfill_counted :
      (start end : Datetime) (w : World S) (m : Result ℕ)
      → start < end
      → Logs start end w
          (next
            (m, w)
            (λ total. set_timeout server >>= λ _.
              backfill_loop server (end - start) start end >>= λ _. pure total)).1
  unfolding set_timeout
  backfill_counted start end w (err e) h = inl refl
  backfill_counted start end w (ok total) h =
      backfill_timed start end w total (server.set_timeout w.database) h

  pub backfill_log :
      (start end : Datetime) (w : World S) → Logs start end w (backfill server start end w).1
  unfolding backfill
  backfill_log start end w =
      if-elim (λ (m : Exec (World S) ℕ). Logs start end w (m w).1) (leb end start)
        (λ empty. inl refl)
        (λ more.
          backfill_counted start end w (server.count start end w.database)
            (gt_of_leb end start more))
