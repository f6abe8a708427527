-- ===== src/Experiments/Runner/Cleanup.antt =====
-- What `run_experiment` of telemetry_engine/experiments/backpressure.py leaves behind.
use mathlib.Core.List.{append_assoc}
use mathlib.Core.Path.{subst}
use llm_telemetry_engine.Base.{
  ◌≡◌, refl, sym, ap, ◌∙◌, Bool, true, false, Option, none, some, List, [], ◌∷◌, ◌++◌, Result, ok,
  ◌⊎◌, inl, inr,
}
use llm_telemetry_engine.Experiments.Runner.{
  Event, popen, pause, unpause, exited, terminate, waited, kill, Rig, World, Settings, Waits,
  measure, kill_unless, cleanup, run_experiment, run_unchecked,
}

-- Whether the consumer is frozen after the events: by a pause that ended with 0, until an unpause
-- that ended with 0.
abbrev pub frozen : Bool → List Event → Bool
frozen b [] = b
frozen b (exited pause true ∷ es) = frozen true es
frozen b (exited unpause true ∷ es) = frozen false es
frozen b (_ ∷ es) = frozen b es

-- Whether the endpoint is left running: from its start on, until a wait has seen it end, or a kill.
abbrev pub running : Bool → List Event → Bool
running b [] = b
running b (popen ∷ es) = running true es
running b (waited true ∷ es) = running false es
running b (kill ∷ es) = running false es
running b (_ ∷ es) = running b es

-- The last docker command, with its exit.
abbrev pub last_exit : Option Event → List Event → Option Event
last_exit last [] = last
last_exit last (exited c b ∷ es) = last_exit (some (exited c b)) es
last_exit last (_ ∷ es) = last_exit last es

frozen-append : (b : Bool) (es fs : List Event) → frozen b (es ++ fs) ≡ frozen (frozen b es) fs
frozen-append b [] fs = refl
frozen-append b (popen ∷ es) fs = frozen-append b es fs
frozen-append b (exited pause true ∷ es) fs = frozen-append true es fs
frozen-append b (exited pause false ∷ es) fs = frozen-append b es fs
frozen-append b (exited unpause true ∷ es) fs = frozen-append false es fs
frozen-append b (exited unpause false ∷ es) fs = frozen-append b es fs
frozen-append b (terminate ∷ es) fs = frozen-append b es fs
frozen-append b (waited in_time ∷ es) fs = frozen-append b es fs
frozen-append b (kill ∷ es) fs = frozen-append b es fs

running-append : (b : Bool) (es fs : List Event) → running b (es ++ fs) ≡ running (running b es) fs
running-append b [] fs = refl
running-append b (popen ∷ es) fs = running-append true es fs
running-append b (exited c exit ∷ es) fs = running-append b es fs
running-append b (terminate ∷ es) fs = running-append b es fs
running-append b (waited true ∷ es) fs = running-append false es fs
running-append b (waited false ∷ es) fs = running-append b es fs
running-append b (kill ∷ es) fs = running-append false es fs

last_exit-append :
    (last : Option Event) (es fs : List Event)
    → last_exit last (es ++ fs) ≡ last_exit (last_exit last es) fs
last_exit-append last [] fs = refl
last_exit-append last (popen ∷ es) fs = last_exit-append last es fs
last_exit-append last (exited c exit ∷ es) fs = last_exit-append (some (exited c exit)) es fs
last_exit-append last (terminate ∷ es) fs = last_exit-append last es fs
last_exit-append last (waited in_time ∷ es) fs = last_exit-append last es fs
last_exit-append last (kill ∷ es) fs = last_exit-append last es fs

-- Either the consumer is not frozen, or the last docker command was to unpause it, and failed.
abbrev pub IsReleased : List Event → Type 0
IsReleased es = (frozen false es ≡ false) ⊎ (last_exit none es ≡ some (exited unpause false))

-- What only ends the endpoint says nothing of the consumer.
IsEnding : List Event → Type 0
IsEnding fs =
    ((b : Bool) → running b fs ≡ false)
    × ((b : Bool) → frozen b fs ≡ b)
    × ((last : Option Event) → last_exit last fs ≡ last)

IsEnding-IsReleased :
    (exit : Bool) (es fs : List Event)
    → IsEnding fs
    → (running false ((es ++ (exited unpause exit ∷ [])) ++ fs) ≡ false)
      × IsReleased ((es ++ (exited unpause exit ∷ [])) ++ fs)
unfolding IsEnding
IsEnding-IsReleased exit es fs (stops, as_it_was, silent) =
    let gs = es ++ (exited unpause exit ∷ []) in
    (running-append false gs fs ∙ stops (running false gs), go exit)
  where
    go : (exit : Bool) → IsReleased ((es ++ (exited unpause exit ∷ [])) ++ fs)
    go true = inl (
        frozen-append false (es ++ (exited unpause true ∷ [])) fs
        ∙ as_it_was (frozen false (es ++ (exited unpause true ∷ [])))
        ∙ frozen-append false es (exited unpause true ∷ []))
    go false = inr (
        last_exit-append none (es ++ (exited unpause false ∷ [])) fs
        ∙ silent (last_exit none (es ++ (exited unpause false ∷ [])))
        ∙ last_exit-append none es (exited unpause false ∷ []))

module _ {S : Type 0} (rig : Rig S) where
  -- What a call that returns adds to the events: the end of the endpoint.
  abbrev Ends : List Event → Result (Unit {0}) × World S → Type 0
  Ends es (result, w) = (fs : List Event) × (result ≡ ok tt) × (w.events ≡ es ++ fs) × IsEnding fs

  kill_unless-Ends :
      (in_time : Bool) (es : List Event) (w : World S)
      → w.events ≡ es ++ (terminate ∷ waited in_time ∷ [])
      → Ends es (kill_unless rig in_time w)
  unfolding IsEnding
  kill_unless-Ends true es w e =
      (terminate ∷ waited true ∷ [], refl, e, ((λ b. refl), (λ b. refl), (λ l. refl)))
  kill_unless-Ends false es w e = (
    terminate ∷ waited false ∷ kill ∷ [],
    refl,
    ap (λ (l : List Event). l ++ (kill ∷ [])) e
        ∙ append_assoc es (terminate ∷ waited false ∷ []) (kill ∷ []),
    ((λ b. refl), (λ b. refl), (λ l. refl)),
  )

  -- Where the unpausing can be run, the cleanup returns, with the endpoint stopped and the consumer
  -- released by then, but for an unpausing that failed.
  cleanup_stalled :
      (stalled : Bool) (w : World S) (exit : Bool) (s : S)
      → stalled ≡ true
      → rig.docker unpause w.state ≡ (ok exit, s)
      → (result : Result (Unit {0})) × (w' : World S) × (cleanup rig stalled w ≡ (result, w'))
        × (result ≡ ok tt)
        × (running false w'.events ≡ false)
        × IsReleased w'.events
  unfolding cleanup run_unchecked
  cleanup_stalled stalled w exit s is_stalled e =
      let es : List Event = w.events ++ (exited unpause exit ∷ []) in
      let s' : S = rig.terminate_endpoint s in
      let in_time : Bool = (rig.wait_endpoint s').0 in
      let v : World S = record {
        state = (rig.wait_endpoint s').1;
        events = (es ++ (terminate ∷ [])) ++ (waited in_time ∷ []);
      } in
      let (fs, done, log, ending) =
        kill_unless-Ends in_time es v (append_assoc es (terminate ∷ []) (waited in_time ∷ [])) in
      let (stopped, released) = IsEnding-IsReleased exit w.events fs ending in
      rw (is_stalled, e)
        (
          _,
          _,
          refl,
          done,
          ap (λ (l : List Event). running false l) log ∙ stopped,
          subst IsReleased (sym log) released,
        )

  -- Let the endpoint be started, the run be one that stalls the consumer, and `docker unpause` be run without an exception, whatever the state and whatever it exits with. Then the run returns or raises what its measurements do, and whatever that is, by then the endpoint has been seen to end within the time of the wait or is killed, and the consumer is not frozen, unless the last docker command was to unpause it and exited with another code than 0.
  pub run_experiment-cleans :
      (settings : Settings) (waits : Waits) (w : World S) (s : S)
      → settings.stall_consumer ≡ true
      → rig.popen_endpoint w.state ≡ (ok tt, s)
      → ((t : S) → (exit : Bool) × (t' : S) × (rig.docker unpause t ≡ (ok exit, t')))
      → ((run_experiment rig settings waits w).0
          ≡ (measure rig settings waits
              (record { state = s; events = w.events ++ (popen ∷ []) })).0)
        × (running false (run_experiment rig settings waits w).1.events ≡ false)
        × IsReleased (run_experiment rig settings waits w).1.events
  unfolding run_experiment
  run_experiment-cleans settings waits w s stall started runs =
      let v : World S =
        (measure rig settings waits (record { state = s; events = w.events ++ (popen ∷ []) })).1 in
      let (exit, t, e) = runs v.state in
      let (result, w', e', done, stopped, released) =
        cleanup_stalled settings.stall_consumer v exit t stall e in
      rw (started, e', done) (refl, stopped, released)
