-- ===== src/Experiments/Quiesce.antt =====
-- `wait_until_quiesced` of telemetry_engine/experiments/backpressure.py. What the clock, Redpanda and
-- ClickHouse answer is a list of rounds; a time is a whole number of milliseconds.
pub mod Stretch
pub mod Progress
use llm_telemetry_engine.Base.{
  ℕ, ◌+◌, ◌-◌, ltb, leb, ◌==◌, not, ◌||◌, Bool, true, false, if◌then◌else◌, Option, none, some,
  List, [], ◌∷◌, Result, ok, err, runtime_error, out_of_fuel, ◌>>=◌,
}
use llm_telemetry_engine.Experiments.Backpressure.{recovered_lag}

-- A round of the loop: the clock at its start, the total lag, the count of the rebalances, and the clock
-- once they are known.
pub record Round : Type 0 where
  pub started : ℕ
  pub lag : Result ℕ
  pub rebalances : Result ℕ
  pub measured : ℕ

-- `last_rebalances is not None and rebalances != last_rebalances`
abbrev pub moved : Option ℕ → ℕ → Bool
moved none rebalances = false
moved (some last) rebalances = not (last == rebalances)

-- Where the pipeline is quiet in a round: the time since which it is, or the end of the loop.
abbrev pub settle : ℕ → Option ℕ → ℕ → (Option ℕ → Result (Unit {0})) → Result (Unit {0})
settle stable none now continue = continue (some now)
settle stable (some since) now continue =
    if leb stable (now - since) then ok tt else continue (some since)

module _ (deadline stable : ℕ) (last_lag : Result ℕ) where
  -- The loop of `wait_until_quiesced`, from `stable_since` and `last_rebalances`. The error behind it
  -- reads the lag once more.
  unfoldable pub quiesce_loop : List Round → Option ℕ → Option ℕ → Result (Unit {0})
  quiesce_loop [] since last = err out_of_fuel
  quiesce_loop (r ∷ rs) since last =
      if leb deadline r.started
      then (last_lag >>= λ lag. err runtime_error)
      else (r.lag >>= λ lag. r.rebalances >>= λ rebalances.
          let next = λ (since' : Option ℕ). quiesce_loop rs since' (some rebalances) in
          if ltb recovered_lag lag || moved last rebalances
          then next none
          else settle stable since r.measured next)

-- `wait_until_quiesced`, from the clock's first reading.
unfoldable pub wait_until_quiesced : ℕ → ℕ → ℕ → Result ℕ → List Round → Result (Unit {0})
unfolding quiesce_loop
wait_until_quiesced now stable timeout last_lag rounds =
    quiesce_loop (now + timeout) stable last_lag rounds none none
