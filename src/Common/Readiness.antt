-- ===== src/Common/Readiness.antt =====
-- `wait_for_http` of telemetry_engine/common/health.py and `wait_until_ready` of
-- telemetry_engine/storage/client.py, by their rounds: the clock, and what the service answers.
use llm_telemetry_engine.Base.{
  ℕ, ◌<◌, ◌≡◌, refl, ltb, leb, ltb→lt, ◌&&◌, Bool, true, if◌then◌else◌, if-elim, Option, none, some,
  String, List, [], ◌∷◌, ◌++◌, ap, Result, ok, err, Error, out_of_fuel, timeout_error,
}

-- A response, an `URLError` or `OSError`, or another exception.
pub data Attempt : Type 0 where
  answered : ℕ → String → Attempt
  unreachable : Attempt
  raised : Error → Attempt

abbrev accepts : Option (String → Bool) → String → Bool
accepts none body = true
accepts (some predicate) body = predicate body

-- `200 <= resp.status < 300 and (predicate is None or predicate(body))`
abbrev pub is_good : Option (String → Bool) → ℕ → String → Bool
is_good predicate status body = leb 200 status && ltb status 300 && accepts predicate body

-- A round that is not the last goes on with what follows.
abbrev attempt_http : Option (String → Bool) → Attempt → Result (Unit {0}) → Result (Unit {0})
attempt_http predicate (answered status body) rest =
    if is_good predicate status body then ok tt else rest
attempt_http predicate unreachable rest = rest
attempt_http predicate (raised e) rest = err e

unfoldable pub wait_for_http : Option (String → Bool) → ℕ → List (ℕ × Attempt) → Result (Unit {0})
wait_for_http predicate deadline [] = err out_of_fuel
wait_for_http predicate deadline ((now, attempt) ∷ rounds) =
    let rest = wait_for_http predicate deadline rounds in
    if ltb now deadline then attempt_http predicate attempt rest else err timeout_error

-- Here every exception of the query is caught.
abbrev attempt_query : Result (Unit {0}) → Result (Unit {0}) → Result (Unit {0})
attempt_query (ok u) rest = ok tt
attempt_query (err e) rest = rest

unfoldable pub wait_until_ready : ℕ → List (ℕ × Result (Unit {0})) → Result (Unit {0})
wait_until_ready deadline [] = err out_of_fuel
wait_until_ready deadline ((now, answer) ∷ rounds) =
    let rest = wait_until_ready deadline rounds in
    if ltb now deadline then attempt_query answer rest else err timeout_error

-- Among the rounds there is one before the deadline with a good answer.
abbrev IsReached : Option (String → Bool) → ℕ → List (ℕ × Attempt) → Type 0
IsReached predicate deadline rounds =
    (before after : List (ℕ × Attempt)) × (now status : ℕ) × (body : String) × (rounds
      ≡ before ++ ((now, answered status body) ∷ after))
    × (now < deadline)
    × (is_good predicate status body ≡ true)

IsReached-cons :
    (predicate : Option (String → Bool)) (deadline : ℕ) (r : ℕ × Attempt) (rs : List (ℕ × Attempt))
    → IsReached predicate deadline rs
    → IsReached predicate deadline (r ∷ rs)
IsReached-cons predicate deadline r rs (before, after, now, status, body, e, early, good) =
    (r ∷ before, after, now, status, body, ap (λ (l : List (ℕ × Attempt)). r ∷ l) e, early, good)

attempt-IsReached :
    (predicate : Option (String → Bool)) (deadline now : ℕ) (attempt : Attempt)
    (rs : List (ℕ × Attempt)) (rest : Result (Unit {0}))
    → now < deadline
    → (rest ≡ ok tt → IsReached predicate deadline rs)
    → attempt_http predicate attempt rest ≡ ok tt
    → IsReached predicate deadline ((now, attempt) ∷ rs)
attempt-IsReached predicate deadline now unreachable rs rest early k h =
    IsReached-cons predicate deadline (now, unreachable) rs (k h)
attempt-IsReached predicate deadline now (raised e) rs rest early k h = cc h
attempt-IsReached predicate deadline now (answered status body) rs rest early k h =
    if-elim
      (λ (m : Result (Unit {0})).
        m ≡ ok tt → IsReached predicate deadline ((now, answered status body) ∷ rs))
      (is_good predicate status body) (λ good _. ([], rs, now, status, body, refl, early, good))
      (λ bad h'. IsReached-cons predicate deadline (now, answered status body) rs (k h')) h

-- The wait returns only where a round before the deadline had a status of 200 to 299 and a body that
-- the predicate takes, if there is one.
wait_for_http-IsReached :
    (predicate : Option (String → Bool)) (deadline : ℕ) (rounds : List (ℕ × Attempt))
    → wait_for_http predicate deadline rounds ≡ ok tt
    → IsReached predicate deadline rounds
unfolding wait_for_http
wait_for_http-IsReached predicate deadline [] h = cc h
wait_for_http-IsReached predicate deadline ((now, attempt) ∷ rounds) h =
    if-elim
      (λ (m : Result (Unit {0})).
        m ≡ ok tt → IsReached predicate deadline ((now, attempt) ∷ rounds))
      (ltb now deadline)
      (λ early h'.
        attempt-IsReached predicate deadline now attempt rounds _ (ltb→lt now deadline early)
          (wait_for_http-IsReached predicate deadline rounds) h')
      (λ late h'. cc h') h
