-- ===== src/Usdhc/Polling.antt =====
-- The rule of the polling loops: every round asks the timer, so the timeout ends the loop before
-- its rounds are used up.
use optee_ra_fork.Base.{
  ℕ, zero, suc, ◌≡◌, ◌+◌, ◌≤◌, ◌<◌, true, false, Option, none, some, ◌∷◌, Bool-cases, inl, inr,
  length, arith,
}
use native.Mathlib.Decide.{dec_lt}
use optee_ra_fork.Tee.Rules.{Maybe}
use optee_ra_fork.Usdhc.Io.{asked, Trace, Board, Dev, Result, ok, Act, and_then, poll_rounds, poll}
use optee_ra_fork.Usdhc.Rules.{Outcome, done, failed, Outcome-after, Triple, Expires}

-- `I` holds between the rounds, and `Q` when the loop is left.
module _ {b : Board} {F : Dev → Type 0} {A : Type 0} (I : Dev → Type 0) (Q : A → Dev → Type 0)
    (expires : Expires b) (timeout : ℕ) (step : Act (Option A)) (pause : Act (Unit {0}))
    (late : Act A) (step_ok : Triple b I step (λ o d. Maybe (λ a. Q a d) (I d) o) F)
    (asked_ok : (d : Dev) → I d → I (record d { trace = asked ∷ d.trace }))
    (pause_ok : Triple b I pause (λ _. I) F) (late_ok : Triple b I late Q F) where
  abbrev after_step : ℕ → Trace → Result (Option A) × Dev → Result A × Dev
  after_step n since r = and_then r λ o d'. elim o [
    | some a ↦ (ok a, d')
    | none ↦ elim (b.elapsed timeout since (asked ∷ d'.trace)) [
      | true ↦ late b (record d' { trace = asked ∷ d'.trace })
      | false ↦
          and_then (pause b (record d' { trace = asked ∷ d'.trace }))
            (λ _ d''. poll_rounds n timeout since step pause late b d'')
    ]
  ]

  abbrev Again : ℕ → Trace → Type 0
  Again n since =
      (d : Dev)
      → length since + b.polls < n + length d.trace
      → 0 < n
      → I d
      → Outcome (length d.trace) Q F (poll_rounds n timeout since step pause late b d)

  paused :
      (m n : ℕ) (since : Trace) (r : Result (Unit {0}) × Dev)
      → Again n since
      → length since + b.polls < n + m
      → 0 < n
      → Outcome m (λ _. I) F r
      → Outcome m Q F (and_then r (λ _ d. poll_rounds n timeout since step pause late b d))
  paused m n since _ again h pos (done {a} {d} i k) = Outcome-after k (again d (omega arith) pos i)
  paused m n since _ again h pos (failed f k) = failed f k

  asked_lem :
      (m n : ℕ) (since : Trace) (d : Dev)
      → Again n since
      → length since + b.polls ≤ n + m
      → m ≤ length d.trace
      → I d
      → Outcome m Q F (after_step n since (ok none, d))
  asked_lem m n since d again h k i =
      elim (Bool-cases (b.elapsed timeout since (asked ∷ d.trace))) [
        | inl over ↦ rw over (Outcome-after (omega arith) (late_ok.run now (asked_ok d i)))
        | inr more ↦ rw more (
            Outcome-after (omega arith) (
              paused (length now.trace) n since _ again (omega arith) (below more)
                (pause_ok.run now (asked_ok d i))))
      ]
    where
      now : Dev
      now = record d { trace = asked ∷ d.trace }

      below : b.elapsed timeout since now.trace ≡ false → 0 < n
      below more = elim (dec_lt 0 n) [
        | yes p ↦ p
        | no p ↦ cc (expires timeout since now.trace (omega arith), more)
      ]

  after_step_lem :
      (m n : ℕ) (since : Trace) (r : Result (Option A) × Dev)
      → Again n since
      → length since + b.polls ≤ n + m
      → Outcome m (λ o d. Maybe (λ a. Q a d) (I d) o) F r
      → Outcome m Q F (after_step n since r)
  after_step_lem m n since _ again h (done {a = none} {d} i k) = asked_lem m n since d again h k i
  after_step_lem m n since _ again h (done {a = some x} {d} q k) = done q k
  after_step_lem m n since _ again h (failed f k) = failed f k

  rounds : (n : ℕ) (since : Trace) → Again n since
  unfolding poll_rounds
  rounds zero since d h pos i = absurd (omega arith)
  rounds (suc n) since d h pos i =
      after_step_lem (length d.trace) n since (step b d) (rounds n since) (omega arith)
        (step_ok.run d i)

  pub Triple-poll : Triple b I (poll timeout step pause late) Q F
  unfolding poll
  Triple-poll = record { run = λ d i. rounds (suc b.polls) d.trace d (omega arith) (omega arith) i }
