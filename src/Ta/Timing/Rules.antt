-- ===== src/Ta/Timing/Rules.antt =====
-- The perf lines of the TA leave what the handler returns and holds.
use optee_ra_fork.Base.{ℕ, ◌≡◌, refl, inl, inr, Bool-cases, ◌==◌}
use optee_ra_fork.Perf.{KeyMode}
use optee_ra_fork.Tee.{Env, St, Act, Error}
use optee_ra_fork.Tee.Resources.{Kept-refl}
use optee_ra_fork.Tee.Rules.{Ensures, done, Ensures-bind, Ensures-finally}
use optee_ra_fork.Ta.Timing.{now_us, note_invoke, timed, report, reported}

report-held :
    (env : Env) (start : ℕ) (mode : KeyMode) (st : St) → (report start mode env st).held ≡ st.held
unfolding report
report-held env start mode st = elim (Bool-cases (st.invoke_us == 0)) [
  | inl h ↦ rw (h, report) refl
  | inr h ↦ rw (h, report) refl
]

module _ {env : Env} {L : Type 0} {E : Error → Type 0} where
  Ensures-now_us : Ensures env L (λ _. Unit) E now_us
  unfolding now_us
  Ensures-now_us = record { run = λ st. done tt (Kept-refl st.held) }

  pub Ensures-timed :
      {A : Type 0} {P : A → Type 0} {m : Act A} → Ensures env L P E m → Ensures env L P E (timed m)
  unfolding timed note_invoke
  Ensures-timed body = Ensures-bind Ensures-now_us λ start u. Ensures-finally _ (λ st. refl) body

  pub Ensures-reported :
      {A : Type 0} {P : A → Type 0} {m : Act A} (mode : KeyMode)
      → Ensures env L P E m
      → Ensures env L P E (reported mode m)
  unfolding reported
  Ensures-reported mode body = Ensures-bind Ensures-now_us λ start u.
      Ensures-finally (report start mode) (report-held env start mode)
        (record { run = λ st. body.run (record st { invoke_us = 0 }) })
