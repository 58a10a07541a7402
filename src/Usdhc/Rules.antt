-- ===== src/Usdhc/Rules.antt =====
-- Total rules for the actions of the driver. An action with a postcondition ends: there is no rule
-- for `hang`, a polling loop that does not end, nor for `fault`.
use optee_ra_fork.Base.{
  ℕ, ◌≡◌, refl, ◌+◌, ◌≤◌, Bool, true, false, Option, ◌∷◌, length, arith, if◌then◌else◌,
}
use optee_ra_fork.Tee.{Error}
use optee_ra_fork.Tee.Rules.{Maybe}
use optee_ra_fork.Usdhc.Registers.{Reg}
use optee_ra_fork.Usdhc.Io.{
  Access, got, Trace, Board, Ctx, Dev, Result, ok, err, Act, pure, throw, and_then, ◌>>=◌, status,
  status_of, note, board, context, set_context, read,
}

-- The outcome of a run that began after `n` accesses: a result with `Q`, or an error with `F`.
pub data Outcome {A : Type 0} (n : ℕ) (Q : A → Dev → Type 0) (F : Dev → Type 0)
    : Result A × Dev → Type 0 where
  done : {a : A} {d : Dev} → Q a d → n ≤ length d.trace → Outcome n Q F (ok a, d)
  failed : {e : Error} {d : Dev} → F d → n ≤ length d.trace → Outcome n Q F (err e, d)

pub record Triple {A : Type 0} (b : Board) (P : Dev → Type 0) (m : Act A) (Q : A → Dev → Type 0)
    (F : Dev → Type 0) : Type 0 where
  pub run : (d : Dev) → P d → Outcome (length d.trace) Q F (m b d)

-- What the driver relies on: a timeout has elapsed once `polls` accesses were made after its start.
abbrev pub Expires : Board → Type 0
Expires b =
    (timeout : ℕ) (since now : Trace)
    → length since + b.polls ≤ length now
    → b.elapsed timeout since now ≡ true

pub Outcome-after :
    {A : Type 0} {Q : A → Dev → Type 0} {F : Dev → Type 0} {m n : ℕ} {r : Result A × Dev}
    → m ≤ n
    → Outcome n Q F r
    → Outcome m Q F r
Outcome-after h (done q k) = done q (omega arith)
Outcome-after h (failed f k) = failed f (omega arith)

pub Outcome-mono :
    {A : Type 0} {Q Q' : A → Dev → Type 0} {F F' : Dev → Type 0} {n : ℕ} {r : Result A × Dev}
    → ((a : A) (d : Dev) → Q a d → Q' a d)
    → ((d : Dev) → F' d → F d)
    → Outcome n Q F' r
    → Outcome n Q' F r
Outcome-mono w v (done {a} {d} q h) = done (w a d q) h
Outcome-mono w v (failed {d} f h) = failed (v d f) h

-- A status that the code looks at later: `R` after success, `S` after a failure.
Outcome-status :
    {A : Type 0} {R S F : Dev → Type 0} {n : ℕ} {r : Result A × Dev}
    → Outcome n (λ a. R) S r
    → Outcome n (λ (o : Option Error) d. Maybe (λ e. S d) (R d) o) F (status_of r)
Outcome-status (done q h) = done q h
Outcome-status (failed f h) = done f h

module _ {b : Board} {F : Dev → Type 0} where
  pub Triple-weaken :
      {A : Type 0} {P P' : Dev → Type 0} {Q : A → Dev → Type 0} {m : Act A}
      → ((d : Dev) → P d → P' d)
      → Triple b P' m Q F
      → Triple b P m Q F
  Triple-weaken w t = record { run = λ d p. t.run d (w d p) }

  pub Triple-mono :
      {A : Type 0} {P : Dev → Type 0} {Q Q' : A → Dev → Type 0} {F' : Dev → Type 0} {m : Act A}
      → Triple b P m Q F'
      → ((a : A) (d : Dev) → Q a d → Q' a d)
      → ((d : Dev) → F' d → F d)
      → Triple b P m Q' F
  Triple-mono t w v = record { run = λ d p. Outcome-mono w v (t.run d p) }

  pub Triple-pure :
      {A : Type 0} {P : Dev → Type 0} {Q : A → Dev → Type 0} (a : A)
      → ((d : Dev) → P d → Q a d)
      → Triple b P (pure a) Q F
  unfolding pure
  Triple-pure a q = record { run = λ d p. done (q d p) (omega arith) }

  pub Triple-throw :
      {A : Type 0} {P : Dev → Type 0} {Q : A → Dev → Type 0} (e : Error)
      → ((d : Dev) → P d → F d)
      → Triple b P (throw e) Q F
  unfolding throw
  Triple-throw e f = record { run = λ d p. failed (f d p) (omega arith) }

  Outcome-and_then :
      {A B : Type 0} {R : A → Dev → Type 0} {Q : B → Dev → Type 0} (f : A → Act B)
      → ((a : A) → Triple b (R a) (f a) Q F)
      → (n : ℕ) (r : Result A × Dev) → Outcome n R F r
      → Outcome n Q F (and_then r (λ a d. f a b d))
  Outcome-and_then f next n _ (done {a} {d} q h) = Outcome-after h ((next a).run d q)
  Outcome-and_then f next n _ (failed x h) = failed x h

  pub Triple-bind :
      {A B : Type 0} {P : Dev → Type 0} {R : A → Dev → Type 0} {Q : B → Dev → Type 0} {m : Act A}
      {f : A → Act B}
      → Triple b P m R F
      → ((a : A) → Triple b (R a) (f a) Q F)
      → Triple b P (m >>= f) Q F
  unfolding ◌>>=◌
  Triple-bind {m} {f} first next = record {
    run = λ d p. Outcome-and_then f next (length d.trace) (m b d) (first.run d p);
  }

  pub Triple-note :
      {P : Dev → Type 0} {Q : Unit {0} → Dev → Type 0} (x : Access)
      → ((d : Dev) → P d → Q tt (record d { trace = x ∷ d.trace }))
      → Triple b P (note x) Q F
  unfolding note
  Triple-note x q = record { run = λ d p. done (q d p) (omega arith) }

  -- Whatever value is read.
  pub Triple-read :
      {P : Dev → Type 0} {Q : ℕ → Dev → Type 0} (r : Reg)
      → ((v : ℕ) (d : Dev) → P d → Q v (record d { trace = got r v ∷ d.trace }))
      → Triple b P (read r) Q F
  unfolding read
  Triple-read r q = record { run = λ d p. done (q (b.value d.trace r) d p) (omega arith) }

  pub Triple-board :
      {A : Type 0} {P : Dev → Type 0} {Q : A → Dev → Type 0} (f : Board → Act A)
      → Triple b P (f b) Q F
      → Triple b P (board f) Q F
  unfolding board
  Triple-board f t = record { run = λ d p. t.run d p }

  pub Triple-context :
      {A : Type 0} {P : Dev → Type 0} {Q : A → Dev → Type 0} (f : Ctx → Act A)
      → ((c : Ctx) → Triple b (λ d. P d × (d.ctx ≡ c)) (f c) Q F)
      → Triple b P (context f) Q F
  unfolding context
  Triple-context f t = record { run = λ d p. (t d.ctx).run d (p, refl) }

  pub Triple-set_context :
      {P : Dev → Type 0} {Q : Unit {0} → Dev → Type 0} (f : Ctx → Ctx)
      → ((d : Dev) → P d → Q tt (record d { ctx = f d.ctx }))
      → Triple b P (set_context f) Q F
  unfolding set_context
  Triple-set_context f q = record { run = λ d p. done (q d p) (omega arith) }

  pub Triple-if :
      {A : Type 0} {P : Dev → Type 0} {Q : A → Dev → Type 0} {m k : Act A} (t : Bool)
      → (t ≡ true → Triple b P m Q F)
      → (t ≡ false → Triple b P k Q F)
      → Triple b P (if t then m else k) Q F
  Triple-if true yes_case no_case = yes_case refl
  Triple-if false yes_case no_case = no_case refl

  pub Triple-status :
      {A : Type 0} {P R S : Dev → Type 0} {m : Act A}
      → Triple b P m (λ a. R) S
      → Triple b P (status m) (λ (o : Option Error) d. Maybe (λ e. S d) (R d) o) F
  unfolding status
  Triple-status t = record { run = λ d p. Outcome-status (t.run d p) }
