-- ===== src/Usdhc/Keeps.antt =====
-- Actions that may start commands: they end, and they keep the rules of the controller.
use optee_ra_fork.Base.{
  ℕ, ◌≡◌, refl, Bool, true, false, Option, none, some, List, ◌∷◌, if◌then◌else◌,
}
use optee_ra_fork.Tee.Rules.{Maybe}
use optee_ra_fork.Usdhc.Io.{asked, Board, Ctx, Dev, Act, pure, ◌>>=◌, board, context, poll}
use optee_ra_fork.Usdhc.Command.{MmcCmd, send_cmd}
use optee_ra_fork.Usdhc.Rules.{
  Triple, Expires, Triple-weaken, Triple-mono, Triple-pure, Triple-bind, Triple-board,
  Triple-context,
}
use optee_ra_fork.Usdhc.Polling.{Triple-poll}
use optee_ra_fork.Usdhc.Protocol.{Entry, commands, IsSafe, Sent}
use optee_ra_fork.Usdhc.Quiet.{Quiet}
use optee_ra_fork.Usdhc.Sending.{IsCommand, send_cmd_lem}

pub record Keeps (b : Board) {A : Type 0} (m : Act A) : Type 0 where
  pub run : Triple b (IsSafe b) m (λ _. IsSafe b) (IsSafe b)

module _ {b : Board} where
  -- What holds after any log of commands holds of the log that there is.
  pub Triple-any_log :
      {A : Type 0} {m : Act A} {Q : A → Dev → Type 0} {F : Dev → Type 0}
      → ((cs : List Entry) → Triple b (Sent b cs) m Q F)
      → Triple b (IsSafe b) m Q F
  Triple-any_log t = record {
    run = λ d s. (t (commands b d.trace)).run d (record { safe = s; log = refl });
  }

  pub Keeps-of_Quiet : {A : Type 0} {m : Act A} → Quiet b m → Keeps b m
  Keeps-of_Quiet q = record {
    run = Triple-any_log (λ cs. Triple-mono (q.run cs) (λ a d s. s.safe) (λ d s. s.safe));
  }

  pub Keeps-pure : {A : Type 0} (a : A) → Keeps b (pure a)
  Keeps-pure a = record { run = Triple-pure a (λ d s. s) }

  pub Keeps-bind :
      {A B : Type 0} {m : Act A} {f : A → Act B}
      → Keeps b m
      → ((a : A) → Keeps b (f a))
      → Keeps b (m >>= f)
  Keeps-bind first next = record { run = Triple-bind first.run (λ a. (next a).run) }

  pub Keeps-board : {A : Type 0} (f : Board → Act A) → Keeps b (f b) → Keeps b (board f)
  Keeps-board f k = record { run = Triple-board f k.run }

  pub Keeps-context :
      {A : Type 0} (f : Ctx → Act A) → ((c : Ctx) → Keeps b (f c)) → Keeps b (context f)
  Keeps-context f k = record { run = Triple-context f (λ c. Triple-weaken (λ d s. s.0) (k c).run) }

  pub Keeps-if :
      {A : Type 0} {m k : Act A} (t : Bool) → Keeps b m → Keeps b k → Keeps b (if t then m else k)
  Keeps-if true q r = q
  Keeps-if false q r = r

  -- A branch may use the test.
  pub Keeps-guard :
      {A : Type 0} {m k : Act A} (t : Bool)
      → (t ≡ true → Keeps b m)
      → Keeps b k
      → Keeps b (if t then m else k)
  Keeps-guard true q r = q refl
  Keeps-guard false q r = r

  step_post :
      {A : Type 0} (o : Option A) (d : Dev)
      → IsSafe b d
      → Maybe (λ (a : A). IsSafe b d) (IsSafe b d) o
  step_post none d s = s
  step_post (some a) d s = s

  asked_safe : (d : Dev) → IsSafe b d → IsSafe b (record d { trace = asked ∷ d.trace })
  asked_safe d s = record { in_turn = s.in_turn; reachable = s.reachable }

  pub Keeps-poll :
      {A : Type 0} {step : Act (Option A)} {pause : Act (Unit {0})} {late : Act A}
      → Expires b
      → (timeout : ℕ) → Keeps b step
      → Keeps b pause
      → Keeps b late
      → Keeps b (poll timeout step pause late)
  Keeps-poll {step} {pause} {late} expires timeout ks kp kl = record {
    run =
        Triple-poll (IsSafe b) (λ a. IsSafe b) expires timeout step pause late
          (Triple-mono ks.run step_post (λ d s. s)) asked_safe kp.run kl.run;
  }

  pub Keeps-send_cmd :
      Expires b → b.usdhc_mapped ≡ true → (cmd : MmcCmd) → IsCommand cmd → Keeps b (send_cmd cmd)
  Keeps-send_cmd expires mapped cmd c = record {
    run =
        Triple-any_log (λ cs.
          Triple-mono (send_cmd_lem b expires mapped cs cmd c) (λ a d s. s.0.safe) (λ d s. s));
  }
