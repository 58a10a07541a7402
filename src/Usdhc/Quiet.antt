-- ===== src/Usdhc/Quiet.antt =====
-- Actions that start no command: they keep the rules of the controller and the log of commands.
use optee_ra_fork.Base.{
  ℕ, ◌≡◌, refl, ◌∙◌, Bool, true, false, Option, none, some, List, ◌∷◌, arith, if◌then◌else◌,
}
use optee_ra_fork.Tee.{Error}
use optee_ra_fork.Tee.Rules.{Maybe}
use optee_ra_fork.Usdhc.Registers.{Reg, xfertyp}
use optee_ra_fork.Usdhc.Io.{
  Access, got, put, asked, Board, Ctx, Dev, Act, pure, throw, ◌>>=◌, ◌>>◌, status, note, board,
  context, set_context, read, write, set_bits, clear_bits, clear_set_bits, poll,
}
use optee_ra_fork.Usdhc.Rules.{
  Triple, Expires, Triple-weaken, Triple-mono, Triple-pure, Triple-throw, Triple-bind, Triple-note,
  Triple-read, Triple-board, Triple-context, Triple-set_context, Triple-status,
}
use optee_ra_fork.Usdhc.Polling.{Triple-poll}
use optee_ra_fork.Usdhc.Protocol.{
  Entry, Phase, is_fine, advance, phase, log_command, commands, last_arg, Sent,
}

abbrev pub starts : Access → Bool
starts (put xfertyp v) = true
starts x = false

advance-is_fine :
    (b : Board) (x : Access) (p : Phase)
    → starts x ≡ false
    → is_fine p ≡ true
    → is_fine (advance b x p) ≡ true
advance-is_fine b x p h k = ground arith

log_command_quiet :
    (x : Access) (p : Phase) (a : ℕ) (cs : List Entry)
    → starts x ≡ false
    → log_command x p a cs ≡ cs
log_command_quiet x p a cs h = ground arith

-- The registers that hold no command word.
abbrev pub IsPlain : Reg → Type 0
IsPlain r = (v : ℕ) → starts (put r v) ≡ false

-- What changes the context leaves `inited`, or clears it.
abbrev pub KeepsInited : (Ctx → Ctx) → Type 0
KeepsInited f = (c : Ctx) → (f c).inited ≡ true → c.inited ≡ true

module _ {b : Board} {cs : List Entry} {d : Dev} where
  pub Sent-access :
      (x : Access) → starts x ≡ false → Sent b cs d → Sent b cs (record d { trace = x ∷ d.trace })
  Sent-access x h s = record {
    safe = record {
      in_turn = advance-is_fine b x (phase b d.trace) h s.safe.in_turn;
      reachable = s.safe.reachable;
    };
    log = log_command_quiet x (phase b d.trace) (last_arg d.trace) (commands b d.trace) h ∙ s.log;
  }

  pub Sent-context :
      (f : Ctx → Ctx) → KeepsInited f → Sent b cs d → Sent b cs (record d { ctx = f d.ctx })
  Sent-context f k s = record {
    safe = record { in_turn = s.safe.in_turn; reachable = λ h. s.safe.reachable (k d.ctx h) };
    log = s.log;
  }

-- On every path, with an error or without, and the action ends.
pub record Quiet (b : Board) {A : Type 0} (m : Act A) : Type 0 where
  pub run : (cs : List Entry) → Triple b (Sent b cs) m (λ _. Sent b cs) (Sent b cs)

module _ {b : Board} where
  pub Quiet-pure : {A : Type 0} (a : A) → Quiet b (pure a)
  Quiet-pure a = record { run = λ cs. Triple-pure a (λ d s. s) }

  pub Quiet-throw : {A : Type 0} (e : Error) → Quiet b (throw {A = A} e)
  Quiet-throw e = record { run = λ cs. Triple-throw e (λ d s. s) }

  pub Quiet-bind :
      {A B : Type 0} {m : Act A} {f : A → Act B}
      → Quiet b m
      → ((a : A) → Quiet b (f a))
      → Quiet b (m >>= f)
  Quiet-bind first next = record { run = λ cs. Triple-bind (first.run cs) (λ a. (next a).run cs) }

  pub Quiet-then : {A B : Type 0} {m : Act A} {k : Act B} → Quiet b m → Quiet b k → Quiet b (m >> k)
  Quiet-then first next = Quiet-bind first (λ a. next)

  pub Quiet-note : (x : Access) → starts x ≡ false → Quiet b (note x)
  Quiet-note x h = record { run = λ cs. Triple-note x (λ d s. Sent-access x h s) }

  pub Quiet-read : (r : Reg) → Quiet b (read r)
  Quiet-read r = record { run = λ cs. Triple-read r (λ v d s. Sent-access (got r v) refl s) }

  pub Quiet-board : {A : Type 0} (f : Board → Act A) → Quiet b (f b) → Quiet b (board f)
  Quiet-board f q = record { run = λ cs. Triple-board f (q.run cs) }

  pub Quiet-context :
      {A : Type 0} (f : Ctx → Act A) → ((c : Ctx) → Quiet b (f c)) → Quiet b (context f)
  Quiet-context f q = record {
    run = λ cs. Triple-context f (λ c. Triple-weaken (λ d s. s.0) ((q c).run cs));
  }

  pub Quiet-set_context : (f : Ctx → Ctx) → KeepsInited f → Quiet b (set_context f)
  Quiet-set_context f k = record { run = λ cs. Triple-set_context f (λ d s. Sent-context f k s) }

  pub Quiet-if :
      {A : Type 0} {m k : Act A} (t : Bool) → Quiet b m → Quiet b k → Quiet b (if t then m else k)
  Quiet-if true q r = q
  Quiet-if false q r = r

  pub merged :
      {cs : List Entry} (o : Option Error) (d : Dev)
      → Maybe (λ (e : Error). Sent b cs d) (Sent b cs d) o
      → Sent b cs d
  merged none d s = s
  merged (some e) d s = s

  pub Quiet-status : {A : Type 0} {m : Act A} → Quiet b m → Quiet b (status m)
  Quiet-status q = record { run = λ cs. Triple-mono (Triple-status (q.run cs)) merged (λ d s. s) }

  pub Quiet-write : (r : Reg) (v : ℕ) → starts (put r v) ≡ false → Quiet b (write r v)
  Quiet-write r v h = Quiet-note (put r v) h

  pub Quiet-set_bits : (r : Reg) (mask : ℕ) → IsPlain r → Quiet b (set_bits r mask)
  unfolding set_bits
  Quiet-set_bits r mask h = Quiet-bind (Quiet-read r) (λ v. Quiet-write r _ (h _))

  pub Quiet-clear_bits : (r : Reg) (mask : ℕ) → IsPlain r → Quiet b (clear_bits r mask)
  unfolding clear_bits
  Quiet-clear_bits r mask h = Quiet-bind (Quiet-read r) (λ v. Quiet-write r _ (h _))

  pub Quiet-clear_set_bits :
      (r : Reg) (clear mask : ℕ) → IsPlain r → Quiet b (clear_set_bits r clear mask)
  unfolding clear_set_bits
  Quiet-clear_set_bits r clear mask h = Quiet-bind (Quiet-read r) (λ v. Quiet-write r _ (h _))

  step_post :
      {A : Type 0} {cs : List Entry} (o : Option A) (d : Dev)
      → Sent b cs d
      → Maybe (λ (a : A). Sent b cs d) (Sent b cs d) o
  step_post none d s = s
  step_post (some a) d s = s

  pub Quiet-poll :
      {A : Type 0} {step : Act (Option A)} {pause : Act (Unit {0})} {late : Act A}
      → Expires b
      → (timeout : ℕ) → Quiet b step
      → Quiet b pause
      → Quiet b late
      → Quiet b (poll timeout step pause late)
  Quiet-poll {step} {pause} {late} expires timeout qs qp ql = record {
    run = λ cs.
        Triple-poll (Sent b cs) (λ a. Sent b cs) expires timeout step pause late
          (Triple-mono (qs.run cs) step_post (λ d s. s)) (λ d s. Sent-access asked refl s)
          (qp.run cs) (ql.run cs);
  }
