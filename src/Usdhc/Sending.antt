-- ===== src/Usdhc/Sending.antt =====
-- A whole command: it is started in turn, its data phase moves what was set up, and it ends.
use optee_ra_fork.Base.{
  ℕ, ◌≡◌, refl, ap, ap₂, ◌∙◌, Bool, true, false, Option, none, some, List, [], ◌∷◌, Bytes, take,
  le→leb, arith,
}
use optee_ra_fork.Tee.{Error}
use optee_ra_fork.Tee.Rules.{Maybe}
use optee_ra_fork.Usdhc.Registers.{
  Reg, cmdarg, xfertyp, cmdrsp0, cmdrsp1, cmdrsp2, cmdrsp3, all_ones, irqstat, irq_cc,
  cmd_timeout_us,
}
use optee_ra_fork.Usdhc.Io.{
  put, dropped, Trace, Board, Dev, Act, throw, ◌>>=◌, ◌>>◌, status, set_context, read, write,
}
use optee_ra_fork.Usdhc.Controller.{usdhc_base, xfer_data, reset_transfer}
use optee_ra_fork.Usdhc.Command.{
  Transfer, no_data, send, receive, MmcCmd, bytes_of, command_word, empty_bounce, collect_data,
  data_phase, send_cmd,
}
use optee_ra_fork.Usdhc.Rules.{
  done, Triple, Expires, Triple-mono, Triple-pure, Triple-throw, Triple-bind, Triple-note,
  Triple-board, Triple-set_context, Triple-status,
}
use optee_ra_fork.Usdhc.Protocol.{
  Entry, Phase, payload_at, is_fine, uses_data, on_xfertyp, phase, last_arg, IsSafe, Sent,
}
use optee_ra_fork.Usdhc.Quiet.{Quiet-read, Sent-access, Sent-context}
use optee_ra_fork.Usdhc.BringUp.{xfer_data-Quiet, reset_transfer-quiet, wait_irq-Quiet}
use optee_ra_fork.Usdhc.Setup.{Fits, loaded, At, At-note, wait_idle_lem, prepare_lem}

-- What the caller's buffer holds after the command: what the controller left in dma_bounce.
abbrev pub contents : Board → Transfer → Trace → Bytes
contents b (receive room blocks) t = take (bytes_of blocks) (b.bounce t)
contents b t tr = []

-- After a failed data phase: the card and the controller are brought up again before they are used.
abbrev pub Stopped : Board → List Entry → Dev → Type 0
Stopped b cs d = Sent b cs d × (d.ctx.inited ≡ false) × (d.ctx.cur_part ≡ 0xff)

-- The command in the log.
abbrev pub entry_of : MmcCmd → Entry
entry_of cmd = (command_word cmd, cmd.arg, payload_at (loaded cmd.transfer))

abbrev pub has_data : Transfer → Bool
has_data no_data = false
has_data t = true

-- A command that the controller can take: the data bit of its word is set exactly when it has data,
-- and its buffer is large enough.
pub record IsCommand (cmd : MmcCmd) : Type 0 where
  pub data_bit : uses_data (command_word cmd) ≡ has_data cmd.transfer
  pub fits : Fits cmd.transfer

in_turn_after :
    (t : Transfer) (word : ℕ)
    → uses_data word ≡ has_data t
    → is_fine (on_xfertyp word (loaded t)) ≡ true
in_turn_after no_data word h = rw h
in_turn_after (send buf blocks) word h = rw h
in_turn_after (receive room blocks) word h = rw h

module _ (b : Board) where
  pub usdhc_base_lem :
      {P : Dev → Type 0} {F : Dev → Type 0}
      → b.usdhc_mapped ≡ true
      → Triple b P usdhc_base (λ _. P) F
  unfolding usdhc_base
  usdhc_base_lem h = Triple-board _ (rw h (Triple-pure tt (λ d p. p)))

  start_lem :
      (cs : List Entry) (cmd : MmcCmd)
      → uses_data (command_word cmd) ≡ has_data cmd.transfer
      → Triple b
          (λ d. At b cs (loaded cmd.transfer) d × (last_arg d.trace ≡ cmd.arg))
          (write xfertyp (command_word cmd))
          (λ _. Sent b (entry_of cmd ∷ cs))
          (IsSafe b)
  start_lem cs cmd h = Triple-note (put xfertyp (command_word cmd)) λ d s. record {
    safe = record {
      in_turn =
          ap (λ p. is_fine (on_xfertyp (command_word cmd) p)) s.0.1
          ∙ in_turn_after cmd.transfer (command_word cmd) h;
      reachable = s.0.0.safe.reachable;
    };
    log =
        ap
          (λ (l : List Entry).
            (command_word cmd, last_arg d.trace, payload_at (phase b d.trace)) ∷ l)
          s.0.0.log
        ∙ ap₂ (λ (a : ℕ) (p : Phase). (command_word cmd, a, payload_at p) ∷ cs) s.1 s.0.1;
  }

  collect_data_lem :
      {F : Dev → Type 0} (cs : List Entry) (t : Transfer)
      → Fits t
      → Triple b
          (Sent b cs)
          (collect_data t)
          (λ bytes d. Sent b cs d × (bytes ≡ contents b t d.trace))
          F
  unfolding collect_data empty_bounce
  collect_data_lem cs no_data h = Triple-pure [] (λ d s. (s, refl))
  collect_data_lem cs (send buf blocks) h = Triple-pure [] (λ d s. (s, refl))
  collect_data_lem cs (receive room blocks) h =
      Triple-bind
        (Triple-note {Q = λ _. Sent b cs} (dropped (bytes_of blocks)) (λ d s. Sent-access _ refl s))
        λ _.
          rw (le→leb (bytes_of blocks) room h)
            (record { run = λ d s. done (s, refl) (omega arith) })

  module _ (expires : Expires b) (cs : List Entry) where
    moved :
        (t : Transfer)
        → Fits t
        → Triple b
            (Sent b cs)
            (do
              failure ← status xfer_data
              elim failure [
                | none ↦ collect_data t
                | some e ↦ do
                  reset_transfer
                  set_context (λ c. record c { inited = false; cur_part = 0xff })
                  throw e
              ])
            (λ (bytes : Bytes) d. Sent b cs d × (bytes ≡ contents b t d.trace))
            (Stopped b cs)
    moved t h = Triple-bind (Triple-status ((xfer_data-Quiet b expires).run cs)) after
      where
        after :
            (o : Option Error)
            → Triple b
                (λ d. Maybe (λ (e : Error). Sent b cs d) (Sent b cs d) o)
                (elim o [
                  | none ↦ collect_data t
                  | some e ↦ do
                    reset_transfer
                    set_context (λ c. record c { inited = false; cur_part = 0xff })
                    throw e
                ])
                (λ (bytes : Bytes) d. Sent b cs d × (bytes ≡ contents b t d.trace))
                (Stopped b cs)
        after none = collect_data_lem cs t h
        after (some e) = Triple-bind (reset_transfer-quiet b expires cs) λ _.
            Triple-bind
              (Triple-set_context {Q = λ _. Stopped b cs} _ (λ d s. (
                Sent-context (λ c. record c { inited = false; cur_part = 0xff }) (λ c h. cc) s,
                refl,
                refl,
              )))
              λ _. Triple-throw e (λ d s. s)

    pub data_phase_lem :
        (t : Transfer)
        → Fits t
        → Triple b
            (Sent b cs)
            (data_phase t)
            (λ bytes d. Sent b cs d × (bytes ≡ contents b t d.trace))
            (Stopped b cs)
    unfolding data_phase
    data_phase_lem no_data h = Triple-pure [] (λ d s. (s, refl))
    data_phase_lem (send buf blocks) h = moved (send buf blocks) h
    data_phase_lem (receive room blocks) h = moved (receive room blocks) h

  module _ (expires : Expires b) (mapped : b.usdhc_mapped ≡ true) (cs : List Entry) where
    failing :
        {A : Type 0} {cs' : List Entry} {P : Dev → Type 0} {m : Act A} {Q : A → Dev → Type 0}
        → Triple b P m Q (Sent b cs')
        → Triple b P m Q (IsSafe b)
    failing t = Triple-mono t (λ a d q. q) (λ d s. s.safe)

    answer_read :
        {A : Type 0} {cs' : List Entry} {Q : A → Dev → Type 0} {f : ℕ → Act A} (r : Reg)
        → ((v : ℕ) → Triple b (Sent b cs') (f v) Q (IsSafe b))
        → Triple b (Sent b cs') (read r >>= f) Q (IsSafe b)
    answer_read r next = Triple-bind (failing ((Quiet-read r).run _)) next

    arg_lem :
        (p : Phase) (arg : ℕ)
        → Triple b
            (At b cs p)
            (write cmdarg arg)
            (λ _ d. At b cs p d × (last_arg d.trace ≡ arg))
            (IsSafe b)
    arg_lem p arg = Triple-note (put cmdarg arg) (λ d s. ((Sent-access _ refl s.0, s.1), refl))

    -- A command that succeeded is the last one that was started.
    pub send_cmd_lem :
        (cmd : MmcCmd)
        → IsCommand cmd
        → Triple b
            (Sent b cs)
            (send_cmd cmd)
            (λ r d. Sent b (entry_of cmd ∷ cs) d × (r.received ≡ contents b cmd.transfer d.trace))
            (IsSafe b)
    unfolding send_cmd
    send_cmd_lem cmd c = Triple-bind (usdhc_base_lem mapped) λ _.
        Triple-bind (failing (wait_idle_lem expires)) λ _.
          Triple-bind (At-note (put irqstat all_ones) refl refl) λ _.
            Triple-bind (failing (prepare_lem cmd.transfer c.fits)) λ _.
              Triple-bind (arg_lem _ cmd.arg) λ _. Triple-bind (start_lem cs cmd c.data_bit) λ _.
                Triple-bind (failing ((wait_irq-Quiet b expires irq_cc cmd_timeout_us).run _)) λ _.
                  answer_read cmdrsp0 λ r0. answer_read cmdrsp1 λ r1. answer_read cmdrsp2 λ r2.
                    answer_read cmdrsp3 λ r3.
                      Triple-bind
                        (Triple-mono (data_phase_lem expires _ cmd.transfer c.fits) (λ a d s. s)
                          (λ d s. s.0.safe))
                        λ bytes. Triple-pure _ (λ d s. s)
