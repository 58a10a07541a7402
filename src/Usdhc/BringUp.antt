-- ===== src/Usdhc/BringUp.antt =====
-- Power, clock and reset of the controller, and all waiting, end and start no command.
use optee_ra_fork.Base.{ℕ, ◌≡◌, refl, sym, subst, Bool, true, false, if◌then◌else◌, List, [], ◌∷◌}
use optee_ra_fork.Tee.{busy, generic}
use optee_ra_fork.Usdhc.Registers.{Reg, sysctl, irqstat, irq_done}
use optee_ra_fork.Usdhc.Io.{got, put, crash, Act, Dev, Board, set_bits}
use optee_ra_fork.Usdhc.Power.{
  at_iomux, at_ccm, PadCfg, pad_configure, pads_configure, usdhc_pads_configure, write_unless,
  usdhc_bus_clock_ensure, usdhc_clock_enable,
}
use optee_ra_fork.Usdhc.Controller.{
  bits_step, wait_bits_clear, irq_step, wait_irq, xfer_data, reset_transfer, clock_step, set_clock,
  reset_legacy, reset_controller,
}
use optee_ra_fork.Usdhc.Rules.{
  Expires, Triple, Triple-mono, Triple-bind, Triple-note, Triple-read, Triple-status,
}
use optee_ra_fork.Usdhc.Protocol.{Entry, Sent}
use optee_ra_fork.Usdhc.Quiet.{
  Sent-access, merged, Quiet, Quiet-pure, Quiet-throw, Quiet-bind, Quiet-then, Quiet-note,
  Quiet-read, Quiet-board, Quiet-context, Quiet-set_context, Quiet-if, Quiet-status, Quiet-set_bits,
  Quiet-clear_bits, Quiet-poll,
}

ruleset quiet_rules = (
  Quiet-pure, Quiet-throw, Quiet-bind, Quiet-note, Quiet-read, Quiet-board, Quiet-context,
  Quiet-set_context, Quiet-if, Quiet-status, Quiet-set_bits, Quiet-clear_bits, refl,
)

module _ (b : Board) where
  at_iomux-Quiet :
      {A : Type 0} {m : Act A} → b.iomux_mapped ≡ true → Quiet b m → Quiet b (at_iomux m)
  unfolding at_iomux
  at_iomux-Quiet {A} {m} mapped q =
      Quiet-board _ (subst (λ t. Quiet b (if t then m else crash)) (sym mapped) q)

  at_ccm-Quiet : {A : Type 0} {m : Act A} → b.ccm_mapped ≡ true → Quiet b m → Quiet b (at_ccm m)
  unfolding at_ccm
  at_ccm-Quiet {A} {m} mapped q =
      Quiet-board _ (subst (λ t. Quiet b (if t then m else crash)) (sym mapped) q)

  pad_configure-Quiet : b.iomux_mapped ≡ true → (p : PadCfg) → Quiet b (pad_configure p)
  unfolding pad_configure
  pad_configure-Quiet mapped p = search (quiet_rules, at_iomux-Quiet, mapped) depth 20

  pads_configure-Quiet : b.iomux_mapped ≡ true → (ps : List PadCfg) → Quiet b (pads_configure ps)
  unfolding pads_configure
  pads_configure-Quiet mapped [] = Quiet-pure tt
  pads_configure-Quiet mapped (p ∷ ps) =
      Quiet-then (pad_configure-Quiet mapped p) (pads_configure-Quiet mapped ps)

  -- A branch may use the test.
  Quiet-guard :
      {A : Type 0} {m k : Act A} (t : Bool)
      → (t ≡ true → Quiet b m)
      → Quiet b k
      → Quiet b (if t then m else k)
  Quiet-guard true q r = q refl
  Quiet-guard false q r = r

  pub usdhc_pads_configure-Quiet : Quiet b usdhc_pads_configure
  unfolding usdhc_pads_configure
  usdhc_pads_configure-Quiet =
      Quiet-board _
        (Quiet-guard b.iomux_mapped (λ mapped. pads_configure-Quiet mapped _) (Quiet-throw generic))

  write_unless-Quiet :
      b.ccm_mapped ≡ true → (runs : Bool) (offset v : ℕ) → Quiet b (write_unless runs offset v)
  unfolding write_unless
  write_unless-Quiet mapped runs offset v = search (quiet_rules, at_ccm-Quiet, mapped)

  pub usdhc_bus_clock_ensure-Quiet : b.ccm_mapped ≡ true → Quiet b usdhc_bus_clock_ensure
  unfolding usdhc_bus_clock_ensure
  usdhc_bus_clock_ensure-Quiet mapped =
      search (quiet_rules, write_unless-Quiet, at_ccm-Quiet, mapped) depth 30

  pub usdhc_clock_enable-Quiet : Quiet b usdhc_clock_enable
  unfolding usdhc_clock_enable
  usdhc_clock_enable-Quiet = Quiet-board _ (
      Quiet-guard b.ccm_mapped
        (λ mapped.
          search (quiet_rules, usdhc_bus_clock_ensure-Quiet, at_ccm-Quiet, mapped) depth 20)
        (Quiet-throw generic))

  reset_legacy-Quiet : Quiet b reset_legacy
  unfolding reset_legacy
  reset_legacy-Quiet = search quiet_rules depth 40

  -- Where the registers are mapped.
  module _ (expires : Expires b) where
    bits_step-Quiet : (reg : Reg) (mask : ℕ) → Quiet b (bits_step reg mask)
    unfolding bits_step
    bits_step-Quiet reg mask = search quiet_rules

    pub wait_bits_clear-Quiet :
        (reg : Reg) (mask timeout : ℕ) → Quiet b (wait_bits_clear reg mask timeout)
    unfolding wait_bits_clear
    wait_bits_clear-Quiet reg mask timeout =
        Quiet-poll expires timeout (bits_step-Quiet reg mask) (Quiet-pure tt) (Quiet-throw busy)

    irq_step-Quiet : (mask : ℕ) → Quiet b (irq_step mask)
    unfolding irq_step
    irq_step-Quiet mask = search quiet_rules depth 20

    pub wait_irq-Quiet : (mask timeout : ℕ) → Quiet b (wait_irq mask timeout)
    unfolding wait_irq
    wait_irq-Quiet mask timeout =
        Quiet-poll expires timeout (irq_step-Quiet mask) (Quiet-pure tt) (Quiet-throw busy)

    pub xfer_data-Quiet : Quiet b xfer_data
    unfolding xfer_data
    xfer_data-Quiet =
        Quiet-poll expires _ (irq_step-Quiet irq_done) (Quiet-pure tt) (Quiet-throw busy)

    -- It has no failure of its own.
    pub reset_transfer-quiet :
        {F : Dev → Type 0} (cs : List Entry)
        → Triple b (Sent b cs) reset_transfer (λ _. Sent b cs) F
    unfolding reset_transfer set_bits
    reset_transfer-quiet cs =
        Triple-bind
          (Triple-bind (Triple-read sysctl (λ v d s. Sent-access (got sysctl v) refl s))
            (λ v. Triple-note _ (λ d s. Sent-access (put sysctl _) refl s)))
          λ _.
            Triple-bind
              (Triple-mono (Triple-status ((wait_bits_clear-Quiet sysctl _ _).run cs)) merged
                (λ d s. s))
              λ _. Triple-note _ (λ d s. Sent-access (put irqstat _) refl s)

    pub reset_transfer-Quiet : Quiet b reset_transfer
    reset_transfer-Quiet = record { run = λ cs. reset_transfer-quiet cs }

    clock_wait-Quiet : Quiet b clock_step
    unfolding clock_step
    clock_wait-Quiet = search quiet_rules

    pub set_clock-Quiet : (divisor prescaler : ℕ) → Quiet b (set_clock divisor prescaler)
    unfolding set_clock
    set_clock-Quiet divisor prescaler =
        search (quiet_rules, Quiet-poll, expires, clock_wait-Quiet) depth 40

    pub reset_controller-Quiet : Quiet b reset_controller
    unfolding reset_controller
    reset_controller-Quiet =
        search (quiet_rules, wait_bits_clear-Quiet, reset_legacy-Quiet, set_clock-Quiet) depth 60
