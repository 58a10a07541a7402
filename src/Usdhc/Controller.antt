-- ===== src/Usdhc/Controller.antt =====
-- The controller: waiting for its flags, its clock, and its reset.
use optee_ra_fork.Base.{ℕ, Option, some, none, ◌==◌, bit_and, bit_or, if◌then◌else◌}
use optee_ra_fork.Tee.{busy, communication}
use optee_ra_fork.Usdhc.Registers.{
  Reg, prsstat, proctl, sysctl, irqstat, irqstaten, irqsigen, autocmd12_err, mixctrl, dllctrl,
  clktunectrl, strobe_dll_ctrl, tuning_ctrl, vendorspec, mmcboot, bit32, shift_u32, without,
  all_ones, clock_stable, inita, rsta_rstt, rst_fifo, rstc_rstd, clock_mask, timeout_mask, irq_brr,
  irq_done, irq_error, cken, clocks_on, cmd_timeout_us, data_timeout_us,
}
use optee_ra_fork.Usdhc.Io.{
  delayed, Act, pure, throw, crash, ◌>>=◌, ◌>>◌, status, note, board, set_context, read, write,
  set_bits, clear_bits, poll,
}

-- `usdhc_base()` where the address is used at once: address 0 is no register.
unfoldable pub usdhc_base : Act (Unit {0})
usdhc_base = board λ b. if b.usdhc_mapped then pure tt else crash

unfoldable pub bits_step : Reg → ℕ → Act (Option (Unit {0}))
bits_step reg mask = do v ← read reg; pure (if bit_and v mask == 0 then some tt else none)

unfoldable pub wait_bits_clear : Reg → ℕ → ℕ → Act (Unit {0})
wait_bits_clear reg mask timeout = poll timeout (bits_step reg mask) (pure tt) (throw busy)

-- A round of wait_irq and of xfer_data: the error flags first, then all flags of `mask`.
unfoldable pub irq_step : ℕ → Act (Option (Unit {0}))
irq_step mask = do
  stat ← read irqstat
  if bit_and stat irq_error == 0
      then if bit_and stat mask == mask then (do write irqstat mask; pure (some tt)) else pure none
      else (do write irqstat stat; throw communication)

unfoldable pub wait_irq : ℕ → ℕ → Act (Unit {0})
wait_irq mask timeout = poll timeout (irq_step mask) (pure tt) (throw busy)

unfoldable pub xfer_data : Act (Unit {0})
xfer_data = poll data_timeout_us (irq_step irq_done) (pure tt) (throw busy)

unfoldable pub reset_transfer : Act (Unit {0})
reset_transfer = do
  set_bits sysctl rstc_rstd
  status (wait_bits_clear sysctl rstc_rstd cmd_timeout_us)
  write irqstat all_ones

unfoldable pub clock_step : Act (Option (Unit {0}))
clock_step = do v ← read prsstat; pure (if bit_and v clock_stable == 0 then none else some tt)

-- The divider bits that `set_clock` programs.
abbrev pub divider : ℕ → ℕ → ℕ
divider divisor prescaler = bit_or (shift_u32 prescaler 8) (shift_u32 divisor 4)

unfoldable pub set_clock : ℕ → ℕ → Act (Unit {0})
set_clock divisor prescaler = do
  clear_bits vendorspec cken
  v ← read sysctl
  let kept = bit_and v (without (bit_or clock_mask timeout_mask))
  let want = divider divisor prescaler
  write sysctl (bit_or kept (bit_or want (shift_u32 14 16)))
  poll cmd_timeout_us clock_step (pure tt) (pure tt)
  set_bits vendorspec clocks_on
  set_context (λ c. record c { clock_bits = want })
  read sysctl
  pure tt

-- What RSTA leaves untouched is cleared by hand, up to the sample clock.
unfoldable pub reset_legacy : Act (Unit {0})
reset_legacy = do
  write mmcboot 0
  write mixctrl 0
  write clktunectrl 0
  v ← read vendorspec
  write vendorspec (bit_or 0x20007809 (bit_and v (bit32 1)))
  write dllctrl 0
  write strobe_dll_ctrl (bit32 1)
  note (delayed 10)
  write strobe_dll_ctrl 0
  clear_bits tuning_ctrl (bit32 24)
  write autocmd12_err 0

unfoldable pub reset_controller : Act (Unit {0})
reset_controller = do
  set_bits sysctl rsta_rstt
  wait_bits_clear sysctl rsta_rstt cmd_timeout_us
  reset_legacy
  set_bits sysctl rst_fifo
  status (wait_bits_clear sysctl rst_fifo cmd_timeout_us)
  write irqstat irq_brr
  write irqstaten (without (bit_or (bit32 5) (bit32 4)))
  write irqsigen 0
  write proctl 0x20
  set_clock 0 0x20
  set_bits sysctl inita
  wait_bits_clear sysctl inita cmd_timeout_us
