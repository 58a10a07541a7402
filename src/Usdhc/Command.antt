-- ===== src/Usdhc/Command.antt =====
-- One command of the eMMC protocol, with its data phase through the driver's own DMA buffer.
use optee_ra_fork.Base.{
  ℕ, ◌*◌, ◌%◌, ◌^◌, Bool, true, false, none, some, [], Bytes, length, take, leb, ltb, ◌==◌, bit_or,
  if◌then◌else◌,
}
use optee_ra_fork.Tee.{generic, excess_data}
use optee_ra_fork.Usdhc.Registers.{
  dsaddr, blkattr, cmdarg, xfertyp, cmdrsp0, cmdrsp1, cmdrsp2, cmdrsp3, prsstat, irqstat, wml,
  mixctrl, shift_u32, all_ones, block_size, bounce_size, msbsel_bcen, dtdsel, dmaen, inhibited,
  irq_cc, cmd_timeout_us,
}
use optee_ra_fork.Usdhc.Io.{
  copied, cleaned, dropped, ok, Act, pure, throw, crash, ◌>>=◌, ◌>>◌, status, note, board,
  set_context, read, write, clear_set_bits,
}
use optee_ra_fork.Usdhc.Controller.{
  usdhc_base, wait_bits_clear, wait_irq, xfer_data, reset_transfer,
}

-- `data`, `blocks` and `write` of `struct mmc_cmd`: nothing to move, blocks to the card from a
-- buffer, or blocks from the card into a buffer of `room` bytes.
pub data Transfer : Type 0 where
  no_data : Transfer
  send : Bytes → ℕ → Transfer
  receive : (room blocks : ℕ) → Transfer

pub record MmcCmd : Type 0 where
  pub idx : ℕ
  pub arg : ℕ
  pub typ : ℕ
  pub transfer : Transfer

-- `resp` of `struct mmc_cmd`, and what was copied to `data`.
pub record Response : Type 0 where
  pub resp0 : ℕ
  pub resp1 : ℕ
  pub resp2 : ℕ
  pub resp3 : ℕ
  pub received : Bytes

-- `len`, a size_t
abbrev pub bytes_of : ℕ → ℕ
bytes_of blocks = blocks * block_size % 2 ^ 64

abbrev pub blkattr_of : ℕ → ℕ
blkattr_of blocks = bit_or (shift_u32 blocks 16) block_size

abbrev pub mixctrl_of : (blocks : ℕ) (is_write : Bool) → ℕ
mixctrl_of blocks is_write =
    let multi = if ltb 1 blocks then bit_or dmaen msbsel_bcen else dmaen in
    if is_write then multi else bit_or multi dtdsel

-- The word that starts a command.
abbrev pub command_word : MmcCmd → ℕ
command_word cmd = bit_or (shift_u32 cmd.idx 24) cmd.typ

unfoldable pub wait_idle : Act (Unit {0})
wait_idle = do
  late ← status (wait_bits_clear prsstat inhibited cmd_timeout_us)
  elim late [
    | none ↦ pure tt
    | some e ↦ do reset_transfer; wait_bits_clear prsstat inhibited cmd_timeout_us
  ]

-- The guards before the DMA buffer is used.
unfoldable pub check_bounce : ℕ → Act (Unit {0})
check_bounce len = board λ b.
    if b.bounce_pa == 0
    then throw generic
    else if ltb bounce_size len
    then throw excess_data
    else pure tt

-- `memcpy(dma_bounce, cmd->data, len)`, which must not read past the buffer.
unfoldable pub fill_bounce : Bytes → ℕ → Act (Unit {0})
fill_bounce buf len = if leb len (length buf) then note (copied (take len buf)) else crash

unfoldable pub program_dma : (blocks : ℕ) (is_write : Bool) → Act (Unit {0})
program_dma blocks is_write = do
  board λ b. write dsaddr (b.bounce_pa % 2 ^ 32)
  write blkattr (blkattr_of blocks)
  clear_set_bits wml 0x00ff00ff (bit_or (shift_u32 0x80 16) 0x10)
  write mixctrl (mixctrl_of blocks is_write)
  read mixctrl
  pure tt

unfoldable pub prepare : Transfer → Act (Unit {0})
prepare no_data = pure tt
prepare (send buf blocks) = do
  check_bounce (bytes_of blocks)
  fill_bounce buf (bytes_of blocks)
  note (cleaned (bytes_of blocks))
  program_dma blocks true
prepare (receive room blocks) = do
  check_bounce (bytes_of blocks)
  note (dropped (bytes_of blocks))
  program_dma blocks false

-- `memcpy(cmd->data, dma_bounce, len)`, which must not write past the buffer.
unfoldable pub empty_bounce : (room len : ℕ) → Act Bytes
empty_bounce room len =
    if leb len room then (λ b d. (ok (take len (b.bounce d.trace)), d)) else crash

unfoldable pub collect_data : Transfer → Act Bytes
collect_data (receive room blocks) = do
  note (dropped (bytes_of blocks))
  empty_bounce room (bytes_of blocks)
collect_data t = pure []

-- The data phase; after a failure the card and the controller start from scratch.
unfoldable pub data_phase : Transfer → Act Bytes
data_phase no_data = pure []
data_phase t = do
  failure ← status xfer_data
  elim failure [
    | none ↦ collect_data t
    | some e ↦ do
      reset_transfer
      set_context (λ c. record c { inited = false; cur_part = 0xff })
      throw e
  ]

unfoldable pub send_cmd : MmcCmd → Act Response
send_cmd cmd = do
  usdhc_base
  wait_idle
  write irqstat all_ones
  prepare cmd.transfer
  write cmdarg cmd.arg
  write xfertyp (command_word cmd)
  wait_irq irq_cc cmd_timeout_us
  r0 ← read cmdrsp0
  r1 ← read cmdrsp1
  r2 ← read cmdrsp2
  r3 ← read cmdrsp3
  bytes ← data_phase cmd.transfer
  pure (record { resp0 = r0; resp1 = r1; resp2 = r2; resp3 = r3; received = bytes })
