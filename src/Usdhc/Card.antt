-- ===== src/Usdhc/Card.antt =====
-- The eMMC device: identification, its partitions, and the functions that the RPMB layer calls.
use optee_ra_fork.Base.{
  ℕ, ◌/◌, ◌%◌, ◌^◌, Bool, true, false, Option, none, some, [], ◌∷◌, Bytes, get_or, ◌==◌, ◌++◌, not,
  bit_and, bit_or, if◌then◌else◌,
}
use optee_ra_fork.Tee.{generic, busy, communication}
use optee_ra_fork.Usdhc.Registers
use optee_ra_fork.Usdhc.Registers.{
  prsstat, proctl, sysctl, mixctrl, bit32, shift_u32, without, all_ones, block_size, dpsel, cicen,
  cccen, rsptyp_none, rsptyp_136, rsptyp_48, rsptyp_48_busy, dat0_level, clock_mask, ocr_busy,
  ocr_request, ext_csd_part_conf, ext_csd_rpmb_mult, ext_csd_rel_wr_sec_c, part_access_mask,
  part_access_rpmb, data_timeout_us, ocr_timeout_us,
}
use optee_ra_fork.Usdhc.Io.{
  delayed, Act, pure, throw, ◌>>=◌, ◌>>◌, note, board, context, set_context, read, poll,
}
use optee_ra_fork.Usdhc.Power.{usdhc_pads_configure, usdhc_bus_clock_ensure, usdhc_clock_enable}
use optee_ra_fork.Usdhc.Controller.{usdhc_base, set_clock, reset_controller}
use optee_ra_fork.Usdhc.Command.{Transfer, no_data, send, receive, MmcCmd, Response, send_cmd}

-- `XFERTYP_RSPTYP_48 | XFERTYP_CCCEN | XFERTYP_CICEN`, the same with `_48_BUSY`, and with the data
-- bit.
abbrev pub checked : ℕ
checked = bit_or rsptyp_48 (bit_or cccen cicen)

abbrev pub checked_busy : ℕ
checked_busy = bit_or rsptyp_48_busy (bit_or cccen cicen)

abbrev pub checked_data : ℕ
checked_data = bit_or checked dpsel

abbrev pub plain : ℕ → ℕ → ℕ → MmcCmd
plain idx arg typ = record { idx = idx; arg = arg; typ = typ; transfer = no_data }

-- A round of CMD1, which ends when the card reports that its power-up is done.
unfoldable pub op_cond_step : Act (Option (Unit {0}))
op_cond_step = do
  r ← send_cmd (plain Registers.send_op_cond ocr_request rsptyp_48)
  if r.resp0 == all_ones
      then throw communication
      else pure (if bit_and r.resp0 ocr_busy == 0 then none else some tt)

-- The four bytes of a response register, the most significant one first.
abbrev pub be_bytes : ℕ → Bytes
be_bytes w = (w / 2 ^ 24 % 256) ∷ (w / 2 ^ 16 % 256) ∷ (w / 2 ^ 8 % 256) ∷ (w % 256) ∷ []

abbrev pub raw_cid : Response → Bytes
raw_cid r = be_bytes r.resp3 ++ (be_bytes r.resp2 ++ (be_bytes r.resp1 ++ be_bytes r.resp0))

abbrev pub tail : Bytes → Bytes
tail [] = []
tail (x ∷ xs) = xs

-- The CID as the driver keeps it.
unfoldable pub cid_of : (compat : Bool) → Response → Bytes
cid_of compat r = if compat then raw_cid r else tail (raw_cid r) ++ (0 ∷ [])

unfoldable pub read_cid : Act (Unit {0})
read_cid = do
  r ← send_cmd (plain Registers.all_send_cid 0 (bit_or rsptyp_136 cccen))
  board λ b. set_context (λ c. record c { cid = cid_of b.cid_compat r })

unfoldable pub card_identify : Act (Unit {0})
card_identify = do
  send_cmd (plain Registers.go_idle_state 0 rsptyp_none)
  note (delayed 2000)
  poll ocr_timeout_us op_cond_step (note (delayed 1000)) (throw busy)
  read_cid
  context λ c. send_cmd (plain Registers.set_relative_addr (shift_u32 c.rca 16) checked)
  usdhc_base
  set_clock 0 0
  context λ c. send_cmd (plain Registers.select_card (shift_u32 c.rca 16) checked_busy)
  send_cmd (plain Registers.set_blocklen block_size checked)
  pure tt

unfoldable pub read_ext_csd : Act Bytes
read_ext_csd = do
  r ← send_cmd (record {
    idx = Registers.send_ext_csd;
    arg = 0;
    typ = checked_data;
    transfer = receive 512 1;
  })
  pure r.received

-- The value that SWITCH writes: the configuration read at init with another partition selected.
unfoldable pub switch_value : (part_conf part : ℕ) → ℕ
switch_value part_conf part =
    bit_or (bit_and part_conf (without part_access_mask)) (bit_and part part_access_mask) % 256

unfoldable pub switch_arg : ℕ → ℕ
switch_arg value =
    bit_or (shift_u32 3 24) (bit_or (shift_u32 ext_csd_part_conf 16) (shift_u32 value 8))

unfoldable pub switch_partition : ℕ → Act (Unit {0})
switch_partition part = context λ c. if c.cur_part == part then pure tt else (do
  r ← send_cmd (plain Registers.switch (switch_arg (switch_value c.part_conf part)) checked_busy)
  if bit_and r.resp0 (bit32 7) == 0
      then set_context (λ c'. record c' { cur_part = part })
      else throw generic)

unfoldable pub ready_step : Act (Option (Unit {0}))
ready_step = do v ← read prsstat; pure (if bit_and v dat0_level == 0 then none else some tt)

unfoldable pub wait_card_ready : Act (Unit {0})
wait_card_ready = do usdhc_base; poll data_timeout_us ready_step (pure tt) (throw busy)

-- A read is made only if the tests before it failed.
unfoldable pub controller_state_foreign : Act Bool
controller_state_foreign = do
  p ← read proctl
  if bit_and p 6 == 0
      then (do
        s ← read sysctl
        context λ c.
            if bit_and s clock_mask == c.clock_bits
            then (do m ← read mixctrl; pure (not (bit_and m 0xffffff00 == 0)))
            else pure true)
      else pure true

unfoldable pub bring_up : Act (Unit {0})
bring_up = board λ b. do
  if b.usdhc_mapped then pure tt else throw generic
  usdhc_pads_configure
  usdhc_clock_enable
  reset_controller
  card_identify
  ext_csd ← read_ext_csd
  set_context (λ c. record c {
    rpmb_mult = get_or ext_csd ext_csd_rpmb_mult 0;
    rel_wr_sec_c = get_or ext_csd ext_csd_rel_wr_sec_c 0;
    part_conf = get_or ext_csd ext_csd_part_conf 0;
    cur_part = bit_and (get_or ext_csd ext_csd_part_conf 0) part_access_mask;
    inited = true;
  })

-- The checks of a driver that is up: whether another master has used the controller since.
unfoldable pub still_ours : Act Bool
still_ours = do
  usdhc_base
  board λ b. if b.ccm_mapped then usdhc_bus_clock_ensure else pure tt
  foreign ← controller_state_foreign
  if foreign
      then (do set_context (λ c. record c { inited = false; cur_part = 0xff }); pure false)
      else pure true

unfoldable pub imx_usdhc_init : Act (Unit {0})
imx_usdhc_init = do
  ready ← context λ c. if c.inited then still_ours else pure false
  if ready then pure tt else bring_up

-- The CID, the RPMB size multiplier and the reliable write sector count.
unfoldable pub imx_usdhc_dev_info : Act (Bytes × ℕ × ℕ)
imx_usdhc_dev_info = do imx_usdhc_init; context λ c. pure (c.cid, c.rpmb_mult, c.rel_wr_sec_c)

-- The argument of SET_BLOCK_COUNT, a uint32_t: bit 31 marks a reliable write.
abbrev pub block_count_arg : (nblocks : ℕ) (is_write : Bool) → ℕ
block_count_arg nblocks is_write = bit_or nblocks (if is_write then bit32 31 else 0) % 2 ^ 32

abbrev pub is_send : Transfer → Bool
is_send (send buf blocks) = true
is_send t = false

abbrev pub transfer_cmd : Transfer → MmcCmd
transfer_cmd t = record {
  idx = if is_send t then Registers.write_multiple_block else Registers.read_multiple_block;
  arg = 0;
  typ = checked_data;
  transfer = t;
}

unfoldable pub rpmb_xfer : Transfer → ℕ → Act Bytes
rpmb_xfer t nblocks = do
  imx_usdhc_init
  switch_partition part_access_rpmb
  wait_card_ready
  send_cmd (plain Registers.set_block_count (block_count_arg nblocks (is_send t)) checked)
  r ← send_cmd (transfer_cmd t)
  pure r.received

-- The caller's buffer has `room` bytes.
unfoldable pub imx_usdhc_rpmb_read : (room nblocks : ℕ) → Act Bytes
imx_usdhc_rpmb_read room nblocks = rpmb_xfer (receive room nblocks) nblocks

unfoldable pub imx_usdhc_rpmb_write : Bytes → ℕ → Act (Unit {0})
imx_usdhc_rpmb_write buf nblocks = do rpmb_xfer (send buf nblocks) nblocks; wait_card_ready
