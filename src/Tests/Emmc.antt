-- ===== src/Tests/Emmc.antt =====
-- The driver on a board with a card: a controller whose lines are idle and whose transfers finish at
-- once, and a timer that elapses after ten accesses.
use optee_ra_fork.Base.{
  ℕ, ◌+◌, ◌*◌, ◌%◌, ◌^◌, ◌≡◌, refl, Bool, true, false, some, List, [], ◌∷◌, Bytes, length, take,
  leb, le→leb, replicate, arith,
}
use optee_ra_fork.Tee.{communication}
use optee_ra_fork.Usdhc.Registers.{
  Reg, prsstat, irqstat, cmdarg, xfertyp, cmdrsp0, cmdrsp1, cmdrsp2, cmdrsp3, bit32, ccm, all_ones,
  irq_cc, cmd_timeout_us,
}
use optee_ra_fork.Usdhc.Io.{
  got, Trace, Act, ◌>>◌, write, Board, Dev, ok, err, pure, throw, crash, ◌>>=◌, status, note, board,
  context, set_context, read, set_bits, clear_bits, clear_set_bits, poll_rounds, poll,
}
use optee_ra_fork.Usdhc.Power.{at_iomux, at_ccm}
use optee_ra_fork.Base.{none}
use optee_ra_fork.Usdhc.Power.{
  pad_configure, pads_configure, usdhc_pads_configure, write_unless, usdhc_bus_clock_ensure,
  usdhc_clock_enable,
}
use optee_ra_fork.Usdhc.Controller.{
  usdhc_base, bits_step, wait_bits_clear, irq_step, wait_irq, xfer_data, reset_transfer, clock_step,
  set_clock, reset_legacy, reset_controller,
}
use optee_ra_fork.Usdhc.Command.{
  receive, Response, wait_idle, check_bounce, fill_bounce, program_dma, prepare, empty_bounce,
  collect_data, data_phase, send_cmd,
}
use optee_ra_fork.Usdhc.Card.{
  op_cond_step, cid_of, read_cid, card_identify, read_ext_csd, switch_value, switch_arg,
  switch_partition, ready_step, wait_card_ready, controller_state_foreign, bring_up, still_ours,
  imx_usdhc_init, imx_usdhc_dev_info, rpmb_xfer, imx_usdhc_rpmb_read, imx_usdhc_rpmb_write,
}
use optee_ra_fork.Usdhc.Rules.{Expires}
use optee_ra_fork.Usdhc.Protocol.{Entry, outgoing, incoming, commands, IsSafe}
use optee_ra_fork.Usdhc.Contract
use optee_ra_fork.Usdhc.Calls.{boot, Reached, Ends, Fails}
use optee_ra_fork.Usdhc.Encodings.{be_value, response_value, cid_of_lem}

abbrev register : Reg → ℕ
register prsstat = bit32 24 + bit32 3
register irqstat = bit32 0 + bit32 1 + bit32 3
register cmdrsp0 = bit32 31
register (ccm n) = bit32 28 + 3
register r = 0

abbrev emmc : Board
emmc = record {
  value = λ t r. register r;
  elapsed = λ timeout since now. leb (length since + 10) (length now);
  bounce = λ t. replicate 512 7;
  usdhc_mapped = true;
  iomux_mapped = true;
  ccm_mapped = true;
  bounce_pa = 0x40000000;
  ccm_target = 0xbc80;
  ccm_ccgr = 94;
  ccgr_set = λ n. 0x4004 + n * 0x10;
  cid_compat = false;
  polls = 10;
}

emmc-Expires : Expires emmc
emmc-Expires timeout since now h = le→leb _ _ h

abbrev read_state : Dev
read_state = (imx_usdhc_rpmb_read 512 1 emmc boot).1

abbrev frame : Bytes
frame = replicate 512 9

abbrev write_state : Dev
write_state = (imx_usdhc_rpmb_write frame 1 emmc boot).1

reads : imx_usdhc_rpmb_read 512 1 emmc boot ≡ (ok (replicate 512 7), read_state)
unfolding pure throw crash ◌>>=◌ status note board context set_context read set_bits clear_bits
    clear_set_bits poll_rounds poll at_iomux at_ccm pad_configure pads_configure
    usdhc_pads_configure write_unless usdhc_bus_clock_ensure usdhc_clock_enable usdhc_base bits_step
    wait_bits_clear irq_step wait_irq xfer_data reset_transfer clock_step set_clock reset_legacy
    reset_controller wait_idle check_bounce fill_bounce program_dma prepare empty_bounce
    collect_data data_phase send_cmd op_cond_step cid_of read_cid card_identify read_ext_csd
    switch_value switch_arg switch_partition ready_step wait_card_ready controller_state_foreign
    bring_up still_ours imx_usdhc_init rpmb_xfer imx_usdhc_rpmb_read imx_usdhc_rpmb_write
reads = refl

writes : imx_usdhc_rpmb_write frame 1 emmc boot ≡ (ok tt, write_state)
unfolding pure throw crash ◌>>=◌ status note board context set_context read set_bits clear_bits
    clear_set_bits poll_rounds poll at_iomux at_ccm pad_configure pads_configure
    usdhc_pads_configure write_unless usdhc_bus_clock_ensure usdhc_clock_enable usdhc_base bits_step
    wait_bits_clear irq_step wait_irq xfer_data reset_transfer clock_step set_clock reset_legacy
    reset_controller wait_idle check_bounce fill_bounce program_dma prepare empty_bounce
    collect_data data_phase send_cmd op_cond_step cid_of read_cid card_identify read_ext_csd
    switch_value switch_arg switch_partition ready_step wait_card_ready controller_state_foreign
    bring_up still_ours imx_usdhc_init rpmb_xfer imx_usdhc_rpmb_read imx_usdhc_rpmb_write
writes = refl

imx_usdhc_rpmb_read_example :
    (cs : List Entry) × (commands emmc read_state.trace
      ≡ (0x123a0000, 0, some (incoming 512)) ∷ (0x171a0000, 1, none) ∷ cs)
    × (replicate 512 7 ≡ take 512 (emmc.bounce read_state.trace))
imx_usdhc_rpmb_read_example =
    Contract.imx_usdhc_rpmb_read_lem emmc emmc-Expires Reached.start 512 1 (replicate 512 7)
      (omega arith) (omega arith) reads

imx_usdhc_rpmb_write_example :
    (cs : List Entry) × (commands emmc write_state.trace
      ≡ (0x193a0000, 0, some (outgoing (take 512 frame))) ∷ (0x171a0000, 2 ^ 31 + 1, none) ∷ cs)
imx_usdhc_rpmb_write_example =
    Contract.imx_usdhc_rpmb_write_lem emmc emmc-Expires Reached.start frame 1 (omega arith)
      (omega arith) writes

-- After a write and an identification.
later : Reached emmc (imx_usdhc_dev_info emmc write_state).1
later = Reached.dev_info (Reached.rpmb_write frame 1 (omega arith) Reached.start)

Reached-IsSafe_example : IsSafe emmc (imx_usdhc_dev_info emmc write_state).1
Reached-IsSafe_example = Contract.Reached-IsSafe emmc emmc-Expires later

operations-Ends_example :
    Ends (imx_usdhc_init emmc write_state)
    × Ends (imx_usdhc_dev_info emmc write_state)
    × Ends (imx_usdhc_rpmb_read 512 1 emmc write_state)
    × Ends (imx_usdhc_rpmb_write frame 1 emmc write_state)
operations-Ends_example =
    Contract.operations-Ends emmc emmc-Expires
      (Reached.rpmb_write frame 1 (omega arith) Reached.start) 512 1 frame (omega arith)
      (omega arith)

rpmb_too_long-Fails_example :
    Fails (imx_usdhc_rpmb_read 512 33 emmc boot) × Fails (imx_usdhc_rpmb_write frame 33 emmc boot)
rpmb_too_long-Fails_example =
    Contract.rpmb_too_long-Fails emmc emmc-Expires Reached.start 512 33 frame (omega arith)
      (omega arith)

abbrev response : Response
response = record {
  resp0 = 0xdddddddd;
  resp1 = 0xcccccccc;
  resp2 = 0xbbbbbbbb;
  resp3 = 0x00aaaaaa;
  received = [];
}

cid_of_example :
    (be_value 0 (cid_of false response) ≡ response_value response % 2 ^ 120 * 2 ^ 8)
    × (be_value 0 (cid_of true response) ≡ response_value response)
    × ((compat : Bool) → length (cid_of compat response) ≡ 16)
cid_of_example = cid_of_lem response (omega arith)

-- A controller that reports a data timeout after it has answered a command.
abbrev late : Trace → Reg → ℕ
late (got cmdrsp3 v ∷ rest) r = bit32 20
late rest r = register r

abbrev stuck : Board
stuck = record emmc { value = late }

stuck-Expires : Expires stuck
stuck-Expires timeout since now h = le→leb _ _ h

-- `send_cmd` of a read up to its data phase.
abbrev answered : Act ℕ
answered = do
  usdhc_base
  wait_idle
  write irqstat all_ones
  prepare (receive 512 1)
  write cmdarg 0
  write xfertyp 0x123a0000
  wait_irq irq_cc cmd_timeout_us
  r0 ← read cmdrsp0
  r1 ← read cmdrsp1
  r2 ← read cmdrsp2
  read cmdrsp3

abbrev started : Dev
started = (answered stuck boot).1

started-IsSafe : IsSafe stuck started
unfolding pure throw crash ◌>>=◌ status note board context set_context read set_bits clear_bits
    clear_set_bits poll_rounds poll usdhc_base bits_step wait_bits_clear irq_step wait_irq
    reset_transfer wait_idle check_bounce fill_bounce program_dma prepare
started-IsSafe = record { in_turn = refl; reachable = λ h. refl }

abbrev stuck_state : Dev
stuck_state = (data_phase (receive 512 1) stuck started).1

stops : data_phase (receive 512 1) stuck started ≡ (err communication, stuck_state)
unfolding pure throw crash ◌>>=◌ status note board context set_context read set_bits clear_bits
    clear_set_bits poll_rounds poll usdhc_base bits_step wait_bits_clear irq_step wait_irq
    reset_transfer wait_idle check_bounce fill_bounce program_dma prepare data_phase xfer_data
stops = refl

data_phase-Stopped_example :
    (imx_usdhc_init stuck stuck_state ≡ bring_up stuck stuck_state)
    × (stuck_state.ctx.cur_part ≡ 0xff)
    × (commands stuck stuck_state.trace ≡ commands stuck started.trace)
data_phase-Stopped_example =
    Contract.data_phase-Stopped stuck stuck-Expires started-IsSafe (receive 512 1) communication
      (omega arith) stops
