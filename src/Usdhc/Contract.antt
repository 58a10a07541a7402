-- ===== src/Usdhc/Contract.antt =====
-- What the functions of imx_usdhc.h promise to the RPMB layer.
use optee_ra_fork.Base.{
  ℕ, ◌+◌, ◌%◌, ap, ap₂, [], none, inl, inr, Bool-cases, ltb, ltb→lt, not_ltb→le, ◌*◌, ◌^◌, ◌≤◌, ◌<◌,
  ◌≡◌, refl, subst, ◌∙◌, true, false, List, ◌∷◌, some, Bytes, length, take, arith,
}
use optee_ra_fork.Base.Bits.{or_comm, or_disjoint}
use optee_ra_fork.Tee.{Error}
use optee_ra_fork.Usdhc.Registers.{block_size}
use optee_ra_fork.Usdhc.Io.{Board, Dev, ok, err, and_then, pure, context, ◌>>=◌}
use optee_ra_fork.Base.{if◌then◌else◌}
use optee_ra_fork.Usdhc.Command.{Transfer, send, receive, bytes_of, data_phase}
use optee_ra_fork.Usdhc.Card.{
  still_ours, bring_up, imx_usdhc_init, imx_usdhc_dev_info, imx_usdhc_rpmb_read,
  imx_usdhc_rpmb_write, transfer_cmd, rpmb_xfer, is_send, block_count_arg,
}
use optee_ra_fork.Usdhc.Rules.{Outcome-mono, Triple, Expires, Triple-mono, Triple-bind}
use optee_ra_fork.Usdhc.Protocol.{Entry, outgoing, incoming, commands, IsSafe, Sent}
use optee_ra_fork.Usdhc.Setup.{Fits, fits_buffer}
use optee_ra_fork.Usdhc.Sending.{IsCommand, Stopped, contents, data_phase_lem, send_cmd_lem}
use optee_ra_fork.Usdhc.Operations.{
  block_count_entry, transfer_entry, imx_usdhc_init_lem, imx_usdhc_dev_info_lem, rpmb_xfer-after,
  wait_card_ready-Quiet,
}
use optee_ra_fork.Usdhc.Refused.{IsTooLong, send_cmd-refuses}
use optee_ra_fork.Usdhc.Calls.{
  Ends, Fails, WhenOk, WhenErr, Outcome-Ends, Outcome-WhenOk, Outcome-WhenErr, Outcome-IsSafe,
  Outcome-Fails, Reached, start, init, dev_info, rpmb_read, rpmb_write,
}

block_count_arg-false : (nblocks : ℕ) → nblocks ≤ 32 → block_count_arg nblocks false ≡ nblocks
block_count_arg-false nblocks h =
    ap (λ n. n % 2 ^ 32) (or_disjoint 0 nblocks 0 nblocks (omega arith) (omega arith)) ∙ omega arith

block_count_arg-true :
    (nblocks : ℕ) → nblocks ≤ 32 → block_count_arg nblocks true ≡ 2 ^ 31 + nblocks
block_count_arg-true nblocks h =
    ap (λ n. n % 2 ^ 32)
      (or_comm nblocks (2 ^ 31) ∙ or_disjoint 31 1 nblocks (2 ^ 31) refl (omega arith))
    ∙ omega arith

module _ (b : Board) (expires : Expires b) where
  -- The log after a transfer that succeeded, and the bytes that it brought.
  abbrev Transferred : Transfer → ℕ → Bytes → Dev → Type 0
  Transferred t nblocks bytes d =
      (cs : List Entry) × Sent b (transfer_entry t ∷ block_count_entry nblocks (is_send t) ∷ cs) d
      × (bytes ≡ contents b t d.trace)
      × (b.usdhc_mapped ≡ true)

  xfer_lem :
      (t : Transfer) (nblocks : ℕ)
      → IsCommand (transfer_cmd t)
      → Triple b (IsSafe b) (rpmb_xfer t nblocks) (Transferred t nblocks) (IsSafe b)
  xfer_lem t nblocks c =
      Triple-mono
        (rpmb_xfer-after b expires t nblocks _ (λ mapped cs. send_cmd_lem b expires mapped _ _ c))
        (λ bytes d q. (q.0, q.2.0, q.3 ∙ q.2.1, q.4)) (λ d s. s)

  read_lem :
      (room nblocks : ℕ)
      → nblocks * block_size ≤ room
      → Triple b
          (IsSafe b)
          (imx_usdhc_rpmb_read room nblocks)
          (Transferred (receive room nblocks) nblocks)
          (IsSafe b)
  unfolding imx_usdhc_rpmb_read
  read_lem room nblocks h =
      xfer_lem (receive room nblocks) nblocks
        (record { data_bit = refl; fits = omega (arith, fits_buffer nblocks) })

  abbrev Written : Bytes → ℕ → Unit {0} → Dev → Type 0
  Written buf nblocks u d =
      (cs : List Entry) × Sent b
        (transfer_entry (send buf nblocks) ∷ block_count_entry nblocks true ∷ cs) d

  write_lem :
      (buf : Bytes) (nblocks : ℕ)
      → nblocks * block_size ≤ length buf
      → Triple b (IsSafe b) (imx_usdhc_rpmb_write buf nblocks) (Written buf nblocks) (IsSafe b)
  unfolding imx_usdhc_rpmb_write
  write_lem buf nblocks h =
      Triple-bind
        (xfer_lem (send buf nblocks) nblocks
          (record { data_bit = refl; fits = omega (arith, fits_buffer nblocks) }))
        λ bytes. record {
          run = λ d q.
              Outcome-mono (λ a d' s. (q.0, s)) (λ d' s. s.safe)
                (((wait_card_ready-Quiet b expires q.3).run _).run d q.1);
        }

  -- In every state that the driver can come to, commands were started in turn only: with the lines
  -- seen idle and the interrupt flags cleared since the last command; and one with data only
  -- when, in this order, the caches agree with memory on the bytes to move, and DSADDR, BLKATTR
  -- and MIXCTRL hold the buffer, the same number of bytes, at most 16384, and the direction. And a
  -- driver that is up has its registers mapped. This holds on any board whose timeouts elapse.
  pub Reached-IsSafe : {d : Dev} → Reached b d → IsSafe b d
  Reached-IsSafe start = record { in_turn = refl; reachable = λ h. cc }
  Reached-IsSafe (init r) =
      Outcome-IsSafe (λ a d s. s.0) ((imx_usdhc_init_lem b expires).run _ (Reached-IsSafe r))
  Reached-IsSafe (dev_info r) =
      Outcome-IsSafe (λ a d s. s.0) ((imx_usdhc_dev_info_lem b expires).run _ (Reached-IsSafe r))
  Reached-IsSafe (rpmb_read room nblocks h r) =
      Outcome-IsSafe (λ a d q. q.1.safe) ((read_lem room nblocks h).run _ (Reached-IsSafe r))
  Reached-IsSafe (rpmb_write buf nblocks h r) =
      Outcome-IsSafe (λ a d q. q.1.safe) ((write_lem buf nblocks h).run _ (Reached-IsSafe r))

  -- In every state that the driver can come to, every call ends: no polling loop runs for ever, no
  -- register is read or written at an unmapped address, and no copy leaves its buffer. This holds
  -- on any board whose timeouts elapse, for calls whose buffers hold the blocks asked for.
  pub operations-Ends :
      {d : Dev} (r : Reached b d) (room nblocks : ℕ) (buf : Bytes)
      → nblocks * block_size ≤ room
      → nblocks * block_size ≤ length buf
      → Ends (imx_usdhc_init b d)
        × Ends (imx_usdhc_dev_info b d)
        × Ends (imx_usdhc_rpmb_read room nblocks b d)
        × Ends (imx_usdhc_rpmb_write buf nblocks b d)
  operations-Ends {d} r room nblocks buf hr hw = (
    Outcome-Ends ((imx_usdhc_init_lem b expires).run d s),
    Outcome-Ends ((imx_usdhc_dev_info_lem b expires).run d s),
    Outcome-Ends ((read_lem room nblocks hr).run d s),
    Outcome-Ends ((write_lem buf nblocks hw).run d s),
  )
    where
      s : IsSafe b d
      s = Reached-IsSafe r

  -- A transfer of more blocks than the DMA buffer holds, of any size below 2^64 bytes, fails in
  -- both directions, with no access outside of a buffer.
  pub rpmb_too_long-Fails :
      {d : Dev} (r : Reached b d) (room nblocks : ℕ) (buf : Bytes)
      → 32 < nblocks
      → nblocks * block_size < 2 ^ 64
      → Fails (imx_usdhc_rpmb_read room nblocks b d) × Fails (imx_usdhc_rpmb_write buf nblocks b d)
  unfolding imx_usdhc_rpmb_read imx_usdhc_rpmb_write
  rpmb_too_long-Fails {d} r room nblocks buf h hl = (
    Outcome-Fails ((refused (receive room nblocks) (omega arith)).run d s),
    Outcome-Fails (
        (Triple-bind (refused (send buf nblocks) (omega arith))
            (λ _. record { run = λ d' p. absurd p })).run
          d s),
  )
    where
      s : IsSafe b d
      s = Reached-IsSafe r

      refused :
          (t : Transfer)
          → IsTooLong t
          → Triple b (IsSafe b) (rpmb_xfer t nblocks) (λ _ d'. ⊥) (IsSafe b)
      refused t long =
          Triple-mono
            (rpmb_xfer-after b expires t nblocks (λ cs r' d'. ⊥)
              (λ mapped cs.
                Triple-mono (send_cmd-refuses b _ expires mapped (transfer_cmd t) long)
                  (λ a d' p. p) (λ d' s'. s'.safe)))
            (λ bytes d' q. q.2) (λ d' s'. s')

  -- A transfer that succeeds moved at most 32 blocks.
  read_small :
      {d d' : Dev} (r : Reached b d) (room nblocks : ℕ) (bytes : Bytes)
      → nblocks * block_size < 2 ^ 64
      → imx_usdhc_rpmb_read room nblocks b d ≡ (ok bytes, d')
      → nblocks ≤ 32
  read_small r room nblocks bytes h e = elim (Bool-cases (ltb 32 nblocks)) [
    | inr small ↦ not_ltb→le 32 nblocks small
    | inl big ↦
        absurd (subst Fails e (rpmb_too_long-Fails r room nblocks [] (ltb→lt 32 nblocks big) h).0)
  ]

  write_small :
      {d d' : Dev} (r : Reached b d) (buf : Bytes) (nblocks : ℕ)
      → nblocks * block_size < 2 ^ 64
      → imx_usdhc_rpmb_write buf nblocks b d ≡ (ok tt, d')
      → nblocks ≤ 32
  write_small r buf nblocks h e = elim (Bool-cases (ltb 32 nblocks)) [
    | inr small ↦ not_ltb→le 32 nblocks small
    | inl big ↦
        absurd (subst Fails e (rpmb_too_long-Fails r 0 nblocks buf (ltb→lt 32 nblocks big) h).1)
  ]

  -- A read that succeeds ended with CMD18, READ_MULTIPLE_BLOCK, right after CMD23, SET_BLOCK_COUNT,
  -- with the count `nblocks`, each a command with a checked 48-bit response and the first one with
  -- data, with a transfer of `nblocks * 512` bytes from the card set up; and its result is that many
  -- bytes of what the controller left in the DMA buffer. The caller's buffer has fewer than 2^64
  -- bytes and room for the blocks.
  pub imx_usdhc_rpmb_read_lem :
      {d d' : Dev} (r : Reached b d) (room nblocks : ℕ) (bytes : Bytes)
      → room < 2 ^ 64
      → nblocks * block_size ≤ room
      → imx_usdhc_rpmb_read room nblocks b d ≡ (ok bytes, d')
      → (cs : List Entry) × (commands b d'.trace
          ≡ (0x123a0000, 0, some (incoming (nblocks * 512))) ∷ (0x171a0000, nblocks, none) ∷ cs)
        × (bytes ≡ take (nblocks * 512) (b.bounce d'.trace))
  imx_usdhc_rpmb_read_lem {d} {d'} r room nblocks bytes hl hr e = (
    q.0,
    q.1.log
        ∙ ap₂ (λ m c. (0x123a0000, 0, some (incoming m)) ∷ (0x171a0000, c, none) ∷ q.0) whole count,
    q.2 ∙ ap (λ m. take m (b.bounce d'.trace)) whole,
  )
    where
      whole : bytes_of nblocks ≡ nblocks * 512
      whole = omega arith

      count : block_count_arg nblocks false ≡ nblocks
      count = block_count_arg-false nblocks (read_small r room nblocks bytes (omega arith) e)

      q : Transferred (receive room nblocks) nblocks bytes d'
      q =
          subst (WhenOk (Transferred (receive room nblocks) nblocks)) e
            (Outcome-WhenOk ((read_lem room nblocks hr).run d (Reached-IsSafe r)))

  -- A write that succeeds ended with CMD25, WRITE_MULTIPLE_BLOCK, right after CMD23,
  -- SET_BLOCK_COUNT, with the count `nblocks` and bit 31, the mark of a reliable write, each a
  -- command with a checked 48-bit response and the first one with data; and the transfer that was
  -- set up moves exactly the first `nblocks * 512` bytes of the caller's buffer, which has fewer than
  -- 2^64 bytes and holds the blocks.
  pub imx_usdhc_rpmb_write_lem :
      {d d' : Dev} (r : Reached b d) (buf : Bytes) (nblocks : ℕ)
      → length buf < 2 ^ 64
      → nblocks * block_size ≤ length buf
      → imx_usdhc_rpmb_write buf nblocks b d ≡ (ok tt, d')
      → (cs : List Entry) × (commands b d'.trace
          ≡ (0x193a0000, 0, some (outgoing (take (nblocks * 512) buf)))
            ∷ (0x171a0000, 2 ^ 31 + nblocks, none)
            ∷ cs)
  imx_usdhc_rpmb_write_lem {d} {d'} r buf nblocks hl hw e = (
    q.0,
    q.1.log
        ∙ ap₂ (λ m c. (0x193a0000, 0, some (outgoing (take m buf))) ∷ (0x171a0000, c, none) ∷ q.0)
            whole count,
  )
    where
      whole : bytes_of nblocks ≡ nblocks * 512
      whole = omega arith

      count : block_count_arg nblocks true ≡ 2 ^ 31 + nblocks
      count = block_count_arg-true nblocks (write_small r buf nblocks (omega arith) e)

      q : Written buf nblocks tt d'
      q =
          subst (WhenOk (Written buf nblocks)) e
            (Outcome-WhenOk ((write_lem buf nblocks hw).run d (Reached-IsSafe r)))

  -- A data phase that fails, in any state that keeps the rules, as those are in which `send_cmd` comes
  -- to it, and with a buffer that holds the blocks, leaves no partition believed selected and starts no
  -- command; and a call of `imx_usdhc_init` after it brings the controller and the card up from
  -- scratch.
  pub data_phase-Stopped :
      {d d' : Dev} (safe : IsSafe b d) (t : Transfer) (e : Error)
      → Fits t
      → data_phase t b d ≡ (err e, d')
      → (imx_usdhc_init b d' ≡ bring_up b d')
        × (d'.ctx.cur_part ≡ 0xff)
        × (commands b d'.trace ≡ commands b d.trace)
  unfolding imx_usdhc_init context ◌>>=◌ pure
  data_phase-Stopped {d} {d'} safe t e h q = (
    ap
        (λ up.
          and_then ((if up then still_ours else pure false) b d')
            (λ ready d2. (if ready then pure tt else bring_up) b d2))
        s.1,
    s.2,
    s.0.log,
  )
    where
      s : Stopped b (commands b d.trace) d'
      s = subst (WhenErr (Stopped b (commands b d.trace))) q (
          Outcome-WhenErr
            ((data_phase_lem b expires _ t h).run d (record { safe = safe; log = refl })))
