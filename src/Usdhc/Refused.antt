-- ===== src/Usdhc/Refused.antt =====
-- A transfer that does not fit into dma_bounce: the command is refused before it is started.
use optee_ra_fork.Base.{ℕ, ◌<◌, ◌≡◌, refl, true, List, ◌==◌, lt→ltb}
use optee_ra_fork.Tee.{generic, excess_data}
use optee_ra_fork.Usdhc.Registers.{irqstat, all_ones, bounce_size}
use optee_ra_fork.Usdhc.Io.{put, Board, Dev, Act}
use optee_ra_fork.Usdhc.Command.{
  Transfer, no_data, send, receive, MmcCmd, bytes_of, check_bounce, prepare, send_cmd,
}
use optee_ra_fork.Usdhc.Rules.{Triple, Expires, Triple-throw, Triple-bind, Triple-board, Triple-if}
use optee_ra_fork.Usdhc.Protocol.{Entry, armed, Sent}
use optee_ra_fork.Usdhc.Setup.{At, At-note, wait_idle_lem}
use optee_ra_fork.Usdhc.Sending.{usdhc_base_lem}

-- The transfer has more bytes than the DMA buffer.
abbrev pub IsTooLong : Transfer → Type 0
IsTooLong no_data = ⊥
IsTooLong (send buf blocks) = bounce_size < bytes_of blocks
IsTooLong (receive room blocks) = bounce_size < bytes_of blocks

module _ (b : Board) (cs : List Entry) where
  -- The rest of a run that cannot go on.
  never :
      {A : Type 0} {m : Act A} {Q : A → Dev → Type 0} {F : Dev → Type 0} → Triple b (λ d. ⊥) m Q F
  never = record { run = λ d p. absurd p }

  check_bounce-refuses :
      (len : ℕ)
      → bounce_size < len
      → Triple b (At b cs armed) (check_bounce len) (λ _ d. ⊥) (Sent b cs)
  unfolding check_bounce
  check_bounce-refuses len h = Triple-board _ (
      Triple-if (b.bounce_pa == 0) (λ _. Triple-throw generic (λ d s. s.0))
        (λ _. rw (lt→ltb _ _ h) (Triple-throw excess_data (λ d s. s.0))))

  prepare-refuses :
      (t : Transfer) → IsTooLong t → Triple b (At b cs armed) (prepare t) (λ _ d. ⊥) (Sent b cs)
  unfolding prepare
  prepare-refuses no_data h = absurd h
  prepare-refuses (send buf blocks) h = Triple-bind (check_bounce-refuses _ h) (λ _. never)
  prepare-refuses (receive room blocks) h = Triple-bind (check_bounce-refuses _ h) (λ _. never)

  pub send_cmd-refuses :
      Expires b
      → b.usdhc_mapped ≡ true
      → (cmd : MmcCmd) → IsTooLong cmd.transfer
      → Triple b (Sent b cs) (send_cmd cmd) (λ _ d. ⊥) (Sent b cs)
  unfolding send_cmd
  send_cmd-refuses expires mapped cmd h = Triple-bind (usdhc_base_lem b mapped) λ _.
      Triple-bind (wait_idle_lem expires) λ _.
        Triple-bind (At-note (put irqstat all_ones) refl refl)
          λ _. Triple-bind (prepare-refuses cmd.transfer h) (λ _. never)
