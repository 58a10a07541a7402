-- ===== src/Usdhc/Setup.antt =====
-- Before a command: the lines are waited for, the interrupt flags cleared, and the DMA transfer is
-- set up in the order that the controller wants.
use optee_ra_fork.Base.{
  ℕ, ◌+◌, ◌*◌, ◌%◌, ◌^◌, ◌≤◌, ◌≡◌, refl, sym, ap, ◌∙◌, Bool, true, false, Option, none, some, List,
  ◌∷◌, Bytes, length, take, ltb, ◌==◌, bit_and, inl, inr, Bool-cases, arith, le→leb, ==→eq,
  not_ltb→le, eq→==, length-take, if◌then◌else◌,
}
use optee_ra_fork.Base.Bits.{or_disjoint}
use optee_ra_fork.Tee.{Error, busy, generic, excess_data}
use optee_ra_fork.Tee.Rules.{Maybe}
use optee_ra_fork.Usdhc.Registers.{
  Reg, prsstat, wml, mixctrl, shift_u32, block_size, bounce_size, inhibited,
}
use optee_ra_fork.Usdhc.Io.{
  Access, got, copied, cleaned, dropped, asked, Board, Dev, Act, pure, throw, ◌>>◌, note, read,
  clear_set_bits,
}
use optee_ra_fork.Usdhc.Controller.{wait_bits_clear, bits_step, reset_transfer}
use optee_ra_fork.Usdhc.Command.{
  Transfer, no_data, send, receive, bytes_of, blkattr_of, mixctrl_of, wait_idle, check_bounce,
  fill_bounce, program_dma, prepare,
}
use optee_ra_fork.Usdhc.Rules.{
  Triple, Expires, Triple-pure, Triple-throw, Triple-bind, Triple-note, Triple-read, Triple-board,
  Triple-if, Triple-status,
}
use optee_ra_fork.Usdhc.Polling.{Triple-poll}
use optee_ra_fork.Usdhc.Protocol.{
  Entry, Payload, outgoing, incoming, size_of, Phase, idle, armed, filled, staged, aimed, sized,
  ready, is_fine, has_size, has_direction, advance, on_prsstat, phase, Sent,
}
use optee_ra_fork.Usdhc.Quiet.{starts, Sent-access}
use optee_ra_fork.Usdhc.BringUp.{reset_transfer-Quiet}

-- The buffer of the caller holds the whole transfer.
abbrev pub Fits : Transfer → Type 0
Fits no_data = Unit {0}
Fits (send buf blocks) = bytes_of blocks ≤ length buf
Fits (receive room blocks) = bytes_of blocks ≤ room

-- The phase in which the command of a transfer may start.
abbrev pub loaded : Transfer → Phase
loaded no_data = armed
loaded (send buf blocks) = ready (outgoing (take (bytes_of blocks) buf))
loaded (receive room blocks) = ready (incoming (bytes_of blocks))

-- The commands `cs` were started, and the machine stands at the phase.
abbrev pub At : Board → List Entry → Phase → Dev → Type 0
At b cs p d = Sent b cs d × (phase b d.trace ≡ p)

pub fits_buffer : (blocks : ℕ) → bytes_of blocks ≤ blocks * block_size
fits_buffer blocks = omega arith

blkattr_of_lem : (blocks : ℕ) → blkattr_of blocks ≡ blocks % 2 ^ 16 * 2 ^ 16 + block_size
blkattr_of_lem blocks =
    or_disjoint 16 (blocks % 2 ^ 16) block_size (shift_u32 blocks 16) (omega arith) (omega arith)
    ∙ omega arith

-- The block count in BLKATTR is that of the bytes, even where `len` has wrapped around.
blkattr_of-has_size :
    (blocks : ℕ)
    → bytes_of blocks ≤ bounce_size
    → has_size (bytes_of blocks) (blkattr_of blocks) ≡ true
blkattr_of-has_size blocks h = ground (arith, blkattr_of_lem blocks)

mixctrl_of-has_direction-true :
    (bytes : Bytes) (blocks : ℕ) → has_direction (outgoing bytes) (mixctrl_of blocks true) ≡ true
mixctrl_of-has_direction-true bytes blocks = ground arith

mixctrl_of-has_direction-false :
    (n blocks : ℕ) → has_direction (incoming n) (mixctrl_of blocks false) ≡ true
mixctrl_of-has_direction-false n blocks = ground arith

-- A test that was passed is known afterwards.
pub Triple-fact :
    {b : Board} {X : Type 0} {A : Type 0} {P : Dev → Type 0} {m : Act A} {Q : A → Dev → Type 0}
    {F : Dev → Type 0}
    → (X → Triple b P m Q F)
    → Triple b (λ d. P d × X) m Q F
Triple-fact t = record { run = λ d p. (t p.1).run d p.0 }

idle_after :
    (v : ℕ) (p : Phase) → is_fine p ≡ true → bit_and v inhibited ≡ 0 → on_prsstat v p ≡ idle
idle_after v p h e = ground arith

module _ {b : Board} {cs : List Entry} where
  pub At-note :
      {p q : Phase} {F : Dev → Type 0} (x : Access)
      → starts x ≡ false
      → advance b x p ≡ q
      → Triple b (At b cs p) (note x) (λ _. At b cs q) F
  At-note x h e = Triple-note x (λ d s. (Sent-access x h s.0, ap (advance b x) s.1 ∙ e))

  At-got :
      {p : Phase} {F : Dev → Type 0} (r : Reg)
      → ((v : ℕ) → advance b (got r v) p ≡ p)
      → Triple b (At b cs p) (read r) (λ _. At b cs p) F
  At-got r e =
      Triple-read r (λ v d s. (Sent-access (got r v) refl s.0, ap (advance b (got r v)) s.1 ∙ e v))

  lines_step :
      Triple b
        (Sent b cs)
        (bits_step prsstat inhibited)
        (λ o d. Maybe (λ (u : Unit {0}). At b cs idle d) (Sent b cs d) o)
        (Sent b cs)
  unfolding bits_step
  lines_step = Triple-bind (Triple-read {Q = lines_read} prsstat read_ok) after
    where
      lines_read : ℕ → Dev → Type 0
      lines_read v d = Sent b cs d × (bit_and v inhibited ≡ 0 → phase b d.trace ≡ idle)

      read_ok :
          (v : ℕ) (d : Dev)
          → Sent b cs d
          → lines_read v (record d { trace = got prsstat v ∷ d.trace })
      read_ok v d s =
          (Sent-access (got prsstat v) refl s, idle_after v (phase b d.trace) s.safe.in_turn)

      after :
          (v : ℕ)
          → Triple b
              (lines_read v)
              (pure (if bit_and v inhibited == 0 then some tt else none))
              (λ o d. Maybe (λ (u : Unit {0}). At b cs idle d) (Sent b cs d) o)
              (Sent b cs)
      after v = elim (Bool-cases (bit_and v inhibited == 0)) [
        | inl e ↦ rw e (Triple-pure (some tt) (λ d s. (s.0, s.1 (==→eq _ _ e))))
        | inr e ↦ rw e (Triple-pure none (λ d s. s.0))
      ]

  wait_lines :
      Expires b
      → (timeout : ℕ)
      → Triple b
          (Sent b cs)
          (wait_bits_clear prsstat inhibited timeout)
          (λ _. At b cs idle)
          (Sent b cs)
  unfolding wait_bits_clear
  wait_lines expires timeout =
      Triple-poll (Sent b cs) (λ _. At b cs idle) expires timeout (bits_step prsstat inhibited)
        (pure tt) (throw busy) lines_step (λ d s. Sent-access asked refl s)
        (Triple-pure tt (λ d s. s)) (Triple-throw busy (λ d s. s))

  pub wait_idle_lem : Expires b → Triple b (Sent b cs) wait_idle (λ _. At b cs idle) (Sent b cs)
  unfolding wait_idle
  wait_idle_lem expires = Triple-bind (Triple-status (wait_lines expires _)) after
    where
      after :
          (o : Option Error)
          → Triple b
              (λ d. Maybe (λ (e : Error). Sent b cs d) (At b cs idle d) o)
              (elim o [
                | none ↦ pure tt
                | some e ↦ do reset_transfer; wait_bits_clear prsstat inhibited 1000000
              ])
              (λ (u : Unit {0}). At b cs idle)
              (Sent b cs)
      after none = Triple-pure tt (λ d s. s)
      after (some e) =
          Triple-bind ((reset_transfer-Quiet b expires).run cs) (λ u. wait_lines expires _)

  check_bounce_lem :
      (len : ℕ)
      → Triple b
          (At b cs armed)
          (check_bounce len)
          (λ _ d. At b cs armed d × (len ≤ bounce_size))
          (Sent b cs)
  unfolding check_bounce
  check_bounce_lem len = Triple-board _ (
      Triple-if (b.bounce_pa == 0) (λ _. Triple-throw generic (λ d s. s.0))
        (λ _.
          Triple-if (ltb bounce_size len) (λ _. Triple-throw excess_data (λ d s. s.0))
            (λ fits. Triple-pure tt (λ d s. (s, not_ltb→le _ _ fits)))))

  program_dma_lem :
      (m : Payload) (blocks : ℕ) (is_write : Bool)
      → has_direction m (mixctrl_of blocks is_write) ≡ true
      → size_of m ≡ bytes_of blocks
      → bytes_of blocks ≤ bounce_size
      → Triple b
          (At b cs (staged m))
          (program_dma blocks is_write)
          (λ _. At b cs (ready m))
          (Sent b cs)
  unfolding program_dma clear_set_bits
  program_dma_lem m blocks is_write h len fits =
      Triple-bind (Triple-board _ (At-note {q = aimed m} _ refl (rw (eq→== _ _ address)))) λ _.
        Triple-bind (At-note {q = sized m} _ refl (rw (len, blkattr_of-has_size blocks fits))) λ _.
          Triple-bind (Triple-bind (At-got wml (λ v. refl)) (λ v. At-note _ refl refl)) λ _.
            Triple-bind (At-note {q = ready m} _ refl (rw h))
              λ _. Triple-bind (At-got mixctrl (λ v. refl)) λ v. Triple-pure tt (λ d s. s)
    where
      address : b.bounce_pa % 2 ^ 32 ≡ b.bounce_pa % 2 ^ 32
      address = refl

  fill_bounce_lem :
      (buf : Bytes) (len : ℕ)
      → len ≤ length buf
      → Triple b
          (At b cs armed)
          (fill_bounce buf len)
          (λ _. At b cs (filled (take len buf)))
          (Sent b cs)
  unfolding fill_bounce
  fill_bounce_lem buf len h =
      rw (le→leb len (length buf) h) (At-note (copied (take len buf)) refl refl)

  pub prepare_lem :
      (t : Transfer)
      → Fits t
      → Triple b (At b cs armed) (prepare t) (λ _. At b cs (loaded t)) (Sent b cs)
  unfolding prepare
  prepare_lem no_data h = Triple-pure tt (λ d s. s)
  prepare_lem (send buf blocks) h = Triple-bind (check_bounce_lem len) λ _. Triple-fact λ fits.
      Triple-bind (fill_bounce_lem buf len h) λ _.
        Triple-bind (At-note {q = staged (outgoing (take len buf))} (cleaned len) refl whole) λ _.
          program_dma_lem _ blocks true (mixctrl_of-has_direction-true (take len buf) blocks)
            (length-take len buf h) fits
    where
      len : ℕ
      len = bytes_of blocks

      whole : advance b (cleaned len) (filled (take len buf)) ≡ staged (outgoing (take len buf))
      whole = rw (eq→== _ _ (sym (length-take len buf h)))
  prepare_lem (receive room blocks) h = Triple-bind (check_bounce_lem (bytes_of blocks)) λ _.
      Triple-fact λ fits. Triple-bind (At-note (dropped (bytes_of blocks)) refl refl) λ _.
        program_dma_lem (incoming (bytes_of blocks)) blocks false
          (mixctrl_of-has_direction-false (bytes_of blocks) blocks) refl fits
