-- ===== src/Usdhc/Protocol.antt =====
-- The rules of the controller that the driver has to keep, as a machine that reads the accesses: a
-- command is started with the command and data lines idle and the old interrupt flags cleared, and
-- a command with data only after the DMA transfer was set up completely and consistently.
use optee_ra_fork.Base.{
  ℕ, ◌*◌, ◌/◌, ◌%◌, ◌^◌, ◌≡◌, Bool, true, false, ◌&&◌, Option, none, some, List, [], ◌∷◌, Bytes,
  length, leb, ◌==◌, not, bit_and, if◌then◌else◌,
}
use optee_ra_fork.Usdhc.Registers.{
  dsaddr, blkattr, cmdarg, xfertyp, prsstat, irqstat, wml, mixctrl, all_ones, block_size,
  bounce_size, dpsel, dtdsel, inhibited,
}
use optee_ra_fork.Usdhc.Io.{
  Access, got, put, copied, cleaned, dropped, delayed, asked, Trace, Board, Dev,
}

-- `closed`: nothing is known of the lines. `idle`: PRSSTAT showed them idle. `armed`: IRQSTAT was
-- cleared after that. `filled`: bytes were copied into dma_bounce. `staged`: the caches agree with
-- memory on these bytes, or on those to be received. `aimed`, `sized` and `ready`: then DSADDR holds its address,
-- BLKATTR their number, which fits, and MIXCTRL the direction. `violated`: a command was
-- started out of turn. A payload is what the transfer moves: the bytes that were copied into
-- dma_bounce for the card, or a number of bytes from the card.
pub data Payload : Type 0 where
  outgoing : Bytes → Payload
  incoming : ℕ → Payload

abbrev pub size_of : Payload → ℕ
size_of (outgoing bytes) = length bytes
size_of (incoming n) = n

pub data Phase : Type 0 where
  closed idle armed violated : Phase
  filled : Bytes → Phase
  staged aimed sized ready : Payload → Phase

abbrev pub is_fine : Phase → Bool
is_fine violated = false
is_fine p = true

abbrev pub close : Phase → Phase
close violated = violated
close p = closed

abbrev pub on_prsstat : ℕ → Phase → Phase
on_prsstat v violated = violated
on_prsstat v p = if bit_and v inhibited == 0 then idle else closed

abbrev pub on_irqstat : ℕ → Phase → Phase
on_irqstat v idle = if v == all_ones then armed else closed
on_irqstat v p = close p

abbrev pub on_copied : Bytes → Phase → Phase
on_copied bytes armed = filled bytes
on_copied bytes p = close p

abbrev pub on_cleaned : ℕ → Phase → Phase
on_cleaned n (filled bytes) = if n == length bytes then staged (outgoing bytes) else closed
on_cleaned n p = close p

abbrev pub on_dropped : ℕ → Phase → Phase
on_dropped n armed = staged (incoming n)
on_dropped n p = close p

abbrev pub on_dsaddr : Board → ℕ → Phase → Phase
on_dsaddr b v (staged m) = if v == b.bounce_pa % 2 ^ 32 then aimed m else closed
on_dsaddr b v p = close p

-- A block count and a block length of 512 that make up the `n` bytes.
abbrev pub has_size : ℕ → ℕ → Bool
has_size n v = v / 2 ^ 16 * block_size == n && (v % 2 ^ 16 == block_size && leb n bounce_size)

abbrev pub on_blkattr : ℕ → Phase → Phase
on_blkattr v (aimed m) = if has_size (size_of m) v then sized m else closed
on_blkattr v p = close p

-- MIXCTRL_DTDSEL is set for a transfer from the card only.
abbrev pub has_direction : Payload → ℕ → Bool
has_direction (outgoing bytes) v = bit_and v dtdsel == 0
has_direction (incoming n) v = not (bit_and v dtdsel == 0)

abbrev pub on_mixctrl : ℕ → Phase → Phase
on_mixctrl v (sized m) = if has_direction m v then ready m else closed
on_mixctrl v p = close p

-- XFERTYP_DPSEL marks a command with data.
abbrev pub uses_data : ℕ → Bool
uses_data v = not (bit_and v dpsel == 0)

abbrev pub on_xfertyp : ℕ → Phase → Phase
on_xfertyp v armed = if uses_data v then violated else closed
on_xfertyp v (ready m) = if uses_data v then closed else violated
on_xfertyp v p = violated

abbrev pub advance : Board → Access → Phase → Phase
advance b (got prsstat v) p = on_prsstat v p
advance b (got r v) p = p
advance b (put irqstat v) p = on_irqstat v p
advance b (put dsaddr v) p = on_dsaddr b v p
advance b (put blkattr v) p = on_blkattr v p
advance b (put mixctrl v) p = on_mixctrl v p
advance b (put xfertyp v) p = on_xfertyp v p
advance b (put wml v) p = p
advance b (put cmdarg v) p = p
advance b (put r v) p = close p
advance b (copied bytes) p = on_copied bytes p
advance b (cleaned n) p = on_cleaned n p
advance b (dropped n) p = on_dropped n p
advance b (delayed n) p = p
advance b asked p = p

-- The phase after all accesses of a trace.
abbrev pub phase : Board → Trace → Phase
phase b [] = closed
phase b (x ∷ t) = advance b x (phase b t)

abbrev pub arg_after : Access → ℕ → ℕ
arg_after (put cmdarg v) a = v
arg_after x a = a

abbrev pub last_arg : Trace → ℕ
last_arg [] = 0
last_arg (x ∷ t) = arg_after x (last_arg t)

-- A command that was started: its word, its argument, and what it moves.
abbrev pub Entry : Type 0
Entry = ℕ × ℕ × Option Payload

abbrev pub payload_at : Phase → Option Payload
payload_at (ready m) = some m
payload_at p = none

abbrev pub log_command : Access → Phase → ℕ → List Entry → List Entry
log_command (put xfertyp v) p a cs = (v, a, payload_at p) ∷ cs
log_command x p a cs = cs

-- The commands that were started, the latest first.
abbrev pub commands : Board → Trace → List Entry
commands b [] = []
commands b (x ∷ t) = log_command x (phase b t) (last_arg t) (commands b t)

-- No command was started out of turn, and a driver that is up has its registers mapped.
pub record IsSafe (b : Board) (d : Dev) : Type 0 where
  pub in_turn : is_fine (phase b d.trace) ≡ true
  pub reachable : d.ctx.inited ≡ true → b.usdhc_mapped ≡ true

-- So far the commands `cs` were started.
pub record Sent (b : Board) (cs : List Entry) (d : Dev) : Type 0 where
  pub safe : IsSafe b d
  pub log : commands b d.trace ≡ cs
