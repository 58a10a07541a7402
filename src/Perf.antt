-- ===== src/Perf.antt =====
-- The event buffer of pta_remote_attestation/remote_attestation/perf.c, with the macros and the key
-- label of perf.h, as they are with CFG_REMOTE_ATTESTATION_PERF=y.
pub mod Bounds
use optee_ra_fork.Base.{
  ℕ, zero, suc, ◌+◌, ◌-◌, ◌*◌, ◌/◌, ◌%◌, ◌^◌, Bool, Option, none, some, List, [], ◌∷◌, ◌++◌, map,
  leb, ltb, ◌==◌, if◌then◌else◌, length, Bytes,
}

-- The labels that the PTA records. The two `*_total` labels time a whole command.
pub data EventName : Type 0 where
  ocotp_srk ocotp_lifecycle instance_id hash_ta hash_tee cbor_encode cose_sign1 cmd_total :
      EventName
  sign_key_setup sign_tbs_hash sign_ecdsa : EventName
  keypair_generate blackkey_encap convert_total : EventName

-- `dash` is the label "-" of the events that belong to no key path.
pub data KeyMode : Type 0 where
  embedded plain black dash : KeyMode

-- A NULL key is `none`; the length is passed beside it, as in C.
unfoldable pub keymode : Option Bytes → ℕ → KeyMode
keymode none key_len = embedded
keymode (some key) key_len =
    if key_len == 0 then embedded else if ltb 32 key_len then black else plain

pub record Event : Type 0 where
  pub event : EventName
  pub mode : KeyMode
  pub ticks : ℕ

abbrev pub max_events : ℕ
max_events = 16

-- The buffer and its count are one list, oldest event first.
unfoldable pub reset : List Event → List Event
reset events = []

unfoldable pub record_event : EventName → ℕ → ℕ → KeyMode → List Event → List Event
record_event name start_ticks end_ticks mode events =
    if leb max_events (length events)
    then events
    else events
      ++ (record { event = name; mode = mode; ticks = (end_ticks + 2 ^ 64 - start_ticks) % 2 ^ 64 }
          ∷ [])

-- What a flush prints: the counter's frequency, a line for each event, its own cost. The TA prints
-- lines of its own, with their label and their microseconds.
pub data Line : Type 0 where
  frequency : ℕ → Line
  timing : EventName → ℕ → KeyMode → Line
  flush_cost : ℕ → Line
  ta_line : Bytes → ℕ → KeyMode → Line

-- `ticks * 1000000ULL / freq` on uint64_t. The hardware's frequency is not 0.
unfoldable pub micros : ℕ → ℕ → ℕ
micros freq ticks = ticks * 1000000 % 2 ^ 64 / freq

unfoldable pub event_line : ℕ → Event → Line
event_line freq e = timing e.event (micros freq e.ticks) e.mode

unfoldable pub flush : (freq start finish : ℕ) → List Event → List Line × List Event
unfolding event_line micros
flush freq start finish events = (
  frequency freq
      ∷ (map (event_line freq) events
          ++ (flush_cost ((finish + 2 ^ 64 - start) % 2 ^ 64 * 1000000 % 2 ^ 64 / freq) ∷ [])),
  [],
)
