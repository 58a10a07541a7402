-- ===== src/Host/Timing.antt =====
-- The RA_PERF lines of attester/remote_attestation/host/main.c, with host/perf.h and those of
-- client.c. A clock is what clock_gettime(CLOCK_MONOTONIC) answers to each reading, as seconds and
-- nanoseconds.
pub mod Rounds
pub mod Loop
pub mod Run
use optee_ra_fork.Base.{
  ℕ, zero, suc, ◌+◌, ◌-◌, ◌*◌, ◌/◌, ◌%◌, ◌^◌, Bool, true, false, Option, none, some, List, [], ◌∷◌,
  ◌++◌, ltb, ◌&&◌, if◌then◌else◌, Bytes, codes, length,
}
use optee_ra_fork.Perf.{KeyMode, embedded, plain, black, dash}
use optee_ra_fork.Host.{pack_key}
use optee_ra_fork.Host.Options.{
  Options, Parsed, help, stop, options, parse_command_line, Mode, generate, convert, attest,
  refused, mode_of,
}
use optee_ra_fork.Host.Client.{
  usable_key, Attempt, Exit, exit, overrun, World, Round, on, stopped, attest_once, Generated, keys,
  generate_blackkey, Converted, black, convert_to_black,
}
use optee_ra_fork.Host.Program.{Machine, perf_of}
use optee_ra_fork.Verifier.{Session, Opening, opened}

abbrev pub Clock : Type 0
Clock = ℕ → ℕ × ℕ

-- `ra_perf_now_us`, for the reading with this number.
unfoldable pub read_us : Clock → ℕ → ℕ
read_us clock i = ((clock i).0 * 1000000 + (clock i).1 / 1000) % 2 ^ 64

-- A line of the log: the event, the duration in microseconds and the label of the key path.
pub record LogLine : Type 0 where
  pub event : Bytes
  pub duration_us : ℕ
  pub label : KeyMode

-- Whether `open_challenge_response_session` reported Ok.
unfoldable pub is_opened : Opening → Bool
is_opened (Opening.failed session) = false
is_opened (opened session) = true

-- What `challenge_response` reported for the evidence that was posted, if any: true is Ok.
unfoldable pub verdict : World → Option (Session × Bytes × Bytes) → Option Bool
verdict w none = none
verdict w (some (session, name, evidence)) = some (w.challenge_response session evidence name)

-- The number of the reading after `open_session` of client.c, if it is called, and after
-- `post_evidence`. The second reading of each is an argument of `ra_perf_log`, behind the test of the
-- status.
unfoldable pub opened_at : Bool → ℕ → ℕ
opened_at true at = at
opened_at false at = at + 2

unfoldable pub posted_at : Option Bool → ℕ → ℕ
posted_at none at = at
posted_at (some true) at = at + 2
posted_at (some false) at = at + 1

-- The number of the reading after a round that goes on.
unfoldable pub next_reading : World → Bool → ℕ → Round → ℕ
next_reading w no_server at (on a) =
    posted_at (verdict w a.sent) (opened_at no_server (at + 1) + 4) + 1
next_reading w no_server at (stopped e attempts) = at

module _ (enabled : Bool) (clock : Clock) where
  -- `ra_perf_log(event, ra_perf_now_us() - t0)` between two readings. They are made in any case.
  unfoldable pub perf_log : KeyMode → Bytes → (start end : ℕ) → List LogLine
  perf_log mode event start end =
      if enabled
      then record {
        event = event;
        duration_us = (read_us clock end + 2 ^ 64 - read_us clock start) % 2 ^ 64;
        label = mode;
      }
        ∷ []
      else []

  -- The line of `open_session` of client.c.
  unfoldable pub open_log : (no_server ok : Bool) → KeyMode → ℕ → List LogLine
  open_log true ok mode at = []
  open_log false true mode at = perf_log mode (codes "veraison_new_session") at (at + 1)
  open_log false false mode at = []

  -- The line of `post_evidence` of client.c.
  unfoldable pub post_log : Option Bool → KeyMode → ℕ → List LogLine
  post_log none mode at = []
  post_log (some true) mode at = perf_log mode (codes "veraison_post_evidence") at (at + 1)
  post_log (some false) mode at = []

  -- The lines behind `open_session`, where the next reading has the number `at` and the round began
  -- with the reading `start`. Where `errx` ends the program it is before the first of them.
  unfoldable pub invoked_log : World → KeyMode → (start at : ℕ) → Round → List LogLine
  invoked_log w mode start at (on a) =
      perf_log mode (codes "evidence_get") at (at + 1)
      ++ (perf_log mode (codes "print_evidence") (at + 2) (at + 3)
          ++ (post_log (verdict w a.sent) mode (at + 4)
              ++ perf_log mode (codes "total") start (posted_at (verdict w a.sent) (at + 4))))
  invoked_log w mode start at (stopped (exit status) attempts) = []
  invoked_log w mode start at (stopped overrun []) = []
  invoked_log w mode start at (stopped overrun (a ∷ attempts)) =
      perf_log mode (codes "evidence_get") at (at + 1) ++ elim (a.evidence) [
        | none ↦ []
        | some evidence ↦ perf_log mode (codes "print_evidence") (at + 2) (at + 3)
      ]

  -- The lines of a round whose first reading has the number `at`.
  unfoldable pub round_log : World → Bool → KeyMode → (iter at : ℕ) → Round → List LogLine
  round_log w no_server mode iter at r =
      open_log no_server (is_opened (w.opening iter)) mode (at + 1)
      ++ invoked_log w mode at (opened_at no_server (at + 1)) r

  -- The lines of a round, and of the rounds behind it if there are any.
  unfoldable pub log_on : Round → (this rest : List LogLine) → List LogLine
  log_on (on a) this rest = this ++ rest
  log_on (stopped e attempts) this rest = this

  -- The lines of the loop, where the next reading has the number `at`.
  unfoldable pub loop_log : World → Bool → Option Bytes → KeyMode → ℕ → (iter at : ℕ) → List LogLine
  loop_log w no_server key mode zero iter at = []
  loop_log w no_server key mode (suc n) iter at =
      let this = attest_once w no_server key iter in
      log_on this (round_log w no_server mode iter at this)
        (loop_log w no_server key mode n (iter + 1) (next_reading w no_server at this))

  -- The lines of the context and the session, and those behind them if both succeed.
  unfoldable pub session_log : Machine → List LogLine → List LogLine
  session_log m rest =
      if m.context_ok
      then perf_log dash (codes "teec_init") 0 1
        ++ (if m.session_ok then perf_log dash (codes "teec_open_session") 2 3 ++ rest else [])
      else []

  unfoldable pub generated_log : Generated → List LogLine
  generated_log (Generated.failed (exit status)) = []
  generated_log (Generated.failed overrun) = perf_log dash (codes "blackkey_generate") 4 5
  generated_log (keys blob pub_x pub_y full) = perf_log dash (codes "blackkey_generate") 4 5

  unfoldable pub converted_log : Converted → List LogLine
  converted_log (Converted.failed (exit status)) = []
  converted_log (Converted.failed overrun) = perf_log dash (codes "blackkey_convert") 4 5
  converted_log (Converted.black key) = perf_log dash (codes "blackkey_convert") 4 5

-- The label from the packed key on.
unfoldable pub host_keymode : Option Bytes → KeyMode
host_keymode none = embedded
host_keymode (some key) = if ltb 96 (length key) then KeyMode.black else plain

unfoldable pub attest_log : Clock → Machine → Options → List LogLine
attest_log clock m o = elim (pack_key m.packed_served o.key o.pub_x o.pub_y) [
  | none ↦ []
  | some key ↦
      loop_log o.perf clock m.world o.no_server (usable_key key) (host_keymode (usable_key key))
        o.loop_count 0 4
]

unfoldable pub parsed_log : Clock → Machine → Parsed → List LogLine
parsed_log clock m help = []
parsed_log clock m stop = []
parsed_log clock m (options o) = session_log o.perf clock m (attest_log clock m o)

unfoldable pub mode_log : Clock → Machine → List Bytes → Mode → List LogLine
mode_log clock m args (generate perf) =
    session_log perf clock m
      (generated_log perf clock (generate_blackkey m.invoke m.blob_served m.full_served))
mode_log clock m args (convert key perf) =
    session_log perf clock m (converted_log perf clock (convert_to_black m.invoke m.hex_served key))
mode_log clock m args attest =
    parsed_log clock m (parse_command_line m.hex_served m.strtol (perf_of m.ra_perf) args)
mode_log clock m args refused = []

-- The lines of a whole run.
unfoldable pub main_log : Clock → Machine → List Bytes → List LogLine
main_log clock m args = mode_log clock m args (mode_of (perf_of m.ra_perf) args)
