-- ===== src/Tests/Timings.antt =====
-- The host program with --perf, on a machine whose clock stops after 20 seconds, and the blocks of a
-- command line with all three options.
use optee_ra_fork.Base.{false}
use optee_ra_fork.Base.{
  ℕ, ◌-◌, ◌≡◌, refl, arith, true, none, some, [], ◌∷◌, ◌++◌, codes, Bytes, pos, replicate, List,
  Option,
}
use Prim.Native.Nat.{min}
use optee_ra_fork.Params.{memref, size_of}
use optee_ra_fork.Perf.{dash}
use optee_ra_fork.Verifier.{
  Opening, psa_type_name, open_session, post_evidence, find_psa_media_type_index, find_from,
  type_at,
}
use optee_ra_fork.Ta.{is_some}
use optee_ra_fork.Host.{pack_key, same_text}
use optee_ra_fork.Host.Options.{
  Options, mode_of, parse_command_line, parse_arguments, flag_of, set_loop, check_options, defaults,
  same_flag, last_argument,
}
use optee_ra_fork.Host.Client.{
  World, attest_loop, usable_key, after_round, attest_once, deliver, receive, request_evidence,
  request_params, request_types, bytes_up_to,
}
use optee_ra_fork.Host.Program.{
  Machine, main, run_mode, attest_mode, with_session, attest_with, finished, perf_of,
}
use optee_ra_fork.Host.Buffers.{
  Block, times_freed, free_buffers, once, is_allocated, is_set, packed_key_param, free_buffers-once,
}
use optee_ra_fork.Host.Timing.{Clock, read_us, LogLine, main_log, host_keymode}
use optee_ra_fork.Host.Timing.Rounds.{IsMonotonic, IsLog, line, end_reading}
use optee_ra_fork.Host.Timing.Run.{main_log-IsLog}

abbrev clock : Clock
clock i = (min i 20, 0)

clock-IsMonotonic : IsMonotonic clock
unfolding read_us
clock-IsMonotonic i = omega arith

abbrev world : World
world = record {
  urandom = λ iter. none;
  opening =
      λ iter. Opening.opened (record { accept_type_list = psa_type_name ∷ []; nonce = iter ∷ [] });
  challenge_response = λ s m e. true;
  invoke = λ iter types params. record {
    params = record params { p1 = memref (some (7 ∷ [])) 1 };
    status = none;
  };
}

abbrev machine : Machine
machine = record {
  ra_perf = none;
  strtol = λ text. pos 2;
  hex_served = true;
  packed_served = true;
  blob_served = true;
  full_served = true;
  context_ok = true;
  session_ok = true;
  invoke = λ n types params. record { params = params; status = none };
  world = world;
}

abbrev args : List Bytes
args = codes "--perf" ∷ codes "--loop" ∷ codes "2" ∷ []

abbrev offline : Options
offline = record {
  key = none;
  pub_x = none;
  pub_y = none;
  perf = true;
  loop_count = 2;
  no_server = false;
}

main_log-IsLog_example :
    (key : Option Bytes) × (context session : ℕ) × (rest : List LogLine) × (pack_key true none none
        none
      ≡ some key)
    × (main_log clock machine args
        ≡ line dash (codes "teec_init") context
          ∷ line dash (codes "teec_open_session") session
          ∷ rest)
    × IsLog world
        (host_keymode (usable_key key))
        false
        (attest_loop world false none 2 0).1
        (read_us clock (end_reading world false (usable_key key) 2 0 4) - read_us clock 4)
        rest
unfolding mode_of same_text parse_command_line parse_arguments flag_of set_loop check_options
    is_some defaults same_flag main run_mode attest_mode with_session attest_with pack_key finished
    after_round attest_loop attest_once deliver receive request_evidence request_params
    request_types usable_key perf_of last_argument size_of bytes_up_to open_session post_evidence
    find_psa_media_type_index find_from type_at
main_log-IsLog_example =
    main_log-IsLog clock clock-IsMonotonic machine args offline refl refl refl
      (attest_loop world false none 2 0).1 refl

free_buffers-once_example :
    ((b : Block)
      → times_freed b (free_buffers (some (5 ∷ [])) (some (replicate 32 1)) (some (replicate 32 2)))
        ≡ once (is_allocated (some (5 ∷ [])) (some (replicate 32 1)) (some (replicate 32 2)) b))
    × (is_set (packed_key_param (some (5 ∷ [])) (some (replicate 32 1)) (some (replicate 32 2)))
        ≡ true)
unfolding pack_key is_some
free_buffers-once_example =
    free_buffers-once true (some (5 ∷ [])) (some (replicate 32 1)) (some (replicate 32 2))
      (some (replicate 32 1 ++ (replicate 32 2 ++ (5 ∷ [])))) refl refl
