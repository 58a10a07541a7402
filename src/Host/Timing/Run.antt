-- ===== src/Host/Timing/Run.antt =====
-- About the RA_PERF lines of a whole run of the host program, attester/remote_attestation/host/main.c.
use optee_ra_fork.Base.{
  ℕ, ◌-◌, ◌≡◌, refl, sym, ap₂, subst, Bool, true, false, Option, none, some, List, ◌∷◌, ◌++◌, ◌&&◌,
  if◌then◌else◌, Bytes, codes,
}
use optee_ra_fork.Perf.{dash}
use optee_ra_fork.Host.{pack_key}
use optee_ra_fork.Host.Options.{Options, options, parse_command_line, attest, mode_of}
use optee_ra_fork.Host.Client.{usable_key, Attempt, Exit, exit, attest_loop}
use optee_ra_fork.Host.Program.{
  Machine, perf_of, Outcome, attested, with_session, finished, attest_with, attest_mode, run_mode,
  main,
}
use optee_ra_fork.Host.Timing.{
  Clock, read_us, LogLine, loop_log, session_log, host_keymode, attest_log, parsed_log, mode_log,
  main_log,
}
use optee_ra_fork.Host.Timing.Loop.{loop_log-IsLog}
use optee_ra_fork.Host.Timing.Rounds.{IsMonotonic, IsLog, line, end_reading, same, perf_log_lem}

with_session_lem :
    (m : Machine) (rest : Outcome) (e : Exit) (attempts : List Attempt)
    → with_session m rest ≡ attested e attempts
    → (m.context_ok ≡ true) × (m.session_ok ≡ true) × (rest ≡ attested e attempts)
unfolding with_session
with_session_lem m rest e attempts h = by_answers m.context_ok m.session_ok h
  where
    by_answers :
        (context session : Bool)
        → (if context && session then rest else Outcome.failed) ≡ attested e attempts
        → (context ≡ true) × (session ≡ true) × (rest ≡ attested e attempts)
    by_answers true true q = (refl, refl, q)
    by_answers true false q = cc
    by_answers false session q = cc

attest_with_lem :
    (m : Machine) (o : Options) (attempts : List Attempt)
    → attest_with m o ≡ attested (exit 0) attempts
    → (key : Option Bytes) × (pack_key m.packed_served o.key o.pub_x o.pub_y ≡ some key)
      × ((attest_loop m.world o.no_server (usable_key key) o.loop_count 0).0 ≡ exit 0)
      × ((attest_loop m.world o.no_server (usable_key key) o.loop_count 0).1 ≡ attempts)
unfolding attest_with finished
attest_with_lem m o attempts h = by_key (pack_key m.packed_served o.key o.pub_x o.pub_y) refl h
  where
    by_key :
        (p : Option (Option Bytes))
        → pack_key m.packed_served o.key o.pub_x o.pub_y ≡ p
        → (elim p [
          | none ↦ Outcome.failed
          | some key ↦ finished (attest_loop m.world o.no_server (usable_key key) o.loop_count 0)
        ])
          ≡ attested (exit 0) attempts
        → (key : Option Bytes) × (pack_key m.packed_served o.key o.pub_x o.pub_y ≡ some key)
          × ((attest_loop m.world o.no_server (usable_key key) o.loop_count 0).0 ≡ exit 0)
          × ((attest_loop m.world o.no_server (usable_key key) o.loop_count 0).1 ≡ attempts)
    by_key none k q = cc
    by_key (some key) k q = (key, k, cc q, cc q)

module _ (clock : Clock) (monotonic : IsMonotonic clock) where
  attest_log_lem :
      (m : Machine) (o : Options) (key : Option Bytes)
      → o.perf ≡ true
      → pack_key m.packed_served o.key o.pub_x o.pub_y ≡ some key
      → attest_log clock m o
        ≡ loop_log true clock m.world o.no_server
            (usable_key key)
            (host_keymode (usable_key key))
            o.loop_count
            0
            4
  unfolding attest_log
  attest_log_lem m o key on h = rw (h, on, attest_log) refl

  session_log_lem :
      (m : Machine) (o : Options)
      → m.context_ok ≡ true
      → m.session_ok ≡ true
      → o.perf ≡ true
      → session_log o.perf clock m (attest_log clock m o)
        ≡ line dash (codes "teec_init") (read_us clock 1 - read_us clock 0)
          ∷ line dash (codes "teec_open_session") (read_us clock 3 - read_us clock 2)
          ∷ attest_log clock m o
  unfolding session_log
  session_log_lem m o context session on =
      simp (context, session, on)
        (ap₂ (λ x y. x ++ (y ++ attest_log clock m o))
          (perf_log_lem clock monotonic dash (codes "teec_init") 0 1 (monotonic 0))
          (perf_log_lem clock monotonic dash (codes "teec_open_session") 2 3 (monotonic 2)))

  -- With a clock that does not run backwards, an attestation with --perf that ends with status 0
  -- prints a line for the context, one for the session of the TEE, and the lines of each of its
  -- rounds, under the label of its packed key. A round has the lines veraison_new_session with a
  -- server, evidence_get, print_evidence, veraison_post_evidence where the server took the evidence,
  -- and total, which covers the durations of the other lines together; and the totals together are
  -- no more than the time that passed over the loop.
  pub main_log-IsLog :
      (m : Machine) (args : List Bytes) (o : Options)
      → mode_of (perf_of m.ra_perf) args ≡ attest
      → parse_command_line m.hex_served m.strtol (perf_of m.ra_perf) args ≡ options o
      → o.perf ≡ true
      → (attempts : List Attempt) → main m args ≡ attested (exit 0) attempts
      → (key : Option Bytes) × (context session : ℕ) × (rest : List LogLine) × (pack_key
            m.packed_served o.key o.pub_x o.pub_y
          ≡ some key)
        × (main_log clock m args
            ≡ line dash (codes "teec_init") context
              ∷ line dash (codes "teec_open_session") session
              ∷ rest)
        × IsLog m.world
            (host_keymode (usable_key key))
            o.no_server
            attempts
            (read_us clock (end_reading m.world o.no_server (usable_key key) o.loop_count 0 4)
              - read_us clock 4)
            rest
  unfolding main main_log run_mode mode_log attest_mode parsed_log
  main_log-IsLog m args o by_mode by_options on attempts ran =
      let at_mode : attest_mode m
            (parse_command_line m.hex_served m.strtol (perf_of m.ra_perf) args)
          ≡ attested (exit 0) attempts =
        subst (λ x. run_mode m args x ≡ attested (exit 0) attempts) by_mode ran in
      let at_options : with_session m (attest_with m o) ≡ attested (exit 0) attempts =
        subst (λ x. attest_mode m x ≡ attested (exit 0) attempts) by_options at_mode in
      let opened = with_session_lem m (attest_with m o) (exit 0) attempts at_options in
      let looped = attest_with_lem m o attempts opened.2 in
      let mode = host_keymode (usable_key looped.0) in
      let us =
        read_us clock (end_reading m.world o.no_server (usable_key looped.0) o.loop_count 0 4)
        - read_us clock 4 in
      (
        looped.0,
        read_us clock 1 - read_us clock 0,
        read_us clock 3 - read_us clock 2,
        attest_log clock m o,
        looped.1,
        rw (by_mode, by_options) (session_log_lem m o opened.0 opened.1 on),
        subst (λ done. IsLog m.world mode o.no_server done us (attest_log clock m o)) looped.3
            (subst
              (IsLog m.world mode o.no_server
                (attest_loop m.world o.no_server (usable_key looped.0) o.loop_count 0).1 us)
              (sym (attest_log_lem m o looped.0 on looped.1))
              (loop_log-IsLog clock monotonic m.world o.no_server (usable_key looped.0) mode
                o.loop_count 0 4 us looped.2 (same us))),
      )
