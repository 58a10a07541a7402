-- ===== src/System/Run.antt =====
-- What a run of the host program comes to, from its command line on.
use optee_ra_fork.Base.{
  ◌≤◌, ◌≡◌, ◌≢◌, refl, subst, inl, inr, Bool-cases, Option, none, some, List, ◌&&◌, Bytes, length,
  All,
}
use optee_ra_fork.Tee.{Env}
use optee_ra_fork.Hash.{VmInfo}
use optee_ra_fork.Cbor.Item.{Item}
use optee_ra_fork.Pta.{Platform}
use optee_ra_fork.Host.{pack_key}
use optee_ra_fork.Host.Options.{
  Options, Parsed, help, stop, options, parse_command_line, Mode, generate, convert, attest,
  refused, mode_of,
}
use optee_ra_fork.Host.Client.{usable_key, overrun, attest_loop}
use optee_ra_fork.Host.CommandLine.{IsUsable, Accepts, parse_command_line-IsUsable}
use optee_ra_fork.Host.Program.{
  Machine, Outcome, failed, attested, perf_of, with_session, finished, attest_with, attest_mode,
  run_mode, main,
}
use optee_ra_fork.Host.Sendable.{IsSendable, Packs, pack_key-IsSendable, usable_key-sendable}
use optee_ra_fork.System.{Crypto, RunsTa}
use optee_ra_fork.System.Attestation.{IsReady}
use optee_ra_fork.System.Posted.{IsPosted, attest_loop-posts}

-- What a run attests with: the options of the command line and the key packed out of them.
abbrev pub IsRequested : Machine → List Bytes → Option Bytes → Type 0
IsRequested m args key =
    (o : Options) × (parse_command_line m.hex_served m.strtol (perf_of m.ra_perf) args ≡ options o)
    × (pack_key m.packed_served o.key o.pub_x o.pub_y ≡ some key)

-- A run that attests posts tokens only, and reads within its buffers.
abbrev pub IsHonest :
    Platform → (Item → Bytes) → VmInfo → Bytes → Machine → List Bytes → Outcome → Type 0
IsHonest p cbor info ta_uuid m args (attested e attempts) =
    (key : Option Bytes) × IsRequested m args key
    × IsSendable key
    × All (IsPosted p cbor info ta_uuid key) attempts
    × (e ≢ overrun)
IsHonest p cbor info ta_uuid m args other = Unit

module _ {W : Env → Type 0} {p : Platform} {cbor : Item → Bytes} {info : VmInfo} (c : Crypto)
    (ready : IsReady p cbor info) (ta_uuid : Bytes) (uuid : 16 ≤ length ta_uuid) (m : Machine)
    (runs : RunsTa W p c ta_uuid m.world.invoke) (args : List Bytes) where
  with_session-IsHonest :
      (r : Outcome)
      → IsHonest p cbor info ta_uuid m args r
      → IsHonest p cbor info ta_uuid m args (with_session m r)
  unfolding with_session
  with_session-IsHonest r h = elim (Bool-cases (m.context_ok && m.session_ok)) [
    | inl e ↦ rw (e, IsHonest) h
    | inr e ↦ rw (e, IsHonest) tt
  ]

  attest_with-IsHonest :
      (o : Options)
      → parse_command_line m.hex_served m.strtol (perf_of m.ra_perf) args ≡ options o
      → IsHonest p cbor info ta_uuid m args (attest_with m o)
  unfolding attest_with finished
  attest_with-IsHonest o h =
      by_key (pack_key m.packed_served o.key o.pub_x o.pub_y) refl
        (pack_key-IsSendable m.packed_served o.key o.pub_x o.pub_y usable.0.0 usable.0.1)
    where
      usable : IsUsable o
      usable =
          subst (Accepts IsUsable) h
            (parse_command_line-IsUsable m.hex_served m.strtol (perf_of m.ra_perf) args)

      by_key :
          (packed : Option (Option Bytes))
          → pack_key m.packed_served o.key o.pub_x o.pub_y ≡ packed
          → Packs IsSendable packed
          → IsHonest p cbor info ta_uuid m args (elim packed [
            | none ↦ failed
            | some key ↦ finished (attest_loop m.world o.no_server (usable_key key) o.loop_count 0)
          ])
      by_key none e s = tt
      by_key (some key) e s = rw (usable_key-sendable key s) (key, (o, h, e), s, posts.0, posts.1)
        where
          posts :
              All
                (IsPosted p cbor info ta_uuid key)
                (attest_loop m.world o.no_server key o.loop_count 0).1
              × ((attest_loop m.world o.no_server key o.loop_count 0).0 ≢ overrun)
          posts = attest_loop-posts c ready ta_uuid uuid m.world runs key o.no_server o.loop_count 0

  attest_mode-IsHonest :
      (r : Parsed)
      → parse_command_line m.hex_served m.strtol (perf_of m.ra_perf) args ≡ r
      → IsHonest p cbor info ta_uuid m args (attest_mode m r)
  unfolding attest_mode
  attest_mode-IsHonest help h = tt
  attest_mode-IsHonest stop h = tt
  attest_mode-IsHonest (options o) h = with_session-IsHonest _ (attest_with-IsHonest o h)

  run_mode-IsHonest : (mode : Mode) → IsHonest p cbor info ta_uuid m args (run_mode m args mode)
  unfolding run_mode
  run_mode-IsHonest (generate perf) = with_session-IsHonest _ tt
  run_mode-IsHonest (convert key perf) = with_session-IsHonest _ tt
  run_mode-IsHonest attest = attest_mode-IsHonest _ refl
  run_mode-IsHonest refused = tt

  -- Whatever its arguments: where the requests of the host program reach the TA and those of the TA
  -- the PTA, on a platform that is ready, a run that attests does so with the key that its options
  -- say, which the PTA finds long enough; all that it posts are COSE_Sign1 messages over the claims
  -- of this TA, signed with that key and for the nonce of the session that each is posted to; and
  -- it never reads outside of its buffers.
  pub main-IsHonest : IsHonest p cbor info ta_uuid m args (main m args)
  unfolding main
  main-IsHonest = run_mode-IsHonest (mode_of (perf_of m.ra_perf) args)
