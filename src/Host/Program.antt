-- ===== src/Host/Program.antt =====
-- `main` of attester/remote_attestation/host/main.c: the three modes behind the command line, in a
-- session with the TA.
use optee_ra_fork.Base.{
  ℕ, Bool, false, not, Option, none, some, List, ◌&&◌, if◌then◌else◌, Bytes, codes, ℤ,
}
use optee_ra_fork.Params.{ParamTypes, Params}
use optee_ra_fork.Pta.Caam.{Reply}
use optee_ra_fork.Host.{same_text, pack_key}
use optee_ra_fork.Host.Options.{
  Options, Parsed, help, stop, options, parse_command_line, Mode, generate, convert, attest,
  refused, mode_of,
}
use optee_ra_fork.Host.Client.{
  usable_key, Attempt, Exit, World, attest_loop, Generated, generate_blackkey, Converted,
  convert_to_black,
}

-- What the program runs on: the variable RA_PERF of the environment, `strtol`, whether `malloc` serves
-- the requests for hexadecimal text, for the packed key, the key blob and the full key, whether
-- TEEC_InitializeContext and TEEC_OpenSession succeed, the invocations of the modes for black keys,
-- and the world of the loop over attestations.
pub record Machine : Type 0 where
  pub ra_perf : Option Bytes
  pub strtol : Bytes → ℤ
  pub hex_served : Bool
  pub packed_served : Bool
  pub blob_served : Bool
  pub full_served : Bool
  pub context_ok : Bool
  pub session_ok : Bool
  pub invoke : ℕ → ParamTypes → Params → Reply
  pub world : World

-- What a run comes to. `usage` ends with status 0, `failed` with status 1 and before any request.
pub data Outcome : Type 0 where
  usage failed : Outcome
  generated : Generated → Outcome
  converted : Converted → Outcome
  attested : Exit → List Attempt → Outcome

-- `env_perf && strcmp(env_perf, "0") != 0`
unfoldable pub perf_of : Option Bytes → Bool
perf_of none = false
perf_of (some v) = not (same_text v (codes "0"))

-- A context and a session, or `errx`.
unfoldable pub with_session : Machine → Outcome → Outcome
with_session m rest = if m.context_ok && m.session_ok then rest else failed

unfoldable pub finished : Exit × List Attempt → Outcome
finished (e, attempts) = attested e attempts

-- The loop over attestations behind the packed key.
unfoldable pub attest_with : Machine → Options → Outcome
attest_with m o = elim (pack_key m.packed_served o.key o.pub_x o.pub_y) [
  | none ↦ failed
  | some key ↦ finished (attest_loop m.world o.no_server (usable_key key) o.loop_count 0)
]

unfoldable pub attest_mode : Machine → Parsed → Outcome
attest_mode m help = usage
attest_mode m stop = failed
attest_mode m (options o) = with_session m (attest_with m o)

-- The arguments are those behind the program's name.
unfoldable pub run_mode : Machine → List Bytes → Mode → Outcome
run_mode m args (generate perf) =
    with_session m (generated (generate_blackkey m.invoke m.blob_served m.full_served))
run_mode m args (convert key perf) =
    with_session m (converted (convert_to_black m.invoke m.hex_served key))
run_mode m args attest =
    attest_mode m (parse_command_line m.hex_served m.strtol (perf_of m.ra_perf) args)
run_mode m args refused = failed

unfoldable pub main : Machine → List Bytes → Outcome
main m args = run_mode m args (mode_of (perf_of m.ra_perf) args)
