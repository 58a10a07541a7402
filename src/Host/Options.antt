-- ===== src/Host/Options.antt =====
-- The command line of attester/remote_attestation/host/main.c: the options of an attestation, and the
-- two modes for black keys. `errx` is `stop` or `refused`.
use optee_ra_fork.Base.{
  ℕ, Bool, true, false, not, Option, none, some, List, [], ◌∷◌, ltb, ◌==◌, ◌&&◌, ◌||◌,
  if◌then◌else◌, Bytes, codes, length, ℤ, pos, negsuc,
}
use optee_ra_fork.Ta.{is_some}
use optee_ra_fork.Host.{parse_hex, same_text}

pub data Flag : Type 0 where
  help_flag key_hex pubx_hex puby_hex perf_flag loop_flag no_server_flag unknown : Flag

unfoldable pub flag_of : Bytes → Flag
flag_of arg =
    if same_text arg (codes "--help") || same_text arg (codes "-h")
    then help_flag
    else if same_text arg (codes "--key-hex")
    then key_hex
    else if same_text arg (codes "--pubx-hex")
    then pubx_hex
    else if same_text arg (codes "--puby-hex")
    then puby_hex
    else if same_text arg (codes "--perf")
    then perf_flag
    else if same_text arg (codes "--loop")
    then loop_flag
    else if same_text arg (codes "--no-server")
    then no_server_flag
    else unknown

-- `has_key` and the like are the options being there.
pub record Options : Type 0 where
  pub key : Option Bytes
  pub pub_x : Option Bytes
  pub pub_y : Option Bytes
  pub perf : Bool
  pub loop_count : ℕ
  pub no_server : Bool

pub data Parsed : Type 0 where
  help : Parsed
  stop : Parsed
  options : Options → Parsed

-- The value of --key-hex.
unfoldable pub set_key : Bool → Options → Bytes → Option Options
set_key served o v = elim (o.key) [
  | some k ↦ none
  | none ↦ elim (parse_hex served v) [ none ↦ none | some k ↦ some (record o { key = some k }) ]
]

-- The value of --pubx-hex and of --puby-hex: a coordinate that was not given before.
unfoldable pub read_coordinate : Bool → Option Bytes → Bytes → Option Bytes
read_coordinate served (some old) v = none
read_coordinate served none v = elim (parse_hex served v) [
  | none ↦ none
  | some b ↦ if length b == 32 then some b else none
]

unfoldable pub set_pub_x : Bool → Options → Bytes → Option Options
set_pub_x served o v = elim (read_coordinate served o.pub_x v) [
  | none ↦ none
  | some b ↦ some (record o { pub_x = some b })
]

unfoldable pub set_pub_y : Bool → Options → Bytes → Option Options
set_pub_y served o v = elim (read_coordinate served o.pub_y v) [
  | none ↦ none
  | some b ↦ some (record o { pub_y = some b })
]

-- The value of --loop, after `strtol`.
unfoldable pub set_loop : Options → ℤ → Option Options
set_loop o (pos n) = if ltb n 1 then none else some (record o { loop_count = n })
set_loop o (negsuc n) = none

-- An argument with none behind it.
unfoldable pub last_argument : Options → Flag → Parsed
last_argument o help_flag = help
last_argument o perf_flag = options (record o { perf = true })
last_argument o no_server_flag = options (record o { no_server = true })
last_argument o other = stop

-- `has_pubx == has_puby`
unfoldable pub same_flag : Bool → Bool → Bool
same_flag true b = b
same_flag false b = not b

module _ (served : Bool) (strtol : Bytes → ℤ) where
  -- The loop over `argv`.
  unfoldable pub parse_arguments : Options → List Bytes → Parsed
  parse_arguments o [] = options o
  parse_arguments o (arg ∷ []) = last_argument o (flag_of arg)
  parse_arguments o (arg ∷ v ∷ rest) = elim (flag_of arg) [
    | help_flag ↦ help
    | key_hex ↦ elim (set_key served o v) [ none ↦ stop | some p ↦ parse_arguments p rest ]
    | pubx_hex ↦ elim (set_pub_x served o v) [ none ↦ stop | some p ↦ parse_arguments p rest ]
    | puby_hex ↦ elim (set_pub_y served o v) [ none ↦ stop | some p ↦ parse_arguments p rest ]
    | perf_flag ↦ parse_arguments (record o { perf = true }) (v ∷ rest)
    | loop_flag ↦ elim (set_loop o (strtol v)) [ none ↦ stop | some p ↦ parse_arguments p rest ]
    | no_server_flag ↦ parse_arguments (record o { no_server = true }) (v ∷ rest)
    | unknown ↦ stop
  ]

-- The two checks behind the loop.
unfoldable pub check_options : Options → Parsed
check_options o =
    if (is_some o.pub_x || is_some o.pub_y) && not (is_some o.key)
    then stop
    else if not (same_flag (is_some o.pub_x) (is_some o.pub_y))
    then stop
    else options o

-- The options before the first argument; `RA_PERF` of the environment can set `perf`.
unfoldable pub defaults : Bool → Options
defaults perf = record {
  key = none;
  pub_x = none;
  pub_y = none;
  perf = perf;
  loop_count = 1;
  no_server = false;
}

-- The command line of an attestation, without the two modes for black keys.
unfoldable pub parse_command_line : Bool → (Bytes → ℤ) → Bool → List Bytes → Parsed
parse_command_line served strtol perf args =
    elim (parse_arguments served strtol (defaults perf) args) [
      | help ↦ help
      | stop ↦ stop
      | options o ↦ check_options o
    ]

-- What the program does: one of the two modes for black keys, or an attestation.
pub data Mode : Type 0 where
  generate : (perf : Bool) → Mode
  convert : (key : Bytes) → (perf : Bool) → Mode
  attest : Mode
  refused : Mode

-- The arguments behind --generate-blackkey, with `perf` as the environment sets it.
unfoldable pub generate_mode : Bool → List Bytes → Mode
generate_mode perf [] = generate perf
generate_mode perf (arg ∷ []) = if same_text arg (codes "--perf") then generate true else refused
generate_mode perf (arg ∷ more ∷ rest) = refused

-- The arguments behind --convert-key.
unfoldable pub convert_mode : Bool → List Bytes → Mode
convert_mode perf [] = refused
convert_mode perf (key ∷ []) = convert key perf
convert_mode perf (key ∷ arg ∷ []) =
    if same_text arg (codes "--perf") then convert key true else refused
convert_mode perf (key ∷ arg ∷ more ∷ rest) = refused

unfoldable pub mode_of : Bool → List Bytes → Mode
mode_of perf [] = attest
mode_of perf (arg ∷ rest) =
    if same_text arg (codes "--generate-blackkey")
    then generate_mode perf rest
    else if same_text arg (codes "--convert-key")
    then convert_mode perf rest
    else attest
