-- ===== src/Host/CommandLine.antt =====
-- About the options and the packed key of attester/remote_attestation/host/main.c.
use optee_ra_fork.Base.{
  ◌≤◌, arith, ◌≡◌, refl, sym, ◌∙◌, inl, inr, Bool, true, false, Bool-cases, Option, none, some,
  List, [], ◌∷◌, ltb, not_ltb→le, ◌==◌, ==→eq, ◌&&◌, not, if◌then◌else◌, Bytes, length, ℤ, pos,
  negsuc,
}
use optee_ra_fork.Tee.Rules.{Maybe}
use optee_ra_fork.Ta.{is_some}
use optee_ra_fork.Host.{parse_hex}
use optee_ra_fork.Host.Options.{
  Options, Parsed, help, stop, options, Flag, help_flag, key_hex, pubx_hex, puby_hex, perf_flag,
  loop_flag, no_server_flag, unknown, flag_of, set_key, read_coordinate, set_pub_x, set_pub_y,
  set_loop, last_argument, parse_arguments, check_options, same_flag, defaults, parse_command_line,
}

-- A coordinate, if there is one, has 32 bytes.
abbrev pub IsCoordinate : Option Bytes → Type 0
IsCoordinate = Maybe (λ b. length b ≡ 32) Unit

abbrev pub HasSizes : Options → Type 0
HasSizes o = IsCoordinate o.pub_x × IsCoordinate o.pub_y × (1 ≤ o.loop_count)

-- The sizes above; both coordinates or none; and a key if there are coordinates.
abbrev pub IsUsable : Options → Type 0
IsUsable o =
    HasSizes o
    × (is_some o.pub_x ≡ is_some o.pub_y)
    × ((is_some o.pub_x && not (is_some o.key)) ≡ false)

-- `P` of the options, where the command line gives any.
abbrev pub Accepts : (Options → Type 0) → Parsed → Type 0
Accepts P help = Unit
Accepts P stop = Unit
Accepts P (options o) = P o

read_coordinate-IsCoordinate :
    (served : Bool) (old : Option Bytes) (v : Bytes) → IsCoordinate (read_coordinate served old v)
unfolding read_coordinate
read_coordinate-IsCoordinate served (some b) v = tt
read_coordinate-IsCoordinate served none v = parsed (parse_hex served v)
  where
    parsed :
        (m : Option Bytes)
        → IsCoordinate (elim m [ none ↦ none | some b ↦ if length b == 32 then some b else none ])
    parsed none = tt
    parsed (some b) = elim (Bool-cases (length b == 32)) [
      | inl h ↦ rw h (==→eq (length b) 32 h)
      | inr h ↦ rw h tt
    ]

set_key-HasSizes :
    (served : Bool) (o : Options) (v : Bytes)
    → HasSizes o
    → Maybe HasSizes Unit (set_key served o v)
unfolding set_key
set_key-HasSizes served o v h = by_key o.key (parse_hex served v)
  where
    by_key :
        (old new : Option Bytes)
        → Maybe HasSizes Unit (elim old [
          | some k ↦ none
          | none ↦ elim new [ none ↦ none | some k ↦ some (record o { key = some k }) ]
        ])
    by_key (some k) new = tt
    by_key none none = tt
    by_key none (some k) = h

set_pub_x-HasSizes :
    (served : Bool) (o : Options) (v : Bytes)
    → HasSizes o
    → Maybe HasSizes Unit (set_pub_x served o v)
unfolding set_pub_x
set_pub_x-HasSizes served o v h =
    by_value (read_coordinate served o.pub_x v) (read_coordinate-IsCoordinate served o.pub_x v)
  where
    by_value :
        (m : Option Bytes)
        → IsCoordinate m
        → Maybe HasSizes Unit (elim m [ none ↦ none | some b ↦ some (record o { pub_x = some b }) ])
    by_value none i = tt
    by_value (some b) i = (i, h.1, h.2)

set_pub_y-HasSizes :
    (served : Bool) (o : Options) (v : Bytes)
    → HasSizes o
    → Maybe HasSizes Unit (set_pub_y served o v)
unfolding set_pub_y
set_pub_y-HasSizes served o v h =
    by_value (read_coordinate served o.pub_y v) (read_coordinate-IsCoordinate served o.pub_y v)
  where
    by_value :
        (m : Option Bytes)
        → IsCoordinate m
        → Maybe HasSizes Unit (elim m [ none ↦ none | some b ↦ some (record o { pub_y = some b }) ])
    by_value none i = tt
    by_value (some b) i = (h.0, i, h.2)

set_loop-HasSizes : (o : Options) (z : ℤ) → HasSizes o → Maybe HasSizes Unit (set_loop o z)
unfolding set_loop
set_loop-HasSizes o (negsuc n) h = tt
set_loop-HasSizes o (pos n) h = elim (Bool-cases (ltb n 1)) [
  | inl c ↦ rw c tt
  | inr c ↦ rw c (h.0, h.1, not_ltb→le n 1 c)
]

last_argument-HasSizes :
    (o : Options) (f : Flag) → HasSizes o → Accepts HasSizes (last_argument o f)
unfolding last_argument
last_argument-HasSizes o help_flag h = tt
last_argument-HasSizes o key_hex h = tt
last_argument-HasSizes o pubx_hex h = tt
last_argument-HasSizes o puby_hex h = tt
last_argument-HasSizes o perf_flag h = h
last_argument-HasSizes o loop_flag h = tt
last_argument-HasSizes o no_server_flag h = h
last_argument-HasSizes o unknown h = tt

after_value :
    (m : Option Options) (next : Options → Parsed)
    → Maybe HasSizes Unit m
    → ((p : Options) → HasSizes p → Accepts HasSizes (next p))
    → Accepts HasSizes (elim m [ none ↦ stop | some p ↦ next p ])
after_value none next i follow = tt
after_value (some p) next i follow = follow p i

module _ (served : Bool) (strtol : Bytes → ℤ) where
  parse_arguments-HasSizes :
      (o : Options) (args : List Bytes)
      → HasSizes o
      → Accepts HasSizes (parse_arguments served strtol o args)
  unfolding parse_arguments
  parse_arguments-HasSizes o [] h = h
  parse_arguments-HasSizes o (arg ∷ []) h = last_argument-HasSizes o (flag_of arg) h
  parse_arguments-HasSizes o (arg ∷ v ∷ rest) h =
      by_flag (flag_of arg) (λ p i. parse_arguments-HasSizes p rest i)
        (λ p i. parse_arguments-HasSizes p (v ∷ rest) i)
    where
      by_flag :
          (f : Flag)
          → ((p : Options) → HasSizes p → Accepts HasSizes (parse_arguments served strtol p rest))
          → ((p : Options)
              → HasSizes p
              → Accepts HasSizes (parse_arguments served strtol p (v ∷ rest)))
          → Accepts HasSizes (elim f [
            | help_flag ↦ help
            | key_hex ↦ elim (set_key served o v) [
              | none ↦ stop
              | some p ↦ parse_arguments served strtol p rest
            ]
            | pubx_hex ↦ elim (set_pub_x served o v) [
              | none ↦ stop
              | some p ↦ parse_arguments served strtol p rest
            ]
            | puby_hex ↦ elim (set_pub_y served o v) [
              | none ↦ stop
              | some p ↦ parse_arguments served strtol p rest
            ]
            | perf_flag ↦ parse_arguments served strtol (record o { perf = true }) (v ∷ rest)
            | loop_flag ↦ elim (set_loop o (strtol v)) [
              | none ↦ stop
              | some p ↦ parse_arguments served strtol p rest
            ]
            | no_server_flag ↦
                parse_arguments served strtol (record o { no_server = true }) (v ∷ rest)
            | unknown ↦ stop
          ])
      by_flag help_flag next same = tt
      by_flag key_hex next same =
          after_value (set_key served o v) _ (set_key-HasSizes served o v h) next
      by_flag pubx_hex next same =
          after_value (set_pub_x served o v) _ (set_pub_x-HasSizes served o v h) next
      by_flag puby_hex next same =
          after_value (set_pub_y served o v) _ (set_pub_y-HasSizes served o v h) next
      by_flag perf_flag next same = same (record o { perf = true }) h
      by_flag loop_flag next same =
          after_value (set_loop o (strtol v)) _ (set_loop-HasSizes o (strtol v) h) next
      by_flag no_server_flag next same = same (record o { no_server = true }) h
      by_flag unknown next same = tt

check_options-IsUsable : (o : Options) → HasSizes o → Accepts IsUsable (check_options o)
unfolding check_options same_flag
check_options-IsUsable o h =
    by_flags (is_some o.pub_x) (is_some o.pub_y) (is_some o.key) refl refl refl
  where
    by_flags :
        (x y k : Bool)
        → is_some o.pub_x ≡ x
        → is_some o.pub_y ≡ y
        → is_some o.key ≡ k
        → Accepts IsUsable (check_options o)
    by_flags true true true p q r = rw (p, q, r) (h, p ∙ sym q, rw (p, r) refl)
    by_flags true true false p q r = rw (p, q, r) tt
    by_flags true false true p q r = rw (p, q, r) tt
    by_flags true false false p q r = rw (p, q, r) tt
    by_flags false true true p q r = rw (p, q, r) tt
    by_flags false true false p q r = rw (p, q, r) tt
    by_flags false false k p q r = rw (p, q, r) (h, p ∙ sym q, rw p refl)

-- Whatever the arguments, the command line is refused, asks for help, or gives options whose
-- coordinates, both or neither, have 32 bytes and come with a key, and whose loop count is at
-- least 1.
pub parse_command_line-IsUsable :
    (served : Bool) (strtol : Bytes → ℤ) (perf : Bool) (args : List Bytes)
    → Accepts IsUsable (parse_command_line served strtol perf args)
unfolding parse_command_line defaults
parse_command_line-IsUsable served strtol perf args =
    checked (parse_arguments served strtol (defaults perf) args)
      (parse_arguments-HasSizes served strtol (defaults perf) args (tt, tt, omega arith))
  where
    checked :
        (r : Parsed)
        → Accepts HasSizes r
        → Accepts IsUsable (elim r [ help ↦ help | stop ↦ stop | options o ↦ check_options o ])
    checked help i = tt
    checked stop i = tt
    checked (options o) i = check_options-IsUsable o i
