-- ===== src/Host.antt =====
-- The host program, remote_attestation/host/main.c: hexadecimal text, and the packed key that goes to
-- the TA. A C string is its bytes before the NUL.
pub mod Hex
pub mod Options
pub mod CommandLine
pub mod Packed
pub mod Client
pub mod Program
pub mod Attest
pub mod FullKey
pub mod Sendable
pub mod Timing
pub mod Buffers
use optee_ra_fork.Base.{
  ℕ, zero, suc, ◌+◌, ◌-◌, ◌*◌, ◌/◌, ◌%◌, Bool, true, false, not, Option, none, some, List, [], ◌∷◌,
  ◌++◌, leb, ltb, ◌==◌, ◌&&◌, ◌||◌, if◌then◌else◌, Bytes, codes, length, take, ℤ, pos, negsuc,
}
use optee_ra_fork.Pta.{min_key_param_size}
use optee_ra_fork.Ta.{is_some}

-- `none` is -1.
unfoldable pub hex_value : ℕ → Option ℕ
hex_value c =
    if leb 0x30 c && leb c 0x39
    then some (c - 0x30)
    else if leb 0x61 c && leb c 0x66
    then some (c - 0x61 + 10)
    else if leb 0x41 c && leb c 0x46
    then some (c - 0x41 + 10)
    else none

unfoldable pub join : Option ℕ → Option ℕ → Option ℕ
join none lo = none
join (some hi) none = none
join (some hi) (some lo) = some ((hi * 16 + lo) % 256)

unfoldable pub prepend : Option ℕ → Option Bytes → Option Bytes
prepend none rest = none
prepend (some b) none = none
prepend (some b) (some rest) = some (b ∷ rest)

-- The loop of `parse_hex` on the digits from `i` on; an odd number of them is refused before it.
unfoldable pub parse_pairs : Bytes → Option Bytes
parse_pairs [] = some []
parse_pairs (c ∷ []) = none
parse_pairs (c ∷ d ∷ rest) = prepend (join (hex_value c) (hex_value d)) (parse_pairs rest)

-- The digits behind the prefix "0x" or "0X", if it is there.
unfoldable pub skip_prefix : Bytes → Bytes
skip_prefix [] = []
skip_prefix (c ∷ []) = c ∷ []
skip_prefix (c ∷ d ∷ rest) = if c == 0x30 && (d == 0x78 || d == 0x58) then rest else c ∷ d ∷ rest

-- `parse_hex`, with whether `malloc` serves its request; `none` is the return of -1.
unfoldable pub parse_hex : Bool → Bytes → Option Bytes
parse_hex served text =
    if not (length (skip_prefix text) % 2 == 0) || not served
    then none
    else parse_pairs (skip_prefix text)

-- `%x` of a digit.
unfoldable pub hex_digit : ℕ → ℕ
hex_digit n = if ltb n 10 then n + 0x30 else n - 10 + 0x61

-- The text of `print_binary_in_hex` before its line end.
unfoldable pub hex_text : Bytes → Bytes
hex_text [] = []
hex_text (b ∷ rest) = hex_digit (b / 16) ∷ hex_digit (b % 16) ∷ hex_text rest

-- `strcmp(a, b) == 0`
unfoldable pub same_text : Bytes → Bytes → Bool
same_text [] [] = true
same_text [] (d ∷ ds) = false
same_text (c ∷ cs) [] = false
same_text (c ∷ cs) (d ∷ ds) = c == d && same_text cs ds

-- `packed_key_param`, with whether `malloc` serves its request. The outer `none` is `errx`, the inner
-- one no key.
unfoldable pub pack_key : Bool → Option Bytes → Option Bytes → Option Bytes → Option (Option Bytes)
pack_key served none pub_x pub_y = some none
pack_key served (some key) (some x) (some y) =
    if length key == 0
    then some none
    else if served
    then some (some (take 32 x ++ (take 32 y ++ key)))
    else none
pack_key served (some key) none none =
    if length key == 0
    then some none
    else if leb min_key_param_size (length key)
    then some (some key)
    else none
pack_key served (some key) (some x) none = if length key == 0 then some none else none
pack_key served (some key) none (some y) = if length key == 0 then some none else none
