-- ===== src/Base64/Bits.antt =====
-- The bit arithmetic of one round of the encoder.
use optee_ra_fork.Base.{ℕ, ◌+◌, ◌*◌, ◌/◌, ◌%◌, ◌^◌, ◌<◌, ◌≡◌, refl, ◌∙◌, arith, none, some, get_or}
use optee_ra_fork.Base.Bits.{or_disjoint, and_mask}
use optee_ra_fork.Base64.{group, digit, table}

pub group_three :
    (x y z : ℕ) → x < 256 → y < 256 → z < 256 → group x (some y) (some z) ≡ (x * 256 + y) * 256 + z
unfolding group
group_three x y z hx hy hz = rw (or_disjoint 8 x y (x * 256 % 2 ^ 32) (omega arith) hy) (
    or_disjoint 8 (x * 256 + y) z ((x * 256 % 2 ^ 32 + y) * 2 ^ 8 % 2 ^ 32) (omega arith) hz
    ∙ omega arith)

pub group_two : (x y : ℕ) → x < 256 → y < 256 → group x (some y) none ≡ (x * 256 + y) * 256
unfolding group
group_two x y hx hy = rw (or_disjoint 8 x y (x * 256 % 2 ^ 32) (omega arith) hy) (omega arith)

pub group_one : (x : ℕ) → x < 256 → group x none none ≡ x * 256 * 256
unfolding group
group_one x hx = omega arith

pub digit_lem : (g k : ℕ) → digit g k ≡ get_or table (g / 2 ^ k % 64) 0
unfolding digit
digit_lem g k = rw (and_mask 6 (g / 2 ^ k) 0x3f refl)
