-- ===== src/Base/Bits.antt =====
-- The bit operations of C as arithmetic: masks of low bits, and the union of disjoint fields.
use Prim.Native.Nat.{ℕ, zero, suc, ◌+◌, ◌*◌, ◌/◌, ◌%◌, ◌^◌, ◌≤◌, ◌<◌, min, max}
use Prim.Native.Nat.{bit_and, bit_or, digits, bit_and-bitwise, bit_or-bitwise}
use mathlib.Core.Path.{◌≡◌, refl, sym, ap, ap₂, ◌∙◌}
use native.Mathlib.Nat.{
  pow-suc, mod-lt, mod-eq_of_lt, mul-add-mod_self_right, div-add-mod', div-div-eq-div-mul, mul_comm,
}
use mathlib.Core.Bool.{◌&&◌}
use optee_ra_fork.Base.Numbers.{◌==◌}
use native.Mathlib.Omega.{arith}

-- The digit recursion does not depend on its fuel, once that covers the first number.
module _ (rest : ℕ → ℕ) (op : ℕ → ℕ → ℕ) where
  digits_fuel : (n m a b : ℕ) → a ≤ n → a ≤ m → digits rest op n a b ≡ digits rest op m a b
  digits_fuel zero zero a b hn hm = refl
  digits_fuel zero (suc m) zero b hn hm = refl
  digits_fuel zero (suc m) (suc a) b hn hm = absurd (omega arith)
  digits_fuel (suc n) zero zero b hn hm = refl
  digits_fuel (suc n) zero (suc a) b hn hm = absurd (omega arith)
  digits_fuel (suc n) (suc m) zero b hn hm = refl
  digits_fuel (suc n) (suc m) (suc a) b hn hm =
      ap (λ d. d * 2 + op (suc a % 2) (b % 2))
        (digits_fuel n m (suc a / 2) (b / 2) (omega arith) (omega arith))

or_left_zero : (b : ℕ) → bit_or 0 b ≡ b
or_left_zero b = bit_or-bitwise 0 b

and_left_zero : (b : ℕ) → bit_and 0 b ≡ 0
and_left_zero b = bit_and-bitwise 0 b

-- One binary digit at a time.
pub or_step : (a b : ℕ) → bit_or a b ≡ bit_or (a / 2) (b / 2) * 2 + max (a % 2) (b % 2)
or_step zero b = omega (arith, or_left_zero b, or_left_zero (b / 2))
or_step (suc a) b = omega (
  arith,
  bit_or-bitwise (suc a) b,
  bit_or-bitwise (suc a / 2) (b / 2),
  digits_fuel (λ (k : ℕ). k) max a (suc a / 2) (suc a / 2) (b / 2) (omega arith) (omega arith),
)

pub and_step : (a b : ℕ) → bit_and a b ≡ bit_and (a / 2) (b / 2) * 2 + min (a % 2) (b % 2)
and_step zero b = omega (arith, and_left_zero b, and_left_zero (b / 2))
and_step (suc a) b = omega (
  arith,
  bit_and-bitwise (suc a) b,
  bit_and-bitwise (suc a / 2) (b / 2),
  digits_fuel (λ (k : ℕ). 0) min a (suc a / 2) (suc a / 2) (b / 2) (omega arith) (omega arith),
)

or_right_zero_below : (n a : ℕ) → a < n → bit_or a 0 ≡ a
or_right_zero_below zero a h = absurd (omega arith)
or_right_zero_below (suc n) zero h = or_left_zero 0
or_right_zero_below (suc n) (suc a) h =
    omega (arith, or_step (suc a) 0, or_right_zero_below n (suc a / 2) (omega arith))

pub or_comm : (a b : ℕ) → bit_or a b ≡ bit_or b a
or_comm a b = below (suc a) a b (omega arith)
  where
    below : (n a b : ℕ) → a < n → bit_or a b ≡ bit_or b a
    below zero a b h = absurd (omega arith)
    below (suc n) zero b h = or_left_zero b ∙ sym (or_right_zero_below (suc b) b (omega arith))
    below (suc n) (suc a) b h =
        omega
          (arith, or_step (suc a) b, or_step b (suc a), below n (suc a / 2) (b / 2) (omega arith))

and_right_zero_below : (n a : ℕ) → a < n → bit_and a 0 ≡ 0
and_right_zero_below zero a h = absurd (omega arith)
and_right_zero_below (suc n) zero h = and_left_zero 0
and_right_zero_below (suc n) (suc a) h =
    omega (arith, and_step (suc a) 0, and_right_zero_below n (suc a / 2) (omega arith))

-- `|` of a number with its `k` low bits clear and one of `k` bits is their sum.
pub or_disjoint : (k a b x : ℕ) → x ≡ a * 2 ^ k → b < 2 ^ k → bit_or x b ≡ x + b
or_disjoint zero a b x e h =
    omega (arith, ap (bit_or x) zero_b, or_right_zero_below (suc x) x (omega arith))
  where
    zero_b : b ≡ 0
    zero_b = omega arith
or_disjoint (suc k) a b x e h = omega (
  arith,
  ap (λ p. a * p) (pow-suc 2 k),
  pow-suc 2 k,
  or_step x b,
  or_disjoint k a (b / 2) (x / 2) (omega (arith, ap (λ p. a * p) (pow-suc 2 k)))
      (omega (arith, pow-suc 2 k)),
)

mod_double : (x p : ℕ) → 0 < p → x % (p * 2) ≡ x / 2 % p * 2 + x % 2
mod_double x p h =
    ap (λ t. t % (p * 2)) split
    ∙ mul-add-mod_self_right (x / 2 / p) (p * 2) low
    ∙ mod-eq_of_lt (omega (arith, mod-lt (x / 2) h))
  where
    low : ℕ
    low = x / 2 % p * 2 + x % 2

    split : x ≡ x / 2 / p * (p * 2) + low
    split = omega (arith, div-add-mod' (x / 2) p)

-- `&` with `k` ones keeps the `k` low bits.
pub and_mask : (k x m : ℕ) → m + 1 ≡ 2 ^ k → bit_and x m ≡ x % 2 ^ k
and_mask zero x m e =
    omega (arith, ap (bit_and x) zero_m, and_right_zero_below (suc x) x (omega arith))
  where
    zero_m : m ≡ 0
    zero_m = omega arith
and_mask (suc k) x m e = omega (
  arith,
  ap (λ p. x % p) (pow-suc 2 k),
  pow-suc 2 k,
  and_step x m,
  mod_double x (2 ^ k) (omega (arith, pow-suc 2 k)),
  and_mask k (x / 2) (m / 2) (omega (arith, pow-suc 2 k)),
)

-- `&` with a single one keeps that bit.
pub and_bit : (k x m : ℕ) → m ≡ 2 ^ k → bit_and x m ≡ x / 2 ^ k % 2 * 2 ^ k
and_bit zero x m e = omega (arith, ap (bit_and x) e, and_mask 1 x 1 refl)
and_bit (suc k) x m e = omega (
  arith,
  pow-suc 2 k,
  and_step x m,
  and_bit k (x / 2) (m / 2) (omega (arith, pow-suc 2 k)),
  ap (λ p. x / p % 2) (pow-suc 2 k),
  ap (λ p. x / p % 2) (mul_comm (2 ^ k) 2),
  ap (λ q. q % 2) (div-div-eq-div-mul x 2 (2 ^ k)),
  ap (λ p. x / 2 / 2 ^ k % 2 * p) (pow-suc 2 k),
  ap (λ q. q % 2 * 2 ^ suc k)
      (div-div-eq-div-mul x 2 (2 ^ k) ∙ ap (λ p. x / p) (mul_comm 2 (2 ^ k) ∙ sym (pow-suc 2 k))),
)

-- `&` with `a | b` lies between its larger part and the sum of both.
and_or_below :
    (n x a b : ℕ)
    → x < n
    → (bit_and x (bit_or a b) ≤ bit_and x a + bit_and x b)
      × (bit_and x a ≤ bit_and x (bit_or a b))
      × (bit_and x b ≤ bit_and x (bit_or a b))
and_or_below zero x a b h = absurd (omega arith)
and_or_below (suc n) zero a b h = (
  omega (arith, and_left_zero (bit_or a b)),
  omega (arith, and_left_zero a),
  omega (arith, and_left_zero b),
)
and_or_below (suc n) (suc x) a b h =
    let (sum, left, right) = and_or_below n (suc x / 2) (a / 2) (b / 2) (omega arith) in
    let union : bit_and (suc x) (bit_or a b)
        ≡ bit_and (suc x / 2) (bit_or (a / 2) (b / 2)) * 2 + min (suc x % 2) (max (a % 2) (b % 2)) =
      and_step (suc x) (bit_or a b)
      ∙ ap₂ (λ q r. bit_and (suc x / 2) q * 2 + min (suc x % 2) r) (omega (arith, or_step a b))
          (omega (arith, or_step a b)) in
    (
      omega (arith, union, and_step (suc x) a, and_step (suc x) b, sum),
      omega (arith, union, and_step (suc x) a, left),
      omega (arith, union, and_step (suc x) b, right),
    )

-- `x & (a | b)` is 0 exactly if `x & a` and `x & b` are.
pub and_or-zero :
    (x a b : ℕ) → (bit_and x (bit_or a b) == 0) ≡ ((bit_and x a == 0) && (bit_and x b == 0))
and_or-zero x a b =
    let (sum, left, right) = and_or_below (suc x) x a b (omega arith) in ground arith
