-- ===== src/Host/Hex.antt =====
-- About the hexadecimal text of attester/remote_attestation/host/main.c.
use optee_ra_fork.Base.{
  ℕ, ◌*◌, ◌/◌, ◌%◌, ◌<◌, arith, ◌≡◌, refl, ap, true, false, some, [], ◌∷◌, ◌==◌, ◌||◌, Bytes,
  length, All, IsByte,
}
use optee_ra_fork.Host.{
  hex_value, join, prepend, parse_pairs, skip_prefix, parse_hex, hex_digit, hex_text,
}

hex_value-hex_digit : (n : ℕ) → n < 16 → hex_value (hex_digit n) ≡ some n
unfolding hex_value hex_digit
hex_value-hex_digit n h = ground arith

parse_pairs-hex_text :
    (bytes : Bytes) → All IsByte bytes → parse_pairs (hex_text bytes) ≡ some bytes
unfolding parse_pairs hex_text join prepend
parse_pairs-hex_text [] h = refl
parse_pairs-hex_text (b ∷ rest) h =
    rw
      (
        hex_value-hex_digit (b / 16) (omega (arith, h.0)),
        hex_value-hex_digit (b % 16) (omega arith),
        parse_pairs-hex_text rest h.1,
      )
      (ap (λ k. some (k ∷ rest)) (omega (arith, h.0)))

length-hex_text : (bytes : Bytes) → length (hex_text bytes) ≡ length bytes * 2
unfolding hex_text
length-hex_text [] = refl
length-hex_text (b ∷ rest) = omega (arith, length-hex_text rest)

not_x : (n : ℕ) → n < 16 → (hex_digit n == 0x78 || hex_digit n == 0x58) ≡ false
unfolding hex_digit
not_x n h = ground arith

skip_prefix-hex_text : (bytes : Bytes) → skip_prefix (hex_text bytes) ≡ hex_text bytes
unfolding skip_prefix hex_text
skip_prefix-hex_text [] = refl
skip_prefix-hex_text (b ∷ rest) = rw (not_x (b % 16) (omega arith)) (ground arith)

-- `parse_hex` reads back what `print_binary_in_hex` printed, whatever the bytes, if its buffer can be
-- allocated.
pub parse_hex-hex_text :
    (bytes : Bytes) → All IsByte bytes → parse_hex true (hex_text bytes) ≡ some bytes
unfolding parse_hex
parse_hex-hex_text bytes h =
    rw (skip_prefix-hex_text bytes, length-hex_text bytes)
      (rw (even (length bytes)) (parse_pairs-hex_text bytes h))
  where
    even : (n : ℕ) → (n * 2 % 2 == 0) ≡ true
    even n = ground arith
