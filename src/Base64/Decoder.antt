-- ===== src/Base64/Decoder.antt =====
-- A decoder for the alphabet of RFC 4648, and that it reads what base64.c writes.
use mathlib.Core.Option
use optee_ra_fork.Base.{
  ℕ, ◌+◌, ◌-◌, ◌*◌, ◌/◌, ◌%◌, ◌^◌, ◌<◌, ◌≡◌, ◌≢◌, refl, ap, ap₂, ◌∙◌, arith, Bool, true, false,
  ◌&&◌, Option, none, some, [], ◌∷◌, ◌++◌, leb, ◌==◌, ==→eq, all_below, all_below_sound, Bool-cases,
  inl, inr, sym, if◌then◌else◌, get_or, Bytes, All, IsByte,
}
use optee_ra_fork.Base64.{table, pad, group, digit, quad, encode_loop}
use optee_ra_fork.Base64.Bits.{group_three, group_two, group_one, digit_lem}

-- The value of a character of the alphabet, by its ranges A-Z, a-z, 0-9 and the two last.
unfoldable pub value : ℕ → Option ℕ
value c =
    if leb b'A' c && leb c b'Z'
    then some (c - b'A')
    else if leb b'a' c && leb c b'z'
    then some (c - b'a' + 26)
    else if leb b'0' c && leb c b'9'
    then some (c - b'0' + 52)
    else if c == b'+'
    then some 62
    else if c == b'/'
    then some 63
    else none

unfoldable pub join : Option ℕ → Option ℕ → Option ℕ → Option ℕ → Option ℕ
join (some a) (some b) (some c) (some d) = some (((a * 64 + b) * 64 + c) * 64 + d)
join a b c d = none

unfoldable pub decode_full : ℕ → ℕ → ℕ → ℕ → Option Bytes
unfolding join
decode_full a b c d =
    Option.map (λ n. n / 65536 ∷ n / 256 % 256 ∷ n % 256 ∷ [])
      (join (value a) (value b) (value c) (value d))

-- Padding is accepted in the last group only.
unfoldable pub decode_last : ℕ → ℕ → ℕ → ℕ → Option Bytes
unfolding decode_full join
decode_last a b c d =
    if d == pad
    then if c == pad
      then Option.map (λ n. n / 65536 ∷ []) (join (value a) (value b) (some 0) (some 0))
      else Option.map (λ n. n / 65536 ∷ n / 256 % 256 ∷ [])
          (join (value a) (value b) (value c) (some 0))
    else decode_full a b c d

unfoldable pub prepend : Option Bytes → Option Bytes → Option Bytes
prepend (some xs) (some ys) = some (xs ++ ys)
prepend xs ys = none

unfoldable pub decode : Bytes → Option Bytes
unfolding decode_last prepend
decode [] = some []
decode (a ∷ b ∷ c ∷ d ∷ []) = decode_last a b c d
decode (a ∷ b ∷ c ∷ d ∷ e ∷ rest) = prepend (decode_full a b c d) (decode (e ∷ rest))
decode (a ∷ []) = none
decode (a ∷ b ∷ []) = none
decode (a ∷ b ∷ c ∷ []) = none

-- Each of the 64 characters has its index as its value.
is_at : ℕ → Option ℕ → Bool
is_at s none = false
is_at s (some v) = v == s

is_at→eq : (s : ℕ) (o : Option ℕ) → is_at s o ≡ true → o ≡ some s
unfolding is_at
is_at→eq s none h = cc
is_at→eq s (some v) h = ap some (==→eq v s h)

value-table : (s : ℕ) → s < 64 → value (get_or table s 0) ≡ some s
unfolding all_below is_at value
value-table s h =
    is_at→eq s _ (all_below_sound 64 (λ i. is_at i (value (get_or table i 0))) s refl h)

value-digit : (g k : ℕ) → value (digit g k) ≡ some (g / 2 ^ k % 64)
value-digit g k = rw digit_lem (value-table (g / 2 ^ k % 64) (omega arith))

value-pad : value pad ≡ none
unfolding value
value-pad = refl

digit-ne-pad : (g k : ℕ) → (digit g k == pad) ≡ false
digit-ne-pad g k = elim (Bool-cases (digit g k == pad)) [
  | inl e ↦ cc (sym (value-digit g k) ∙ ap value (==→eq _ _ e) ∙ value-pad)
  | inr e ↦ e
]

-- One group of each length.
decode_full-digits :
    (g x y z : ℕ)
    → g ≡ (x * 256 + y) * 256 + z
    → x < 256
    → y < 256
    → z < 256
    → decode_full (digit g 18) (digit g 12) (digit g 6) (digit g 0) ≡ some (x ∷ y ∷ z ∷ [])
unfolding decode_full
decode_full-digits g x y z e hx hy hz =
    rw (value-digit g 18, value-digit g 12, value-digit g 6, value-digit g 0) (ground arith)

decode_last-full : (g a b c : ℕ) → decode_last a b c (digit g 0) ≡ decode_full a b c (digit g 0)
unfolding decode_last
decode_last-full g a b c = rw (digit-ne-pad g 0)

decode_last-two :
    (g x y : ℕ)
    → g ≡ (x * 256 + y) * 256
    → x < 256
    → y < 256
    → decode_last (digit g 18) (digit g 12) (digit g 6) pad ≡ some (x ∷ y ∷ [])
unfolding decode_last
decode_last-two g x y e hx hy =
    rw (digit-ne-pad g 6, value-digit g 18, value-digit g 12, value-digit g 6) (ground arith)

decode_last-one :
    (g x : ℕ)
    → g ≡ x * 256 * 256
    → x < 256
    → decode_last (digit g 18) (digit g 12) pad pad ≡ some (x ∷ [])
unfolding decode_last
decode_last-one g x e hx = rw (value-digit g 18, value-digit g 12) (ground arith)

decode-cons :
    (a b c d : ℕ) (tail : Bytes)
    → tail ≢ []
    → decode (a ∷ b ∷ c ∷ d ∷ tail) ≡ prepend (decode_full a b c d) (decode tail)
unfolding decode
decode-cons a b c d [] h = absurd (h refl)
decode-cons a b c d (e ∷ tail) h = refl

encode_loop-ne-nil : (x : ℕ) (rest : Bytes) → encode_loop (x ∷ rest) ≢ []
unfolding encode_loop quad
encode_loop-ne-nil x [] e = cc
encode_loop-ne-nil x (y ∷ []) e = cc
encode_loop-ne-nil x (y ∷ z ∷ rest) e = cc

pub decode-encode_loop :
    (input : Bytes) → All IsByte input → decode (encode_loop input) ≡ some input
unfolding encode_loop quad decode
decode-encode_loop [] h = refl
decode-encode_loop (x ∷ []) h = decode_last-one _ x (group_one x h.0) h.0
decode-encode_loop (x ∷ y ∷ []) h = decode_last-two _ x y (group_two x y h.0 h.1.0) h.0 h.1.0
decode-encode_loop (x ∷ y ∷ z ∷ []) h =
    decode_last-full (group x (some y) (some z)) _ _ _
    ∙ decode_full-digits _ x y z (group_three x y z h.0 h.1.0 h.1.1.0) h.0 h.1.0 h.1.1.0
decode-encode_loop (x ∷ y ∷ z ∷ u ∷ rest) h =
    decode-cons _ _ _ _ (encode_loop (u ∷ rest)) (encode_loop-ne-nil u rest)
    ∙ ap₂ prepend
        (decode_full-digits _ x y z (group_three x y z h.0 h.1.0 h.1.1.0) h.0 h.1.0 h.1.1.0)
        (decode-encode_loop (u ∷ rest) h.1.1.1)
