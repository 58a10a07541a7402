-- ===== src/Base64.antt =====
-- The encoder of pta_remote_attestation/remote_attestation/base64.c. A `char` is its code.
mod Bits
pub mod Decoder
pub mod RoundTrip
use optee_ra_fork.Base.{
  ℕ, ◌+◌, ◌*◌, ◌/◌, ◌%◌, ◌^◌, bit_and, bit_or, Option, none, some, List, [], ◌∷◌, ◌++◌, ltb,
  if◌then◌else◌, length, drop, get_or, Bytes, codes,
}

-- `base64_table`
abbrev pub table : Bytes
table = codes "ABCDEFGHIJKLMNOPQRSTUVWXYZabcdefghijklmnopqrstuvwxyz0123456789+/"

abbrev pub pad : ℕ
pad = b'='

-- `base64_enc_len` on a 64-bit size_t.
unfoldable pub enc_len : ℕ → ℕ
enc_len size = (4 * ((size + 2) % 2 ^ 64 / 3) % 2 ^ 64 + 1) % 2 ^ 64

-- `igrp` after the first lines of the loop body; `none` where the input has ended.
unfoldable pub group : ℕ → Option ℕ → Option ℕ → ℕ
group d0 d1 d2 = or_byte (or_byte d0 d1) d2
  where
    or_byte : ℕ → Option ℕ → ℕ
    or_byte igrp none = igrp * 2 ^ 8 % 2 ^ 32
    or_byte igrp (some d) = bit_or (igrp * 2 ^ 8 % 2 ^ 32) d

-- `base64_table[(igrp >> shift) & 0x3f]`
unfoldable pub digit : ℕ → ℕ → ℕ
digit igrp shift = get_or table (bit_and (igrp / 2 ^ shift) 0x3f) 0

-- The four characters of one round of the loop.
unfoldable pub quad : ℕ → Option ℕ → Option ℕ → Bytes
unfolding digit
quad d0 d1 d2 =
    digit igrp 18
    ∷ digit igrp 12
    ∷ unless_ended d1 (digit igrp 6)
    ∷ unless_ended d2 (digit igrp 0)
    ∷ []
  where
    igrp : ℕ
    igrp = group d0 d1 d2

    unless_ended : Option ℕ → ℕ → ℕ
    unless_ended none c = pad
    unless_ended (some d) c = c

-- The rounds of the loop; the list is `d[n .. inlen)`.
unfoldable pub encode_loop : Bytes → Bytes
encode_loop [] = []
encode_loop (x ∷ []) = quad x none none
encode_loop (x ∷ y ∷ []) = quad x (some y) none
encode_loop (x ∷ y ∷ z ∷ rest) = quad x (some y) (some z) ++ encode_loop rest

-- The return value, `out` and `*outlen` afterwards.
pub record Encoded : Type 0 where
  pub status : ℕ
  pub out : Bytes
  pub outlen : ℕ

-- `out` when the characters `text` and a NUL have been written at its start.
abbrev pub written_bytes : Bytes → Bytes → Bytes
written_bytes text out = (text ++ (0 ∷ [])) ++ drop (length (text ++ (0 ∷ []))) out

unfoldable pub written : Bytes → Bytes → Encoded
written text out = record {
  status = 1;
  out = written_bytes text out;
  outlen = length (text ++ (0 ∷ []));
}

unfoldable pub encode : Bytes → Bytes → ℕ → Encoded
encode input out outlen =
    if ltb outlen (enc_len (length input))
    then record { status = 0; out = out; outlen = enc_len (length input) }
    else written (encode_loop input) out
