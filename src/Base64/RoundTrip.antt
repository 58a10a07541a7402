-- ===== src/Base64/RoundTrip.antt =====
-- The sizes and the result of `base64_encode` of base64.c, against a decoder.
use optee_ra_fork.Base64.Decoder.{decode, decode-encode_loop}
use optee_ra_fork.Base.{
  ℕ, ◌+◌, ◌-◌, ◌*◌, ◌/◌, ◌^◌, ◌<◌, ◌≤◌, ◌≡◌, refl, arith, some, [], ◌∷◌, ◌++◌, length,
  length-append, drop, take, take-append, drop-append, get_or-append, length-drop, lt→ltb, le→ltb,
  get_or, Bytes, All, IsByte, append_assoc,
}
use optee_ra_fork.Base64.{quad, enc_len, encode_loop, encode, written, written_bytes, Encoded}

length-encode_loop : (input : Bytes) → length (encode_loop input) ≡ (length input + 2) / 3 * 4
unfolding encode_loop quad
length-encode_loop [] = refl
length-encode_loop (x ∷ []) = refl
length-encode_loop (x ∷ y ∷ []) = refl
length-encode_loop (x ∷ y ∷ z ∷ rest) = omega (arith, length-encode_loop rest)

-- `base64_enc_len` is the exact size of the NUL-terminated result.
pub enc_len-eq :
    (input : Bytes)
    → length input < 2 ^ 62
    → enc_len (length input) ≡ length (encode_loop input) + 1
unfolding enc_len
enc_len-eq input h = omega (arith, length-encode_loop input)

-- `base64_encode` with less room than the NUL-terminated result needs returns 0, leaves the buffer
-- as it was and sets `*outlen` to the size that is needed.
pub encode-short :
    (input out : Bytes) (outlen : ℕ)
    → length input < 2 ^ 62
    → outlen ≤ (length input + 2) / 3 * 4
    → encode input out outlen
      ≡ record { status = 0; out = out; outlen = (length input + 2) / 3 * 4 + 1 }
unfolding encode
encode-short input out outlen small short =
    let size : enc_len (length input) ≡ (length input + 2) / 3 * 4 + 1 =
      omega (arith, enc_len-eq input small, length-encode_loop input) in
    rw (size, lt→ltb outlen ((length input + 2) / 3 * 4 + 1) (omega arith))

-- With room the text is written, and `*outlen` is its size.
pub encode-fits :
    (input out : Bytes) (outlen : ℕ)
    → length input < 2 ^ 62
    → (length input + 2) / 3 * 4 < outlen
    → ((encode input out outlen).status ≡ 1)
      × ((encode input out outlen).outlen ≡ (length input + 2) / 3 * 4 + 1)
unfolding encode written
encode-fits input out outlen small fits =
    let size : enc_len (length input) ≡ (length input + 2) / 3 * 4 + 1 =
      omega (arith, enc_len-eq input small, length-encode_loop input) in
    rw (size, le→ltb outlen ((length input + 2) / 3 * 4 + 1) (omega arith))
      (refl, omega (arith, length-append (encode_loop input) (0 ∷ []), length-encode_loop input))

-- What the caller finds after a successful call: the size of the text in `*outlen`, in a buffer of
-- the same size the text and its NUL, and behind them the bytes that were there.
abbrev pub Decodes : Bytes → Bytes → Encoded → Type 0
Decodes input out r =
    (r.status ≡ 1)
    × (r.outlen ≡ (length input + 2) / 3 * 4 + 1)
    × (length r.out ≡ length out)
    × (decode (take (r.outlen - 1) r.out) ≡ some input)
    × (get_or r.out (r.outlen - 1) 1 ≡ 0)
    × (drop r.outlen r.out ≡ drop r.outlen out)

-- The branch that writes, for the characters `text`.
written-Decodes :
    (input out text : Bytes)
    → decode text ≡ some input
    → length text ≡ (length input + 2) / 3 * 4
    → length text + 1 ≤ length out
    → Decodes input out (written text out)
unfolding written
written-Decodes input out text good size fits =
    let n : length (text ++ 0 ∷ []) ≡ length text + 1 = length-append text (0 ∷ []) in
    let rest : Bytes = drop (length (text ++ 0 ∷ [])) out in
    let split : written_bytes text out ≡ text ++ 0 ∷ rest = append_assoc text (0 ∷ []) rest in
    let before : length (text ++ 0 ∷ []) - 1 ≡ length text = omega (arith, n) in
    (
      refl,
      omega (arith, n, size),
      omega (
        arith,
        n,
        length-append (text ++ 0 ∷ []) rest,
        length-drop (length (text ++ 0 ∷ [])) out,
      ),
      rw (before, split, take-append text (0 ∷ rest)) good,
      rw (before, split) (get_or-append text 0 rest 1),
      drop-append (text ++ 0 ∷ []) rest,
    )

-- `base64_encode` with room for the NUL-terminated result, in a buffer of at least `*outlen` bytes,
-- returns 1 and sets `*outlen` to the exact size; a decoder of the RFC 4648 alphabet reads the input
-- back from the characters before the NUL, and no byte behind the NUL is changed.
pub encode-Decodes :
    (input out : Bytes) (outlen : ℕ)
    → All IsByte input
    → length input < 2 ^ 62
    → (length input + 2) / 3 * 4 < outlen
    → outlen ≤ length out
    → Decodes input out (encode input out outlen)
unfolding encode
encode-Decodes input out outlen bytes small fits room =
    let size : enc_len (length input) ≡ (length input + 2) / 3 * 4 + 1 =
      omega (arith, enc_len-eq input small, length-encode_loop input) in
    rw (size, le→ltb outlen ((length input + 2) / 3 * 4 + 1) (omega arith))
      (written-Decodes input out (encode_loop input) (decode-encode_loop input bytes)
        (length-encode_loop input) (omega (arith, length-encode_loop input)))
