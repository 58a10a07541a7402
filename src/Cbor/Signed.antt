-- ===== src/Cbor/Signed.antt =====
-- About `generate_cose` of cbor.c and the reasons for its NULL.
use mathlib.Core.Option
use optee_ra_fork.Base.{
  ℕ, Option, none, some, List, [], Bytes, ◌≡◌, refl, ◌⊎◌, inl, inr, ◌≤◌, ◌<◌, length,
}
use optee_ra_fork.Tee.{Env, Error, out_of_memory}
use optee_ra_fork.Tee.Rules.{
  Ensures, Maybe, Ensures-pure, Ensures-bind, Ensures-attempt, Ensures-with_two_blocks,
}
use optee_ra_fork.Tee.Answers.{Answers}
use optee_ra_fork.Sign.Correct.{IsSignature, Ensures-sign_ecdsa_sha256}
use optee_ra_fork.Cbor.{
  Call, encode_protected_parameter, create_tbs, sign_payload, finish_cose, generate_cose,
}
use optee_ra_fork.Cbor.Item.{Item}
use optee_ra_fork.Cbor.Cose.{
  Encodes, encode-cases, protected_item, sig_structure, cose_sign1, protected_calls-Describes,
  tbs_calls-Describes, cose_calls-Describes,
}

module _ (cbor : Item → Bytes) (sha256 : Bytes → Bytes) (ecdsa : ℕ → Bytes → Bytes → Bytes) where
  abbrev pub protected_bytes : Bytes
  protected_bytes = cbor protected_item

  -- The bytes that are signed.
  abbrev pub to_be_signed : Bytes → Bytes
  to_be_signed evidence = cbor (sig_structure protected_bytes [] evidence)

  abbrev pub cose_bytes : Bytes → Bytes → Bytes
  cose_bytes evidence signature = cbor (cose_sign1 protected_bytes evidence signature)

  -- A signed message over `evidence` that fits into `size` bytes.
  abbrev pub IsCose : Bytes → ℕ → Option Bytes → ℕ → Bytes → Type 0
  IsCose evidence size key key_len out =
      (signature : Bytes) × IsSignature sha256 ecdsa (to_be_signed evidence) key key_len signature
      × (out ≡ cose_bytes evidence signature)
      × (length out ≤ size)

  -- One of the three encodings does not fit into its buffer.
  abbrev pub TooBig : Bytes → ℕ → Option Bytes → ℕ → Type 0
  TooBig evidence size key key_len =
      (256 < length protected_bytes)
      ⊎ (512 < length (to_be_signed evidence))
      ⊎ ((signature : Bytes) × IsSignature sha256 ecdsa (to_be_signed evidence) key key_len
            signature
          × (size < length (cose_bytes evidence signature)))

  -- Why there is no message: an error of `E`, or a size.
  abbrev pub NoCose : (Error → Type 0) → Bytes → ℕ → Option Bytes → ℕ → Type 0
  NoCose E evidence size key key_len = ((e : Error) × E e) ⊎ TooBig evidence size key key_len

  -- What `sign_payload` returns.
  Signed : Bytes → Option Bytes → ℕ → Bytes × Bytes → Type 0
  Signed evidence key key_len (protected, signature) =
      (protected ≡ protected_bytes)
      × IsSignature sha256 ecdsa (to_be_signed evidence) key key_len signature

  keep_protected :
      (F : Error → Type 0) (evidence : Bytes) (size : ℕ) (key : Option Bytes) (key_len : ℕ)
      (signed : Option Bytes)
      → Maybe
          (IsSignature sha256 ecdsa (to_be_signed evidence) key key_len)
          ((e : Error) × F e)
          signed
      → Maybe
          (Signed evidence key key_len)
          (NoCose F evidence size key key_len)
          (Option.map (λ signature. (protected_bytes, signature)) signed)
  unfolding Signed
  keep_protected F evidence size key key_len none why = inl why
  keep_protected F evidence size key key_len (some s) is = (refl, is)

  module _ {encode : ℕ → List Call → Option Bytes} (laws : Encodes encode cbor) where
    finish_cose-cases :
        (E : Error → Type 0) (evidence : Bytes) (size : ℕ) (key : Option Bytes) (key_len : ℕ)
        (signed : Option (Bytes × Bytes))
        → Maybe (Signed evidence key key_len) (NoCose E evidence size key key_len) signed
        → Maybe
            (IsCose evidence size key key_len)
            (NoCose E evidence size key key_len)
            (finish_cose encode evidence size signed)
    unfolding finish_cose Signed
    finish_cose-cases E evidence size key key_len none why = why
    finish_cose-cases E evidence size key key_len (some (protected, signature)) (e, is) =
        rw e
          (elim (encode-cases laws size _ _
            (cose_calls-Describes protected_bytes evidence signature)) [
              | inl (r, fits) ↦ rw r (signature, is, refl, fits)
              | inr (r, full) ↦ rw r (inr (inr (inr (signature, is, full))))
            ])

    module _ {env : Env} {L : Type 0} {E F : Error → Type 0} (answers : Answers env F)
        (may_lose : (n : ℕ) (e : Error) → env.status n ≡ some e → L) where
      Ensures-sign_payload :
          (evidence : Bytes) (size : ℕ) (key : Option Bytes) (key_len : ℕ)
          → Ensures env L
              (Maybe (Signed evidence key key_len) (NoCose F evidence size key key_len))
              E
              (sign_payload encode sha256 ecdsa evidence key key_len)
      unfolding sign_payload encode_protected_parameter create_tbs
      Ensures-sign_payload evidence size key key_len =
          elim (encode-cases laws 256 _ _ protected_calls-Describes) [
            | inr (r, full) ↦ rw (r, sign_payload) (Ensures-pure none (inr (inl full)))
            | inl (r, fits) ↦
                elim (encode-cases laws 512 _ _ (tbs_calls-Describes protected_bytes [] evidence)) [
                  | inr (q, full) ↦
                      rw (r, q, sign_payload) (Ensures-pure none (inr (inr (inl full))))
                  | inl (q, fits') ↦
                      rw (r, q, sign_payload)
                        (Ensures-bind
                          (Ensures-attempt
                            (Ensures-sign_ecdsa_sha256 answers sha256 ecdsa _ key key_len may_lose))
                          λ signed why.
                            Ensures-pure _ (keep_protected F evidence size key key_len signed why))
                ]
          ]

      -- With QCBOR as it promises, `generate_cose` never ends in an error of its own: it returns a
      -- message over the evidence, signed and within the buffer, or NULL for one of the reasons. It
      -- frees both work buffers either way; the block of a failed key allocation can be lost.
      pub Ensures-generate_cose :
          (evidence : Bytes) (size : ℕ) (key : Option Bytes) (key_len : ℕ)
          → Ensures env L
              (Maybe (IsCose evidence size key key_len) (NoCose F evidence size key key_len))
              E
              (generate_cose encode sha256 ecdsa evidence size key key_len)
      unfolding generate_cose
      Ensures-generate_cose evidence size key key_len =
          Ensures-bind
            (Ensures-with_two_blocks
              (λ n q. Ensures-pure none (inl (out_of_memory, answers.malloc_errors n q)))
              (Ensures-sign_payload evidence size key key_len))
            λ signed why. Ensures-pure _ (finish_cose-cases F evidence size key key_len signed why)
