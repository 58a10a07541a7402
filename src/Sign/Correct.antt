-- ===== src/Sign/Correct.antt =====
-- About the signatures, the instance id and the allocations of sign.c.
use optee_ra_fork.Base.{
  ℕ, zero, suc, arith, ◌≡◌, refl, ap₂, ◌∙◌, ◌++◌, ◌∷◌, ◌⊎◌, inl, inr, true, false, Bool-cases,
  Option, none, some, Bytes, take,
}
use optee_ra_fork.Tee.{Act, Env, St, Error}
use optee_ra_fork.Tee.Rules.{
  Ensures, Outcome, failed, Ensures-pure, Ensures-bind, Ensures-then, Ensures-holding,
  Ensures-fresh, Ensures-mono, Ensures-perf_now, Ensures-perf_stop,
}
use optee_ra_fork.Tee.Answers.{Answers, Ensures-call}
use optee_ra_fork.Tee.Resources.{keypair, block, Kept-refl, leak-one}
use optee_ra_fork.Crypto.Rules.{
  Ensures-hash_init, Ensures-hash_update, Ensures-hash_final, Ensures-with_hash_ctx,
}
use optee_ra_fork.Sign.{
  private_key, private_bytes, hash_sha256, compute_instance_id, ecc_sign, sign_with_key,
  sign_ecdsa_sha256, with_keypair, key_size,
}

-- The key that signs: the bytes of the external key if it has any, else the embedded key.
unfoldable pub signing_key : Option Bytes → ℕ → Bytes
signing_key none key_len = private_key
signing_key (some key) zero = private_key
signing_key (some key) (suc n) = take (suc n) key

private_bytes-signing_key :
    (key : Option Bytes) (key_len : ℕ) → private_bytes key key_len ≡ signing_key key key_len
unfolding private_bytes signing_key
private_bytes-signing_key none key_len = refl
private_bytes-signing_key (some key) zero = refl
private_bytes-signing_key (some key) (suc n) = ground arith

-- A signature over `msg`: made with some randomness, by the external key if it has any bytes and by the
-- embedded one if not, over the digest of the message.
abbrev pub IsSignature :
    (Bytes → Bytes) → (ℕ → Bytes → Bytes → Bytes) → Bytes → Option Bytes → ℕ → Bytes → Type 0
IsSignature sha256 ecdsa msg key key_len sig =
    (seed : ℕ) × (sig ≡ ecdsa seed (signing_key key key_len) (sha256 msg))

module _ {env : Env} {L : Type 0} {E : Error → Type 0} (answers : Answers env E) where
  module _ (sha256 : Bytes → Bytes) where
    pub Ensures-hash_sha256 :
        (msg : Bytes) → Ensures env L (λ d. d ≡ sha256 msg) E (hash_sha256 sha256 msg)
    unfolding hash_sha256
    Ensures-hash_sha256 msg = Ensures-with_hash_ctx answers (
        Ensures-bind (Ensures-hash_init answers) λ m0 e0.
          Ensures-bind (Ensures-hash_update answers m0 msg)
            λ m1 e1. Ensures-mono (Ensures-hash_final answers sha256 m1) λ d p. rw (p, e1, e0))

    -- `compute_instance_id` passes on an error of the crypto library or returns 0x01 and the digest
    -- of 0x04, X and Y; it frees its hash context either way and loses nothing.
    pub Ensures-compute_instance_id :
        (pub_x pub_y : Bytes)
        → Ensures env L
            (λ id. id ≡ 0x01 ∷ sha256 (0x04 ∷ (take key_size pub_x ++ take key_size pub_y)))
            E
            (compute_instance_id sha256 pub_x pub_y)
    unfolding compute_instance_id
    Ensures-compute_instance_id pub_x pub_y = Ensures-with_hash_ctx answers (
        Ensures-bind (Ensures-hash_init answers) λ m0 e0.
          Ensures-bind (Ensures-hash_update answers m0 _) λ m1 e1.
            Ensures-bind (Ensures-hash_update answers m1 _) λ m2 e2.
              Ensures-bind (Ensures-hash_update answers m2 _) λ m3 e3.
                Ensures-bind (Ensures-hash_final answers sha256 m3)
                  λ d p. Ensures-pure _ (rw (p, e3, e2, e1, e0)))

  -- The block is lost only where the allocation of the bignums fails.
  Ensures-with_keypair :
      {A : Type 0} {P : A → Type 0} {body : Act A}
      → ((n : ℕ) (e : Error) → env.status n ≡ some e → L)
      → Ensures env L P E body
      → Ensures env L P E (with_keypair body)
  unfolding with_keypair
  Ensures-with_keypair {P} {body} may_lose ensured = record {
    run = λ st. go st (Bool-cases (env.malloc_ok st.calls)) (env.status (suc st.calls)) refl;
  }
    where
      go :
          (st : St)
          → (env.malloc_ok st.calls ≡ true) ⊎ (env.malloc_ok st.calls ≡ false)
          → (s : Option Error) → env.status (suc st.calls) ≡ s
          → Outcome st.held L P E (with_keypair body env st)
      go st (inl q) none r =
          rw (q, r, with_keypair)
            ((Ensures-holding block (Ensures-holding keypair ensured)).run
              (record st { calls = suc (suc st.calls) }))
      go st (inl q) (some e) r =
          rw (q, r, with_keypair)
            (failed (answers.status_errors (suc st.calls) e r) (record {
              lost = 1;
              same = leak-one st.held;
              allowed = inr (may_lose (suc st.calls) e r);
            }))
      go st (inr q) s r =
          rw (q, with_keypair) (failed (answers.malloc_errors st.calls q) (Kept-refl st.held))

  module _ (sha256 : Bytes → Bytes) (ecdsa : ℕ → Bytes → Bytes → Bytes) where
    Ensures-ecc_sign :
        (d digest : Bytes)
        → Ensures env L
            (λ sig. (seed : ℕ) × (sig ≡ ecdsa seed d digest))
            E
            (ecc_sign sha256 ecdsa d digest)
    unfolding ecc_sign
    Ensures-ecc_sign d digest =
        Ensures-then (Ensures-call answers)
          (Ensures-bind Ensures-fresh λ seed u. Ensures-pure _ (seed, refl))

    -- `sign_ecdsa_sha256` passes on an error or returns such a signature. It holds what it held
    -- before, but for the block of `key`, which can be lost if a call fails.
    pub Ensures-sign_ecdsa_sha256 :
        (msg : Bytes) (key : Option Bytes) (key_len : ℕ)
        → ((n : ℕ) (e : Error) → env.status n ≡ some e → L)
        → Ensures env L
            (IsSignature sha256 ecdsa msg key key_len)
            E
            (sign_ecdsa_sha256 sha256 ecdsa msg key key_len)
    unfolding sign_ecdsa_sha256 sign_with_key
    Ensures-sign_ecdsa_sha256 msg key key_len may_lose = Ensures-bind Ensures-perf_now λ t u.
        Ensures-with_keypair may_lose (
          Ensures-then (Ensures-call answers) (
            Ensures-then (Ensures-perf_stop _ _ _) (
              Ensures-bind Ensures-perf_now λ t1 u1.
                Ensures-bind (Ensures-hash_sha256 sha256 msg) λ digest e.
                  Ensures-then (Ensures-perf_stop _ _ _) (
                    Ensures-bind Ensures-perf_now λ t2 u2.
                      Ensures-bind (Ensures-ecc_sign _ digest) λ sig (seed, q).
                        Ensures-then (Ensures-perf_stop _ _ _) (
                          Ensures-pure _ (
                            seed,
                            q ∙ ap₂ (ecdsa seed) (private_bytes-signing_key key key_len) e,
                          ))))))
