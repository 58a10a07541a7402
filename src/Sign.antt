-- ===== src/Sign.antt =====
-- The signing functions of pta_remote_attestation/remote_attestation/sign.c. The bignums of an
-- ecc_keypair are byte strings; `ecdsa` is crypto_acipher_ecc_sign, a function of fresh randomness,
-- the private key and the digest.
pub mod Correct
use optee_ra_fork.Base.{
  ℕ, suc, ◌*◌, Bool, true, false, Option, none, some, List, [], ◌∷◌, ◌++◌, ltb, ◌==◌, if◌then◌else◌,
  Bytes, length, take,
}
use optee_ra_fork.Perf.{keymode, sign_key_setup, sign_tbs_hash, sign_ecdsa as sign_ecdsa_event}
use optee_ra_fork.Tee.{
  Act, Error, err, out_of_memory, acquire, pure, ◌>>=◌, ◌>>◌, call, fresh, holding, with_block,
  load, perf_now, perf_stop,
}
use optee_ra_fork.Tee.Resources.{keypair, block}
use optee_ra_fork.Crypto.{hash_init, hash_update, hash_final, with_hash_ctx}

abbrev pub key_size : ℕ
key_size = 32

abbrev pub public_key_x : Bytes
public_key_x =
    0x30 ∷ 0xa0 ∷ 0x42 ∷ 0x4c ∷ 0xd2 ∷ 0x1c ∷ 0x29 ∷ 0x44 ∷ 0x83 ∷ 0x8a ∷ 0x2d ∷ 0x75 ∷ 0xc9 ∷ 0x2b
    ∷ 0x37 ∷ 0xe7 ∷ 0x6e ∷ 0xa2 ∷ 0x0d ∷ 0x9f ∷ 0x00 ∷ 0x89 ∷ 0x3a ∷ 0x3b ∷ 0x4e ∷ 0xee ∷ 0x8a
    ∷ 0x3c ∷ 0x0a ∷ 0xaf ∷ 0xec ∷ 0x3e ∷ []

abbrev pub public_key_y : Bytes
public_key_y =
    0xe0 ∷ 0x4b ∷ 0x65 ∷ 0xe9 ∷ 0x24 ∷ 0x56 ∷ 0xd9 ∷ 0x88 ∷ 0x8b ∷ 0x52 ∷ 0xb3 ∷ 0x79 ∷ 0xbd ∷ 0xfb
    ∷ 0xd5 ∷ 0x1e ∷ 0xe8 ∷ 0x69 ∷ 0xef ∷ 0x1f ∷ 0x0f ∷ 0xc6 ∷ 0x5b ∷ 0x66 ∷ 0x59 ∷ 0x69 ∷ 0x5b
    ∷ 0x6c ∷ 0xce ∷ 0x08 ∷ 0x17 ∷ 0x23 ∷ []

abbrev pub private_key : Bytes
private_key =
    0xf3 ∷ 0xbd ∷ 0x0c ∷ 0x07 ∷ 0xa8 ∷ 0x1f ∷ 0xb9 ∷ 0x32 ∷ 0x78 ∷ 0x1e ∷ 0xd5 ∷ 0x27 ∷ 0x52 ∷ 0xf6
    ∷ 0x0c ∷ 0xc8 ∷ 0x9a ∷ 0x6b ∷ 0xe5 ∷ 0xe5 ∷ 0x19 ∷ 0x34 ∷ 0xfe ∷ 0x01 ∷ 0x93 ∷ 0x8d ∷ 0xdb
    ∷ 0x55 ∷ 0xd8 ∷ 0xf7 ∷ 0x78 ∷ 0x01 ∷ []

-- The bytes that go into the private bignum: the external key if there is one, else the embedded.
unfoldable pub private_bytes : Option Bytes → ℕ → Bytes
private_bytes none key_len = private_key
private_bytes (some key) key_len = if ltb 0 key_len then take key_len key else private_key

-- `key = calloc(...)` and `crypto_acipher_alloc_ecc_keypair(key, ...)`, then the body and
-- `free_keypair(key)`, which frees the bignums and the block. Where the bignums cannot be allocated
-- the code jumps to `out`, past the label free_key, and the block is not freed.
unfoldable pub with_keypair : {A : Type 0} → Act A → Act A
unfolding holding
with_keypair body env st =
    let st' = record st { calls = suc st.calls } in
    if env.malloc_ok st.calls
    then elim (env.status (suc st.calls)) [
      | none ↦ holding block (holding keypair body) env (record st { calls = suc (suc st.calls) })
      | some e ↦ (err e, acquire block (record st { calls = suc (suc st.calls) }))
    ]
    else (err out_of_memory, st')

module _ (sha256 : Bytes → Bytes) where
  -- Shared by `hash_sha256` of sign.c and the digest that `derive_client_id` takes.
  unfoldable pub hash_sha256 : Bytes → Act Bytes
  hash_sha256 msg = with_hash_ctx do m0 ← hash_init; m1 ← hash_update m0 msg; hash_final sha256 m1

  -- The bytes of `instance_id` on success.
  unfoldable pub compute_instance_id : Bytes → Bytes → Act Bytes
  compute_instance_id pub_x pub_y = with_hash_ctx do
    m0 ← hash_init
    m1 ← hash_update m0 (0x04 ∷ [])
    m2 ← hash_update m1 (take key_size pub_x)
    m3 ← hash_update m2 (take key_size pub_y)
    digest ← hash_final sha256 m3
    pure (0x01 ∷ digest)

  module _ (ecdsa : ℕ → Bytes → Bytes → Bytes) where
    -- `crypto_acipher_ecc_sign`
    unfoldable pub ecc_sign : Bytes → Bytes → Act Bytes
    ecc_sign d digest = do call; seed ← fresh; pure (ecdsa seed d digest)

    -- From the key pair's allocation to the label free_key, with its bignums held.
    unfoldable pub sign_with_key : Bytes → Option Bytes → ℕ → ℕ → Act Bytes
    sign_with_key msg key key_len t = do
      call
      let d = private_bytes key key_len
      perf_stop t sign_key_setup (keymode key key_len)
      t ← perf_now
      hash_msg ← hash_sha256 msg
      perf_stop t sign_tbs_hash (keymode key key_len)
      t ← perf_now
      sig ← ecc_sign d hash_msg
      perf_stop t sign_ecdsa_event (keymode key key_len)
      pure sig

    unfoldable pub sign_ecdsa_sha256 : Bytes → Option Bytes → ℕ → Act Bytes
    unfolding with_keypair
    sign_ecdsa_sha256 msg key key_len = do
      t ← perf_now
      with_keypair (sign_with_key msg key key_len t)

-- The public half of the embedded key: the two coordinates.
unfoldable pub get_test_key_pubkey : Act (Bytes × Bytes)
get_test_key_pubkey = pure (take key_size public_key_x, take key_size public_key_y)
