-- ===== src/Crypto.antt =====
-- The crypto calls that the attestation code makes, crypto_hash_* and crypto_acipher_*, which are
-- OP-TEE core code. A hash context is the message hashed so far; `sha256` is the hash function, a
-- parameter. Any of these calls can fail, as the environment answers.
pub mod Rules
use optee_ra_fork.Base.{ℕ, ◌++◌, [], Bytes}
use optee_ra_fork.Tee.{Act, Error, Env, call, pure, ◌>>=◌, ◌>>◌, holding}
use optee_ra_fork.Tee.Resources.{hash_ctx}

-- TEE_SHA256_HASH_SIZE
abbrev pub hash_size : ℕ
hash_size = 32

unfoldable pub hash_init : Act Bytes
hash_init = call >> pure []

unfoldable pub hash_update : Bytes → Bytes → Act Bytes
hash_update message part = call >> pure (message ++ part)

unfoldable pub hash_final : (Bytes → Bytes) → Bytes → Act Bytes
hash_final sha256 message = call >> pure (sha256 message)

-- Allocate a hash context, run the body, and free the context on every path.
unfoldable pub with_hash_ctx : {A : Type 0} → Act A → Act A
with_hash_ctx body = call >> holding hash_ctx body
