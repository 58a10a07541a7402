-- ===== src/Pta.antt =====
-- The command handler of pta_remote_attestation/remote_attestation/remote_attestation.c for
-- GET_CBOR_EVIDENCE. What is configured, and what other code provides, is the record `Platform`.
pub mod Command
pub mod Expected
pub mod Parts
pub mod Buffers
pub mod Tokens
pub mod Evidence
pub mod Caam
use optee_ra_fork.Base.{
  ℕ, zero, suc, ◌+◌, ◌-◌, ◌*◌, ◌/◌, ◌%◌, ◌^◌, bit_and, bit_or, Bool, true, false, Option, none,
  some, List, [], ◌∷◌, ◌++◌, ltb, leb, ◌==◌, ◌||◌, if◌then◌else◌, length, take, get_or, replicate,
  Bytes, codes, ℤ, pos,
}
use optee_ra_fork.Base64
use optee_ra_fork.Perf.{
  keymode, KeyMode, ocotp_srk, ocotp_lifecycle, instance_id, hash_ta, hash_tee, cbor_encode,
}
use optee_ra_fork.Perf.{cose_sign1, cmd_total}
use optee_ra_fork.Tee.{
  Act, Error, bad_parameters, generic, out_of_memory, pure, throw, crash, require,
}
use optee_ra_fork.Tee.{
  ◌>>=◌, ◌>>◌, attempt, finally, with_two_blocks, perf_now, perf_stop, perf_reset, perf_flush,
}
use optee_ra_fork.Crypto.{hash_size}
use optee_ra_fork.Hash.{VmFlags, Region, VmInfo, Core, get_hash_ta_memory, get_hash_tee_memory}
use optee_ra_fork.Ocotp.{read_srk_hash, get_lifecycle}
use optee_ra_fork.Sign.{hash_sha256, compute_instance_id, get_test_key_pubkey}
use optee_ra_fork.Cbor
use optee_ra_fork.Cbor.{SwComponent, encode_evidence_to_cbor, generate_cose}
use optee_ra_fork.Params.{Param, Pointer, buffer_of, size_of, is_null, load_at}

pub record Platform : Type 0 where
  pub caam : Bool
  pub sha256 : Bytes → Bytes
  pub ecdsa : ℕ → Bytes → Bytes → Bytes
  pub encode : ℕ → List Cbor.Call → Option Bytes
  pub fuse : ℕ → ℕ → ℕ
  pub vm : VmFlags
  pub qsort : List Region → List Region
  pub session : Option (Option VmInfo)
  pub core : Core
  pub core_v_str : Bytes

abbrev pub eat_profile : Bytes
eat_profile = codes "http://arm.com/psa/2.0.0"

abbrev pub os_version_max_len : ℕ
os_version_max_len = 32

abbrev pub coord_size : ℕ
coord_size = 32

abbrev pub header_size : ℕ
header_size = coord_size + coord_size

abbrev pub min_key_param_size : ℕ
min_key_param_size = header_size + 1

-- IMPLEMENTATION_ID
abbrev pub implementation_id : Bool → Bytes
implementation_id true = codes "imx8mp-optee-ra-0000000000000001"
implementation_id false = codes "qemu-optee-ra-000000000000000001"

-- SIGNER_ID_TEST_VALUE and LIFECYCLE_DEFAULT
abbrev pub signer_id_test_value : Bytes
signer_id_test_value =
    0xac ∷ 0xbb ∷ 0x11 ∷ 0xc7 ∷ 0xe4 ∷ 0xda ∷ 0x21 ∷ 0x72 ∷ 0x05 ∷ 0x52 ∷ 0x3c ∷ 0xe4 ∷ 0xce ∷ 0x1a
    ∷ 0x24 ∷ 0x5a ∷ 0xe1 ∷ 0xa2 ∷ 0x39 ∷ 0xae ∷ 0x3c ∷ 0x6b ∷ 0xfd ∷ 0x9e ∷ 0x78 ∷ 0x71 ∷ 0xf7
    ∷ 0xe5 ∷ 0xd8 ∷ 0xba ∷ 0xe8 ∷ 0x6b ∷ []

abbrev pub lifecycle_default : ℕ
lifecycle_default = 0x3000

-- The last lines of `derive_client_id`, on the digest if there is one.
unfoldable pub client_id_of : Option Bytes → ℕ
client_id_of none = 1
client_id_of (some hash) =
    let raw =
      bit_or
        (bit_or (bit_or (get_or hash 28 0 * 2 ^ 24 % 2 ^ 32) (get_or hash 29 0 * 2 ^ 16 % 2 ^ 32))
          (get_or hash 30 0 * 2 ^ 8 % 2 ^ 32))
        (get_or hash 31 0) in
    bit_and raw 0x7FFFFFFF

unfoldable pub derive_client_id : (Bytes → Bytes) → Pointer → ℕ → Act ℕ
derive_client_id sha256 ta_uuid uuid_len = if is_null ta_uuid || uuid_len == 0 then pure 1 else do
  uuid ← load_at ta_uuid 0 uuid_len
  hash ← attempt (hash_sha256 sha256 uuid)
  pure (client_id_of hash)

-- The key material: public coordinates, and the key blob if one came in.
pub record Keys : Type 0 where
  pub pub_x : Bytes
  pub pub_y : Bytes
  pub black_key : Option Bytes
  pub black_len : ℕ

-- The label of the perf events, RA_PERF_KM.
unfoldable pub km : Keys → KeyMode
km k = keymode k.black_key k.black_len

unfoldable pub parse_keys : Bool → Param → Act Keys
parse_keys true p3 = do
  require (leb min_key_param_size (size_of p3)) bad_parameters
  x ← load_at (buffer_of p3) 0 coord_size
  y ← load_at (buffer_of p3) coord_size coord_size
  blob ← load_at (buffer_of p3) header_size (size_of p3 - header_size)
  pure
      (record { pub_x = x; pub_y = y; black_key = some blob; black_len = size_of p3 - header_size })
parse_keys false p3 = do
  (x, y) ← get_test_key_pubkey
  pure (record { pub_x = x; pub_y = y; black_key = none; black_len = 0 })

-- The loop over `core_v_str`, with `room` characters to go; the list ends at the NUL.
unfoldable pub token : (room : ℕ) → Bytes → Bytes
token zero text = []
token (suc room) [] = []
token (suc room) (c ∷ text) = if c == 0 || c == b' ' then [] else c ∷ token room text

unfoldable pub or_unknown : Bytes → Bytes
or_unknown [] = codes "unknown"
or_unknown (c ∷ text) = c ∷ text

-- `os_version` up to its NUL.
unfoldable pub os_version_of : Bytes → Bytes
unfolding token or_unknown
os_version_of core_v_str = or_unknown (token (os_version_max_len - 1) core_v_str)

-- `buffer[b64_len] = 0` on a buffer of 64 bytes.
unfoldable pub terminate : ℕ → Act (Unit {0})
terminate at = if ltb at (hash_size * 2) then pure tt else crash
