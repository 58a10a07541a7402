-- ===== src/Pta/Command.antt =====
-- `cmd_get_cbor_evidence` of remote_attestation.c, in the order of its blocks.
use optee_ra_fork.Base.{
  ℕ, ◌*◌, Option, none, some, [], ◌∷◌, ◌==◌, ◌||◌, not, if◌then◌else◌, length, replicate, Bytes,
  codes, pos,
}
use optee_ra_fork.Base64
use optee_ra_fork.Perf.{ocotp_srk, ocotp_lifecycle, instance_id, hash_ta, hash_tee, cbor_encode}
use optee_ra_fork.Perf.{cose_sign1, cmd_total}
use optee_ra_fork.Tee.{
  Act, bad_parameters, generic, out_of_memory, pure, throw, crash, require, store,
}
use optee_ra_fork.Tee.{
  ◌>>=◌, ◌>>◌, with_two_blocks, finally, perf_now, perf_stop, perf_reset, perf_flush,
}
use optee_ra_fork.Crypto.{hash_size}
use optee_ra_fork.Hash.{get_hash_ta_memory, get_hash_tee_memory}
use optee_ra_fork.Ocotp.{read_srk_hash, get_lifecycle}
use optee_ra_fork.Sign.{compute_instance_id}
use optee_ra_fork.Cbor.{Evidence, encode_evidence_to_cbor, generate_cose}
use optee_ra_fork.Params.{
  ParamTypes, Param, memref, Params, Pointer, null, to, wild, buffer_of, size_of, is_null, load_at,
}
use optee_ra_fork.Params.{accepts_evidence, has_key}
use optee_ra_fork.Pta.{Platform, Keys, km, eat_profile, implementation_id, signer_id_test_value}
use optee_ra_fork.Pta.{lifecycle_default, derive_client_id, parse_keys, os_version_of, terminate}

module _ (p : Platform) where
  -- The signer id and the lifecycle, from the fuses or the fallback.
  unfoldable pub read_platform : Keys → Act (Bytes × ℕ)
  read_platform k =
      if p.caam
      then (do
        t ← perf_now
        signer ← read_srk_hash p.fuse
        perf_stop t ocotp_srk (km k)
        t ← perf_now
        lifecycle ← get_lifecycle p.fuse
        perf_stop t ocotp_lifecycle (km k)
        pure (signer, lifecycle))
      else pure (signer_id_test_value, lifecycle_default)

  -- The base64 text of the TA's measurement, for the debug print.
  unfoldable pub print_measurement : Bytes → Act (Unit {0})
  print_measurement measurement = do
    let b64 = Base64.encode measurement (replicate (hash_size * 2) 0) (hash_size * 2)
    require (b64.status == 1) generic
    terminate b64.outlen

  -- The same for the core's measurement, where a failed encoding is passed over.
  unfoldable pub print_tee_measurement : Bytes → Act (Unit {0})
  print_tee_measurement measurement = do
    let b64 = Base64.encode measurement (replicate (hash_size * 2) 0) (hash_size * 2)
    if b64.status == 1 then terminate b64.outlen else pure tt

  -- The values that go into the evidence, computed before the work buffers are allocated.
  unfoldable pub collect : ℕ → Bytes → Keys → Act Evidence
  collect client_id nonce k = do
    (signer, lifecycle) ← read_platform k
    t ← perf_now
    instance ← compute_instance_id p.sha256 k.pub_x k.pub_y
    perf_stop t instance_id (km k)
    t ← perf_now
    measurement ← get_hash_ta_memory p.sha256 p.vm p.qsort p.session hash_size
    perf_stop t hash_ta (km k)
    print_measurement measurement
    t ← perf_now
    tee_measurement ← get_hash_tee_memory p.sha256 p.core hash_size
    perf_stop t hash_tee (km k)
    print_tee_measurement tee_measurement
    pure (record {
      eat_profile = eat_profile;
      client_id = pos client_id;
      security_lifecycle = pos lifecycle;
      implementation_id = implementation_id p.caam;
      components =
          record {
            measurement_type = codes "ARoT";
            measurement_value = measurement;
            version = none;
            signer_id = signer;
          }
          ∷ record {
            measurement_type = codes "PRoT";
            measurement_value = tee_measurement;
            version = some (os_version_of p.core_v_str);
            signer_id = signer;
          }
          ∷ [];
      instance_id = instance;
      nonce = nonce;
    })

  -- `UsefulBuf_IsNULLC` and the return with TEE_ERROR_GENERIC.
  unfoldable pub not_null : Option Bytes → Act Bytes
  not_null none = throw generic
  not_null (some b) = pure b

  unfoldable pub store_at : Pointer → Bytes → Act Bytes
  store_at null src = crash
  store_at (to buffer) src = store (some buffer) src
  store_at wild src = crash

  -- With both work buffers of 512 bytes: encode, sign, and copy to the output.
  unfoldable pub produce : Evidence → Keys → Param → Act Param
  produce evidence k p1 = do
    t ← perf_now
    cbor ← not_null (encode_evidence_to_cbor p.encode evidence 512)
    perf_stop t cbor_encode (km k)
    t ← perf_now
    signed ← generate_cose p.encode p.sha256 p.ecdsa cbor 512 k.black_key k.black_len
    cose ← not_null signed
    perf_stop t cose_sign1 (km k)
    out ← store_at (buffer_of p1) cose
    pure (memref (some out) (length cose))

  -- The handler returns params[1] as it is afterwards.
  unfoldable pub get_cbor_evidence : ParamTypes → Params → Act Param
  get_cbor_evidence param_types params = do
    perf_reset
    t_cmd ← perf_now
    client_id ← derive_client_id p.sha256 (buffer_of params.p2) (size_of params.p2)
    require (accepts_evidence param_types) bad_parameters
    require (not (is_null (buffer_of params.p0) || size_of params.p0 == 0)) bad_parameters
    require (not (is_null (buffer_of params.p1) || size_of params.p1 == 0)) bad_parameters
    k ← parse_keys (has_key param_types) params.p3
    nonce ← load_at (buffer_of params.p0) 0 (size_of params.p0)
    evidence ← collect client_id nonce k
    out ← with_two_blocks (throw out_of_memory) (produce evidence k params.p1)
    finally (perf_stop t_cmd cmd_total (km k)) perf_flush
    pure out
