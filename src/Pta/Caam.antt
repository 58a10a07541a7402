-- ===== src/Pta/Caam.antt =====
-- The CAAM commands of remote_attestation.c, with `caam_to_tee_status`, and `invoke_command`.
pub mod Replies
pub mod BlackKey
use optee_ra_fork.Base.{
  ℕ, zero, suc, ◌+◌, ◌-◌, ◌*◌, ◌^◌, Bool, true, false, not, Option, none, some, List, [], ◌∷◌, ◌++◌,
  ltb, leb, ◌==◌, ◌||◌, if◌then◌else◌, Bytes, length, replicate, drop,
}
use optee_ra_fork.Perf.{keypair_generate, blackkey_encap, convert_total, dash}
use optee_ra_fork.Tee.{
  Act, Env, St, Error, bad_parameters, short_buffer, out_of_memory, generic, ok, err, pure, throw,
  crash, ◌>>=◌, ◌>>◌, require, call, fresh, holding, finally, store, perf_now, perf_stop,
  perf_reset, perf_flush,
}
use optee_ra_fork.Tee.Resources.{keypair, caam_key}
use optee_ra_fork.Params.{
  ParamTypes, types, memref_input, memref_output, absent, Param, memref, value, Params, Pointer,
  null, to, wild, buffer_of, size_of, is_null, load_at,
}
use optee_ra_fork.Pta.{Platform}
use optee_ra_fork.Pta.Command.{get_cbor_evidence}

abbrev pub sec_size : ℕ
sec_size = 32

-- The values of `enum caam_status` that the code tells apart.
pub data CaamStatus : Type 0 where
  no_error out_memory bad_param short_buf : CaamStatus
  failure : CaamStatus

-- `none` is TEE_SUCCESS.
unfoldable pub caam_to_tee_status : CaamStatus → Option Error
caam_to_tee_status no_error = none
caam_to_tee_status out_memory = some out_of_memory
caam_to_tee_status bad_param = some bad_parameters
caam_to_tee_status short_buf = some short_buffer
caam_to_tee_status failure = some generic

-- A fresh key pair: the bytes of its three bignums without leading zeros.
pub record KeyPair : Type 0 where
  pub d : Bytes
  pub x : Bytes
  pub y : Bytes

-- The parameters after a command and its TEE_Result.
pub record Reply : Type 0 where
  pub params : Params
  pub status : Option Error

-- `params[i].memref.size = n`
unfoldable pub with_size : Param → ℕ → Param
with_size (memref buffer size) n = memref buffer n
with_size (value a b stale) n = value a b n

-- `if (out) { write the bytes; params[i].memref.size = length; }`
unfoldable pub put : Param → Bytes → Act Param
put (memref none size) src = pure (memref none size)
put (memref (some buffer) size) src = do
  out ← store (some buffer) src
  pure (memref (some out) (length src))
put (value a b stale) src =
    if is_null (buffer_of (value a b stale)) then pure (value a b stale) else crash

-- A coordinate at the end of 32 zeroed bytes.
unfoldable pub coordinate : Bytes → Act Bytes
coordinate n =
    if leb (length n) sec_size then pure (replicate (sec_size - length n) 0 ++ n) else crash

-- `if (out) { clear 32 bytes and write the coordinate at their end; set the size to 32; }`
unfoldable pub put_coordinate : Param → Bytes → Act Param
put_coordinate p n = if is_null (buffer_of p) then pure p else (do c ← coordinate n; put p c)

abbrev pub is_keypair_types : ParamTypes → Bool
is_keypair_types (types memref_output memref_output memref_output absent) = true
is_keypair_types other = false

abbrev pub is_convert_types : ParamTypes → Bool
is_convert_types (types memref_input memref_output absent absent) = true
is_convert_types other = false

-- From the generation to the label out_free; `generate` is crypto_acipher_gen_ecc_key, a function
-- of fresh randomness.
unfoldable pub export_keypair : (ℕ → KeyPair) → Params → Act Reply
export_keypair generate params = do
  t ← perf_now
  call
  seed ← fresh
  let key = generate seed
  perf_stop t keypair_generate dash
  if ltb (size_of params.p0) (length key.d)
      then pure (record {
        params = record params { p0 = with_size params.p0 (length key.d) };
        status = some short_buffer;
      })
      else if ltb (size_of params.p1) sec_size || ltb (size_of params.p2) sec_size
      then pure (record { params = params; status = some short_buffer })
      else (do
        p0 ← if length key.d == 0 then pure params.p0 else put params.p0 key.d
        p1 ← put_coordinate params.p1 key.x
        p2 ← put_coordinate params.p2 key.y
        pure (record { params = record params { p0 = p0; p1 = p1; p2 = p2 }; status = none }))

unfoldable pub generate_keypair : (ℕ → KeyPair) → ParamTypes → Params → Act Reply
generate_keypair generate param_types params = do
  require (is_keypair_types param_types) bad_parameters
  perf_reset
  call
  finally (holding keypair (export_keypair generate params)) perf_flush

-- RA_PERF_STOP and RA_PERF_FLUSH behind the label out of `cmd_convert_to_blackkey`.
unfoldable pub finish_convert : ℕ → Env → St → St
finish_convert t_cmd env st = perf_flush env (perf_stop t_cmd convert_total dash env st).1

-- `caam` answers the calls of the CAAM driver, by the number of calls made before; `blob` is the
-- serialized black key of a plain one, a function of fresh randomness.
module _ (caam : ℕ → CaamStatus) (blob : ℕ → Bytes → Bytes) where
  unfoldable pub caam_call : Act (Unit {0})
  caam_call env st = elim (caam_to_tee_status (caam st.calls)) [
    | none ↦ (ok tt, record st { calls = suc st.calls })
    | some e ↦ (err e, record st { calls = suc st.calls })
  ]

  -- From the copy of the plain key to the label out.
  unfoldable pub encapsulate : Params → Act Reply
  encapsulate params = do
    plain ← load_at (buffer_of params.p0) 0 (size_of params.p0)
    t ← perf_now
    caam_call
    seed ← fresh
    perf_stop t blackkey_encap dash
    let serialized = blob seed plain
    caam_call
    if ltb (size_of params.p1) (length serialized)
        then pure (record {
          params = record params { p1 = with_size params.p1 (length serialized) };
          status = some short_buffer;
        })
        else if is_null (buffer_of params.p1)
        then pure (record { params = params; status = none })
        else (do
          caam_call
          p1 ← put params.p1 serialized
          pure (record { params = record params { p1 = p1 }; status = none }))

  unfoldable pub convert_to_blackkey : ParamTypes → Params → Act Reply
  convert_to_blackkey param_types params = do
    require (is_convert_types param_types) bad_parameters
    require (not (is_null (buffer_of params.p0) || not (size_of params.p0 == sec_size)))
        bad_parameters
    perf_reset
    t_cmd ← perf_now
    caam_call
    finally (holding caam_key (encapsulate params)) (finish_convert t_cmd)

  -- `invoke_command` with the command ids of pta_remote_attestation.h.
  unfoldable pub invoke_command : Platform → (ℕ → KeyPair) → ℕ → ParamTypes → Params → Act Reply
  invoke_command p generate cmd_id param_types params =
      if cmd_id == 0
      then (do
        p1 ← get_cbor_evidence p param_types params
        pure (record { params = record params { p1 = p1 }; status = none }))
      else if not p.caam
      then throw bad_parameters
      else if cmd_id == 1
      then generate_keypair generate param_types params
      else if cmd_id == 2
      then convert_to_blackkey param_types params
      else throw bad_parameters
