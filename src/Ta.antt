-- ===== src/Ta.antt =====
-- The trusted application, remote_attestation/ta/remote_attestation_ta.c. It forwards its commands to
-- the PTA in a session of its own; `invoke` is TEE_InvokeTACommand of the TEE core on that session,
-- by the number of calls made before: the parameters of the caller afterwards, and the status.
pub mod Timing
pub mod Answers
pub mod Release
pub mod Dispatch
use optee_ra_fork.Base.{
  ℕ, zero, suc, ◌+◌, ◌-◌, ◌*◌, ◌/◌, ◌^◌, Bool, true, false, not, Option, none, some, List, [], ◌∷◌,
  ltb, leb, ◌==◌, ◌||◌, ◌&&◌, if◌then◌else◌, Bytes, length, take, replicate,
}
use optee_ra_fork.Perf.{KeyMode, embedded}
use optee_ra_fork.Tee.{
  Act, Env, St, Error, bad_parameters, short_buffer, out_of_memory, ok, err, pure, throw, crash,
  ◌>>=◌, ◌>>◌, require, call, holding, with_block,
}
use optee_ra_fork.Tee.Resources.{ta_session}
use optee_ra_fork.Params.{
  ParamTypes, types, memref_input, memref_output, memref_inout, absent, Param, memref, value,
  Params, Pointer, buffer_of, size_of, is_null, load_at,
}
use Timing.{packed_keymode, timed, reported}
use optee_ra_fork.Pta.Caam.{Reply, put, is_keypair_types, is_convert_types}

-- TA_REMOTE_ATTESTATION_UUID, as it lies in memory on a little-endian machine.
abbrev pub ta_uuid_len : ℕ
ta_uuid_len = 16

-- The four combinations that `call_pta_for_cbor_evidence` takes.
unfoldable pub accepts_request : ParamTypes → Bool
accepts_request (types memref_input memref_inout absent absent) = true
accepts_request (types memref_input memref_output absent absent) = true
accepts_request (types memref_input memref_inout memref_input absent) = true
accepts_request (types memref_input memref_output memref_input absent) = true
accepts_request other = false

-- `TEE_PARAM_TYPE_GET(param_types, 2) == TEE_PARAM_TYPE_MEMREF_INPUT`
unfoldable pub has_packed_key : ParamTypes → Bool
has_packed_key (types t0 t1 memref_input t3) = true
has_packed_key (types t0 t1 other t3) = false

-- `perf_keymode`
unfoldable pub perf_keymode : ParamTypes → Param → KeyMode
perf_keymode param_types p2 =
    if has_packed_key param_types then packed_keymode (size_of p2) else embedded

-- `pta_param_types`
unfoldable pub forward_types : Bool → ParamTypes
forward_types true = types memref_input memref_inout memref_input memref_input
forward_types false = types memref_input memref_inout memref_input absent

-- `pta_params`, with the key if one is forwarded.
unfoldable pub forward_params : (nonce out ta_uuid : Bytes) → Option Bytes → Params
forward_params nonce out ta_uuid none = record {
  p0 = memref (some nonce) (length nonce);
  p1 = memref (some out) (length out);
  p2 = memref (some ta_uuid) ta_uuid_len;
  p3 = memref none 0;
}
forward_params nonce out ta_uuid (some key) = record {
  p0 = memref (some nonce) (length nonce);
  p1 = memref (some out) (length out);
  p2 = memref (some ta_uuid) ta_uuid_len;
  p3 = memref (some key) (length key);
}

unfoldable pub is_some : Option Bytes → Bool
is_some none = false
is_some (some b) = true

module _ (invoke : ℕ → ℕ → ParamTypes → Params → Reply) (ta_uuid : Bytes) where
  -- TEE_InvokeTACommand: an error, or the parameters afterwards.
  unfoldable pub invoke_pta : ℕ → ParamTypes → Params → Act Params
  invoke_pta cmd param_types params env st =
      let r = invoke st.calls cmd param_types params in
      let st' = record st { calls = suc st.calls } in
      elim (r.status) [ none ↦ (ok r.params, st') | some e ↦ (err e, st') ]

  -- From the parameters of the PTA to the label cleanup_return, with the buffers that are held. The
  -- result is params[1] afterwards.
  unfoldable pub forward : Bytes → Bytes → Option Bytes → Param → Act Param
  forward nonce out key p1 = do
    pta_params ←
        timed (invoke_pta 0 (forward_types (is_some key)) (forward_params nonce out ta_uuid key))
    require (leb (size_of pta_params.p1) (length out)) short_buffer
    evidence ← load_at (buffer_of pta_params.p1) 0 (size_of pta_params.p1)
    put p1 evidence

  -- The optional copy of the packed key.
  unfoldable pub with_key : ParamTypes → Param → (Option Bytes → Act Param) → Act Param
  with_key param_types p2 body =
      if has_packed_key param_types && not (is_null (buffer_of p2) || size_of p2 == 0)
      then with_block (do key ← load_at (buffer_of p2) 0 (size_of p2); body (some key))
      else body none

  -- A fresh buffer for the output, zeroed by TEE_Malloc.
  unfoldable pub forward_request : ParamTypes → Params → Act Param
  forward_request param_types params = do
    call
    holding ta_session (do
      require (accepts_request param_types) bad_parameters
      require
          (not (is_null (buffer_of params.p0) || size_of params.p0 == 0)
            && not (is_null (buffer_of params.p1) || size_of params.p1 == 0))
          bad_parameters
      with_block (do
        nonce ← load_at (buffer_of params.p0) 0 (size_of params.p0)
        with_block (
            with_key param_types params.p2
              (λ key. forward nonce (replicate (size_of params.p1) 0) key params.p1))))

  unfoldable pub call_pta_for_cbor_evidence : ParamTypes → Params → Act Param
  call_pta_for_cbor_evidence param_types params =
      reported (perf_keymode param_types params.p2) (forward_request param_types params)

  -- The two CAAM commands, which pass the caller's parameters on.
  unfoldable pub pass_on : ℕ → ParamTypes → Params → Act Reply
  pass_on cmd param_types params = do
    call
    holding ta_session
        λ env st. (ok (invoke st.calls cmd param_types params), record st { calls = suc st.calls })

  -- `TA_InvokeCommandEntryPoint` with the command ids of remote_attestation_ta.h.
  unfoldable pub invoke_command_entry_point : ℕ → ParamTypes → Params → Act Reply
  invoke_command_entry_point cmd_id param_types params =
      if cmd_id == 0
      then (do
        p1 ← call_pta_for_cbor_evidence param_types params
        pure (record { params = record params { p1 = p1 }; status = none }))
      else if cmd_id == 1
      then (do require (is_keypair_types param_types) bad_parameters; pass_on 1 param_types params)
      else if cmd_id == 2
      then (do require (is_convert_types param_types) bad_parameters; pass_on 2 param_types params)
      else throw bad_parameters

-- `TA_OpenSessionEntryPoint`
unfoldable pub open_session_entry_point : ParamTypes → Act (Unit {0})
open_session_entry_point (types absent absent absent absent) = pure tt
open_session_entry_point other = throw bad_parameters
