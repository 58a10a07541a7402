-- ===== src/Ta/Answers.antt =====
-- What becomes of a request to `call_pta_for_cbor_evidence` of remote_attestation_ta.c.
use optee_ra_fork.Base.{
  ℕ, ◌≤◌, ◌<◌, ◌≡◌, Bool, false, Option, none, some, ◌&&◌, if◌then◌else◌, Bytes, length, replicate,
}
use optee_ra_fork.Tee.{Error, bad_parameters, short_buffer}
use optee_ra_fork.Params.{ParamTypes, Params, Param, memref, size_of}
use optee_ra_fork.Pta.Caam.{Reply}
use optee_ra_fork.Pta.Expected.{contents}
use optee_ra_fork.Pta.Buffers.{filled, is_given}
use optee_ra_fork.Ta.{accepts_request, forward_types, forward_params, has_packed_key, is_some}

-- The key that the TA forwards.
abbrev pub packed_key : ParamTypes → Param → Option Bytes
packed_key param_types p2 =
    if has_packed_key param_types && is_given p2 then some (contents p2) else none

-- What the PTA answers to the request with these parameters, at some time.
abbrev pub answer : (ℕ → ℕ → ParamTypes → Params → Reply) → Bytes → ParamTypes → Params → ℕ → Reply
answer invoke ta_uuid param_types params n =
    let key = packed_key param_types params.p2 in
    invoke n 0 (forward_types (is_some key))
      (forward_params (contents params.p0) (replicate (size_of params.p1) 0) ta_uuid key)

-- What the TEE core promises: an output buffer that was passed to a command that succeeds comes back
-- with its length.
abbrev pub KeepsOutput :
    (ℕ → ℕ → ParamTypes → Params → Reply) → Bytes → ParamTypes → Params → Type 0
KeepsOutput invoke ta_uuid param_types params =
    (n : ℕ)
    → (answer invoke ta_uuid param_types params n).status ≡ none
    → (out' : Bytes) × (size' : ℕ) × ((answer invoke ta_uuid param_types params n).params.p1
        ≡ memref (some out') size')
      × (length out' ≡ size_of params.p1)

-- The output parameter holds what the PTA answered, in the room that the caller made for it.
abbrev pub IsForwarded :
    (ℕ → ℕ → ParamTypes → Params → Reply) → Bytes → ParamTypes → Params → Param → Type 0
IsForwarded invoke ta_uuid param_types params out =
    (n : ℕ) × ((answer invoke ta_uuid param_types params n).status ≡ none)
    × (length (contents (answer invoke ta_uuid param_types params n).params.p1) ≤ size_of params.p1)
    × (out ≡ filled params.p1 (contents (answer invoke ta_uuid param_types params n).params.p1))

-- The checks on the parameters.
abbrev pub is_request : ParamTypes → Params → Bool
is_request param_types params =
    accepts_request param_types && (is_given params.p0 && is_given params.p1)

-- The errors of a request: refused parameters, an error of the TEE core or of the PTA, or an answer
-- that does not fit.
pub data Failure (invoke : ℕ → ℕ → ParamTypes → Params → Reply) (ta_uuid : Bytes)
    (F : Error → Type 0) (param_types : ParamTypes) (params : Params) : Error → Type 0 where
  refused :
      is_request param_types params ≡ false
      → Failure invoke ta_uuid F param_types params bad_parameters
  passed_on : {e : Error} → F e → Failure invoke ta_uuid F param_types params e
  too_long :
      (n : ℕ)
      → (answer invoke ta_uuid param_types params n).status ≡ none
      → size_of params.p1 < size_of (answer invoke ta_uuid param_types params n).params.p1
      → Failure invoke ta_uuid F param_types params short_buffer
