-- ===== src/System/Attested.antt =====
-- What the TA returns when its commands reach the PTA.
use optee_ra_fork.System.Attestation.{IsAttestation, IsReady, Ensures-forwarded, contents-filled}
use optee_ra_fork.Base.{
  ℕ, ◌≤◌, ◌<◌, arith, ◌≡◌, refl, sym, ap, subst, ◌∙◌, ◌⊎◌, inl, inr, false, none, some, ◌++◌, Bytes,
  length, drop, length-replicate, replicate, length-append, length-drop,
}
use optee_ra_fork.Tee.{Result, Env, St, Error, bad_parameters}
use optee_ra_fork.Tee.Rules.{Ensures, Outcome, done, failed, Ensures-mono}
use optee_ra_fork.Tee.Answers.{Answers}
use optee_ra_fork.Tee.Errors.{Ensures-errors}
use optee_ra_fork.Tee.Resources.{Held}
use optee_ra_fork.Hash.{VmInfo}
use optee_ra_fork.Cbor.Item.{Item}
use optee_ra_fork.Params.{ParamTypes, Param, Params, memref, size_of}
use optee_ra_fork.Pta.{Platform}
use optee_ra_fork.Pta.Expected.{IsMemref, contents}
use optee_ra_fork.Pta.Buffers.{filled}
use optee_ra_fork.Pta.Caam.{Reply}
use optee_ra_fork.Ta.{is_some, forward_types, forward_params, call_pta_for_cbor_evidence}
use optee_ra_fork.Ta.Release.{Ensures-call_pta_for_cbor_evidence}
use optee_ra_fork.Ta.Answers.{
  KeepsOutput, IsForwarded, Failure, refused, passed_on, too_long, is_request, packed_key, answer,
}
use optee_ra_fork.System.{Hands, Crypto, RunsPta}

-- What the caller of a handler gets, where it gets no error.
pub Hands-done :
    {h : Held} {L : Type 0} {P : Reply → Type 0} {E : Error → Type 0} {r : Result Reply × St}
    (got : Reply)
    → Outcome h L P E r
    → Hands got r.0
    → got.status ≡ none
    → P got
unfolding Hands
Hands-done {P} got (done p k) e good = subst P (sym e) p
Hands-done got (failed x k) e good = cc (e, good)

size_of-filled :
    (buffer cose : Bytes) (n : ℕ) → size_of (filled (memref (some buffer) n) cose) ≡ length cose
unfolding filled size_of
size_of-filled buffer cose n = refl

filled-keeps :
    (out cose : Bytes) (n : ℕ)
    → length cose ≤ length out
    → (out' : Bytes) × (size' : ℕ) × (filled (memref (some out) n) cose ≡ memref (some out') size')
      × (length out' ≡ length out)
unfolding filled
filled-keeps out cose n h = (
  cose ++ drop (length cose) out,
  length cose,
  refl,
  omega (arith, length-append cose (drop (length cose) out), length-drop (length cose) out, h),
)

-- The fresh output buffer of the TA.
abbrev pub zeros : ℕ → Bytes
zeros n = replicate n 0

-- The message for a request to the TA.
abbrev pub IsAttested :
    Platform → (Item → Bytes) → VmInfo → Bytes → ParamTypes → Params → Bytes → Type 0
IsAttested p cbor info ta_uuid param_types params =
    IsAttestation p cbor info ta_uuid (contents params.p0) (packed_key param_types params.p2)

module _ {W : Env → Type 0} {p : Platform} {cbor : Item → Bytes} {info : VmInfo} (c : Crypto)
    (ready : IsReady p cbor info) (invoke : ℕ → ℕ → ParamTypes → Params → Reply) (ta_uuid : Bytes)
    (runs : RunsPta W p c invoke) (uuid : 16 ≤ length ta_uuid) where
  module _ (param_types : ParamTypes) (params : Params) (room : 512 ≤ size_of params.p1) where
    answer-IsAttested :
        (n : ℕ)
        → (answer invoke ta_uuid param_types params n).status ≡ none
        → (cose : Bytes) × IsAttested p cbor info ta_uuid param_types params cose
          × ((answer invoke ta_uuid param_types params n).params.p1
              ≡ filled
                  (memref (some (zeros (size_of params.p1))) (length (zeros (size_of params.p1))))
                  cose)
    answer-IsAttested n good =
        let key = packed_key param_types params.p2 in
        let out = zeros (size_of params.p1) in
        let big : 512 ≤ length out =
          omega (arith, length-replicate {A = ℕ} (size_of params.p1) 0, room) in
        let (env, st, w, hands) =
          runs.reach n 0 (forward_types (is_some key))
            (forward_params (contents params.p0) out ta_uuid key) in
        Hands-done _
          ((Ensures-forwarded c ready env (contents params.p0) out ta_uuid key big uuid).run st)
          hands good

    answers-KeepsOutput : KeepsOutput invoke ta_uuid param_types params
    answers-KeepsOutput n good =
        let (cose, is, e) = answer-IsAttested n good in
        let same_size = length-replicate {A = ℕ} (size_of params.p1) 0 in
        let (out', size', same, size) =
          filled-keeps (zeros (size_of params.p1)) cose _
            (omega (arith, is.2.3, same_size, room)) in
        (out', size', e ∙ same, size ∙ same_size)

    -- The errors of a request that reaches the PTA: no message is too long.
    Failure-cases :
        (F : Error → Type 0) (e : Error)
        → Failure invoke ta_uuid F param_types params e
        → F e ⊎ ((is_request param_types params ≡ false) × (e ≡ bad_parameters))
    Failure-cases F e (refused h) = inr (h, refl)
    Failure-cases F e (passed_on x) = inl x
    Failure-cases F e (too_long n good big) =
        let (cose, is, q) = answer-IsAttested n good in
        let fits : size_of params.p1 < length cose =
          subst (λ s. size_of params.p1 < s) (ap size_of q ∙ size_of-filled _ cose _) big in
        absurd (omega (arith, is.2.3, fits, room))

    IsForwarded-IsAttested :
        (out : Param)
        → IsForwarded invoke ta_uuid param_types params out
        → (cose : Bytes) × IsAttested p cbor info ta_uuid param_types params cose
          × (out ≡ filled params.p1 cose)
    IsForwarded-IsAttested out (n, good, fits, e) =
        let (cose, is, q) = answer-IsAttested n good in
        (
          cose,
          is,
          e
              ∙ ap (filled params.p1)
                  (ap contents q ∙ contents-filled (zeros (size_of params.p1)) cose _),
        )

  -- `call_pta_for_cbor_evidence` in a TA whose commands reach the PTA, on a platform that is ready:
  -- with room for 512 bytes and buffers as long as they say, it makes no access out of bounds and
  -- gives back all it holds. It succeeds with a COSE_Sign1 over the claims of this TA, the caller's
  -- nonce among them, signed with the caller's key if it sent one, and else it fails: on refused
  -- parameters with TEE_ERROR_BAD_PARAMETERS, or with an error of the TEE core or the PTA.
  pub Ensures-IsAttestation :
      (env : Env) (F : Error → Type 0) (param_types : ParamTypes) (params : Params)
      → Answers env F
      → ((n : ℕ) (e : Error) → (answer invoke ta_uuid param_types params n).status ≡ some e → F e)
      → 512 ≤ size_of params.p1
      → IsMemref params.p0
      → IsMemref params.p1
      → IsMemref params.p2
      → Ensures env ⊥
          (λ out.
            (cose : Bytes) × IsAttestation p cbor info ta_uuid
              (contents params.p0)
              (packed_key param_types params.p2)
              cose
            × (out ≡ filled params.p1 cose))
          (λ e. F e ⊎ ((is_request param_types params ≡ false) × (e ≡ bad_parameters)))
          (call_pta_for_cbor_evidence invoke ta_uuid param_types params)
  Ensures-IsAttestation env F param_types params answers errors room m0 m1 m2 =
      Ensures-mono
        (Ensures-errors (Failure-cases param_types params room F) (
          Ensures-call_pta_for_cbor_evidence invoke ta_uuid env F param_types params answers errors
            (answers-KeepsOutput param_types params room) m0 m1 m2))
        (IsForwarded-IsAttested param_types params room)
