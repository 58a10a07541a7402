-- ===== src/System/Requested.antt =====
-- What the TA answers to the requests of the host program.
use optee_ra_fork.Base.{
  ℕ, ◌≤◌, arith, ◌≡◌, refl, ap, ◌∙◌, Bool-cases, inl, inr, Option, none, some, ◌++◌, ◌==◌, Bytes,
  length, drop, take_all, take-append, length-append, le→leb, leb→le, subst,
}
use optee_ra_fork.Tee.{Env}
use optee_ra_fork.Tee.Errors.{Ensures-errors}
use optee_ra_fork.Tee.Rules.{Ensures, Ensures-bind, Ensures-pure}
use optee_ra_fork.Tee.Answers.{any_answers}
use optee_ra_fork.Hash.{VmInfo}
use optee_ra_fork.Cbor.Item.{Item}
use optee_ra_fork.Params.{ParamTypes, Params, memref, buffer_of, size_of, is_null}
use optee_ra_fork.Pta.{Platform}
use optee_ra_fork.Pta.Expected.{IsMemref, contents}
use optee_ra_fork.Pta.Buffers.{filled}
use optee_ra_fork.Pta.Caam.{Reply}
use optee_ra_fork.Ta.{is_some, has_packed_key, invoke_command_entry_point}
use optee_ra_fork.Ta.Answers.{packed_key}
use optee_ra_fork.Host.Client.{
  bytes_up_to, request_types, request_params, usable_key, evidence_room, World,
}
use optee_ra_fork.Host.Attest.{IsWithin}
use optee_ra_fork.System.{Crypto, RunsPta, RunsTa}
use optee_ra_fork.System.Attested.{zeros, Ensures-IsAttestation, Hands-done}
use optee_ra_fork.System.Attestation.{IsReady, IsAttestation, contents-whole}

-- The key that the TA forwards for the host.
pub packed_key-usable :
    (nonce : Bytes) (key : Option Bytes)
    → packed_key (request_types key) (request_params nonce key).p2 ≡ usable_key key
unfolding request_types request_params usable_key has_packed_key buffer_of size_of is_null contents
packed_key-usable nonce none = refl
packed_key-usable nonce (some key) = elim (Bool-cases (length key == 0)) [
  | inl h ↦ rw (h, packed_key) refl
  | inr h ↦ rw (h, take_all (length key) key (omega arith), packed_key) refl
]

-- The bytes that the host reads of a filled buffer.
bytes_up_to-filled :
    (buffer cose : Bytes) (n : ℕ)
    → bytes_up_to
        (filled (memref (some buffer) n) cose)
        (size_of (filled (memref (some buffer) n) cose))
      ≡ some cose
unfolding bytes_up_to filled size_of
bytes_up_to-filled buffer cose n =
    rw
      (
        le→leb (length cose) (length (cose ++ drop (length cose) buffer))
            (omega (arith, length-append cose (drop (length cose) buffer))),
        take-append,
      )
      refl

pub request_params-IsMemref :
    (nonce : Bytes) (key : Option Bytes) → IsMemref (request_params nonce key).p2
unfolding request_params
request_params-IsMemref nonce none = tt
request_params-IsMemref nonce (some key) = omega arith

module _ {p : Platform} {cbor : Item → Bytes} {info : VmInfo} (c : Crypto)
    (ready : IsReady p cbor info) (ta_uuid : Bytes) (uuid : 16 ≤ length ta_uuid) where
  -- What the TA leaves in the operation of the host.
  abbrev Returns : Bytes → Option Bytes → Reply → Type 0
  Returns nonce key r =
      (cose : Bytes) × IsAttestation p cbor info ta_uuid nonce (usable_key key) cose
      × (r.params.p1 ≡ filled (memref (some (zeros evidence_room)) evidence_room) cose)

  -- The TA on the parameters that the host passes.
  Ensures-requested :
      {W : Env → Type 0} (pta : ℕ → ℕ → ParamTypes → Params → Reply)
      → RunsPta W p c pta
      → (env : Env) (nonce : Bytes) (key : Option Bytes)
      → Ensures env ⊥
          (Returns nonce key)
          (λ _. Unit)
          (invoke_command_entry_point pta ta_uuid 0 (request_types key) (request_params nonce key))
  unfolding invoke_command_entry_point request_params size_of
  Ensures-requested pta runs env nonce key =
      Ensures-bind
        (Ensures-errors (λ e r. tt)
          (Ensures-IsAttestation c ready pta ta_uuid runs uuid env (λ _. Unit) (request_types key)
            (request_params nonce key) (any_answers env) (λ n e q. tt) (leb→le 512 1024 refl)
            (omega arith) (leb→le 1024 1024 refl) (request_params-IsMemref nonce key)))
        λ out (cose, is, e). Ensures-pure _ (cose, known cose is, e)
    where
      known :
          (cose : Bytes)
          → IsAttestation p cbor info ta_uuid
              (contents (request_params nonce key).p0)
              (packed_key (request_types key) (request_params nonce key).p2)
              cose
          → IsAttestation p cbor info ta_uuid nonce (usable_key key) cose
      known cose is =
          subst (λ k. IsAttestation p cbor info ta_uuid nonce k cose) (packed_key-usable nonce key)
            (subst
              (λ n.
                IsAttestation p cbor info ta_uuid n
                  (packed_key (request_types key) (request_params nonce key).p2) cose)
              (contents-whole nonce) is)

  module _ {W : Env → Type 0} (w : World) (runs : RunsTa W p c ta_uuid w.invoke) where
    -- What the host reads of an operation that succeeded.
    pub invoke-attested :
        (key : Option Bytes) (iter : ℕ) (nonce : Bytes)
        → (w.invoke iter (request_types key) (request_params nonce key)).status ≡ none
        → (cose : Bytes) × IsAttestation p cbor info ta_uuid nonce (usable_key key) cose
          × (bytes_up_to
                (w.invoke iter (request_types key) (request_params nonce key)).params.p1
                (size_of (w.invoke iter (request_types key) (request_params nonce key)).params.p1)
              ≡ some cose)
    invoke-attested key iter nonce good =
        let (pta, pta_runs, (env, st, _, hands)) =
          runs.reach iter (request_types key) (request_params nonce key) in
        let (cose, is, e) =
          Hands-done {P = Returns nonce key} _
            ((Ensures-requested pta pta_runs env nonce key).run st) hands good in
        (cose, is, ap (λ q. bytes_up_to q (size_of q)) e ∙ bytes_up_to-filled _ cose _)

    pub invoke-IsWithin : IsWithin w
    unfolding is_some
    invoke-IsWithin iter nonce key good = ap is_some ((invoke-attested key iter nonce good).2)
