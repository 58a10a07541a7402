-- ===== src/System/Attestation.antt =====
-- What the PTA answers to the requests that the TA forwards.
use optee_ra_fork.Base.{
  ℕ, ◌≤◌, ◌<◌, ◌^◌, arith, ◌≡◌, refl, subst, true, false, Option, none, some, Bytes, length, drop,
  take-append, take_all, All,
}
use optee_ra_fork.Tee.{Env}
use optee_ra_fork.Tee.Rules.{Ensures, Ensures-bind, Ensures-pure}
use optee_ra_fork.Tee.Answers.{any_answers}
use optee_ra_fork.Tee.Errors.{Ensures-errors}
use optee_ra_fork.Hash.{VmInfo}
use optee_ra_fork.Ocotp.Lifecycle.{srk_words}
use optee_ra_fork.Cbor.Item.{Item}
use optee_ra_fork.Cbor.Token.{evidence_item}
use optee_ra_fork.Cbor.Cose.{Encodes}
use optee_ra_fork.Cbor.Signed.{IsCose}
use optee_ra_fork.Params.{Param, memref, has_key}
use optee_ra_fork.Pta.{Platform, Keys}
use optee_ra_fork.Pta.Expected.{IsClientId, contents, keys_of, expected}
use optee_ra_fork.Pta.Buffers.{filled}
use optee_ra_fork.Pta.Evidence.{Ensures-get_cbor_evidence}
use optee_ra_fork.Pta.Tokens.{IsToken}
use optee_ra_fork.Pta.Caam.{Reply, invoke_command}
use optee_ra_fork.Ta.{is_some, forward_types, forward_params}
use optee_ra_fork.System.{Crypto}

-- The keys that sign for a packed key.
abbrev pub keys_for : Option Bytes → Keys
keys_for none = keys_of false (memref none 0)
keys_for (some key) = keys_of true (memref (some key) (length key))

-- A COSE_Sign1 over the claims about a caller with this id, for a nonce and signed with these keys.
abbrev pub IsSigned : Platform → (Item → Bytes) → VmInfo → ℕ → Bytes → Keys → Bytes → Type 0
IsSigned p cbor info id nonce k evidence =
    IsCose cbor p.sha256 p.ecdsa (cbor (evidence_item (expected p info id nonce k))) 512 k.black_key
      k.black_len evidence

-- The same for the TA with this UUID and a packed key.
abbrev pub IsAttestation :
    Platform → (Item → Bytes) → VmInfo → Bytes → Bytes → Option Bytes → Bytes → Type 0
IsAttestation p cbor info ta_uuid nonce key evidence =
    (id : ℕ) × IsClientId (λ _. Unit) p.sha256 (memref (some ta_uuid) 16) id
    × IsSigned p cbor info id nonce (keys_for key) evidence

-- What the platform has to provide: QCBOR encodes, digests have 32 bytes, fuse words are words, and
-- the calling TA runs with these memory regions.
pub record IsReady (p : Platform) (cbor : Item → Bytes) (info : VmInfo) : Type 0 where
  pub encodes : Encodes p.encode cbor
  pub digests : (m : Bytes) → length (p.sha256 m) ≡ 32
  pub words : All (λ w. w < 2 ^ 32) (srk_words p.fuse)
  pub running : p.session ≡ some (some info)

-- The message at the start of an output buffer.
pub contents-filled :
    (buffer cose : Bytes) (n : ℕ) → contents (filled (memref (some buffer) n) cose) ≡ cose
unfolding contents filled
contents-filled buffer cose n = take-append cose (drop (length cose) buffer)

pub contents-whole : (b : Bytes) → contents (memref (some b) (length b)) ≡ b
unfolding contents
contents-whole b = take_all (length b) b (omega arith)

module _ (p : Platform) (cbor : Item → Bytes) (info : VmInfo) where
  -- A token over the parameters that the TA forwards.
  IsToken-attested :
      (nonce out ta_uuid : Bytes) (key : Option Bytes) (got : Param)
      → IsToken p cbor info
          (forward_types (is_some key))
          (forward_params nonce out ta_uuid key)
          (λ _. Unit)
          got
      → (cose : Bytes) × IsAttestation p cbor info ta_uuid nonce key cose
        × (got ≡ filled (memref (some out) (length out)) cose)
  unfolding forward_types forward_params is_some has_key
  IsToken-attested nonce out ta_uuid none got (a, (id, is, (cose, cose_is, e))) = (
    cose,
    (
      id,
      is,
      subst (λ n. IsSigned p cbor info id n (keys_for none) cose) (contents-whole nonce) cose_is,
    ),
    e,
  )
  IsToken-attested nonce out ta_uuid (some key) got (a, (id, is, (cose, cose_is, e))) = (
    cose,
    (
      id,
      is,
      subst (λ n. IsSigned p cbor info id n (keys_for (some key)) cose) (contents-whole nonce)
          cose_is,
    ),
    e,
  )

module _ {p : Platform} {cbor : Item → Bytes} {info : VmInfo} (c : Crypto)
    (ready : IsReady p cbor info) where
  -- The PTA on the parameters that the TA forwards.
  pub Ensures-forwarded :
      (env : Env) (nonce out ta_uuid : Bytes) (key : Option Bytes)
      → 512 ≤ length out
      → 16 ≤ length ta_uuid
      → Ensures env Unit
          (λ (r : Reply).
            (cose : Bytes) × IsAttestation p cbor info ta_uuid nonce key cose
            × (r.params.p1 ≡ filled (memref (some out) (length out)) cose))
          (λ _. Unit)
          (invoke_command c.caam c.blob p c.generate 0
            (forward_types (is_some key))
            (forward_params nonce out ta_uuid key))
  unfolding invoke_command forward_params
  Ensures-forwarded env nonce out ta_uuid none room uuid =
      Ensures-bind
        (Ensures-errors (λ e r. tt)
          (Ensures-get_cbor_evidence ready.encodes (any_answers env) (λ n e q. tt) ready.digests
            ready.words ready.running (omega arith) room uuid refl))
        λ p1 is. Ensures-pure _ (IsToken-attested p cbor info nonce out ta_uuid none p1 is)
  Ensures-forwarded env nonce out ta_uuid (some key) room uuid =
      Ensures-bind
        (Ensures-errors (λ e r. tt)
          (Ensures-get_cbor_evidence ready.encodes (any_answers env) (λ n e q. tt) ready.digests
            ready.words ready.running (omega arith) room uuid (omega arith)))
        λ p1 is. Ensures-pure _ (IsToken-attested p cbor info nonce out ta_uuid (some key) p1 is)
