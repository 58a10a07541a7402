-- ===== src/Cbor.antt =====
-- The encoders of pta_remote_attestation/remote_attestation/cbor.c. QCBOR is another project's
-- library: a context is the list of the calls made on it since QCBOREncode_Init, and what
-- QCBOREncode_Finish returns for a buffer's size and those calls is the parameter `encode` (`none`
-- is any QCBORError).
pub mod Labels
pub mod Item
pub mod Token
pub mod Cose
pub mod Signed
use mathlib.Core.Option
use optee_ra_fork.Base.{ℕ, Option, none, some, List, [], ◌∷◌, ◌++◌, Bytes, ℤ}
use optee_ra_fork.Tee.{Act, pure, ◌>>=◌, attempt, with_two_blocks}
use optee_ra_fork.Sign.{sign_ecdsa_sha256}
use Labels.{
  psa_nonce, psa_instance_id, psa_profile_definition, psa_client_id, psa_security_lifecycle,
}
use Labels.{psa_implementation_id, psa_sw_components, sw_measurement_type, sw_measurement_value}
use Labels.{sw_version, sw_signer_id, cose_header_param_alg, tag_cose_sign1, cose_algorithm_es256}
use Labels.{signature1}

-- The calls that the source makes, by QCBOR's names; `label` is the integer of a `...ToMapN`.
pub data Call : Type 0 where
  add_tag : ℕ → Call
  open_map close_map open_array close_array : Call
  open_array_in_map : (label : ℕ) → Call
  add_text_to_map add_bytes_to_map : (label : ℕ) → Bytes → Call
  add_int64_to_map : (label : ℕ) → ℤ → Call
  add_bytes add_sz_string : Bytes → Call

-- `struct psa_sw_component`; a version that is NULL is `none`.
pub record SwComponent : Type 0 where
  pub measurement_type : Bytes
  pub measurement_value : Bytes
  pub version : Option Bytes
  pub signer_id : Bytes

unfoldable pub version_calls : Option Bytes → List Call
version_calls none = []
version_calls (some version) = add_text_to_map sw_version version ∷ []

-- One round of the loop over the components.
unfoldable pub component_calls : SwComponent → List Call
unfolding version_calls
component_calls c =
    open_map
    ∷ add_text_to_map sw_measurement_type c.measurement_type
    ∷ add_bytes_to_map sw_measurement_value c.measurement_value
    ∷ (version_calls c.version ++ (add_bytes_to_map sw_signer_id c.signer_id ∷ close_map ∷ []))

unfoldable pub components_calls : List SwComponent → List Call
components_calls [] = []
components_calls (c ∷ cs) = component_calls c ++ components_calls cs

-- The arguments of `encode_evidence_to_cbor` before the buffer.
pub record Evidence : Type 0 where
  pub eat_profile : Bytes
  pub client_id : ℤ
  pub security_lifecycle : ℤ
  pub implementation_id : Bytes
  pub components : List SwComponent
  pub instance_id : Bytes
  pub nonce : Bytes

unfoldable pub evidence_calls : Evidence → List Call
evidence_calls e =
    open_map
    ∷ add_text_to_map psa_profile_definition e.eat_profile
    ∷ add_int64_to_map psa_client_id e.client_id
    ∷ add_int64_to_map psa_security_lifecycle e.security_lifecycle
    ∷ add_bytes_to_map psa_implementation_id e.implementation_id
    ∷ open_array_in_map psa_sw_components
    ∷ (components_calls e.components
        ++ (close_array
            ∷ add_bytes_to_map psa_nonce e.nonce
            ∷ add_bytes_to_map psa_instance_id e.instance_id
            ∷ close_map
            ∷ []))

unfoldable pub protected_calls : List Call
protected_calls =
    open_map ∷ add_int64_to_map cose_header_param_alg cose_algorithm_es256 ∷ close_map ∷ []

unfoldable pub tbs_calls : (protected aad payload : Bytes) → List Call
tbs_calls protected aad payload =
    open_array
    ∷ add_sz_string signature1
    ∷ add_bytes protected
    ∷ add_bytes aad
    ∷ add_bytes payload
    ∷ close_array
    ∷ []

-- The calls of `generate_cose` on the COSE context, in order.
unfoldable pub cose_calls : (protected payload signature : Bytes) → List Call
cose_calls protected payload signature =
    add_tag tag_cose_sign1
    ∷ open_array
    ∷ add_bytes protected
    ∷ open_map
    ∷ close_map
    ∷ add_bytes payload
    ∷ add_bytes signature
    ∷ close_array
    ∷ []

module _ (encode : ℕ → List Call → Option Bytes) where
  unfoldable pub encode_evidence_to_cbor : Evidence → ℕ → Option Bytes
  encode_evidence_to_cbor e size = encode size (evidence_calls e)

  unfoldable pub encode_protected_parameter : ℕ → Option Bytes
  encode_protected_parameter size = encode size protected_calls

  unfoldable pub create_tbs : (protected aad payload : Bytes) → ℕ → Option Bytes
  create_tbs protected aad payload size = encode size (tbs_calls protected aad payload)

  -- The last calls on the COSE context and its Finish.
  unfoldable pub finish_cose : Bytes → ℕ → Option (Bytes × Bytes) → Option Bytes
  finish_cose evidence size none = none
  finish_cose evidence size (some (protected, signature)) =
      encode size (cose_calls protected evidence signature)

  module _ (sha256 : Bytes → Bytes) (ecdsa : ℕ → Bytes → Bytes → Bytes) where
    -- With both work buffers allocated: the protected header and the signature, or NULL.
    unfoldable pub sign_payload : Bytes → Option Bytes → ℕ → Act (Option (Bytes × Bytes))
    sign_payload evidence key key_len = elim (encode_protected_parameter 256) [
      | none ↦ pure none
      | some protected ↦ elim (create_tbs protected [] evidence 512) [
        | none ↦ pure none
        | some tbs ↦ do
          signed ← attempt (sign_ecdsa_sha256 sha256 ecdsa tbs key key_len)
          pure (Option.map (λ signature. (protected, signature)) signed)
      ]
    ]

    unfoldable pub generate_cose : Bytes → ℕ → Option Bytes → ℕ → Act (Option Bytes)
    generate_cose evidence size key key_len = do
      signed ← with_two_blocks (pure none) (sign_payload evidence key key_len)
      pure (finish_cose evidence size signed)
