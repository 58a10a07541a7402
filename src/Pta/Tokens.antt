-- ===== src/Pta/Tokens.antt =====
-- What `cmd_get_cbor_evidence` promises: the parameters it accepts, the token it returns and the reasons
-- for its errors.
use optee_ra_fork.Base.{ℕ, ◌≤◌, ◌<◌, ◌≡◌, ◌⊎◌, Bool, true, false, none, some, ◌&&◌, Bytes, length}
use optee_ra_fork.Tee.{Error, bad_parameters, generic}
use optee_ra_fork.Hash.{VmInfo}
use optee_ra_fork.Cbor.{Evidence}
use optee_ra_fork.Cbor.Item.{Item}
use optee_ra_fork.Cbor.Token.{evidence_item}
use optee_ra_fork.Cbor.Signed.{IsCose, NoCose}
use optee_ra_fork.Params.{ParamTypes, Param, Params, memref, value, accepts_evidence, has_key}
use optee_ra_fork.Pta.{Platform, Keys}
use optee_ra_fork.Pta.Buffers.{filled, is_given}
use optee_ra_fork.Pta.Expected.{IsClientId, contents, keys_of, expected, is_long_enough}

-- The buffer of an output parameter, if it has one, holds a message of 512 bytes.
abbrev pub HasRoom : Param → Type 0
HasRoom (memref none size) = Unit
HasRoom (memref (some buffer) size) = 512 ≤ length buffer
HasRoom (value a b stale) = ⊥

-- The command accepts the parameters.
unfoldable pub is_accepted : ParamTypes → Params → Bool
is_accepted param_types params =
    (accepts_evidence param_types && (is_given params.p0 && is_given params.p1))
    && is_long_enough (has_key param_types) params.p3

module _ (p : Platform) (cbor : Item → Bytes) (info : VmInfo) (param_types : ParamTypes)
    (params : Params) where
  abbrev pub used_keys : Keys
  used_keys = keys_of (has_key param_types) params.p3

  -- The claims that the token makes about a caller with this id.
  abbrev pub claims : ℕ → Evidence
  claims id = expected p info id (contents params.p0) used_keys

  abbrev pub payload : ℕ → Bytes
  payload id = cbor (evidence_item (claims id))

module _ (p : Platform) (cbor : Item → Bytes) (info : VmInfo) (param_types : ParamTypes)
    (params : Params) (F : Error → Type 0) where
  -- The output parameter holds a signed message over the claims of the caller.
  abbrev pub IsToken : Param → Type 0
  IsToken out =
      (is_accepted param_types params ≡ true)
      × ((id : ℕ) × IsClientId F p.sha256 params.p2 id
          × ((cose : Bytes) × IsCose cbor p.sha256 p.ecdsa
                (payload p cbor info param_types params id) 512
                (used_keys p cbor info param_types params).black_key
                (used_keys p cbor info param_types params).black_len cose
              × (out ≡ filled params.p1 cose)))

  -- Why the claims of the caller have no message.
  abbrev pub Unencodable : Type 0
  Unencodable =
      (id : ℕ) × IsClientId F p.sha256 params.p2 id
      × ((512 < length (payload p cbor info param_types params id))
          ⊎ NoCose cbor p.sha256 p.ecdsa F (payload p cbor info param_types params id) 512
              (used_keys p cbor info param_types params).black_key
              (used_keys p cbor info param_types params).black_len)

  -- The errors of the command, with those that the called libraries return in `F`.
  pub data Reason : Error → Type 0 where
    refused : is_accepted param_types params ≡ false → Reason bad_parameters
    library : {e : Error} → F e → Reason e
    unencodable : Unencodable → Reason generic
