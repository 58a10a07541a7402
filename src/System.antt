-- ===== src/System.antt =====
-- How the parts run on top of one another: the TEE core runs a handler on the parameters that it is
-- called with, in some environment and state, and hands back what the handler leaves. The TA calls
-- remote_attestation.c of the PTA in this way, and host/main.c calls remote_attestation_ta.c.
pub mod Attestation
pub mod Attested
pub mod Requested
pub mod Posted
pub mod Succeeds
pub mod Complete
pub mod Run
use optee_ra_fork.Base.{ℕ, ◌≡◌, some, Bytes}
use optee_ra_fork.Tee.{Result, ok, err, fault, Env, St}
use optee_ra_fork.Params.{ParamTypes, Params}
use optee_ra_fork.Pta.{Platform}
use optee_ra_fork.Pta.Caam.{CaamStatus, KeyPair, Reply, invoke_command}
use optee_ra_fork.Ta.{invoke_command_entry_point}

-- What the caller gets for what the handler returned: its reply, or its error. Nothing is known
-- behind undefined behaviour.
unfoldable pub Hands : Reply → Result Reply → Type 0
Hands got (ok reply) = got ≡ reply
Hands got (err e) = got.status ≡ some e
Hands got fault = Unit {0}

-- The parts that the PTA takes from CAAM and the crypto library.
pub record Crypto : Type 0 where
  pub caam : ℕ → CaamStatus
  pub blob : ℕ → Bytes → Bytes
  pub generate : ℕ → KeyPair

-- `invoke` reaches the PTA, in environments with `W`.
pub record RunsPta (W : Env → Type 0) (p : Platform) (c : Crypto)
    (invoke : ℕ → ℕ → ParamTypes → Params → Reply) : Type 0 where
  pub reach :
      (n cmd : ℕ) (param_types : ParamTypes) (params : Params)
      → (env : Env) × (st : St) × W env
        × Hands
            (invoke n cmd param_types params)
            (invoke_command c.caam c.blob p c.generate cmd param_types params env st).0

-- `invoke` reaches the TA, which reaches the PTA, both in environments with `W`.
pub record RunsTa (W : Env → Type 0) (p : Platform) (c : Crypto) (ta_uuid : Bytes)
    (invoke : ℕ → ParamTypes → Params → Reply) : Type 0 where
  pub reach :
      (n : ℕ) (param_types : ParamTypes) (params : Params)
      → (pta : ℕ → ℕ → ParamTypes → Params → Reply) × RunsPta W p c pta
        × ((env : Env) × (st : St) × W env
            × Hands
                (invoke n param_types params)
                (invoke_command_entry_point pta ta_uuid 0 param_types params env st).0)
