-- ===== src/Ta/Dispatch.antt =====
-- About `TA_InvokeCommandEntryPoint` of attester/remote_attestation/ta/remote_attestation_ta.c.
use optee_ra_fork.Base.{ℕ, ◌<◌, arith, ◌≡◌, true, false, none, some, ◌==◌, ==→eq, Bytes}
use optee_ra_fork.Tee.{Env, Error, bad_parameters}
use optee_ra_fork.Tee.Resources.{ta_session, Kept-refl}
use optee_ra_fork.Tee.Rules.{
  Ensures, done, Ensures-pure, Ensures-throw, Ensures-bind, Ensures-then, Ensures-if,
  Ensures-require, Ensures-holding,
}
use optee_ra_fork.Tee.Answers.{Answers, Ensures-call}
use optee_ra_fork.Tee.Errors.{Ensures-errors}
use optee_ra_fork.Params.{ParamTypes, Params, Param}
use optee_ra_fork.Pta.Caam.{Reply, is_keypair_types, is_convert_types}
use optee_ra_fork.Pta.Expected.{IsMemref}
use optee_ra_fork.Ta.{pass_on, invoke_command_entry_point}
use optee_ra_fork.Ta.Release.{Ensures-call_pta_for_cbor_evidence}
use optee_ra_fork.Ta.Answers.{answer, KeepsOutput, IsForwarded, Failure}

module _ (invoke : ℕ → ℕ → ParamTypes → Params → Reply) (ta_uuid : Bytes) (cmd_id : ℕ)
    (param_types : ParamTypes) (params : Params) where
  -- What a command replies: evidence in the output, or the answer of the PTA as it is.
  pub data Served : Reply → Type 0 where
    evidence :
        {out : Param}
        → cmd_id ≡ 0
        → IsForwarded invoke ta_uuid param_types params out
        → Served (record { params = record params { p1 = out }; status = none })
    keypair :
        (n : ℕ)
        → cmd_id ≡ 1
        → is_keypair_types param_types ≡ true
        → Served (invoke n 1 param_types params)
    black_key :
        (n : ℕ)
        → cmd_id ≡ 2
        → is_convert_types param_types ≡ true
        → Served (invoke n 2 param_types params)

  -- Why a command fails: the request for evidence fails, the parameter types are refused, there is
  -- no session, or no such command.
  pub data Unserved (F : Error → Type 0) : Error → Type 0 where
    no_evidence :
        {e : Error} → cmd_id ≡ 0 → Failure invoke ta_uuid F param_types params e → Unserved F e
    no_keypair : cmd_id ≡ 1 → is_keypair_types param_types ≡ false → Unserved F bad_parameters
    no_black_key : cmd_id ≡ 2 → is_convert_types param_types ≡ false → Unserved F bad_parameters
    no_session : {e : Error} → F e → Unserved F e
    no_command : 2 < cmd_id → Unserved F bad_parameters

Ensures-pass_on :
    {env : Env} {L : Type 0} {E : Error → Type 0} {P : Reply → Type 0}
    (invoke : ℕ → ℕ → ParamTypes → Params → Reply) (ta_uuid : Bytes) (cmd : ℕ) (ts : ParamTypes)
    (ps : Params)
    → Answers env E
    → ((n : ℕ) → P (invoke n cmd ts ps))
    → Ensures env L P E (pass_on invoke ta_uuid cmd ts ps)
unfolding pass_on
Ensures-pass_on invoke ta_uuid cmd ts ps answers is =
    Ensures-then (Ensures-call answers)
      (Ensures-holding ta_session (record { run = λ st. done (is st.calls) (Kept-refl st.held) }))

-- `TA_InvokeCommandEntryPoint`, where the buffers of a request for evidence are as long as they say
-- and the TEE core returns an output buffer with the length it was passed: for any command it makes
-- no access out of bounds, and it closes its session and frees its buffers on every path. It replies
-- with the evidence, or with what the PTA answers to a CAAM command of the expected parameter
-- types, or it fails: TEE_ERROR_BAD_PARAMETERS on refused parameters and on other commands,
-- TEE_ERROR_SHORT_BUFFER on evidence that is too long, or an error of the TEE core or the PTA.
pub Ensures-invoke_command_entry_point :
    (invoke : ℕ → ℕ → ParamTypes → Params → Reply) (ta_uuid : Bytes) (env : Env)
    (F : Error → Type 0) (cmd_id : ℕ) (param_types : ParamTypes) (params : Params)
    → Answers env F
    → (cmd_id ≡ 0
        → ((n : ℕ) (e : Error) → (answer invoke ta_uuid param_types params n).status ≡ some e → F e)
          × KeepsOutput invoke ta_uuid param_types params
          × IsMemref params.p0
          × IsMemref params.p1
          × IsMemref params.p2)
    → Ensures env ⊥
        (Served invoke ta_uuid cmd_id param_types params)
        (Unserved invoke ta_uuid cmd_id param_types params F)
        (invoke_command_entry_point invoke ta_uuid cmd_id param_types params)
unfolding invoke_command_entry_point
Ensures-invoke_command_entry_point invoke ta_uuid env F cmd_id param_types params answers fit =
    Ensures-if (cmd_id == 0)
      (λ c.
        let zeroth : cmd_id ≡ 0 = ==→eq cmd_id 0 c in
        let (errors, keeps, m0, m1, m2) = fit zeroth in
        Ensures-bind
          (Ensures-errors (λ e. no_evidence zeroth)
            (Ensures-call_pta_for_cbor_evidence invoke ta_uuid env F param_types params answers
              errors keeps m0 m1 m2))
          λ out is. Ensures-pure _ (evidence zeroth is))
      λ c0.
        Ensures-if (cmd_id == 1)
          (λ c.
            Ensures-bind (Ensures-require bad_parameters _ (no_keypair (==→eq cmd_id 1 c))) λ u fit.
              Ensures-pass_on invoke ta_uuid 1 param_types params failures
                λ n. keypair n (==→eq cmd_id 1 c) fit)
          λ c1.
            Ensures-if (cmd_id == 2)
              (λ c.
                Ensures-bind (Ensures-require bad_parameters _ (no_black_key (==→eq cmd_id 2 c)))
                  λ u fit.
                    Ensures-pass_on invoke ta_uuid 2 param_types params failures
                      λ n. black_key n (==→eq cmd_id 2 c) fit)
              λ c2. Ensures-throw bad_parameters (no_command (above cmd_id c0 c1 c2))
  where
    failures : Answers env (Unserved invoke ta_uuid cmd_id param_types params F)
    failures = record {
      status_errors = λ n e q. no_session (answers.status_errors n e q);
      malloc_errors = λ n q. no_session (answers.malloc_errors n q);
    }

    above : (n : ℕ) → (n == 0) ≡ false → (n == 1) ≡ false → (n == 2) ≡ false → 2 < n
    above n c0 c1 c2 = ground arith
