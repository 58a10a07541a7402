-- ===== src/System/Succeeds.antt =====
-- The host, the TA and the PTA in a world where no call fails and every message fits.
use optee_ra_fork.Base.{
  ℕ, ◌≤◌, ◌<◌, arith, ◌≡◌, refl, sym, ap, subst, true, false, Option, none, some, ◌==◌, ◌⊎◌, inl,
  inr, length-replicate, le→leb, Bytes, length,
}
use optee_ra_fork.Tee.{Result, Env, St, Act, Error, bad_parameters, ok, pure, ◌>>=◌}
use optee_ra_fork.Tee.Answers.{Answers, Outcome-succeeds}
use optee_ra_fork.Hash.{VmInfo}
use optee_ra_fork.Sign.Correct.{signing_key}
use optee_ra_fork.Cbor.Item.{Item}
use optee_ra_fork.Cbor.Token.{evidence_item}
use optee_ra_fork.Cbor.Signed.{protected_bytes, to_be_signed, cose_bytes}
use optee_ra_fork.Params.{
  ParamTypes, Param, Params, memref, accepts_evidence, has_key, buffer_of, size_of, is_null,
}
use optee_ra_fork.Pta.{Platform, Keys}
use optee_ra_fork.Pta.Expected.{contents, IsMemref, IsClientId, expected}
use optee_ra_fork.Pta.Command.{get_cbor_evidence}
use optee_ra_fork.Ta.Answers.{is_request, answer, packed_key}
use optee_ra_fork.Pta.Tokens.{is_accepted}
use optee_ra_fork.Pta.Evidence.Certain.{get_cbor_evidence-succeeds}
use optee_ra_fork.Pta.Caam.{Reply, invoke_command}
use optee_ra_fork.System.Attested.{zeros, Ensures-IsAttestation}
use optee_ra_fork.Ta.{invoke_command_entry_point, is_some, forward_types, forward_params}
use optee_ra_fork.Host.Sendable.{IsSendable}
use optee_ra_fork.System.{Hands, Crypto, RunsPta}
use optee_ra_fork.System.Attestation.{keys_for, IsReady, contents-whole}

-- No call and no allocation fails.
abbrev pub IsCalm : Env → Type 0
IsCalm env = ((n : ℕ) → env.status n ≡ none) × ((n : ℕ) → env.malloc_ok n ≡ true)

-- The claims for a nonce, and the three encodings over them, fit into the buffers of the PTA.
pub record Fits (p : Platform) (cbor : Item → Bytes) (info : VmInfo) (ta_uuid nonce : Bytes)
    (k : Keys) : Type 0 where
  pub header : length (protected_bytes cbor p.sha256 p.ecdsa) ≤ 256
  pub claims :
      (id : ℕ)
      → IsClientId (λ _. ⊥) p.sha256 (memref (some ta_uuid) 16) id
      → length (cbor (evidence_item (expected p info id nonce k))) ≤ 512
  pub structure :
      (id : ℕ)
      → IsClientId (λ _. ⊥) p.sha256 (memref (some ta_uuid) 16) id
      → length
          (to_be_signed cbor p.sha256 p.ecdsa (cbor (evidence_item (expected p info id nonce k))))
        ≤ 512
  pub message :
      (id seed : ℕ)
      → IsClientId (λ _. ⊥) p.sha256 (memref (some ta_uuid) 16) id
      → length (
          cose_bytes cbor p.sha256 p.ecdsa (cbor (evidence_item (expected p info id nonce k))) (
            p.ecdsa seed (signing_key k.black_key k.black_len) (
              p.sha256 (
                to_be_signed cbor p.sha256 p.ecdsa
                  (cbor (evidence_item (expected p info id nonce k)))))))
        ≤ 512

-- The parameters that the TA forwards are accepted.
forward_params-is_accepted :
    (nonce out ta_uuid : Bytes) (key : Option Bytes)
    → 0 < length nonce
    → 0 < length out
    → IsSendable key
    → is_accepted (forward_types (is_some key)) (forward_params nonce out ta_uuid key) ≡ true
unfolding is_accepted forward_types forward_params is_some accepts_evidence has_key buffer_of
    size_of is_null
forward_params-is_accepted nonce out ta_uuid none n o s =
    let e : (length nonce == 0) ≡ false = ground (arith, n) in
    let f : (length out == 0) ≡ false = ground (arith, o) in rw (e, f) refl
forward_params-is_accepted nonce out ta_uuid (some key) n o s =
    let e : (length nonce == 0) ≡ false = ground (arith, n) in
    let f : (length out == 0) ≡ false = ground (arith, o) in
    rw (e, f, le→leb 65 (length key) s) refl

bind-ok :
    {A B : Type 0} (m : Act A) (f : A → Act B) (env : Env) (st st' : St) (a : A)
    → m env st ≡ (ok a, st')
    → (m >>= f) env st ≡ f a env st'
unfolding ◌>>=◌
bind-ok m f env st st' a h = rw (h, ◌>>=◌) refl

module _ {p : Platform} {cbor : Item → Bytes} {info : VmInfo} (c : Crypto)
    (ready : IsReady p cbor info) where
  -- The PTA on the parameters that the TA forwards.
  get_cbor_evidence-forwarded :
      (env : Env) (st : St) (nonce out ta_uuid : Bytes) (key : Option Bytes)
      → IsCalm env
      → 512 ≤ length out
      → 16 ≤ length ta_uuid
      → is_accepted (forward_types (is_some key)) (forward_params nonce out ta_uuid key) ≡ true
      → Fits p cbor info ta_uuid (contents (memref (some nonce) (length nonce))) (keys_for key)
      → (p1 : Param) × (st' : St) × (get_cbor_evidence p
            (forward_types (is_some key))
            (forward_params nonce out ta_uuid key)
            env
            st
          ≡ (ok p1, st'))
  unfolding forward_types forward_params is_some has_key
  get_cbor_evidence-forwarded env st nonce out ta_uuid none (calls, mallocs) room uuid accepted
        fits =
      let (p1, st', e, token, held) =
        get_cbor_evidence-succeeds p cbor info _ (forward_params nonce out ta_uuid none) env st
          ready.encodes calls mallocs ready.digests ready.words ready.running accepted (omega arith)
          room uuid refl fits.claims fits.header fits.structure fits.message in
      (p1, st', e)
  get_cbor_evidence-forwarded env st nonce out ta_uuid (some key) (calls, mallocs) room uuid
        accepted fits =
      let (p1, st', e, token, held) =
        get_cbor_evidence-succeeds p cbor info _ (forward_params nonce out ta_uuid (some key)) env
          st ready.encodes calls mallocs ready.digests ready.words ready.running accepted
          (omega arith) room uuid (omega arith) fits.claims fits.header fits.structure
          fits.message in
      (p1, st', e)

  forwarded-succeeds :
      (env : Env) (st : St) (nonce out ta_uuid : Bytes) (key : Option Bytes)
      → IsCalm env
      → 512 ≤ length out
      → 16 ≤ length ta_uuid
      → 0 < length nonce
      → IsSendable key
      → Fits p cbor info ta_uuid nonce (keys_for key)
      → (params : Params) × ((invoke_command c.caam c.blob p c.generate 0
            (forward_types (is_some key))
            (forward_params nonce out ta_uuid key)
            env
            st).0
          ≡ ok (record { params = params; status = none }))
  unfolding invoke_command pure
  forwarded-succeeds env st nonce out ta_uuid key calm room uuid n s fits =
      let (p1, st', e) =
        get_cbor_evidence-forwarded env st nonce out ta_uuid key calm room uuid
          (forward_params-is_accepted nonce out ta_uuid key n (omega (arith, room)) s)
          (subst (λ m. Fits p cbor info ta_uuid m (keys_for key)) (sym (contents-whole nonce))
            fits) in
      (_, ap (λ (r : Result Reply × St). r.0) (bind-ok _ _ env st st' p1 e))

  module _ (invoke : ℕ → ℕ → ParamTypes → Params → Reply) (ta_uuid : Bytes)
      (runs : RunsPta IsCalm p c invoke) (uuid : 16 ≤ length ta_uuid) (param_types : ParamTypes)
      (params : Params) (room : 512 ≤ size_of params.p1)
      (some_nonce : 0 < length (contents params.p0))
      (sendable : IsSendable (packed_key param_types params.p2))
      (fits : Fits p cbor info ta_uuid
        (contents params.p0)
        (keys_for (packed_key param_types params.p2))) where
    -- The PTA answers the request of the TA without an error.
    answer-succeeds : (n : ℕ) → (answer invoke ta_uuid param_types params n).status ≡ none
    unfolding Hands
    answer-succeeds n =
        let key = packed_key param_types params.p2 in
        let (env, st, calm, hands) =
          runs.reach n 0 (forward_types (is_some key))
            (forward_params (contents params.p0) (zeros (size_of params.p1)) ta_uuid key) in
        let (after, e) =
          forwarded-succeeds env st (contents params.p0) (zeros (size_of params.p1)) ta_uuid key
            calm (omega (arith, length-replicate {A = ℕ} (size_of params.p1) 0, room)) uuid
            some_nonce sendable fits in
        ap (λ (r : Reply). r.status)
          (subst (Hands (answer invoke ta_uuid param_types params n)) e hands)

    -- The TA answers its caller without an error.
    pub call_pta-succeeds :
        (env : Env) (st : St)
        → IsCalm env
        → is_request param_types params ≡ true
        → IsMemref params.p0
        → IsMemref params.p1
        → IsMemref params.p2
        → (after : Params) × ((invoke_command_entry_point invoke ta_uuid 0 param_types params env
              st).0
            ≡ ok (record { params = after; status = none }))
    unfolding invoke_command_entry_point pure
    call_pta-succeeds env st (calls, mallocs) accepted m0 m1 m2 =
        let (out, st', e, is, held) = Outcome-succeeds no_error (
          (Ensures-IsAttestation c ready invoke ta_uuid runs uuid env (λ _. ⊥) param_types params
              answers (λ n x q. cc (answer-succeeds n, q)) room m0 m1 m2).run
            st) in
        (_, ap (λ (r : Result Reply × St). r.0) (bind-ok _ _ env st st' out e))
      where
        answers : Answers env (λ _. ⊥)
        answers = record {
          status_errors = λ n e q. cc (calls n, q);
          malloc_errors = λ n q. cc (mallocs n, q);
        }

        no_error :
            (e : Error) → ⊥ ⊎ ((is_request param_types params ≡ false) × (e ≡ bad_parameters)) → ⊥
        no_error e (inl n) = n
        no_error e (inr (q, h)) = cc (accepted, q)
