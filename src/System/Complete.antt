-- ===== src/System/Complete.antt =====
-- The loop over attestations in a world where no call fails and every message fits.
use optee_ra_fork.Base.{
  ℕ, zero, suc, ◌+◌, ◌≤◌, ◌<◌, arith, ◌≡◌, refl, sym, ap, subst, ◌∙◌, Bool, true, false, Option,
  none, some, List, [], map, ◌==◌, leb→le, Bytes, length, All,
}
use optee_ra_fork.Hash.{VmInfo}
use optee_ra_fork.Cbor.Item.{Item}
use optee_ra_fork.Params.{buffer_of, size_of, is_null}
use optee_ra_fork.Pta.{Platform}
use optee_ra_fork.Pta.Caam.{Reply}
use optee_ra_fork.Ta.{accepts_request}
use optee_ra_fork.Ta.Answers.{is_request, packed_key}
use optee_ra_fork.Verifier.{Session, open_session}
use optee_ra_fork.Verifier.Freed.{open_session-post_evidence}
use optee_ra_fork.Host.Client.{
  request_types, request_params, Attempt, Exit, exit, World, Round, on, stopped, deliver, receive,
  request_evidence, attest_once, after_round, attest_loop,
}
use optee_ra_fork.Host.Attest.{IsComplete, nonce_of, nonces, attest_loop-exit}
use optee_ra_fork.System.{Hands, Crypto, RunsTa}
use optee_ra_fork.System.Attestation.{keys_for, IsReady, contents-whole}
use optee_ra_fork.System.Requested.{packed_key-usable, request_params-IsMemref, invoke-attested}
use optee_ra_fork.Host.Sendable.{IsSendable, usable_key-sendable}
use optee_ra_fork.System.Succeeds.{IsCalm, Fits, call_pta-succeeds}

-- The TA takes up the requests of the host.
request_params-is_request :
    (nonce : Bytes) (key : Option Bytes)
    → 0 < length nonce
    → is_request (request_types key) (request_params nonce key) ≡ true
unfolding request_types request_params accepts_request buffer_of size_of is_null
request_params-is_request nonce none n =
    let e : (length nonce == 0) ≡ false = ground (arith, n) in rw e refl
request_params-is_request nonce (some key) n =
    let e : (length nonce == 0) ≡ false = ground (arith, n) in rw e refl

-- A round after which the loop goes on.
abbrev GoesOn : Round → Type 0
GoesOn (on a) = Unit {0}
GoesOn (stopped e attempts) = ⊥

module _ {p : Platform} {cbor : Item → Bytes} {info : VmInfo} (c : Crypto)
    (ready : IsReady p cbor info) (ta_uuid : Bytes) (uuid : 16 ≤ length ta_uuid) (w : World)
    (runs : RunsTa IsCalm p c ta_uuid w.invoke) (key : Option Bytes)
    (sendable : IsSendable key) where
  -- The nonce of a request is not empty, and all over it fits.
  abbrev IsServed : Bytes → Type 0
  IsServed nonce = (0 < length nonce) × Fits p cbor info ta_uuid nonce (keys_for key)

  invoke-succeeds :
      (iter : ℕ) (nonce : Bytes)
      → IsServed nonce
      → (w.invoke iter (request_types key) (request_params nonce key)).status ≡ none
  unfolding request_params size_of Hands
  invoke-succeeds iter nonce (some_nonce, fits) =
      let (pta, pta_runs, (env, st, calm, hands)) =
        runs.reach iter (request_types key) (request_params nonce key) in
      let same_nonce = sym (contents-whole nonce) in
      let same_key = sym (packed_key-usable nonce key ∙ usable_key-sendable key sendable) in
      let (after, e) =
        call_pta-succeeds c ready pta ta_uuid pta_runs uuid (request_types key)
          (request_params nonce key) (leb→le 512 1024 refl)
          (subst (λ n. 0 < length n) same_nonce some_nonce) (subst IsSendable same_key sendable)
          (subst
            (λ n.
              Fits p cbor info ta_uuid n
                (keys_for (packed_key (request_types key) (request_params nonce key).p2)))
            same_nonce (subst (λ k. Fits p cbor info ta_uuid nonce (keys_for k)) same_key fits))
          env st calm (request_params-is_request nonce key some_nonce) (omega arith)
          (leb→le 1024 1024 refl) (request_params-IsMemref nonce key) in
      ap (λ (r : Reply). r.status)
        (subst (Hands (w.invoke iter (request_types key) (request_params nonce key))) e hands)

  request-GoesOn :
      (iter : ℕ) (session : Option Session) (nonce : Bytes)
      → ((s : Session) → session ≡ some s → (open_session (w.opening iter)).value ≡ some s)
      → IsServed nonce
      → GoesOn (request_evidence w iter key session nonce)
  unfolding request_evidence receive deliver
  request-GoesOn iter none nonce opens served =
      let good = invoke-succeeds iter nonce served in
      let (cose, is, e) = invoke-attested c ready ta_uuid uuid w runs key iter nonce good in
      rw (good, e, GoesOn) tt
  request-GoesOn iter (some s) nonce opens served =
      let good = invoke-succeeds iter nonce served in
      let (cose, is, e) = invoke-attested c ready ta_uuid uuid w runs key iter nonce good in
      let (unfreed, posted) =
        open_session-post_evidence w.challenge_response (w.opening iter) s cose (opens s refl) in
      rw (good, e, posted, GoesOn) tt

  attest_once-GoesOn :
      (no_server : Bool) (iter : ℕ) (nonce : Bytes)
      → nonce_of w no_server iter ≡ some nonce
      → IsServed nonce
      → GoesOn (attest_once w no_server key iter)
  unfolding attest_once
  attest_once-GoesOn true iter nonce h served =
      rw (h, GoesOn) (request-GoesOn iter none nonce (λ s e. cc e) served)
  attest_once-GoesOn false iter nonce h served =
      by_session (open_session (w.opening iter)).value refl h
    where
      by_session :
          (m : Option Session)
          → (open_session (w.opening iter)).value ≡ m
          → (elim m as (λ _. Option Bytes) [ none ↦ none | some s ↦ some s.nonce ]) ≡ some nonce
          → GoesOn (elim m [
            | none ↦ stopped (exit 1) []
            | some s ↦ request_evidence w iter key (some s) s.nonce
          ])
      by_session none o e = cc e
      by_session (some s) o e =
          request-GoesOn iter (some s) s.nonce (λ t q. o ∙ q) (subst IsServed (same e) served)
        where
          same : {x y : Bytes} → some x ≡ some y → y ≡ x
          same q = cc

  -- No round stops the loop.
  attest_loop-ends :
      (no_server : Bool)
      → ((i : ℕ) → GoesOn (attest_once w no_server key i))
      → (n iter : ℕ) → (attest_loop w no_server key n iter).0 ≡ exit 0
  unfolding attest_loop after_round
  attest_loop-ends no_server goes zero iter = refl
  attest_loop-ends no_server goes (suc n) iter =
      by_round (attest_loop w no_server key n (iter + 1)) (attest_once w no_server key iter)
        (goes iter) (attest_loop-ends no_server goes n (iter + 1))
    where
      by_round :
          (rest : Exit × List Attempt) (r : Round)
          → GoesOn r
          → rest.0 ≡ exit 0
          → (after_round r rest).0 ≡ exit 0
      by_round rest (on a) g h = h
      by_round rest (stopped e attempts) g h = elim g [ ]

  -- The loop over attestations, where the requests of the host reach the TA and those of the TA the
  -- PTA, on a platform that is ready: if no call and no allocation fails in the TEE, each round has
  -- a nonce that is not empty, the key is one that the PTA takes, and the claims and the messages
  -- over them fit, then the loop ends with status 0, after one complete attestation for each round,
  -- in order, with the nonce of that round, posted exactly if there is a server.
  pub attest_loop-completes :
      (no_server : Bool) (n iter : ℕ)
      → ((i : ℕ)
          → (nonce : Bytes) × (nonce_of w no_server i ≡ some nonce)
            × (0 < length nonce)
            × Fits p cbor info ta_uuid nonce (keys_for key))
      → ((attest_loop w no_server key n iter).0 ≡ exit 0)
        × (map (λ (a : Attempt). some a.nonce) (attest_loop w no_server key n iter).1
            ≡ nonces w no_server key n iter)
        × All (IsComplete no_server) (attest_loop w no_server key n iter).1
  attest_loop-completes no_server n iter served =
      let goes = λ (i : ℕ).
        let (nonce, h, good, fits) = served i in
        attest_once-GoesOn no_server i nonce h (good, fits) in
      let ends = attest_loop-ends no_server goes n iter in
      let (in_order, whole, answers) = attest_loop-exit w no_server key n iter ends in
      (ends, in_order, whole)
