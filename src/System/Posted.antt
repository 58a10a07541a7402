-- ===== src/System/Posted.antt =====
-- What the host program posts when its requests reach the TA, and those of the TA the PTA.
use optee_ra_fork.System.Requested.{invoke-attested, invoke-IsWithin}
use optee_ra_fork.Base.{
  ℕ, ◌≤◌, ◌≡◌, ◌≢◌, refl, Bool, true, false, Option, none, some, [], Bytes, length, All, All-both,
  subst,
}
use optee_ra_fork.Tee.{Env, Error}
use optee_ra_fork.Tee.Rules.{Maybe}
use optee_ra_fork.Hash.{VmInfo}
use optee_ra_fork.Cbor.Item.{Item}
use optee_ra_fork.Pta.{Platform}
use optee_ra_fork.Verifier.{Returned, post_evidence, psa_type_name, Session, open_session}
use optee_ra_fork.Host.Client.{
  usable_key, Attempt, exit, overrun, World, stopped, deliver, receive, request_evidence,
  attest_once, attest_loop,
}
use optee_ra_fork.Host.Attest.{
  IsFresh, InRound, attest_loop-All, attest_loop-IsFresh, attest_loop-within,
}
use optee_ra_fork.System.{Crypto, RunsTa}
use optee_ra_fork.System.Attestation.{IsReady, IsAttestation}

-- The evidence of an attempt, if it got any, is a token for its nonce.
abbrev pub IsGenuine : Platform → (Item → Bytes) → VmInfo → Bytes → Option Bytes → Attempt → Type 0
IsGenuine p cbor info ta_uuid key a =
    Maybe (IsAttestation p cbor info ta_uuid a.nonce (usable_key key)) (Unit {0}) a.evidence

-- What an attempt posted, if it posted anything, is a token for the nonce of the session.
abbrev pub IsPosted : Platform → (Item → Bytes) → VmInfo → Bytes → Option Bytes → Attempt → Type 0
IsPosted p cbor info ta_uuid key a =
    Maybe
      (λ (s : Session × Bytes × Bytes).
        (s.1 ≡ psa_type_name) × IsAttestation p cbor info ta_uuid s.0.nonce (usable_key key) s.2)
      (Unit {0}) a.sent

module _ {p : Platform} {cbor : Item → Bytes} {info : VmInfo} (c : Crypto)
    (ready : IsReady p cbor info) (ta_uuid : Bytes) (uuid : 16 ≤ length ta_uuid) where
  module _ {W : Env → Type 0} (w : World) (runs : RunsTa W p c ta_uuid w.invoke)
      (key : Option Bytes) where
    deliver-IsGenuine :
        (session : Option Session) (a : Attempt) (evidence : Bytes)
        → IsAttestation p cbor info ta_uuid a.nonce (usable_key key) evidence
        → InRound (IsGenuine p cbor info ta_uuid key) (deliver w session a evidence)
    unfolding deliver
    deliver-IsGenuine none a evidence is = is
    deliver-IsGenuine (some s) a evidence is =
        by_post (post_evidence w.challenge_response s evidence) refl
      where
        by_post :
            (r : Option (Returned (Bytes × Bool)))
            → post_evidence w.challenge_response s evidence ≡ r
            → InRound (IsGenuine p cbor info ta_uuid key) (deliver w (some s) a evidence)
        by_post none h = rw (h, InRound) (is, tt)
        by_post (some r) h = rw (h, InRound) is

    receive-IsGenuine :
        (session : Option Session) (a : Attempt) (status : Option Error) (left : Option Bytes)
        → a.evidence ≡ none
        → (status ≡ none
            → (cose : Bytes) × IsAttestation p cbor info ta_uuid a.nonce (usable_key key) cose
              × (left ≡ some cose))
        → InRound (IsGenuine p cbor info ta_uuid key) (receive w session a status left)
    unfolding receive
    receive-IsGenuine session a (some e) left q f = (rw q tt, tt)
    receive-IsGenuine session a none none q f = (rw q tt, tt)
    receive-IsGenuine session a none (some evidence) q f =
        let (cose, is, e) = f refl in
        deliver-IsGenuine session a evidence
          (subst (IsAttestation p cbor info ta_uuid a.nonce (usable_key key)) (same e) is)
      where
        same : {x y : Bytes} → some x ≡ some y → y ≡ x
        same h = cc

    request-IsGenuine :
        (iter : ℕ) (session : Option Session) (nonce : Bytes)
        → InRound (IsGenuine p cbor info ta_uuid key) (request_evidence w iter key session nonce)
    unfolding request_evidence
    request-IsGenuine iter session nonce =
        receive-IsGenuine session _ _ _ refl
          (invoke-attested c ready ta_uuid uuid w runs key iter nonce)

    attest_once-IsGenuine :
        (no_server : Bool) (iter : ℕ)
        → InRound (IsGenuine p cbor info ta_uuid key) (attest_once w no_server key iter)
    unfolding attest_once
    attest_once-IsGenuine true iter = by_nonce (w.urandom iter)
      where
        by_nonce :
            (m : Option Bytes)
            → InRound (IsGenuine p cbor info ta_uuid key) (elim m [
              | none ↦ stopped (exit 1) []
              | some nonce ↦ request_evidence w iter key none nonce
            ])
        by_nonce none = tt
        by_nonce (some nonce) = request-IsGenuine iter none nonce
    attest_once-IsGenuine false iter = by_session (open_session (w.opening iter)).value
      where
        by_session :
            (m : Option Session)
            → InRound (IsGenuine p cbor info ta_uuid key) (elim m [
              | none ↦ stopped (exit 1) []
              | some s ↦ request_evidence w iter key (some s) s.nonce
            ])
        by_session none = tt
        by_session (some s) = request-IsGenuine iter (some s) s.nonce

    fresh-IsPosted :
        (a : Attempt)
        → IsFresh w key a
        → IsGenuine p cbor info ta_uuid key a
        → IsPosted p cbor info ta_uuid key a
    fresh-IsPosted a fresh genuine = by_parts a.nonce a.evidence a.sent fresh genuine
      where
        by_parts :
            (nonce : Bytes) (evidence : Option Bytes) (sent : Option (Session × Bytes × Bytes))
            → IsFresh w key (record a { nonce = nonce; evidence = evidence; sent = sent })
            → IsGenuine p cbor info ta_uuid key
                (record a { nonce = nonce; evidence = evidence; sent = sent })
            → IsPosted p cbor info ta_uuid key
                (record a { nonce = nonce; evidence = evidence; sent = sent })
        by_parts nonce evidence none fresh genuine = tt
        by_parts nonce evidence (some s) (n, t, e, answer) genuine = (
          t,
          subst (λ m. IsAttestation p cbor info ta_uuid m (usable_key key) s.2) n
              (subst
                (λ got.
                  Maybe (IsAttestation p cbor info ta_uuid nonce (usable_key key)) (Unit {0}) got)
                e genuine),
        )

    -- The loop over attestations, where the requests of the host reach the TA and those of the TA
    -- the PTA, on a platform that is ready, whatever fails on the way: all that it posts are
    -- COSE_Sign1 messages over the claims of this TA, with the nonce of the very session that each
    -- is posted to and signed with the key of the command line, as PSA tokens; and it never reads
    -- outside of its buffers.
    pub attest_loop-posts :
        (no_server : Bool) (n iter : ℕ)
        → All (IsPosted p cbor info ta_uuid key) (attest_loop w no_server key n iter).1
          × ((attest_loop w no_server key n iter).0 ≢ overrun)
    attest_loop-posts no_server n iter = (
      All-both fresh-IsPosted _ (attest_loop-IsFresh w no_server key n iter) (
          attest_loop-All w no_server key (IsGenuine p cbor info ta_uuid key)
            (attest_once-IsGenuine no_server) n iter),
      attest_loop-within w no_server key (invoke-IsWithin c ready ta_uuid uuid w runs) n iter,
    )
