-- ===== src/Host/Attest.antt =====
-- About the loop over attestations of attester/remote_attestation/host/main.c.
use optee_ra_fork.Base.{
  ℕ, zero, suc, ◌+◌, ◌≡◌, ◌≢◌, refl, ap₂, sym, Bool, true, false, Option, none, some, List, [], ◌∷◌,
  map, Bytes, All,
}
use optee_ra_fork.Tee.{Error}
use optee_ra_fork.Tee.Rules.{Maybe}
use optee_ra_fork.Params.{ParamTypes, Params, Param, memref, value, size_of}
use optee_ra_fork.Pta.Expected.{contents}
use optee_ra_fork.Base.{inl, inr, Bool-cases, subst, leb, length, ◌==◌}
use optee_ra_fork.Ta.{is_some}
use optee_ra_fork.Verifier.{psa_type_name, Session, open_session}
use optee_ra_fork.Verifier.Freed.{open_session-post_evidence}
use optee_ra_fork.Host.Client.{
  bytes_up_to, request_types, request_params, Attempt, Exit, exit, overrun, World, Round, on,
  stopped, deliver, receive, request_evidence, attest_once, after_round, attest_loop,
}

-- The key parameter of a request.
abbrev pub key_param : Option Bytes → Param
key_param none = memref none 0
key_param (some key) = memref (some key) (length key)

-- The TA was asked in round `iter` with this nonce and this key, and returned this evidence with success.
abbrev pub IsAnswer : World → Option Bytes → ℕ → Bytes → Bytes → Type 0
IsAnswer w key iter nonce evidence =
    (types : ParamTypes) × (params : Params) × (params.p0 ≡ memref (some nonce) (length nonce))
    × (params.p2 ≡ key_param key)
    × ((w.invoke iter types params).status ≡ none)
    × (evidence ≡ contents (w.invoke iter types params).params.p1)

-- What was posted is what the TA returned for the nonce of the session it went to, and as a PSA token.
abbrev pub IsFresh : World → Option Bytes → Attempt → Type 0
IsFresh w key a =
    Maybe
      (λ (p : Session × Bytes × Bytes).
        (a.nonce ≡ p.0.nonce)
        × (p.1 ≡ psa_type_name)
        × (a.evidence ≡ some p.2)
        × ((iter : ℕ) × IsAnswer w key iter p.0.nonce p.2))
      (Unit {0}) a.sent

-- The evidence of an attempt is what the TA returned in its round, for its nonce.
abbrev pub HasAnswer : World → Option Bytes → ℕ → Attempt → Type 0
HasAnswer w key iter a =
    (evidence : Bytes) × (a.evidence ≡ some evidence) × IsAnswer w key iter a.nonce evidence

-- The same for the attempts from a round on.
abbrev pub HaveAnswers : World → Option Bytes → ℕ → List Attempt → Type 0
HaveAnswers w key iter [] = Unit
HaveAnswers w key iter (a ∷ rest) = HasAnswer w key iter a × HaveAnswers w key (iter + 1) rest

-- The nonce of a round.
abbrev pub nonce_of : World → Bool → ℕ → Option Bytes
nonce_of w true iter = w.urandom iter
nonce_of w false iter = elim ((open_session (w.opening iter)).value) [
  | none ↦ none
  | some s ↦ some s.nonce
]

-- A whole attestation: with evidence, and posted unless there is no server.
abbrev pub IsComplete : Bool → Attempt → Type 0
IsComplete no_server a =
    (is_some a.evidence ≡ true)
    × (Maybe (λ (p : Session × Bytes × Bytes). no_server ≡ false) (no_server ≡ true) a.sent)

-- Where the TEE reports success, the size of the evidence is within its buffer.
abbrev pub IsWithin : World → Type 0
IsWithin w =
    (iter : ℕ) (nonce : Bytes) (key : Option Bytes)
    → (w.invoke iter (request_types key) (request_params nonce key)).status ≡ none
    → is_some (
        bytes_up_to (w.invoke iter (request_types key) (request_params nonce key)).params.p1
          (size_of (w.invoke iter (request_types key) (request_params nonce key)).params.p1))
      ≡ true

-- The attempts of a round.
abbrev pub InRound : (Attempt → Type 0) → Round → Type 0
InRound P (on a) = P a
InRound P (stopped e attempts) = All P attempts

-- The properties of one round.
abbrev pub IsGood : World → Option Bytes → Bool → ℕ → Round → Type 0
IsGood w key no_server iter (on a) =
    IsFresh w key a
    × IsComplete no_server a
    × (nonce_of w no_server iter ≡ some a.nonce)
    × HasAnswer w key iter a
IsGood w key no_server iter (stopped e attempts) =
    All (IsFresh w key) attempts × (e ≢ exit 0) × (IsWithin w → e ≢ overrun)

request_params-key_param :
    (nonce : Bytes) (key : Option Bytes) → (request_params nonce key).p2 ≡ key_param key
unfolding request_params
request_params-key_param nonce none = refl
request_params-key_param nonce (some k) = refl

bytes_up_to-contents :
    (p : Param) (evidence : Bytes)
    → bytes_up_to p (size_of p) ≡ some evidence
    → evidence ≡ contents p
unfolding bytes_up_to size_of contents
bytes_up_to-contents (memref (some buffer) size) evidence h =
    elim (Bool-cases (leb size (length buffer))) [
      | inl e ↦ same (rw e at h)
      | inr e ↦ cc (rw e at h)
    ]
  where
    same : {x y : Bytes} → some x ≡ some y → y ≡ x
    same q = cc
bytes_up_to-contents (memref none size) evidence h = elim (Bool-cases (size == 0)) [
  | inl e ↦ same (rw e at h)
  | inr e ↦ cc (rw e at h)
]
  where
    same : {x y : Bytes} → some x ≡ some y → y ≡ x
    same q = cc
bytes_up_to-contents (value a b stale) evidence h = cc h

module _ (w : World) (iter : ℕ) (key : Option Bytes) where
  -- The session that a round posts to, if any, is the one that was opened for it.
  abbrev Opens : Bool → Option Session → Type 0
  Opens no_server none = no_server ≡ true
  Opens no_server (some s) = (no_server ≡ false) × ((open_session (w.opening iter)).value ≡ some s)

  abbrev Serves : Option Session → Bytes → Type 0
  Serves none nonce = Unit {0}
  Serves (some s) nonce = nonce ≡ s.nonce

  deliver-IsGood :
      (no_server : Bool) (session : Option Session) (a : Attempt) (evidence : Bytes)
      → Opens no_server session
      → Serves session a.nonce
      → nonce_of w no_server iter ≡ some a.nonce
      → a.sent ≡ none
      → IsAnswer w key iter a.nonce evidence
      → IsGood w key no_server iter (deliver w session a evidence)
  unfolding deliver is_some
  deliver-IsGood no_server none a evidence o v n q answer =
      rw q ((tt), (refl, o), n, (evidence, refl, answer))
  deliver-IsGood no_server (some s) a evidence o v n q answer =
      rw
        (
          (open_session-post_evidence w.challenge_response (w.opening iter) s evidence o.1).1,
          IsGood,
        )
        (
          (v, refl, refl, (iter, subst (λ m. IsAnswer w key iter m evidence) v answer)),
          (refl, o.0),
          n,
          (evidence, refl, answer),
        )

  receive-IsGood :
      (no_server : Bool) (session : Option Session) (a : Attempt) (status : Option Error)
      (left : Option Bytes)
      → Opens no_server session
      → Serves session a.nonce
      → nonce_of w no_server iter ≡ some a.nonce
      → a.sent ≡ none
      → (IsWithin w → status ≡ none → is_some left ≡ true)
      → ((evidence : Bytes)
          → status ≡ none
          → left ≡ some evidence
          → IsAnswer w key iter a.nonce evidence)
      → IsGood w key no_server iter (receive w session a status left)
  unfolding receive is_some
  receive-IsGood no_server session a (some e) left o v n q f g =
      ((rw q tt, tt), (λ h. cc), λ k h. cc)
  receive-IsGood no_server session a none none o v n q f g =
      ((rw q tt, tt), (λ h. cc), λ k h. cc (f k refl))
  receive-IsGood no_server session a none (some evidence) o v n q f g =
      deliver-IsGood no_server session a evidence o v n q (g evidence refl refl)

  request-IsAnswer :
      (nonce evidence : Bytes)
      → (w.invoke iter (request_types key) (request_params nonce key)).status ≡ none
      → bytes_up_to
          (w.invoke iter (request_types key) (request_params nonce key)).params.p1
          (size_of (w.invoke iter (request_types key) (request_params nonce key)).params.p1)
        ≡ some evidence
      → IsAnswer w key iter nonce evidence
  request-IsAnswer nonce evidence s e = (
    request_types key,
    request_params nonce key,
    unfold request_params in refl,
    request_params-key_param nonce key,
    s,
    bytes_up_to-contents _ evidence e,
  )

  pub attest_once-IsGood :
      (no_server : Bool) → IsGood w key no_server iter (attest_once w no_server key iter)
  unfolding attest_once request_evidence
  attest_once-IsGood true = by_nonce (w.urandom iter) refl
    where
      by_nonce :
          (m : Option Bytes)
          → w.urandom iter ≡ m
          → IsGood w key true iter (elim m [
            | none ↦ stopped (exit 1) []
            | some nonce ↦ request_evidence w iter key none nonce
          ])
      by_nonce none h = (tt, (λ e. cc), λ k e. cc)
      by_nonce (some nonce) h =
          receive-IsGood true none _ _ _ refl tt h refl (λ k. k iter nonce key)
            (request-IsAnswer nonce)
  attest_once-IsGood false = by_session ((open_session (w.opening iter)).value) refl
    where
      by_session :
          (m : Option Session)
          → (open_session (w.opening iter)).value ≡ m
          → IsGood w key false iter (elim m [
            | none ↦ stopped (exit 1) []
            | some s ↦ request_evidence w iter key (some s) s.nonce
          ])
      by_session none h = (tt, (λ e. cc), λ k e. cc)
      by_session (some s) h =
          receive-IsGood false (some s) _ _ _ (refl, h) refl (rw (h, nonce_of)) refl
            (λ k. k iter s.nonce key) (request-IsAnswer s.nonce)

-- The rounds of the loop are independent of one another but for their order.
module _ (w : World) (no_server : Bool) (key : Option Bytes) where
  abbrev pub nonces : ℕ → ℕ → List (Option Bytes)
  nonces zero iter = []
  nonces (suc n) iter = nonce_of w no_server iter ∷ nonces n (iter + 1)

  -- What holds for the attempts of every round holds for all of the loop.
  pub attest_loop-All :
      (P : Attempt → Type 0)
      → ((iter : ℕ) → InRound P (attest_once w no_server key iter))
      → (n iter : ℕ) → All P (attest_loop w no_server key n iter).1
  unfolding attest_loop after_round
  attest_loop-All P once zero iter = tt
  attest_loop-All P once (suc n) iter =
      by_round (attest_loop w no_server key n (iter + 1)) (attest_once w no_server key iter)
        (once iter) (attest_loop-All P once n (iter + 1))
    where
      by_round :
          (rest : Exit × List Attempt) (r : Round)
          → InRound P r
          → All P rest.1
          → All P (after_round r rest).1
      by_round rest (on a) p ps = (p, ps)
      by_round rest (stopped e attempts) p ps = p

  -- Whatever the TEE, the verifier and /dev/urandom answer: every piece of evidence that the loop
  -- posts is what the TA returned, with success, to a request with the nonce of the very session
  -- that it is posted to and with the key, and it is posted as a PSA token.
  pub attest_loop-IsFresh :
      (n iter : ℕ) → All (IsFresh w key) (attest_loop w no_server key n iter).1
  attest_loop-IsFresh = attest_loop-All (IsFresh w key) λ iter.
      fresh_round iter (attest_once w no_server key iter) (attest_once-IsGood w iter key no_server)
    where
      fresh_round :
          (iter : ℕ) (r : Round) → IsGood w key no_server iter r → InRound (IsFresh w key) r
      fresh_round iter (on a) g = g.0
      fresh_round iter (stopped e attempts) g = g.0

  -- If the loop ends with status 0, it made one attempt for each round, in order, with the nonce of
  -- its round, the session's or a local one; the evidence of each is what the TA returned, with
  -- success, to a request of that round with that nonce and the key; and it was posted exactly if
  -- there is a server.
  pub attest_loop-exit :
      (n iter : ℕ)
      → (attest_loop w no_server key n iter).0 ≡ exit 0
      → (map (λ (a : Attempt). some a.nonce) (attest_loop w no_server key n iter).1 ≡ nonces n iter)
        × All (IsComplete no_server) (attest_loop w no_server key n iter).1
        × HaveAnswers w key iter (attest_loop w no_server key n iter).1
  unfolding attest_loop after_round
  attest_loop-exit zero iter h = (refl, tt, tt)
  attest_loop-exit (suc n) iter h =
      by_round (attest_loop w no_server key n (iter + 1)) (attest_once w no_server key iter)
        (attest_once-IsGood w iter key no_server) (attest_loop-exit n (iter + 1)) h
    where
      by_round :
          (rest : Exit × List Attempt) (r : Round)
          → IsGood w key no_server iter r
          → (rest.0 ≡ exit 0
              → (map (λ (a : Attempt). some a.nonce) rest.1 ≡ nonces n (iter + 1))
                × All (IsComplete no_server) rest.1
                × HaveAnswers w key (iter + 1) rest.1)
          → (after_round r rest).0 ≡ exit 0
          → (map (λ (a : Attempt). some a.nonce) (after_round r rest).1 ≡ nonces (suc n) iter)
            × All (IsComplete no_server) (after_round r rest).1
            × HaveAnswers w key iter (after_round r rest).1
      by_round rest (on a) g f q = (ap₂ ◌∷◌ (sym g.2) (f q).0, (g.1, (f q).1), (g.3, (f q).2))
      by_round rest (stopped e attempts) g f q = absurd (g.1 q)

  -- The loop reads no byte outside of the evidence buffer and of the list of media types, where the
  -- TEE, when it reports success, gives a size within its buffer.
  pub attest_loop-within :
      (within : IsWithin w) (n iter : ℕ) → (attest_loop w no_server key n iter).0 ≢ overrun
  unfolding attest_loop after_round
  attest_loop-within within zero iter = λ h. cc
  attest_loop-within within (suc n) iter =
      by_round (attest_loop w no_server key n (iter + 1)) (attest_once w no_server key iter)
        (attest_once-IsGood w iter key no_server) (attest_loop-within within n (iter + 1))
    where
      by_round :
          (rest : Exit × List Attempt) (r : Round)
          → IsGood w key no_server iter r
          → rest.0 ≢ overrun
          → (after_round r rest).0 ≢ overrun
      by_round rest (on a) g f = f
      by_round rest (stopped e attempts) g f = g.2 within
