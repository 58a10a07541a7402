-- ===== src/Ta/Release.antt =====
-- About `call_pta_for_cbor_evidence` of attester/remote_attestation/ta/remote_attestation_ta.c.
use optee_ra_fork.Ta.Answers.{
  answer, packed_key, KeepsOutput, IsForwarded, Failure, refused, passed_on, too_long,
}
use optee_ra_fork.Base.{
  ℕ, ◌≤◌, ◌<◌, arith, ◌≡◌, refl, sym, ap, subst, ◌∙◌, inl, inr, Bool, true, false, Bool-cases,
  Option, none, some, ◌&&◌, Bytes, length, length-take, length-replicate, take, replicate, leb,
  leb→le, not_leb→lt,
}
use optee_ra_fork.Tee.{Env, St, Act, Error, bad_parameters, short_buffer, ◌>>=◌, ◌>>◌, require}
use optee_ra_fork.Tee.Resources.{ta_session, Kept-refl}
use optee_ra_fork.Tee.Rules.{
  Ensures, done, failed, Ensures-bind, Ensures-then, Ensures-mono, Ensures-require, Ensures-load,
  Ensures-holding, Outcome,
}
use optee_ra_fork.Tee.Answers.{Answers, Ensures-call, Ensures-with_block}
use optee_ra_fork.Ta.Timing.Rules.{Ensures-timed, Ensures-reported}
use optee_ra_fork.Params.{ParamTypes, Params, Param, memref, buffer_of, size_of, load_at}
use optee_ra_fork.Pta.Caam.{Reply, put}
use optee_ra_fork.Pta.Expected.{IsMemref, contents}
use optee_ra_fork.Pta.Buffers.{filled, is_given, Ensures-put, Ensures-contents}
use optee_ra_fork.Ta.{
  forward_request, invoke_pta, forward, with_key, call_pta_for_cbor_evidence, forward_types,
  forward_params, has_packed_key, is_some,
}

-- The copy of the answer to the caller, behind its size check.
Ensures-copy_back :
    {env : Env} {L : Type 0} {E : Error → Type 0} (out back : Bytes) (size : ℕ) (reply p1 : Param)
    → reply ≡ memref (some back) size
    → IsMemref p1
    → length out ≡ size_of p1
    → length back ≡ length out
    → (size_of p1 < size → E short_buffer)
    → Ensures env L
        (λ got. (length (contents reply) ≤ size_of p1) × (got ≡ filled p1 (contents reply)))
        E
        (do
          require (leb (size_of reply) (length out)) short_buffer
          evidence ← load_at (buffer_of reply) 0 (size_of reply)
          put p1 evidence)
unfolding load_at buffer_of size_of contents
Ensures-copy_back out back size reply p1 is m room same short = rw is (
    Ensures-bind
      (Ensures-require short_buffer _
        (λ e. short (omega (arith, not_leb→lt size (length out) e, room))))
      λ u fits.
        Ensures-bind (Ensures-load back 0 size (omega (arith, same, leb→le size (length out) fits)))
          λ evidence e.
            let whole : size ≤ length back = omega (arith, same, leb→le size (length out) fits) in
            let small : length (take size back) ≤ size_of p1 =
              omega (arith, length-take size back whole, leb→le size (length out) fits, room) in
            Ensures-mono (Ensures-put p1 evidence m (rw e small))
              λ got q. (small, q ∙ ap (filled p1) e))

and-right : (a b : Bool) → a && b ≡ true → b ≡ true
and-right true b h = h
and-right false b h = cc h

-- One request of the TA to the PTA.
module _ (invoke : ℕ → ℕ → ParamTypes → Params → Reply) (ta_uuid nonce out : Bytes)
    (key : Option Bytes) where
  abbrev asked : ℕ → Reply
  asked n = invoke n 0 (forward_types (is_some key)) (forward_params nonce out ta_uuid key)

  module _ {env : Env} {L : Type 0} {E : Error → Type 0} where
    Ensures-asked :
        ((n : ℕ) (e : Error) → (asked n).status ≡ some e → E e)
        → Ensures env L
            (λ got. (n : ℕ) × ((asked n).status ≡ none) × (got ≡ (asked n).params))
            E
            (invoke_pta invoke ta_uuid 0
              (forward_types (is_some key))
              (forward_params nonce out ta_uuid key))
    unfolding invoke_pta
    Ensures-asked errors = record { run = λ st. go st (asked st.calls).status refl }
      where
        go :
            (st : St) (s : Option Error)
            → (asked st.calls).status ≡ s
            → Outcome st.held L
                (λ got. (n : ℕ) × ((asked n).status ≡ none) × (got ≡ (asked n).params))
                E
                (invoke_pta invoke ta_uuid 0
                  (forward_types (is_some key))
                  (forward_params nonce out ta_uuid key)
                  env
                  st)
        go st none q = rw (q, invoke_pta) (done (st.calls, q, refl) (Kept-refl st.held))
        go st (some e) q = rw (q, invoke_pta) (failed (errors _ e q) (Kept-refl st.held))

    Ensures-forward :
        (p1 : Param)
        → ((n : ℕ) (e : Error) → (asked n).status ≡ some e → E e)
        → ((n : ℕ)
            → (asked n).status ≡ none
            → (out' : Bytes) × (size' : ℕ) × ((asked n).params.p1 ≡ memref (some out') size')
              × (length out' ≡ size_of p1))
        → IsMemref p1
        → length out ≡ size_of p1
        → ((n : ℕ)
            → (asked n).status ≡ none
            → size_of p1 < size_of (asked n).params.p1
            → E short_buffer)
        → Ensures env L
            (λ got.
              (n : ℕ) × ((asked n).status ≡ none)
              × (length (contents (asked n).params.p1) ≤ size_of p1)
              × (got ≡ filled p1 (contents (asked n).params.p1)))
            E
            (forward invoke ta_uuid nonce out key p1)
    unfolding forward size_of
    Ensures-forward p1 errors keeps m room short =
        Ensures-bind (Ensures-timed (Ensures-asked errors)) λ reply (n, good, e).
          let (back, size, is, same) = keeps n good in
          Ensures-mono
            (Ensures-copy_back out back size reply.p1 p1 (ap (λ r. r.p1) e ∙ is) m room
              (same ∙ sym room)
              (λ big. short n good (subst (λ q. size_of p1 < size_of q) (sym is) big)))
            λ got (fits, q). (
              n,
              good,
              subst (λ (r : Params). length (contents r.p1) ≤ size_of p1) e fits,
              subst (λ (r : Params). got ≡ filled p1 (contents r.p1)) e q,
            )

module _ (invoke : ℕ → ℕ → ParamTypes → Params → Reply) (ta_uuid : Bytes) {env : Env} {L : Type 0}
    {E : Error → Type 0} (answers : Answers env E) where
  Ensures-with_key :
      {P : Param → Type 0} (param_types : ParamTypes) (p2 : Param) (body : Option Bytes → Act Param)
      → IsMemref p2
      → Ensures env L P E (body (packed_key param_types p2))
      → Ensures env L P E (with_key invoke ta_uuid param_types p2 body)
  unfolding with_key
  Ensures-with_key param_types p2 body m ensured =
      elim (Bool-cases (has_packed_key param_types && is_given p2)) [
        | inl h ↦
            let keyed = rw h at ensured in
            rw h (
              Ensures-with_block answers
                (Ensures-bind (Ensures-contents p2 m (and-right _ _ h)) λ key e. rw e keyed))
        | inr h ↦ let keyless = rw h at ensured in rw h keyless
      ]

-- `call_pta_for_cbor_evidence`, where the request's buffers are as long as they say and the TEE core
-- returns an output buffer with the length it was passed: it never accesses memory out of bounds,
-- and closes its session and frees its buffers on every path. It succeeds with what the PTA
-- answered in the output, within the room given, or fails with TEE_ERROR_BAD_PARAMETERS on refused
-- parameters, with an error of the TEE core or the PTA, or because the answer is too long.
pub Ensures-call_pta_for_cbor_evidence :
    (invoke : ℕ → ℕ → ParamTypes → Params → Reply) (ta_uuid : Bytes) (env : Env)
    (F : Error → Type 0) (param_types : ParamTypes) (params : Params)
    → Answers env F
    → ((n : ℕ) (e : Error) → (answer invoke ta_uuid param_types params n).status ≡ some e → F e)
    → KeepsOutput invoke ta_uuid param_types params
    → IsMemref params.p0
    → IsMemref params.p1
    → IsMemref params.p2
    → Ensures env ⊥
        (IsForwarded invoke ta_uuid param_types params)
        (Failure invoke ta_uuid F param_types params)
        (call_pta_for_cbor_evidence invoke ta_uuid param_types params)
unfolding call_pta_for_cbor_evidence forward_request
Ensures-call_pta_for_cbor_evidence invoke ta_uuid env F param_types params answers errors keeps m0
      m1 m2 =
    Ensures-reported _ (
      Ensures-then (Ensures-call failures) (
        Ensures-holding ta_session (
          Ensures-bind (Ensures-require bad_parameters _ λ e. refused (rw e refl)) λ u a.
            Ensures-bind (Ensures-require bad_parameters _ λ e. refused (rw (a, e) refl)) λ u' b.
              Ensures-with_block failures (
                Ensures-bind (Ensures-contents params.p0 m0 (and-left _ _ b)) λ nonce e.
                  Ensures-with_block failures (
                    Ensures-with_key invoke ta_uuid failures param_types params.p2 _ m2 (
                      rw e (
                        Ensures-forward invoke ta_uuid (contents params.p0)
                          (replicate (size_of params.p1) 0) (packed_key param_types params.p2)
                          params.p1 (λ n x q. passed_on (errors n x q)) keeps m1
                          (length-replicate (size_of params.p1) 0) too_long)))))))
  where
    failures : Answers env (Failure invoke ta_uuid F param_types params)
    failures = record {
      status_errors = λ n e q. passed_on (answers.status_errors n e q);
      malloc_errors = λ n q. passed_on (answers.malloc_errors n q);
    }

    and-left : (a b : Bool) → a && b ≡ true → a ≡ true
    and-left true b h = refl
    and-left false b h = cc h
