-- ===== src/Pta/Evidence/Certain.antt =====
-- Where the outcome of `cmd_get_cbor_evidence` is certain: refused parameters, and a world in which
-- nothing fails.
use optee_ra_fork.Base.{
  ℕ, ◌≤◌, ◌<◌, ◌^◌, arith, ◌≡◌, refl, inl, inr, true, false, none, some, Bytes, length, All,
}
use optee_ra_fork.Tee.{Env, St, Error, ok, bad_parameters}
use optee_ra_fork.Tee.Rules.{
  Ensures, Ensures-bind, Ensures-then, Ensures-require, Ensures-perf_now, Ensures-perf_reset,
}
use optee_ra_fork.Tee.Answers.{Answers, any_answers, Outcome-succeeds}
use optee_ra_fork.Hash.{VmInfo}
use optee_ra_fork.Ocotp.Lifecycle.{srk_words}
use optee_ra_fork.Sign.Correct.{signing_key}
use optee_ra_fork.Cbor.Item.{Item}
use optee_ra_fork.Cbor.Cose.{Encodes}
use optee_ra_fork.Cbor.Signed.{protected_bytes, to_be_signed, cose_bytes}
use optee_ra_fork.Params.{ParamTypes, Param, Params, has_key}
use optee_ra_fork.Pta.{Platform}
use optee_ra_fork.Pta.Command.{get_cbor_evidence}
use optee_ra_fork.Pta.Parts.{Ensures-derive_client_id, Ensures-parse_keys}
use optee_ra_fork.Pta.Expected.{IsMemref, IsWholeMemref, IsClientId}
use optee_ra_fork.Pta.Evidence.{left_to_key, Ensures-get_cbor_evidence}
use optee_ra_fork.Pta.Tokens.{
  HasRoom, is_accepted, used_keys, payload, IsToken, Reason, refused, library, unencodable,
}

-- Where the checks refuse the parameters, whatever the libraries answer, `cmd_get_cbor_evidence` ends
-- with TEE_ERROR_BAD_PARAMETERS and holds what it held before. This is for a third and a fourth
-- parameter that are memrefs as long as they say: the third is read before the checks.
pub get_cbor_evidence-refuses :
    (p : Platform) (param_types : ParamTypes) (params : Params) (env : Env)
    → is_accepted param_types params ≡ false
    → IsMemref params.p2
    → IsWholeMemref params.p3
    → Ensures env ⊥ (λ _. ⊥) (λ e. e ≡ bad_parameters) (get_cbor_evidence p param_types params)
unfolding get_cbor_evidence
get_cbor_evidence-refuses p param_types params env unfit m2 m3 = Ensures-then Ensures-perf_reset (
    Ensures-bind Ensures-perf_now λ t u.
      Ensures-bind (Ensures-derive_client_id (any_answers env) p.sha256 params.p2 m2) λ id is.
        Ensures-bind (Ensures-require bad_parameters _ λ e. refl) λ u1 a.
          Ensures-bind (Ensures-require bad_parameters _ λ e. refl) λ u2 b.
            Ensures-bind (Ensures-require bad_parameters _ λ e. refl) λ u3 c.
              Ensures-bind (Ensures-parse_keys (has_key param_types) params.p3 m3 λ e. refl)
                λ k (ek, d). cc (left_to_key param_types params a b c, d, unfit))

-- The message over the claims, signed with this randomness.
abbrev pub token_bytes : Platform → (Item → Bytes) → VmInfo → ParamTypes → Params → ℕ → ℕ → Bytes
token_bytes p cbor info param_types params id seed =
    let k = used_keys p cbor info param_types params in
    let body = payload p cbor info param_types params id in
    cose_bytes cbor p.sha256 p.ecdsa body (
      p.ecdsa seed (signing_key k.black_key k.black_len)
        (p.sha256 (to_be_signed cbor p.sha256 p.ecdsa body)))

-- In a world where no call and no allocation fails, and where the claims and the three encodings
-- fit, `cmd_get_cbor_evidence` with accepted parameters and an output buffer of at least 512 bytes
-- succeeds from any state, with a token in the output, and holds what it held before.
pub get_cbor_evidence-succeeds :
    (p : Platform) (cbor : Item → Bytes) (info : VmInfo) (param_types : ParamTypes)
    (params : Params) (env : Env) (st : St)
    → Encodes p.encode cbor
    → ((n : ℕ) → env.status n ≡ none)
    → ((n : ℕ) → env.malloc_ok n ≡ true)
    → ((m : Bytes) → length (p.sha256 m) ≡ 32)
    → All (λ w. w < 2 ^ 32) (srk_words p.fuse)
    → p.session ≡ some (some info)
    → is_accepted param_types params ≡ true
    → IsMemref params.p0
    → HasRoom params.p1
    → IsMemref params.p2
    → IsWholeMemref params.p3
    → ((id : ℕ)
        → IsClientId (λ _. ⊥) p.sha256 params.p2 id
        → length (payload p cbor info param_types params id) ≤ 512)
    → length (protected_bytes cbor p.sha256 p.ecdsa) ≤ 256
    → ((id : ℕ)
        → IsClientId (λ _. ⊥) p.sha256 params.p2 id
        → length (to_be_signed cbor p.sha256 p.ecdsa (payload p cbor info param_types params id))
          ≤ 512)
    → ((id seed : ℕ)
        → IsClientId (λ _. ⊥) p.sha256 params.p2 id
        → length (token_bytes p cbor info param_types params id seed) ≤ 512)
    → (out : Param) × (st' : St) × (get_cbor_evidence p param_types params env st ≡ (ok out, st'))
      × IsToken p cbor info param_types params (λ _. ⊥) out
      × (st'.held ≡ st.held)
get_cbor_evidence-succeeds p cbor info param_types params env st laws calls mallocs digest words
      running accepted m0 room m2 m3 small hdr tbs cose =
    Outcome-succeeds no_reason (
      (Ensures-get_cbor_evidence laws answers (λ n e q. cc (calls n, q)) digest words running m0
          room m2 m3).run
        st)
  where
    answers : Answers env (λ _. ⊥)
    answers = record {
      status_errors = λ n e q. cc (calls n, q);
      malloc_errors = λ n q. cc (mallocs n, q);
    }

    no_reason : (e : Error) → Reason p cbor info param_types params (λ _. ⊥) e → ⊥
    no_reason _ (refused q) = cc (accepted, q)
    no_reason e (library n) = n
    no_reason _ (unencodable (id, is, inl big)) = absurd (omega (arith, small id is, big))
    no_reason _ (unencodable (id, is, inr (inl (e, n)))) = n
    no_reason _ (unencodable (id, is, inr (inr (inl big)))) = absurd (omega (arith, hdr, big))
    no_reason _ (unencodable (id, is, inr (inr (inr (inl big))))) =
        absurd (omega (arith, tbs id is, big))
    no_reason _ (unencodable (id, is, inr (inr (inr (inr (s, (seed, e), big)))))) =
        let size : length
              (cose_bytes cbor p.sha256 p.ecdsa (payload p cbor info param_types params id) s)
            ≤ 512 =
          rw e (cose id seed is) in
        absurd (omega (arith, size, big))
