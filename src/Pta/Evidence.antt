-- ===== src/Pta/Evidence.antt =====
-- What `cmd_get_cbor_evidence` returns, on every path.
pub mod Certain
pub mod Overrun
use optee_ra_fork.Pta.Tokens.{
  HasRoom, is_accepted, used_keys, claims, payload, IsToken, Unencodable, Reason, refused, library,
  unencodable,
}
use optee_ra_fork.Base.{
  ℕ, ◌≤◌, ◌<◌, ◌^◌, arith, ◌≡◌, refl, subst, ap, ◌∙◌, ◌⊎◌, inl, inr, Bool, true, false, Option,
  none, some, ◌++◌, ◌==◌, ◌||◌, ◌&&◌, not, Bytes, length, drop, All,
}
use optee_ra_fork.Tee.{Env, St, Error, ok, bad_parameters, generic, out_of_memory, perf_flush}
use optee_ra_fork.Tee.Rules.{
  Ensures, Maybe, Ensures-pure, Ensures-throw, Ensures-bind, Ensures-then, Ensures-mono,
  Ensures-finally, Ensures-require, Ensures-load, Ensures-store, Ensures-perf_now,
  Ensures-perf_stop, Ensures-perf_reset, Ensures-with_two_blocks,
}
use optee_ra_fork.Tee.Answers.{Answers, Outcome-succeeds}
use optee_ra_fork.Hash.{VmInfo}
use optee_ra_fork.Ocotp.Lifecycle.{srk_words}
use optee_ra_fork.Sign.{private_bytes}
use optee_ra_fork.Cbor.{Evidence, encode_evidence_to_cbor}
use optee_ra_fork.Cbor.Item.{Item}
use optee_ra_fork.Cbor.Token.{evidence_item, evidence_calls-Describes}
use optee_ra_fork.Cbor.Cose.{Encodes, encode-cases}
use optee_ra_fork.Cbor.Signed.{
  IsCose, NoCose, protected_bytes, to_be_signed, cose_bytes, Ensures-generate_cose,
}
use optee_ra_fork.Params.{
  ParamTypes, Param, Params, memref, value, buffer_of, size_of, is_null, load_at, accepts_evidence,
  has_key,
}
use optee_ra_fork.Pta.{Platform, Keys}
use optee_ra_fork.Pta.Command.{not_null, store_at, produce, get_cbor_evidence}
use optee_ra_fork.Pta.Buffers.{filled, is_given, Ensures-contents}
use optee_ra_fork.Pta.Parts.{Ensures-derive_client_id, Ensures-parse_keys, Ensures-collect}
use optee_ra_fork.Pta.Expected.{
  IsMemref, IsWholeMemref, IsClientId, contents, keys_of, expected, is_long_enough,
}

Ensures-not_null :
    {env : Env} {L : Type 0} {P : Bytes → Type 0} {N : Type 0} {E : Error → Type 0} (p : Platform)
    (got : Option Bytes)
    → Maybe P N got
    → (N → E generic)
    → Ensures env L P E (not_null p got)
unfolding not_null
Ensures-not_null p none why give = Ensures-throw generic (give why)
Ensures-not_null p (some b) is give = Ensures-pure b is

Ensures-store_at :
    {env : Env} {L : Type 0} {E : Error → Type 0} (p : Platform) (p1 : Param) (cose : Bytes)
    → HasRoom p1
    → is_given p1 ≡ true
    → length cose ≤ 512
    → Ensures env L
        (λ out. memref (some out) (length cose) ≡ filled p1 cose)
        E
        (store_at p (buffer_of p1) cose)
unfolding store_at buffer_of size_of is_null filled
Ensures-store_at p (memref none size) cose room given small = cc given
Ensures-store_at p (memref (some buffer) size) cose room given small =
    Ensures-mono (Ensures-store buffer cose (omega (arith, room, small)))
      λ out e. ap (λ b. memref (some b) (length cose)) e
Ensures-store_at p (value a b stale) cose room given small = elim room [ ]

-- The checks of the command one after another.
module _ (param_types : ParamTypes) (params : Params) where
  refused_types : accepts_evidence param_types ≡ false → is_accepted param_types params ≡ false
  unfolding is_accepted
  refused_types e = rw e refl

  refused_nonce :
      accepts_evidence param_types ≡ true
      → is_given params.p0 ≡ false
      → is_accepted param_types params ≡ false
  unfolding is_accepted
  refused_nonce e f = rw (e, f) refl

  refused_output :
      accepts_evidence param_types ≡ true
      → is_given params.p0 ≡ true
      → is_given params.p1 ≡ false
      → is_accepted param_types params ≡ false
  unfolding is_accepted
  refused_output e f g = rw (e, f, g) refl

  left_to_key :
      accepts_evidence param_types ≡ true
      → is_given params.p0 ≡ true
      → is_given params.p1 ≡ true
      → is_accepted param_types params ≡ is_long_enough (has_key param_types) params.p3
  unfolding is_accepted
  left_to_key e f g = rw (e, f, g) refl

module _ {p : Platform} {cbor : Item → Bytes} {info : VmInfo} {param_types : ParamTypes}
    {params : Params} {env : Env} {L : Type 0} {F : Error → Type 0} (laws : Encodes p.encode cbor)
    (answers : Answers env F) (may_lose : (n : ℕ) (e : Error) → env.status n ≡ some e → L) where
  Ensures-produce :
      (id : ℕ)
      → IsClientId F p.sha256 params.p2 id
      → HasRoom params.p1
      → is_given params.p1 ≡ true
      → is_accepted param_types params ≡ true
      → Ensures env L
          (IsToken p cbor info param_types params F)
          (Reason p cbor info param_types params F)
          (produce p
            (claims p cbor info param_types params id)
            (used_keys p cbor info param_types params)
            params.p1)
  unfolding produce encode_evidence_to_cbor
  Ensures-produce id is room given accepted = Ensures-bind Ensures-perf_now λ t u.
      elim (encode-cases laws 512 _ _
        (evidence_calls-Describes (claims p cbor info param_types params id))) [
          | inr (r, full) ↦ rw r (
              Ensures-bind
                (Ensures-not_null {P = λ _. ⊥} {N = Unit} p _ tt
                  (λ n. unencodable (id, is, inl full)))
                λ b n. elim n [ ])
          | inl (r, fits) ↦ rw r (
              Ensures-bind
                (Ensures-not_null {P = λ b. b ≡ payload p cbor info param_types params id} {N = ⊥} p
                  _ refl (λ n. elim n [ ]))
                λ bytes e. Ensures-then (Ensures-perf_stop _ _ _) (
                  Ensures-bind Ensures-perf_now λ t' u'.
                    Ensures-bind
                      (Ensures-generate_cose cbor p.sha256 p.ecdsa laws answers may_lose bytes 512 _
                        _)
                      λ signed why.
                        Ensures-bind
                          (Ensures-not_null p signed
                            (subst (λ b. Maybe (CoseOf b) (NoCoseOf b) signed) e why)
                            λ no. unencodable (id, is, inr no))
                          λ cose cose_is. Ensures-then (Ensures-perf_stop _ _ _) (
                            Ensures-bind (Ensures-store_at p params.p1 cose room given (cose_is.3))
                              λ out eo. Ensures-pure _ (accepted, (id, is, (cose, cose_is, eo))))))
        ]
    where
      CoseOf : Bytes → Bytes → Type 0
      CoseOf b =
          IsCose cbor p.sha256 p.ecdsa b 512 (used_keys p cbor info param_types params).black_key
            (used_keys p cbor info param_types params).black_len

      NoCoseOf : Bytes → Type 0
      NoCoseOf b =
          NoCose cbor p.sha256 p.ecdsa F b 512 (used_keys p cbor info param_types params).black_key
            (used_keys p cbor info param_types params).black_len

  -- `cmd_get_cbor_evidence`, called by a running TA with an output buffer of at least 512 bytes (or
  -- none) and other buffers as long as they say, never accesses memory out of bounds and gives back
  -- all it holds, but for a block lost where a call failed. It succeeds only on accepted parameters
  -- and with the output holding a COSE_Sign1 over the caller's claims, and else it fails for a
  -- reason: refused parameters, a library's error, or claims or a message that do not fit.
  pub Ensures-get_cbor_evidence :
      ((m : Bytes) → length (p.sha256 m) ≡ 32)
      → All (λ w. w < 2 ^ 32) (srk_words p.fuse)
      → p.session ≡ some (some info)
      → IsMemref params.p0
      → HasRoom params.p1
      → IsMemref params.p2
      → IsWholeMemref params.p3
      → Ensures env L
          (IsToken p cbor info param_types params F)
          (Reason p cbor info param_types params F)
          (get_cbor_evidence p param_types params)
  unfolding get_cbor_evidence is_accepted perf_flush
  Ensures-get_cbor_evidence digest words running m0 room m2 m3 = Ensures-then Ensures-perf_reset (
      Ensures-bind Ensures-perf_now λ t u.
        Ensures-bind (Ensures-derive_client_id answers p.sha256 params.p2 m2) λ id is.
          Ensures-bind
            (Ensures-require bad_parameters _ λ e. refused (refused_types param_types params e))
            λ u1 a.
              Ensures-bind
                (Ensures-require bad_parameters _
                  λ e. refused (refused_nonce param_types params a e))
                λ u2 b.
                  Ensures-bind
                    (Ensures-require bad_parameters _
                      λ e. refused (refused_output param_types params a b e))
                    λ u3 c.
                      Ensures-bind
                        (Ensures-parse_keys (has_key param_types) params.p3 m3
                          λ e. refused (left_to_key param_types params a b c ∙ e))
                        λ k (ek, d). Ensures-bind (Ensures-contents params.p0 m0 b) λ nonce en.
                          Ensures-bind
                            (Ensures-collect library_answers p info id nonce k digest words running)
                            λ evidence ee.
                              Ensures-bind
                                (Ensures-with_two_blocks
                                  (λ n q.
                                    Ensures-throw out_of_memory
                                      (library (answers.malloc_errors n q)))
                                  (rw (ee, ek, en)
                                    (Ensures-produce id is room c
                                      (left_to_key param_types params a b c ∙ d))))
                                λ out token.
                                  Ensures-then
                                    (Ensures-finally perf_flush (λ st. refl)
                                      (Ensures-perf_stop _ _ _))
                                    (Ensures-pure out token))
    where
      library_answers : Answers env (Reason p cbor info param_types params F)
      library_answers = record {
        status_errors = λ n e q. library (answers.status_errors n e q);
        malloc_errors = λ n q. library (answers.malloc_errors n q);
      }
