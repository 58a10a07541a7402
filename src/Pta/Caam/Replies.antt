-- ===== src/Pta/Caam/Replies.antt =====
-- What `cmd_generate_keypair` of remote_attestation.c replies, on every path.
use optee_ra_fork.Base.{
  ℕ, ◌-◌, ◌≤◌, arith, ◌≡◌, refl, sym, ap, ◌∙◌, ◌⊎◌, inl, inr, Bool, true, false, Bool-cases, none,
  some, ◌++◌, ◌||◌, ◌==◌, ltb, le→leb, not_ltb→le, if◌then◌else◌, Bytes, length, length-append,
  length-replicate, replicate,
}
use optee_ra_fork.Tee.{Env, Error, bad_parameters, short_buffer, pure, perf_flush}
use optee_ra_fork.Tee.Resources.{keypair}
use optee_ra_fork.Tee.Rules.{
  Ensures, Ensures-pure, Ensures-bind, Ensures-then, Ensures-mono, Ensures-if, Ensures-require,
  Ensures-holding, Ensures-finally, Ensures-fresh, Ensures-perf_now, Ensures-perf_stop,
  Ensures-perf_reset,
}
use optee_ra_fork.Tee.Answers.{Answers, Ensures-call}
use optee_ra_fork.Params.{ParamTypes, Params, Param, buffer_of, size_of, is_null}
use optee_ra_fork.Pta.Expected.{IsMemref}
use optee_ra_fork.Pta.Buffers.{filled, filled_null, Ensures-put}
use optee_ra_fork.Pta.Caam.{
  KeyPair, Reply, with_size, put, coordinate, put_coordinate, is_keypair_types, export_keypair,
  generate_keypair,
}

-- A coordinate with zeros in front of it, 32 bytes in all.
abbrev pub padded : Bytes → Bytes
padded n = replicate (32 - length n) 0 ++ n

-- The reply with a key pair: the size that is needed if the private part does not fit, an error if
-- a coordinate does not, and else all three in the buffers that are there.
unfoldable pub keypair_reply : KeyPair → Params → Reply
keypair_reply key params =
    if ltb (size_of params.p0) (length key.d)
    then record {
      params = record params { p0 = with_size params.p0 (length key.d) };
      status = some short_buffer;
    }
    else if ltb (size_of params.p1) 32 || ltb (size_of params.p2) 32
    then record { params = params; status = some short_buffer }
    else record {
      params = record params {
        p0 = if length key.d == 0 then params.p0 else filled params.p0 key.d;
        p1 = filled params.p1 (padded key.x);
        p2 = filled params.p2 (padded key.y);
      };
      status = none;
    }

Ensures-coordinate :
    {env : Env} {L : Type 0} {E : Error → Type 0} (n : Bytes)
    → length n ≤ 32
    → Ensures env L (λ c. c ≡ padded n) E (coordinate n)
unfolding coordinate
Ensures-coordinate n h = rw (le→leb (length n) 32 h) (Ensures-pure _ refl)

padded_size : (n : Bytes) → length n ≤ 32 → length (padded n) ≡ 32
padded_size n h =
    let pad : Bytes = replicate (32 - length n) 0 in
    let zeros : length pad ≡ 32 - length n = length-replicate (32 - length n) 0 in
    omega (arith, length-append pad n, zeros, h)

Ensures-private :
    {env : Env} {L : Type 0} {E : Error → Type 0} (p0 : Param) (d : Bytes)
    → IsMemref p0
    → ltb (size_of p0) (length d) ≡ false
    → Ensures env L
        (λ out. out ≡ (if length d == 0 then p0 else filled p0 d))
        E
        (if length d == 0 then pure p0 else put p0 d)
Ensures-private p0 d m fits = elim (Bool-cases (length d == 0)) [
  | inl z ↦ rw z (Ensures-pure _ refl)
  | inr z ↦ rw z (Ensures-put p0 d m (not_ltb→le _ _ fits))
]

-- A coordinate fits where the size check lets it through.
coordinate_fits :
    (n c : Bytes) (size : ℕ) → length n ≤ 32 → c ≡ padded n → ltb size 32 ≡ false → length c ≤ size
coordinate_fits n c size h e room =
    omega (arith, not_ltb→le size 32 room, ap length e, padded_size n h)

or-false : (a b : Bool) → a || b ≡ false → (a ≡ false) × (b ≡ false)
or-false true b h = cc h
or-false false b h = (refl, h)

Ensures-put_coordinate :
    {env : Env} {L : Type 0} {E : Error → Type 0} (p : Param) (n : Bytes)
    → IsMemref p
    → length n ≤ 32
    → ltb (size_of p) 32 ≡ false
    → Ensures env L (λ out. out ≡ filled p (padded n)) E (put_coordinate p n)
unfolding put_coordinate
Ensures-put_coordinate p n m small room =
    Ensures-if (is_null (buffer_of p)) (λ h. Ensures-pure _ (sym (filled_null p (padded n) m h)))
      λ h. Ensures-bind (Ensures-coordinate n small) λ c e.
        Ensures-mono (Ensures-put p c m (coordinate_fits n c _ small e room))
          λ out q. q ∙ ap (filled p) e

module _ {env : Env} {F : Error → Type 0} (answers : Answers env F) where
  -- `cmd_generate_keypair` on output buffers that are NULL or as long as they say, where the
  -- coordinates have at most 32 bytes: it passes on an error of the crypto library, refuses other
  -- parameter types, or replies for the fresh key pair: the size that the private part needs, an
  -- error on a short coordinate, or success with all three parts exported, the coordinates filled
  -- up with zeros to 32 bytes. The bignums are freed on every path.
  pub Ensures-generate_keypair :
      (generate : ℕ → KeyPair) (param_types : ParamTypes) (params : Params)
      → ((seed : ℕ) → length (generate seed).x ≤ 32)
      → ((seed : ℕ) → length (generate seed).y ≤ 32)
      → IsMemref params.p0
      → IsMemref params.p1
      → IsMemref params.p2
      → Ensures env ⊥
          (λ r.
            (is_keypair_types param_types ≡ true)
            × ((seed : ℕ) × (r ≡ keypair_reply (generate seed) params)))
          (λ e. F e ⊎ ((is_keypair_types param_types ≡ false) × (e ≡ bad_parameters)))
          (generate_keypair generate param_types params)
  unfolding generate_keypair export_keypair keypair_reply perf_flush
  Ensures-generate_keypair generate param_types params wx wy m0 m1 m2 =
      Ensures-bind (Ensures-require bad_parameters _ λ e. inr (e, refl)) λ u good.
        Ensures-then Ensures-perf_reset (
          Ensures-then (Ensures-call failures) (
            Ensures-finally perf_flush (λ st. refl)
              (Ensures-holding keypair (
                Ensures-bind Ensures-perf_now λ t u1. Ensures-then (Ensures-call failures) (
                  Ensures-bind Ensures-fresh λ seed u2. Ensures-then (Ensures-perf_stop _ _ _) (
                    Ensures-if (ltb (size_of params.p0) (length (generate seed).d))
                      (λ c0. Ensures-pure _ (good, (seed, rw c0 refl)))
                      λ c0.
                        Ensures-if (ltb (size_of params.p1) 32 || ltb (size_of params.p2) 32)
                          (λ c1. Ensures-pure _ (good, (seed, rw (c0, c1) refl)))
                          λ c1.
                            let (s1, s2) = or-false _ _ c1 in
                            Ensures-bind (Ensures-private params.p0 (generate seed).d m0 c0)
                              λ p0 e0.
                                Ensures-bind
                                  (Ensures-put_coordinate params.p1 (generate seed).x m1 (wx seed)
                                    s1)
                                  λ p1 e1.
                                    Ensures-bind
                                      (Ensures-put_coordinate params.p2 (generate seed).y m2
                                        (wy seed) s2)
                                      λ p2 e2.
                                        Ensures-pure _
                                          (good, (seed, rw (c0, c1, e0, e1, e2) refl))))))))
    where
      failures :
          Answers env (λ e. F e ⊎ ((is_keypair_types param_types ≡ false) × (e ≡ bad_parameters)))
      failures = record {
        status_errors = λ n e q. inl (answers.status_errors n e q);
        malloc_errors = λ n q. inl (answers.malloc_errors n q);
      }
