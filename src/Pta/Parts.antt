-- ===== src/Pta/Parts.antt =====
-- What the blocks of `cmd_get_cbor_evidence` compute before the encoding.
use optee_ra_fork.Pta.Expected.{
  IsMemref, IsWholeMemref, contents, IsClientId, client_id_of-IsClientId, is_long_enough, keys_of,
  signer_of, lifecycle_of, expected, os_version_of-core_version,
}
use optee_ra_fork.Base.{
  ℕ, ◌-◌, ◌^◌, ◌≤◌, ◌<◌, arith, ◌≡◌, refl, subst, ap, inl, inr, Bool, true, false, Bool-cases, none,
  some, ◌==◌, length, replicate, Bytes, leb→le, lt→ltb, eq→==, ==→eq, All,
}
use optee_ra_fork.Base64
use optee_ra_fork.Base64.RoundTrip.{encode-fits}
use optee_ra_fork.Tee.{Env, Error, bad_parameters, generic, pure, ◌>>=◌, attempt}
use optee_ra_fork.Tee.Rules.{
  Ensures, Maybe, Ensures-pure, Ensures-bind, Ensures-then, Ensures-attempt, Ensures-if,
  Ensures-require, Ensures-load, Ensures-perf_now, Ensures-perf_stop,
}
use optee_ra_fork.Tee.Answers.{Answers}
use optee_ra_fork.Hash.{VmInfo, get_hash_ta_memory}
use optee_ra_fork.Hash.Measure.{measured, Ensures-get_hash_ta_memory, Ensures-get_hash_tee_memory}
use optee_ra_fork.Ocotp.Lifecycle.{srk_words, Ensures-read_srk_hash, Ensures-get_lifecycle}
use optee_ra_fork.Sign.{hash_sha256, get_test_key_pubkey}
use optee_ra_fork.Sign.Correct.{Ensures-hash_sha256, Ensures-compute_instance_id}
use optee_ra_fork.Params.{Param, memref, value, buffer_of, size_of, is_null, load_at}
use optee_ra_fork.Pta.{Platform, Keys, derive_client_id, parse_keys, terminate}
use optee_ra_fork.Pta.Command.{read_platform, print_measurement, print_tee_measurement, collect}

module _ {env : Env} {L : Type 0} {E F : Error → Type 0} (answers : Answers env F) where
  -- `derive_client_id` never fails.
  pub Ensures-derive_client_id :
      (sha256 : Bytes → Bytes) (p2 : Param)
      → IsMemref p2
      → Ensures env L
          (IsClientId F sha256 p2)
          E
          (derive_client_id sha256 (buffer_of p2) (size_of p2))
  unfolding derive_client_id buffer_of size_of is_null load_at contents
  Ensures-derive_client_id sha256 (memref none size) m = Ensures-pure 1 (inl (refl, inl tt))
  Ensures-derive_client_id sha256 (memref (some buffer) size) m =
      Ensures-if (size == 0) (λ e. Ensures-pure 1 (inl (refl, inl (==→eq size 0 e))))
        λ e. Ensures-bind (Ensures-load buffer 0 size (omega (arith, m))) λ uuid u.
          Ensures-bind
            (subst
              (λ b.
                Ensures env L (Maybe (λ d. d ≡ sha256 b) ((e : Error) × F e)) E
                  (attempt (hash_sha256 sha256 uuid)))
              u (Ensures-attempt (Ensures-hash_sha256 answers sha256 uuid)))
            λ hash h.
              Ensures-pure _ (client_id_of-IsClientId sha256 (memref (some buffer) size) hash h)
  Ensures-derive_client_id sha256 (value a b stale) m = elim m [ ]

module _ {env : Env} {L : Type 0} {E : Error → Type 0} where
  -- `parse_keys` on a key that is long enough, or on none.
  pub Ensures-parse_keys :
      (keyed : Bool) (p3 : Param)
      → IsWholeMemref p3
      → (is_long_enough keyed p3 ≡ false → E bad_parameters)
      → Ensures env L
          (λ k. (k ≡ keys_of keyed p3) × (is_long_enough keyed p3 ≡ true))
          E
          (parse_keys keyed p3)
  unfolding parse_keys buffer_of size_of load_at keys_of get_test_key_pubkey pure ◌>>=◌
  Ensures-parse_keys true (memref none size) m short =
      Ensures-bind (Ensures-require bad_parameters _ short)
        λ u big. absurd (omega (arith, m, leb→le 65 size big))
  Ensures-parse_keys true (memref (some buffer) size) m short =
      Ensures-bind (Ensures-require bad_parameters _ short) λ u big.
        let room : 65 ≤ size = leb→le 65 size big in
        Ensures-bind (Ensures-load buffer 0 32 (omega (arith, m, room))) λ x ex.
          Ensures-bind (Ensures-load buffer 32 32 (omega (arith, m, room))) λ y ey.
            Ensures-bind (Ensures-load buffer 64 (size - 64) (omega (arith, m, room)))
              λ b eb. Ensures-pure _ (rw (ex, ey, eb) refl, big)
  Ensures-parse_keys true (value a b stale) m short = elim m [ ]
  Ensures-parse_keys false p3 m short = Ensures-pure _ (refl, refl)

module _ {env : Env} {L : Type 0} {E : Error → Type 0} where
  Ensures-terminate : (at : ℕ) → at < 64 → Ensures env L (λ _. Unit) E (terminate at)
  unfolding terminate
  Ensures-terminate at h = rw (lt→ltb at 64 h) (Ensures-pure tt tt)

  -- A digest fits into the 64 bytes for its base64 text.
  Ensures-print_measurement :
      (p : Platform) (digest : Bytes)
      → length digest ≡ 32
      → Ensures env L (λ _. Unit) E (print_measurement p digest)
  unfolding print_measurement
  Ensures-print_measurement p digest n =
      let (good, size) =
        encode-fits digest (replicate 64 0) 64 (omega (arith, n)) (omega (arith, n)) in
      Ensures-then (Ensures-require generic _ (λ e. cc (eq→== _ 1 good)))
        (Ensures-terminate _ (omega (arith, size, n)))

  Ensures-print_tee_measurement :
      (p : Platform) (digest : Bytes)
      → length digest ≡ 32
      → Ensures env L (λ _. Unit) E (print_tee_measurement p digest)
  unfolding print_tee_measurement
  Ensures-print_tee_measurement p digest n =
      let (good, size) =
        encode-fits digest (replicate 64 0) 64 (omega (arith, n)) (omega (arith, n)) in
      Ensures-if _
        (λ e.
          Ensures-terminate (Base64.encode digest (replicate 64 0) 64).outlen
            (omega (arith, size, n)))
        (λ e. Ensures-pure tt tt)

module _ {env : Env} {L : Type 0} {E : Error → Type 0} (answers : Answers env E) where
  Ensures-read_platform :
      (p : Platform) (k : Keys)
      → All (λ w. w < 2 ^ 32) (srk_words p.fuse)
      → Ensures env L (λ got. got ≡ (signer_of p, lifecycle_of p)) E (read_platform p k)
  unfolding read_platform signer_of lifecycle_of
  Ensures-read_platform p k words = elim (Bool-cases p.caam) [
    | inr h ↦ rw h (Ensures-pure _ refl)
    | inl h ↦ rw h (
        Ensures-bind Ensures-perf_now λ t u.
          Ensures-bind (Ensures-read_srk_hash answers p.fuse) λ signer e.
            Ensures-then (Ensures-perf_stop _ _ _) (
              Ensures-bind Ensures-perf_now λ t' u'.
                Ensures-bind (Ensures-get_lifecycle answers p.fuse words) λ life q.
                  Ensures-then (Ensures-perf_stop _ _ _) (Ensures-pure _ (rw (e, q) refl))))
  ]

  Ensures-running :
      (p : Platform) (info : VmInfo)
      → p.session ≡ some (some info)
      → Ensures env L
          (λ d. d ≡ p.sha256 (measured p.vm p.qsort info))
          E
          (get_hash_ta_memory p.sha256 p.vm p.qsort p.session 32)
  Ensures-running p info running =
      rw running (Ensures-get_hash_ta_memory answers p.sha256 p.vm p.qsort info 32 (omega arith))

  -- The evidence that `collect` builds is the expected one.
  pub Ensures-collect :
      (p : Platform) (info : VmInfo) (id : ℕ) (nonce : Bytes) (k : Keys)
      → ((m : Bytes) → length (p.sha256 m) ≡ 32)
      → All (λ w. w < 2 ^ 32) (srk_words p.fuse)
      → p.session ≡ some (some info)
      → Ensures env L (λ e. e ≡ expected p info id nonce k) E (collect p id nonce k)
  unfolding collect expected
  Ensures-collect p info id nonce k digest words running =
      Ensures-bind (Ensures-read_platform p k words) λ (signer, life) e.
        Ensures-bind Ensures-perf_now λ t0 u0.
          Ensures-bind (Ensures-compute_instance_id answers p.sha256 k.pub_x k.pub_y) λ instance ei.
            Ensures-then (Ensures-perf_stop _ _ _) (
              Ensures-bind Ensures-perf_now λ t1 u1.
                Ensures-bind (Ensures-running p info running) λ ta et.
                  Ensures-then (Ensures-perf_stop _ _ _) (
                    Ensures-then (Ensures-print_measurement p ta (rw et (digest _))) (
                      Ensures-bind Ensures-perf_now λ t2 u2.
                        Ensures-bind
                          (Ensures-get_hash_tee_memory answers p.sha256 p.core 32 (omega arith))
                          λ tee ec. Ensures-then (Ensures-perf_stop _ _ _) (
                            Ensures-then (Ensures-print_tee_measurement p tee (rw ec (digest _))) (
                              Ensures-pure _ (
                                rw
                                  (
                                    ap (λ q. q.0) e,
                                    ap (λ q. q.1) e,
                                    ei,
                                    et,
                                    ec,
                                    os_version_of-core_version p.core_v_str,
                                  )
                                  refl))))))
