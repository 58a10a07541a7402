-- ===== src/Pta/Evidence/Overrun.antt =====
-- What happens in `cmd_get_cbor_evidence` when the output buffer is shorter than the message.
use optee_ra_fork.Base.{
  ℕ, suc, ◌<◌, ◌≡◌, refl, ap, subst, Bool, true, false, some, ◌&&◌, Bytes, length, leb, lt→leb,
  arith,
}
use optee_ra_fork.Tee.{
  Result, ok, err, fault, Env, St, Act, out_of_memory, pure, throw, crash, and_then, ◌>>=◌, ◌>>◌,
  finally, holding, with_two_blocks, store, perf_stop, perf_flush,
}
use optee_ra_fork.Perf.{cmd_total, KeyMode}
use optee_ra_fork.Cbor.{Evidence}
use optee_ra_fork.Params.{ParamTypes, Param, memref, Params, to, buffer_of, size_of, is_null}
use optee_ra_fork.Pta.{Platform, Keys, km}
use optee_ra_fork.Pta.Command.{store_at, produce, get_cbor_evidence}

-- Where the first action returns a result with `P`, the second one faults.
abbrev Overruns : {A : Type 0} → Act A → Act A → (A → Type 0) → Type 0
Overruns {A} m m' P =
    (env : Env) (st : St) (a : A) → (m env st).0 ≡ ok a → P a → (m' env st).0 ≡ fault

-- The two actions begin alike.
Overruns-bind :
    {A B : Type 0} {P : B → Type 0} (m : Act A) (f g : A → Act B)
    → ((a : A) → Overruns (f a) (g a) P)
    → Overruns (m >>= f) (m >>= g) P
unfolding ◌>>=◌
Overruns-bind {A} m f g next env st b e q = by_result (m env st) e
  where
    by_result :
        (r : Result A × St)
        → (and_then r (λ a s. f a env s)).0 ≡ ok b
        → (and_then r (λ a s. g a env s)).0 ≡ fault
    by_result (ok a, s) h = next a env s b h q
    by_result (err x, s) h = cc
    by_result (fault, s) h = refl

-- The result of the first parts decides, and the rest returns it.
Overruns-first :
    {A : Type 0} {P : A → Type 0} (m m' : Act A) (f : A → Act A)
    → ((a b : A) (env : Env) (s : St) → (f a env s).0 ≡ ok b → P b → P a)
    → Overruns m m' P
    → Overruns (m >>= f) (m' >>= f) P
unfolding ◌>>=◌
Overruns-first {A} m m' f back o env st b e q = by_result (m env st) refl e
  where
    fails : (r' : Result A × St) → r'.0 ≡ fault → (and_then r' (λ a s. f a env s)).0 ≡ fault
    fails (ok a, s) h = cc
    fails (err x, s) h = cc
    fails (fault, s) h = refl

    by_result :
        (r : Result A × St)
        → m env st ≡ r
        → (and_then r (λ a s. f a env s)).0 ≡ ok b
        → (and_then (m' env st) (λ a s. f a env s)).0 ≡ fault
    by_result (ok a, s) h k =
        fails (m' env st) (o env st a (ap (λ (r : Result A × St). r.0) h) (back a b env s k q))
    by_result (err x, s) h k = cc
    by_result (fault, s) h k = cc

Overruns-with_two_blocks :
    {A : Type 0} {P : A → Type 0} (m m' : Act A)
    → Overruns m m' P
    → Overruns
        (with_two_blocks (throw out_of_memory) m)
        (with_two_blocks (throw out_of_memory) m')
        P
unfolding with_two_blocks throw holding finally
Overruns-with_two_blocks {A} {P} m m' o env st a e q =
    by_malloc (env.malloc_ok st.calls && env.malloc_ok (suc st.calls)) refl e
  where
    by_malloc :
        (served : Bool)
        → env.malloc_ok st.calls && env.malloc_ok (suc st.calls) ≡ served
        → (with_two_blocks (throw out_of_memory) m env st).0 ≡ ok a
        → (with_two_blocks (throw out_of_memory) m' env st).0 ≡ fault
    by_malloc true h k = rw (h, with_two_blocks) (o env _ a (rw (h, with_two_blocks) at k) q)
    by_malloc false h k = cc (rw (h, with_two_blocks) at k)

-- A message of the reported size is longer than the buffer.
abbrev IsLonger : Bytes → Param → Type 0
IsLonger short p = length short < size_of p

stored : (p : Platform) → Bytes → Bytes → Act Param
stored p buffer cose = do out ← store_at p (to buffer) cose; pure (memref (some out) (length cose))

stored-size :
    (p : Platform) (buffer cose : Bytes) (env : Env) (st : St) (a : Param)
    → (stored p buffer cose env st).0 ≡ ok a
    → size_of a ≡ length cose
unfolding stored ◌>>=◌ store_at store pure crash size_of
stored-size p buffer cose env st a e = by_room (leb (length cose) (length buffer)) refl e
  where
    same : {x y : Param} → ok x ≡ ok y → y ≡ x
    same h = cc

    by_room :
        (b : Bool)
        → leb (length cose) (length buffer) ≡ b
        → (stored p buffer cose env st).0 ≡ ok a
        → size_of a ≡ length cose
    by_room true h k = ap size_of (same (rw (h, stored) at k))
    by_room false h k = cc (rw (h, stored) at k)

stored-faults :
    (p : Platform) (short cose : Bytes) (env : Env) (st : St)
    → length short < length cose
    → (stored p short cose env st).0 ≡ fault
unfolding stored ◌>>=◌ store_at store pure crash
stored-faults p short cose env st h = rw (lt→leb (length cose) (length short) h, stored) refl

stored-Overruns :
    (p : Platform) (buffer short cose : Bytes)
    → Overruns (stored p buffer cose) (stored p short cose) (IsLonger short)
stored-Overruns p buffer short cose env st a e q =
    stored-faults p short cose env st (omega (arith, stored-size p buffer cose env st a e))

finish : ℕ → KeyMode → Param → Act Param
finish t mode out = do finally (perf_stop t cmd_total mode) perf_flush; pure out

finish-same :
    (t : ℕ) (mode : KeyMode) (a b : Param) (env : Env) (s : St)
    → (finish t mode a env s).0 ≡ ok b
    → b ≡ a
unfolding finish ◌>>=◌ finally perf_stop pure
finish-same t mode a b env s e = cc

module _ (p : Platform) (buffer short : Bytes) (n : ℕ) where
  produce-Overruns :
      (evidence : Evidence) (k : Keys)
      → Overruns
          (produce p evidence k (memref (some buffer) n))
          (produce p evidence k (memref (some short) n))
          (IsLonger short)
  unfolding produce buffer_of stored
  produce-Overruns evidence k = Overruns-bind _ _ _ λ t. Overruns-bind _ _ _ λ cbor.
      Overruns-bind _ _ _ λ u. Overruns-bind _ _ _ λ t'. Overruns-bind _ _ _ λ signed.
        Overruns-bind _ _ _ λ cose. Overruns-bind _ _ _ λ u'. stored-Overruns p buffer short cose

  get_cbor_evidence-Overruns :
      (param_types : ParamTypes) (params : Params)
      → Overruns
          (get_cbor_evidence p param_types (record params { p1 = memref (some buffer) n }))
          (get_cbor_evidence p param_types (record params { p1 = memref (some short) n }))
          (IsLonger short)
  unfolding get_cbor_evidence finish buffer_of is_null size_of
  get_cbor_evidence-Overruns param_types params = Overruns-bind _ _ _ λ u. Overruns-bind _ _ _ λ t.
      Overruns-bind _ _ _ λ id. Overruns-bind _ _ _ λ u1. Overruns-bind _ _ _ λ u2.
        Overruns-bind _ _ _ λ u3. Overruns-bind _ _ _ λ k. Overruns-bind _ _ _ λ nonce.
          Overruns-bind _ _ _ λ evidence.
            Overruns-first _ _ (finish t (km k))
              (λ a b env s e q. subst (IsLonger short) (finish-same t (km k) a b env s e) q)
              (Overruns-with_two_blocks _ _ (produce-Overruns evidence k))

-- `cmd_get_cbor_evidence` does not look at the length of the output buffer: where it returns a message
-- to one buffer, it makes an access outside of any other buffer, in the same state, that is shorter
-- than the message, whatever size the caller states for the two.
pub get_cbor_evidence-overruns :
    (p : Platform) (param_types : ParamTypes) (params : Params) (buffer short : Bytes) (n : ℕ)
    (env : Env) (st : St) (out : Param)
    → (get_cbor_evidence p param_types (record params { p1 = memref (some buffer) n }) env st).0
      ≡ ok out
    → length short < size_of out
    → (get_cbor_evidence p param_types (record params { p1 = memref (some short) n }) env st).0
      ≡ fault
get_cbor_evidence-overruns p param_types params buffer short n env st out =
    get_cbor_evidence-Overruns p buffer short n param_types params env st out
