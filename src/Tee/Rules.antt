-- ===== src/Tee/Rules.antt =====
-- Total rules for the actions of the model: what an action returns, which errors it can end with,
-- and that it gives back every resource and never faults.
use optee_ra_fork.Base.{
  ℕ, suc, ◌≡◌, refl, ◌+◌, ◌≤◌, Bool, true, false, Option, none, some, ◌⊎◌, inl, inr, Bool-cases,
  le→leb, Bytes, length, take, drop, ◌++◌, if◌then◌else◌,
}
use optee_ra_fork.Tee.{
  Error, Result, ok, err, Env, St, Act, pure, throw, and_then, ◌>>=◌, ◌>>◌, finally, attempt,
  caught, require, fresh, acquire, release, holding, with_two_blocks, load, store, perf_now,
  perf_stop, perf_reset,
}
use optee_ra_fork.Tee.Resources.{
  Held, Kind, inc, block, Kept, Kept-refl, Kept-of_eq, Kept-trans, Kept-back,
}
use optee_ra_fork.Perf.{EventName, KeyMode}

-- `P` of what is there, `N` if nothing is.
abbrev pub Maybe : {A : Type 0} → (A → Type 0) → Type 0 → Option A → Type 0
Maybe P N none = N
Maybe P N (some a) = P a

-- The outcome of a run: a result in `P` or an error in `E`, with the resources `h` held. There is
-- no rule for `fault`.
pub data Outcome {A : Type 0} (h : Held) (L : Type 0) (P : A → Type 0) (E : Error → Type 0)
    : Result A × St → Type 0 where
  done : {a : A} {st : St} → P a → Kept L h st.held → Outcome h L P E (ok a, st)
  failed : {e : Error} {st : St} → E e → Kept L h st.held → Outcome h L P E (err e, st)

-- Started with any resources held, the action ends with the same ones held.
pub record Ensures {A : Type 0} (env : Env) (L : Type 0) (P : A → Type 0) (E : Error → Type 0)
    (m : Act A) : Type 0 where
  pub run : (st : St) → Outcome st.held L P E (m env st)

Outcome-mono :
    {A : Type 0} {L : Type 0} {P Q : A → Type 0} {E : Error → Type 0} {h : Held} {r : Result A × St}
    → ((a : A) → P a → Q a)
    → Outcome h L P E r
    → Outcome h L Q E r
Outcome-mono weaken (done {a} p e) = done (weaken a p) e
Outcome-mono weaken (failed x e) = failed x e

Outcome-after :
    {A : Type 0} {L : Type 0} {P : A → Type 0} {E : Error → Type 0} {h h' : Held}
    {r : Result A × St}
    → Kept L h h'
    → Outcome h' L P E r
    → Outcome h L P E r
Outcome-after k (done p e) = done p (Kept-trans k e)
Outcome-after k (failed x e) = failed x (Kept-trans k e)

Outcome-caught :
    {A : Type 0} {L : Type 0} {P : A → Type 0} {E F : Error → Type 0} {h : Held} {r : Result A × St}
    → Outcome h L P F r
    → Outcome h L (Maybe P ((e : Error) × F e)) E (caught r)
Outcome-caught (done p e) = done p e
Outcome-caught (failed {e = x} f e) = done (x, f) e

module _ {env : Env} {L : Type 0} {E : Error → Type 0} where
  pub Ensures-pure : {A : Type 0} {P : A → Type 0} (a : A) → P a → Ensures env L P E (pure a)
  unfolding pure
  Ensures-pure a p = record { run = λ st. done p (Kept-refl st.held) }

  pub Ensures-throw : {A : Type 0} {P : A → Type 0} (e : Error) → E e → Ensures env L P E (throw e)
  unfolding throw
  Ensures-throw e x = record { run = λ st. failed x (Kept-refl st.held) }

  Outcome-and_then :
      {A B : Type 0} {P : A → Type 0} {Q : B → Type 0} (f : A → Act B)
      → ((a : A) → P a → Ensures env L Q E (f a))
      → (h : Held) (r : Result A × St) → Outcome h L P E r
      → Outcome h L Q E (and_then r (λ a st'. f a env st'))
  Outcome-and_then {Q} f next h _ (done {a} {st} p e) = Outcome-after e ((next a p).run st)
  Outcome-and_then f next h _ (failed x e) = failed x e

  pub Ensures-bind :
      {A B : Type 0} {P : A → Type 0} {Q : B → Type 0} {m : Act A} {f : A → Act B}
      → Ensures env L P E m
      → ((a : A) → P a → Ensures env L Q E (f a))
      → Ensures env L Q E (m >>= f)
  unfolding ◌>>=◌
  Ensures-bind {m} {f} first next = record {
    run = λ st. Outcome-and_then f next st.held (m env st) (first.run st);
  }

  pub Ensures-then :
      {A B : Type 0} {P : A → Type 0} {Q : B → Type 0} {m : Act A} {k : Act B}
      → Ensures env L P E m
      → Ensures env L Q E k
      → Ensures env L Q E (m >> k)
  Ensures-then first next = Ensures-bind first (λ a p. next)

  pub Ensures-mono :
      {A : Type 0} {P Q : A → Type 0} {m : Act A}
      → Ensures env L P E m
      → ((a : A) → P a → Q a)
      → Ensures env L Q E m
  Ensures-mono first weaken = record { run = λ st. Outcome-mono weaken (first.run st) }

  Outcome-cleaned :
      {A : Type 0} {P : A → Type 0} (clean : Env → St → St) (h h' : Held) (r : Result A × St)
      → ((st : St) → Kept L h st.held → Kept L h' (clean env st).held)
      → Outcome h L P E r
      → Outcome h' L P E (let (x, st') = r in (x, clean env st'))
  Outcome-cleaned clean h h' _ back (done {st} p e) = done p (back st e)
  Outcome-cleaned clean h h' _ back (failed {st} x e) = failed x (back st e)

  pub Ensures-holding :
      {A : Type 0} {P : A → Type 0} {m : Act A} (k : Kind)
      → Ensures env L P E m
      → Ensures env L P E (holding k m)
  unfolding holding
  Ensures-holding {m} k body = record {
    run = λ st.
        Outcome-cleaned (release k) (inc k st.held) st.held (m env (acquire k st))
          (λ st' e. Kept-back k e) (body.run (acquire k st));
  }

  -- A clean-up that touches no resource.
  pub Ensures-finally :
      {A : Type 0} {P : A → Type 0} {m : Act A} (clean : Env → St → St)
      → ((st : St) → (clean env st).held ≡ st.held)
      → Ensures env L P E m
      → Ensures env L P E (finally m clean)
  unfolding finally
  Ensures-finally {m} clean same body = record {
    run = λ st.
        Outcome-cleaned clean st.held st.held (m env st)
          (λ st' e. Kept-trans e (Kept-of_eq (same st'))) (body.run st);
  }

  pub Ensures-require :
      (e : Error) (b : Bool) → (b ≡ false → E e) → Ensures env L (λ _. b ≡ true) E (require b e)
  unfolding require
  Ensures-require e true h = Ensures-pure tt refl
  Ensures-require e false h = Ensures-throw e (h refl)

  pub Ensures-if :
      {A : Type 0} {P : A → Type 0} {m k : Act A} (b : Bool)
      → (b ≡ true → Ensures env L P E m)
      → (b ≡ false → Ensures env L P E k)
      → Ensures env L P E (if b then m else k)
  Ensures-if true yes_branch no_branch = yes_branch refl
  Ensures-if false yes_branch no_branch = no_branch refl

  pub Ensures-fresh : Ensures env L (λ _. Unit) E fresh
  unfolding fresh
  Ensures-fresh = record { run = λ st. done tt (Kept-refl st.held) }

  pub Ensures-perf_now : Ensures env L (λ _. Unit) E perf_now
  unfolding perf_now
  Ensures-perf_now = record { run = λ st. done tt (Kept-refl st.held) }

  pub Ensures-perf_stop :
      (start : ℕ) (name : EventName) (mode : KeyMode)
      → Ensures env L (λ _. Unit) E (perf_stop start name mode)
  unfolding perf_stop
  Ensures-perf_stop start name mode = record { run = λ st. done tt (Kept-refl st.held) }

  pub Ensures-perf_reset : Ensures env L (λ _. Unit) E perf_reset
  unfolding perf_reset
  Ensures-perf_reset = record { run = λ st. done tt (Kept-refl st.held) }

  pub Ensures-load :
      (buffer : Bytes) (offset n : ℕ)
      → offset + n ≤ length buffer
      → Ensures env L (λ got. got ≡ take n (drop offset buffer)) E (load (some buffer) offset n)
  unfolding load
  Ensures-load buffer offset n h = rw (le→leb _ _ h) (Ensures-pure _ refl)

  pub Ensures-store :
      (buffer src : Bytes)
      → length src ≤ length buffer
      → Ensures env L (λ got. got ≡ src ++ drop (length src) buffer) E (store (some buffer) src)
  unfolding store
  Ensures-store buffer src h = rw (le→leb _ _ h) (Ensures-pure _ refl)

  pub Ensures-attempt :
      {A : Type 0} {P : A → Type 0} {F : Error → Type 0} {m : Act A}
      → Ensures env L P F m
      → Ensures env L (Maybe P ((e : Error) × F e)) E (attempt m)
  unfolding attempt
  Ensures-attempt body = record { run = λ st. Outcome-caught (body.run st) }

module _ {env : Env} {L : Type 0} {E : Error → Type 0} where
  pub Ensures-with_two_blocks :
      {A : Type 0} {P : A → Type 0} {fail m : Act A}
      → ((n : ℕ) → env.malloc_ok n ≡ false → Ensures env L P E fail)
      → Ensures env L P E m
      → Ensures env L P E (with_two_blocks fail m)
  unfolding with_two_blocks
  Ensures-with_two_blocks {P} {fail} {m} failing body = record {
    run = λ st.
        go st (Bool-cases (env.malloc_ok st.calls)) (Bool-cases (env.malloc_ok (suc st.calls)));
  }
    where
      go :
          (st : St)
          → (env.malloc_ok st.calls ≡ true) ⊎ (env.malloc_ok st.calls ≡ false)
          → (env.malloc_ok (suc st.calls) ≡ true) ⊎ (env.malloc_ok (suc st.calls) ≡ false)
          → Outcome st.held L P E (with_two_blocks fail m env st)
      go st (inl q) (inl r) =
          rw (q, r)
            ((Ensures-holding block (Ensures-holding block body)).run
              (record st { calls = suc (suc st.calls) }))
      go st (inl q) (inr r) =
          rw (q, r) ((failing (suc st.calls) r).run (record st { calls = suc (suc st.calls) }))
      go st (inr q) r = rw q ((failing st.calls q).run (record st { calls = suc (suc st.calls) }))
