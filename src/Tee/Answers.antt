-- ===== src/Tee/Answers.antt =====
-- Rules for the calls whose status or allocation the environment decides, and what a run that ended
-- well returned.
use optee_ra_fork.Base.{
  ℕ, suc, ◌≡◌, refl, ap, subst, true, false, Option, none, some, ◌⊎◌, inl, inr, Bool-cases,
}
use optee_ra_fork.Tee.{Error, out_of_memory, Result, ok, Env, St, Act, call, with_block}
use optee_ra_fork.Tee.Resources.{Held, block, Kept-refl, Kept-eq}
use optee_ra_fork.Tee.Rules.{Outcome, Ensures, done, failed, Ensures-holding}

-- The errors of the environment are in `E`.
pub record Answers (env : Env) (E : Error → Type 0) : Type 0 where
  pub status_errors : (n : ℕ) (e : Error) → env.status n ≡ some e → E e
  pub malloc_errors : (n : ℕ) → env.malloc_ok n ≡ false → E out_of_memory

module _ {env : Env} {L : Type 0} {E : Error → Type 0} (answers : Answers env E) where
  pub Ensures-call : Ensures env L (λ _. Unit) E call
  unfolding call
  Ensures-call = record { run = λ st. go st (env.status st.calls) refl }
    where
      go :
          (st : St) (s : Option Error)
          → env.status st.calls ≡ s
          → Outcome st.held L (λ _. Unit) E (call env st)
      go st none q = rw (q, call) (done tt (Kept-refl st.held))
      go st (some e) q =
          rw (q, call) (failed (answers.status_errors st.calls e q) (Kept-refl st.held))

  pub Ensures-with_block :
      {A : Type 0} {P : A → Type 0} {m : Act A}
      → Ensures env L P E m
      → Ensures env L P E (with_block m)
  unfolding with_block
  Ensures-with_block {P} {m} body = record {
    run = λ st. go st (Bool-cases (env.malloc_ok st.calls));
  }
    where
      go :
          (st : St)
          → (env.malloc_ok st.calls ≡ true) ⊎ (env.malloc_ok st.calls ≡ false)
          → Outcome st.held L P E (with_block m env st)
      go st (inl q) = rw q ((Ensures-holding block body).run (record st { calls = suc st.calls }))
      go st (inr q) = rw q (failed (answers.malloc_errors st.calls q) (Kept-refl st.held))

-- Nothing is asked of the errors.
pub any_answers : (env : Env) → Answers env (λ _. Unit {0})
any_answers env = record { status_errors = λ n e q. tt; malloc_errors = λ n q. tt }

module _ {A : Type 0} {L : Type 0} {P : A → Type 0} {E : Error → Type 0} {h : Held} where
  pub Outcome-eq_ok :
      {r : Result A × St} {a : A} {st : St} → Outcome h L P E r → r ≡ (ok a, st) → P a
  Outcome-eq_ok {a} (done {a = a'} p e) q = subst P (result_of a' a (ap (λ t. t.0) q)) p
    where
      result_of : (x y : A) → ok x ≡ ok y → x ≡ y
      result_of x y e = cc
  Outcome-eq_ok (failed x e) q = cc (ap (λ t. t.0) q)

-- What a run that ended well returned.
pub Ensures-eq_ok :
    {A : Type 0} {P : A → Type 0} {E : Error → Type 0} {env : Env} {L : Type 0} {m : Act A} {a : A}
    (st : St) {st' : St}
    → Ensures env L P E m
    → m env st ≡ (ok a, st')
    → P a
Ensures-eq_ok st ensured q = Outcome-eq_ok (ensured.run st) q

-- With no error possible and nothing lost, the run ends well.
pub Outcome-succeeds :
    {A : Type 0} {P : A → Type 0} {E : Error → Type 0} {h : Held} {r : Result A × St}
    → ((e : Error) → E e → ⊥)
    → Outcome h ⊥ P E r
    → (a : A) × (st : St) × (r ≡ (ok a, st)) × P a × (st.held ≡ h)
Outcome-succeeds none_possible (done {a} {st} p kept) = (a, st, refl, p, Kept-eq kept)
Outcome-succeeds none_possible (failed {e = x} f kept) = elim (none_possible x f) [ ]
