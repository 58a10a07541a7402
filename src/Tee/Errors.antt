-- ===== src/Tee/Errors.antt =====
-- An action's errors under a weaker predicate.
use optee_ra_fork.Tee.{Result, Env, St, Act, Error}
use optee_ra_fork.Tee.Resources.{Held}
use optee_ra_fork.Tee.Rules.{Ensures, Outcome, done, failed}

Outcome-errors :
    {A : Type 0} {h : Held} {L : Type 0} {P : A → Type 0} {E F : Error → Type 0} {r : Result A × St}
    → ((e : Error) → E e → F e)
    → Outcome h L P E r
    → Outcome h L P F r
Outcome-errors weaken (done p k) = done p k
Outcome-errors weaken (failed {e} x k) = failed (weaken e x) k

pub Ensures-errors :
    {A : Type 0} {env : Env} {L : Type 0} {P : A → Type 0} {E F : Error → Type 0} {m : Act A}
    → ((e : Error) → E e → F e)
    → Ensures env L P E m
    → Ensures env L P F m
Ensures-errors weaken first = record { run = λ st. Outcome-errors weaken (first.run st) }
