-- ===== src/Usdhc/Calls.antt =====
-- The calls of the functions of imx_usdhc.h: how a run ends, and the states that calls lead to.
use optee_ra_fork.Base.{ℕ, ◌*◌, ◌≤◌, false, [], Bytes, length, replicate}
use optee_ra_fork.Usdhc.Registers.{block_size, cid_size}
use optee_ra_fork.Usdhc.Io.{Board, Dev, Result, ok, err, fault, hang}
use optee_ra_fork.Usdhc.Card.{
  imx_usdhc_init, imx_usdhc_dev_info, imx_usdhc_rpmb_read, imx_usdhc_rpmb_write,
}
use optee_ra_fork.Usdhc.Rules.{Outcome, done, failed}
use optee_ra_fork.Usdhc.Protocol.{IsSafe}

-- A run that ends, with a result or with an error code.
abbrev pub Ends : {A : Type 0} → Result A × Dev → Type 0
Ends (ok a, d) = Unit {0}
Ends (err e, d) = Unit {0}
Ends (fault, d) = ⊥
Ends (hang, d) = ⊥

abbrev pub Fails : {A : Type 0} → Result A × Dev → Type 0
Fails (err e, d) = Unit {0}
Fails r = ⊥

abbrev pub WhenOk : {A : Type 0} → (A → Dev → Type 0) → Result A × Dev → Type 0
WhenOk Q (ok a, d) = Q a d
WhenOk Q r = Unit {0}

abbrev pub WhenErr : {A : Type 0} → (Dev → Type 0) → Result A × Dev → Type 0
WhenErr F (err e, d) = F d
WhenErr F r = Unit {0}

module _ {A : Type 0} {n : ℕ} {Q : A → Dev → Type 0} {F : Dev → Type 0} where
  pub Outcome-Ends : {r : Result A × Dev} → Outcome n Q F r → Ends r
  Outcome-Ends (done q h) = tt
  Outcome-Ends (failed f h) = tt

  pub Outcome-WhenOk : {r : Result A × Dev} → Outcome n Q F r → WhenOk Q r
  Outcome-WhenOk (done q h) = q
  Outcome-WhenOk (failed f h) = tt

  pub Outcome-WhenErr : {r : Result A × Dev} → Outcome n Q F r → WhenErr F r
  Outcome-WhenErr (done q h) = tt
  Outcome-WhenErr (failed f h) = f

pub Outcome-IsSafe :
    {A : Type 0} {b : Board} {n : ℕ} {Q : A → Dev → Type 0} {r : Result A × Dev}
    → ((a : A) (d : Dev) → Q a d → IsSafe b d)
    → Outcome n Q (IsSafe b) r
    → IsSafe b r.1
Outcome-IsSafe w (done {a} {d} q h) = w a d q
Outcome-IsSafe w (failed f h) = f

pub Outcome-Fails :
    {A : Type 0} {n : ℕ} {F : Dev → Type 0} {r : Result A × Dev}
    → Outcome n (λ (a : A) d. ⊥) F r
    → Fails r
Outcome-Fails (done q h) = absurd q
Outcome-Fails (failed f h) = tt

-- The static `usdhc_ctx` and no access made.
abbrev pub boot : Dev
boot = record {
  ctx = record {
    rca = 1;
    rpmb_mult = 0;
    rel_wr_sec_c = 0;
    part_conf = 0;
    clock_bits = 0;
    cid = replicate cid_size 0;
    cur_part = 0xff;
    inited = false;
  };
  trace = [];
}

-- The states that the driver can come to, by any calls in any order. The RPMB layer passes buffers
-- that hold the blocks it asks for.
pub data Reached (b : Board) : Dev → Type 0 where
  start : Reached b boot
  init : {d : Dev} → Reached b d → Reached b (imx_usdhc_init b d).1
  dev_info : {d : Dev} → Reached b d → Reached b (imx_usdhc_dev_info b d).1
  rpmb_read :
      {d : Dev} (room nblocks : ℕ)
      → nblocks * block_size ≤ room
      → Reached b d
      → Reached b (imx_usdhc_rpmb_read room nblocks b d).1
  rpmb_write :
      {d : Dev} (buf : Bytes) (nblocks : ℕ)
      → nblocks * block_size ≤ length buf
      → Reached b d
      → Reached b (imx_usdhc_rpmb_write buf nblocks b d).1
