-- ===== src/Usdhc/Io.antt =====
-- Accesses to the hardware as actions. What the hardware answers is a function of all accesses made
-- before, which the state records; so a theorem about every board is about every behaviour of the
-- controller, the device and the timer.
use optee_ra_fork.Base.{
  ℕ, zero, suc, Bool, true, false, Option, none, some, List, ◌∷◌, Bytes, bit_and, bit_or,
}
use optee_ra_fork.Tee.{Error}
use optee_ra_fork.Usdhc.Registers.{Reg, without}

-- What was done, and what a read returned. `copied` is the memcpy into dma_bounce; `cleaned` and
-- `dropped` are dcache_clean_range and dcache_inv_range of its first bytes, `delayed` is udelay, and
-- `asked` is a question to the timer, timeout_elapsed.
pub data Access : Type 0 where
  got : Reg → ℕ → Access
  put : Reg → ℕ → Access
  copied : Bytes → Access
  cleaned : ℕ → Access
  dropped : ℕ → Access
  delayed : ℕ → Access
  asked : Access

-- The accesses, the latest first.
abbrev pub Trace : Type 0
Trace = List Access

-- The hardware and the configuration: the value of a register, whether a timeout that was started
-- after the first accesses has elapsed after the second, what the controller left in dma_bounce,
-- which of the three register blocks are mapped, and the physical address of dma_bounce (0 for
-- none). `ccm_target`, `ccm_ccgr` and `cid_compat` are CFG_IMX_USDHC_*, `ccgr_set` is
-- CCM_CCGRx_SET. `polls` bounds the rounds of a polling loop in this model.
pub record Board : Type 0 where
  pub value : Trace → Reg → ℕ
  pub elapsed : ℕ → Trace → Trace → Bool
  pub bounce : Trace → Bytes
  pub usdhc_mapped : Bool
  pub iomux_mapped : Bool
  pub ccm_mapped : Bool
  pub bounce_pa : ℕ
  pub ccm_target : ℕ
  pub ccm_ccgr : ℕ
  pub ccgr_set : ℕ → ℕ
  pub cid_compat : Bool
  pub polls : ℕ

-- `struct usdhc_ctx`, without the cached address.
pub record Ctx : Type 0 where
  pub rca : ℕ
  pub rpmb_mult : ℕ
  pub rel_wr_sec_c : ℕ
  pub part_conf : ℕ
  pub clock_bits : ℕ
  pub cid : Bytes
  pub cur_part : ℕ
  pub inited : Bool

pub record Dev : Type 0 where
  pub ctx : Ctx
  pub trace : Trace

-- `fault` is an access outside of a buffer, `hang` a polling loop that has used up its rounds.
pub data Result (A : Type 0) : Type 0 where
  ok : A → Result A
  err : Error → Result A
  fault : Result A
  hang : Result A

abbrev pub Act : Type 0 → Type 0
Act A = Board → Dev → Result A × Dev

unfoldable pub pure : {A : Type 0} → A → Act A
pure a b d = (ok a, d)

unfoldable pub throw : {A : Type 0} → Error → Act A
throw e b d = (err e, d)

unfoldable pub crash : {A : Type 0} → Act A
crash b d = (fault, d)

abbrev pub and_then : {A B : Type 0} → Result A × Dev → (A → Dev → Result B × Dev) → Result B × Dev
and_then (ok a, d) f = f a d
and_then (err e, d) f = (err e, d)
and_then (fault, d) f = (fault, d)
and_then (hang, d) f = (hang, d)

infixl 5 ◌>>=◌ ◌>>◌
unfoldable pub ◌>>=◌ : {A B : Type 0} → Act A → (A → Act B) → Act B
◌>>=◌ m f b d = and_then (m b d) (λ a d'. f a b d')

abbrev pub ◌>>◌ : {A B : Type 0} → Act A → Act B → Act B
m >> k = m >>= λ _. k

-- `res = f(...)` where the code goes on whatever `res` is: `none` is TEE_SUCCESS.
abbrev pub status_of : {A : Type 0} → Result A × Dev → Result (Option Error) × Dev
status_of (ok a, d) = (ok none, d)
status_of (err e, d) = (ok (some e), d)
status_of (fault, d) = (fault, d)
status_of (hang, d) = (hang, d)

unfoldable pub status : {A : Type 0} → Act A → Act (Option Error)
status m b d = status_of (m b d)

unfoldable pub note : Access → Act (Unit {0})
note a b d = (ok tt, record d { trace = a ∷ d.trace })

unfoldable pub board : {A : Type 0} → (Board → Act A) → Act A
board f b d = f b b d

unfoldable pub context : {A : Type 0} → (Ctx → Act A) → Act A
context f b d = f d.ctx b d

unfoldable pub set_context : (Ctx → Ctx) → Act (Unit {0})
set_context f b d = (ok tt, record d { ctx = f d.ctx })

-- io_read32 and io_write32, and the accesses of io.h that are a read and a write.
unfoldable pub read : Reg → Act ℕ
read r b d = (ok (b.value d.trace r), record d { trace = got r (b.value d.trace r) ∷ d.trace })

abbrev pub write : Reg → ℕ → Act (Unit {0})
write r v = note (put r v)

unfoldable pub set_bits : Reg → ℕ → Act (Unit {0})
set_bits r mask = do v ← read r; write r (bit_or v mask)

unfoldable pub clear_bits : Reg → ℕ → Act (Unit {0})
clear_bits r mask = do v ← read r; write r (bit_and v (without mask))

unfoldable pub clear_set_bits : Reg → ℕ → ℕ → Act (Unit {0})
clear_set_bits r clear mask = do v ← read r; write r (bit_or (bit_and v (without clear)) mask)

-- A polling loop: rounds of `step`, which can end it, until `timeout_elapsed`, and then `late`;
-- `pause` stands between two rounds. The timeout was started after the accesses `since`.
unfoldable pub poll_rounds :
    {A : Type 0} → ℕ → ℕ → Trace → Act (Option A) → Act (Unit {0}) → Act A → Act A
poll_rounds zero timeout since step pause late b d = (hang, d)
poll_rounds (suc n) timeout since step pause late b d = and_then (step b d) λ r d'. elim r [
  | some a ↦ (ok a, d')
  | none ↦ elim (b.elapsed timeout since (asked ∷ d'.trace)) [
    | true ↦ late b (record d' { trace = asked ∷ d'.trace })
    | false ↦
        and_then (pause b (record d' { trace = asked ∷ d'.trace }))
          (λ _ d''. poll_rounds n timeout since step pause late b d'')
  ]
]

-- `timeout_init_us` and the loop.
unfoldable pub poll : {A : Type 0} → ℕ → Act (Option A) → Act (Unit {0}) → Act A → Act A
poll timeout step pause late b d = poll_rounds (suc b.polls) timeout d.trace step pause late b d
