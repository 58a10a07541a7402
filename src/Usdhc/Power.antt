-- ===== src/Usdhc/Power.antt =====
-- Bringing the controller up: the pads, and the clocks of the clock controller.
use optee_ra_fork.Base.{ℕ, Bool, ◌&&◌, List, [], ◌∷◌, ◌==◌, not, bit_and, bit_or, if◌then◌else◌}
use optee_ra_fork.Tee.{generic}
use optee_ra_fork.Usdhc.Registers.{
  iomux, ccm, bit32, all_ones, nand_usdhc_bus_root, root_enable, ccgr,
}
use optee_ra_fork.Usdhc.Io.{delayed, Act, pure, throw, crash, ◌>>=◌, ◌>>◌, note, board, read, write}

-- `struct pad_cfg`
pub record PadCfg : Type 0 where
  pub mux_reg : ℕ
  pub conf_reg : ℕ
  pub input_reg : ℕ
  pub mux_mode : ℕ
  pub input_val : ℕ
  pub conf_val : ℕ

-- A pad of uSDHC3: mux mode 2, input value 1.
abbrev pub pad : ℕ → ℕ → ℕ → ℕ → PadCfg
pad mux conf input value = record {
  mux_reg = mux;
  conf_reg = conf;
  input_reg = input;
  mux_mode = 2;
  input_val = 1;
  conf_val = value;
}

abbrev pub usdhc3_pads : List PadCfg
usdhc3_pads =
    pad 0x124 0x384 0x604 0x190
    ∷ pad 0x128 0x388 0x60c 0x1d0
    ∷ pad 0x108 0x368 0x610 0x1d0
    ∷ pad 0x10c 0x36c 0x614 0x1d0
    ∷ pad 0x110 0x370 0x618 0x1d0
    ∷ pad 0x114 0x374 0x61c 0x1d0
    ∷ pad 0x11c 0x37c 0x620 0x1d0
    ∷ pad 0x0ec 0x34c 0x624 0x1d0
    ∷ pad 0x0f0 0x350 0x628 0x1d0
    ∷ pad 0x0f4 0x354 0x62c 0x1d0
    ∷ []

-- Accesses to the two blocks. Without a mapping they are accesses at a wild address.
unfoldable pub at_iomux : {A : Type 0} → Act A → Act A
at_iomux m = board λ b. if b.iomux_mapped then m else crash

unfoldable pub at_ccm : {A : Type 0} → Act A → Act A
at_ccm m = board λ b. if b.ccm_mapped then m else crash

-- The body of the loop over the pads.
unfoldable pub pad_configure : PadCfg → Act (Unit {0})
pad_configure p = do
  at_iomux (write (iomux p.mux_reg) p.mux_mode)
  at_iomux (write (iomux p.conf_reg) p.conf_val)
  if p.input_reg == 0 then pure tt else at_iomux (write (iomux p.input_reg) p.input_val)

unfoldable pub pads_configure : List PadCfg → Act (Unit {0})
pads_configure [] = pure tt
pads_configure (p ∷ ps) = do pad_configure p; pads_configure ps

unfoldable pub usdhc_pads_configure : Act (Unit {0})
usdhc_pads_configure =
    board λ b. if b.iomux_mapped then pads_configure usdhc3_pads else throw generic

-- A write to the CCM that makes a clock run, where it does not.
unfoldable pub write_unless : Bool → ℕ → ℕ → Act (Unit {0})
write_unless runs offset v = if runs then pure tt else at_ccm (write (ccm offset) v)

unfoldable pub usdhc_bus_clock_ensure : Act (Unit {0})
usdhc_bus_clock_ensure = board λ b. do
  v ← at_ccm (read (ccm nand_usdhc_bus_root))
  r ← at_ccm (read (ccm b.ccm_target))
  g ← at_ccm (read (ccm (ccgr b.ccm_ccgr)))
  let bus_runs = not (bit_and v root_enable == 0)
  let root_runs = not (bit_and r root_enable == 0)
  let gate_open = bit_and g 3 == 3
  write_unless bus_runs nand_usdhc_bus_root (bit_or v root_enable)
  write_unless root_runs b.ccm_target (bit_or r root_enable)
  write_unless gate_open (b.ccgr_set b.ccm_ccgr) all_ones
  if bus_runs && root_runs && gate_open then pure tt else note (delayed 10)

unfoldable pub usdhc_clock_enable : Act (Unit {0})
usdhc_clock_enable = board λ b.
    if b.ccm_mapped
    then (do
      at_ccm (write (ccm b.ccm_target) (bit32 28))
      at_ccm (write (ccm (b.ccgr_set b.ccm_ccgr)) all_ones)
      usdhc_bus_clock_ensure)
    else throw generic
