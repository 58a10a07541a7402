-- ===== src/Usdhc/Registers.antt =====
-- The registers of imx_usdhc.c, their bits, and the eMMC commands.
use optee_ra_fork.Base.{ℕ, ◌+◌, ◌*◌, ◌-◌, ◌%◌, ◌^◌}

-- The controller's registers by name, and the registers of the pad multiplexer and of the clock
-- controller by offset.
pub data Reg : Type 0 where
  dsaddr blkattr cmdarg xfertyp cmdrsp0 cmdrsp1 cmdrsp2 cmdrsp3 prsstat proctl sysctl : Reg
  irqstat irqstaten irqsigen autocmd12_err wml mixctrl dllctrl clktunectrl : Reg
  strobe_dll_ctrl tuning_ctrl vendorspec mmcboot : Reg
  iomux : ℕ → Reg
  ccm : ℕ → Reg

-- `BIT32(n)`, and `SHIFT_U32(v, n)`, which keeps 32 bits.
abbrev pub bit32 : ℕ → ℕ
bit32 n = 2 ^ n

abbrev pub shift_u32 : ℕ → ℕ → ℕ
shift_u32 v n = v % 2 ^ 32 * 2 ^ n % 2 ^ 32

-- `~mask` of 32 bits.
abbrev pub without : ℕ → ℕ
without mask = 2 ^ 32 - 1 - mask % 2 ^ 32

abbrev pub all_ones : ℕ
all_ones = 0xffffffff

abbrev pub block_size : ℕ
block_size = 512

-- `sizeof(dma_bounce)`
abbrev pub bounce_size : ℕ
bounce_size = 32 * block_size

abbrev pub cid_size : ℕ
cid_size = 16

-- XFERTYP_DPSEL, XFERTYP_CICEN and XFERTYP_CCCEN
abbrev pub dpsel : ℕ
dpsel = bit32 21

abbrev pub cicen : ℕ
cicen = bit32 20

abbrev pub cccen : ℕ
cccen = bit32 19

-- XFERTYP_RSPTYP_*
abbrev pub rsptyp_none : ℕ
rsptyp_none = 0

abbrev pub rsptyp_136 : ℕ
rsptyp_136 = shift_u32 1 16

abbrev pub rsptyp_48 : ℕ
rsptyp_48 = shift_u32 2 16

abbrev pub rsptyp_48_busy : ℕ
rsptyp_48_busy = shift_u32 3 16

-- MIXCTRL_MSBSEL | MIXCTRL_BCEN, MIXCTRL_DTDSEL and MIXCTRL_DMAEN
abbrev pub msbsel_bcen : ℕ
msbsel_bcen = bit32 5 + bit32 1

abbrev pub dtdsel : ℕ
dtdsel = bit32 4

abbrev pub dmaen : ℕ
dmaen = bit32 0

-- PRSSTAT_CIHB | PRSSTAT_CDIHB | PRSSTAT_DLA, the bit of a stable clock, and PRSSTAT_DAT0_LEVEL
abbrev pub inhibited : ℕ
inhibited = bit32 0 + bit32 1 + bit32 2

abbrev pub clock_stable : ℕ
clock_stable = bit32 3

abbrev pub dat0_level : ℕ
dat0_level = bit32 24

-- SYSCTL_*
abbrev pub inita : ℕ
inita = bit32 27

abbrev pub rsta_rstt : ℕ
rsta_rstt = bit32 24 + bit32 28

abbrev pub rst_fifo : ℕ
rst_fifo = bit32 22

abbrev pub rstc_rstd : ℕ
rstc_rstd = bit32 25 + bit32 26

abbrev pub clock_mask : ℕ
clock_mask = 0x0000fff0

abbrev pub timeout_mask : ℕ
timeout_mask = 0x000f0000

-- IRQSTAT_CC, IRQSTAT_BRR, the flags of a finished transfer, and IRQSTAT_ERROR
abbrev pub irq_cc : ℕ
irq_cc = bit32 0

abbrev pub irq_brr : ℕ
irq_brr = bit32 5

abbrev pub irq_done : ℕ
irq_done = bit32 1 + bit32 3

abbrev pub irq_error : ℕ
irq_error = bit32 16 + bit32 17 + bit32 18 + bit32 19 + bit32 20 + bit32 21 + bit32 22 + bit32 28

-- VENDORSPEC_CKEN, and it with PEREN, HCKEN, IPGEN and FRC_SDCLK_ON
abbrev pub cken : ℕ
cken = bit32 14

abbrev pub clocks_on : ℕ
clocks_on = bit32 14 + bit32 13 + bit32 12 + bit32 11 + bit32 8

-- MMC_CMD_*
abbrev pub go_idle_state : ℕ
go_idle_state = 0

abbrev pub send_op_cond : ℕ
send_op_cond = 1

abbrev pub all_send_cid : ℕ
all_send_cid = 2

abbrev pub set_relative_addr : ℕ
set_relative_addr = 3

abbrev pub switch : ℕ
switch = 6

abbrev pub select_card : ℕ
select_card = 7

abbrev pub send_ext_csd : ℕ
send_ext_csd = 8

abbrev pub set_blocklen : ℕ
set_blocklen = 16

abbrev pub read_multiple_block : ℕ
read_multiple_block = 18

abbrev pub set_block_count : ℕ
set_block_count = 23

abbrev pub write_multiple_block : ℕ
write_multiple_block = 25

-- MMC_OCR_BUSY, and MMC_OCR_SECTOR_MODE | MMC_OCR_VOLTAGE_MASK
abbrev pub ocr_busy : ℕ
ocr_busy = bit32 31

abbrev pub ocr_request : ℕ
ocr_request = bit32 30 + 0x00ff8000

-- EXT_CSD_*
abbrev pub ext_csd_part_conf : ℕ
ext_csd_part_conf = 179

abbrev pub ext_csd_rpmb_mult : ℕ
ext_csd_rpmb_mult = 168

abbrev pub ext_csd_rel_wr_sec_c : ℕ
ext_csd_rel_wr_sec_c = 222

abbrev pub part_access_mask : ℕ
part_access_mask = 7

abbrev pub part_access_rpmb : ℕ
part_access_rpmb = 3

-- CMD_TIMEOUT_US, DATA_TIMEOUT_US and OCR_TIMEOUT_US
abbrev pub cmd_timeout_us : ℕ
cmd_timeout_us = 1000000

abbrev pub data_timeout_us : ℕ
data_timeout_us = 15000000

abbrev pub ocr_timeout_us : ℕ
ocr_timeout_us = 2000000

-- CCM_NAND_USDHC_BUS_ROOT, CCM_ROOT_ENABLE and CCM_CCGRn
abbrev pub nand_usdhc_bus_root : ℕ
nand_usdhc_bus_root = 0x8900

abbrev pub root_enable : ℕ
root_enable = bit32 28

abbrev pub ccgr : ℕ → ℕ
ccgr n = 0x4000 + n * 0x10
