-- ===== src/Ocotp.antt =====
-- The fuse reader of pta_remote_attestation/remote_attestation/ocotp.c and ocotp.h. The driver's
-- `imx_ocotp_read` is the parameter `fuse`, the 32-bit word at each bank and word of the fuse map;
-- whether a read succeeds is the environment's answer.
pub mod Lifecycle
use optee_ra_fork.Base.{
  ℕ, zero, suc, ◌+◌, ◌-◌, ◌*◌, ◌/◌, ◌%◌, ◌^◌, bit_and, Bool, true, false, not, List, [], ◌∷◌, ◌++◌,
  ◌==◌, if◌then◌else◌, Bytes,
}
use optee_ra_fork.Tee.{Act, call, pure, ◌>>=◌, ◌>>◌}

abbrev pub srk_bank_start : ℕ
srk_bank_start = 6

abbrev pub srk_bank_end : ℕ
srk_bank_end = 7

abbrev pub sec_config_bank : ℕ
sec_config_bank = 1

abbrev pub sec_config_word : ℕ
sec_config_word = 3

abbrev pub sec_config_bit : ℕ
sec_config_bit = 2 ^ 25

abbrev pub lifecycle_assembly_and_test : ℕ
lifecycle_assembly_and_test = 0x1000

abbrev pub lifecycle_rot_provisioning : ℕ
lifecycle_rot_provisioning = 0x2000

abbrev pub lifecycle_secured : ℕ
lifecycle_secured = 0x3000

unfoldable pub srk_is_zero : Bytes → Bool
srk_is_zero [] = true
srk_is_zero (b ∷ rest) = if b == 0 then srk_is_zero rest else false

-- The four stores of the inner loop: the word, most significant byte first.
unfoldable pub big_endian : ℕ → Bytes
big_endian val = val / 2 ^ 24 % 256 ∷ val / 2 ^ 16 % 256 ∷ val / 2 ^ 8 % 256 ∷ val % 256 ∷ []

-- The end of `ocotp_get_lifecycle`: the state for the SRK hash and the SEC_CONFIG word.
unfoldable pub lifecycle_of : Bytes → ℕ → ℕ
lifecycle_of srk sec_cfg =
    let closed = not (bit_and sec_cfg sec_config_bit == 0) in
    if srk_is_zero srk
    then lifecycle_assembly_and_test
    else if not closed
    then lifecycle_rot_provisioning
    else lifecycle_secured

module _ (fuse : ℕ → ℕ → ℕ) where
  unfoldable pub ocotp_read : ℕ → ℕ → Act ℕ
  ocotp_read bank word = do call; pure (fuse bank word)

  -- The inner loop, with `left` words to go from `word` on.
  unfoldable pub read_words : ℕ → (left word : ℕ) → Act Bytes
  read_words bank zero word = pure []
  read_words bank (suc left) word = do
    val ← ocotp_read bank word
    rest ← read_words bank left (word + 1)
    pure (big_endian val ++ rest)

  -- The outer loop, with `left` banks to go from `bank` on.
  unfoldable pub read_banks : (left bank : ℕ) → Act Bytes
  read_banks zero bank = pure []
  read_banks (suc left) bank = do
    words ← read_words bank 4 0
    rest ← read_banks left (bank + 1)
    pure (words ++ rest)

  unfoldable pub read_srk_hash : Act Bytes
  read_srk_hash = read_banks (srk_bank_end + 1 - srk_bank_start) srk_bank_start

  -- `ocotp_get_lifecycle` with an output pointer that is not NULL.
  unfoldable pub get_lifecycle : Act ℕ
  get_lifecycle = do
    srk ← read_srk_hash
    sec_cfg ← ocotp_read sec_config_bank sec_config_word
    pure (lifecycle_of srk sec_cfg)
