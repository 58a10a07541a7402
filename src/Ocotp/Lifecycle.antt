-- ===== src/Ocotp/Lifecycle.antt =====
-- The fuses read off directly, against the reader of ocotp.c.
use optee_ra_fork.Base.{
  ◌&&◌, All, ℕ, zero, suc, ◌+◌, ◌-◌, ◌*◌, ◌/◌, ◌%◌, ◌^◌, ◌<◌, ◌≡◌, refl, sym, ap₂, ◌∙◌, arith, Bool,
  true, not, List, [], ◌∷◌, ◌++◌, ◌==◌, if◌then◌else◌, Bytes,
}
use native.Mathlib.Nat.{div-one}
use optee_ra_fork.Base.Bits.{and_bit}
use optee_ra_fork.Tee.{Env, Error}
use optee_ra_fork.Tee.Rules.{Ensures, Ensures-bind, Ensures-then, Ensures-mono, Ensures-pure}
use optee_ra_fork.Tee.Answers.{Answers, Ensures-call}
use optee_ra_fork.Ocotp.{
  lifecycle_of, ocotp_read, read_words, read_banks, read_srk_hash, get_lifecycle, srk_is_zero,
  big_endian, sec_config_bit,
}

unfoldable pub bytes_of : List ℕ → Bytes
bytes_of [] = []
bytes_of (w ∷ ws) = big_endian w ++ bytes_of ws

module _ (fuse : ℕ → ℕ → ℕ) where
  words_from : (bank left word : ℕ) → Bytes
  words_from bank zero word = []
  words_from bank (suc left) word = big_endian (fuse bank word) ++ words_from bank left (word + 1)

  banks_from : (left bank : ℕ) → Bytes
  banks_from zero bank = []
  banks_from (suc left) bank = words_from bank 4 0 ++ banks_from left (bank + 1)

  -- The SRK fuses: banks 6 and 7, four words each.
  unfoldable pub srk_words : List ℕ
  srk_words =
      fuse 6 0 ∷ fuse 6 1 ∷ fuse 6 2 ∷ fuse 6 3 ∷ fuse 7 0 ∷ fuse 7 1 ∷ fuse 7 2 ∷ fuse 7 3 ∷ []

  -- The byte `i` of the SRK hash: of the word `i / 4` from bank 6 on, the byte `i % 4` counted from the
  -- most significant one.
  unfoldable pub srk_byte : ℕ → ℕ
  srk_byte i = fuse (6 + i / 16) (i / 4 % 4) / 256 ^ (3 - i % 4) % 256

  unfoldable pub srk_bytes : (left i : ℕ) → Bytes
  srk_bytes zero i = []
  srk_bytes (suc left) i = srk_byte i ∷ srk_bytes left (suc i)

  -- The SRK hash.
  unfoldable pub srk_hash : Bytes
  srk_hash = srk_bytes 32 0

  words_of_hash : bytes_of srk_words ≡ srk_hash
  unfolding srk_hash srk_bytes srk_byte srk_words bytes_of big_endian
  words_of_hash = simp div-one refl

module _ {env : Env} {L : Type 0} {E : Error → Type 0} (answers : Answers env E)
    (fuse : ℕ → ℕ → ℕ) where
  Ensures-ocotp_read :
      (bank word : ℕ) → Ensures env L (λ v. v ≡ fuse bank word) E (ocotp_read fuse bank word)
  unfolding ocotp_read
  Ensures-ocotp_read bank word = Ensures-then (Ensures-call answers) (Ensures-pure _ refl)

  Ensures-read_words :
      (bank left word : ℕ)
      → Ensures env L
          (λ got. got ≡ words_from fuse bank left word)
          E
          (read_words fuse bank left word)
  unfolding read_words words_from
  Ensures-read_words bank zero word = Ensures-pure _ refl
  Ensures-read_words bank (suc left) word = Ensures-bind (Ensures-ocotp_read bank word) λ v p.
      Ensures-bind (Ensures-read_words bank left (word + 1))
        λ rest q. Ensures-pure _ (ap₂ (λ a b. big_endian a ++ b) p q)

  Ensures-read_banks :
      (left bank : ℕ)
      → Ensures env L (λ got. got ≡ banks_from fuse left bank) E (read_banks fuse left bank)
  unfolding read_banks banks_from
  Ensures-read_banks zero bank = Ensures-pure _ refl
  Ensures-read_banks (suc left) bank = Ensures-bind (Ensures-read_words bank 4 0) λ words p.
      Ensures-bind (Ensures-read_banks left (bank + 1)) λ rest q. Ensures-pure _ (ap₂ ◌++◌ p q)

  Ensures-read_words_of :
      Ensures env L (λ got. got ≡ bytes_of (srk_words fuse)) E (read_srk_hash fuse)
  unfolding read_srk_hash words_from banks_from srk_words bytes_of big_endian
  Ensures-read_words_of = Ensures-read_banks 2 6

  -- `ocotp_read_srk_hash` either passes on an error of the driver or fills the buffer with the SRK
  -- hash, banks 6 and 7 in order and each word big-endian.
  pub Ensures-read_srk_hash : Ensures env L (λ got. got ≡ srk_hash fuse) E (read_srk_hash fuse)
  Ensures-read_srk_hash = Ensures-mono Ensures-read_words_of λ got p. p ∙ words_of_hash fuse

zero-append : (xs ys : Bytes) → srk_is_zero (xs ++ ys) ≡ (srk_is_zero xs && srk_is_zero ys)
unfolding srk_is_zero
zero-append [] ys = refl
zero-append (x ∷ xs) ys = ground (arith, zero-append xs ys)

zero-big_endian : (v : ℕ) → v < 2 ^ 32 → srk_is_zero (big_endian v) ≡ (v == 0)
unfolding srk_is_zero big_endian
zero-big_endian v h = ground arith

unfoldable pub all_zero : List ℕ → Bool
all_zero [] = true
all_zero (w ∷ ws) = (w == 0) && all_zero ws

zero-bytes_of : (ws : List ℕ) → All (λ w. w < 2 ^ 32) ws → srk_is_zero (bytes_of ws) ≡ all_zero ws
unfolding bytes_of all_zero
zero-bytes_of [] h = unfold srk_is_zero in refl
zero-bytes_of (w ∷ ws) h =
    zero-append (big_endian w) (bytes_of ws)
    ∙ ap₂ ◌&&◌ (zero-big_endian w h.0) (zero-bytes_of ws h.1)

-- The table above `ocotp_get_lifecycle`, on the fuse words and bit 25 of SEC_CONFIG.
unfoldable pub lifecycle_table : (ℕ → ℕ → ℕ) → ℕ
lifecycle_table fuse =
    if all_zero (srk_words fuse)
    then 0x1000
    else if fuse 1 3 / 2 ^ 25 % 2 == 0
    then 0x2000
    else 0x3000

bit_test : (v : ℕ) → not (not (v / 2 ^ 25 % 2 * 2 ^ 25 == 0)) ≡ (v / 2 ^ 25 % 2 == 0)
bit_test v = ground arith

lifecycle_of-table :
    (fuse : ℕ → ℕ → ℕ)
    → All (λ w. w < 2 ^ 32) (srk_words fuse)
    → lifecycle_of (srk_hash fuse) (fuse 1 3) ≡ lifecycle_table fuse
unfolding lifecycle_of lifecycle_table
lifecycle_of-table fuse h = rw (
  sym (words_of_hash fuse),
  zero-bytes_of (srk_words fuse) h,
  and_bit 25 (fuse 1 3) sec_config_bit refl,
  bit_test,
)

module _ {env : Env} {L : Type 0} {E : Error → Type 0} (answers : Answers env E) (fuse : ℕ → ℕ → ℕ)
    (words : All (λ w. w < 2 ^ 32) (srk_words fuse)) where
  -- `ocotp_get_lifecycle`, on 32-bit fuse words, either passes on an error of the driver or reports
  -- the lifecycle of the table: ASSEMBLY_AND_TEST if all SRK words are zero, else ROT_PROVISIONING
  -- if SEC_CONFIG is open and SECURED if it is closed.
  pub Ensures-get_lifecycle :
      Ensures env L (λ got. got ≡ lifecycle_table fuse) E (get_lifecycle fuse)
  unfolding get_lifecycle
  Ensures-get_lifecycle = Ensures-bind (Ensures-read_srk_hash answers fuse) λ srk p.
      Ensures-bind (Ensures-ocotp_read answers fuse 1 3)
        λ cfg q. Ensures-pure _ (rw (p, q) (lifecycle_of-table fuse words))
