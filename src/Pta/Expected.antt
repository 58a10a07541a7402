-- ===== src/Pta/Expected.antt =====
-- What evidence of `cmd_get_cbor_evidence` says of a caller, a nonce and the keys.
use optee_ra_fork.Base.{
  ℕ, zero, suc, ◌+◌, ◌-◌, ◌*◌, ◌%◌, ◌^◌, ◌≤◌, ◌<◌, arith, bit_and, bit_or, get_or, All, IsByte,
  ◌==◌, ◌||◌, ◌∙◌, ◌≡◌, refl, ap, ap₂, ◌⊎◌, inl, inr, Bool, true, false, Option, none, some, [],
  ◌∷◌, ◌++◌, if◌then◌else◌, length, take, drop, Bytes, codes, pos, leb,
}
use optee_ra_fork.Base.Bits.{and_mask, or_disjoint}
use optee_ra_fork.Tee.{Error}
use optee_ra_fork.Tee.Rules.{Maybe}
use optee_ra_fork.Hash.{VmInfo}
use optee_ra_fork.Hash.Measure.{measured, core_image}
use optee_ra_fork.Ocotp.Lifecycle.{srk_hash, lifecycle_table}
use optee_ra_fork.Sign.{public_key_x, public_key_y, key_size}
use optee_ra_fork.Cbor.{Evidence}
use optee_ra_fork.Params.{Param, memref, value, size_of}
use optee_ra_fork.Pta.{
  Platform, Keys, eat_profile, implementation_id, signer_id_test_value, lifecycle_default,
  min_key_param_size, client_id_of, os_version_of, token, or_unknown,
}

-- A memref whose buffer, if it has one, holds `size` bytes.
abbrev pub IsMemref : Param → Type 0
IsMemref (memref none size) = Unit
IsMemref (memref (some buffer) size) = size ≤ length buffer
IsMemref (value a b stale) = ⊥

-- A memref as above; without a buffer its size is 0.
abbrev pub IsWholeMemref : Param → Type 0
IsWholeMemref (memref none size) = size ≡ 0
IsWholeMemref (memref (some buffer) size) = size ≤ length buffer
IsWholeMemref (value a b stale) = ⊥

-- The bytes of a memref.
unfoldable pub contents : Param → Bytes
contents (memref none size) = []
contents (memref (some buffer) size) = take size buffer
contents (value a b stale) = []

-- A caller that gives no UUID.
abbrev pub IsAnonymous : Param → Type 0
IsAnonymous (memref none size) = Unit
IsAnonymous (memref (some buffer) size) = size ≡ 0
IsAnonymous (value a b stale) = ⊥

-- The last four bytes of a digest as a number, the first one the most significant, without its top bit.
unfoldable pub low_31_bits : Bytes → ℕ
low_31_bits digest =
    (get_or digest 28 0 * 2 ^ 24
      + get_or digest 29 0 * 2 ^ 16
      + get_or digest 30 0 * 2 ^ 8
      + get_or digest 31 0)
    % 2 ^ 31

-- The client id is that of the digest of the caller's UUID. It is 1 where there is no UUID, and where
-- a call failed with an error of `F`.
abbrev pub IsClientId : (Error → Type 0) → (Bytes → Bytes) → Param → ℕ → Type 0
IsClientId F sha256 p2 id =
    ((id ≡ 1) × (IsAnonymous p2 ⊎ ((e : Error) × F e)))
    ⊎ (All IsByte (sha256 (contents p2)) → id ≡ low_31_bits (sha256 (contents p2)))

get_or-below : (xs : Bytes) (i : ℕ) → All IsByte xs → get_or xs i 0 < 2 ^ 8
get_or-below [] i h = omega arith
get_or-below (x ∷ xs) zero h = omega (arith, h.0)
get_or-below (x ∷ xs) (suc i) h = get_or-below xs i h.1

-- Four bytes shifted into place and masked.
or_bytes :
    (a b c d : ℕ)
    → a < 2 ^ 8
    → b < 2 ^ 8
    → c < 2 ^ 8
    → d < 2 ^ 8
    → bit_and
        (bit_or
          (bit_or (bit_or (a * 2 ^ 24 % 2 ^ 32) (b * 2 ^ 16 % 2 ^ 32)) (c * 2 ^ 8 % 2 ^ 32))
          d)
        0x7FFFFFFF
      ≡ (a * 2 ^ 24 + b * 2 ^ 16 + c * 2 ^ 8 + d) % 2 ^ 31
or_bytes a b c d ha hb hc hd =
    and_mask 31 _ 0x7FFFFFFF refl
    ∙ ap (λ n. n % 2 ^ 31)
        (ap₂ (λ n m. bit_or (bit_or n m) d) two (omega arith) ∙ ap (λ n. bit_or n d) three ∙ four)
  where
    two : bit_or (a * 2 ^ 24 % 2 ^ 32) (b * 2 ^ 16 % 2 ^ 32) ≡ a * 2 ^ 24 + b * 2 ^ 16
    two =
        or_disjoint 24 a (b * 2 ^ 16 % 2 ^ 32) (a * 2 ^ 24 % 2 ^ 32) (omega arith) (omega arith)
        ∙ omega arith

    three : bit_or (a * 2 ^ 24 + b * 2 ^ 16) (c * 2 ^ 8) ≡ a * 2 ^ 24 + b * 2 ^ 16 + c * 2 ^ 8
    three =
        or_disjoint 16 (a * 2 ^ 8 + b) (c * 2 ^ 8) (a * 2 ^ 24 + b * 2 ^ 16) (omega arith)
          (omega arith)

    four : bit_or (a * 2 ^ 24 + b * 2 ^ 16 + c * 2 ^ 8) d ≡ a * 2 ^ 24 + b * 2 ^ 16 + c * 2 ^ 8 + d
    four =
        or_disjoint 8 (a * 2 ^ 16 + b * 2 ^ 8 + c) d (a * 2 ^ 24 + b * 2 ^ 16 + c * 2 ^ 8)
          (omega arith) hd

client_id_of-low_31_bits :
    (digest : Bytes) → All IsByte digest → client_id_of (some digest) ≡ low_31_bits digest
unfolding client_id_of low_31_bits
client_id_of-low_31_bits digest h =
    or_bytes _ _ _ _ (get_or-below digest 28 h) (get_or-below digest 29 h)
      (get_or-below digest 30 h) (get_or-below digest 31 h)

pub client_id_of-IsClientId :
    {F : Error → Type 0} (sha256 : Bytes → Bytes) (p2 : Param) (hash : Option Bytes)
    → Maybe (λ d. d ≡ sha256 (contents p2)) ((e : Error) × F e) hash
    → IsClientId F sha256 p2 (client_id_of hash)
client_id_of-IsClientId sha256 p2 none why = inl (unfold client_id_of in refl, inr why)
client_id_of-IsClientId sha256 p2 (some d) e =
    inr (λ h. ap (λ d. client_id_of (some d)) e ∙ client_id_of-low_31_bits _ h)

-- The characters before a space or the NUL.
unfoldable pub first_word : Bytes → Bytes
first_word [] = []
first_word (c ∷ text) = if c == 0x20 || c == 0 then [] else c ∷ first_word text

-- The version of the core: the first word of its version string, cut to 31 characters, if there is one.
unfoldable pub core_version : Bytes → Bytes
core_version core_v_str = elim (take 31 (first_word core_v_str)) [
  | [] ↦ codes "unknown"
  | c ∷ text ↦ c ∷ text
]

token-first_word : (room : ℕ) (text : Bytes) → token room text ≡ take room (first_word text)
unfolding token first_word
token-first_word zero text = refl
token-first_word (suc room) [] = refl
token-first_word (suc room) (c ∷ text) = by_tests (c == 0) (c == 0x20) (token-first_word room text)
  where
    by_tests :
        (is_nul is_space : Bool)
        → token room text ≡ take room (first_word text)
        → (if is_nul || is_space then [] else c ∷ token room text)
          ≡ take (suc room) (if is_space || is_nul then [] else c ∷ first_word text)
    by_tests true true ih = refl
    by_tests true false ih = refl
    by_tests false true ih = refl
    by_tests false false ih = ap (λ t. c ∷ t) ih

pub os_version_of-core_version : (text : Bytes) → os_version_of text ≡ core_version text
unfolding os_version_of core_version or_unknown
os_version_of-core_version text =
    ap or_unknown (token-first_word 31 text) ∙ by_word (take 31 (first_word text))
  where
    by_word : (w : Bytes) → or_unknown w ≡ elim w [ [] ↦ codes "unknown" | c ∷ text ↦ c ∷ text ]
    by_word [] = refl
    by_word (c ∷ w) = refl

-- The size check on a key: both coordinates and at least one byte behind them.
abbrev pub is_long_enough : Bool → Param → Bool
is_long_enough keyed p3 = if keyed then leb min_key_param_size (size_of p3) else true

-- The keys that the evidence names: out of the fourth parameter, or the embedded test key.
unfoldable pub keys_of : Bool → Param → Keys
keys_of true (memref (some buffer) size) = record {
  pub_x = take 32 buffer;
  pub_y = take 32 (drop 32 buffer);
  black_key = some (take (size - 64) (drop 64 buffer));
  black_len = size - 64;
}
keys_of true other = record { pub_x = []; pub_y = []; black_key = none; black_len = 0 }
keys_of false p3 = record {
  pub_x = public_key_x;
  pub_y = public_key_y;
  black_key = none;
  black_len = 0;
}

-- The signer and the lifecycle that the evidence names.
unfoldable pub signer_of : Platform → Bytes
signer_of p = if p.caam then srk_hash p.fuse else signer_id_test_value

unfoldable pub lifecycle_of : Platform → ℕ
lifecycle_of p = if p.caam then lifecycle_table p.fuse else lifecycle_default

-- The claims for a caller's id, a nonce, the keys and the memory of the calling TA.
unfoldable pub expected : Platform → VmInfo → ℕ → Bytes → Keys → Evidence
expected p info id nonce k = record {
  eat_profile = eat_profile;
  client_id = pos id;
  security_lifecycle = pos (lifecycle_of p);
  implementation_id = implementation_id p.caam;
  components =
      record {
        measurement_type = codes "ARoT";
        measurement_value = p.sha256 (measured p.vm p.qsort info);
        version = none;
        signer_id = signer_of p;
      }
      ∷ record {
        measurement_type = codes "PRoT";
        measurement_value = p.sha256 (core_image p.core);
        version = some (core_version p.core_v_str);
        signer_id = signer_of p;
      }
      ∷ [];
  instance_id = 0x01 ∷ p.sha256 (0x04 ∷ (take key_size k.pub_x ++ take key_size k.pub_y));
  nonce = nonce;
}
