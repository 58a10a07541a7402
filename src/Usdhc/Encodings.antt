-- ===== src/Usdhc/Encodings.antt =====
-- The values that the driver builds for the device and for the RPMB layer: the CID, and the
-- partition configuration that SWITCH writes.
use optee_ra_fork.Base.{
  ℕ, ◌+◌, ◌*◌, ◌/◌, ◌%◌, ◌^◌, ◌<◌, ◌≡◌, refl, Bool, true, false, ◌&&◌, [], ◌∷◌, Bytes, length, ◌==◌,
  all_below, all_below_sound, arith,
}
use optee_ra_fork.Usdhc.Command.{Response}
use optee_ra_fork.Usdhc.Card.{cid_of, switch_value}

-- The number that bytes stand for, the most significant one first.
abbrev pub be_value : ℕ → Bytes → ℕ
be_value n [] = n
be_value n (x ∷ xs) = be_value (n * 256 + x) xs

-- The response registers hold words.
pub record IsResponse (r : Response) : Type 0 where
  pub word0 : r.resp0 < 2 ^ 32
  pub word1 : r.resp1 < 2 ^ 32
  pub word2 : r.resp2 < 2 ^ 32
  pub word3 : r.resp3 < 2 ^ 32

-- The 128 bits of a long response.
abbrev pub response_value : Response → ℕ
response_value r = ((r.resp3 * 2 ^ 32 + r.resp2) * 2 ^ 32 + r.resp1) * 2 ^ 32 + r.resp0

length-cid_of : (r : Response) (compat : Bool) → length (cid_of compat r) ≡ 16
unfolding cid_of
length-cid_of r true = refl
length-cid_of r false = refl

-- The CID has 16 bytes. In the JEDEC layout their big-endian value is bits 119 to 0 of the response,
-- which are CID[127:8], followed by a zero byte for the CRC; in the layout of the first revision it
-- is the response itself.
pub cid_of_lem :
    (r : Response) (h : IsResponse r)
    → (be_value 0 (cid_of false r) ≡ response_value r % 2 ^ 120 * 2 ^ 8)
      × (be_value 0 (cid_of true r) ≡ response_value r)
      × ((compat : Bool) → length (cid_of compat r) ≡ 16)
unfolding cid_of
cid_of_lem r h = (omega arith, omega arith, length-cid_of r)

-- The eight possible partitions, and all configurations of a byte.
switch_table :
    all_below 256
      (λ c. all_below 8 (λ p. switch_value c p % 8 == p && switch_value c p / 8 == c / 8))
    ≡ true
unfolding all_below switch_value
switch_table = refl

-- SWITCH selects the partition asked for and keeps the other five bits of PARTITION_CONFIG, the
-- boot configuration of the device.
pub switch_value_lem :
    (part_conf part : ℕ)
    → part_conf < 256
    → part < 8
    → (switch_value part_conf part % 8 ≡ part) × (switch_value part_conf part / 8 ≡ part_conf / 8)
switch_value_lem part_conf part hc hp = ground (arith, at)
  where
    at :
        (switch_value part_conf part % 8 == part
          && switch_value part_conf part / 8 == part_conf / 8)
        ≡ true
    at = all_below_sound 8 _ part (all_below_sound 256 _ part_conf switch_table hc) hp
