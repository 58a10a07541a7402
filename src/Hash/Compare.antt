-- ===== src/Hash/Compare.antt =====
-- `cmp_regions` of hash.c, with `memcmp` of the C library.
use optee_ra_fork.Base.{[], ◌∷◌, ltb, if◌then◌else◌, length, Bytes, ◌≡◌, ◌≢◌, refl, arith}
use optee_ra_fork.Hash.{Region}

-- The sign of the `int` that a comparison returns.
pub data Sign : Type 0 where
  negative equal positive : Sign

unfoldable pub memcmp : Bytes → Bytes → Sign
memcmp [] ys = equal
memcmp (x ∷ xs) [] = equal
memcmp (x ∷ xs) (y ∷ ys) = if ltb x y then negative else if ltb y x then positive else memcmp xs ys

unfoldable pub cmp_contents : Bytes → Bytes → Sign
cmp_contents a b =
    if ltb (length a) (length b)
    then negative
    else if ltb (length b) (length a)
    then positive
    else memcmp a b

unfoldable pub cmp_regions : Region → Region → Sign
unfolding cmp_contents memcmp
cmp_regions r1 r2 = cmp_contents r1.contents r2.contents

memcmp_antisymm :
    (a b : Bytes) → length a ≡ length b → memcmp a b ≢ positive → memcmp b a ≢ positive → a ≡ b
unfolding memcmp
memcmp_antisymm [] [] e h k = refl
memcmp_antisymm [] (y ∷ b) e h k = absurd (omega arith)
memcmp_antisymm (x ∷ a) [] e h k = absurd (omega arith)
memcmp_antisymm (x ∷ a) (y ∷ b) e h k = ground (arith, memcmp_antisymm a b)

-- Regions that are not ordered strictly either way hold the same bytes.
pub cmp_contents_antisymm :
    (a b : Bytes) → cmp_contents a b ≢ positive → cmp_contents b a ≢ positive → a ≡ b
unfolding cmp_contents
cmp_contents_antisymm a b h k = ground (arith, memcmp_antisymm a b)
