-- ===== src/Host/Packed.antt =====
-- The packed key of attester/remote_attestation/host/main.c, and what the PTA makes of it.
use optee_ra_fork.Base.{
  take_all, ℕ, ◌+◌, ◌-◌, ◌≤◌, ◌<◌, arith, ◌≡◌, refl, sym, ap, ◌∙◌, true, false, some, ◌++◌, le→leb,
  ◌==◌, Bytes, length, length-append, take, drop, take-append, drop-append, append_assoc,
}
use optee_ra_fork.Tee.{Env, St, ok, pure, require, load, ◌>>=◌}
use optee_ra_fork.Params.{memref, to, buffer_of, size_of, load_at}
use optee_ra_fork.Pta.{parse_keys}
use optee_ra_fork.Host.{pack_key}

take_first : (n : ℕ) (xs ys : Bytes) → length xs ≡ n → take n (xs ++ ys) ≡ xs
take_first n xs ys h = ap (λ k. take k (xs ++ ys)) (sym h) ∙ take-append xs ys

drop_first : (n : ℕ) (xs ys : Bytes) → length xs ≡ n → drop n (xs ++ ys) ≡ ys
drop_first n xs ys h = ap (λ k. drop k (xs ++ ys)) (sym h) ∙ drop-append xs ys

drop_both : (x y key : Bytes) → length x ≡ 32 → length y ≡ 32 → drop 64 (x ++ (y ++ key)) ≡ key
drop_both x y key hx hy =
    ap (drop 64) (sym (append_assoc x y key))
    ∙ drop_first 64 (x ++ y) key (omega (arith, length-append x y, hx, hy))

load_at-ok :
    (buffer : Bytes) (offset n : ℕ) (env : Env) (st : St)
    → offset + n ≤ length buffer
    → load_at (to buffer) offset n env st ≡ (ok (take n (drop offset buffer)), st)
unfolding load_at load pure
load_at-ok buffer offset n env st h = rw (le→leb _ _ h, load_at) refl

pub parse_keys-append :
    (key x y : Bytes) (env : Env) (st : St)
    → length x ≡ 32
    → length y ≡ 32
    → 0 < length key
    → parse_keys true (memref (some (x ++ (y ++ key))) (length (x ++ (y ++ key)))) env st
      ≡ (ok (record { pub_x = x; pub_y = y; black_key = some key; black_len = length key }), st)
unfolding parse_keys require pure ◌>>=◌ buffer_of size_of
parse_keys-append key x y env st hx hy some_key =
    let size : length (x ++ (y ++ key)) ≡ 64 + length key =
      omega (arith, length-append x (y ++ key), length-append y key, hx, hy) in
    let rest : length (x ++ (y ++ key)) - 64 ≡ length key = omega (arith, size) in
    let last : take (length key) (drop 64 (x ++ (y ++ key))) ≡ key =
      ap (take (length key)) (drop_both x y key hx hy) ∙ take_all (length key) key (omega arith) in
    let middle : take 32 (drop 32 (x ++ (y ++ key))) ≡ y =
      ap (take 32) (drop_first 32 x (y ++ key) hx) ∙ take_first 32 y key hy in
    rw (le→leb 65 (length (x ++ (y ++ key))) (omega (arith, size, some_key)), rest)
      (rw
        (
          load_at-ok (x ++ (y ++ key)) 0 32 env st (omega (arith, size)),
          load_at-ok (x ++ (y ++ key)) 32 32 env st (omega (arith, size)),
          load_at-ok (x ++ (y ++ key)) 64 (length key) env st (omega (arith, size)),
        )
        (rw (last, middle, take_first 32 x (y ++ key) hx) refl))

-- A packed key of two coordinates of 32 bytes and a key that is not empty is what the PTA takes apart:
-- `parse_keys` on all of it returns the two coordinates and the key, and changes nothing.
pub parse_keys-pack_key :
    (key x y : Bytes) (env : Env) (st : St)
    → length x ≡ 32
    → length y ≡ 32
    → 0 < length key
    → (packed : Bytes) × (pack_key true (some key) (some x) (some y) ≡ some (some packed))
      × (parse_keys true (memref (some packed) (length packed)) env st ≡ (
        ok (record { pub_x = x; pub_y = y; black_key = some key; black_len = length key }),
        st,
      ))
unfolding pack_key
parse_keys-pack_key key x y env st hx hy some_key =
    let nonempty : (length key == 0) ≡ false = ground (arith, some_key) in
    (
      x ++ (y ++ key),
      rw (nonempty, take_all 32 x (omega (arith, hx)), take_all 32 y (omega (arith, hy))) refl,
      parse_keys-append key x y env st hx hy some_key,
    )
