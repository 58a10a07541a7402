-- ===== src/Host/FullKey.antt =====
-- The keys on their way from the host through the TA to the PTA, in attester/remote_attestation/:
-- the full key that --generate-blackkey prints, and the parameters of a request.
use optee_ra_fork.Base.{
  ℕ, ◌+◌, ◌<◌, ◌≡◌, refl, sym, ap, inl, inr, Bool, true, false, Bool-cases, Option, none, some,
  ◌++◌, leb, le→leb, leb→le, subst, ==→eq, ◌==◌, not, ◌||◌, ◌&&◌, Bytes, length, length-append,
  length-take, All, IsByte, arith, if◌then◌else◌,
}
use optee_ra_fork.Tee.{Error, Env, St, ok}
use optee_ra_fork.Tee.Rules.{Maybe}
use optee_ra_fork.Params.{
  ParamTypes, Param, memref, value, Params, size_of, is_null, buffer_of, accepts_evidence,
}
use optee_ra_fork.Pta.{parse_keys}
use optee_ra_fork.Pta.Caam.{Reply}
use optee_ra_fork.Ta.{accepts_request, forward_types, has_packed_key, is_some}
use optee_ra_fork.Host.{parse_hex, hex_text, pack_key}
use optee_ra_fork.Host.Hex.{parse_hex-hex_text}
use optee_ra_fork.Host.Packed.{parse_keys-append}
use optee_ra_fork.Host.Client.{
  bytes_up_to, request_types, request_params, usable_key, Generated, failed, keys, show_keys,
  fetched, fetch_keys, generate_blackkey, exit,
}

-- The parts that are printed: the coordinates have 32 bytes, and the full key is made of them.
abbrev IsShown : Generated → Type 0
IsShown (failed e) = Unit {0}
IsShown (keys blob x y full) =
    (length x ≡ 32) × (length y ≡ 32) × Maybe (λ (f : Bytes). f ≡ x ++ (y ++ blob)) (Unit {0}) full

bytes_up_to-length :
    (p : Param) (n : ℕ) → Maybe (λ (b : Bytes). length b ≡ n) (Unit {0}) (bytes_up_to p n)
unfolding bytes_up_to
bytes_up_to-length (memref (some buffer) size) n = elim (Bool-cases (leb n (length buffer))) [
  | inl e ↦ rw e (length-take n buffer (leb→le n (length buffer) e))
  | inr e ↦ rw e tt
]
bytes_up_to-length (memref none size) n = elim (Bool-cases (n == 0)) [
  | inl e ↦ rw e (sym (==→eq n 0 e))
  | inr e ↦ rw e tt
]
bytes_up_to-length (value a b stale) n = tt

show_keys-IsShown :
    (served : Bool) (blob x y : Option Bytes)
    → Maybe (λ (b : Bytes). length b ≡ 32) (Unit {0}) x
    → Maybe (λ (b : Bytes). length b ≡ 32) (Unit {0}) y
    → IsShown (show_keys served blob x y)
unfolding show_keys
show_keys-IsShown served none x y hx hy = tt
show_keys-IsShown served (some blob) none y hx hy = tt
show_keys-IsShown served (some blob) (some x) none hx hy = tt
show_keys-IsShown true (some blob) (some x) (some y) hx hy = (hx, hy, refl)
show_keys-IsShown false (some blob) (some x) (some y) hx hy = (hx, hy, tt)

fetched-IsShown :
    (served : Bool) (status : Option Error) (blob x y : Option Bytes)
    → Maybe (λ (b : Bytes). length b ≡ 32) (Unit {0}) x
    → Maybe (λ (b : Bytes). length b ≡ 32) (Unit {0}) y
    → IsShown (fetched served status blob x y)
unfolding fetched
fetched-IsShown served (some e) blob x y hx hy = tt
fetched-IsShown served none blob x y hx hy = show_keys-IsShown served blob x y hx hy

if-IsShown : (t : Bool) (g : Generated) → IsShown g → IsShown (if t then failed (exit 1) else g)
if-IsShown true g h = tt
if-IsShown false g h = h

generate_blackkey-IsShown :
    (invoke : ℕ → ParamTypes → Params → Reply) (blob_served full_served : Bool)
    → IsShown (generate_blackkey invoke blob_served full_served)
unfolding generate_blackkey fetch_keys
generate_blackkey-IsShown invoke blob_served full_served =
    if-IsShown _ _
      (fetched-IsShown full_served _ _ _ _ (bytes_up_to-length _ 32) (bytes_up_to-length _ 32))

-- The full key that --generate-blackkey prints is a usable --key-hex: its text is read back, it is
-- the packed key as it stands, and the PTA takes it apart into the very coordinates and key blob
-- that the TA returned, provided that the blob is not empty and all of it are bytes.
pub full_key-parse_keys :
    (invoke : ℕ → ParamTypes → Params → Reply) (blob_served full_served : Bool)
    (blob x y full : Bytes) (env : Env) (st : St)
    → 0 < length blob
    → All IsByte full
    → generate_blackkey invoke blob_served full_served ≡ keys blob x y (some full)
    → (pack_key true (parse_hex true (hex_text full)) none none ≡ some (some full))
      × (parse_keys true (memref (some full) (length full)) env st ≡ (
        ok (record { pub_x = x; pub_y = y; black_key = some blob; black_len = length blob }),
        st,
      ))
unfolding pack_key
full_key-parse_keys invoke blob_served full_served blob x y full env st nonempty bytes h = (
  rw (parse_hex-hex_text full bytes)
      (rw (has_room, le→leb 65 (length full) (omega (arith, size))) refl),
  rw made (parse_keys-append blob x y env st shown.0 shown.1 nonempty),
)
  where
    shown : IsShown (keys blob x y (some full))
    shown = subst IsShown h (generate_blackkey-IsShown invoke blob_served full_served)

    made : full ≡ x ++ (y ++ blob)
    made = shown.2

    size : length full ≡ 64 + length blob
    size = omega (
      arith,
      ap (length {0}) made,
      length-append x (y ++ blob),
      length-append y blob,
      shown.0,
      shown.1,
    )

    has_room : (length full == 0) ≡ false
    has_room = ground (arith, size)

-- Every request of the host passes the guards behind it. With any key and a nonce that is not empty,
-- the TA accepts the parameter types and finds neither the nonce nor the output empty; it takes up
-- a packed key exactly if the host has one; and the types that it forwards are accepted by the PTA.
pub request_params-accepted :
    (nonce : Bytes) (key : Option Bytes)
    → 0 < length nonce
    → (accepts_request (request_types (usable_key key)) ≡ true)
      × ((is_null (buffer_of (request_params nonce (usable_key key)).p0)
            || size_of (request_params nonce (usable_key key)).p0 == 0)
          ≡ false)
      × ((is_null (buffer_of (request_params nonce (usable_key key)).p1)
            || size_of (request_params nonce (usable_key key)).p1 == 0)
          ≡ false)
      × ((has_packed_key (request_types (usable_key key))
            && not (
                is_null (buffer_of (request_params nonce (usable_key key)).p2)
                || size_of (request_params nonce (usable_key key)).p2 == 0))
          ≡ is_some (usable_key key))
      × (accepts_evidence (forward_types (is_some (usable_key key))) ≡ true)
unfolding request_types request_params usable_key accepts_request has_packed_key forward_types
    accepts_evidence is_some is_null buffer_of size_of
request_params-accepted nonce none h = (refl, ground (arith, h), refl, refl, refl)
request_params-accepted nonce (some key) h = elim (Bool-cases (length key == 0)) [
  | inl e ↦ rw e (refl, ground (arith, h), refl, refl, refl)
  | inr e ↦ rw e (refl, ground (arith, h), refl, rw e refl, refl)
]
