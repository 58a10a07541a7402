-- ===== src/Host/Sendable.antt =====
-- The packed keys of attester/remote_attestation/host/main.c, and the size check of the PTA.
use optee_ra_fork.Base.{
  ◌≤◌, arith, ◌≡◌, refl, inl, inr, Bool, false, Bool-cases, Option, none, some, ◌++◌, ◌==◌, leb,
  leb→le, Bytes, length, length-append, length-take, take,
}
use optee_ra_fork.Tee.Rules.{Maybe}
use optee_ra_fork.Pta.{min_key_param_size}
use optee_ra_fork.Host.{pack_key}
use optee_ra_fork.Host.Client.{usable_key}
use optee_ra_fork.Host.CommandLine.{IsCoordinate}

-- No key, or one that the PTA finds long enough.
abbrev pub IsSendable : Option Bytes → Type 0
IsSendable = Maybe (λ k. min_key_param_size ≤ length k) Unit

-- `P` of the packed key, where there is no `errx`.
abbrev pub Packs : (Option Bytes → Type 0) → Option (Option Bytes) → Type 0
Packs P none = Unit
Packs P (some key) = P key

packed_size :
    (key x y : Bytes)
    → length x ≡ 32
    → length y ≡ 32
    → (length key == 0) ≡ false
    → min_key_param_size ≤ length (take 32 x ++ (take 32 y ++ key))
packed_size key x y hx hy nonempty =
    let some_key : 1 ≤ length key = ground (arith, nonempty) in
    omega (
      arith,
      length-append (take 32 x) (take 32 y ++ key),
      length-append (take 32 y) key,
      length-take 32 x (omega (arith, hx)),
      length-take 32 y (omega (arith, hy)),
      some_key,
    )

pub pack_key-IsSendable :
    (served : Bool) (key pub_x pub_y : Option Bytes)
    → IsCoordinate pub_x
    → IsCoordinate pub_y
    → Packs IsSendable (pack_key served key pub_x pub_y)
unfolding pack_key
pack_key-IsSendable served none x y hx hy = tt
pack_key-IsSendable served (some key) (some x) (some y) hx hy =
    elim (Bool-cases (length key == 0)) [
      | inl z ↦ rw (z, Packs) tt
      | inr z ↦ elim (Bool-cases served) [
        | inl s ↦ rw (z, s, Packs) (packed_size key x y hx hy z)
        | inr s ↦ rw (z, s, Packs) tt
      ]
    ]
pack_key-IsSendable served (some key) none none hx hy = elim (Bool-cases (length key == 0)) [
  | inl z ↦ rw (z, Packs) tt
  | inr z ↦ elim (Bool-cases (leb 65 (length key))) [
    | inl s ↦ rw (z, s, Packs) (leb→le 65 (length key) s)
    | inr s ↦ rw (z, s, Packs) tt
  ]
]
pack_key-IsSendable served (some key) (some x) none hx hy = elim (Bool-cases (length key == 0)) [
  | inl z ↦ rw (z, Packs) tt
  | inr z ↦ rw (z, Packs) tt
]
pack_key-IsSendable served (some key) none (some y) hx hy = elim (Bool-cases (length key == 0)) [
  | inl z ↦ rw (z, Packs) tt
  | inr z ↦ rw (z, Packs) tt
]

pub usable_key-sendable : (key : Option Bytes) → IsSendable key → usable_key key ≡ key
unfolding usable_key
usable_key-sendable none h = refl
usable_key-sendable (some key) h =
    let e : (length key == 0) ≡ false = ground (arith, h) in rw e refl
