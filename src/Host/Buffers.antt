-- ===== src/Host/Buffers.antt =====
-- The heap blocks of attester/remote_attestation/host/main.c: those behind the options of the command
-- line and behind the packed key, and which of them the end of an attestation frees.
use optee_ra_fork.Base.{
  ℕ, suc, ◌+◌, ◌≡◌, refl, ap, ap₂, ◌∙◌, arith, inl, inr, Bool, true, false, not, Bool-cases, Option,
  none, some, List, [], ◌∷◌, ◌++◌, leb, ◌==◌, ◌&&◌, if◌then◌else◌, Bytes, length, take,
}
use optee_ra_fork.Pta.{min_key_param_size}
use optee_ra_fork.Ta.{is_some}
use optee_ra_fork.Host.{pack_key}

-- `host_key`, `host_pub_x`, `host_pub_y`, and the block of `malloc` for the packed key.
pub data Block : Type 0 where
  key_block pub_x_block pub_y_block packed_block : Block

-- Which block `packed_key_param` points to, by the values of the options: a full key is used in place.
unfoldable pub packed_key_param : (key pub_x pub_y : Option Bytes) → Option Block
packed_key_param none pub_x pub_y = none
packed_key_param (some key) pub_x pub_y =
    if length key == 0
    then none
    else if leb min_key_param_size (length key) && (not (is_some pub_x) && not (is_some pub_y))
    then some key_block
    else if is_some pub_x && is_some pub_y
    then some packed_block
    else none

-- `free` under a test of the pointer.
unfoldable pub free_if : Bool → Block → List Block
free_if true b = b ∷ []
free_if false b = []

unfoldable pub is_set : Option Block → Bool
is_set none = false
is_set (some b) = true

-- `packed_key_param && packed_key_param != host_key`
unfoldable pub is_own_block : Option Block → Bool
is_own_block none = false
is_own_block (some key_block) = false
is_own_block (some b) = true

-- The four statements at the end, in order.
unfoldable pub free_buffers : (key pub_x pub_y : Option Bytes) → List Block
free_buffers key pub_x pub_y =
    free_if (is_own_block (packed_key_param key pub_x pub_y)) packed_block
    ++ (free_if (is_some key) key_block
        ++ (free_if (is_some pub_x) pub_x_block ++ free_if (is_some pub_y) pub_y_block))

-- Whether a block was allocated: `parse_hex` allocates one for each option with a value, `main` one
-- for a key that comes with its coordinates.
abbrev pub is_allocated : (key pub_x pub_y : Option Bytes) → Block → Bool
is_allocated key pub_x pub_y key_block = is_some key
is_allocated key pub_x pub_y pub_x_block = is_some pub_x
is_allocated key pub_x pub_y pub_y_block = is_some pub_y
is_allocated none pub_x pub_y packed_block = false
is_allocated (some key) pub_x pub_y packed_block = not (length key == 0) && is_some pub_x

abbrev pub same_block : Block → Block → Bool
same_block key_block key_block = true
same_block pub_x_block pub_x_block = true
same_block pub_y_block pub_y_block = true
same_block packed_block packed_block = true
same_block b c = false

abbrev pub times_freed : Block → List Block → ℕ
times_freed b [] = 0
times_freed b (c ∷ cs) = if same_block b c then suc (times_freed b cs) else times_freed b cs

abbrev pub once : Bool → ℕ
once true = 1
once false = 0

times_freed-append :
    (b : Block) (cs ds : List Block)
    → times_freed b (cs ++ ds) ≡ times_freed b cs + times_freed b ds
times_freed-append b [] ds = omega arith
times_freed-append b (c ∷ cs) ds = elim (Bool-cases (same_block b c)) [
  | inl h ↦ rw h (omega (arith, times_freed-append b cs ds))
  | inr h ↦ rw h (times_freed-append b cs ds)
]

times_freed-free_if :
    (b : Block) (t : Bool) (c : Block) → times_freed b (free_if t c) ≡ once (same_block b c && t)
unfolding free_if
times_freed-free_if b t c = by_test t
  where
    by_test : (t : Bool) → times_freed b (free_if t c) ≡ once (same_block b c && t)
    by_test true = elim (Bool-cases (same_block b c)) [ inl h ↦ rw h refl | inr h ↦ rw h refl ]
    by_test false = elim (Bool-cases (same_block b c)) [ inl h ↦ rw h refl | inr h ↦ rw h refl ]

-- Four tested calls of `free`, for different blocks.
frees_lem :
    (b : Block) (own key x y : Bool)
    → times_freed b (
        free_if own packed_block
        ++ (free_if key key_block ++ (free_if x pub_x_block ++ free_if y pub_y_block)))
      ≡ once (same_block b packed_block && own)
        + (once (same_block b key_block && key)
            + (once (same_block b pub_x_block && x) + once (same_block b pub_y_block && y)))
frees_lem b own key x y =
    times_freed-append b (free_if own packed_block) _
    ∙ ap₂ ◌+◌ (times_freed-free_if b own packed_block) (
        times_freed-append b (free_if key key_block) _
        ∙ ap₂ ◌+◌ (times_freed-free_if b key key_block) (
            times_freed-append b (free_if x pub_x_block) _
            ∙ ap₂ ◌+◌ (times_freed-free_if b x pub_x_block) (times_freed-free_if b y pub_y_block)))

-- The packed key has a block of its own if it was put together.
packed_key_param_lem :
    (served : Bool) (key pub_x pub_y packed : Option Bytes)
    → pack_key served key pub_x pub_y ≡ some packed
    → is_some pub_x ≡ is_some pub_y
    → (is_own_block (packed_key_param key pub_x pub_y) ≡ is_allocated key pub_x pub_y packed_block)
      × (is_set (packed_key_param key pub_x pub_y) ≡ is_some packed)
unfolding pack_key packed_key_param is_own_block is_some is_set
packed_key_param_lem served none x y packed h both = (refl, cc h)
packed_key_param_lem served (some key) (some x) none packed h both = cc
packed_key_param_lem served (some key) none (some y) packed h both = cc
packed_key_param_lem served (some key) none none packed h both =
    by_tests (length key == 0) (leb min_key_param_size (length key)) h
  where
    by_tests :
        (empty long : Bool)
        → (if empty then some none else if long then some (some key) else none) ≡ some packed
        → (is_own_block (if empty then none else if long && true then some key_block else none)
            ≡ (not empty && false))
          × (is_set (if empty then none else if long && true then some key_block else none)
              ≡ is_some packed)
    by_tests true long q = (refl, cc q)
    by_tests false true q = (refl, cc q)
    by_tests false false q = cc q
packed_key_param_lem served (some key) (some x) (some y) packed h both =
    by_tests (length key == 0) (leb min_key_param_size (length key)) served h
  where
    pointer : (empty long : Bool) → Option Block
    pointer empty long =
        if empty then none else if long && false then some key_block else some packed_block

    by_tests :
        (empty long served : Bool)
        → (if empty
            then some none
            else if served
            then some (some (take 32 x ++ (take 32 y ++ key)))
            else none)
          ≡ some packed
        → (is_own_block (pointer empty long) ≡ (not empty && true))
          × (is_set (pointer empty long) ≡ is_some packed)
    by_tests true long served q = (refl, cc q)
    by_tests false true true q = (refl, cc q)
    by_tests false false true q = (refl, cc q)
    by_tests false long false q = cc q

-- Where the options come to a packed key or to none, and there are both coordinates or none, the end
-- of an attestation frees each block that was allocated for them exactly once, and no other; and the
-- pointer to the packed key is set exactly if there is one.
pub free_buffers-once :
    (served : Bool) (key pub_x pub_y packed : Option Bytes)
    → pack_key served key pub_x pub_y ≡ some packed
    → is_some pub_x ≡ is_some pub_y
    → ((b : Block)
        → times_freed b (free_buffers key pub_x pub_y) ≡ once (is_allocated key pub_x pub_y b))
      × (is_set (packed_key_param key pub_x pub_y) ≡ is_some packed)
unfolding free_buffers
free_buffers-once served key pub_x pub_y packed h both =
    let packs = packed_key_param_lem served key pub_x pub_y packed h both in
    (by_block packs.0, packs.1)
  where
    by_block :
        is_own_block (packed_key_param key pub_x pub_y) ≡ is_allocated key pub_x pub_y packed_block
        → (b : Block)
        → times_freed b (free_buffers key pub_x pub_y) ≡ once (is_allocated key pub_x pub_y b)
    by_block own key_block = frees_lem key_block _ _ _ _ ∙ omega arith
    by_block own pub_x_block = frees_lem pub_x_block _ _ _ _ ∙ omega arith
    by_block own pub_y_block = frees_lem pub_y_block _ _ _ _ ∙ omega arith
    by_block own packed_block = frees_lem packed_block _ _ _ _ ∙ omega (arith, ap once own)
