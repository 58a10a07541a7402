-- ===== src/Hash.antt =====
-- The measurements of pta_remote_attestation/remote_attestation/hash.c. The VM flags, the linker's
-- section symbols and `qsort` are not in this repository: the flags are numbers of a record, the
-- sections are the bytes between the symbols, and `qsort` is a function on lists.
pub mod Compare
pub mod Order
pub mod Measure
pub mod Independent
use optee_ra_fork.Base.{
  ℕ, zero, suc, ◌+◌, bit_and, bit_or, Bool, true, false, ◌&&◌, Option, none, some, List, [], ◌∷◌,
  ◌++◌, ◌==◌, leb, ltb, if◌then◌else◌, length, Bytes,
}
use optee_ra_fork.Tee.{
  Act, Error, access_denied, short_buffer, pure, throw, require, ◌>>=◌, ◌>>◌, holding, with_block,
}
use optee_ra_fork.Tee.Resources.{user_access, popped_session}
use optee_ra_fork.Crypto.{hash_size, hash_init, hash_update, hash_final, with_hash_ctx}

-- The values of VM_FLAG_EPHEMERAL, VM_FLAG_PERMANENT, VM_FLAG_LDELF and VM_FLAG_READONLY.
pub record VmFlags : Type 0 where
  pub ephemeral : ℕ
  pub permanent : ℕ
  pub ldelf : ℕ
  pub readonly : ℕ

-- A `struct vm_region`: its flags and the `size` bytes at `va`.
pub record Region : Type 0 where
  pub flags : ℕ
  pub contents : Bytes

unfoldable pub is_region_valid : VmFlags → Region → Bool
is_region_valid vm r =
    let dontwant = bit_or (bit_or vm.ephemeral vm.permanent) vm.ldelf in
    let want = vm.readonly in bit_and r.flags want == want && bit_and r.flags dontwant == 0

-- The first walk over the regions, which counts.
unfoldable pub count_valid : VmFlags → List Region → ℕ
count_valid vm [] = 0
count_valid vm (r ∷ rs) =
    if is_region_valid vm r then suc (count_valid vm rs) else count_valid vm rs

-- The second walk, which fills the array.
unfoldable pub collect_valid : VmFlags → List Region → List Region
collect_valid vm [] = []
collect_valid vm (r ∷ rs) =
    if is_region_valid vm r then r ∷ collect_valid vm rs else collect_valid vm rs

-- The loop over the sorted array.
unfoldable pub update_regions : Bytes → List Region → Act Bytes
update_regions message [] = pure message
update_regions message (r ∷ rs) = do
  message' ← hash_update message r.contents
  update_regions message' rs

-- What a TA session is measured for: the regions of its user mode context.
abbrev pub VmInfo : Type 0
VmInfo = List Region

-- The immutable memory of the core, by the linker symbols at its ends.
pub record Core : Type 0 where
  pub text : Bytes
  pub text_after_data : Bytes
  pub text_init : Bytes
  pub text_pageable : Bytes
  pub rodata : Bytes
  pub rodata_init : Bytes
  pub rodata_pageable : Bytes
  pub with_pager : Bool

-- The updates behind `if (IS_ENABLED(CFG_WITH_PAGER))`.
unfoldable pub update_paged : Bool → Bytes → (init pageable : Bytes) → Act Bytes
update_paged false message init pageable = pure message
update_paged true message init pageable = do
  message' ← hash_update message init
  hash_update message' pageable

module _ (sha256 : Bytes → Bytes) where
  module _ (vm : VmFlags) (qsort : List Region → List Region) where
    unfoldable pub hash_regions : VmInfo → Act Bytes
    hash_regions info = with_hash_ctx do
      message ← hash_init
      if count_valid vm info == 0
          then hash_final sha256 message
          else with_block do
            message' ← holding user_access (update_regions message (qsort (collect_valid vm info)))
            hash_final sha256 message'

    -- The calling session: `none` if there is none, `some none` if it is no user TA.
    unfoldable pub get_hash_ta_memory : Option (Option VmInfo) → ℕ → Act Bytes
    get_hash_ta_memory none out_sz = throw access_denied
    get_hash_ta_memory (some none) out_sz = throw access_denied
    get_hash_ta_memory (some (some info)) out_sz = do
      require (leb hash_size out_sz) short_buffer
      holding popped_session (hash_regions info)

  unfoldable pub get_hash_tee_memory : Core → ℕ → Act Bytes
  get_hash_tee_memory core out_sz = do
    require (leb hash_size out_sz) short_buffer
    with_hash_ctx do
      m0 ← hash_init
      m1 ← hash_update m0 core.text
      m2 ← hash_update m1 core.text_after_data
      m3 ← update_paged core.with_pager m2 core.text_init core.text_pageable
      m4 ← hash_update m3 core.rodata
      m5 ← update_paged core.with_pager m4 core.rodata_init core.rodata_pageable
      hash_final sha256 m5
