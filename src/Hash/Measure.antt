-- ===== src/Hash/Measure.antt =====
-- The messages that the two measurements of hash.c hash.
use optee_ra_fork.Base.{
  ℕ, ◌≡◌, ◌≢◌, refl, sym, ap, ap₂, ◌∙◌, bit_and, bit_or, ◌&&◌, if◌then◌else◌, Bool, true, false,
  some, List, [], ◌∷◌, ◌++◌, append_assoc, append-nil, ◌==◌, ◌≤◌, le→leb, length, Bytes, ==→eq,
  arith,
}
use optee_ra_fork.Base.Bits.{and_or-zero}
use optee_ra_fork.Tee.{Env, Error, short_buffer}
use optee_ra_fork.Tee.Rules.{
  Ensures, Ensures-pure, Ensures-bind, Ensures-then, Ensures-holding, Ensures-require, Ensures-mono,
  Ensures-if,
}
use optee_ra_fork.Tee.Answers.{Answers, Ensures-with_block}
use optee_ra_fork.Tee.Resources.{user_access, popped_session}
use optee_ra_fork.Crypto.{hash_size}
use optee_ra_fork.Hash.{
  is_region_valid, VmFlags, Region, VmInfo, Core, count_valid, collect_valid, update_regions,
  update_paged, hash_regions, get_hash_ta_memory, get_hash_tee_memory,
}
use optee_ra_fork.Crypto.Rules.{
  Ensures-hash_init, Ensures-hash_update, Ensures-hash_final, Ensures-with_hash_ctx,
}

unfoldable pub concat_contents : List Region → Bytes
concat_contents [] = []
concat_contents (r ∷ rs) = r.contents ++ concat_contents rs

count-collect :
    (vm : VmFlags) (info : VmInfo) → count_valid vm info ≡ length (collect_valid vm info)
unfolding count_valid collect_valid
count-collect vm [] = refl
count-collect vm (r ∷ rs) = ground (arith, count-collect vm rs)

paged_part : Bool → Bytes → Bytes → Bytes
paged_part false init pageable = []
paged_part true init pageable = init ++ pageable

-- The immutable memory of the core as one byte string.
unfoldable pub core_image : Core → Bytes
unfolding paged_part
core_image core =
    core.text
    ++ (core.text_after_data
        ++ (paged_part core.with_pager core.text_init core.text_pageable
            ++ (core.rodata ++ paged_part core.with_pager core.rodata_init core.rodata_pageable)))

-- The array after `qsort`; with no valid region there is none.
unfoldable pub arrange : (List Region → List Region) → List Region → List Region
arrange qsort [] = []
arrange qsort (r ∷ rs) = qsort (r ∷ rs)

-- A region that is read-only and neither ephemeral nor permanent nor of ldelf.
unfoldable pub is_measured : VmFlags → Region → Bool
is_measured vm r =
    (bit_and r.flags vm.readonly == vm.readonly)
    && ((bit_and r.flags vm.ephemeral == 0)
        && ((bit_and r.flags vm.permanent == 0) && (bit_and r.flags vm.ldelf == 0)))

unfoldable pub measured_regions : VmFlags → VmInfo → List Region
measured_regions vm [] = []
measured_regions vm (r ∷ rs) =
    if is_measured vm r then r ∷ measured_regions vm rs else measured_regions vm rs

-- The message that is hashed for a TA: such regions, in the order of `qsort`.
unfoldable pub measured : VmFlags → (List Region → List Region) → VmInfo → Bytes
measured vm qsort info = concat_contents (arrange qsort (measured_regions vm info))

and_assoc : (a b c : Bool) → ((a && b) && c) ≡ (a && (b && c))
and_assoc true b c = refl
and_assoc false b c = refl

is_region_valid-is_measured : (vm : VmFlags) (r : Region) → is_region_valid vm r ≡ is_measured vm r
unfolding is_region_valid is_measured
is_region_valid-is_measured vm r =
    ap (λ t. (bit_and r.flags vm.readonly == vm.readonly) && t)
      (and_or-zero r.flags (bit_or vm.ephemeral vm.permanent) vm.ldelf
        ∙ ap (λ t. t && (bit_and r.flags vm.ldelf == 0))
            (and_or-zero r.flags vm.ephemeral vm.permanent)
        ∙ and_assoc (bit_and r.flags vm.ephemeral == 0) (bit_and r.flags vm.permanent == 0)
            (bit_and r.flags vm.ldelf == 0))

collect_valid-measured_regions :
    (vm : VmFlags) (info : VmInfo) → collect_valid vm info ≡ measured_regions vm info
unfolding collect_valid measured_regions
collect_valid-measured_regions vm [] = refl
collect_valid-measured_regions vm (r ∷ rs) =
    ap₂ (λ t rest. if t then r ∷ rest else rest) (is_region_valid-is_measured vm r)
      (collect_valid-measured_regions vm rs)

pub measured_lem :
    (vm : VmFlags) (qsort : List Region → List Region) (info : VmInfo)
    → concat_contents (arrange qsort (collect_valid vm info)) ≡ measured vm qsort info
unfolding measured
measured_lem vm qsort info =
    ap (λ rs. concat_contents (arrange qsort rs)) (collect_valid-measured_regions vm info)

no_regions : (vm : VmFlags) (info : VmInfo) → count_valid vm info ≡ 0 → collect_valid vm info ≡ []
no_regions vm info e = nil_of_length _ (sym (count-collect vm info) ∙ e)
  where
    nil_of_length : (rs : List Region) → length rs ≡ 0 → rs ≡ []
    nil_of_length [] h = refl
    nil_of_length (r ∷ rs) h = absurd (omega arith)

arrange-cons :
    (vm : VmFlags) (qsort : List Region → List Region) (info : VmInfo)
    → (count_valid vm info == 0) ≡ false
    → arrange qsort (collect_valid vm info) ≡ qsort (collect_valid vm info)
arrange-cons vm qsort info h =
    go (collect_valid vm info) (λ e. ground (arith, count-collect vm info, ap length e))
  where
    go : (rs : List Region) → rs ≢ [] → arrange qsort rs ≡ qsort rs
    go [] ne = absurd (ne refl)
    go (r ∷ rs) ne = unfold arrange in refl

module _ {env : Env} {L : Type 0} {E : Error → Type 0} (answers : Answers env E) where
  Ensures-update_regions :
      (message : Bytes) (rs : List Region)
      → Ensures env L (λ m. m ≡ message ++ concat_contents rs) E (update_regions message rs)
  unfolding update_regions concat_contents
  Ensures-update_regions message [] = Ensures-pure _ (sym (append-nil message))
  Ensures-update_regions message (r ∷ rs) =
      Ensures-bind (Ensures-hash_update answers message r.contents) λ m e.
        Ensures-mono (Ensures-update_regions m rs) λ got p.
          p
          ∙ ap (λ t. t ++ concat_contents rs) e
          ∙ append_assoc message r.contents (concat_contents rs)

  module _ (sha256 : Bytes → Bytes) (vm : VmFlags) (qsort : List Region → List Region) where
    Ensures-hash_valid :
        (info : VmInfo)
        → Ensures env L
            (λ d. d ≡ sha256 (concat_contents (arrange qsort (collect_valid vm info))))
            E
            (hash_regions sha256 vm qsort info)
    unfolding hash_regions concat_contents arrange
    Ensures-hash_valid info = Ensures-with_hash_ctx answers (
        Ensures-bind (Ensures-hash_init answers) λ m e.
          Ensures-if (count_valid vm info == 0)
            (λ empty.
              Ensures-mono (Ensures-hash_final answers sha256 m)
                λ d p. rw (p, e, no_regions vm info (==→eq _ 0 empty)))
            (λ some_valid. Ensures-with_block answers (
              Ensures-bind (Ensures-holding user_access (Ensures-update_regions m _)) λ m' e'.
                Ensures-mono (Ensures-hash_final answers sha256 m')
                  λ d p. rw (p, e', e, arrange-cons vm qsort info some_valid))))

    -- `get_hash_ta_memory`'s core: on success the digest of the valid regions in sorted order.
    pub Ensures-hash_regions :
        (info : VmInfo)
        → Ensures env L
            (λ d. d ≡ sha256 (measured vm qsort info))
            E
            (hash_regions sha256 vm qsort info)
    Ensures-hash_regions info =
        Ensures-mono (Ensures-hash_valid info) λ d p. p ∙ ap sha256 (measured_lem vm qsort info)

    -- With room for a digest, `get_hash_ta_memory` called from a user TA passes on an error of the
    -- crypto library, or returns the digest of the TA's regions that are read-only and neither
    -- ephemeral nor permanent nor of ldelf, in the order in which `qsort` arranges them. On every
    -- path the context and the array are freed, user access is closed and the session is back on
    -- the stack.
    pub Ensures-get_hash_ta_memory :
        (info : VmInfo) (out_sz : ℕ)
        → hash_size ≤ out_sz
        → Ensures env L
            (λ d. d ≡ sha256 (measured vm qsort info))
            E
            (get_hash_ta_memory sha256 vm qsort (some (some info)) out_sz)
    unfolding get_hash_ta_memory
    Ensures-get_hash_ta_memory info out_sz room =
        Ensures-then (Ensures-require short_buffer _ (λ e. cc (le→leb 32 out_sz room)))
          (Ensures-holding popped_session (Ensures-hash_regions info))

  Ensures-update_paged :
      (paged : Bool) (message init pageable : Bytes)
      → Ensures env L
          (λ m. m ≡ message ++ paged_part paged init pageable)
          E
          (update_paged paged message init pageable)
  unfolding update_paged paged_part
  Ensures-update_paged false message init pageable = Ensures-pure _ (sym (append-nil message))
  Ensures-update_paged true message init pageable =
      Ensures-bind (Ensures-hash_update answers message init) λ m e.
        Ensures-mono (Ensures-hash_update answers m pageable)
          λ got p. p ∙ ap (λ t. t ++ pageable) e ∙ append_assoc message init pageable

  -- With room for a digest, `get_hash_tee_memory` passes on an error of the crypto library or
  -- returns the digest of the core's text and read-only data in the order of the source, the
  -- pager's sections included exactly if the pager is configured; the context is freed either way.
  pub Ensures-get_hash_tee_memory :
      (sha256 : Bytes → Bytes) (core : Core) (out_sz : ℕ)
      → hash_size ≤ out_sz
      → Ensures env L (λ d. d ≡ sha256 (core_image core)) E (get_hash_tee_memory sha256 core out_sz)
  unfolding get_hash_tee_memory core_image
  Ensures-get_hash_tee_memory sha256 core out_sz room =
      Ensures-then (Ensures-require short_buffer _ (λ e. cc (le→leb 32 out_sz room))) (
        Ensures-with_hash_ctx answers (
          Ensures-bind (Ensures-hash_init answers) λ m0 e0.
            Ensures-bind (Ensures-hash_update answers m0 core.text) λ m1 e1.
              Ensures-bind (Ensures-hash_update answers m1 core.text_after_data) λ m2 e2.
                Ensures-bind (Ensures-update_paged core.with_pager m2 _ _) λ m3 e3.
                  Ensures-bind (Ensures-hash_update answers m3 core.rodata) λ m4 e4.
                    Ensures-bind (Ensures-update_paged core.with_pager m4 _ _) λ m5 e5.
                      Ensures-mono (Ensures-hash_final answers sha256 m5)
                        λ d p. rw (p, e5, e4, e3, e2, e1, e0) (simp append_assoc)))
