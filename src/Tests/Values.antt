-- ===== src/Tests/Values.antt =====
-- Runs of the components that the token is made of.
use optee_ra_fork.Base.{
  ℕ, ◌^◌, ◌<◌, arith, ◌≡◌, true, some, [], ◌∷◌, ◌++◌, take, replicate, codes, All,
}
use optee_ra_fork.Base64
use optee_ra_fork.Base64.RoundTrip.{Decodes, encode-Decodes}
use optee_ra_fork.Perf.{hash_ta, embedded, max_events}
use optee_ra_fork.Perf.Bounds.{Call, record_all, events_of, record_all-take}
use optee_ra_fork.Tee.Rules.{Ensures}
use optee_ra_fork.Hash.{VmFlags, Region, Core, get_hash_ta_memory, get_hash_tee_memory}
use optee_ra_fork.Hash.Measure.{
  measured, core_image, Ensures-get_hash_ta_memory, Ensures-get_hash_tee_memory,
}
use optee_ra_fork.Sign.{sign_ecdsa_sha256, compute_instance_id, key_size}
use optee_ra_fork.Sign.Correct.{IsSignature, Ensures-compute_instance_id, Ensures-sign_ecdsa_sha256}
use optee_ra_fork.Ocotp.{read_srk_hash, get_lifecycle}
use optee_ra_fork.Ocotp.Lifecycle.{
  srk_words, srk_hash, lifecycle_table, Ensures-read_srk_hash, Ensures-get_lifecycle,
}
use optee_ra_fork.Tests.Samples.{quiet, quiet_answers, sample_sha256, sample_ecdsa}

-- Base64 of three bytes and of one, into a buffer of eight.
encode-Decodes_example :
    Decodes
      (1 ∷ 2 ∷ 3 ∷ 255 ∷ [])
      (replicate 10 7)
      (Base64.encode (1 ∷ 2 ∷ 3 ∷ 255 ∷ []) (replicate 10 7) 9)
encode-Decodes_example =
    encode-Decodes (1 ∷ 2 ∷ 3 ∷ 255 ∷ []) (replicate 10 7) 9
      (omega arith, (omega arith, (omega arith, (omega arith, tt)))) (omega arith) (omega arith)
      (omega arith)

abbrev one_call : Call
one_call = record { event = hash_ta; start_ticks = 10; end_ticks = 30; mode = embedded }

record_all-take_example :
    record_all (replicate 20 one_call) [] ≡ take max_events (events_of (replicate 20 one_call))
record_all-take_example = record_all-take (replicate 20 one_call) [] (omega arith)

-- SRK fuses that are blown and a closed device.
abbrev fuses : ℕ → ℕ → ℕ
fuses bank word = 2 ^ 25

fuses_small : All (λ w. w < 2 ^ 32) (srk_words fuses)
unfolding srk_words
fuses_small = (small, (small, (small, (small, (small, (small, (small, (small, tt))))))))
  where
    small : 2 ^ 25 < 2 ^ 32
    small = omega arith

Ensures-get_lifecycle_example :
    Ensures quiet ⊥ (λ got. got ≡ lifecycle_table fuses) (λ _. ⊥) (get_lifecycle fuses)
Ensures-get_lifecycle_example = Ensures-get_lifecycle quiet_answers fuses fuses_small

Ensures-read_srk_hash_example :
    Ensures quiet ⊥ (λ got. got ≡ srk_hash fuses) (λ _. ⊥) (read_srk_hash fuses)
Ensures-read_srk_hash_example = Ensures-read_srk_hash quiet_answers fuses

abbrev flags : VmFlags
flags = record { ephemeral = 1; permanent = 2; ldelf = 4; readonly = 8 }

abbrev text : Region
text = record { flags = 8; contents = codes "text" }

abbrev stack : Region
stack = record { flags = 9; contents = codes "stack" }

Ensures-get_hash_ta_memory_example :
    Ensures quiet ⊥
      (λ d. d ≡ sample_sha256 (measured flags (λ rs. rs) (stack ∷ text ∷ [])))
      (λ _. ⊥)
      (get_hash_ta_memory sample_sha256 flags (λ rs. rs) (some (some (stack ∷ text ∷ []))) 32)
Ensures-get_hash_ta_memory_example =
    Ensures-get_hash_ta_memory quiet_answers sample_sha256 flags (λ rs. rs) (stack ∷ text ∷ []) 32
      (omega arith)

abbrev paged_core : Core
paged_core = record {
  text = codes "core";
  text_after_data = codes "after";
  text_init = codes "init";
  text_pageable = codes "paged";
  rodata = codes "ro";
  rodata_init = [];
  rodata_pageable = codes "more";
  with_pager = true;
}

Ensures-get_hash_tee_memory_example :
    Ensures quiet ⊥
      (λ d. d ≡ sample_sha256 (core_image paged_core))
      (λ _. ⊥)
      (get_hash_tee_memory sample_sha256 paged_core 64)
Ensures-get_hash_tee_memory_example =
    Ensures-get_hash_tee_memory quiet_answers sample_sha256 paged_core 64 (omega arith)

Ensures-compute_instance_id_example :
    Ensures quiet ⊥
      (λ id.
        id
        ≡ 0x01
          ∷ sample_sha256
              (0x04 ∷ (take key_size (replicate 32 1) ++ take key_size (replicate 32 2))))
      (λ _. ⊥)
      (compute_instance_id sample_sha256 (replicate 32 1) (replicate 32 2))
Ensures-compute_instance_id_example =
    Ensures-compute_instance_id quiet_answers sample_sha256 (replicate 32 1) (replicate 32 2)

Ensures-sign_ecdsa_sha256_example :
    Ensures quiet ⊥
      (IsSignature sample_sha256 sample_ecdsa (codes "message") (some (replicate 32 9)) 32)
      (λ _. ⊥)
      (sign_ecdsa_sha256 sample_sha256 sample_ecdsa (codes "message") (some (replicate 32 9)) 32)
Ensures-sign_ecdsa_sha256_example =
    Ensures-sign_ecdsa_sha256 quiet_answers sample_sha256 sample_ecdsa (codes "message")
      (some (replicate 32 9)) 32 (λ n e q. cc q)
