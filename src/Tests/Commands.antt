-- ===== src/Tests/Commands.antt =====
-- Runs of the TA's request and of the two CAAM commands.
use mathlib.Core.List.{Pairwise, Perm, not-mem-nil}
use mathlib.Core.List.Perm
use optee_ra_fork.Base.{
  ℕ, arith, ◌≡◌, refl, ◌⊎◌, true, false, none, some, [], ◌∷◌, Bytes, replicate, codes,
}
use optee_ra_fork.Tee.{St, Result, pure, ◌>>=◌, call, holding, with_block, ok, bad_parameters}
use optee_ra_fork.Tee.Rules.{Ensures}
use optee_ra_fork.Hash.{
  VmFlags, Region, VmInfo, collect_valid, hash_regions, is_region_valid, count_valid,
  update_regions,
}
use optee_ra_fork.Crypto.{with_hash_ctx, hash_init, hash_update, hash_final}
use optee_ra_fork.Hash.Independent.{Sorts, contents_of, hash_regions_unique}
use optee_ra_fork.Params.{
  buffer_of, size_of, is_null, ParamTypes, types, memref_input, memref_output, absent, memref,
  Params,
}
use optee_ra_fork.Pta.Expected.{contents}
use optee_ra_fork.Pta.Caam.{
  CaamStatus, no_error, KeyPair, Reply, is_keypair_types, generate_keypair,
}
use optee_ra_fork.Pta.Caam.Replies.{keypair_reply, Ensures-generate_keypair}
use optee_ra_fork.Ta.{
  has_packed_key, is_some, forward_types, forward_params, call_pta_for_cbor_evidence,
  invoke_command_entry_point,
}
use optee_ra_fork.Ta.Dispatch.{Served, Unserved, Ensures-invoke_command_entry_point}
use optee_ra_fork.Ta.Release.{Ensures-call_pta_for_cbor_evidence}
use optee_ra_fork.Ta.Answers.{IsForwarded, Failure, KeepsOutput}
use optee_ra_fork.Tests.Samples.{quiet, idle, quiet_answers, sample_sha256}

-- A PTA that leaves its parameters as they are.
abbrev echo : ℕ → ℕ → ParamTypes → Params → Reply
echo n cmd param_types params = record { params = params; status = none }

-- A request with a nonce, room for 64 bytes, and a packed key of 97 bytes.
abbrev request : Params
request = record {
  p0 = memref (some (replicate 32 5)) 32;
  p1 = memref (some (replicate 64 0)) 64;
  p2 = memref (some (replicate 97 3)) 97;
  p3 = memref none 0;
}

abbrev request_types : ParamTypes
request_types = types memref_input memref_output memref_input absent

echo_keeps : KeepsOutput echo (replicate 16 1) request_types request
unfolding has_packed_key buffer_of size_of is_null contents is_some forward_types forward_params
echo_keeps n h = (replicate 64 0, 64, refl, refl)

Ensures-call_pta_for_cbor_evidence_example :
    Ensures quiet ⊥
      (IsForwarded echo (replicate 16 1) request_types request)
      (Failure echo (replicate 16 1) (λ _. ⊥) request_types request)
      (call_pta_for_cbor_evidence echo (replicate 16 1) request_types request)
Ensures-call_pta_for_cbor_evidence_example =
    Ensures-call_pta_for_cbor_evidence echo (replicate 16 1) quiet (λ _. ⊥) request_types request
      quiet_answers (λ n e q. cc q) echo_keeps (omega arith) (omega arith) (omega arith)

Ensures-invoke_command_entry_point_example :
    Ensures quiet ⊥
      (Served echo (replicate 16 1) 0 request_types request)
      (Unserved echo (replicate 16 1) 0 request_types request (λ _. ⊥))
      (invoke_command_entry_point echo (replicate 16 1) 0 request_types request)
Ensures-invoke_command_entry_point_example =
    Ensures-invoke_command_entry_point echo (replicate 16 1) quiet (λ _. ⊥) 0 request_types request
      quiet_answers (λ z. ((λ n e q. cc q), echo_keeps, omega arith, omega arith, omega arith))

-- A key pair whose y coordinate begins with a zero byte.
abbrev sample_pair : ℕ → KeyPair
sample_pair seed = record { d = replicate 32 1; x = replicate 32 2; y = replicate 31 3 }

abbrev outputs : Params
outputs = record {
  p0 = memref (some (replicate 32 0)) 32;
  p1 = memref (some (replicate 32 0)) 32;
  p2 = memref (some (replicate 32 0)) 32;
  p3 = memref none 0;
}

abbrev keypair_types : ParamTypes
keypair_types = types memref_output memref_output memref_output absent

Ensures-generate_keypair_example :
    Ensures quiet ⊥
      (λ r.
        (is_keypair_types keypair_types ≡ true)
        × ((seed : ℕ) × (r ≡ keypair_reply (sample_pair seed) outputs)))
      (λ e. ⊥ ⊎ ((is_keypair_types keypair_types ≡ false) × (e ≡ bad_parameters)))
      (generate_keypair sample_pair keypair_types outputs)
Ensures-generate_keypair_example =
    Ensures-generate_keypair quiet_answers sample_pair keypair_types outputs (λ seed. omega arith)
      (λ seed. omega arith) (omega arith) (omega arith) (omega arith)

-- A driver that never fails, and a black key of 80 bytes.
abbrev driver : ℕ → CaamStatus
driver n = no_error

abbrev sample_blob : ℕ → Bytes → Bytes
sample_blob seed plain = replicate 80 seed

abbrev convert_types : ParamTypes
convert_types = types memref_input memref_output absent absent

abbrev plain_key : Params
plain_key = record {
  p0 = memref (some (replicate 32 9)) 32;
  p1 = memref (some (replicate 100 0)) 100;
  p2 = memref none 0;
  p3 = memref none 0;
}

abbrev flags : VmFlags
flags = record { ephemeral = 1; permanent = 2; ldelf = 4; readonly = 8 }

abbrev text : Region
text = record { flags = 8; contents = codes "text" }

abbrev stack : Region
stack = record { flags = 9; contents = codes "stack" }

-- The only region that counts is `text`, at whichever place.
one_sorted : Sorts (λ rs. rs) (collect_valid flags (stack ∷ text ∷ []))
unfolding collect_valid is_region_valid
one_sorted = record {
  perm = Perm.refl _;
  ordered = Pairwise.cons (λ r m. absurd (not-mem-nil m)) Pairwise.nil;
}

one_sorted_first : Sorts (λ rs. rs) (collect_valid flags (text ∷ stack ∷ []))
unfolding collect_valid is_region_valid
one_sorted_first = one_sorted

same_contents :
    Perm
      (contents_of (collect_valid flags (stack ∷ text ∷ [])))
      (contents_of (collect_valid flags (text ∷ stack ∷ [])))
unfolding collect_valid is_region_valid
same_contents = Perm.refl _

abbrev run : VmInfo → Result Bytes × St
run info = hash_regions sample_sha256 flags (λ rs. rs) info quiet idle

run_stack_first :
    run (stack ∷ text ∷ []) ≡ (ok (sample_sha256 (codes "text")), (run (stack ∷ text ∷ [])).1)
unfolding hash_regions with_hash_ctx ◌>>=◌ call holding hash_init pure count_valid is_region_valid
    with_block update_regions collect_valid hash_update hash_final
run_stack_first = refl

run_text_first :
    run (text ∷ stack ∷ []) ≡ (ok (sample_sha256 (codes "text")), (run (text ∷ stack ∷ [])).1)
unfolding hash_regions with_hash_ctx ◌>>=◌ call holding hash_init pure count_valid is_region_valid
    with_block update_regions collect_valid hash_update hash_final
run_text_first = refl

hash_regions_unique_example : sample_sha256 (codes "text") ≡ sample_sha256 (codes "text")
hash_regions_unique_example =
    hash_regions_unique sample_sha256 flags (λ rs. rs) (stack ∷ text ∷ []) (text ∷ stack ∷ [])
      one_sorted one_sorted_first same_contents quiet quiet idle idle (run (stack ∷ text ∷ [])).1
      (run (text ∷ stack ∷ [])).1 (sample_sha256 (codes "text")) (sample_sha256 (codes "text"))
      run_stack_first run_text_first
