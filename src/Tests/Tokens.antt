-- ===== src/Tests/Tokens.antt =====
-- A QEMU platform whose only TA has two code regions, and a request with a nonce and no key.
use optee_ra_fork.Base.{IsByte, zero, suc}
use optee_ra_fork.Base.{
  ℕ, ap, ◌≤◌, ◌<◌, ◌^◌, arith, ◌≡◌, refl, sym, subst, inl, inr, true, false, none, some, [], ◌∷◌,
  Bytes, length, replicate, codes, leb→le, All,
}
use optee_ra_fork.Tee.{Result, St, ok, fault, bad_parameters}
use optee_ra_fork.Tee.Rules.{Ensures}
use optee_ra_fork.Hash.{VmFlags, VmInfo}
use optee_ra_fork.Ocotp.Lifecycle.{srk_words}
use optee_ra_fork.Cbor.Signed.{
  IsCose, NoCose, protected_bytes, to_be_signed, cose_bytes, Ensures-generate_cose,
}
use optee_ra_fork.Cbor.{Evidence, evidence_calls, generate_cose}
use optee_ra_fork.Cbor.Item.{Describes}
use optee_ra_fork.Cbor.Token.{
  evidence_item, component_items, component_item, evidence_calls-Describes,
}
use optee_ra_fork.Tee.Rules.{Maybe}
use optee_ra_fork.Params.{
  ParamTypes, types, memref_input, memref_output, absent, Param, memref, Params, buffer_of, size_of,
  is_null, accepts_evidence, has_key, value_input,
}
use optee_ra_fork.Pta.{Platform}
use optee_ra_fork.Pta.Command.{get_cbor_evidence}
use optee_ra_fork.Pta.Expected.{
  IsClientId, low_31_bits, core_version, first_word, contents, keys_of, expected, lifecycle_of,
  signer_of,
}
use optee_ra_fork.Pta.Buffers.{filled}
use optee_ra_fork.Pta.Evidence.{Ensures-get_cbor_evidence}
use optee_ra_fork.Pta.Tokens.{IsToken, Reason, payload, is_accepted}
use optee_ra_fork.Pta.Evidence.Certain.{
  token_bytes, get_cbor_evidence-refuses, get_cbor_evidence-succeeds,
}
use optee_ra_fork.Pta.Evidence.Overrun.{get_cbor_evidence-overruns}
use optee_ra_fork.Tests.Samples.{
  quiet, idle, quiet_answers, sample_sha256, sample_ecdsa, encode, cbor, laws,
}

abbrev flags : VmFlags
flags = record { ephemeral = 1; permanent = 2; ldelf = 4; readonly = 8 }

abbrev pub regions : VmInfo
regions =
    record { flags = 8; contents = codes "text" }
    ∷ record { flags = 9; contents = codes "stack" }
    ∷ record { flags = 8; contents = codes "rodata" }
    ∷ []

abbrev pub qemu : Platform
qemu = record {
  caam = false;
  sha256 = sample_sha256;
  ecdsa = sample_ecdsa;
  encode = encode;
  fuse = λ bank word. 0;
  vm = flags;
  qsort = λ rs. rs;
  session = some (some regions);
  core = record {
    with_pager = false;
    text = codes "core";
    text_after_data = [];
    text_init = [];
    text_pageable = [];
    rodata = codes "ro";
    rodata_init = [];
    rodata_pageable = [];
  };
  core_v_str = codes "4.8.0 #1";
}

-- A nonce of 8 bytes, an output buffer of 512 bytes and a UUID of 16 bytes.
abbrev request : Params
request = record {
  p0 = memref (some (replicate 8 7)) 8;
  p1 = memref (some (replicate 512 0)) 512;
  p2 = memref (some (replicate 16 1)) 16;
  p3 = memref none 0;
}

abbrev request_types : ParamTypes
request_types = types memref_input memref_output memref_input absent

abbrev wrong_types : ParamTypes
wrong_types = types value_input memref_output memref_input absent

pub no_fuses : All (λ w. w < 2 ^ 32) (srk_words (λ bank word. 0))
unfolding srk_words
no_fuses = (small, (small, (small, (small, (small, (small, (small, (small, tt))))))))
  where
    small : 0 < 2 ^ 32
    small = omega arith

request-is_accepted : is_accepted request_types request ≡ true
unfolding is_accepted accepts_evidence has_key buffer_of size_of is_null
request-is_accepted = refl

wrong_types-refused : is_accepted wrong_types request ≡ false
unfolding is_accepted accepts_evidence
wrong_types-refused = refl

abbrev request_payload : ℕ → Bytes
request_payload = payload qemu cbor regions request_types request

abbrev pub IsCaller : ℕ → Type 0
IsCaller = IsClientId (λ _. ⊥) sample_sha256 request.p2

All-replicate : (n x : ℕ) → x ≤ 255 → All IsByte (replicate n x)
All-replicate zero x h = tt
All-replicate (suc n) x h = (omega (arith, h), All-replicate n x h)

sample_bytes : All IsByte (sample_sha256 (contents request.p2))
sample_bytes = All-replicate 32 _ (omega arith)

-- The two ids that the caller can have.
pub caller-cases : (P : ℕ → Type 0) → P 1 → P 0x10101010 → (id : ℕ) → IsCaller id → P id
unfolding contents low_31_bits
caller-cases P one hashed id (inl (e, why)) = subst P (sym e) one
caller-cases P one hashed id (inr e) = subst P (sym (e sample_bytes)) hashed

claims_size : (id : ℕ) → IsCaller id → length (request_payload id) ≤ 512
unfolding contents lifecycle_of component_items component_item signer_of core_version first_word
    expected keys_of evidence_item cbor
claims_size =
    caller-cases (λ id. length (request_payload id) ≤ 512) (leb→le _ 512 refl) (leb→le _ 512 refl)

pub header_size : length (protected_bytes cbor sample_sha256 sample_ecdsa) ≤ 256
unfolding cbor
header_size = leb→le _ 256 refl

to_be_signed_size :
    (id : ℕ)
    → IsCaller id
    → length (to_be_signed cbor sample_sha256 sample_ecdsa (request_payload id)) ≤ 512
unfolding contents lifecycle_of component_items component_item signer_of core_version first_word
    expected keys_of evidence_item cbor
to_be_signed_size =
    caller-cases
      (λ id. length (to_be_signed cbor sample_sha256 sample_ecdsa (request_payload id)) ≤ 512)
      (leb→le _ 512 refl) (leb→le _ 512 refl)

message_size :
    (id seed : ℕ)
    → IsCaller id
    → length (token_bytes qemu cbor regions request_types request id seed) ≤ 512
unfolding contents lifecycle_of component_items component_item signer_of core_version first_word
    expected keys_of evidence_item cbor
message_size id seed =
    caller-cases (λ i. length (token_bytes qemu cbor regions request_types request i seed) ≤ 512)
      (leb→le _ 512 refl) (leb→le _ 512 refl) id

get_cbor_evidence-succeeds_example :
    (out : Param) × (st' : St) × (get_cbor_evidence qemu request_types request quiet idle
      ≡ (ok out, st'))
    × IsToken qemu cbor regions request_types request (λ _. ⊥) out
    × (st'.held ≡ idle.held)
get_cbor_evidence-succeeds_example =
    get_cbor_evidence-succeeds qemu cbor regions request_types request quiet idle laws (λ n. refl)
      (λ n. refl) (λ m. refl) no_fuses refl request-is_accepted (omega arith) (omega arith)
      (omega arith) refl claims_size header_size to_be_signed_size message_size

-- The request with another output buffer.
abbrev answered_in : Bytes → Params
answered_in buffer = record request { p1 = memref (some buffer) 512 }

abbrev written : Param
written = get_cbor_evidence-succeeds_example.0

cose_bytes-positive :
    (body signature : Bytes)
    → 0 < length (cose_bytes cbor sample_sha256 sample_ecdsa body signature)
unfolding cbor
cose_bytes-positive body signature = omega arith

written-positive :
    (out : Param) → IsToken qemu cbor regions request_types request (λ _. ⊥) out → 0 < size_of out
unfolding size_of filled
written-positive out (a, (id, is, (cose, (signature, signed, e, fits), h))) =
    subst (λ o. 0 < size_of o) (sym h)
      (subst (λ c. 0 < length c) (sym e) (cose_bytes-positive _ signature))

get_cbor_evidence-overruns_example :
    (get_cbor_evidence qemu request_types (answered_in []) quiet idle).0 ≡ fault
get_cbor_evidence-overruns_example =
    get_cbor_evidence-overruns qemu request_types request (replicate 512 0) [] 512 quiet idle
      written (ap (λ (r : Result Param × St). r.0) get_cbor_evidence-succeeds_example.2)
      (written-positive written get_cbor_evidence-succeeds_example.3)

Ensures-get_cbor_evidence_example :
    Ensures quiet ⊥
      (IsToken qemu cbor regions request_types request (λ _. ⊥))
      (Reason qemu cbor regions request_types request (λ _. ⊥))
      (get_cbor_evidence qemu request_types request)
Ensures-get_cbor_evidence_example =
    Ensures-get_cbor_evidence laws quiet_answers (λ n e q. cc q) (λ m. refl) no_fuses refl
      (omega arith) (omega arith) (omega arith) refl

get_cbor_evidence-refuses_example :
    Ensures quiet ⊥ (λ _. ⊥) (λ e. e ≡ bad_parameters) (get_cbor_evidence qemu wrong_types request)
get_cbor_evidence-refuses_example =
    get_cbor_evidence-refuses qemu wrong_types request quiet wrong_types-refused (omega arith) refl

Ensures-generate_cose_example :
    Ensures quiet ⊥
      (Maybe
        (IsCose cbor sample_sha256 sample_ecdsa (codes "evidence") 512 none 0)
        (NoCose cbor sample_sha256 sample_ecdsa (λ _. ⊥) (codes "evidence") 512 none 0))
      (λ _. ⊥)
      (generate_cose encode sample_sha256 sample_ecdsa (codes "evidence") 512 none 0)
Ensures-generate_cose_example =
    Ensures-generate_cose cbor sample_sha256 sample_ecdsa laws quiet_answers (λ n e q. cc q)
      (codes "evidence") 512 none 0

-- The claims of `request`, with two components of which one has no version.
abbrev request_evidence : Evidence
request_evidence = expected qemu regions 1 (codes "nonce") (keys_of false (memref none 0))

evidence_calls-Describes_example :
    Describes (evidence_calls request_evidence) (evidence_item request_evidence)
evidence_calls-Describes_example = evidence_calls-Describes request_evidence
