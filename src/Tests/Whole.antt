-- ===== src/Tests/Whole.antt =====
-- The host, the TA and the PTA on top of one another, on the QEMU platform of Tests/Tokens.
use optee_ra_fork.Base.{
  ℕ, ◌≡◌, refl, ◌⊎◌, ◌<◌, ◌≤◌, ◌%◌, length, map, pos, codes, true, false, none, some, [], ◌∷◌,
  Bytes, replicate, All, arith, leb→le,
}
use optee_ra_fork.Tee.{Result, ok, err, fault, bad_parameters}
use optee_ra_fork.Tee.Rules.{Ensures}
use optee_ra_fork.Tee.Answers.{any_answers}
use optee_ra_fork.Params.{
  ParamTypes, types, memref_input, memref_output, absent, Params, memref, size_of,
}
use optee_ra_fork.Pta.Expected.{contents, expected, keys_of, lifecycle_of, signer_of}
use optee_ra_fork.Pta.Buffers.{filled}
use optee_ra_fork.Pta.Caam.{no_error, Reply, invoke_command}
use optee_ra_fork.Ta.{call_pta_for_cbor_evidence, invoke_command_entry_point}
use optee_ra_fork.Ta.Answers.{is_request, packed_key}
use optee_ra_fork.Verifier.{
  psa_type_name, find_psa_media_type_index, find_from, open_session, Opening,
}
use optee_ra_fork.Host.Client.{Attempt, exit, World, attest_loop}
use optee_ra_fork.System.{Hands, Crypto, RunsPta, RunsTa}
use optee_ra_fork.System.Attested.{Ensures-IsAttestation}
use optee_ra_fork.System.Attestation.{IsReady, IsAttestation}
use optee_ra_fork.System.Attestation.{keys_for}
use optee_ra_fork.System.Succeeds.{IsCalm, Fits}
use optee_ra_fork.System.Complete.{attest_loop-completes}
use optee_ra_fork.System.Run.{IsHonest, main-IsHonest}
use optee_ra_fork.Host.{same_text}
use optee_ra_fork.Host.Program.{Machine, main}
use optee_ra_fork.Host.Attest.{IsComplete, nonce_of, nonces}
use optee_ra_fork.Cbor.Token.{evidence_item, component_items, component_item}
use optee_ra_fork.Cbor.Signed.{to_be_signed, cose_bytes}
use optee_ra_fork.Pta.Expected.{core_version, first_word}
use optee_ra_fork.Tests.Samples.{sample_sha256, sample_ecdsa, quiet, idle, cbor, laws}
use optee_ra_fork.Tests.Tokens.{caller-cases, header_size, qemu, regions, no_fuses}

abbrev crypto : Crypto
crypto = record {
  caam = λ n. no_error;
  blob = λ seed plain. plain;
  generate = λ seed. record { d = seed ∷ []; x = []; y = [] };
}

abbrev ta_uuid : Bytes
ta_uuid = replicate 16 1

ready : IsReady qemu cbor regions
ready = record { encodes = laws; digests = λ m. refl; words = no_fuses; running = refl }

-- What the caller gets: the parameters stay as they are on an error.
abbrev handed : Params → Result Reply → Reply
handed params (ok reply) = reply
handed params (err e) = record { params = params; status = some e }
handed params fault = record { params = params; status = none }

handed-Hands : (params : Params) (r : Result Reply) → Hands (handed params r) r
unfolding Hands
handed-Hands params (ok reply) = refl
handed-Hands params (err e) = refl
handed-Hands params fault = tt

abbrev pta : ℕ → ℕ → ParamTypes → Params → Reply
pta n cmd param_types params =
    handed params
      (invoke_command crypto.caam crypto.blob qemu crypto.generate cmd param_types params quiet
        idle).0

quiet-IsCalm : IsCalm quiet
quiet-IsCalm = (λ n. refl, λ n. refl)

pta-RunsPta : RunsPta IsCalm qemu crypto pta
pta-RunsPta = record {
  reach = λ n cmd param_types params. (quiet, idle, quiet-IsCalm, handed-Hands params _);
}

-- Each session takes PSA tokens, with its round as the nonce.
abbrev world : World
world = record {
  urandom = λ iter. none;
  opening =
      λ iter. Opening.opened (record { accept_type_list = psa_type_name ∷ []; nonce = iter ∷ [] });
  challenge_response = λ s m e. true;
  invoke = λ iter param_types params.
      handed params (invoke_command_entry_point pta ta_uuid 0 param_types params quiet idle).0;
}

world-RunsTa : RunsTa IsCalm qemu crypto ta_uuid world.invoke
world-RunsTa = record {
  reach = λ n param_types params.
      (pta, pta-RunsPta, (quiet, idle, quiet-IsCalm, handed-Hands params _));
}

abbrev request : Params
request = record {
  p0 = memref (some (replicate 8 7)) 8;
  p1 = memref (some (replicate 600 0)) 600;
  p2 = memref (some (replicate 97 3)) 97;
  p3 = memref none 0;
}

abbrev request_types : ParamTypes
request_types = types memref_input memref_output memref_input absent

Ensures-IsAttestation_example :
    Ensures quiet ⊥
      (λ out.
        (cose : Bytes) × IsAttestation qemu cbor regions ta_uuid
          (contents request.p0)
          (packed_key request_types request.p2)
          cose
        × (out ≡ filled request.p1 cose))
      (λ e. Unit ⊎ ((is_request request_types request ≡ false) × (e ≡ bad_parameters)))
      (call_pta_for_cbor_evidence pta ta_uuid request_types request)
unfolding size_of
Ensures-IsAttestation_example =
    Ensures-IsAttestation crypto ready pta ta_uuid pta-RunsPta (omega arith) quiet (λ _. Unit)
      request_types request (any_answers quiet) (λ n e q. tt) (leb→le 512 600 refl) (omega arith)
      (leb→le 600 600 refl) (omega arith)

nonce-Fits : (i : ℕ) → Fits qemu cbor regions ta_uuid (i ∷ []) (keys_for none)
unfolding contents lifecycle_of component_items component_item signer_of core_version first_word
    expected keys_of evidence_item cbor
nonce-Fits i = record {
  header = header_size;
  claims =
      caller-cases
        (λ id.
          length (cbor (evidence_item (expected qemu regions id (i ∷ []) (keys_for none)))) ≤ 512)
        (leb→le _ 512 refl) (leb→le _ 512 refl);
  structure =
      caller-cases
        (λ id.
          length (
            to_be_signed cbor sample_sha256 sample_ecdsa
              (cbor (evidence_item (expected qemu regions id (i ∷ []) (keys_for none)))))
          ≤ 512)
        (leb→le _ 512 refl) (leb→le _ 512 refl);
  message = λ id seed.
      caller-cases
        (λ id.
          length (
            cose_bytes cbor sample_sha256 sample_ecdsa
              (cbor (evidence_item (expected qemu regions id (i ∷ []) (keys_for none))))
              (replicate 64 (seed % 256)))
          ≤ 512)
        (leb→le _ 512 refl) (leb→le _ 512 refl) id;
}

served :
    (i : ℕ)
    → (nonce : Bytes) × (nonce_of world false i ≡ some nonce)
      × (0 < length nonce)
      × Fits qemu cbor regions ta_uuid nonce (keys_for none)
unfolding open_session find_psa_media_type_index find_from same_text
served i = (i ∷ [], refl, omega arith, nonce-Fits i)

attest_loop-completes_example :
    ((attest_loop world false none 3 0).0 ≡ exit 0)
    × (map (λ (a : Attempt). some a.nonce) (attest_loop world false none 3 0).1
        ≡ nonces world false none 3 0)
    × All (IsComplete false) (attest_loop world false none 3 0).1
attest_loop-completes_example =
    attest_loop-completes crypto ready ta_uuid (leb→le 16 16 refl) world world-RunsTa none tt false
      3 0 served

abbrev machine : Machine
machine = record {
  ra_perf = none;
  strtol = λ text. pos 2;
  hex_served = true;
  packed_served = true;
  blob_served = true;
  full_served = true;
  context_ok = true;
  session_ok = true;
  invoke = λ n param_types params. record { params = params; status = none };
  world = world;
}

main-IsHonest_example :
    IsHonest qemu cbor regions ta_uuid machine
      (codes "--loop" ∷ codes "2" ∷ [])
      (main machine (codes "--loop" ∷ codes "2" ∷ []))
main-IsHonest_example =
    main-IsHonest crypto ready ta_uuid (leb→le 16 16 refl) machine world-RunsTa
      (codes "--loop" ∷ codes "2" ∷ [])
