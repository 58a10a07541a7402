-- ===== src/Cbor/Labels.antt =====
-- The claim keys and COSE constants of pta_remote_attestation/remote_attestation/cbor.h, and the tag of
-- COSE_Sign1.
use optee_ra_fork.Base.{ℕ, ◌+◌, ℤ, negsuc, Bytes, codes}

abbrev pub psa_nonce : ℕ
psa_nonce = 10

abbrev pub psa_instance_id : ℕ
psa_instance_id = 256

abbrev pub psa_profile_definition : ℕ
psa_profile_definition = 265

abbrev pub psa_arm_range_base : ℕ
psa_arm_range_base = 2393

abbrev pub psa_client_id : ℕ
psa_client_id = psa_arm_range_base + 1

abbrev pub psa_security_lifecycle : ℕ
psa_security_lifecycle = psa_arm_range_base + 2

abbrev pub psa_implementation_id : ℕ
psa_implementation_id = psa_arm_range_base + 3

abbrev pub psa_sw_components : ℕ
psa_sw_components = psa_arm_range_base + 6

abbrev pub sw_measurement_type : ℕ
sw_measurement_type = 1

abbrev pub sw_measurement_value : ℕ
sw_measurement_value = 2

abbrev pub sw_version : ℕ
sw_version = 4

abbrev pub sw_signer_id : ℕ
sw_signer_id = 5

abbrev pub cose_header_param_alg : ℕ
cose_header_param_alg = 1

abbrev pub tag_cose_sign1 : ℕ
tag_cose_sign1 = 18

-- -7
abbrev pub cose_algorithm_es256 : ℤ
cose_algorithm_es256 = negsuc 6

abbrev pub signature1 : Bytes
signature1 = codes "Signature1"
