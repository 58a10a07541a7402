-- ===== src/Host/Client.antt =====
-- The requests that attester/remote_attestation/host/main.c sends to the TA: the loop over
-- attestations, and the two modes for black keys. `invoke` is TEEC_InvokeCommand, by the number of
-- calls made before: the operation afterwards, and the status.
use optee_ra_fork.Base.{
  ℕ, zero, suc, ◌+◌, Bool, true, false, not, Option, none, some, List, [], ◌∷◌, ◌++◌, leb, ◌==◌,
  ◌||◌, if◌then◌else◌, Bytes, length, take, replicate,
}
use optee_ra_fork.Tee.{Error, short_buffer}
use optee_ra_fork.Params.{
  ParamTypes, types, memref_input, memref_output, absent, Param, memref, value, Params, size_of,
}
use optee_ra_fork.Pta.Caam.{Reply}
use optee_ra_fork.Verifier.{Session, Opening, open_session, post_evidence}
use optee_ra_fork.Host.{parse_hex}

-- The bytes of a temporary memory reference, up to a size; `none` is a read past its end.
unfoldable pub bytes_up_to : Param → ℕ → Option Bytes
bytes_up_to (memref (some buffer) size) n =
    if leb n (length buffer) then some (take n buffer) else none
bytes_up_to (memref none size) n = if n == 0 then some [] else none
bytes_up_to (value a b stale) n = none

abbrev pub none_param : Param
none_param = memref none 0

-- `cbor_evidence`
abbrev pub evidence_room : ℕ
evidence_room = 1024

-- `packed_key_param && packed_key_param_len > 0`
unfoldable pub usable_key : Option Bytes → Option Bytes
usable_key none = none
usable_key (some key) = if length key == 0 then none else some key

-- `op.paramTypes` and `op.params` of a request for evidence.
unfoldable pub request_types : Option Bytes → ParamTypes
request_types (some key) = types memref_input memref_output memref_input absent
request_types none = types memref_input memref_output absent absent

unfoldable pub request_params : (nonce : Bytes) (key : Option Bytes) → Params
request_params nonce key = record {
  p0 = memref (some nonce) (length nonce);
  p1 = memref (some (replicate evidence_room 0)) evidence_room;
  p2 = elim key [ none ↦ none_param | some k ↦ memref (some k) (length k) ];
  p3 = none_param;
}

-- A request for evidence and what became of it: the evidence that the TA returned and the program
-- printed, and what was posted, to which session and as which media type.
pub record Attempt : Type 0 where
  pub nonce : Bytes
  pub key : Option Bytes
  pub evidence : Option Bytes
  pub sent : Option (Session × Bytes × Bytes)

-- How the program ends: with its exit status, which is 1 for `errx`, or with an access outside of a
-- buffer.
pub data Exit : Type 0 where
  exit : ℕ → Exit
  overrun : Exit

-- What other code answers in each round of the loop: 32 bytes of /dev/urandom, a session of the
-- Veraison client library and its verdict, and the TEE.
pub record World : Type 0 where
  pub urandom : ℕ → Option Bytes
  pub opening : ℕ → Opening
  pub challenge_response : Session → Bytes → Bytes → Bool
  pub invoke : ℕ → ParamTypes → Params → Reply

-- A round: the loop goes on, or the program ends.
pub data Round : Type 0 where
  on : Attempt → Round
  stopped : Exit → List Attempt → Round

-- The evidence goes to the session, if there is one.
unfoldable pub deliver : World → Option Session → Attempt → Bytes → Round
deliver w none a evidence = on (record a { evidence = some evidence })
deliver w (some session) a evidence = elim (post_evidence w.challenge_response session evidence) [
  | none ↦ stopped overrun (record a { evidence = some evidence } ∷ [])
  | some r ↦ on (record a { evidence = some evidence; sent = some (session, r.value.0, evidence) })
]

-- Behind the invocation, by its status and the bytes that it left.
unfoldable pub receive : World → Option Session → Attempt → Option Error → Option Bytes → Round
receive w session a (some e) left = stopped (exit 1) (a ∷ [])
receive w session a none none = stopped overrun (a ∷ [])
receive w session a none (some evidence) = deliver w session a evidence

-- A round behind the choice of a nonce.
unfoldable pub request_evidence : World → ℕ → Option Bytes → Option Session → Bytes → Round
request_evidence w iter key session nonce =
    let reply = w.invoke iter (request_types key) (request_params nonce key) in
    receive w session (record { nonce = nonce; key = key; evidence = none; sent = none })
      reply.status (bytes_up_to reply.params.p1 (size_of reply.params.p1))

unfoldable pub attest_once : World → Bool → Option Bytes → ℕ → Round
attest_once w true key iter = elim (w.urandom iter) [
  | none ↦ stopped (exit 1) []
  | some nonce ↦ request_evidence w iter key none nonce
]
attest_once w false key iter = elim ((open_session (w.opening iter)).value) [
  | none ↦ stopped (exit 1) []
  | some session ↦ request_evidence w iter key (some session) session.nonce
]

unfoldable pub after_round : Round → Exit × List Attempt → Exit × List Attempt
after_round (on a) rest = (rest.0, a ∷ rest.1)
after_round (stopped e attempts) rest = (e, attempts)

-- The loop, with the rounds left and the number of the next one.
unfoldable pub attest_loop : World → Bool → Option Bytes → ℕ → ℕ → Exit × List Attempt
attest_loop w no_server key zero iter = (exit 0, [])
attest_loop w no_server key (suc n) iter =
    after_round (attest_once w no_server key iter) (attest_loop w no_server key n (iter + 1))

-- What --generate-blackkey prints: the key blob, the public key, and the full key, for which `malloc`
-- can fail without an error.
pub data Generated : Type 0 where
  failed : Exit → Generated
  keys : (blob pub_x pub_y : Bytes) (full : Option Bytes) → Generated

abbrev pub keypair_types : ParamTypes
keypair_types = types memref_output memref_output memref_output absent

-- A NULL buffer of size 0 asks for the size of the blob.
abbrev pub probe_params : Params
probe_params = record {
  p0 = none_param;
  p1 = memref (some (replicate 32 0)) 32;
  p2 = memref (some (replicate 32 0)) 32;
  p3 = none_param;
}

unfoldable pub is_probe_answer : Option Error → Bool
is_probe_answer none = true
is_probe_answer (some short_buffer) = true
is_probe_answer (some e) = false

-- The parts of the key that are printed and joined.
unfoldable pub show_keys : Bool → Option Bytes → Option Bytes → Option Bytes → Generated
show_keys served (some blob) (some x) (some y) =
    keys blob x y (if served then some (x ++ (y ++ blob)) else none)
show_keys served blob x y = failed overrun

unfoldable pub fetched : Bool → Option Error → (blob x y : Option Bytes) → Generated
fetched served (some e) blob x y = failed (exit 1)
fetched served none blob x y = show_keys served blob x y

-- The second invocation, into a block of the size that the first one asked for. The coordinates are
-- read whole, whatever size the TA reports for them.
unfoldable pub fetch_keys : (ℕ → ParamTypes → Params → Reply) → Bool → Params → Generated
fetch_keys invoke served probed =
    let len = size_of probed.p0 in
    let reply =
      invoke 1 keypair_types (record probed { p0 = memref (some (replicate len 0)) len }) in
    fetched served reply.status (bytes_up_to reply.params.p0 (size_of reply.params.p0))
      (bytes_up_to reply.params.p1 32) (bytes_up_to reply.params.p2 32)

unfoldable pub generate_blackkey :
    (ℕ → ParamTypes → Params → Reply) → (blob_served full_served : Bool) → Generated
generate_blackkey invoke blob_served full_served =
    let reply = invoke 0 keypair_types probe_params in
    if not (is_probe_answer reply.status) || (size_of reply.params.p0 == 0 || not blob_served)
    then failed (exit 1)
    else fetch_keys invoke full_served reply.params

-- What --convert-key prints: the black key of a plain one.
pub data Converted : Type 0 where
  failed : Exit → Converted
  black : Bytes → Converted

unfoldable pub convert_to_black : (ℕ → ParamTypes → Params → Reply) → Bool → Bytes → Converted
convert_to_black invoke served text = elim (parse_hex served text) [
  | none ↦ Converted.failed (exit 1)
  | some plain ↦
      if not (length plain == 32)
      then Converted.failed (exit 1)
      else (let reply = invoke 0 (types memref_input memref_output absent absent) (record {
        p0 = memref (some plain) (length plain);
        p1 = memref (some (replicate 512 0)) 512;
        p2 = none_param;
        p3 = none_param;
      }) in
          elim (reply.status) [
            | some e ↦ Converted.failed (exit 1)
            | none ↦ elim (bytes_up_to reply.params.p1 (size_of reply.params.p1)) [
              | none ↦ Converted.failed overrun
              | some key ↦ black key
            ]
          ])
]
