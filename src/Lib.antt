-- ===== src/Lib.antt =====
-- Verification of the attester of OP-TEE remote attestation: the pseudo TA that measures and
-- signs, the trusted application in front of it, the host program that asks for evidence and
-- posts it to a verifier, and the driver of the eMMC that holds the secure storage.
--
-- A host program asks the trusted application (attester/remote_attestation/ta/) for evidence over
-- a nonce. The TA opens a session to the pseudo TA (attester/pta_remote_attestation/), which
-- measures the TA and the OP-TEE core, collects the PSA claims, encodes them with QCBOR, signs
-- them as a COSE_Sign1 and copies the message to the caller.
--
-- The files, and the source that each is about:
--   * Perf: attester/pta_remote_attestation/remote_attestation/perf.c and perf.h, the event
--     buffer (`record_event` is `ra_perf_record`, `flush` is `ra_perf_flush`);
--   * Base64: attester/pta_remote_attestation/remote_attestation/base64.c (`encode` is
--     `base64_encode`);
--   * Ocotp: attester/pta_remote_attestation/remote_attestation/ocotp.c, the fuses
--     (`read_srk_hash` and `get_lifecycle`);
--   * Crypto: the life of a hash context, which hash.c, sign.c and remote_attestation.c share;
--   * Hash: attester/pta_remote_attestation/remote_attestation/hash.c, with `cmp_regions` in
--     Hash/Compare;
--   * Sign: attester/pta_remote_attestation/remote_attestation/sign.c;
--   * Cbor: attester/pta_remote_attestation/remote_attestation/cbor.c, where an encoding is the
--     sequence of its QCBOR calls; Cbor/Item says which data item a sequence of calls describes;
--   * Params: the parameters of a TEE command, a union of a memref and a value;
--   * Pta: attester/pta_remote_attestation/remote_attestation/remote_attestation.c: the helpers
--     in Pta, `cmd_get_cbor_evidence` in Pta/Command, the two CAAM commands and `invoke_command`
--     in Pta/Caam;
--   * Ta: remote_attestation_ta.c of attester/remote_attestation/ta/ (`invoke_command_entry_point`
--     is `TA_InvokeCommandEntryPoint`), with its perf lines in Ta/Timing;
--   * Host: attester/remote_attestation/host/main.c: its hexadecimal text and the packed key in
--     Host, its command line in Host/Options, its requests to the TA in Host/Client
--     (`attest_loop` is the loop over attestations, `generate_blackkey` and `convert_to_black`
--     are the two modes for black keys), `main` in Host/Program, its perf lines, with
--     host/perf.h and those of client.c, in Host/Timing, and its heap blocks in Host/Buffers;
--   * Verifier: attester/remote_attestation/host/client.c, the session with the verifier;
--   * Usdhc: attester/optee-patches/imx_usdhc.c and imx_usdhc.h: the accesses in Usdhc/Io, the
--     pads and clocks in Usdhc/Power, the controller in Usdhc/Controller, `send_cmd` in
--     Usdhc/Command, and the card with the functions of the header in Usdhc/Card;
--   * System: the host, the TA and the PTA on top of one another, where the TEE core runs a handler
--     on the parameters of a call and hands back what it leaves (`Hands`);
--   * Tests: sample implementations of other code, and runs.
--
-- Tee holds what the code shares with OP-TEE. An action takes the environment and the state and
-- gives a result, an error or a fault. A fault stands for undefined behaviour: an access through
-- NULL or outside a buffer. The environment answers each call of other code by the number of
-- calls made before, so that a theorem about every environment is about every pattern of
-- failures. The state counts the resources held. `Ensures` of Tee/Rules is total: the action ends
-- in a result or an error and not in a fault, and holds what it held before, but for heap blocks
-- that are lost, which its second parameter can forbid (`⊥`) or allow.
--
-- The driver has a state of its own, the context `usdhc_ctx` and the trace of all accesses to
-- registers, caches, the DMA buffer and the timer. A board (`Board`) answers a read by the accesses
-- before it, so that a theorem about every board is about every behaviour of the controller and the
-- card. The polling loops have fuel, `polls` rounds and one more. `Expires`, that a timeout has
-- elapsed once `polls` accesses were made after its start, makes the fuel enough: each round asks
-- the timer. `phase` of Usdhc/Protocol is the machine of the rules that the driver has to keep, and
-- `commands` the log of the commands. `Triple` of Usdhc/Rules is total, as `Ensures` is.
--
-- A platform (`Platform`) is what is configured and what other code provides: CAAM or not, the
-- digest, the signature as a function of fresh randomness, key and digest, the QCBOR encoder, the
-- fuses, `qsort`, the session of the calling TA, and the memory of the core. `Encodes` states
-- what is used of QCBOR: the encoding of the item that the calls describe if it fits the buffer,
-- an error if not. Buffers are their bytes with the caller's size beside them. All other loops are
-- structural recursion over lists or counts, without fuel. Lengths are natural numbers; where a
-- length could wrap around in 64 bits the bound is a hypothesis.
--
-- Not modelled: QCBOR itself, a copy of a library; the Veraison client library; trace output
-- other than the perf lines, and in the driver the register reads that only feed it, `dump_regs`
-- among them; the entry points of the TA that do nothing; build files, scripts, the relying party
-- and the provisioning data. The perf timer and the clock of the host are any functions; what is
-- said of durations assumes that the clock does not run backwards.
pub mod Base
pub mod Perf
pub mod Tee
pub mod Base64
pub mod Ocotp
pub mod Crypto
pub mod Hash
pub mod Sign
pub mod Cbor
pub mod Params
pub mod Pta
pub mod Ta
pub mod Host
pub mod Verifier
pub mod System
pub mod Usdhc
mod Tests
