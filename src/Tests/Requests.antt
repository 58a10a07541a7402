-- ===== src/Tests/Requests.antt =====
-- Runs of the host's loop over attestations and of its key generation, with a TEE that returns a fixed
-- answer.
use optee_ra_fork.Base.{
  ℕ, ◌≡◌, refl, true, false, not, ◌||◌, ◌&&◌, ◌==◌, Option, none, some, [], ◌∷◌, map, Bytes, length,
  replicate, All, ◌++◌, arith,
}
use optee_ra_fork.Tee.{ok}
use optee_ra_fork.Params.{ParamTypes, memref, Params, size_of, is_null, buffer_of, accepts_evidence}
use optee_ra_fork.Pta.{parse_keys}
use optee_ra_fork.Pta.Caam.{Reply}
use optee_ra_fork.Ta.{accepts_request, forward_types, has_packed_key, is_some}
use optee_ra_fork.Verifier.{
  psa_type_name, find_psa_media_type_index, find_from, type_at, Opening, open_session,
  post_evidence,
}
use optee_ra_fork.Host.{parse_hex, hex_text, pack_key, same_text}
use optee_ra_fork.Host.Client.{
  bytes_up_to, request_types, request_params, usable_key, Attempt, exit, World, deliver, receive,
  request_evidence, attest_once, after_round, attest_loop, keys, is_probe_answer, show_keys,
  fetched, fetch_keys, generate_blackkey,
}
use optee_ra_fork.Host.Attest.{
  IsFresh, HaveAnswers, IsComplete, nonces, attest_loop-IsFresh, attest_loop-exit,
}
use optee_ra_fork.Host.FullKey.{full_key-parse_keys, request_params-accepted}
use optee_ra_fork.Tests.Samples.{quiet, idle}

-- The TA returns three bytes.
abbrev answer : Params → Reply
answer p = record { params = record p { p1 = memref (some (1 ∷ 2 ∷ 3 ∷ [])) 3 }; status = none }

-- Every session takes PSA tokens, with its round as the nonce.
abbrev world : World
world = record {
  urandom = λ iter. none;
  opening =
      λ iter. Opening.opened (record { accept_type_list = psa_type_name ∷ []; nonce = iter ∷ [] });
  challenge_response = λ s m e. true;
  invoke = λ iter t p. answer p;
}

three_rounds : (attest_loop world false none 3 0).0 ≡ exit 0
unfolding attest_loop after_round attest_once request_evidence receive deliver bytes_up_to size_of
    open_session post_evidence find_psa_media_type_index find_from type_at same_text
three_rounds = refl

attest_loop-IsFresh_example : All (IsFresh world none) (attest_loop world false none 3 0).1
attest_loop-IsFresh_example = attest_loop-IsFresh world false none 3 0

attest_loop-exit_example :
    (map (λ (a : Attempt). some a.nonce) (attest_loop world false none 3 0).1
      ≡ nonces world false none 3 0)
    × All (IsComplete false) (attest_loop world false none 3 0).1
    × HaveAnswers world none 0 (attest_loop world false none 3 0).1
attest_loop-exit_example = attest_loop-exit world false none 3 0 three_rounds

-- A key of one byte; the first call reports its size.
abbrev keygen : ℕ → ParamTypes → Params → Reply
keygen i t p = record {
  params = record {
    p0 = memref (some (7 ∷ [])) 1;
    p1 = memref (some (replicate 32 1)) 32;
    p2 = memref (some (replicate 32 2)) 32;
    p3 = p.p3;
  };
  status = none;
}

abbrev full : Bytes
full = replicate 32 1 ++ (replicate 32 2 ++ 7 ∷ [])

generated :
    generate_blackkey keygen true true ≡ keys (7 ∷ []) (replicate 32 1) (replicate 32 2) (some full)
unfolding generate_blackkey fetch_keys fetched show_keys is_probe_answer bytes_up_to size_of
generated = refl

full_key-parse_keys_example :
    (pack_key true (parse_hex true (hex_text full)) none none ≡ some (some full))
    × (parse_keys true (memref (some full) (length full)) quiet idle ≡ (
      ok (record {
        pub_x = replicate 32 1;
        pub_y = replicate 32 2;
        black_key = some (7 ∷ []);
        black_len = 1;
      }),
      idle,
    ))
full_key-parse_keys_example =
    full_key-parse_keys keygen true true (7 ∷ []) (replicate 32 1) (replicate 32 2) full quiet idle
      (omega arith) (omega arith) generated

abbrev one_key : Option Bytes
one_key = some (replicate 65 3)

request_params-accepted_example :
    (accepts_request (request_types (usable_key one_key)) ≡ true)
    × ((is_null (buffer_of (request_params (5 ∷ []) (usable_key one_key)).p0)
          || size_of (request_params (5 ∷ []) (usable_key one_key)).p0 == 0)
        ≡ false)
    × ((is_null (buffer_of (request_params (5 ∷ []) (usable_key one_key)).p1)
          || size_of (request_params (5 ∷ []) (usable_key one_key)).p1 == 0)
        ≡ false)
    × ((has_packed_key (request_types (usable_key one_key))
          && not (
              is_null (buffer_of (request_params (5 ∷ []) (usable_key one_key)).p2)
              || size_of (request_params (5 ∷ []) (usable_key one_key)).p2 == 0))
        ≡ is_some (usable_key one_key))
    × (accepts_evidence (forward_types (is_some (usable_key one_key))) ≡ true)
request_params-accepted_example = request_params-accepted (5 ∷ []) one_key (omega arith)
