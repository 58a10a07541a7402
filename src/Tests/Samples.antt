-- ===== src/Tests/Samples.antt =====
-- Stand-ins for what the model takes from other code: a world where nothing fails, a digest and a
-- signature of the right sizes, and a CBOR encoder.
use optee_ra_fork.Base.{
  ℕ, suc, ◌+◌, ◌*◌, ◌/◌, ◌%◌, ◌^◌, ◌≤◌, ◌<◌, ◌≡◌, refl, ap, ◌∙◌, true, Option, none, some, List, [],
  ◌∷◌, ◌++◌, Bytes, length, replicate, ltb, leb, le→leb, lt→leb, if◌then◌else◌, pos, negsuc,
}
use optee_ra_fork.Tee.{Env, St}
use optee_ra_fork.Tee.Answers.{Answers}
use optee_ra_fork.Cbor.{Call}
use optee_ra_fork.Cbor.Item.{
  Item, int, text, bytes, array, map, tagged, Items, nil, cons, Entries, end, entry, Context, run,
  empty,
}
use optee_ra_fork.Cbor.Cose.{Encodes}

abbrev pub quiet : Env
quiet = record {
  status = λ n. none;
  malloc_ok = λ n. true;
  counter = λ n. n * 10;
  frequency = 8000000;
  entropy = λ n. n;
  system_time = λ n. (n, 0);
}

abbrev pub idle : St
idle = record {
  calls = 0;
  held = record {
    hash_ctxs = 0;
    blocks = 0;
    keypairs = 0;
    caam_keys = 0;
    popped_sessions = 0;
    user_accesses = 0;
    ta_sessions = 0;
  };
  events = [];
  console = [];
  invoke_us = 0;
}

pub quiet_answers : Answers quiet (λ _. ⊥)
quiet_answers = record { status_errors = λ n e q. cc q; malloc_errors = λ n q. cc q }

abbrev pub sample_sha256 : Bytes → Bytes
sample_sha256 m = replicate 32 (length m % 256)

abbrev pub sample_ecdsa : ℕ → Bytes → Bytes → Bytes
sample_ecdsa seed d digest = replicate 64 (seed % 256)

-- The head of an item: its major type and argument, as short as RFC 8949 allows up to 32 bits.
unfoldable pub head : ℕ → ℕ → Bytes
head major n =
    if ltb n 24
    then (major * 32 + n) ∷ []
    else if ltb n (2 ^ 8)
    then (major * 32 + 24) ∷ n ∷ []
    else if ltb n (2 ^ 16)
    then (major * 32 + 25) ∷ n / 2 ^ 8 ∷ n % 2 ^ 8 ∷ []
    else (major * 32 + 26)
      ∷ n / 2 ^ 24 % 2 ^ 8
      ∷ n / 2 ^ 16 % 2 ^ 8
      ∷ n / 2 ^ 8 % 2 ^ 8
      ∷ n % 2 ^ 8
      ∷ []

unfoldable pub count : Items → ℕ
count nil = 0
count (cons i is) = suc (count is)

unfoldable pub count_entries : Entries → ℕ
count_entries end = 0
count_entries (entry k i es) = suc (count_entries es)

unfoldable mutual
  unfolding head count count_entries

  pub cbor : Item → Bytes
  cbor (int (pos n)) = head 0 n
  cbor (int (negsuc n)) = head 1 n
  cbor (bytes b) = head 2 (length b) ++ b
  cbor (text t) = head 3 (length t) ++ t
  cbor (array is) = head 4 (count is) ++ cbor_items is
  cbor (map es) = head 5 (count_entries es) ++ cbor_entries es
  cbor (tagged t i) = head 6 t ++ cbor i

  pub cbor_items : Items → Bytes
  cbor_items nil = []
  cbor_items (cons i is) = cbor i ++ cbor_items is

  pub cbor_entries : Entries → Bytes
  cbor_entries end = []
  cbor_entries (entry k i es) = head 0 k ++ (cbor i ++ cbor_entries es)

sized : ℕ → Bytes → Option Bytes
sized size b = if leb (length b) size then some b else none

sized_fits : (size : ℕ) (b : Bytes) → length b ≤ size → sized size b ≡ some b
unfolding sized
sized_fits size b h = rw (le→leb _ _ h) refl

sized_full : (size : ℕ) (b : Bytes) → size < length b → sized size b ≡ none
unfolding sized
sized_full size b h = rw (lt→leb _ _ h) refl

only_item : Items → Option Item
only_item (cons i nil) = some i
only_item other = none

finished : ℕ → Option Context → Option Bytes
unfolding sized only_item
finished size none = none
finished size (some c) = elim (only_item c.root) [ none ↦ none | some i ↦ sized size (cbor i) ]

-- QCBOR on a buffer of a size.
unfoldable pub encode : ℕ → List Call → Option Bytes
unfolding finished
encode size calls = finished size (run calls empty)

pub laws : Encodes encode cbor
unfolding encode finished only_item
laws = record {
  fits = λ size calls item d h. ap (finished size) d ∙ sized_fits size (cbor item) h;
  full = λ size calls item d h. ap (finished size) d ∙ sized_full size (cbor item) h;
}
