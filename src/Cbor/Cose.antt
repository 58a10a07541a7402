-- ===== src/Cbor/Cose.antt =====
-- What a COSE_Sign1 message of `generate_cose` holds, and what is signed.
use optee_ra_fork.Base.{
  ℕ, Bool-cases, Option, none, some, List, Bytes, negsuc, ◌≡◌, refl, ◌⊎◌, inl, inr, ◌≤◌, ◌<◌, leb,
  leb→le, not_leb→lt, length, codes, if◌then◌else◌,
}
use optee_ra_fork.Cbor.{
  Evidence, Call, protected_calls, tbs_calls, cose_calls, encode_evidence_to_cbor,
}
use optee_ra_fork.Cbor.Item.{
  Item, int, text, bytes, array, tagged, nil, cons, end, entry, snoc, snoc_entry, step, run,
  Describes,
}
use optee_ra_fork.Cbor.Token.{evidence_item, evidence_calls-Describes}

-- What QCBOR promises of a buffer of `size` bytes and calls that describe one item: the item's
-- encoding if it fits, and an error if not.
pub record Encodes (encode : ℕ → List Call → Option Bytes) (cbor : Item → Bytes) : Type 0 where
  pub fits :
      (size : ℕ) (calls : List Call) (item : Item)
      → Describes calls item
      → length (cbor item) ≤ size
      → encode size calls ≡ some (cbor item)
  pub full :
      (size : ℕ) (calls : List Call) (item : Item)
      → Describes calls item
      → size < length (cbor item)
      → encode size calls ≡ none

abbrev pub protected_item : Item
protected_item = Item.map (entry 1 (int (negsuc 6)) end)

-- Sig_structure of RFC 8152, section 4.4.
abbrev pub sig_structure : (protected aad payload : Bytes) → Item
sig_structure protected aad payload = array (
    cons (text (codes "Signature1"))
      (cons (bytes protected) (cons (bytes aad) (cons (bytes payload) nil))))

-- COSE_Sign1: tag 18 on the protected header, an empty unprotected header, payload and signature.
abbrev pub cose_sign1 : (protected payload signature : Bytes) → Item
cose_sign1 protected payload signature = tagged 18 (
    array (
      cons (bytes protected)
        (cons (Item.map end) (cons (bytes payload) (cons (bytes signature) nil)))))

pub protected_calls-Describes : Describes protected_calls protected_item
unfolding protected_calls run step snoc snoc_entry
protected_calls-Describes = refl

pub tbs_calls-Describes :
    (protected aad payload : Bytes)
    → Describes (tbs_calls protected aad payload) (sig_structure protected aad payload)
unfolding tbs_calls run step snoc snoc_entry
tbs_calls-Describes protected aad payload = refl

pub cose_calls-Describes :
    (protected payload signature : Bytes)
    → Describes (cose_calls protected payload signature) (cose_sign1 protected payload signature)
unfolding cose_calls run step snoc snoc_entry
cose_calls-Describes protected payload signature = refl

-- The encoding of an item in a buffer of `size` bytes.
abbrev pub bounded : (Item → Bytes) → ℕ → Item → Option Bytes
bounded cbor size item = if leb (length (cbor item)) size then some (cbor item) else none

module _ {encode : ℕ → List Call → Option Bytes} {cbor : Item → Bytes}
    (laws : Encodes encode cbor) where
  pub encode-bounded :
      (size : ℕ) (calls : List Call) (item : Item)
      → Describes calls item
      → encode size calls ≡ bounded cbor size item
  encode-bounded size calls item d = elim (Bool-cases (leb (length (cbor item)) size)) [
    | inl h ↦ rw h (laws.fits size calls item d (leb→le _ _ h))
    | inr h ↦ rw h (laws.full size calls item d (not_leb→lt _ _ h))
  ]

  pub encode-cases :
      (size : ℕ) (calls : List Call) (item : Item)
      → Describes calls item
      → ((encode size calls ≡ some (cbor item)) × (length (cbor item) ≤ size))
        ⊎ ((encode size calls ≡ none) × (size < length (cbor item)))
  encode-cases size calls item d = elim (Bool-cases (leb (length (cbor item)) size)) [
    | inl h ↦ inl (laws.fits size calls item d (leb→le _ _ h), leb→le _ _ h)
    | inr h ↦ inr (laws.full size calls item d (not_leb→lt _ _ h), not_leb→lt _ _ h)
  ]

  -- `encode_evidence_to_cbor` returns the encoding of the PSA token map if the buffer holds it, and
  -- NULL if not.
  pub encode_evidence_to_cbor-bounded :
      (e : Evidence) (size : ℕ)
      → encode_evidence_to_cbor encode e size ≡ bounded cbor size (evidence_item e)
  unfolding encode_evidence_to_cbor
  encode_evidence_to_cbor-bounded e size = encode-bounded size _ _ (evidence_calls-Describes e)
