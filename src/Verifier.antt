-- ===== src/Verifier.antt =====
-- The session with the verifier, remote_attestation/host/client.c. The Veraison client library opens the
-- session and answers it; a session that it hands out is given back by
-- `free_challenge_response_session`.
pub mod Freed
use optee_ra_fork.Base.{
  ℕ, zero, suc, ◌+◌, Bool, true, false, Option, none, some, List, [], ◌∷◌, if◌then◌else◌, Bytes,
  codes,
}
use optee_ra_fork.Host.{same_text}

abbrev pub psa_type_name : Bytes
psa_type_name = codes "application/psa-attestation-token"

-- What the code reads of a ChallengeResponseSession.
pub record Session : Type 0 where
  pub accept_type_list : List Bytes
  pub nonce : Bytes

-- The loop from index `i` on; `none` is -1.
unfoldable pub find_from : ℕ → List Bytes → Option ℕ
find_from i [] = none
find_from i (name ∷ names) =
    let rest = find_from (i + 1) names in if same_text name psa_type_name then some i else rest

unfoldable pub find_psa_media_type_index : Session → Option ℕ
find_psa_media_type_index session = find_from 0 session.accept_type_list

-- `accept_type_list[i]`, or `none` out of range.
unfoldable pub type_at : ℕ → List Bytes → Option Bytes
type_at i [] = none
type_at zero (name ∷ names) = some name
type_at (suc i) (name ∷ names) = type_at i names

-- What a function returns, and how often it has freed the session.
pub record Returned (A : Type 0) : Type 0 where
  pub value : A
  pub frees : ℕ

-- Behind the label cleanup of `open_session`: NULL, with the session freed if there is one.
unfoldable pub dispose : Option Session → Returned (Option Session)
dispose none = record { value = none; frees = 0 }
dispose (some session) = record { value = none; frees = 1 }

-- What `open_challenge_response_session` leaves behind: another status than Ok, perhaps with a session
-- that holds a message, or Ok and a session.
pub data Opening : Type 0 where
  failed : Option Session → Opening
  opened : Session → Opening

unfoldable pub open_session : Opening → Returned (Option Session)
open_session (failed session) = dispose session
open_session (opened session) = elim (find_psa_media_type_index session) [
  | none ↦ dispose (some session)
  | some i ↦ record { value = some session; frees = 0 }
]

-- The media type and the evidence that are supplied, with the status of `challenge_response`; the
-- outer `none` is an access outside of `accept_type_list`.
unfoldable pub post_evidence :
    (Session → Bytes → Bytes → Bool) → Session → Bytes → Option (Returned (Bytes × Bool))
post_evidence challenge_response session evidence = elim (find_psa_media_type_index session) [
  | none ↦ none
  | some i ↦ elim (type_at i session.accept_type_list) [
    | none ↦ none
    | some name ↦
        some (record { value = (name, challenge_response session evidence name); frees = 1 })
  ]
]
