-- ===== src/Tests/Sessions.antt =====
-- Runs of a session with the verifier.
use optee_ra_fork.Base.{◌≡◌, refl, true, none, some, [], ◌∷◌, codes}
use optee_ra_fork.Verifier.{
  psa_type_name, Session, find_psa_media_type_index, find_from, dispose, opened, failed,
  open_session, post_evidence,
}
use optee_ra_fork.Host.{same_text}
use optee_ra_fork.Verifier.Freed.{open_session-post_evidence}

-- A verifier that takes another format and PSA tokens.
abbrev session : Session
session = record {
  accept_type_list = codes "application/eat" ∷ psa_type_name ∷ [];
  nonce = 1 ∷ 2 ∷ 3 ∷ [];
}

opened_value : (open_session (opened session)).value ≡ some session
unfolding open_session find_psa_media_type_index find_from same_text
opened_value = refl

open_session-post_evidence_example :
    ((open_session (opened session)).frees ≡ 0)
    × (post_evidence (λ s e t. true) session (codes "evidence")
        ≡ some (record { value = (psa_type_name, true); frees = 1 }))
open_session-post_evidence_example =
    open_session-post_evidence (λ s e t. true) (opened session) session (codes "evidence")
      opened_value

failed_value : (open_session (failed (some session))).value ≡ none
unfolding open_session dispose
failed_value = refl
