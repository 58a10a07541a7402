-- ===== src/Verifier/Freed.antt =====
-- About the life of a session in attester/remote_attestation/host/client.c.
use optee_ra_fork.Base.{
  ℕ, suc, ◌+◌, ◌-◌, ◌≤◌, arith, ◌≡◌, refl, ap, ap₂, subst, inl, inr, Bool, true, Bool-cases, ◌==◌,
  ==→eq, Option, none, some, List, [], ◌∷◌, Bytes,
}
use optee_ra_fork.Host.{same_text}
use optee_ra_fork.Verifier.{
  psa_type_name, Session, find_from, find_psa_media_type_index, type_at, dispose, Opening, failed,
  opened, open_session, post_evidence,
}

same_text_sound : (a b : Bytes) → same_text a b ≡ true → a ≡ b
unfolding same_text
same_text_sound [] [] h = refl
same_text_sound [] (d ∷ ds) h = cc h
same_text_sound (c ∷ cs) [] h = cc h
same_text_sound (c ∷ cs) (d ∷ ds) h = elim (Bool-cases (c == d)) [
  | inl e ↦ ap₂ ◌∷◌ (==→eq c d e) (same_text_sound cs ds (rw e at h))
  | inr e ↦ cc (rw e at h)
]

-- The index that is found is in range, and names the PSA media type.
find_from-type_at :
    (i j : ℕ) (names : List Bytes)
    → find_from i names ≡ some j
    → (i ≤ j) × (type_at (j - i) names ≡ some psa_type_name)
unfolding find_from type_at
find_from-type_at i j [] h = cc h
find_from-type_at i j (name ∷ names) h = elim (Bool-cases (same_text name psa_type_name)) [
  | inl e ↦
      let here : i ≡ j = some_eq i j (rw e at h) in
      let none_left : j - i ≡ 0 = omega (arith, here) in
      (omega (arith, here), rw none_left (ap some (same_text_sound name psa_type_name e)))
  | inr e ↦
      let (later, is) = find_from-type_at (i + 1) j names (rw e at h) in
      let step : j - i ≡ suc (j - (i + 1)) = omega (arith, later) in
      (omega (arith, later), rw step is)
]
  where
    some_eq : (a b : ℕ) → some a ≡ some b → a ≡ b
    some_eq a b e = cc

type_at-found :
    (session : Session) (i : ℕ)
    → find_psa_media_type_index session ≡ some i
    → type_at i session.accept_type_list ≡ some psa_type_name
unfolding find_psa_media_type_index
type_at-found session i found =
    subst (λ k. type_at k session.accept_type_list ≡ some psa_type_name) (omega arith)
      (find_from-type_at 0 i session.accept_type_list found).1

-- What a session that is found to accept PSA tokens is answered with.
post_evidence-found :
    (challenge_response : Session → Bytes → Bytes → Bool) (session : Session) (evidence : Bytes)
    (i : ℕ)
    → find_psa_media_type_index session ≡ some i
    → post_evidence challenge_response session evidence
      ≡ some (record {
        value = (psa_type_name, challenge_response session evidence psa_type_name);
        frees = 1;
      })
unfolding post_evidence
post_evidence-found challenge_response session evidence i found =
    rw (found, type_at-found session i found, post_evidence) refl

-- If `open_session` returns a session, it has not freed it, and `post_evidence` on it stays within the
-- list of media types, supplies the evidence as a PSA token and frees the session once.
pub open_session-post_evidence :
    (challenge_response : Session → Bytes → Bytes → Bool) (o : Opening) (session : Session)
    (evidence : Bytes)
    → (open_session o).value ≡ some session
    → ((open_session o).frees ≡ 0)
      × (post_evidence challenge_response session evidence
          ≡ some (record {
            value = (psa_type_name, challenge_response session evidence psa_type_name);
            frees = 1;
          }))
unfolding open_session dispose
open_session-post_evidence challenge_response (failed none) session evidence h = cc h
open_session-post_evidence challenge_response (failed (some s)) session evidence h = cc h
open_session-post_evidence challenge_response (opened s) session evidence h =
    by_index (find_psa_media_type_index s) refl
  where
    some_eq : (a b : Session) → some a ≡ some b → a ≡ b
    some_eq a b e = cc

    by_index :
        (m : Option ℕ)
        → find_psa_media_type_index s ≡ m
        → ((open_session (opened s)).frees ≡ 0)
          × (post_evidence challenge_response session evidence
              ≡ some (record {
                value = (psa_type_name, challenge_response session evidence psa_type_name);
                frees = 1;
              }))
    by_index none q = cc (rw (q, open_session) at h)
    by_index (some i) q =
        let same : s ≡ session = some_eq s session (rw (q, open_session) at h) in
        (
          rw (q, open_session) refl,
          subst
              (λ x.
                post_evidence challenge_response x evidence
                ≡ some (record {
                  value = (psa_type_name, challenge_response x evidence psa_type_name);
                  frees = 1;
                }))
              same (post_evidence-found challenge_response s evidence i q),
        )

-- The number of sessions that the library handed out.
abbrev handed_out : Opening → ℕ
handed_out (failed none) = 0
handed_out (failed (some s)) = 1
handed_out (opened s) = 1

-- If `open_session` returns NULL, it has freed every session that the library handed out, once.
open_session-frees :
    (o : Opening) → (open_session o).value ≡ none → (open_session o).frees ≡ handed_out o
unfolding open_session dispose
open_session-frees (failed none) h = refl
open_session-frees (failed (some s)) h = refl
open_session-frees (opened s) h = by_index (find_psa_media_type_index s) refl
  where
    by_index :
        (m : Option ℕ) → find_psa_media_type_index s ≡ m → (open_session (opened s)).frees ≡ 1
    by_index none q = rw (q, open_session) refl
    by_index (some i) q = cc (rw (q, open_session) at h)
