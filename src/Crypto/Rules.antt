-- ===== src/Crypto/Rules.antt =====
-- What the crypto calls return, on success.
use optee_ra_fork.Base.{◌≡◌, refl, ◌++◌, [], Bytes}
use optee_ra_fork.Tee.{Act, Error, Env}
use optee_ra_fork.Tee.Rules.{Ensures, Ensures-pure, Ensures-then, Ensures-holding}
use optee_ra_fork.Tee.Answers.{Answers, Ensures-call}
use optee_ra_fork.Tee.Resources.{hash_ctx}
use optee_ra_fork.Crypto.{hash_init, hash_update, hash_final, with_hash_ctx}

module _ {env : Env} {L : Type 0} {E : Error → Type 0} (answers : Answers env E) where
  pub Ensures-hash_init : Ensures env L (λ m. m ≡ []) E hash_init
  unfolding hash_init
  Ensures-hash_init = Ensures-then (Ensures-call answers) (Ensures-pure _ refl)

  pub Ensures-hash_update :
      (message part : Bytes) → Ensures env L (λ m. m ≡ message ++ part) E (hash_update message part)
  unfolding hash_update
  Ensures-hash_update message part = Ensures-then (Ensures-call answers) (Ensures-pure _ refl)

  pub Ensures-hash_final :
      (sha256 : Bytes → Bytes) (message : Bytes)
      → Ensures env L (λ d. d ≡ sha256 message) E (hash_final sha256 message)
  unfolding hash_final
  Ensures-hash_final sha256 message = Ensures-then (Ensures-call answers) (Ensures-pure _ refl)

  pub Ensures-with_hash_ctx :
      {A : Type 0} {P : A → Type 0} {body : Act A}
      → Ensures env L P E body
      → Ensures env L P E (with_hash_ctx body)
  unfolding with_hash_ctx
  Ensures-with_hash_ctx ensured =
      Ensures-then (Ensures-call answers) (Ensures-holding hash_ctx ensured)
