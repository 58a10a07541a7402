-- ===== src/Tee/Resources.antt =====
-- The resources that the code acquires from OP-TEE, each with the number of those it holds.
use optee_ra_fork.Base.{ℕ, zero, suc, ◌+◌, ◌≡◌, refl, sym, ap, ◌∙◌, ◌⊎◌, inl, inr, arith}

pub data Kind : Type 0 where
  hash_ctx block keypair caam_key popped_session user_access ta_session : Kind

-- `hash_ctx` counts contexts of crypto_hash_alloc_ctx, `block` heap blocks, `keypair` the bignums of
-- an ECC key pair, `caam_key` CAAM key buffers, `popped_session` sessions taken off the session
-- stack, `user_access` open accesses to user memory, `ta_session` sessions opened by a TA.
pub record Held : Type 0 where
  pub hash_ctxs : ℕ
  pub blocks : ℕ
  pub keypairs : ℕ
  pub caam_keys : ℕ
  pub popped_sessions : ℕ
  pub user_accesses : ℕ
  pub ta_sessions : ℕ

abbrev pub inc : Kind → Held → Held
inc hash_ctx h = record h { hash_ctxs = suc h.hash_ctxs }
inc block h = record h { blocks = suc h.blocks }
inc keypair h = record h { keypairs = suc h.keypairs }
inc caam_key h = record h { caam_keys = suc h.caam_keys }
inc popped_session h = record h { popped_sessions = suc h.popped_sessions }
inc user_access h = record h { user_accesses = suc h.user_accesses }
inc ta_session h = record h { ta_sessions = suc h.ta_sessions }

abbrev pub less : ℕ → ℕ
less zero = zero
less (suc n) = n

abbrev pub dec : Kind → Held → Held
dec hash_ctx h = record h { hash_ctxs = less h.hash_ctxs }
dec block h = record h { blocks = less h.blocks }
dec keypair h = record h { keypairs = less h.keypairs }
dec caam_key h = record h { caam_keys = less h.caam_keys }
dec popped_session h = record h { popped_sessions = less h.popped_sessions }
dec user_access h = record h { user_accesses = less h.user_accesses }
dec ta_session h = record h { ta_sessions = less h.ta_sessions }

-- The resources with `n` more heap blocks, which nothing points to any more.
abbrev pub leak : ℕ → Held → Held
leak n h = record h { blocks = n + h.blocks }

-- `h'` is what is held after a run that began with `h`: the same, but for heap blocks that are
-- lost; and a block is lost only where `L` holds. With `⊥` for `L` nothing is lost.
pub record Kept (L : Type 0) (h h' : Held) : Type 0 where
  pub lost : ℕ
  pub same : h' ≡ leak lost h
  pub allowed : (lost ≡ 0) ⊎ L

leak-zero : (h : Held) → leak 0 h ≡ h
leak-zero h = ap (λ b. record h { blocks = b }) (omega arith)

pub leak-one : (h : Held) → record h { blocks = suc h.blocks } ≡ leak 1 h
leak-one h = ap (λ b. record h { blocks = b }) (omega arith)

leak-leak : (m n : ℕ) (h : Held) → leak m (leak n h) ≡ leak (n + m) h
leak-leak m n h = ap (λ b. record h { blocks = b }) (omega arith)

dec-leak-inc : (k : Kind) (n : ℕ) (h : Held) → dec k (leak n (inc k h)) ≡ leak n h
dec-leak-inc hash_ctx n h = refl
dec-leak-inc block n h = ap (λ b. dec block (record h { blocks = b })) (suc_of (h.blocks))
  where
    suc_of : (b : ℕ) → n + suc b ≡ suc (n + b)
    suc_of b = omega arith
dec-leak-inc keypair n h = refl
dec-leak-inc caam_key n h = refl
dec-leak-inc popped_session n h = refl
dec-leak-inc user_access n h = refl
dec-leak-inc ta_session n h = refl

module _ {L : Type 0} where
  pub Kept-of_eq : {h h' : Held} → h' ≡ h → Kept L h h'
  Kept-of_eq {h} e = record { lost = 0; same = e ∙ sym (leak-zero h); allowed = inl refl }

  pub Kept-refl : (h : Held) → Kept L h h
  Kept-refl h = Kept-of_eq refl

  pub Kept-trans : {h h' h'' : Held} → Kept L h h' → Kept L h' h'' → Kept L h h''
  Kept-trans {h} k k' = record {
    lost = k.lost + k'.lost;
    same = k'.same ∙ ap (leak k'.lost) k.same ∙ leak-leak k'.lost k.lost h;
    allowed = both k.allowed k'.allowed;
  }
    where
      both : {m n : ℕ} → (m ≡ 0) ⊎ L → (n ≡ 0) ⊎ L → (m + n ≡ 0) ⊎ L
      both (inl e) (inl e') = inl (omega arith)
      both (inl e) (inr l) = inr l
      both (inr l) a = inr l

  pub Kept-back : (k : Kind) {h h' : Held} → Kept L (inc k h) h' → Kept L h (dec k h')
  Kept-back k {h} kept = record {
    lost = kept.lost;
    same = ap (dec k) kept.same ∙ dec-leak-inc k kept.lost h;
    allowed = kept.allowed;
  }

-- Nothing is lost where nothing can be.
pub Kept-eq : {h h' : Held} → Kept ⊥ h h' → h' ≡ h
Kept-eq {h} kept = elim kept.allowed [
  | inl none_lost ↦ kept.same ∙ ap (λ n. leak n h) none_lost ∙ leak-zero h
  | inr l ↦ elim l [ ]
]
