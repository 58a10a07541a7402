-- ===== src/Pta/Buffers.antt =====
-- The buffers of a command's parameters: the bytes read from one, and a message put into one.
use optee_ra_fork.Base.{
  ◌≤◌, arith, ◌≡◌, refl, ap, Bool, true, none, some, ◌++◌, ◌==◌, ◌||◌, not, Bytes, length, drop,
}
use optee_ra_fork.Tee.{Env, Error}
use optee_ra_fork.Tee.Rules.{Ensures, Ensures-pure, Ensures-bind, Ensures-load, Ensures-store}
use optee_ra_fork.Params.{Param, memref, value, buffer_of, size_of, is_null, load_at}
use optee_ra_fork.Pta.Expected.{IsMemref, contents}
use optee_ra_fork.Pta.Caam.{put}

-- The output parameter with a message at its start.
unfoldable pub filled : Param → Bytes → Param
filled (memref (some buffer) size) cose =
    memref (some (cose ++ drop (length cose) buffer)) (length cose)
filled other cose = other

-- A parameter with at least one byte.
abbrev pub is_given : Param → Bool
is_given p = not (is_null (buffer_of p) || size_of p == 0)

-- Nothing is written where there is no buffer.
pub filled_null :
    (p : Param) (text : Bytes) → IsMemref p → is_null (buffer_of p) ≡ true → filled p text ≡ p
unfolding filled buffer_of is_null
filled_null (memref none size) text m h = refl
filled_null (memref (some buffer) size) text m h = cc h
filled_null (value a b stale) text m h = elim m [ ]

module _ {env : Env} {L : Type 0} {E : Error → Type 0} where
  -- Writing what fits.
  pub Ensures-put :
      (p1 : Param) (text : Bytes)
      → IsMemref p1
      → length text ≤ size_of p1
      → Ensures env L (λ out. out ≡ filled p1 text) E (put p1 text)
  unfolding put filled size_of
  Ensures-put (memref none size) text m fits = Ensures-pure _ refl
  Ensures-put (memref (some buffer) size) text m fits =
      Ensures-bind (Ensures-store buffer text (omega (arith, m, fits)))
        λ out e. Ensures-pure _ (ap (λ b. memref (some b) (length text)) e)
  Ensures-put (value a b stale) text m fits = elim m [ ]

  -- A parameter that is given is loaded whole.
  pub Ensures-contents :
      (p : Param)
      → IsMemref p
      → is_given p ≡ true
      → Ensures env L (λ n. n ≡ contents p) E (load_at (buffer_of p) 0 (size_of p))
  unfolding load_at buffer_of size_of is_null contents
  Ensures-contents (memref none size) m given = cc given
  Ensures-contents (memref (some buffer) size) m given =
      Ensures-load buffer 0 size (omega (arith, m))
  Ensures-contents (value a b stale) m given = elim m [ ]
