-- ===== src/Hash/Independent.antt =====
-- About `hash_regions` of hash.c on two address spaces with the same contents.
use mathlib.Core.List.{Pairwise, Perm, Pairwise-map}
use mathlib.Core.List.Perm
use optee_ra_fork.Base.{List, [], ◌∷◌, map, ◌++◌, Bytes, ◌≡◌, ◌≢◌, refl, sym, ap, ◌∙◌}
use optee_ra_fork.Tee.{Env, St, ok}
use optee_ra_fork.Tee.Answers.{Ensures-eq_ok, any_answers}
use optee_ra_fork.Hash.{VmFlags, Region, VmInfo, collect_valid, hash_regions}
use optee_ra_fork.Hash.Compare.{positive, cmp_regions}
use optee_ra_fork.Hash.Order.{NotAfter, sorted_unique}
use optee_ra_fork.Hash.Measure.{
  concat_contents, arrange, measured, measured_lem, Ensures-hash_regions,
}

NotAfter-prop : (a b : Bytes) → IsProp (NotAfter a b)
NotAfter-prop a b = hlevel

-- The bytes of a region.
abbrev pub contents_of : List Region → List Bytes
contents_of = map (λ r. r.contents)

-- What `qsort` with `cmp_regions` promises on an array: the same regions, in order.
pub record Sorts (qsort : List Region → List Region) (rs : List Region) : Type 0 where
  pub perm : Perm (qsort rs) rs
  pub ordered : Pairwise (λ a b. cmp_regions a b ≢ positive) (qsort rs)

unfoldable pub join_all : List Bytes → Bytes
join_all [] = []
join_all (b ∷ bs) = b ++ join_all bs

concat-join : (rs : List Region) → concat_contents rs ≡ join_all (contents_of rs)
unfolding concat_contents join_all
concat-join [] = refl
concat-join (r ∷ rs) = ap (λ t. r.contents ++ t) (concat-join rs)

module _ (qsort : List Region → List Region) where
  arrange-perm : (rs : List Region) → Sorts qsort rs → Perm (arrange qsort rs) rs
  unfolding arrange
  arrange-perm [] s = Perm.refl []
  arrange-perm (r ∷ rs) s = s.perm

  arrange-ordered :
      (rs : List Region) → Sorts qsort rs → Pairwise NotAfter (contents_of (arrange qsort rs))
  unfolding arrange cmp_regions
  arrange-ordered [] s = Pairwise.nil
  arrange-ordered (r ∷ rs) s = (Pairwise-map NotAfter-prop (λ (r : Region). r.contents)).1 s.ordered

  measured_same :
      (vm : VmFlags) (info info' : VmInfo)
      → Sorts qsort (collect_valid vm info)
      → Sorts qsort (collect_valid vm info')
      → Perm (contents_of (collect_valid vm info)) (contents_of (collect_valid vm info'))
      → measured vm qsort info ≡ measured vm qsort info'
  measured_same vm info info' s s' p =
      sym (measured_lem vm qsort info)
      ∙ concat-join _
      ∙ ap join_all (
          sorted_unique _ _ (arrange-ordered _ s) (arrange-ordered _ s') (
            Perm.trans (Perm.map _ (arrange-perm _ s))
              (Perm.trans p (Perm.map _ (Perm.symm (arrange-perm _ s'))))))
      ∙ sym (concat-join _)
      ∙ measured_lem vm qsort info'

-- Let `qsort` arrange the valid regions of two address spaces in the order of `cmp_regions`. If
-- those regions hold the same contents up to order, any two successful runs of `hash_regions` on
-- them return the same digest, whatever the environments and states in which they run.
pub hash_regions_unique :
    (sha256 : Bytes → Bytes) (vm : VmFlags) (qsort : List Region → List Region)
    (info info' : VmInfo)
    → Sorts qsort (collect_valid vm info)
    → Sorts qsort (collect_valid vm info')
    → Perm (contents_of (collect_valid vm info)) (contents_of (collect_valid vm info'))
    → (env env' : Env) (st st' end end' : St) (d d' : Bytes)
    → hash_regions sha256 vm qsort info env st ≡ (ok d, end)
    → hash_regions sha256 vm qsort info' env' st' ≡ (ok d', end')
    → d ≡ d'
hash_regions_unique sha256 vm qsort info info' s s' p env env' st st' end end' d d' r r' =
    Ensures-eq_ok st (Ensures-hash_regions {L = ⊥} (any_answers env) sha256 vm qsort info) r
    ∙ ap sha256 (measured_same qsort vm info info' s s' p)
    ∙ sym (
        Ensures-eq_ok st' (Ensures-hash_regions {L = ⊥} (any_answers env') sha256 vm qsort info')
          r')
