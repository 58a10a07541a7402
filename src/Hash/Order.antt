-- ===== src/Hash/Order.antt =====
-- Two sorted arrangements of the same contents are one list.
use mathlib.Core.Logic.Or
use mathlib.Core.List.{Mem, Pairwise, Perm, mem-cons, rel_of_Pairwise-cons, Pairwise-cons}
use mathlib.Core.List.Perm
use optee_ra_fork.Base.{List, [], ◌∷◌, Bytes, ◌≡◌, ◌≢◌, refl, sym, ap₂, subst}
use optee_ra_fork.Hash.Compare.{positive, cmp_contents, cmp_contents_antisymm}

-- The order by which `qsort` is called, on the bytes of two regions.
abbrev pub NotAfter : Bytes → Bytes → Type 0
NotAfter a b = cmp_contents a b ≢ positive

Bytes-set : IsSet Bytes
Bytes-set = hlevel

head_mem : {a : Bytes} {xs : List Bytes} → Mem a (a ∷ xs)
head_mem = mem-cons.1 (Or.inl refl)

same_head :
    (x y : Bytes) (xs ys : List Bytes)
    → Pairwise NotAfter (x ∷ xs)
    → Pairwise NotAfter (y ∷ ys)
    → Mem x (y ∷ ys)
    → Mem y (x ∷ xs)
    → x ≡ y
same_head x y xs ys sx sy mx my =
    Or.elim (Bytes-set x y) (mem-cons.0 mx) (λ e. e)
      λ x_later.
        Or.elim (Bytes-set x y) (mem-cons.0 my) (λ e. sym e)
          λ y_later.
            cmp_contents_antisymm x y (rel_of_Pairwise-cons sx y_later)
              (rel_of_Pairwise-cons sy x_later)

pub sorted_unique :
    (xs ys : List Bytes) → Pairwise NotAfter xs → Pairwise NotAfter ys → Perm xs ys → xs ≡ ys
sorted_unique [] ys sx sy p = sym (sym (Perm.nil-eq p))
sorted_unique (x ∷ xs) [] sx sy p = cc (Perm.eq-nil p)
sorted_unique (x ∷ xs) (y ∷ ys) sx sy p =
    let e : x ≡ y =
      same_head x y xs ys sx sy ((Perm.mem_iff p).0 head_mem) ((Perm.mem_iff p).1 head_mem) in
    let q : Perm (x ∷ xs) (x ∷ ys) = subst (λ z. Perm (x ∷ xs) (z ∷ ys)) (sym e) p in
    ap₂ ◌∷◌ e (sorted_unique xs ys (Pairwise-cons.0 sx).1 (Pairwise-cons.0 sy).1 (Perm.cons_inv q))
