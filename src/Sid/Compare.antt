-- ===== src/Sid/Compare.antt =====
-- src/sid.c: `compareDynamicLongList` against rearrangement.
use ccoreconf_zcbor.Common.{
  ◌+◌, ◌≡◌, refl, sym, ap, ◌≢◌, List, [], ◌∷◌, inl, inr, true, ◌||◌, Bool-cases, ◌==◌, length,
  arith,
}
use mathlib.Core.Path.{subst}
use mathlib.Core.List.{Perm}
use mathlib.Core.List.Perm
use ccoreconf_zcbor.Common.Int.{ℤ, pos, negsuc, int_eq}
use ccoreconf_zcbor.Sid.{
  compare_long_le, insert_long, sort_dynamic_long_list, same_longs, compare_dynamic_long_list,
}

pub int_eq-eq : (a b : ℤ) → int_eq a b ≡ true → a ≡ b
unfolding int_eq
int_eq-eq (pos a) (pos b) h = ap pos (ground arith)
int_eq-eq (negsuc a) (negsuc b) h = ap negsuc (ground arith)
int_eq-eq (pos a) (negsuc b) h = cc
int_eq-eq (negsuc a) (pos b) h = cc

insert_long-Perm : (x : ℤ) (l : List ℤ) → Perm (insert_long x l) (x ∷ l)
unfolding insert_long
insert_long-Perm x [] = Perm.refl (x ∷ [])
insert_long-Perm x (y ∷ l) = elim (Bool-cases (compare_long_le x y)) [
  | inl first ↦ rw first (Perm.refl (x ∷ y ∷ l))
  | inr later ↦ rw later (Perm.trans (Perm.cons y (insert_long-Perm x l)) (Perm.swap x y l))
]

sort-Perm : (l : List ℤ) → Perm (sort_dynamic_long_list l) l
unfolding sort_dynamic_long_list
sort-Perm [] = Perm.refl []
sort-Perm (x ∷ l) =
    Perm.trans (insert_long-Perm x (sort_dynamic_long_list l)) (Perm.cons x (sort-Perm l))

length-insert_long : (x : ℤ) (l : List ℤ) → length (insert_long x l) ≡ 1 + length l
unfolding insert_long
length-insert_long x [] = refl
length-insert_long x (y ∷ l) = ground (arith, length-insert_long x l)

length-sort : (l : List ℤ) → length (sort_dynamic_long_list l) ≡ length l
unfolding sort_dynamic_long_list
length-sort [] = refl
length-sort (x ∷ l) = omega (arith, length-insert_long x (sort_dynamic_long_list l), length-sort l)

same_longs-eq : (xs ys : List ℤ) → length xs ≡ length ys → same_longs xs ys ≡ true → xs ≡ ys
unfolding same_longs
same_longs-eq [] [] h e = refl
same_longs-eq [] (y ∷ ys) h e = absurd (omega arith)
same_longs-eq (x ∷ xs) [] h e = absurd (omega arith)
same_longs-eq (x ∷ xs) (y ∷ ys) h e = elim (Bool-cases (int_eq x y)) [
  | inl first ↦
      let e' : same_longs xs ys ≡ true = rw first at e in
      let a = int_eq-eq x y first in let b = same_longs-eq xs ys (omega (arith, h)) e' in cc
  | inr differ ↦ let e' = rw differ at e in cc
]

-- Two lists of keys that `compareDynamicLongList` accepts are rearrangements of each other, and have
-- an element.
pub compare_dynamic_long_list-Perm :
    (l1 l2 : List ℤ) → compare_dynamic_long_list l1 l2 ≡ true → Perm l1 l2 × (l1 ≢ [])
unfolding compare_dynamic_long_list
compare_dynamic_long_list-Perm l1 l2 h = elim (Bool-cases (length l1 == 0 || length l2 == 0)) [
  | inl empty ↦ let h' = rw empty at h in cc
  | inr some' ↦ elim (Bool-cases (length l1 == length l2)) [
    | inl even ↦
        let h' = rw (some', even) at h in
        let same =
          same_longs-eq (sort_dynamic_long_list l1) (sort_dynamic_long_list l2)
            (ground (arith, length-sort l1, length-sort l2)) h' in
        (
          Perm.trans (Perm.symm (sort-Perm l1)) (subst (λ l. Perm l l2) (sym same) (sort-Perm l2)),
          λ e. let s' = rw e at some' in cc,
        )
    | inr odd ↦ let h' = rw (some', odd) at h in cc
  ]
]
