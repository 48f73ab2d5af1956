-- ===== src/Sid.antt =====
-- src/sid.c: the lists of `long`s. A list is its elements, whose number is the field `size`.
pub mod Compare
pub mod Text
pub mod Printed
use ccoreconf_zcbor.Common.{
  ◌+◌, ◌-◌, ◌%◌, ◌^◌, List, [], ◌∷◌, ◌++◌, Bool, true, false, ◌&&◌, ◌||◌, Option, some, leb, ◌==◌,
  if◌then◌else◌, length,
}
use ccoreconf_zcbor.Common.Int.{ℤ, pos, to_uint64, int_eq}

unfoldable pub add_long : List ℤ → ℤ → List ℤ
add_long l value = l ++ (value ∷ [])

unfoldable pub last_or : ℤ → List ℤ → ℤ
last_or d [] = d
last_or d (x ∷ l) = last_or x l

unfoldable pub shorten : List ℤ → List ℤ
shorten [] = []
shorten (x ∷ []) = []
shorten (x ∷ y ∷ l) = x ∷ shorten (y ∷ l)

-- The last element is taken off; an empty list gives 0, and so does NULL.
unfoldable pub pop_long : List ℤ → List ℤ × ℤ
unfolding last_or shorten
pop_long l = (shorten l, last_or (pos 0) l)

unfoldable pub add_all : List ℤ → List ℤ → List ℤ
unfolding add_long
add_all cloned [] = cloned
add_all cloned (x ∷ l) = add_all (add_long cloned x) l

-- An empty original leaves the clone as it is, `none` where it was never initialised.
unfoldable pub clone_dynamic_long_list : List ℤ → Option (List ℤ) → Option (List ℤ)
unfolding add_all
clone_dynamic_long_list [] cloned = cloned
clone_dynamic_long_list (x ∷ l) cloned = some (add_all [] (x ∷ l))

unfoldable pub has_long : List ℤ → ℤ → Bool
unfolding int_eq
has_long [] value = false
has_long (x ∷ l) value = int_eq x value || has_long l value

unfoldable pub add_unique_long : List ℤ → ℤ → List ℤ
unfolding has_long add_long
add_unique_long l value = if has_long l value then l else add_long l value

-- `compareLong` is at most 0: it subtracts the low halves of its arguments, read as `int`s, and the
-- difference wraps.
unfoldable pub compare_long_le : ℤ → ℤ → Bool
unfolding to_uint64
compare_long_le a b =
    let d = (to_uint64 a % 2 ^ 32 + 2 ^ 32 - to_uint64 b % 2 ^ 32) % 2 ^ 32 in
    d == 0 || leb (2 ^ 31) d

-- `qsort` by that comparison. Which of two elements that compare equal comes first is left open by
-- C; here they keep their order.
unfoldable pub insert_long : ℤ → List ℤ → List ℤ
unfolding compare_long_le
insert_long x [] = x ∷ []
insert_long x (y ∷ l) = if compare_long_le x y then x ∷ y ∷ l else y ∷ insert_long x l

unfoldable pub sort_dynamic_long_list : List ℤ → List ℤ
unfolding insert_long
sort_dynamic_long_list [] = []
sort_dynamic_long_list (x ∷ l) = insert_long x (sort_dynamic_long_list l)

-- the loop over two arrays of one size
unfoldable pub same_longs : List ℤ → List ℤ → Bool
unfolding int_eq
same_longs [] ys = true
same_longs (x ∷ xs) [] = true
same_longs (x ∷ xs) (y ∷ ys) = int_eq x y && same_longs xs ys

unfoldable pub compare_dynamic_long_list : List ℤ → List ℤ → Bool
unfolding sort_dynamic_long_list same_longs
compare_dynamic_long_list l1 l2 =
    if length l1 == 0 || length l2 == 0
    then false
    else if length l1 == length l2
    then same_longs (sort_dynamic_long_list l1) (sort_dynamic_long_list l2)
    else false
