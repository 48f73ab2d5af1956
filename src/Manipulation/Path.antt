-- ===== src/Manipulation/Path.antt =====
-- src/coreconfManipulation.c: the path that `findRequirementForSID` returns.
use ccoreconf_zcbor.Common.{
  ℕ, zero, suc, ◌+◌, ◌<◌, length, ◌≡◌, refl, ◌∙◌, List, [], ◌∷◌, Option, none, some, Bool, true,
  false, inl, inr, Bool-cases, Option-cases, arith, if◌then◌else◌,
}
use mathlib.Core.Path.{subst}
use ccoreconf_zcbor.Common.Int.{ℤ, pos, negsuc, to_int64, int_eq}
use ccoreconf_zcbor.Sid.{last_or, shorten, pop_long, has_long}
use ccoreconf_zcbor.Sid.Compare.{int_eq-eq}
use ccoreconf_zcbor.Manipulation.Lookup.{
  LongMap, PathNode, known_parents, requirement_loop, find_requirement_for_sid,
}

-- What is stored is found, and no other entry changes. A map holds finitely many `long`s, and storing
-- a list in an entry changes their number by what the list in it is longer.
pub record LongMapLaws (lib : LongMap) : Type 0 where
  pub total : LongMap.Map lib → ℕ
  pub total-set :
      (m : LongMap.Map lib) (k : ℤ) (old l : List ℤ)
      → LongMap.hashmap_get lib m k ≡ some old
      → total (LongMap.hashmap_set lib m k l) + length old ≡ total m + length l
  pub get-set :
      (m : LongMap.Map lib) (k k' : ℤ) (l : List ℤ)
      → LongMap.hashmap_get lib (LongMap.hashmap_set lib m k l) k'
        ≡ (if int_eq k k' then some l else LongMap.hashmap_get lib m k')

int_eq_refl : (a : ℤ) → int_eq a a ≡ true
unfolding int_eq
int_eq_refl (pos n) = ground arith
int_eq_refl (negsuc n) = ground arith

has_long-shorten : (l : List ℤ) (p : ℤ) → has_long (shorten l) p ≡ true → has_long l p ≡ true
unfolding has_long shorten
has_long-shorten [] p h = h
has_long-shorten (x ∷ []) p h = cc
has_long-shorten (x ∷ y ∷ l) p h = elim (Bool-cases (int_eq x p)) [
  | inl first ↦ rw first refl
  | inr later ↦ rw later (has_long-shorten (y ∷ l) p (rw later at h))
]

has_long-last_or : (x : ℤ) (l : List ℤ) → has_long (x ∷ l) (last_or x l) ≡ true
unfolding has_long last_or
has_long-last_or x [] = rw (int_eq_refl x) refl
has_long-last_or x (y ∷ l) = elim (Bool-cases (int_eq x (last_or y l))) [
  | inl first ↦ rw first refl
  | inr later ↦ rw later (has_long-last_or y l)
]

has_long-parent :
    (l : List ℤ)
    → int_eq (last_or (pos 0) l) (pos 0) ≡ false
    → has_long l (last_or (pos 0) l) ≡ true
unfolding last_or int_eq
has_long-parent [] h = absurd cc
has_long-parent (x ∷ l) h = has_long-last_or x l

length-shorten_cons : (x : ℤ) (l : List ℤ) → length (shorten (x ∷ l)) + 1 ≡ length (x ∷ l)
unfolding shorten
length-shorten_cons x [] = refl
length-shorten_cons x (y ∷ l) = omega (arith, length-shorten_cons y l)

length-shorten :
    (l : List ℤ) → int_eq (last_or (pos 0) l) (pos 0) ≡ false → length (shorten l) + 1 ≡ length l
unfolding last_or int_eq
length-shorten [] h = absurd cc
length-shorten (x ∷ l) h = length-shorten_cons x l

unfoldable has_parent : Option (List ℤ) → ℤ → Bool
unfolding has_long
has_parent none p = false
has_parent (some l) p = has_long l p

module _ (lib : LongMap) where
  open lib use {Map, hashmap_get, hashmap_set}

  -- the index names `p` among the parents of `c`
  unfoldable pub is_parent : Map → ℤ → ℤ → Bool
  unfolding has_parent
  is_parent m c p = has_parent (hashmap_get m c) p

  -- The paths from a SID up: each node has the keys of its SID, and is a parent, other than the root,
  -- of the node after it. The root stands last.
  pub data IsPath (clookup keys : Map) (sid : ℤ) : ℤ → List PathNode → Type 0 where
    start : IsPath clookup keys sid sid ((sid, hashmap_get keys sid) ∷ (pos 0, none) ∷ [])
    above :
        {c : ℤ} {path : List PathNode} (p : ℤ)
        → is_parent clookup c p ≡ true
        → int_eq p (pos 0) ≡ false
        → IsPath clookup keys sid c path
        → IsPath clookup keys sid p ((p, hashmap_get keys p) ∷ path)

  -- Where a path may end: the root, a child of the root, or a SID whose parents are used up.
  pub data IsTop (clookup left : Map) (sid : ℤ) : Type 0 where
    root : sid ≡ pos 0 → IsTop clookup left sid
    below_root : is_parent clookup sid (pos 0) ≡ true → IsTop clookup left sid
    used_up : hashmap_get left sid ≡ some [] → IsTop clookup left sid

module _ {lib : LongMap} (laws : LongMapLaws lib) where
  open lib use {Map, hashmap_get, hashmap_set}

  -- The code only takes parents away.
  IsBelow : Map → Map → Type 0
  IsBelow m clookup = (c p : ℤ) → is_parent lib m c p ≡ true → is_parent lib clookup c p ≡ true

  popped-IsBelow :
      (clookup m : Map) (k : ℤ) (l : List ℤ)
      → hashmap_get m k ≡ some l
      → IsBelow m clookup
      → IsBelow (hashmap_set m k (shorten l)) clookup
  unfolding is_parent IsBelow has_parent
  popped-IsBelow clookup m k l e below c p h =
      let after : has_parent (if int_eq k c then some (shorten l) else hashmap_get m c) p ≡ true =
        subst (λ o. has_parent o p ≡ true) (laws.get-set m k c (shorten l)) h in
      elim (Bool-cases (int_eq k c)) [
        | inl same ↦
            let k_c : k ≡ c = int_eq-eq k c same in
            let e' : hashmap_get m c ≡ some l = subst (λ j. hashmap_get m j ≡ some l) k_c e in
            below c p (rw e' (has_long-shorten l p (rw same at after)))
        | inr other ↦ below c p (rw other at after)
      ]

  last-IsTop :
      (clookup m : Map) (current : ℤ) (l : List ℤ)
      → IsBelow m clookup
      → hashmap_get m current ≡ some l
      → int_eq (last_or (pos 0) l) (pos 0) ≡ true
      → IsTop lib clookup (hashmap_set m current (shorten l)) current
  unfolding is_parent has_parent IsBelow last_or shorten
  last-IsTop clookup m current [] below e h =
      used_up (laws.get-set m current current [] ∙ rw (int_eq_refl current) refl)
  last-IsTop clookup m current (x ∷ l) below e h =
      let has : has_long (x ∷ l) (pos 0) ≡ true =
        subst (λ z. has_long (x ∷ l) z ≡ true) (int_eq-eq (last_or x l) (pos 0) h)
          (has_long-last_or x l) in
      below_root (below current (pos 0) (rw e has))

  requirement_loop-IsPath :
      (clookup keys : Map) (sid : ℤ) (fuel : ℕ) (current : ℤ) (m m' : Map)
      (path path' : List PathNode)
      → IsBelow m clookup
      → IsPath lib clookup keys sid current path
      → requirement_loop lib keys fuel current m path ≡ some (m', some path')
      → (top : ℤ) × IsPath lib clookup keys sid top path' × IsTop lib clookup m' top
  unfolding requirement_loop pop_long known_parents is_parent has_parent IsBelow
  requirement_loop-IsPath clookup keys sid zero current m m' path path' below so_far h = absurd cc
  requirement_loop-IsPath clookup keys sid (suc fuel) current m m' path path' below so_far h =
      elim (Bool-cases (int_eq current (pos 0))) [
        | inl zeroed ↦
            let h' = rw zeroed at h in
            let e : path ≡ path' = cc in
            (
              current,
              subst (λ q. IsPath lib clookup keys sid current q) e so_far,
              root (int_eq-eq current (pos 0) zeroed),
            )
        | inr child ↦ elim (Option-cases (hashmap_get m current)) [
          | inl missing ↦ let h' = rw (child, missing) at h in absurd cc
          | inr (l, found) ↦ elim (Bool-cases (int_eq (last_or (pos 0) l) (pos 0))) [
            | inl top ↦
                let h' = rw (child, found, found, top) at h in
                let e : path ≡ path' = cc in
                let e_m : hashmap_set m current (shorten l) ≡ m' = cc in
                (
                  current,
                  subst (λ q. IsPath lib clookup keys sid current q) e so_far,
                  subst (λ q. IsTop lib clookup q current) e_m
                      (last-IsTop clookup m current l below found top),
                )
            | inr more ↦
                let parent =
                  below current (last_or (pos 0) l) (rw found (has_long-parent l more)) in
                requirement_loop-IsPath clookup keys sid fuel _ _ m' _ path'
                  (popped-IsBelow clookup m current l found below)
                  (above (last_or (pos 0) l) parent more so_far)
                  (rw (child, found, found, more) at h)
          ]
        ]
      ]

  -- A path that findRequirementForSID returns is a path up from the SID: each node is a parent of the
  -- node below it in the index as it was given, has the keys that the key mappings have for its SID,
  -- and is not the root, whose node stands last. The uppermost node is the root, a child of the root
  -- or a SID whose parents are used up. The hash map is one that finds what is stored in it.
  pub find_requirement_for_sid-IsPath :
      (fuel sid : ℕ) (clookup keys m' : Map) (path : List PathNode)
      → find_requirement_for_sid lib fuel sid clookup keys ≡ some (m', some path)
      → (top : ℤ) × IsPath lib clookup keys (to_int64 sid) top path × IsTop lib clookup m' top
  unfolding find_requirement_for_sid IsBelow
  find_requirement_for_sid-IsPath fuel sid clookup keys m' path h =
      requirement_loop-IsPath clookup keys (to_int64 sid) fuel (to_int64 sid) clookup m' _ path
        (λ c p parent. parent) start h

  requirement_loop-returns :
      (keys : Map) (fuel : ℕ) (current : ℤ) (m : Map) (path : List PathNode)
      → laws.total m < fuel
      → (m' : Map) × (found : Option (List PathNode)) × (requirement_loop lib keys fuel current m
            path
          ≡ some (m', found))
  unfolding requirement_loop pop_long known_parents
  requirement_loop-returns keys zero current m path h = absurd (omega arith)
  requirement_loop-returns keys (suc fuel) current m path h =
      elim (Bool-cases (int_eq current (pos 0))) [
        | inl zeroed ↦ (m, some path, rw zeroed refl)
        | inr child ↦ elim (Option-cases (hashmap_get m current)) [
          | inl missing ↦ (m, none, rw (child, missing) refl)
          | inr (l, found) ↦ elim (Bool-cases (int_eq (last_or (pos 0) l) (pos 0))) [
            | inl top ↦
                (hashmap_set m current (shorten l), some path, rw (child, found, found, top) refl)
            | inr more ↦
                let fewer : laws.total (hashmap_set m current (shorten l)) < fuel =
                  omega (
                    arith,
                    laws.total-set m current l (shorten l) found,
                    length-shorten l more,
                    h,
                  ) in
                let (m', o, e) =
                  requirement_loop-returns keys fuel (last_or (pos 0) l)
                    (hashmap_set m current (shorten l))
                    ((last_or (pos 0) l, hashmap_get keys (last_or (pos 0) l)) ∷ path) fewer in
                (m', o, rw (child, found, found, more) e)
          ]
        ]
      ]

  -- findRequirementForSID returns, with a path or with NULL, where the fuel is more than the number of
  -- parents in the index: each round takes one of them away or is the last. The hash map is one that
  -- finds what is stored in it.
  pub find_requirement_for_sid-returns :
      (fuel sid : ℕ) (clookup keys : Map)
      → laws.total clookup < fuel
      → (m' : Map) × (found : Option (List PathNode)) × (find_requirement_for_sid lib fuel sid
            clookup keys
          ≡ some (m', found))
  unfolding find_requirement_for_sid
  find_requirement_for_sid-returns fuel sid clookup keys h =
      requirement_loop-returns keys fuel (to_int64 sid) clookup _ h
