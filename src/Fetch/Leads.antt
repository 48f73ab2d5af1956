-- ===== src/Fetch/Leads.antt =====
-- src/fetch.c: what an instance identifier leads to in a data source.
use ccoreconf_zcbor.Common.{
  ℕ, zero, suc, ◌≡◌, refl, sym, ap, ◌∙◌, List, [], ◌∷◌, Bool, true, false, Option, none, some, inl,
  inr, ◌⊎◌, ◌≢◌, Bool-cases, ◌==◌, Tells, Tells-or, arith,
}
use mathlib.Core.Path.{subst}
use ccoreconf_zcbor.Common.Int.{pos, negsuc}
use ccoreconf_zcbor.Value.{
  Value, Values, Ref, Chain, Table, HashMap, array, string, hashmap, no_elements, element, null_ref,
  ref, chain_end, object, no_buckets, bucket, map_of,
}
use ccoreconf_zcbor.HashMap.Buckets.{view}
use ccoreconf_zcbor.HashMap.Lookup.{get_coreconf_hash_map-view}
use ccoreconf_zcbor.Fetch.Resolve.{
  InstanceIdentifier, iid_simple, iid_with_str_key, iid_with_int_key, sid, str_eq, is_string,
  chain_has, table_has, element_has, find_element, element_at, by_str_key, by_int_key, resolve,
  fetch_value_by_iid,
}

-- the element of an array at an index
pub data At : ℕ → Values → Value → Type 0 where
  at_front : {v : Value} {vs : Values} → At 0 (element v vs) v
  at_behind : {i : ℕ} {v w : Value} {vs : Values} → At i vs w → At (suc i) (element v vs) w

-- an object whose value is the text
pub data ChainHas (key : List ℕ) : Chain → Type 0 where
  has_here : {k : ℕ} {r : Ref} {c : Chain} → r ≡ ref (string key) → ChainHas key (object k r c)
  has_later : {k : ℕ} {r : Ref} {c : Chain} → ChainHas key c → ChainHas key (object k r c)

pub data TableHas (key : List ℕ) : Table → Type 0 where
  in_bucket : {c : Chain} {t : Table} → ChainHas key c → TableHas key (bucket c t)
  in_later : {c : Chain} {t : Table} → TableHas key t → TableHas key (bucket c t)

-- a map with such an object
pub data HasText (key : List ℕ) : Value → Type 0 where
  has_text : {t : Table} {n : ℕ} → TableHas key t → HasText key (hashmap (map_of t n))

-- the first element of an array that is such a map
pub data FirstWith (key : List ℕ) : Values → Value → Type 0 where
  first : {v : Value} {vs : Values} → HasText key v → FirstWith key (element v vs) v
  not_first :
      {v w : Value} {vs : Values}
      → ¬ HasText key v
      → FirstWith key vs w
      → FirstWith key (element v vs) w

-- the value of the SID, the entry with the text in it, or the element at the index
pub data LeadsTo (m : HashMap) : InstanceIdentifier → Value → Type 0 where
  to_value : {s : ℕ} {v : Value} → view m s ≡ some (ref v) → LeadsTo m (iid_simple s) v
  to_entry :
      {s : ℕ} {key : List ℕ} {vs : Values} {v : Value}
      → view m s ≡ some (ref (array vs))
      → FirstWith key vs v
      → LeadsTo m (iid_with_str_key s key) v
  to_element :
      {s i : ℕ} {vs : Values} {v : Value}
      → view m s ≡ some (ref (array vs))
      → At i vs v
      → LeadsTo m (iid_with_int_key s (pos i)) v

abbrev pub Leads : Ref → InstanceIdentifier → Value → Type 0
Leads (ref (hashmap m)) iid v = LeadsTo m iid v
Leads _ iid v = ⊥

-- What is found has the property, and nothing is found where nothing has it.
abbrev pub Finds : (Value → Type 0) → Option Value → Type 0
Finds P none = (v : Value) → ¬ P v
Finds P (some v) = P v

pub Finds-map :
    (P Q : Value → Type 0)
    → ((v : Value) → P v → Q v)
    → ((v : Value) → Q v → P v)
    → (o : Option Value) → Finds P o
    → Finds Q o
Finds-map P Q f g none h = λ v q. h v (g v q)
Finds-map P Q f g (some v) h = f v h

abbrev pub AllFound : Ref → List InstanceIdentifier → Type 0
AllFound source [] = Unit
AllFound source (iid ∷ iids) =
    Finds (Leads source iid) (fetch_value_by_iid source iid) × AllFound source iids

pub str_eq-Tells : (a b : List ℕ) → Tells (a ≡ b) (str_eq a b)
unfolding str_eq
str_eq-Tells [] [] = refl
str_eq-Tells [] (b ∷ bs) = λ e. cc
str_eq-Tells (a ∷ s) [] = λ e. cc
str_eq-Tells (a ∷ s) (b ∷ bs) = elim (Bool-cases (a == b)) [
  | inl same ↦
      let e : a ≡ b = ground (arith, same) in rw same (below e (str_eq s bs) (str_eq-Tells s bs))
  | inr other ↦ rw other (λ e. let e' : a ≡ b = cc in ground (arith, other, e'))
]
  where
    below : a ≡ b → (t : Bool) → Tells (s ≡ bs) t → Tells ((a ∷ s) ≡ (b ∷ bs)) t
    below e true h = cc
    below e false h = λ k. h cc

is_string-Tells : (key : List ℕ) (r : Ref) → Tells (r ≡ ref (string key)) (is_string key r)
unfolding is_string
is_string-Tells key (ref (string s)) = lift (str_eq s key) (str_eq-Tells s key)
  where
    lift : (t : Bool) → Tells (s ≡ key) t → Tells (ref (string s) ≡ ref (string key)) t
    lift true h = ap (λ x. ref (string x)) h
    lift false h = λ e. h cc
is_string-Tells key null_ref = λ e. cc
is_string-Tells key (ref _) = λ e. cc

chain_has-Tells : (key : List ℕ) (c : Chain) → Tells (ChainHas key c) (chain_has key c)
unfolding chain_has
chain_has-Tells key chain_end = λ h. elim h [ ]
chain_has-Tells key (object k r c) =
    Tells-or (r ≡ ref (string key)) (ChainHas key c) (ChainHas key (object k r c)) _ _ has_here
      has_later split (is_string-Tells key r) (chain_has-Tells key c)
  where
    split : ChainHas key (object k r c) → (r ≡ ref (string key)) ⊎ ChainHas key c
    split (has_here e) = inl e
    split (has_later h) = inr h

table_has-Tells : (key : List ℕ) (t : Table) → Tells (TableHas key t) (table_has key t)
unfolding table_has
table_has-Tells key no_buckets = λ h. elim h [ ]
table_has-Tells key (bucket c t) =
    Tells-or (ChainHas key c) (TableHas key t) (TableHas key (bucket c t)) _ _ in_bucket in_later
      split (chain_has-Tells key c) (table_has-Tells key t)
  where
    split : TableHas key (bucket c t) → ChainHas key c ⊎ TableHas key t
    split (in_bucket h) = inl h
    split (in_later h) = inr h

pub element_has-Tells : (key : List ℕ) (v : Value) → Tells (HasText key v) (element_has key v)
unfolding element_has
element_has-Tells key (hashmap (map_of t n)) = lift (table_has key t) (table_has-Tells key t)
  where
    lift : (b : Bool) → Tells (TableHas key t) b → Tells (HasText key (hashmap (map_of t n))) b
    lift true h = has_text h
    lift false h = λ k. elim k [ has_text j ↦ h j ]
element_has-Tells key _ = λ h. elim h [ ]

pub find_element-Finds :
    (key : List ℕ) (vs : Values) → Finds (FirstWith key vs) (find_element key vs)
unfolding find_element
find_element-Finds key no_elements = λ v h. elim h [ ]
find_element-Finds key (element v vs) =
    let told = element_has-Tells key v in
    elim (Bool-cases (element_has key v)) [
      | inl hit ↦ rw hit (first (rw hit at told))
      | inr miss ↦
          let not_here = rw miss at told in
          rw miss (
            Finds-map (FirstWith key vs) (FirstWith key (element v vs)) (λ w. not_first not_here)
              (back not_here) (find_element key vs) (find_element-Finds key vs))
    ]
  where
    back : ¬ HasText key v → (w : Value) → FirstWith key (element v vs) w → FirstWith key vs w
    back n w (first h) = absurd (n h)
    back n w (not_first m h) = h

nothing-At : (i : ℕ) (v : Value) → ¬ At i no_elements v
nothing-At i v h = none_of i no_elements v h refl
  where
    none_of : (i : ℕ) (vs : Values) (v : Value) → At i vs v → vs ≢ no_elements
    none_of _ _ v at_front e = cc
    none_of _ _ v (at_behind h) e = cc

pub element_at-Finds : (i : ℕ) (vs : Values) → Finds (At i vs) (element_at i vs)
unfolding element_at
element_at-Finds i no_elements = nothing-At i
element_at-Finds zero (element v vs) = at_front
element_at-Finds (suc i) (element v vs) =
    Finds-map (At i vs) (At (suc i) (element v vs)) (λ w. at_behind) back (element_at i vs)
      (element_at-Finds i vs)
  where
    back : (w : Value) → At (suc i) (element v vs) w → At i vs w
    back w (at_behind h) = h

same_values : (vs ws : Values) → some (ref (array vs)) ≡ some (ref (array ws)) → vs ≡ ws
same_values vs ws e = cc

module _ (m : HashMap) where
  -- the value of a SID leads on, or nothing does
  resolve-Finds :
      (iid : InstanceIdentifier) (v : Value)
      → view m (sid iid) ≡ some (ref v)
      → Finds (LeadsTo m iid) (resolve iid v)
  unfolding resolve by_str_key by_int_key
  resolve-Finds (iid_simple s) v e = to_value e
  resolve-Finds (iid_with_str_key s key) (array vs) e =
      Finds-map (FirstWith key vs) (LeadsTo m (iid_with_str_key s key)) (λ w. to_entry e) back
        (find_element key vs) (find_element-Finds key vs)
    where
      back : (w : Value) → LeadsTo m (iid_with_str_key s key) w → FirstWith key vs w
      back w (to_entry {vs = ws} f h) =
          subst (λ l. FirstWith key l w) (same_values ws vs (sym f ∙ e)) h
  resolve-Finds (iid_with_str_key s key) _ e = λ w h. elim h [ to_entry f k ↦ cc ]
  resolve-Finds (iid_with_int_key s (pos i)) (array vs) e =
      Finds-map (At i vs) (LeadsTo m (iid_with_int_key s (pos i))) (λ w. to_element e) back
        (element_at i vs) (element_at-Finds i vs)
    where
      back : (w : Value) → LeadsTo m (iid_with_int_key s (pos i)) w → At i vs w
      back w (to_element {vs = ws} f h) = subst (λ l. At i l w) (same_values ws vs (sym f ∙ e)) h
  resolve-Finds (iid_with_int_key s (negsuc i)) _ e = λ w h. elim h [ ]
  resolve-Finds (iid_with_int_key s (pos i)) _ e = λ w h. elim h [ to_element f k ↦ cc ]

  no_value :
      (iid : InstanceIdentifier)
      → ((v : Value) → view m (sid iid) ≢ some (ref v))
      → (w : Value) → ¬ LeadsTo m iid w
  no_value _ gone w (to_value {v = v} e) = gone v e
  no_value _ gone w (to_entry {vs = vs} e h) = gone (array vs) e
  no_value _ gone w (to_element {vs = vs} e h) = gone (array vs) e

  map-Finds :
      (iid : InstanceIdentifier) (o : Option Ref)
      → view m (sid iid) ≡ o
      → Finds (LeadsTo m iid) (fetch_value_by_iid (ref (hashmap m)) iid)
  unfolding fetch_value_by_iid
  map-Finds iid none e =
      rw (fetch_value_by_iid, get_coreconf_hash_map-view m (sid iid), e)
        (no_value iid (λ v f. let g : none ≡ some (ref v) = sym e ∙ f in cc))
  map-Finds iid (some null_ref) e =
      rw (fetch_value_by_iid, get_coreconf_hash_map-view m (sid iid), e)
        (no_value iid (λ v f. let g : some null_ref ≡ some (ref v) = sym e ∙ f in cc))
  map-Finds iid (some (ref v)) e =
      rw (fetch_value_by_iid, get_coreconf_hash_map-view m (sid iid), e) (resolve-Finds iid v e)

-- `fetch_value_by_iid` finds what the identifier leads to.
fetch_value_by_iid-Finds :
    (source : Ref) (iid : InstanceIdentifier)
    → Finds (Leads source iid) (fetch_value_by_iid source iid)
unfolding fetch_value_by_iid
fetch_value_by_iid-Finds (ref (hashmap m)) iid = map-Finds m iid (view m (sid iid)) refl
fetch_value_by_iid-Finds null_ref iid = λ v h. h
fetch_value_by_iid-Finds (ref _) iid = λ v h. h

pub all-AllFound : (source : Ref) (iids : List InstanceIdentifier) → AllFound source iids
all-AllFound source [] = tt
all-AllFound source (iid ∷ iids) = (fetch_value_by_iid-Finds source iid, all-AllFound source iids)
