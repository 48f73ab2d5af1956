-- ===== src/Server/Leads.antt =====
-- iot_containers/iot_apps/coreconf_server.c: what the identifiers of a FETCH lead to in the datastore.
use ccoreconf_zcbor.Common.{
  ℕ, suc, ◌+◌, ◌-◌, ◌≤◌, ◌≡◌, ◌≢◌, refl, sym, ◌∙◌, List, [], ◌∷◌, Option, none, some, inl, inr,
  Bool-cases, leb, arith,
}
use mathlib.Core.Path.{subst}
use ccoreconf_zcbor.Value.{
  Value, Values, Ref, Chain, Table, HashMap, array, hashmap, no_elements, element, null_ref, ref,
  chain_end, object, no_buckets, bucket, table,
}
use ccoreconf_zcbor.HashMap.{get_coreconf_hash_map}
use ccoreconf_zcbor.HashMap.Buckets.{view}
use ccoreconf_zcbor.HashMap.Lookup.{get_coreconf_hash_map-view}
use ccoreconf_zcbor.Fetch.Resolve.{element_has, element_at}
use ccoreconf_zcbor.Fetch.Leads.{
  HasText, FirstWith, first, not_first, Finds, Finds-map, element_has-Tells,
}
use ccoreconf_zcbor.Server.Fetch.{
  Iid, iid_scalar, iid_list, fetch_find_from, fetch_find_list_entry, leaf_under, first_found,
  leaf_in_chain, leaf_in_table, scalar_value, entry_at, list_value,
}

-- the objects of a map, in the order of its buckets
abbrev pub chain_objects : Chain → List (ℕ × Ref) → List (ℕ × Ref)
chain_objects chain_end later = later
chain_objects (object k r c) later = (k, r) ∷ chain_objects c later

abbrev pub objects : Table → List (ℕ × Ref)
objects no_buckets = []
objects (bucket c t) = chain_objects c (objects t)

-- The object is a map under a key that is not above the SID, and has the value under the difference.
abbrev pub LeafUnder : ℕ → ℕ → Ref → Value → Type 0
LeafUnder sid k r v =
    (m : HashMap) × (r ≡ ref (hashmap m)) × (k ≤ sid) × (view m (sid - k) ≡ some (ref v))

-- the leaf under the first object that has one
pub data FirstLeaf (sid : ℕ) : List (ℕ × Ref) → Value → Type 0 where
  leaf_here :
      {k : ℕ} {r : Ref} {os : List (ℕ × Ref)} {v : Value}
      → LeafUnder sid k r v
      → FirstLeaf sid ((k, r) ∷ os) v
  leaf_later :
      {k : ℕ} {r : Ref} {os : List (ℕ × Ref)} {v : Value}
      → ((w : Value) → ¬ LeafUnder sid k r w)
      → FirstLeaf sid os v
      → FirstLeaf sid ((k, r) ∷ os) v

-- what an identifier leads to
pub data IidLeads (m : HashMap) : Iid → Value → Type 0 where
  to_value : {sid : ℕ} {v : Value} → view m sid ≡ some (ref v) → IidLeads m (iid_scalar sid) v
  to_leaf :
      {sid : ℕ} {v : Value}
      → ((w : Value) → view m sid ≢ some (ref w))
      → FirstLeaf sid (objects (table m)) v
      → IidLeads m (iid_scalar sid) v
  to_entry :
      {sid : ℕ} {key : List ℕ} {vs : Values} {v : Value}
      → view m sid ≡ some (ref (array vs))
      → FirstWith key vs v
      → IidLeads m (iid_list sid key) v

-- what the code finds for an identifier
abbrev pub iid_value : HashMap → Iid → Option Value
iid_value m (iid_scalar sid) = scalar_value m sid
iid_value m (iid_list sid key) = list_value (get_coreconf_hash_map m sid) key

abbrev pub AllLead : HashMap → List Iid → Type 0
AllLead m [] = Unit
AllLead m (iid ∷ iids) = Finds (IidLeads m iid) (iid_value m iid) × AllLead m iids

-- A look-up finds the value that is there.
pub get-Finds :
    (m : HashMap) (q : ℕ) → Finds (λ v. view m q ≡ some (ref v)) (get_coreconf_hash_map m q)
get-Finds m q = by_view (view m q) refl
  where
    by_view :
        (o : Option Ref)
        → view m q ≡ o
        → Finds (λ v. view m q ≡ some (ref v)) (get_coreconf_hash_map m q)
    by_view none e = rw (get_coreconf_hash_map-view m q, e) (λ v f. cc)
    by_view (some null_ref) e = rw (get_coreconf_hash_map-view m q, e) (λ v f. cc)
    by_view (some (ref v)) e = rw (get_coreconf_hash_map-view m q, e) refl

module _ (sid : ℕ) where
  leaf_under-Finds : (k : ℕ) (r : Ref) → Finds (LeafUnder sid k r) (leaf_under sid k r)
  unfolding leaf_under
  leaf_under-Finds k (ref (hashmap m)) = elim (Bool-cases (leb k sid)) [
    | inl below ↦
        let order : k ≤ sid = ground (arith, below) in
        rw below (
          Finds-map (λ v. view m (sid - k) ≡ some (ref v)) (LeafUnder sid k (ref (hashmap m)))
            (λ v e. (m, refl, order, e)) back (get_coreconf_hash_map m (sid - k))
            (get-Finds m (sid - k)))
    | inr above ↦ rw above (λ v h. ground (arith, above, h.2))
  ]
    where
      back : (v : Value) → LeafUnder sid k (ref (hashmap m)) v → view m (sid - k) ≡ some (ref v)
      back v (m', same, order, e) =
          let maps : m' ≡ m = cc in subst (λ n. view n (sid - k) ≡ some (ref v)) maps e
  leaf_under-Finds k null_ref = λ v h. let e = h.1 in cc
  leaf_under-Finds k (ref _) = λ v h. let e = h.1 in cc

  -- in front of the objects that follow
  step-Finds :
      (k : ℕ) (r : Ref) (os : List (ℕ × Ref)) (o later : Option Value)
      → Finds (LeafUnder sid k r) o
      → Finds (FirstLeaf sid os) later
      → Finds (FirstLeaf sid ((k, r) ∷ os)) (first_found o later)
  unfolding first_found
  step-Finds k r os (some v) later here below = leaf_here here
  step-Finds k r os none later here below =
      Finds-map (FirstLeaf sid os) (FirstLeaf sid ((k, r) ∷ os)) (λ v. leaf_later here) back later
        below
    where
      back : (v : Value) → FirstLeaf sid ((k, r) ∷ os) v → FirstLeaf sid os v
      back v (leaf_here h) = absurd (here v h)
      back v (leaf_later n h) = h

  first_found_assoc :
      (a b c : Option Value) → first_found (first_found a b) c ≡ first_found a (first_found b c)
  unfolding first_found
  first_found_assoc none b c = refl
  first_found_assoc (some v) b c = refl

  chain-Finds :
      (c : Chain) (os : List (ℕ × Ref)) (later : Option Value)
      → Finds (FirstLeaf sid os) later
      → Finds (FirstLeaf sid (chain_objects c os)) (first_found (leaf_in_chain sid c) later)
  unfolding leaf_in_chain
  chain-Finds chain_end os later h = unfold first_found in h
  chain-Finds (object k r c) os later h =
      rw (leaf_in_chain, first_found_assoc (leaf_under sid k r) (leaf_in_chain sid c) later)
        (step-Finds k r (chain_objects c os) (leaf_under sid k r) _ (leaf_under-Finds k r)
          (chain-Finds c os later h))

  table-Finds : (t : Table) → Finds (FirstLeaf sid (objects t)) (leaf_in_table sid t)
  unfolding leaf_in_table
  table-Finds no_buckets = λ v h. elim h [ ]
  table-Finds (bucket c t) = chain-Finds c (objects t) (leaf_in_table sid t) (table-Finds t)

-- the index, counted from `i`, of the first element with the text
abbrev Index : ℕ → List ℕ → Values → Option ℕ → Type 0
Index i key vs none = (w : Value) → ¬ FirstWith key vs w
Index i key vs (some j) =
    (k : ℕ) × (v : Value) × (j ≡ i + k) × (element_at k vs ≡ some v) × FirstWith key vs v

fetch_find_from-Index :
    (i : ℕ) (key : List ℕ) (vs : Values) → Index i key vs (fetch_find_from i key vs)
unfolding fetch_find_from element_at
fetch_find_from-Index i key no_elements = λ w h. elim h [ ]
fetch_find_from-Index i key (element v vs) =
    let told = element_has-Tells key v in
    elim (Bool-cases (element_has key v)) [
      | inl hit ↦ rw hit (0, v, omega arith, refl, first (rw hit at told))
      | inr miss ↦ rw miss (
          deeper (rw miss at told) (fetch_find_from (i + 1) key vs)
            (fetch_find_from-Index (i + 1) key vs))
    ]
  where
    neither :
        ¬ HasText key v
        → ((w : Value) → ¬ FirstWith key vs w)
        → (w : Value) → ¬ FirstWith key (element v vs) w
    neither n below w (first h) = n h
    neither n below w (not_first m h) = below w h

    deeper :
        ¬ HasText key v → (o : Option ℕ) → Index (i + 1) key vs o → Index i key (element v vs) o
    deeper n none h = neither n h
    deeper n (some j) (k, w, at, there, h) = (suc k, w, omega (arith, at), there, not_first n h)

entry_at-Finds :
    (key : List ℕ) (vs : Values) (o : Option ℕ)
    → Index 0 key vs o
    → Finds (FirstWith key vs) (entry_at vs o)
unfolding entry_at
entry_at-Finds key vs none h = h
entry_at-Finds key vs (some j) (k, v, at, there, h) =
    let same : j ≡ k = omega (arith, at) in rw (same, there) h

same_array : (vs ws : Values) → some (ref (array vs)) ≡ some (ref (array ws)) → vs ≡ ws
same_array vs ws e = cc

module _ (m : HashMap) where
  scalar_value-Finds :
      (sid : ℕ) (o : Option Value)
      → Finds (λ v. view m sid ≡ some (ref v)) o
      → Finds (IidLeads m (iid_scalar sid)) (first_found o (leaf_in_table sid (table m)))
  unfolding first_found
  scalar_value-Finds sid (some v) h = to_value h
  scalar_value-Finds sid none h =
      Finds-map (FirstLeaf sid (objects (table m))) (IidLeads m (iid_scalar sid)) (λ v. to_leaf h)
        back (leaf_in_table sid (table m)) (table-Finds sid (table m))
    where
      back : (v : Value) → IidLeads m (iid_scalar sid) v → FirstLeaf sid (objects (table m)) v
      back v (to_value e) = absurd (h v e)
      back v (to_leaf n l) = l

  list_value-Finds :
      (sid : ℕ) (key : List ℕ) (o : Option Value)
      → Finds (λ v. view m sid ≡ some (ref v)) o
      → Finds (IidLeads m (iid_list sid key)) (list_value o key)
  unfolding list_value fetch_find_list_entry
  list_value-Finds sid key (some (array vs)) e =
      Finds-map (FirstWith key vs) (IidLeads m (iid_list sid key)) (λ w. to_entry e) back _
        (entry_at-Finds key vs _ (fetch_find_from-Index 0 key vs))
    where
      back : (w : Value) → IidLeads m (iid_list sid key) w → FirstWith key vs w
      back w (to_entry {vs = ws} f h) =
          subst (λ l. FirstWith key l w) (same_array ws vs (sym f ∙ e)) h
  list_value-Finds sid key none h = nowhere
    where
      nowhere : (w : Value) → ¬ IidLeads m (iid_list sid key) w
      nowhere w (to_entry {vs = vs} f k) = h (array vs) f
  list_value-Finds sid key (some _) e = λ w h. elim h [ to_entry f k ↦ cc ]

  pub all-AllLead : (iids : List Iid) → AllLead m iids
  unfolding scalar_value
  all-AllLead [] = tt
  all-AllLead (iid_scalar sid ∷ iids) =
      (scalar_value-Finds sid (get_coreconf_hash_map m sid) (get-Finds m sid), all-AllLead iids)
  all-AllLead (iid_list sid key ∷ iids) =
      (list_value-Finds sid key (get_coreconf_hash_map m sid) (get-Finds m sid), all-AllLead iids)
