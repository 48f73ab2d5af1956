-- ===== src/Delete/Query.antt =====
-- src/delete.c: the loop of `parse_delete_query` against a reading of the query field by field.
use ccoreconf_zcbor.Common.{
  ℕ, zero, suc, ◌≤◌, ◌<◌, ◌≡◌, refl, sym, ap, ◌⊎◌, List, [], ◌∷◌, true, false, Option, none, some,
  ◌==◌, if◌then◌else◌, length, take, inl, inr, Bool-cases, Option-cases, arith,
}
use mathlib.Core.Path.{subst}
use native.Mathlib.Numerals.{unary_clauses}
use ccoreconf_zcbor.Delete.{
  split_at, is_k, strtoull, or_end, prepend, slots_left, value_round, key_round, query_round,
  query_loop, parse_delete_query,
}

unfoldable pub cons_first : ℕ → List (List ℕ) → List (List ℕ)
cons_first b [] = (b ∷ []) ∷ []
cons_first b (f ∷ fs) = (b ∷ f) ∷ fs

-- The fields of a query, between its ampersands.
unfoldable pub fields : List ℕ → List (List ℕ)
unfolding cons_first
fields [] = [] ∷ []
fields (b ∷ bs) = if b == b'&' then [] ∷ fields bs else cons_first b (fields bs)

unfoldable pub sid_of : List ℕ → Option (List ℕ) → Option ℕ
sid_of key none = none
sid_of key (some val) = if is_k key then strtoull val else none

-- The SID of a field `k=...`, if it has one.
unfoldable pub field_sid : List ℕ → Option ℕ
unfolding sid_of
field_sid f = sid_of (split_at b'=' f).0 (split_at b'=' f).1

unfoldable pub cons_some : Option ℕ → List ℕ → List ℕ
cons_some none sids = sids
cons_some (some s) sids = s ∷ sids

unfoldable pub field_sids : List (List ℕ) → List ℕ
unfolding cons_some
field_sids [] = []
field_sids (f ∷ fs) = cons_some (field_sid f) (field_sids fs)

-- The fields are the first one and, behind an ampersand, those of the rest.
abbrev rest_fields : Option (List ℕ) → List (List ℕ)
rest_fields none = []
rest_fields (some bs) = fields bs

fields-split_at :
    (bs : List ℕ) → fields bs ≡ (split_at b'&' bs).0 ∷ rest_fields (split_at b'&' bs).1
unfolding fields split_at
fields-split_at [] = refl
fields-split_at (b ∷ bs) = elim (Bool-cases (b == b'&')) [
  | inl e ↦ rw (e) refl
  | inr e ↦ rw (e, fields-split_at bs) (unfold cons_first in refl)
]

field_sids-or_end :
    (o : Option (List ℕ)) → field_sids (rest_fields o) ≡ field_sids (fields (or_end o))
unfolding or_end
field_sids-or_end none = unfold field_sids fields field_sid split_at sid_of in refl
field_sids-or_end (some bs) = refl

length-split_at : (b : ℕ) (bs : List ℕ) → length (or_end (split_at b bs).1) ≤ length bs
unfolding split_at or_end
length-split_at b [] = omega arith
length-split_at b (c ∷ bs) = ground (arith, length-split_at b bs)

-- Behind the first byte the rest is shorter.
length-split_at_lt :
    (b c : ℕ) (bs : List ℕ) → length (or_end (split_at b (c ∷ bs)).1) < length (c ∷ bs)
unfolding split_at or_end
length-split_at_lt b c bs = ground (arith, length-split_at b bs)

-- With no `=` there is no SID in any field.
abbrev NoEquals : List (List ℕ) → Type 0
NoEquals [] = Unit
NoEquals (f ∷ fs) = ((split_at b'=' f).1 ≡ none) × NoEquals fs

cons_first-NoEquals :
    (b : ℕ) (fs : List (List ℕ)) → (b == b'=') ≡ false → NoEquals fs → NoEquals (cons_first b fs)
unfolding cons_first split_at
cons_first-NoEquals b [] other h = ground arith
cons_first-NoEquals b (f ∷ fs) other h = (ground (arith, h.0), h.1)

fields-NoEquals : (bs : List ℕ) → (split_at b'=' bs).1 ≡ none → NoEquals (fields bs)
unfolding fields split_at
fields-NoEquals [] h = (refl, tt)
fields-NoEquals (b ∷ bs) h =
    let other : (b == b'=') ≡ false = ground arith in
    let rest = fields-NoEquals bs (ground arith) in
    elim (Bool-cases (b == b'&')) [
      | inl e ↦ rw e (refl, rest)
      | inr e ↦ rw e (cons_first-NoEquals b (fields bs) other rest)
    ]

field_sids-NoEquals : (fs : List (List ℕ)) → NoEquals fs → field_sids fs ≡ []
unfolding field_sids field_sid
field_sids-NoEquals [] h = refl
field_sids-NoEquals (f ∷ fs) h = rw (h.0, field_sids-NoEquals fs h.1)

-- A key that is just `k` stands at the front.
is_k-split_at :
    (tok val : List ℕ)
    → (split_at b'=' tok).1 ≡ some val
    → is_k (split_at b'=' tok).0 ≡ true
    → tok ≡ b'k' ∷ b'=' ∷ val
unfolding split_at is_k
is_k-split_at [] val h k = cc
is_k-split_at (c ∷ []) val h k = ground arith
is_k-split_at (c ∷ d ∷ bs) val h k = ground arith

-- The first field has the key of the whole, or no key.
front_key :
    (tok : List ℕ)
    → ((split_at b'=' (split_at b'&' tok).0).1 ≡ none)
      ⊎ ((split_at b'=' (split_at b'&' tok).0).0 ≡ (split_at b'=' tok).0)
unfolding split_at
front_key [] = inl refl
front_key (b ∷ bs) = elim (Bool-cases (b == b'&')) [
  | inl e ↦ rw e (inl refl)
  | inr e ↦ rw e (elim (Bool-cases (b == b'=')) [
    | inl e' ↦ rw e' (inr refl)
    | inr e' ↦ rw e' (elim (front_key bs) [ inl p ↦ inl p | inr p ↦ inr (ap (λ k. b ∷ k) p) ])
  ])
]

front-no_sid :
    (tok val : List ℕ)
    → (split_at b'=' tok).1 ≡ some val
    → is_k (split_at b'=' tok).0 ≡ false
    → field_sid (split_at b'&' tok).0 ≡ none
unfolding field_sid
front-no_sid tok val h k = elim (front_key tok) [
  | inl p ↦ rw p
  | inr p ↦ rw p (no_sid (split_at b'=' (split_at b'&' tok).0).1)
]
  where
    no_sid : (o : Option (List ℕ)) → sid_of (split_at b'=' tok).0 o ≡ none
    no_sid none = refl
    no_sid (some v) = rw k

-- What a round is, from the fields of what is left.
abbrev Round : List ℕ → Option (Option ℕ × List ℕ) → Type 0
Round tok none = field_sids (fields tok) ≡ []
Round tok (some (sid, tok')) =
    (field_sids (fields tok) ≡ cons_some sid (field_sids (fields tok')))
    × (length tok' < length tok)

value_round-Round : (val : List ℕ) → Round (b'k' ∷ b'=' ∷ val) (some (value_round val))
unfolding value_round field_sids field_sid is_k
value_round-Round val = (
  rw (fields-split_at (b'k' ∷ b'=' ∷ val))
      (ap (cons_some (strtoull (split_at b'&' val).0)) (field_sids-or_end (split_at b'&' val).1)),
  omega (arith, length-split_at b'&' val),
)

module _ (tok key val : List ℕ) where
  key_round-k : is_k key ≡ true → tok ≡ b'k' ∷ b'=' ∷ val → Round tok (key_round tok key (some val))
  unfolding key_round
  key_round-k k e =
      rw k (subst (λ t. Round t (some (value_round val))) (sym e) (value_round-Round val))

  key_round-other :
      is_k key ≡ false
      → field_sid (split_at b'&' tok).0 ≡ none
      → length (or_end (split_at b'&' tok).1) < length tok
      → Round tok (key_round tok key (some val))
  unfolding key_round field_sids
  key_round-other k no_sid shorter =
      rw k (rw (fields-split_at tok, no_sid) (field_sids-or_end (split_at b'&' tok).1), shorter)

key_round-Round :
    (b : ℕ) (bs : List ℕ) (o : Option (List ℕ))
    → (split_at b'=' (b ∷ bs)).1 ≡ o
    → Round (b ∷ bs) (key_round (b ∷ bs) (split_at b'=' (b ∷ bs)).0 o)
key_round-Round b bs none h = unfold key_round in field_sids-NoEquals _ (fields-NoEquals (b ∷ bs) h)
key_round-Round b bs (some val) h =
    let tok = b ∷ bs in
    let key = (split_at b'=' tok).0 in
    elim (Bool-cases (is_k key)) [
      | inl k ↦ key_round-k tok key val k (is_k-split_at tok val h k)
      | inr k ↦
          key_round-other tok key val k (front-no_sid tok val h k) (length-split_at_lt b'&' b bs)
    ]

prepend-take :
    (sid : Option ℕ) (slots : ℕ) (sids : List ℕ)
    → prepend sid (some (take (slots_left sid (suc slots)) sids))
      ≡ some (take (suc slots) (cons_some sid sids))
unfolding prepend slots_left cons_some
prepend-take none slots sids = refl
prepend-take (some s) slots sids = simp unary_clauses

take-nil : (n : ℕ) → take {A = ℕ} n [] ≡ []
take-nil zero = refl
take-nil (suc n) = refl

no_fields : field_sids (fields []) ≡ []
unfolding field_sids fields field_sid split_at
no_fields = refl

query_round-Round : (b : ℕ) (bs : List ℕ) → Round (b ∷ bs) (query_round (b ∷ bs))
unfolding query_round
query_round-Round b bs = key_round-Round b bs (split_at b'=' (b ∷ bs)).1 refl

query_loop-fields :
    (fuel : ℕ) (tok : List ℕ) (slots : ℕ)
    → length tok ≤ fuel
    → query_loop fuel tok slots ≡ some (take slots (field_sids (fields tok)))
unfolding query_loop
query_loop-fields fuel [] slots h = rw (no_fields, take-nil slots) refl
query_loop-fields fuel (b ∷ bs) zero h = refl
query_loop-fields zero (b ∷ bs) (suc slots) h = absurd (omega arith)
query_loop-fields (suc fuel) (b ∷ bs) (suc slots) h = elim (Option-cases (query_round (b ∷ bs))) [
  | inl e ↦ rw (e, query_loop, (rw e at (query_round-Round b bs)))
  | inr ((sid, tok), e) ↦
      let (same, shorter) = rw e at (query_round-Round b bs) in
      rw
        (e, query_loop, query_loop-fields fuel tok (slots_left sid (suc slots)) (omega arith), same)
        (prepend-take sid slots (field_sids (fields tok)))
]

-- The first 511 bytes of a query are read field by field, ampersand to ampersand: the result is
-- the SIDs of the fields `k=...` whose value starts with a number, in order, as many as the output
-- array holds.
pub parse_delete_query-fields :
    (query : List ℕ) (max_sids : ℕ)
    → parse_delete_query (some query) (some max_sids)
      ≡ some (take max_sids (field_sids (fields (take 511 query))))
unfolding parse_delete_query
parse_delete_query-fields query max_sids =
    query_loop-fields (length (take 511 query)) (take 511 query) max_sids (omega arith)
