-- ===== src/Client/Parsed.antt =====
-- iot_containers/iot_apps/coreconf_cli.c: what the user types is parsed to its end.
use ccoreconf_zcbor.Common.{
  take, ℕ, zero, suc, ◌≤◌, ◌<◌, ◌≡◌, refl, List, [], ◌∷◌, Option, none, some, inl, inr, Bool-cases,
  ◌==◌, length, arith,
}
use ccoreconf_zcbor.Common.Text.{ascii}
use ccoreconf_zcbor.Value.{Value, HashMap, ref, create_map, create_coreconf_boolean}
use ccoreconf_zcbor.HashMap.{insert_coreconf_hash_map}
use ccoreconf_zcbor.Fetch.Resolve.{str_eq}
use ccoreconf_zcbor.Serialization.Bytes.{IsComplete, MapIsComplete}
use ccoreconf_zcbor.Client.Scan.{strtoull_end}
use ccoreconf_zcbor.Client.Values.{
  Strtod, skip_blanks, skip_commas, skip_colon, is_real, number_value, number_or_text, split_token,
  strip_blanks, scalar, value_at, insert_parsed, map_key, parse_value_ptr, parse_map_ptr,
  parse_value,
}
use ccoreconf_zcbor.Client.Complete.{create_map-Complete, insert-Complete}
use ccoreconf_zcbor.Client.Shorter.{
  Shorter, strtoull_end-Shorter, length-skip_blanks, length-skip_commas, length-skip_colon,
  length-skip_brace, length-split_token,
}

-- A value without NULL pointers inside, and a rest of `n` bytes at most.
abbrev pub Parses : ℕ → Option (Value × List ℕ) → Type 0
Parses n none = ⊥
Parses n (some (v, rest)) = IsComplete v × (length rest ≤ n)

Parses-weaken : (m n : ℕ) (o : Option (Value × List ℕ)) → m ≤ n → Parses m o → Parses n o
Parses-weaken m n none h k = k
Parses-weaken m n (some (v, rest)) h k = (k.0, omega (arith, k.1, h))

number_or_text-IsComplete :
    (buf : List ℕ) (o : Option (ℕ × List ℕ)) → IsComplete (number_or_text buf o)
unfolding number_or_text number_value IsComplete
number_or_text-IsComplete [] o = tt
number_or_text-IsComplete (c ∷ text) none = tt
number_or_text-IsComplete (c ∷ text) (some (d, e ∷ rest)) = tt
number_or_text-IsComplete (c ∷ text) (some (d, [])) = elim (Bool-cases (is_real (c ∷ text))) [
  | inl dot ↦ rw dot tt
  | inr whole ↦ elim (Bool-cases (c == b'-')) [
    | inl minus ↦ rw (whole, minus) tt
    | inr plus ↦ rw (whole, plus) tt
  ]
]

module _ (strtod : Strtod) where
  scalar-IsComplete : (buf : List ℕ) → IsComplete (scalar strtod buf)
  unfolding scalar create_coreconf_boolean IsComplete
  scalar-IsComplete buf = elim (Bool-cases (str_eq buf (ascii "null"))) [
    | inl c0 ↦ rw c0 tt
    | inr c0 ↦ elim (Bool-cases (str_eq buf (ascii "true"))) [
      | inl c1 ↦ rw (c0, c1) tt
      | inr c1 ↦ elim (Bool-cases (str_eq buf (ascii "false"))) [
        | inl c2 ↦ rw (c0, c1, c2) tt
        | inr c2 ↦ rw (c0, c1, c2) (number_or_text-IsComplete buf (strtod buf))
      ]
    ]
  ]

  value_at-Parses :
      (parse_map : List ℕ → Option (Value × List ℕ)) (text : List ℕ)
      → ((t : List ℕ) → length t < length text → Parses (length t) (parse_map t))
      → Parses (length text) (value_at strtod parse_map text)
  unfolding value_at
  value_at-Parses parse_map [] h = (scalar-IsComplete [], omega arith)
  value_at-Parses parse_map (c ∷ text) h = elim (Bool-cases (c == b'{')) [
    | inl brace ↦
        rw (brace, value_at) (Parses-weaken (length text) _ _ (omega arith) (h text (omega arith)))
    | inr token ↦
        rw (token, value_at)
          (
            scalar-IsComplete (strip_blanks (take 255 (split_token (c ∷ text)).0)),
            length-split_token (c ∷ text),
          )
  ]

  insert_parsed-Parses :
      (go_on : HashMap → List ℕ → Option (Value × List ℕ)) (map : HashMap) (key n : ℕ)
      (o : Option (Value × List ℕ))
      → MapIsComplete map
      → Parses n o
      → ((m : HashMap) (t : List ℕ)
          → MapIsComplete m
          → length t ≤ n
          → Parses (length t) (go_on m t))
      → Parses n (insert_parsed strtod go_on map key o)
  unfolding insert_parsed
  insert_parsed-Parses go_on map key n none h k again = absurd k
  insert_parsed-Parses go_on map key n (some (val, rest)) h k again =
      let shorter = length-skip_blanks rest in
      Parses-weaken (length (skip_blanks rest)) n _ (omega (arith, k.1)) (
        again (insert_coreconf_hash_map map key (ref val)).0 (skip_blanks rest)
          (insert-Complete map key val h k.0) (omega (arith, k.1)))

  map_key-Parses :
      (parse_value : List ℕ → Option (Value × List ℕ))
      (go_on : HashMap → List ℕ → Option (Value × List ℕ)) (map : HashMap) (text : List ℕ)
      (o : Option (ℕ × List ℕ))
      → MapIsComplete map
      → Shorter (length text) o
      → ((t : List ℕ) → length t < length text → Parses (length t) (parse_value t))
      → ((m : HashMap) (t : List ℕ)
          → MapIsComplete m
          → length t < length text
          → Parses (length t) (go_on m t))
      → Parses (length text) (map_key strtod parse_value go_on map text o)
  unfolding map_key IsComplete
  map_key-Parses parse_value go_on map text none h k values again = (h, length-skip_brace text)
  map_key-Parses parse_value go_on map text (some (key, rest)) h k values again =
      let t = skip_blanks (skip_colon (skip_blanks rest)) in
      let a = length-skip_blanks rest in
      let b = length-skip_colon (skip_blanks rest) in
      let c = length-skip_blanks (skip_colon (skip_blanks rest)) in
      let less : length t < length text = omega (arith, k) in
      Parses-weaken (length t) (length text) _ (omega arith) (
        insert_parsed-Parses go_on map key (length t) (parse_value t) h (values t less)
          (λ m u hm hu. again m u hm (omega (arith, hu, less))))

  mutual
    unfolding parse_value_ptr IsComplete

    pub parse_value_ptr-Parses :
        (fuel : ℕ) (text : List ℕ)
        → length text < fuel
        → Parses (length text) (parse_value_ptr strtod fuel text)
    parse_value_ptr-Parses zero text h = absurd (omega arith)
    parse_value_ptr-Parses (suc fuel) text h =
        let shorter = length-skip_blanks text in
        Parses-weaken (length (skip_blanks text)) _ _ (omega arith) (
          value_at-Parses (parse_map_ptr strtod fuel create_map) (skip_blanks text) (λ t k.
            parse_map_ptr-Parses fuel create_map t create_map-Complete
              (omega (arith, k, h, shorter))))

    pub parse_map_ptr-Parses :
        (fuel : ℕ) (map : HashMap) (text : List ℕ)
        → MapIsComplete map
        → length text < fuel
        → Parses (length text) (parse_map_ptr strtod fuel map text)
    parse_map_ptr-Parses zero map text hm h = absurd (omega arith)
    parse_map_ptr-Parses (suc fuel) map [] hm h = (hm, omega arith)
    parse_map_ptr-Parses (suc fuel) map (c ∷ text) hm h = elim (Bool-cases (c == b'}')) [
      | inl ends ↦ rw (ends, parse_map_ptr) (hm, omega arith)
      | inr more ↦
          let t = skip_commas (c ∷ text) in
          let shorter = length-skip_commas (c ∷ text) in
          rw (more, parse_map_ptr)
            (Parses-weaken (length t) _ _ (omega arith) (
              map_key-Parses (parse_value_ptr strtod fuel) (parse_map_ptr strtod fuel) map t
                (strtoull_end t) hm (strtoull_end-Shorter t)
                (λ u k. parse_value_ptr-Parses fuel u (omega (arith, k, h, shorter)))
                (λ m u hu k. parse_map_ptr-Parses fuel m u hu (omega (arith, k, h, shorter)))))
    ]

  -- A text that the user types is parsed to a value without NULL pointers inside, whatever it is: fuel
  -- of one unit more than its bytes is enough, for maps inside of maps as well.
  pub parse_value-IsComplete :
      (fuel : ℕ) (text : List ℕ)
      → length text < fuel
      → (v : Value) × (parse_value strtod fuel text ≡ some v) × IsComplete v
  unfolding parse_value
  parse_value-IsComplete fuel text h = at _ refl (parse_value_ptr-Parses fuel text h)
    where
      at :
          (o : Option (Value × List ℕ))
          → parse_value_ptr strtod fuel text ≡ o
          → Parses (length text) o
          → (v : Value) × (parse_value strtod fuel text ≡ some v) × IsComplete v
      at none e k = absurd k
      at (some (v, rest)) e k = (v, rw (parse_value, e) refl, k.0)
