-- ===== src/Client/Values.antt =====
-- iot_containers/iot_apps/coreconf_cli.c: the values that the user types. A pointer into the text is
-- the rest of the text; the result is `none` where the fuel runs out.
use ccoreconf_zcbor.Common.{
  ℕ, zero, suc, ◌-◌, ◌^◌, List, [], ◌∷◌, Bool, true, false, ◌||◌, Option, none, some, leb, ◌==◌,
  if◌then◌else◌, take,
}
use ccoreconf_zcbor.Common.Text.{ascii}
use ccoreconf_zcbor.Common.Int.{ℤ, pos, negsuc}
use ccoreconf_zcbor.Value.{
  Value, HashMap, real, int_64, uint_64, null_value, hashmap, ref, create_map,
  create_coreconf_string, create_coreconf_boolean,
}
use ccoreconf_zcbor.HashMap.{insert_coreconf_hash_map}
use ccoreconf_zcbor.Fetch.Resolve.{str_eq}
use ccoreconf_zcbor.Client.Scan.{take_digits, strtoull_end}

-- `strtod` of the C library: the bits of the double and the text behind it, `none` where no number is
-- read
abbrev pub Strtod : Type 0
Strtod = List ℕ → Option (ℕ × List ℕ)

-- `while (**p == ' ') (*p)++`
unfoldable pub skip_blanks : List ℕ → List ℕ
skip_blanks [] = []
skip_blanks (c ∷ text) = if c == b' ' then skip_blanks text else c ∷ text

unfoldable pub skip_commas : List ℕ → List ℕ
skip_commas [] = []
skip_commas (c ∷ text) = if c == b' ' || c == b',' then skip_commas text else c ∷ text

unfoldable pub skip_colon : List ℕ → List ℕ
skip_colon [] = []
skip_colon (c ∷ text) = if c == b':' then text else c ∷ text

unfoldable pub skip_brace : List ℕ → List ℕ
skip_brace [] = []
skip_brace (c ∷ text) = if c == b'}' then text else c ∷ text

unfoldable pub in_front : ℕ → List ℕ × List ℕ → List ℕ × List ℕ
in_front c (token, rest) = (c ∷ token, rest)

-- the text up to a comma, a brace or the end, and the rest
unfoldable pub split_token : List ℕ → List ℕ × List ℕ
unfolding in_front
split_token [] = ([], [])
split_token (c ∷ text) =
    if c == b',' || c == b'}' then ([], c ∷ text) else in_front c (split_token text)

-- the blanks at the end
unfoldable pub trimmed : ℕ → List ℕ → List ℕ
trimmed c [] = if c == b' ' then [] else c ∷ []
trimmed c (d ∷ token) = c ∷ d ∷ token

unfoldable pub strip_blanks : List ℕ → List ℕ
unfolding trimmed
strip_blanks [] = []
strip_blanks (c ∷ token) = trimmed c (strip_blanks token)

unfoldable pub has_byte : ℕ → List ℕ → Bool
has_byte b [] = false
has_byte b (c ∷ token) = c == b || has_byte b token

unfoldable pub is_real : List ℕ → Bool
unfolding has_byte
is_real buf = has_byte b'.' buf || has_byte b'e' buf || has_byte b'E' buf

-- `strtoll` of a text that starts with a minus sign; a value that does not fit is LLONG_MIN
unfoldable pub negative : List ℕ → ℤ
unfolding take_digits
negative text =
    let n = (take_digits 0 text).0 in
    if n == 0 then pos 0 else if leb (2 ^ 63) n then negsuc (2 ^ 63 - 1) else negsuc (n - 1)

unfoldable pub unsigned : Option (ℕ × List ℕ) → ℕ
unsigned none = 0
unsigned (some (n, rest)) = n

-- a text that `strtod` reads to the end, by its first byte
unfoldable pub number_value : ℕ → ℕ → List ℕ → Value
unfolding is_real negative unsigned strtoull_end
number_value d c text =
    if is_real (c ∷ text)
    then real d
    else if c == b'-'
    then int_64 (negative text)
    else uint_64 (unsigned (strtoull_end (c ∷ text)))

unfoldable pub number_or_text : List ℕ → Option (ℕ × List ℕ) → Value
unfolding number_value create_coreconf_string
number_or_text (c ∷ text) (some (d, [])) = number_value d c text
number_or_text buf _ = create_coreconf_string buf

module _ (strtod : Strtod) where
  unfoldable pub scalar : List ℕ → Value
  unfolding number_or_text str_eq create_coreconf_boolean
  scalar buf =
      if str_eq buf (ascii "null")
      then null_value
      else if str_eq buf (ascii "true")
      then create_coreconf_boolean true
      else if str_eq buf (ascii "false")
      then create_coreconf_boolean false
      else number_or_text buf (strtod buf)

  -- behind the blanks: a map, or a token, which is cut at 255 bytes
  unfoldable pub value_at : (List ℕ → Option (Value × List ℕ)) → List ℕ → Option (Value × List ℕ)
  unfolding scalar split_token strip_blanks
  value_at parse_map [] = some (scalar [], [])
  value_at parse_map (c ∷ text) = elim (c == b'{') [
    | true ↦ parse_map text
    | false ↦
        let (token, rest) = split_token (c ∷ text) in
        some (scalar (strip_blanks (take 255 token)), rest)
  ]

  unfoldable pub insert_parsed :
      (HashMap → List ℕ → Option (Value × List ℕ))
      → HashMap
      → ℕ
      → Option (Value × List ℕ)
      → Option (Value × List ℕ)
  unfolding skip_blanks insert_coreconf_hash_map
  insert_parsed go_on map key none = none
  insert_parsed go_on map key (some (val, rest)) =
      go_on (insert_coreconf_hash_map map key (ref val)).0 (skip_blanks rest)

  -- a round of the loop, with the key at the front of the text: `none` is a `break`
  unfoldable pub map_key :
      (List ℕ → Option (Value × List ℕ))
      → (HashMap → List ℕ → Option (Value × List ℕ))
      → HashMap
      → List ℕ
      → Option (ℕ × List ℕ)
      → Option (Value × List ℕ)
  unfolding skip_brace skip_blanks skip_colon insert_parsed
  map_key parse_value go_on map text none = some (hashmap map, skip_brace text)
  map_key parse_value go_on map text (some (key, rest)) =
      insert_parsed go_on map key (parse_value (skip_blanks (skip_colon (skip_blanks rest))))

  unfoldable mutual
    unfolding value_at map_key skip_blanks skip_commas strtoull_end create_map

    pub parse_value_ptr : ℕ → List ℕ → Option (Value × List ℕ)
    parse_value_ptr zero text = none
    parse_value_ptr (suc fuel) text = value_at (parse_map_ptr fuel create_map) (skip_blanks text)

    -- the loop, with the map that is built so far
    pub parse_map_ptr : ℕ → HashMap → List ℕ → Option (Value × List ℕ)
    parse_map_ptr zero map text = none
    parse_map_ptr (suc fuel) map [] = some (hashmap map, [])
    parse_map_ptr (suc fuel) map (c ∷ text) = elim (c == b'}') [
      | true ↦ some (hashmap map, text)
      | false ↦
          map_key (parse_value_ptr fuel) (parse_map_ptr fuel) map (skip_commas (c ∷ text))
            (strtoull_end (skip_commas (c ∷ text)))
    ]

  -- `none` where the fuel runs out
  unfoldable pub parse_value : ℕ → List ℕ → Option Value
  unfolding parse_value_ptr
  parse_value fuel text = elim (parse_value_ptr fuel text) [ none ↦ none | some (v, rest) ↦ some v ]
