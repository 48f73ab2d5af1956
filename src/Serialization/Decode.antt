-- ===== src/Serialization/Decode.antt =====
-- src/serialization.c: `cborToCoreconfValue`, `_parse_array` and `_parse_map`.
use ccoreconf_zcbor.Common.{
  ℕ, zero, suc, ◌+◌, List, [], ◌∷◌, Bool, true, false, Option, none, some, ltb, if◌then◌else◌,
}
use mathlib.Core.Option
use ccoreconf_zcbor.Zcbor.{
  Decoder, MajorType, pint, nint, bstr, tstr, list, map, simple, major_type,
}
use ccoreconf_zcbor.Value.{
  Value, Values, HashMap, array, real, int_64, uint_64, null_value, hashmap, ref, no_elements,
  element, create_coreconf_string, create_coreconf_boolean, create_map, coreconf_max_depth,
  coreconf_max_loop,
}
use ccoreconf_zcbor.HashMap.{insert_coreconf_hash_map}

-- `addToCoreconfArray` puts the value behind the others.
unfoldable pub add_to_coreconf_array : Values → Value → Values
add_to_coreconf_array no_elements v = element v no_elements
add_to_coreconf_array (element w ws) v = element w (add_to_coreconf_array ws v)

unfoldable pub add_decoded : Values → Option Value → Values
add_decoded vs none = vs
add_decoded vs (some v) = add_to_coreconf_array vs v

-- The result of the insertion is dropped.
unfoldable pub insert_decoded : HashMap → ℕ → Option Value → HashMap
insert_decoded m key none = m
insert_decoded m key (some v) = (insert_coreconf_hash_map m key (ref v)).0

module _ (zcbor : Decoder) where
  open zcbor use {
    State, payload, uint64_decode, int64_decode, float64_decode, bstr_decode, tstr_decode,
    bool_decode, nil_expect, list_start_decode, list_end_decode, map_start_decode, map_end_decode,
    array_at_end,
  }

  -- The outer `none` is a run that the fuel does not cover; the inner one is NULL.
  abbrev pub Decoded : Type 0 → Type 0
  Decoded A = Option (State × A)

  -- floats, booleans and null are tried in turn
  unfoldable pub expect_nil : State × Bool → State × Option Value
  expect_nil (s, true) = (s, some null_value)
  expect_nil (s, false) = (s, none)

  unfoldable pub or_nil : State × Option Bool → State × Option Value
  unfolding expect_nil
  or_nil (s, some b) = (s, some (create_coreconf_boolean b))
  or_nil (s, none) = expect_nil (nil_expect s)

  unfoldable pub or_bool : State × Option ℕ → State × Option Value
  unfolding or_nil
  or_bool (s, some d) = (s, some (real d))
  or_bool (s, none) = or_nil (bool_decode s)

  -- the cases that call no further parser
  unfoldable pub decode_plain : MajorType → State → State × Option Value
  unfolding or_bool
  decode_plain pint s = let (s', o) = uint64_decode s in (s', Option.map uint_64 o)
  decode_plain nint s = let (s', o) = int64_decode s in (s', Option.map int_64 o)
  decode_plain bstr s = let (s', o) = bstr_decode s in (s', Option.map create_coreconf_string o)
  decode_plain tstr s = let (s', o) = tstr_decode s in (s', Option.map create_coreconf_string o)
  decode_plain simple s = or_bool (float64_decode s)
  decode_plain _ s = (s, none)

  unfoldable pub by_major :
      MajorType → Decoded Values → Decoded HashMap → State → Decoded (Option Value)
  unfolding decode_plain
  by_major list items entries s = Option.map (λ r. (r.0, some (array r.1))) items
  by_major map items entries s = Option.map (λ r. (r.0, some (hashmap r.1))) entries
  by_major other items entries s = some (decode_plain other s)

  -- The first byte says which parser reads the value.
  unfoldable pub by_payload :
      List ℕ → Decoded Values → Decoded HashMap → State → Decoded (Option Value)
  unfolding by_major
  by_payload [] items entries s = some (s, none)
  by_payload (header ∷ _) items entries s = by_major (major_type header) items entries s

  -- Each call and each round of a loop takes one unit of fuel.
  unfoldable mutual
    unfolding add_decoded insert_decoded by_payload

    pub cbor_to_coreconf_value : ℕ → ℕ → State → Decoded (Option Value)
    cbor_to_coreconf_value zero indent s = none
    cbor_to_coreconf_value (suc fuel) indent s =
        let items = parse_array fuel indent s in
        let entries = parse_map fuel indent s in
        if ltb coreconf_max_depth indent
        then some (s, none)
        else by_payload (payload s) items entries s

    -- The result of `_parse_array` is not read: what it has added to the array stays.
    pub parse_array : ℕ → ℕ → State → Decoded Values
    parse_array zero indent s = none
    parse_array (suc fuel) indent s =
        let (s', started) = list_start_decode s in
        elim started [
          | false ↦ some (s', no_elements)
          | true ↦ array_loop fuel indent no_elements s'
        ]

    pub array_loop : ℕ → ℕ → Values → State → Decoded Values
    array_loop zero indent vs s = none
    array_loop (suc fuel) indent vs s = elim (array_at_end s) [
      | true ↦ some ((list_end_decode s).0, vs)
      | false ↦ elim (cbor_to_coreconf_value fuel (indent + 1) s) [
        | none ↦ none
        | some (s', v) ↦ array_loop fuel indent (add_decoded vs v) s'
      ]
    ]

    -- So it is with `_parse_map`.
    pub parse_map : ℕ → ℕ → State → Decoded HashMap
    parse_map zero indent s = none
    parse_map (suc fuel) indent s =
        let (s', started) = map_start_decode s in
        elim started [ false ↦ some (s', create_map) | true ↦ map_loop fuel indent 0 create_map s' ]

    pub map_loop : ℕ → ℕ → ℕ → HashMap → State → Decoded HashMap
    map_loop zero indent loop_count m s = none
    map_loop (suc fuel) indent loop_count m s = elim (array_at_end s) [
      | true ↦ some ((map_end_decode s).0, m)
      | false ↦ elim (ltb coreconf_max_loop loop_count) [
        | true ↦ some (s, m)
        | false ↦
            let (s', key) = uint64_decode s in
            elim key [
              | none ↦ some (s', m)
              | some k ↦ elim (cbor_to_coreconf_value fuel (indent + 1) s') [
                | none ↦ none
                | some (s'', v) ↦ map_loop fuel indent (loop_count + 1) (insert_decoded m k v) s''
              ]
            ]
      ]
    ]
