-- ===== src/Post/Bytes.antt =====
-- src/post.c and src/ipatch.c: the bytes of a sequence of POST items, and of an iPATCH request for
-- one entry of a list, which has the form of an item with a text key.
use ccoreconf_zcbor.Common.{
  ℕ, ◌≤◌, ◌≡◌, sym, ap, ◌∙◌, List, [], ◌∷◌, ◌++◌, append_assoc, append-nil, Option, none, some,
  length, arith,
}
use mathlib.Core.Path.{subst}
use ccoreconf_zcbor.Zcbor.{Encoder, Put}
use ccoreconf_zcbor.Zcbor.Laws.{EncoderLaws, Writes, put-Writes, then-Writes}
use ccoreconf_zcbor.Zcbor.Sequences.{all_bytes, AllWrite, sequence_loop-AllWrite, finish-Writes}
use ccoreconf_zcbor.Value.{Ref}
use ccoreconf_zcbor.Serialization.Bytes.{ref_bytes}
use ccoreconf_zcbor.Get.Bytes.{RefIsPlain, encode_value-Writes}
use ccoreconf_zcbor.Post.Items.{PostIidType, PostItem, post_iid_sid, post_iid_sid_str_key}
use ccoreconf_zcbor.Post.Encode.{
  encode_key, encode_post_key, encode_item, create_post_items, create_post_request_action_str,
}
use ccoreconf_zcbor.Ipatch.Request.{encode_iid_entry, create_ipatch_iid_request}

-- an item with a text key has one
abbrev pub KeyIsThere : PostIidType → Option (List ℕ) → Type 0
KeyIsThere post_iid_sid key = Unit
KeyIsThere post_iid_sid_str_key none = ⊥
KeyIsThere post_iid_sid_str_key (some key) = Unit

-- The value may be NULL, and may not have NULL inside.
abbrev pub AllPlain : List PostItem → Type 0
AllPlain [] = Unit
AllPlain (item ∷ items) =
    KeyIsThere item.iid_type item.str_key × RefIsPlain item.value × AllPlain items

module _ {zcbor : Encoder} (laws : EncoderLaws zcbor) where
  abbrev pub keyed_bytes : ℕ → List ℕ → List ℕ
  keyed_bytes sid key =
      laws.list_open 2 ++ (laws.uint_bytes sid ++ (laws.text_bytes key ++ laws.list_close 2))

  abbrev pub key_bytes : PostIidType → ℕ → Option (List ℕ) → List ℕ
  key_bytes post_iid_sid sid key = laws.uint_bytes sid
  key_bytes post_iid_sid_str_key sid none = []
  key_bytes post_iid_sid_str_key sid (some key) = keyed_bytes sid key

  -- a map of one key to one value
  abbrev pub entry_bytes : List ℕ → Ref → List ℕ
  entry_bytes key value = laws.map_open 1 ++ (key ++ (ref_bytes laws value ++ laws.map_close 1))

  abbrev pub item_bytes : PostItem → List ℕ
  item_bytes item = entry_bytes (key_bytes item.iid_type item.sid item.str_key) item.value

  abbrev W : Put (Encoder.State zcbor) → List ℕ → Type 0
  W = Writes laws

  encode_key-Writes :
      (t : PostIidType) (sid : ℕ) (key : Option (List ℕ))
      → KeyIsThere t key
      → W (encode_key zcbor t sid key) (key_bytes t sid key)
  unfolding encode_key
  encode_key-Writes post_iid_sid sid key h = put-Writes laws _ _ (laws.uint64 sid)
  encode_key-Writes post_iid_sid_str_key sid none h = absurd h
  encode_key-Writes post_iid_sid_str_key sid (some key) h =
      then-Writes laws _ _ _ _ (put-Writes laws _ _ (laws.list_start 2)) (
        then-Writes laws _ _ _ _ (put-Writes laws _ _ (laws.uint64 sid)) (
          then-Writes laws _ _ _ _ (put-Writes laws _ _ (laws.text key))
            (put-Writes laws _ _ (laws.list_end 2))))

  encode_item-Writes :
      (item : PostItem)
      → KeyIsThere item.iid_type item.str_key
      → RefIsPlain item.value
      → W (encode_item zcbor item) (item_bytes item)
  unfolding encode_item encode_post_key
  encode_item-Writes item key plain =
      then-Writes laws _ _ _ _ (put-Writes laws _ _ (laws.map_start 1)) (
        then-Writes laws _ _ _ _ (encode_key-Writes item.iid_type item.sid item.str_key key) (
          then-Writes laws _ _ _ _ (encode_value-Writes laws item.value plain)
            (put-Writes laws _ _ (laws.map_end 1))))

  all_items :
      (items : List PostItem) → AllPlain items → AllWrite laws (encode_item zcbor) item_bytes items
  all_items [] h = tt
  all_items (item ∷ items) h = (encode_item-Writes item h.0 h.1, all_items items h.2)

  -- The request for an entry is built in one go, its key inside the map.
  encode_iid_entry-Writes :
      (sid : ℕ) (key : List ℕ) (value : Ref)
      → RefIsPlain value
      → W (encode_iid_entry zcbor sid key value) (
          laws.map_open 1
          ++ (laws.list_open 2
              ++ (laws.uint_bytes sid
                  ++ (laws.text_bytes key
                      ++ (laws.list_close 2 ++ (ref_bytes laws value ++ laws.map_close 1))))))
  unfolding encode_iid_entry
  encode_iid_entry-Writes sid key value plain =
      then-Writes laws _ _ _ _ (put-Writes laws _ _ (laws.map_start 1)) (
        then-Writes laws _ _ _ _ (put-Writes laws _ _ (laws.list_start 2)) (
          then-Writes laws _ _ _ _ (put-Writes laws _ _ (laws.uint64 sid)) (
            then-Writes laws _ _ _ _ (put-Writes laws _ _ (laws.text key)) (
              then-Writes laws _ _ _ _ (put-Writes laws _ _ (laws.list_end 2)) (
                then-Writes laws _ _ _ _ (encode_value-Writes laws value plain)
                  (put-Writes laws _ _ (laws.map_end 1)))))))

  flat_entry :
      (sid : ℕ) (key : List ℕ) (value : Ref)
      → entry_bytes (keyed_bytes sid key) value
        ≡ laws.map_open 1
          ++ (laws.list_open 2
              ++ (laws.uint_bytes sid
                  ++ (laws.text_bytes key
                      ++ (laws.list_close 2 ++ (ref_bytes laws value ++ laws.map_close 1)))))
  flat_entry sid key value = simp (append_assoc)

-- A sequence of POST items, each with the key that its type wants and with a value without NULL
-- pointers inside, is written as one map of a key to a value after the other, if that fits into the
-- buffer.
pub create_post_items-bytes :
    {zcbor : Encoder} (laws : EncoderLaws zcbor) (buffer_size : ℕ) (item : PostItem)
    (items : List PostItem)
    → AllPlain (item ∷ items)
    → length (all_bytes (item_bytes laws) (item ∷ items)) ≤ buffer_size
    → create_post_items zcbor (some buffer_size) (some (item ∷ items))
      ≡ some (all_bytes (item_bytes laws) (item ∷ items))
unfolding create_post_items
create_post_items-bytes laws size item items h fits =
    sequence_loop-AllWrite laws 12 _ (item_bytes laws) (item ∷ items)
      (all_items laws (item ∷ items) h) size [] (omega arith)

-- An iPATCH request for one entry of a list and a POST request for an action on that entry are the
-- same bytes: the map of the SID with the text key to the value, if that fits into the buffer and the
-- value has no NULL pointer inside.
pub create_ipatch_iid_request-bytes :
    {zcbor : Encoder} (laws : EncoderLaws zcbor) (buffer_size sid : ℕ) (key : List ℕ) (value : Ref)
    → RefIsPlain value
    → length (entry_bytes laws (keyed_bytes laws sid key) value) ≤ buffer_size
    → (create_ipatch_iid_request zcbor (some buffer_size) sid (some key) value
        ≡ some (entry_bytes laws (keyed_bytes laws sid key) value))
      × (create_post_request_action_str zcbor (some buffer_size) sid (some key) value
          ≡ some (entry_bytes laws (keyed_bytes laws sid key) value))
unfolding create_ipatch_iid_request create_post_request_action_str
create_ipatch_iid_request-bytes {zcbor} laws size sid key value plain fits =
    let item : PostItem = record {
      iid_type = post_iid_sid_str_key;
      sid = sid;
      str_key = some key;
      value = value;
    } in
    let alone = append-nil (item_bytes laws item) in
    (
      finish-Writes laws 8 size 1 _ _
          (subst (W laws _) (sym (flat_entry laws sid key value))
            (encode_iid_entry-Writes laws sid key value plain))
          fits,
      sequence_loop-AllWrite laws 12 (encode_item zcbor) (item_bytes laws) (item ∷ [])
            (all_items laws (item ∷ []) (tt, plain, tt)) size []
            (omega (arith, ap length {x = item_bytes laws item ++ []} alone))
          ∙ ap some alone,
    )
