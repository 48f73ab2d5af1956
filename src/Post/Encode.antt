-- ===== src/Post/Encode.antt =====
-- src/post.c: `create_post_items` and the two kinds of requests.
use ccoreconf_zcbor.Common.{ℕ, List, [], ◌∷◌, Option, none, some, false}
use ccoreconf_zcbor.Zcbor.{Encoder, Put, put, ◌>>◌, Buffer, sequence_loop}
use ccoreconf_zcbor.Value.{Ref}
use ccoreconf_zcbor.Get.{encode_value}
use ccoreconf_zcbor.Post.Items.{PostIidType, PostItem, post_iid_sid, post_iid_sid_str_key}

module _ (zcbor : Encoder) where
  open zcbor use {
    State, uint64_put, tstr_encode, list_start_encode, list_end_encode, map_start_encode,
    map_end_encode,
  }

  unfoldable pub encode_key : PostIidType → ℕ → Option (List ℕ) → Put State
  encode_key post_iid_sid sid key = put (uint64_put sid)
  encode_key post_iid_sid_str_key sid none = λ s. some (s, false)
  encode_key post_iid_sid_str_key sid (some key) =
      put (list_start_encode 2)
      >> put (uint64_put sid)
      >> put (tstr_encode key)
      >> put (list_end_encode 2)

  unfoldable pub encode_post_key : PostItem → Put State
  unfolding encode_key
  encode_post_key item = encode_key item.iid_type item.sid item.str_key

  unfoldable pub encode_item : PostItem → Put State
  unfolding encode_post_key encode_value
  encode_item item =
      put (map_start_encode 1)
      >> encode_post_key item
      >> encode_value zcbor item.value
      >> put (map_end_encode 1)

  unfoldable pub create_post_items : Option ℕ → Option (List PostItem) → Buffer
  unfolding sequence_loop encode_item
  create_post_items (some buffer_size) (some (i ∷ items)) =
      sequence_loop zcbor 12 encode_item (i ∷ items) buffer_size []
  create_post_items buffer items = some []

  unfoldable pub create_post_request_rpc : Option ℕ → ℕ → Ref → Buffer
  unfolding create_post_items
  create_post_request_rpc buffer rpc_sid input =
      create_post_items buffer (
        some
          (record { iid_type = post_iid_sid; sid = rpc_sid; str_key = none; value = input } ∷ []))

  unfoldable pub create_post_request_action_str : Option ℕ → ℕ → Option (List ℕ) → Ref → Buffer
  unfolding create_post_items
  create_post_request_action_str buffer action_sid none input = some []
  create_post_request_action_str buffer action_sid (some instance_key) input =
      create_post_items buffer (
        some (
          record {
            iid_type = post_iid_sid_str_key;
            sid = action_sid;
            str_key = some instance_key;
            value = input;
          }
          ∷ []))
