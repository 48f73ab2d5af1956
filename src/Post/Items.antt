-- ===== src/Post/Items.antt =====
-- include/post.h: the items of a POST.
use ccoreconf_zcbor.Common.{ℕ, List, Option}
use ccoreconf_zcbor.Value.{Ref}

pub data PostIidType : Type 0 where
  post_iid_sid post_iid_sid_str_key : PostIidType

-- `str_key` is `none` for NULL.
pub record PostItem : Type 0 where
  pub iid_type : PostIidType
  pub sid : ℕ
  pub str_key : Option (List ℕ)
  pub value : Ref
