-- ===== src/Server/Identifiers.antt =====
-- iot_containers/iot_apps/coreconf_server.c: the identifiers that stand in the payload of a FETCH.
use ccoreconf_zcbor.Common.{ℕ, zero, suc, ◌≡◌, refl, ap, ◌∙◌, List, [], ◌∷◌, true, some, take}
use ccoreconf_zcbor.Zcbor.{Decoder, pint, list, major_type}
use ccoreconf_zcbor.Value.{c_string}
use ccoreconf_zcbor.Ipatch.Raw.{key_buffer}
use ccoreconf_zcbor.Server.Fetch.{
  Iid, iid_scalar, iid_list, request_iids, request_iid, scalar_iid, list_iid, sid_iid, text_iid,
  end_iid,
}

module _ (decoder : Decoder) where
  open decoder use {
    State, new_decode_state, payload, uint64_decode, tstr_decode, list_start_decode,
    list_end_decode,
  }

  -- The bytes are a sequence of SIDs, and of lists of a SID and a text, which is cut to 127
  -- bytes and ends at a NUL.
  pub data Identifiers : List ℕ → List Iid → Type 0 where
    no_more : Identifiers [] []
    one_sid :
        {iids : List Iid} (b : ℕ) (bytes : List ℕ) (s : State) (sid : ℕ)
        → major_type b ≡ pint
        → uint64_decode (new_decode_state 8 (b ∷ bytes) 1) ≡ (s, some sid)
        → Identifiers (payload s) iids
        → Identifiers (b ∷ bytes) (iid_scalar sid ∷ iids)
    one_entry :
        {iids : List Iid} (b : ℕ) (bytes : List ℕ) (s1 s2 s3 s4 : State) (sid : ℕ) (text : List ℕ)
        → major_type b ≡ list
        → list_start_decode (new_decode_state 8 (b ∷ bytes) 1) ≡ (s1, true)
        → uint64_decode s1 ≡ (s2, some sid)
        → tstr_decode s2 ≡ (s3, some text)
        → list_end_decode s3 ≡ (s4, true)
        → Identifiers (payload s4) iids
        → Identifiers (b ∷ bytes) (iid_list sid (c_string (take 127 text)) ∷ iids)

  one_more :
      (room b : ℕ) (bytes : List ℕ) (s : State) (iid : Iid)
      → request_iid decoder b (b ∷ bytes) ≡ (s, some iid)
      → request_iids decoder (suc room) (b ∷ bytes) ≡ iid ∷ request_iids decoder room (payload s)
  unfolding request_iids
  one_more room b bytes s iid e =
      let read : (request_iid decoder b (b ∷ bytes)).1 ≡ some iid = ap (λ r. r.1) e in
      let rest : (request_iid decoder b (b ∷ bytes)).0 ≡ s = ap (λ r. r.0) e in
      rw (request_iids, read, rest) refl

  pub request_iids-Identifiers :
      (room : ℕ) (bytes : List ℕ) (iids : List Iid)
      → Identifiers bytes iids
      → request_iids decoder room bytes ≡ take room iids
  unfolding request_iids request_iid scalar_iid list_iid sid_iid text_iid end_iid key_buffer
  request_iids-Identifiers zero bytes iids h = refl
  request_iids-Identifiers (suc room) _ _ no_more = refl
  request_iids-Identifiers (suc room) _ _ (one_sid {iids = iids} b bytes s sid t e h) =
      one_more room b bytes s (iid_scalar sid) (rw (request_iid, t) (ap (scalar_iid decoder) e))
      ∙ ap (λ l. iid_scalar sid ∷ l) (request_iids-Identifiers room (payload s) iids h)
  request_iids-Identifiers (suc room) _ _
        (one_entry {iids = iids} b bytes s1 s2 s3 s4 sid text t e f g k h) =
      one_more room b bytes s4 (iid_list sid (c_string (take 127 text))) (
        rw (request_iid, t)
          (ap (list_iid decoder) e
            ∙ ap (sid_iid decoder) f
            ∙ ap (text_iid decoder sid) g
            ∙ ap (end_iid decoder sid text) k))
      ∙ ap (λ l. iid_list sid (c_string (take 127 text)) ∷ l)
          (request_iids-Identifiers room (payload s4) iids h)
