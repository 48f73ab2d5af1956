-- ===== src/Server/Found.antt =====
-- iot_containers/iot_apps/coreconf_server.c: the bytes that a FETCH of the datastore returns.
use ccoreconf_zcbor.Common.{
  ℕ, ◌-◌, ◌≤◌, ◌≡◌, refl, ◌∙◌, take-all, List, [], ◌∷◌, ◌++◌, true, Option, none, some, inl, inr,
  Bool-cases, ◌==◌, leb, length, arith,
}
use ccoreconf_zcbor.Zcbor.{Encoder, Decoder, Put, ret}
use ccoreconf_zcbor.Zcbor.Laws.{
  EncoderLaws, Writes, put-Writes, then-Writes, succeed-Writes, attempt-Writes,
}
use ccoreconf_zcbor.Zcbor.Sequences.{all_bytes, fresh_Writes}
use ccoreconf_zcbor.Value.{
  Value, Ref, Chain, Table, HashMap, array, hashmap, null_ref, ref, chain_end, object, no_buckets,
  bucket, map_of,
}
use ccoreconf_zcbor.HashMap.{get_coreconf_hash_map}
use ccoreconf_zcbor.Serialization.Bytes.{IsComplete, cbor_bytes, coreconf_to_cbor-Writes}
use ccoreconf_zcbor.Get.Bytes.{RefIsPlain, ChainIsPlain, TableIsPlain, MapIsPlain}
use ccoreconf_zcbor.Fetch.Plain.{FoundIsComplete, get-Complete, element_at-Complete}
use ccoreconf_zcbor.Server.Stored.{Complete-TableIsPlain}
use ccoreconf_zcbor.Server.State.{
  Server, Request, content, get_content_format, get_data, with_body, answer, cf_yang_identifiers,
  cf_yang_instances,
}
use ccoreconf_zcbor.Server.Datastore.{current_datastore}
use ccoreconf_zcbor.Server.Identifiers.{Identifiers, request_iids-Identifiers}
use ccoreconf_zcbor.Server.Leads.{AllLead, all-AllLead, iid_value}
use ccoreconf_zcbor.Server.Fetch.{
  Iid, iid_scalar, iid_list, leaf_under, first_found, leaf_in_chain, leaf_in_table, scalar_value,
  entry_at, list_value, request_iids, encode_scalar, encode_listed, encode_iid_value,
  encode_iid_values, encode_response, fetch_body, fetch_iids, fetch_from, fetch_payload,
  handle_fetch,
}

first_found-Complete :
    (o later : Option Value)
    → FoundIsComplete o
    → FoundIsComplete later
    → FoundIsComplete (first_found o later)
unfolding first_found
first_found-Complete none later h k = k
first_found-Complete (some v) later h k = h

inner-IsPlain : (m : HashMap) → IsComplete (hashmap m) → MapIsPlain m
unfolding IsComplete
inner-IsPlain (map_of t n) h = Complete-TableIsPlain t h

leaf_under-Complete :
    (sid key : ℕ) (r : Ref) → RefIsPlain r → FoundIsComplete (leaf_under sid key r)
unfolding leaf_under
leaf_under-Complete sid key (ref (hashmap m)) h = elim (Bool-cases (leb key sid)) [
  | inl below ↦ rw below (get-Complete m (sid - key) (inner-IsPlain m h))
  | inr above ↦ rw above tt
]
leaf_under-Complete sid key null_ref h = tt
leaf_under-Complete sid key (ref _) h = tt

leaf_in_chain-Complete :
    (sid : ℕ) (c : Chain) → ChainIsPlain c → FoundIsComplete (leaf_in_chain sid c)
unfolding leaf_in_chain
leaf_in_chain-Complete sid chain_end h = tt
leaf_in_chain-Complete sid (object k r c) h =
    first_found-Complete (leaf_under sid k r) (leaf_in_chain sid c)
      (leaf_under-Complete sid k r h.0) (leaf_in_chain-Complete sid c h.1)

leaf_in_table-Complete :
    (sid : ℕ) (t : Table) → TableIsPlain t → FoundIsComplete (leaf_in_table sid t)
unfolding leaf_in_table
leaf_in_table-Complete sid no_buckets h = tt
leaf_in_table-Complete sid (bucket c t) h =
    first_found-Complete (leaf_in_chain sid c) (leaf_in_table sid t)
      (leaf_in_chain-Complete sid c h.0) (leaf_in_table-Complete sid t h.1)

scalar_value-Complete :
    (m : HashMap) (sid : ℕ) → MapIsPlain m → FoundIsComplete (scalar_value m sid)
unfolding scalar_value
scalar_value-Complete (map_of t n) sid h =
    first_found-Complete _ (leaf_in_table sid t) (get-Complete (map_of t n) sid h)
      (leaf_in_table-Complete sid t h)

list_value-Complete :
    (o : Option Value) (key : List ℕ) → FoundIsComplete o → FoundIsComplete (list_value o key)
unfolding list_value IsComplete
list_value-Complete (some (array vs)) key h = at _
  where
    at : (i : Option ℕ) → FoundIsComplete (entry_at vs i)
    at none = unfold entry_at in tt
    at (some i) = unfold entry_at in element_at-Complete i vs h
list_value-Complete none key h = tt
list_value-Complete (some _) key h = tt

module _ {encoder : Encoder} (laws : EncoderLaws encoder) where
  abbrev pub scalar_bytes : ℕ → Option Value → List ℕ
  scalar_bytes sid none = []
  scalar_bytes sid (some v) = laws.uint_bytes sid ++ cbor_bytes laws v

  abbrev pub listed_bytes : ℕ → Option Value → List ℕ
  listed_bytes sid none = []
  listed_bytes sid (some v) =
      laws.uint_bytes sid ++ (laws.list_open 1 ++ (cbor_bytes laws v ++ laws.list_close 1))

  -- the pair for an identifier; what is not found is left out
  abbrev pub iid_bytes : HashMap → Iid → List ℕ
  iid_bytes m (iid_scalar sid) = scalar_bytes sid (iid_value m (iid_scalar sid))
  iid_bytes m (iid_list sid key) = listed_bytes sid (iid_value m (iid_list sid key))

  abbrev pub response_bytes : HashMap → List Iid → List ℕ
  response_bytes m iids =
      laws.map_open (length iids) ++ (all_bytes (iid_bytes m) iids ++ laws.map_close (length iids))

  abbrev W : Put (Encoder.State encoder) → List ℕ → Type 0
  W = Writes laws

  scalar-Writes :
      (sid : ℕ) (o : Option Value)
      → FoundIsComplete o
      → W (encode_scalar encoder sid o) (scalar_bytes sid o)
  unfolding encode_scalar
  scalar-Writes sid none h = succeed-Writes laws
  scalar-Writes sid (some v) h =
      then-Writes laws _ _ _ _ (attempt-Writes laws _ _ (put-Writes laws _ _ (laws.uint64 sid)))
        (attempt-Writes laws _ _ (λ s. coreconf_to_cbor-Writes laws v s h))

  listed-Writes :
      (sid : ℕ) (o : Option Value)
      → FoundIsComplete o
      → W (encode_listed encoder sid o) (listed_bytes sid o)
  unfolding encode_listed
  listed-Writes sid none h = succeed-Writes laws
  listed-Writes sid (some v) h =
      then-Writes laws _ _ _ _ (attempt-Writes laws _ _ (put-Writes laws _ _ (laws.uint64 sid))) (
        then-Writes laws _ _ _ _ (attempt-Writes laws _ _ (put-Writes laws _ _ (laws.list_start 1)))
          (then-Writes laws _ _ _ _
            (attempt-Writes laws _ _ (λ s. coreconf_to_cbor-Writes laws v s h))
            (attempt-Writes laws _ _ (put-Writes laws _ _ (laws.list_end 1)))))

  iid-Writes :
      (m : HashMap) (iid : Iid)
      → MapIsPlain m
      → W (encode_iid_value encoder m iid) (iid_bytes m iid)
  unfolding encode_iid_value
  iid-Writes m (iid_scalar sid) h =
      scalar-Writes sid (scalar_value m sid) (scalar_value-Complete m sid h)
  iid-Writes m (iid_list sid key) h =
      listed-Writes sid (list_value (get_coreconf_hash_map m sid) key)
        (list_value-Complete (get_coreconf_hash_map m sid) key (get-Complete m sid h))

  iids-Writes :
      (m : HashMap) (iids : List Iid)
      → MapIsPlain m
      → W (encode_iid_values encoder m iids) (all_bytes (iid_bytes m) iids)
  unfolding encode_iid_values
  iids-Writes m [] h = succeed-Writes laws
  iids-Writes m (iid ∷ iids) h =
      then-Writes laws _ _ _ _ (iid-Writes m iid h) (iids-Writes m iids h)

  response-Writes :
      (m : HashMap) (iids : List Iid)
      → MapIsPlain m
      → W (encode_response encoder m iids) (response_bytes m iids)
  unfolding encode_response
  response-Writes m iids h =
      then-Writes laws _ _ _ _
        (attempt-Writes laws _ _ (put-Writes laws _ _ (laws.map_start (length iids))))
        (then-Writes laws _ _ _ _ (iids-Writes m iids h)
          (attempt-Writes laws _ _ (put-Writes laws _ _ (laws.map_end (length iids)))))

  -- A FETCH whose payload is a sequence of up to 64 SIDs and lists of a SID and a text (of which the
  -- first 127 bytes count) is answered, for a datastore without NULL pointers inside, with one map in
  -- CF=142, where include/get.h says a sequence of maps: for each identifier in their order, it has
  -- the SID with a value, or with the entry of an array in a list of one, and an
  -- identifier that leads nowhere is left out. The value is what the identifier leads to: what stands
  -- under the SID, or else the first leaf of a map in the datastore whose key with the leaf's adds up
  -- to the SID; the entry is the first that is a map with the text as a value. The bytes have to fit
  -- into the buffer.
  pub handle_fetch-bytes :
      (decoder : Decoder) (server : Server) (req : Request) (bytes : List ℕ) (m : HashMap)
      (iid : Iid) (iids : List Iid)
      → get_content_format req ≡ cf_yang_identifiers
      → get_data req ≡ some bytes
      → current_datastore server ≡ some (hashmap m)
      → MapIsPlain m
      → Identifiers decoder bytes (iid ∷ iids)
      → length (iid ∷ iids) ≤ 64
      → length (response_bytes m (iid ∷ iids)) ≤ 4096
      → (handle_fetch encoder decoder server req
          ≡ ret
              (answer server (with_body content cf_yang_instances (response_bytes m (iid ∷ iids)))))
        × AllLead m (iid ∷ iids)
  unfolding handle_fetch
  handle_fetch-bytes decoder server req bytes m iid iids format payload current plain written few
        fits =
      let right : (get_content_format req == cf_yang_identifiers) ≡ true = ground arith in
      let read : request_iids decoder 64 bytes ≡ iid ∷ iids =
        request_iids-Identifiers decoder 64 bytes (iid ∷ iids) written
        ∙ take-all 64 (iid ∷ iids) few in
      let (s, went, wrote) =
        fresh_Writes laws 8 4096 1 _ _ (response-Writes m (iid ∷ iids) plain) fits in
      (
        rw
            (
              right, payload, fetch_payload, current, fetch_from, read, fetch_iids, went,
              fetch_body, wrote,
            )
            refl,
        all-AllLead m (iid ∷ iids),
      )
