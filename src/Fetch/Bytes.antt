-- ===== src/Fetch/Bytes.antt =====
-- src/fetch.c: the bytes of requests and responses.
use ccoreconf_zcbor.Common.{ℕ, ◌≤◌, ◌≡◌, List, [], ◌∷◌, ◌++◌, Option, none, some, length, arith}
use ccoreconf_zcbor.Zcbor.{Encoder}
use ccoreconf_zcbor.Zcbor.Laws.{EncoderLaws, Writes, put-Writes, then-Writes}
use ccoreconf_zcbor.Zcbor.Sequences.{all_bytes, sequence_loop-Writes}
use ccoreconf_zcbor.Value.{Value, Ref}
use ccoreconf_zcbor.Serialization.Bytes.{coreconf_to_cbor-Writes, cbor_bytes}
use ccoreconf_zcbor.Fetch.Plain.{
  SourceIsPlain, FoundIsComplete, look_up-Complete, fetch_value_by_iid-Complete,
}
use ccoreconf_zcbor.Fetch.Resolve.{InstanceIdentifier, sid, fetch_value_by_iid}
use ccoreconf_zcbor.Fetch.Leads.{AllFound, all-AllFound}
use ccoreconf_zcbor.Fetch.Encode.{
  look_up, encode_found, encode_pair, create_fetch_response, create_fetch_response_iids,
}

module _ {zcbor : Encoder} (laws : EncoderLaws zcbor) where
  abbrev pub found_bytes : Option Value → List ℕ
  found_bytes none = laws.nil_bytes
  found_bytes (some v) = cbor_bytes laws v

  -- the map of one SID to a value, or to null
  unfoldable pub pair_bytes : ℕ → Option Value → List ℕ
  pair_bytes s o = laws.map_open 1 ++ (laws.uint_bytes s ++ (found_bytes o ++ laws.map_close 1))

  pair-Writes :
      (s : ℕ) (o : Option Value)
      → FoundIsComplete o
      → Writes laws (encode_pair zcbor s o) (pair_bytes s o)
  unfolding encode_pair pair_bytes
  pair-Writes s o h = then-Writes laws _ _ _ _ (put-Writes laws _ _ (laws.map_start 1)) (
      then-Writes laws _ _ _ _ (put-Writes laws _ _ (laws.uint64 s))
        (then-Writes laws _ _ _ _ (found-Writes o h) (put-Writes laws _ _ (laws.map_end 1))))
    where
      found-Writes :
          (o : Option Value)
          → FoundIsComplete o
          → Writes laws (encode_found zcbor o) (found_bytes o)
      found-Writes none h s fits = put-Writes laws _ _ laws.nil s fits
      found-Writes (some v) h s fits = coreconf_to_cbor-Writes laws v s h fits

module _ {zcbor : Encoder} (laws : EncoderLaws zcbor) (data_source : Ref) where
  abbrev pub sids_bytes : List ℕ → List ℕ
  sids_bytes = all_bytes (λ n. pair_bytes laws n (look_up data_source n))

  abbrev pub iids_bytes : List InstanceIdentifier → List ℕ
  iids_bytes = all_bytes (λ iid. pair_bytes laws (sid iid) (fetch_value_by_iid data_source iid))

-- The response to a FETCH is, for each SID in the order of the request, the map of the SID to its
-- value in the data source or to null, if those bytes fit into the buffer and no value has a NULL
-- pointer inside.
pub create_fetch_response-bytes :
    {zcbor : Encoder} (laws : EncoderLaws zcbor) (buffer_size : ℕ) (data_source : Ref) (s : ℕ)
    (sids : List ℕ)
    → SourceIsPlain data_source
    → length (sids_bytes laws data_source (s ∷ sids)) ≤ buffer_size
    → create_fetch_response zcbor (some buffer_size) data_source (some (s ∷ sids))
      ≡ some (sids_bytes laws data_source (s ∷ sids))
unfolding create_fetch_response
create_fetch_response-bytes laws size source s sids h fits =
    sequence_loop-Writes laws 5 _ (λ n. pair_bytes laws n (look_up source n)) (s ∷ sids)
      (λ n. pair-Writes laws n (look_up source n) (look_up-Complete source n h)) size []
      (omega arith)

-- The response to a FETCH with instance identifiers is, for each identifier in the order of the
-- request, the map of its SID to a value or to null, if those bytes fit into the buffer and no value
-- has a NULL pointer inside. The value is what the identifier leads to in the data source: what
-- stands under its SID, the first entry of that array that is a map with the text as a value, or the
-- element of that array at the index; and it is null only where the identifier leads to no value.
pub create_fetch_response_iids-bytes :
    {zcbor : Encoder} (laws : EncoderLaws zcbor) (buffer_size : ℕ) (data_source : Ref)
    (i : InstanceIdentifier) (iids : List InstanceIdentifier)
    → SourceIsPlain data_source
    → length (iids_bytes laws data_source (i ∷ iids)) ≤ buffer_size
    → (create_fetch_response_iids zcbor (some buffer_size) data_source (some (i ∷ iids))
        ≡ some (iids_bytes laws data_source (i ∷ iids)))
      × AllFound data_source (i ∷ iids)
unfolding create_fetch_response_iids
create_fetch_response_iids-bytes laws size source i iids h fits = (
  sequence_loop-Writes laws 5 _ (λ iid. pair_bytes laws (sid iid) (fetch_value_by_iid source iid))
      (i ∷ iids)
      (λ iid.
        pair-Writes laws (sid iid) (fetch_value_by_iid source iid)
          (fetch_value_by_iid-Complete source iid h))
      size [] (omega arith),
  all-AllFound source (i ∷ iids),
)
