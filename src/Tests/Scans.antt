-- ===== src/Tests/Scans.antt =====
-- The decoder of Codec.antt does not go back, and the server's handlers end with it.
use ccoreconf_zcbor.Common.{
  ℕ, zero, suc, ◌-◌, ◌≤◌, ◌<◌, ◌≡◌, refl, List, [], ◌∷◌, Bool, true, ◌||◌, Bool-cases, inl, inr,
  some, Option-cases, ltb, ◌==◌, length, drop, arith,
}
use mathlib.Core.Path.{subst}
use ccoreconf_zcbor.Zcbor.Runs.{Ends}
use ccoreconf_zcbor.Value.{HashMap, hashmap, ref}
use ccoreconf_zcbor.Put.{parse_put_request}
use ccoreconf_zcbor.Post.Parse.{parse_post_items}
use ccoreconf_zcbor.Ipatch.Raw.{apply_ipatch_raw}
use ccoreconf_zcbor.Server.State.{Server, Request, get_data}
use ccoreconf_zcbor.Server.Datastore.{current_datastore}
use ccoreconf_zcbor.Server.Handlers.{ipatch, handle}
use ccoreconf_zcbor.Server.Ends.Requests.{handle-Ends}
use ccoreconf_zcbor.Server.Ends.{Scans}
use ccoreconf_zcbor.Tests.Messages.{datastore}
use ccoreconf_zcbor.Tests.Requests.{raw_patch, raw_patch_applies}
use ccoreconf_zcbor.Tests.Startup.{no_server, clock}
use ccoreconf_zcbor.Tests.Codec.{encoder, decoder, read_word, read_uint, with_word, skip_value}
use ccoreconf_zcbor.Tests.Progress.{read_word-shorter, expect_byte-shorter, expect_byte-le}

length-drop : (n : ℕ) (s : List ℕ) → length (drop n s) ≤ length s
length-drop zero s = omega arith
length-drop (suc n) [] = omega arith
length-drop (suc n) (b ∷ s) = omega (arith, length-drop n s)

with_word-back :
    {A : Type 0} (f : ℕ → List ℕ → List ℕ × A) (s t : List ℕ)
    → ((n : ℕ) (rest : List ℕ) → length (f n rest).0 ≤ length rest)
    → length t ≤ length s
    → length (with_word s f t).0 ≤ length s
with_word-back f s t h k = elim (Option-cases (read_word t)) [
  | inl short ↦ rw (short, with_word) (omega arith)
  | inr (r, read) ↦ rw (read, with_word) (omega (arith, h r.0 r.1, k, read_word-shorter t r read))
]

-- what `skip_value` leaves of one byte and those behind it
skip_tail :
    (fuel depth b : ℕ) (bytes : List ℕ)
    → ((d : ℕ) (s : List ℕ) → length (skip_value fuel d s).0 ≤ length s)
    → length (skip_value (suc fuel) depth (b ∷ bytes)).0 ≤ length bytes
skip_tail fuel depth b bytes again = elim (Bool-cases (b == 159 || b == 191)) [
  | inl opens ↦ rw opens (again (suc depth) bytes)
  | inr c1 ↦ elim (Bool-cases (b == 255)) [
    | inl closes ↦ rw (c1, closes) (after (depth - 1) bytes (omega arith))
    | inr c2 ↦ elim (Bool-cases (b == 27 || b == 59 || b == 251)) [
      | inl word ↦ rw (c1, c2, word) (after depth (drop 8 bytes) (length-drop 8 bytes))
      | inr c3 ↦ elim (Bool-cases (b == 91 || b == 123)) [
        | inl text ↦
            rw (c1, c2, c3, text)
              (after depth _ (
                with_word-back (λ n s. (drop n s, tt)) bytes bytes (λ n s. length-drop n s)
                  (omega arith)))
        | inr c4 ↦ rw (c1, c2, c3, c4) (after depth bytes (omega arith))
      ]
    ]
  ]
]
  where
    after :
        (d : ℕ) (s : List ℕ)
        → length s ≤ length bytes
        → length
            (elim d as (λ d. List ℕ × Bool) [
              | zero ↦ (s, true)
              | suc d' ↦ skip_value fuel (suc d') s
            ]).0
          ≤ length bytes
    after zero s h = h
    after (suc d) s h = omega (arith, again (suc d) s, h)

skip_value-back : (fuel depth : ℕ) (s : List ℕ) → length (skip_value fuel depth s).0 ≤ length s
skip_value-back zero depth s = omega arith
skip_value-back (suc fuel) depth [] = omega arith
skip_value-back (suc fuel) depth (b ∷ bytes) =
    omega (arith, skip_tail fuel depth b bytes (skip_value-back fuel))

skip_value-shorter :
    (fuel depth : ℕ) (s : List ℕ)
    → (skip_value fuel depth s).1 ≡ true
    → length (skip_value fuel depth s).0 < length s
skip_value-shorter zero depth s h = cc
skip_value-shorter (suc fuel) depth [] h = cc
skip_value-shorter (suc fuel) depth (b ∷ bytes) h =
    omega (arith, skip_tail fuel depth b bytes (skip_value-back fuel))

read_uint-back : (s : List ℕ) → length (read_uint s).0 ≤ length s
read_uint-back [] = omega arith
read_uint-back (b ∷ s) = elim (Bool-cases (ltb b 24)) [
  | inl small ↦ rw small (omega arith)
  | inr large ↦ elim (Bool-cases (b == 27)) [
    | inl word ↦
        rw (large, word)
          (with_word-back (λ n rest. (rest, n)) (b ∷ s) s (λ n rest. omega arith) (omega arith))
    | inr other ↦ rw (large, other) (omega arith)
  ]
]

pub scans : Scans decoder
scans = record {
  fresh = λ b bytes e. refl;
  map_start = λ s h. expect_byte-shorter 191 s h;
  skip = λ s h. skip_value-shorter (length s) 0 s h;
  skip_back = λ s. skip_value-back (length s) 0 s;
  map_end = λ s. expect_byte-le 255 s;
  uint64 = λ s. read_uint-back s;
  list_start = λ s. expect_byte-le 159 s;
  list_end = λ s. expect_byte-le 255 s;
}

-- a patch of the datastore
abbrev holding : Server
holding = record no_server { datastore = ref (hashmap datastore); ds_exists = true }

abbrev patch : Request
patch = record { format_option = some 142; payload = some raw_patch }

patch_parses : Ends (parse_put_request decoder 20 (get_data patch))
unfolding parse_put_request get_data ccoreconf_zcbor.Zcbor.major_type
patch_parses = tt

patch_items : Ends (parse_post_items decoder 20 (get_data patch))
unfolding parse_post_items get_data ccoreconf_zcbor.Zcbor.major_type
    ccoreconf_zcbor.Serialization.Decode.cbor_to_coreconf_value
patch_items = tt

patch_applies :
    (m : HashMap)
    → current_datastore holding ≡ some (hashmap m)
    → Ends (apply_ipatch_raw decoder 20 (ref (hashmap m)) (get_data patch))
unfolding current_datastore get_data
patch_applies m held =
    let same : datastore ≡ m = cc in
    subst (λ m. Ends (apply_ipatch_raw decoder 20 (ref (hashmap m)) (some raw_patch))) same
      (rw raw_patch_applies tt)

handle-Ends_example : Ends (handle encoder decoder clock ipatch 20 holding patch)
handle-Ends_example =
    handle-Ends clock encoder decoder scans ipatch 20 holding patch patch_parses patch_items
      patch_applies
