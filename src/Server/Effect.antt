-- ===== src/Server/Effect.antt =====
-- iot_containers/iot_apps/coreconf_server.c: what an answered request does to the server's variables.
use ccoreconf_zcbor.Common.{
  ℕ, zero, suc, ◌≡◌, refl, List, [], ◌∷◌, Bool, true, false, Option, none, some, length,
}
use ccoreconf_zcbor.Zcbor.{Decoder, Run, ret, bad_read, out_of_fuel}
use ccoreconf_zcbor.Zcbor.Runs.{Returns, bind-Returns, bind-Returns_after}
use ccoreconf_zcbor.Value.{HashMap, hashmap, null_ref, ref}
use ccoreconf_zcbor.HashMap.Buckets.{IsValid}
use ccoreconf_zcbor.Server.Stream.{Stream}
use ccoreconf_zcbor.Server.Sequence.{Reached, goes_on, pushes}
use ccoreconf_zcbor.Server.Notify.{
  push_written, push_front, push_rest, stream_extract_first_sid_from_map,
  stream_push_notification_map, behind_map, push_maps, stream_push_notification_sequence,
}
use ccoreconf_zcbor.Server.State.{
  Server, Code, created, deleted, changed, content, Reply, send_error, answer, Response,
}

-- the codes 4.00 and above
abbrev pub is_error : Code → Bool
is_error created = false
is_error deleted = false
is_error changed = false
is_error content = false
is_error _ = true

-- The stream is one that the server reaches if it was one before.
abbrev pub Carries : Stream → Stream → Type 0
Carries s s' = Reached s → Reached s'

abbrev pub HoldsMap : Server → HashMap → Type 0
HoldsMap server m = (server.datastore ≡ ref (hashmap m)) × (server.ds_exists ≡ true)

-- Every request leaves the variables alone, or puts a valid map into the datastore, or deletes it.
-- The last two tell the observers and are no errors.
pub data Effect (server : Server) (r : Reply) : Type 0 where
  unchanged : r.server ≡ server → r.notified ≡ false → r.command ≡ none → Effect server r
  stored :
      (m : HashMap)
      → IsValid m
      → HoldsMap r.server m
      → Carries server.stream r.server.stream
      → is_error r.response.code ≡ false
      → Effect server r
  removed :
      r.server.datastore ≡ null_ref
      → r.server.ds_exists ≡ false
      → Carries server.stream r.server.stream
      → is_error r.response.code ≡ false
      → Effect server r

abbrev pub HasEffect : Server → Run Reply → Type 0
HasEffect server = Returns (Effect server)

pub send_error-Effect :
    (server : Server) (code : Code) (esid : ℕ) (msg : List ℕ)
    → Effect server (send_error server code esid msg)
unfolding send_error
send_error-Effect server code esid msg = unchanged refl refl refl

pub answer-Effect : (server : Server) (response : Response) → Effect server (answer server response)
unfolding answer
answer-Effect server response = unchanged refl refl refl

push_written-Carries : (bytes : List ℕ) (s : Stream) → Carries s (push_written bytes s)
unfolding push_written
push_written-Carries [] s r = r
push_written-Carries (b ∷ bytes) s r = goes_on r (pushes (some (b ∷ bytes)))

module _ (decoder : Decoder) where
  pub push_map-Carries :
      (sys_module : ℕ) (bytes : Option (List ℕ)) (s : Stream)
      → Returns (Carries s) (stream_push_notification_map decoder sys_module bytes s)
  unfolding stream_push_notification_map
  push_map-Carries sys_module none s = λ r. r
  push_map-Carries sys_module (some []) s = λ r. r
  push_map-Carries sys_module (some (b ∷ bytes)) s =
      bind-Returns (Carries s)
        (stream_extract_first_sid_from_map decoder (some (b ∷ bytes)) sys_module) _
        (λ sid. push_written-Carries _ s)

  weaken :
      (s s' : Stream) (p : Run Stream)
      → Carries s s'
      → Returns (Carries s') p
      → Returns (Carries s) p
  weaken s s' (ret t) h k = λ r. k (h r)
  weaken s s' bad_read h k = tt
  weaken s s' out_of_fuel h k = tt

  push_front-Carries :
      (sys_module : ℕ) (again : Stream → Run Stream) (bytes : List ℕ) (s : Stream)
      → ((s' : Stream) → Returns (Carries s') (again s'))
      → Returns (Carries s) (push_front decoder sys_module again bytes s)
  unfolding push_front
  push_front-Carries sys_module again [] s go = λ r. r
  push_front-Carries sys_module again (b ∷ bytes) s go =
      bind-Returns_after (Carries s) (Carries s)
        (stream_push_notification_map decoder sys_module (some (b ∷ bytes)) s) again
        (push_map-Carries sys_module (some (b ∷ bytes)) s)
        (λ s' h. weaken s s' (again s') h (go s'))

  push_rest-Carries :
      (sys_module : ℕ) (again : List ℕ → Stream → Run Stream) (bytes : List ℕ) (s : Stream)
      (o : Option (List ℕ))
      → ((rest : List ℕ) (s' : Stream) → Returns (Carries s') (again rest s'))
      → Returns (Carries s) (push_rest decoder sys_module again bytes s o)
  unfolding push_rest
  push_rest-Carries sys_module again bytes s none go = λ r. r
  push_rest-Carries sys_module again bytes s (some rest) go =
      push_front-Carries sys_module (again rest) _ s (go rest)

  push_maps-Carries :
      (fuel sys_module : ℕ) (bytes : List ℕ) (s : Stream)
      → Returns (Carries s) (push_maps decoder fuel sys_module bytes s)
  unfolding push_maps
  push_maps-Carries fuel sys_module [] s = λ r. r
  push_maps-Carries zero sys_module (b ∷ bytes) s = tt
  push_maps-Carries (suc fuel) sys_module (b ∷ bytes) s =
      bind-Returns (Carries s) (behind_map decoder (b ∷ bytes)) _ (λ o.
        push_rest-Carries sys_module (push_maps decoder fuel sys_module) (b ∷ bytes) s o
          (push_maps-Carries fuel sys_module))

  pub push_sequence-Carries :
      (sys_module : ℕ) (bytes : Option (List ℕ)) (s : Stream)
      → Returns (Carries s) (stream_push_notification_sequence decoder sys_module bytes s)
  unfolding stream_push_notification_sequence
  push_sequence-Carries sys_module none s = λ r. r
  push_sequence-Carries sys_module (some bytes) s =
      push_maps-Carries (length bytes) sys_module bytes s
