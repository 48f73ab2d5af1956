-- ===== src/Zcbor/Sequences.antt =====
-- The loops that encode one item after the other, each with a new state.
use ccoreconf_zcbor.Common.{
  ℕ, ◌+◌, ◌-◌, ◌≤◌, ◌≡◌, sym, ap, List, [], ◌∷◌, ◌++◌, append_assoc, append-nil, true, some, length,
  length-append, arith,
}
use ccoreconf_zcbor.Zcbor.{Encoder, Put, sequence_loop, finish_encoding}
use ccoreconf_zcbor.Zcbor.Laws.{EncoderLaws, Writes}

abbrev pub all_bytes {ℓ} : {A : Type ℓ} → (A → List ℕ) → List A → List ℕ
all_bytes bytes [] = []
all_bytes bytes (a ∷ rest) = bytes a ++ all_bytes bytes rest

module _ {zcbor : Encoder} (laws : EncoderLaws zcbor) where
  open zcbor use {State, new_encode_state, written}
  open laws use {room, new_written, new_room}

  -- The state of an item on a buffer with this much left.
  pub fresh_Writes :
      (b n e : ℕ) (p : Put State) (bytes : List ℕ)
      → Writes laws p bytes
      → length bytes ≤ n
      → (s' : State) × (p (new_encode_state b n e) ≡ some (s', true)) × (written s' ≡ bytes)
  fresh_Writes b n e p bytes h fits =
      let (s', went, wrote, _) = h (new_encode_state b n e) (omega (arith, new_room b n e)) in
      (s', went, rw (new_written b n e) at wrote)

  pub finish-Writes :
      (b n e : ℕ) (p : Put State) (bytes : List ℕ)
      → Writes laws p bytes
      → length bytes ≤ n
      → finish_encoding zcbor (p (new_encode_state b n e)) ≡ some bytes
  unfolding finish_encoding
  finish-Writes b n e p bytes h fits =
      let (s', went, wrote) = fresh_Writes b n e p bytes h fits in rw (went, wrote)

  -- Each of these items is written as its bytes.
  abbrev pub AllWrite : {A : Type 0} → (A → Put State) → (A → List ℕ) → List A → Type 0
  AllWrite item bytes [] = Unit
  AllWrite item bytes (a ∷ rest) = Writes laws (item a) (bytes a) × AllWrite item bytes rest

  all_write :
      {A : Type 0} (item : A → Put State) (bytes : A → List ℕ)
      → ((a : A) → Writes laws (item a) (bytes a))
      → (items : List A) → AllWrite item bytes items
  all_write item bytes h [] = tt
  all_write item bytes h (a ∷ rest) = (h a, all_write item bytes h rest)

  pub sequence_loop-AllWrite :
      {A : Type 0} (backups : ℕ) (item : A → Put State) (bytes : A → List ℕ) (items : List A)
      → AllWrite item bytes items
      → (size : ℕ) (out : List ℕ) → length out + length (all_bytes bytes items) ≤ size
      → sequence_loop zcbor backups item items size out ≡ some (out ++ all_bytes bytes items)
  unfolding sequence_loop
  sequence_loop-AllWrite b item bytes [] h size out fits = ap some (sym (append-nil out))
  sequence_loop-AllWrite b item bytes (a ∷ rest) h size out fits =
      let (s', went, wrote) =
        fresh_Writes b (size - length out) 0 (item a) (bytes a) h.0
          (omega (arith, length-append (bytes a) (all_bytes bytes rest))) in
      rw (went, wrote, ← append_assoc out (bytes a) (all_bytes bytes rest), sequence_loop)
        (sequence_loop-AllWrite b item bytes rest h.1 size (out ++ bytes a) (
          omega
            (arith, length-append (bytes a) (all_bytes bytes rest), length-append out (bytes a))))

  pub sequence_loop-Writes :
      {A : Type 0} (backups : ℕ) (item : A → Put State) (bytes : A → List ℕ) (items : List A)
      → ((a : A) → Writes laws (item a) (bytes a))
      → (size : ℕ) (out : List ℕ) → length out + length (all_bytes bytes items) ≤ size
      → sequence_loop zcbor backups item items size out ≡ some (out ++ all_bytes bytes items)
  sequence_loop-Writes b item bytes items h =
      sequence_loop-AllWrite b item bytes items (all_write item bytes h items)
