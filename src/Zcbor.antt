-- ===== src/Zcbor.antt =====
-- The zcbor library as the code calls it: coreconf_zcbor_generated/zcbor_encode.h, zcbor_decode.h
-- and zcbor_common.h. The library is a parameter of the model.
--
-- A call takes the state and gives the new one, with a `Bool` or with the value that it decoded.
pub mod Laws
pub mod Runs
pub mod Sequences
use ccoreconf_zcbor.Common.{ℕ, ◌/◌, ◌%◌, Bool, true, false, List, Option, none, some, ◌==◌}
use ccoreconf_zcbor.Common.{◌-◌, [], ◌∷◌, ◌++◌, length, if◌then◌else◌}
use ccoreconf_zcbor.Common.Int.{ℤ}

pub record Encoder : Type 1 where
  pub State : Type 0
  -- the number of backups, the size of the buffer and the number of elements
  pub new_encode_state : ℕ → ℕ → ℕ → State
  -- the bytes from the start of the buffer up to `payload`
  pub written : State → List ℕ
  pub uint32_put : ℕ → State → State × Bool
  pub uint64_put : ℕ → State → State × Bool
  pub int32_put : ℤ → State → State × Bool
  pub int64_put : ℤ → State → State × Bool
  pub float64_put : ℕ → State → State × Bool
  pub tstr_encode : List ℕ → State → State × Bool
  pub tstr_put_term : List ℕ → State → State × Bool
  pub bool_put : Bool → State → State × Bool
  pub nil_put : State → State × Bool
  pub list_start_encode : ℕ → State → State × Bool
  pub list_end_encode : ℕ → State → State × Bool
  pub map_start_encode : ℕ → State → State × Bool
  pub map_end_encode : ℕ → State → State × Bool

pub record Decoder : Type 1 where
  pub State : Type 0
  -- the number of backups, the bytes and the number of elements
  pub new_decode_state : ℕ → List ℕ → ℕ → State
  -- the bytes from `payload` up to `payload_end`
  pub payload : State → List ℕ
  pub uint64_decode : State → State × Option ℕ
  pub int64_decode : State → State × Option ℤ
  pub float64_decode : State → State × Option ℕ
  pub bstr_decode : State → State × Option (List ℕ)
  pub tstr_decode : State → State × Option (List ℕ)
  pub bool_decode : State → State × Option Bool
  pub nil_expect : State → State × Bool
  pub list_start_decode : State → State × Bool
  pub list_end_decode : State → State × Bool
  pub map_start_decode : State → State × Bool
  pub map_end_decode : State → State × Bool
  pub array_at_end : State → Bool
  -- `zcbor_any_skip` of one value
  pub any_skip : State → State × Bool
  -- `payload++`
  pub skip_byte : State → State

pub data MajorType : Type 0 where
  pint nint bstr tstr list map tag simple : MajorType

-- `ZCBOR_MAJOR_TYPE` of a header byte
unfoldable pub major_type : ℕ → MajorType
major_type header =
    let m = header / 32 % 8 in
    if m == 0
    then pint
    else if m == 1
    then nint
    else if m == 2
    then bstr
    else if m == 3
    then tstr
    else if m == 4
    then list
    else if m == 5
    then map
    else if m == 6
    then tag
    else simple

-- A step of the encoding code: the new state and whether it went well, or `none` where the code
-- reads through a NULL pointer.
abbrev pub Put : Type 0 → Type 0
Put S = S → Option (S × Bool)

abbrev pub put : {S : Type 0} → (S → S × Bool) → Put S
put f s = some (f s)

abbrev pub bind_put : {S : Type 0} → Option (S × Bool) → Put S → Option (S × Bool)
bind_put none q = none
bind_put (some (s, true)) q = q s
bind_put (some (s, false)) q = some (s, false)

-- `if (!p) return false; q`
infixr 5 ◌>>◌
abbrev pub ◌>>◌ : {S : Type 0} → Put S → Put S → Put S
◌>>◌ p q s = bind_put (p s) q

abbrev pub succeed : {S : Type 0} → Put S
succeed s = some (s, true)

abbrev pub forget : {S : Type 0} → Option (S × Bool) → Option (S × Bool)
forget none = none
forget (some (s, b)) = some (s, true)

-- a call whose result the code drops
abbrev pub attempt : {S : Type 0} → Put S → Put S
attempt p s = forget (p s)

-- A run of the decoding code: its result, or a read of a byte behind the end of the input, or fuel
-- that does not cover it.
pub data Run {ℓ} (A : Type ℓ) : Type ℓ where
  ret : A → Run A
  bad_read : Run A
  out_of_fuel : Run A

infixl 5 ◌>>=◌
abbrev pub ◌>>=◌ {ℓ κ} : {A : Type ℓ} {B : Type κ} → Run A → (A → Run B) → Run B
ret a >>= f = f a
bad_read >>= f = bad_read
out_of_fuel >>= f = out_of_fuel

abbrev pub run_of {ℓ} : {A : Type ℓ} → Option A → Run A
run_of none = out_of_fuel
run_of (some a) = ret a

-- The bytes that an encoding function leaves in its buffer; their number is what it returns, and
-- an error is no byte. `none` where the code reads through a NULL pointer.
abbrev pub Buffer : Type 0
Buffer = Option (List ℕ)

module _ (zcbor : Encoder) where
  open zcbor use {State, new_encode_state, written}

  unfoldable pub finish_encoding : Option (State × Bool) → Buffer
  finish_encoding none = none
  finish_encoding (some (s, true)) = some (written s)
  finish_encoding (some (s, false)) = some []

  -- One item after the other, each with a new state on what is left of the buffer.
  module _ {A : Type 0} (backups : ℕ) (encode_item : A → Put State) where
    unfoldable pub sequence_loop : List A → ℕ → List ℕ → Buffer
    sequence_loop [] buffer_size out = some out
    sequence_loop (a ∷ rest) buffer_size out =
        elim (encode_item a (new_encode_state backups (buffer_size - length out) 0)) [
          | none ↦ none
          | some (s, ok) ↦ elim ok [
            | true ↦ sequence_loop rest buffer_size (out ++ written s)
            | false ↦ some []
          ]
        ]
