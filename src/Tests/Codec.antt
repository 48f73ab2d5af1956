-- ===== src/Tests/Codec.antt =====
-- A codec in the place of coreconf_zcbor_generated/: a part of CBOR, with lists and maps of
-- indefinite length, as zcbor writes them.
use ccoreconf_zcbor.Common.{
  ℕ, zero, suc, ◌||◌, ◌+◌, ◌-◌, ◌*◌, ◌/◌, ◌%◌, ◌^◌, ◌<◌, ◌≡◌, refl, ap, inl, inr, Bool-cases, List,
  [], ◌∷◌, ◌++◌, Bool, true, false, Option, none, some, ltb, leb, ◌==◌, if◌then◌else◌, length, take,
  drop, arith,
}
use ccoreconf_zcbor.Common.Int.{ℤ, pos, negsuc}
use ccoreconf_zcbor.Zcbor.{Encoder, Decoder}
use ccoreconf_zcbor.Zcbor.Laws.{EncoderLaws, Appends}
use ccoreconf_zcbor.Fetch.RoundTrip.{ReadsUint}

-- the bytes up to the end of what is written, and the room behind them
abbrev Written : Type 0
Written = List ℕ × ℕ

abbrev append_bytes : List ℕ → Written → Written × Bool
append_bytes bytes (out, room) =
    if leb (length bytes) room
    then ((out ++ bytes, room - length bytes), true)
    else ((out, room), false)

-- eight bytes, the highest first
abbrev word_bytes : ℕ → List ℕ
word_bytes n =
    n / 2 ^ 56 % 256
    ∷ n / 2 ^ 48 % 256
    ∷ n / 2 ^ 40 % 256
    ∷ n / 2 ^ 32 % 256
    ∷ n / 2 ^ 24 % 256
    ∷ n / 2 ^ 16 % 256
    ∷ n / 2 ^ 8 % 256
    ∷ n % 256
    ∷ []

abbrev uint_bytes : ℕ → List ℕ
uint_bytes n = if ltb n 24 then n ∷ [] else 27 ∷ word_bytes n

abbrev int_bytes : ℤ → List ℕ
int_bytes (pos n) = uint_bytes n
int_bytes (negsuc n) = 59 ∷ word_bytes n

abbrev text_bytes : List ℕ → List ℕ
text_bytes t = 123 ∷ (word_bytes (length t) ++ t)

abbrev bool_bytes : Bool → List ℕ
bool_bytes true = 245 ∷ []
bool_bytes false = 244 ∷ []

abbrev pub encoder : Encoder
encoder = record {
  State = Written;
  new_encode_state = λ b n e. ([], n);
  written = λ s. s.0;
  uint32_put = λ n. append_bytes (uint_bytes n);
  uint64_put = λ n. append_bytes (uint_bytes n);
  int32_put = λ z. append_bytes (int_bytes z);
  int64_put = λ z. append_bytes (int_bytes z);
  float64_put = λ d. append_bytes (251 ∷ word_bytes d);
  tstr_encode = λ t. append_bytes (text_bytes t);
  tstr_put_term = λ t. append_bytes (text_bytes t);
  bool_put = λ b. append_bytes (bool_bytes b);
  nil_put = append_bytes (246 ∷ []);
  list_start_encode = λ n. append_bytes (159 ∷ []);
  list_end_encode = λ n. append_bytes (255 ∷ []);
  map_start_encode = λ n. append_bytes (191 ∷ []);
  map_end_encode = λ n. append_bytes (255 ∷ []);
}

pub append_bytes-Appends : (bytes : List ℕ) → Appends encoder (λ s. s.1) (append_bytes bytes) bytes
append_bytes-Appends bytes (out, room) fits =
    let holds : leb (length bytes) room ≡ true = ground arith in
    rw holds (refl, refl, omega (arith, fits))

abbrev pub laws : EncoderLaws encoder
laws = record {
  room = λ s. s.1;
  uint_bytes = uint_bytes;
  int_bytes = int_bytes;
  float_bytes = λ d. 251 ∷ word_bytes d;
  text_bytes = text_bytes;
  bool_bytes = bool_bytes;
  nil_bytes = 246 ∷ [];
  list_open = λ n. 159 ∷ [];
  list_close = λ n. 255 ∷ [];
  map_open = λ n. 191 ∷ [];
  map_close = λ n. 255 ∷ [];
  new_written = λ b n e. refl;
  new_room = λ b n e. refl;
  uint32 = λ n. append_bytes-Appends _;
  uint64 = λ n. append_bytes-Appends _;
  int32 = λ z. append_bytes-Appends _;
  int64 = λ z. append_bytes-Appends _;
  float64 = λ d. append_bytes-Appends _;
  text = λ t. append_bytes-Appends _;
  text_term = λ t. append_bytes-Appends _;
  bool = λ b. append_bytes-Appends _;
  nil = append_bytes-Appends _;
  list_start = λ n. append_bytes-Appends _;
  list_end = λ n. append_bytes-Appends _;
  map_start = λ n. append_bytes-Appends _;
  map_end = λ n. append_bytes-Appends _;
}

abbrev pub read_word : List ℕ → Option (ℕ × List ℕ)
read_word (a ∷ b ∷ c ∷ d ∷ e ∷ f ∷ g ∷ h ∷ rest) = some (
  a * 2 ^ 56 + b * 2 ^ 48 + c * 2 ^ 40 + d * 2 ^ 32 + e * 2 ^ 24 + f * 2 ^ 16 + g * 2 ^ 8 + h,
  rest,
)
read_word _ = none

abbrev pub with_word :
    {A : Type 0} → List ℕ → (ℕ → List ℕ → List ℕ × A) → List ℕ → List ℕ × Option A
with_word s f bytes = elim (read_word bytes) [
  | none ↦ (s, none)
  | some r ↦ let (rest, a) = f r.0 r.1 in (rest, some a)
]

-- A head with one of these first bytes is read, and what follows goes on.
abbrev pub expect_byte : ℕ → List ℕ → List ℕ × Bool
expect_byte b [] = ([], false)
expect_byte b (c ∷ s) = if b == c then (s, true) else (c ∷ s, false)

abbrev pub read_uint : List ℕ → List ℕ × Option ℕ
read_uint [] = ([], none)
read_uint (b ∷ s) =
    if ltb b 24
    then (s, some b)
    else if b == 27
    then with_word (b ∷ s) (λ n rest. (rest, n)) s
    else (b ∷ s, none)

abbrev read_int : List ℕ → List ℕ × Option ℤ
read_int [] = ([], none)
read_int (b ∷ s) =
    if ltb b 24
    then (s, some (pos b))
    else if b == 27
    then with_word (b ∷ s) (λ n rest. (rest, pos n)) s
    else if b == 59
    then with_word (b ∷ s) (λ n rest. (rest, negsuc n)) s
    else (b ∷ s, none)

-- what follows a first byte: a word, or a text with a word as its length
abbrev read_after : {A : Type 0} → ℕ → (ℕ → List ℕ → List ℕ × A) → List ℕ → List ℕ × Option A
read_after b f [] = ([], none)
read_after b f (c ∷ s) = if b == c then with_word (c ∷ s) f s else (c ∷ s, none)

abbrev read_bool : List ℕ → List ℕ × Option Bool
read_bool [] = ([], none)
read_bool (b ∷ s) =
    if b == 245 then (s, some true) else if b == 244 then (s, some false) else (b ∷ s, none)

abbrev at_end : List ℕ → Bool
at_end [] = true
at_end (b ∷ s) = b == 255

-- the rest behind one value: `depth` lists or maps are open around it
abbrev pub skip_value : ℕ → ℕ → List ℕ → List ℕ × Bool
skip_value zero depth bytes = (bytes, false)
skip_value (suc fuel) depth [] = ([], false)
skip_value (suc fuel) depth (b ∷ bytes) =
    let rest = skip_value fuel in
    let after : ℕ → List ℕ → List ℕ × Bool =
      λ d s. elim d [ zero ↦ (s, true) | suc d' ↦ rest (suc d') s ] in
    if b == 159 || b == 191
    then rest (suc depth) bytes
    else if b == 255
    then after (depth - 1) bytes
    else if b == 27 || b == 59 || b == 251
    then after depth (drop 8 bytes)
    else if b == 91 || b == 123
    then after depth (with_word bytes (λ n s. (drop n s, tt)) bytes).0
    else after depth bytes

abbrev pub decoder : Decoder
decoder = record {
  State = List ℕ;
  new_decode_state = λ b bytes e. bytes;
  payload = λ s. s;
  uint64_decode = read_uint;
  int64_decode = read_int;
  float64_decode = read_after 251 (λ d rest. (rest, d));
  bstr_decode = read_after 91 (λ n rest. (drop n rest, take n rest));
  tstr_decode = read_after 123 (λ n rest. (drop n rest, take n rest));
  bool_decode = read_bool;
  nil_expect = expect_byte 246;
  list_start_decode = expect_byte 159;
  list_end_decode = expect_byte 255;
  map_start_decode = expect_byte 191;
  map_end_decode = expect_byte 255;
  array_at_end = at_end;
  any_skip = λ s. skip_value (length s) 0 s;
  skip_byte = drop 1;
}

word_sum :
    (n : ℕ)
    → n < 2 ^ 64
    → n / 2 ^ 56 % 256 * 2 ^ 56
        + n / 2 ^ 48 % 256 * 2 ^ 48
        + n / 2 ^ 40 % 256 * 2 ^ 40
        + n / 2 ^ 32 % 256 * 2 ^ 32
        + n / 2 ^ 24 % 256 * 2 ^ 24
        + n / 2 ^ 16 % 256 * 2 ^ 16
        + n / 2 ^ 8 % 256 * 2 ^ 8
        + n % 256
      ≡ n
word_sum n h = omega arith

pub reads_uint : ReadsUint laws decoder
reads_uint = record {
  reads = λ b n rest h. elim (Bool-cases (ltb n 24)) [
    | inl small ↦ rw (small, small) (refl, refl)
    | inr large ↦ rw large (ap some (word_sum n h), refl)
  ];
  nonempty = λ n. elim (Bool-cases (ltb n 24)) [
    | inl small ↦ rw small (omega arith)
    | inr large ↦ rw large (omega arith)
  ];
}
