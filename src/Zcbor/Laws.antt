-- ===== src/Zcbor/Laws.antt =====
-- What the code relies on in the encoding functions of zcbor, and the steps that follow from it.
use ccoreconf_zcbor.Common.{
  ℕ, ◌+◌, ◌≤◌, ◌≡◌, refl, sym, ◌∙◌, List, [], ◌++◌, append_assoc, append-nil, Bool, true, some,
  length, length-append, arith,
}
use ccoreconf_zcbor.Common.Int.{ℤ}
use ccoreconf_zcbor.Zcbor.{Encoder, Put, put, ◌>>◌, succeed, attempt}

module _ (zcbor : Encoder) where
  open zcbor use {
    State, new_encode_state, written, uint32_put, uint64_put, int32_put, int64_put, float64_put,
    tstr_encode, tstr_put_term, bool_put, nil_put, list_start_encode, list_end_encode,
    map_start_encode, map_end_encode,
  }

  -- A call that appends these bytes if they fit into the room that is left.
  abbrev pub Appends : (State → ℕ) → (State → State × Bool) → List ℕ → Type 0
  Appends room f bytes =
      (s : State)
      → length bytes ≤ room s
      → ((f s).1 ≡ true)
        × (written (f s).0 ≡ written s ++ bytes)
        × (room (f s).0 + length bytes ≡ room s)

  -- Each call has its bytes, and a number has the same ones at every width.
  pub record EncoderLaws : Type 0 where
    pub room : State → ℕ
    pub uint_bytes : ℕ → List ℕ
    pub int_bytes : ℤ → List ℕ
    pub float_bytes : ℕ → List ℕ
    pub text_bytes : List ℕ → List ℕ
    pub bool_bytes : Bool → List ℕ
    pub nil_bytes : List ℕ
    pub list_open : ℕ → List ℕ
    pub list_close : ℕ → List ℕ
    pub map_open : ℕ → List ℕ
    pub map_close : ℕ → List ℕ
    pub new_written : (b n e : ℕ) → written (new_encode_state b n e) ≡ []
    pub new_room : (b n e : ℕ) → room (new_encode_state b n e) ≡ n
    pub uint32 : (n : ℕ) → Appends room (uint32_put n) (uint_bytes n)
    pub uint64 : (n : ℕ) → Appends room (uint64_put n) (uint_bytes n)
    pub int32 : (z : ℤ) → Appends room (int32_put z) (int_bytes z)
    pub int64 : (z : ℤ) → Appends room (int64_put z) (int_bytes z)
    pub float64 : (d : ℕ) → Appends room (float64_put d) (float_bytes d)
    pub text : (t : List ℕ) → Appends room (tstr_encode t) (text_bytes t)
    pub text_term : (t : List ℕ) → Appends room (tstr_put_term t) (text_bytes t)
    pub bool : (b : Bool) → Appends room (bool_put b) (bool_bytes b)
    pub nil : Appends room nil_put nil_bytes
    pub list_start : (n : ℕ) → Appends room (list_start_encode n) (list_open n)
    pub list_end : (n : ℕ) → Appends room (list_end_encode n) (list_close n)
    pub map_start : (n : ℕ) → Appends room (map_start_encode n) (map_open n)
    pub map_end : (n : ℕ) → Appends room (map_end_encode n) (map_close n)

module _ {zcbor : Encoder} (laws : EncoderLaws zcbor) where
  open zcbor use {State, written}
  open laws use {room}

  -- A step that writes these bytes, and goes well, if they fit.
  abbrev pub Writes : Put State → List ℕ → Type 0
  Writes p bytes =
      (s : State)
      → length bytes ≤ room s
      → (s' : State) × (p s ≡ some (s', true))
        × (written s' ≡ written s ++ bytes)
        × (room s' + length bytes ≡ room s)

  pub put-Writes :
      (f : State → State × Bool) (bytes : List ℕ)
      → Appends zcbor room f bytes
      → Writes (put f) bytes
  put-Writes f bytes h s fits =
      let (went, wrote, left) = h s fits in ((f s).0, ground arith, wrote, left)

  pub succeed-Writes : Writes succeed []
  succeed-Writes s fits = (s, refl, sym (append-nil (written s)), omega arith)

  pub then-Writes :
      (p q : Put State) (a b : List ℕ) → Writes p a → Writes q b → Writes (p >> q) (a ++ b)
  then-Writes p q a b hp hq s fits =
      let (s₁, e₁, w₁, r₁) = hp s (omega (arith, length-append a b)) in
      let (s₂, e₂, w₂, r₂) = hq s₁ (omega (arith, length-append a b)) in
      (
        s₂,
        rw (e₁, ◌>>◌) e₂,
        w₂ ∙ rw w₁ (append_assoc (written s) a b),
        omega (arith, length-append a b),
      )

  pub attempt-Writes : (p : Put State) (a : List ℕ) → Writes p a → Writes (attempt p) a
  attempt-Writes p a hp s fits = let (s₁, e₁, w₁, r₁) = hp s fits in (s₁, rw (e₁, attempt), w₁, r₁)
