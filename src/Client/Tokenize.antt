-- ===== src/Client/Tokenize.antt =====
-- iot_containers/iot_apps/coreconf_cli.c: `tokenize`, which cuts a line into the name of a command and
-- its arguments.
use ccoreconf_zcbor.Common.{
  ℕ, zero, suc, ◌≡◌, refl, ap, List, [], ◌∷◌, ◌++◌, Bool, true, false, ◌||◌, ◌==◌, if◌then◌else◌,
  take,
}

abbrev pub max_args : ℕ
max_args = 32

unfoldable pub is_blank : ℕ → Bool
is_blank c = c == b' ' || c == b'\t'

-- a byte that ends a word
unfoldable pub ends_word : ℕ → Bool
unfolding is_blank
ends_word c = is_blank c || c == b'\n'

unfoldable pub skip_white : List ℕ → List ℕ
unfolding is_blank
skip_white [] = []
skip_white (c ∷ line) = if is_blank c then skip_white line else c ∷ line

unfoldable pub before : ℕ → List ℕ × List ℕ → List ℕ × List ℕ
before c (word, line) = (c ∷ word, line)

-- a word, and the line behind the byte that ends it, which is overwritten with a NUL
unfoldable pub split_word : List ℕ → List ℕ × List ℕ
unfolding ends_word before
split_word [] = ([], [])
split_word (c ∷ line) = if ends_word c then ([], line) else before c (split_word line)

unfoldable pub next_word : (List ℕ → List (List ℕ)) → List ℕ → List (List ℕ)
unfolding split_word
next_word go_on [] = []
next_word go_on (c ∷ line) = elim (c == b'\n') [
  | true ↦ []
  | false ↦ (split_word (c ∷ line)).0 ∷ go_on (split_word (c ∷ line)).1
]

-- the loop, with the room left in `argv`
unfoldable pub tokenize : ℕ → List ℕ → List (List ℕ)
unfolding skip_white next_word
tokenize zero line = []
tokenize (suc room) line = next_word (tokenize room) (skip_white line)

abbrev NoEnd : List ℕ → Type 0
NoEnd [] = Unit
NoEnd (c ∷ word) = (ends_word c ≡ false) × NoEnd word

-- a word has a byte, and none that ends a word
abbrev pub IsWord : List ℕ → Type 0
IsWord [] = ⊥
IsWord (c ∷ word) = NoEnd (c ∷ word)

abbrev pub AllWords : List (List ℕ) → Type 0
AllWords [] = Unit
AllWords (w ∷ ws) = IsWord w × AllWords ws

-- the words with a blank behind each
abbrev pub spaced : List (List ℕ) → List ℕ
spaced [] = []
spaced (w ∷ ws) = w ++ (b' ' ∷ spaced ws)

split_word-word :
    (word line : List ℕ) → NoEnd word → split_word (word ++ (b' ' ∷ line)) ≡ (word, line)
unfolding split_word ends_word is_blank before
split_word-word [] line h = refl
split_word-word (c ∷ word) line h = rw h.0 (ap (λ p. before c p) (split_word-word word line h.1))

neither : (a b : Bool) → (a || b) ≡ false → (a ≡ false) × (b ≡ false)
neither false false h = (refl, refl)
neither false true h = cc
neither true b h = cc

-- Of a line that has a blank behind each of its words, the words come back in their order, up to as
-- many as there is room for: what is left over is dropped.
pub tokenize-spaced :
    (room : ℕ) (words : List (List ℕ))
    → AllWords words
    → tokenize room (spaced words) ≡ take room words
unfolding tokenize ends_word
tokenize-spaced zero words h = refl
tokenize-spaced (suc room) [] h = unfold skip_white in unfold next_word in refl
tokenize-spaced (suc room) ([] ∷ ws) h = absurd h.0
tokenize-spaced (suc room) ((c ∷ word) ∷ ws) h =
    let cut = split_word-word (c ∷ word) (spaced ws) h.0 in
    let (not_blank, not_end) = neither (is_blank c) (c == b'\n') h.0.0 in
    rw (not_blank, next_word, not_end, cut, tokenize-spaced room ws h.1) refl
