-- ===== src/Token/Base64.antt =====
-- Go's `base64.RawURLEncoding` as token/access.go uses it: a list of bytes is a list of numbers.
-- Decoding skips line ends and does not look at the bits that a last group leaves over.
use Prim.Native.Char.{Char, code, nul}
use Prim.Native.String as Text
use orbit_auth.Prelude.{
  ℕ, zero, suc, ◌+◌, ◌*◌, ◌/◌, ◌%◌, ◌-◌, ◌<◌, String, ◌≡◌, refl, Bool, true, false, ◌&&◌, ◌||◌, not,
  Bool-cases, Option-cases, inl, inr, Option, none, some, List, [], ◌∷◌, All, arith, leb, eqb,
  if◌then◌else◌,
}

alphabet : String
alphabet = "ABCDEFGHIJKLMNOPQRSTUVWXYZabcdefghijklmnopqrstuvwxyz0123456789-_"

nth : ℕ → String → Char
nth n Text.[] = nul
nth zero (Text.◌∷◌ c s) = c
nth (suc n) (Text.◌∷◌ c s) = nth n s

-- The letter of a group of six bits.
symbol : ℕ → Char
unfolding nth alphabet
symbol n = nth n alphabet

value : ℕ → Option ℕ
value c =
    if leb b'A' c && leb c b'Z'
    then some (c - b'A')
    else if leb b'a' c && leb c b'z'
    then some (c - b'a' + 26)
    else if leb b'0' c && leb c b'9'
    then some (c - b'0' + 52)
    else if eqb c b'-'
    then some 62
    else if eqb c b'_'
    then some 63
    else none

-- Six bits a letter.
letters : List ℕ → String
letters [] = Text.[]
letters (n ∷ l) = Text.◌∷◌ (symbol n) (letters l)

cons_found : Option ℕ → Option (List ℕ) → Option (List ℕ)
cons_found (some n) (some l) = some (n ∷ l)
cons_found _ _ = none

is_line_end : ℕ → Bool
is_line_end c = eqb c 10 || eqb c 13

sextets : String → Option (List ℕ)
unfolding cons_found is_line_end
sextets Text.[] = some []
sextets (Text.◌∷◌ c s) =
    let rest = sextets s in if is_line_end (code c) then rest else cons_found (value (code c)) rest

-- Three bytes are four groups of six bits; one byte is two groups, two bytes are three.
split : List ℕ → List ℕ
split [] = []
split (a ∷ []) = (a / 4) ∷ (a % 4 * 16) ∷ []
split (a ∷ b ∷ []) = (a / 4) ∷ (a % 4 * 16 + b / 16) ∷ (b % 16 * 4) ∷ []
split (a ∷ b ∷ c ∷ l) = (a / 4) ∷ (a % 4 * 16 + b / 16) ∷ (b % 16 * 4 + c / 64) ∷ (c % 64) ∷ split l

three : ℕ → ℕ → ℕ → ℕ → Option (List ℕ) → Option (List ℕ)
three x y z w none = none
three x y z w (some l) = some ((x * 4 + y / 16) ∷ (y % 16 * 16 + z / 4) ∷ (z % 4 * 64 + w) ∷ l)

join : List ℕ → Option (List ℕ)
unfolding three
join [] = some []
join (x ∷ []) = none
join (x ∷ y ∷ []) = some ((x * 4 + y / 16) ∷ [])
join (x ∷ y ∷ z ∷ []) = some ((x * 4 + y / 16) ∷ (y % 16 * 16 + z / 4) ∷ [])
join (x ∷ y ∷ z ∷ w ∷ l) = three x y z w (join l)

join_found : Option (List ℕ) → Option (List ℕ)
unfolding join
join_found none = none
join_found (some l) = join l

-- EncodeToString
unfoldable pub encode : List ℕ → String
unfolding letters split symbol
encode bytes = letters (split bytes)

-- DecodeString
unfoldable pub decode : String → Option (List ℕ)
unfolding sextets join_found value
decode text = join_found (sextets text)

hello : decode (encode (104 ∷ 105 ∷ 33 ∷ 255 ∷ [])) ≡ some (104 ∷ 105 ∷ 33 ∷ 255 ∷ [])
unfolding encode decode
hello = refl

skips_line_ends : decode "aG\nk" ≡ some (104 ∷ 105 ∷ [])
unfolding decode
skips_line_ends = refl

abbrev pub IsByte : ℕ → Type 0
IsByte b = b < 256

-- The letter of a group is read back as the group, and is no line end.
is_read_back : ℕ → Bool
unfolding is_line_end
is_read_back n = elim (value (code (symbol n))) [
  | none ↦ false
  | some m ↦ eqb m n && not (is_line_end (code (symbol n)))
]

read_back_below : ℕ → Bool
read_back_below zero = true
read_back_below (suc n) = is_read_back n && read_back_below n

all_read_back : read_back_below 64 ≡ true
unfolding read_back_below is_read_back value symbol is_line_end
all_read_back = refl

read_back_below-at : (n k : ℕ) → n < k → read_back_below k ≡ true → is_read_back n ≡ true
unfolding read_back_below
read_back_below-at n zero h e = absurd (omega arith)
read_back_below-at n (suc k) h e = ground (arith, read_back_below-at n k)

symbol-value :
    (n : ℕ) → n < 64 → (value (code (symbol n)) ≡ some n) × (is_line_end (code (symbol n)) ≡ false)
unfolding is_read_back
symbol-value n h = ground (arith, read_back_below-at n 64 h all_read_back)

sextets-letters : (l : List ℕ) → All (λ n. n < 64) l → sextets (letters l) ≡ some l
unfolding sextets letters cons_found
sextets-letters [] h = refl
sextets-letters (n ∷ l) h = ground (arith, symbol-value n h.0, sextets-letters l h.1)

split-small : (l : List ℕ) → All IsByte l → All (λ n. n < 64) (split l)
unfolding split
split-small [] h = tt
split-small (a ∷ []) h = omega arith
split-small (a ∷ b ∷ []) h = omega arith
split-small (a ∷ b ∷ c ∷ l) h =
    (omega arith, (omega arith, (omega arith, (omega arith, split-small l h.1.1.1))))

join-split : (l : List ℕ) → All IsByte l → join (split l) ≡ some l
unfolding join split three
join-split [] h = refl
join-split (a ∷ []) h = ground arith
join-split (a ∷ b ∷ []) h = ground arith
join-split (a ∷ b ∷ c ∷ l) h = ground (arith, join-split l h.1.1.1)

pub decode-encode : (bytes : List ℕ) → All IsByte bytes → decode (encode bytes) ≡ some bytes
unfolding decode encode join_found
decode-encode bytes h =
    rw (sextets-letters (split bytes) (split-small bytes h)) (join-split bytes h)

value-small : (c n : ℕ) → value c ≡ some n → n < 64
unfolding value
value-small c n e = ground arith

sextets-small : (s : String) (l : List ℕ) → sextets s ≡ some l → All (λ n. n < 64) l
unfolding sextets cons_found
sextets-small Text.[] l e = ground arith
sextets-small (Text.◌∷◌ c s) l e = elim (Bool-cases (is_line_end (code c))) [
  | inl skipped ↦ sextets-small s l (ground arith)
  | inr read ↦ elim (Option-cases (value (code c))) [
    | inl wrong ↦ absurd (ground arith)
    | inr (n, f) ↦ elim (Option-cases (sextets s)) [
      | inl wrong ↦ absurd (ground arith)
      | inr (m, g) ↦ ground (arith, value-small (code c) n f, sextets-small s m g)
    ]
  ]
]

join-IsByte : (l m : List ℕ) → All (λ n. n < 64) l → join l ≡ some m → All IsByte m
unfolding join three
join-IsByte [] m h e = ground arith
join-IsByte (x ∷ []) m h e = absurd (ground arith)
join-IsByte (x ∷ y ∷ []) m h e = ground arith
join-IsByte (x ∷ y ∷ z ∷ []) m h e = ground arith
join-IsByte (x ∷ y ∷ z ∷ w ∷ l) m h e = elim (Option-cases (join l)) [
  | inl wrong ↦ absurd (ground arith)
  | inr (r, f) ↦ ground (arith, join-IsByte l r h.1.1.1.1 f)
]

pub decode-IsByte : (text : String) (bytes : List ℕ) → decode text ≡ some bytes → All IsByte bytes
unfolding decode join_found
decode-IsByte text bytes e = elim (Option-cases (sextets text)) [
  | inl wrong ↦ absurd (ground arith)
  | inr (l, f) ↦ join-IsByte l bytes (sextets-small text l f) (ground arith)
]
