-- ===== src/Prelude/GoText.antt =====
-- Go's `strings` package, as far as the program uses it, over the native texts.
use Prim.Native.Nat.{ℕ}
use Prim.Native.Char.{Char, code}
use Prim.Native.String.{String, [], ◌∷◌}
use mathlib.Core.Bool.{Bool, true, false, ◌&&◌, ◌||◌}
use mathlib.Core.Path.{◌≡◌, refl}
use native.Mathlib.Omega.{arith}
use orbit_auth.Prelude.Tests.{leb, ltb, if◌then◌else◌}

-- unicode.IsSpace
abbrev pub is_space : ℕ → Bool
is_space c =
    (leb 9 c && leb c 13)
    || (leb 32 c && leb c 32)
    || (leb 0x85 c && leb c 0x85)
    || (leb 0xa0 c && leb c 0xa0)
    || (leb 0x1680 c && leb c 0x1680)
    || (leb 0x2000 c && leb c 0x200a)
    || (leb 0x2028 c && leb c 0x2029)
    || (leb 0x202f c && leb c 0x202f)
    || (leb 0x205f c && leb c 0x205f)
    || (leb 0x3000 c && leb c 0x3000)

trim_left : String → String
trim_left [] = []
trim_left (c ∷ s) = if is_space (code c) then trim_left s else c ∷ s

-- A space before what `s` leaves when it leaves nothing goes too.
snoc_trim : Char → String → String
snoc_trim c [] = if is_space (code c) then [] else c ∷ []
snoc_trim c (d ∷ s) = c ∷ d ∷ s

trim_right : String → String
trim_right [] = []
trim_right (c ∷ s) = snoc_trim c (trim_right s)

-- strings.TrimSpace
unfoldable pub trim_space : String → String
unfolding trim_left trim_right snoc_trim
trim_space s = trim_right (trim_left s)

trims : trim_space " a b\n" ≡ "a b"
unfolding trim_space
trims = refl

-- The order of `sort.Strings`: by code points, which is the order of the UTF-8 bytes.
unfoldable pub string_le : String → String → Bool
string_le [] t = true
string_le (c ∷ s) [] = false
string_le (c ∷ s) (d ∷ t) =
    let rest = string_le s t in
    if ltb (code c) (code d) then true else if ltb (code d) (code c) then false else rest

pub string_le_total : (s t : String) → string_le s t ≡ false → string_le t s ≡ true
unfolding string_le
string_le_total [] t h = ground arith
string_le_total (c ∷ s) [] h = refl
string_le_total (c ∷ s) (d ∷ t) h = ground (arith, string_le_total s t)

abbrev pub NoSpaces : String → Type 0
NoSpaces [] = Unit
NoSpaces (c ∷ s) = (is_space (code c) ≡ false) × NoSpaces s

trim_right_of_NoSpaces : (s : String) → NoSpaces s → trim_right s ≡ s
unfolding trim_right snoc_trim
trim_right_of_NoSpaces [] h = refl
trim_right_of_NoSpaces (c ∷ s) h = rw (trim_right_of_NoSpaces s h.1) (snoc_keeps s)
  where
    snoc_keeps : (t : String) → snoc_trim c t ≡ c ∷ t
    snoc_keeps [] = rw (h.0, snoc_trim)
    snoc_keeps (d ∷ t) = refl

pub trim_space_of_NoSpaces : (s : String) → NoSpaces s → trim_space s ≡ s
unfolding trim_space
trim_space_of_NoSpaces [] h = refl
trim_space_of_NoSpaces (c ∷ s) h = rw h.0 (trim_right_of_NoSpaces (c ∷ s) h)

-- The text does not start with a space.
abbrev StartsSolid : String → Type 0
StartsSolid [] = Unit
StartsSolid (c ∷ s) = is_space (code c) ≡ false

trim_left-StartsSolid : (s : String) → StartsSolid (trim_left s)
unfolding trim_left
trim_left-StartsSolid [] = tt
trim_left-StartsSolid (c ∷ s) =
    elim (is_space (code c))
        as (λ b. is_space (code c) ≡ b → StartsSolid (if b then trim_left s else c ∷ s)) [
          | true ↦ λ e. trim_left-StartsSolid s
          | false ↦ λ e. e
        ]
      refl

trim_left_of_solid : (s : String) → StartsSolid s → trim_left s ≡ s
unfolding trim_left
trim_left_of_solid [] h = refl
trim_left_of_solid (c ∷ s) h = rw h refl

snoc_trim-StartsSolid :
    (c : Char) (s : String) → is_space (code c) ≡ false → StartsSolid (snoc_trim c s)
unfolding snoc_trim
snoc_trim-StartsSolid c [] h = rw h h
snoc_trim-StartsSolid c (d ∷ s) h = h

trim_right-StartsSolid : (s : String) → StartsSolid s → StartsSolid (trim_right s)
unfolding trim_right
trim_right-StartsSolid [] h = tt
trim_right-StartsSolid (c ∷ s) h = snoc_trim-StartsSolid c (trim_right s) h

trim_right-snoc_trim :
    (c : Char) (s : String) → trim_right s ≡ s → trim_right (snoc_trim c s) ≡ snoc_trim c s
unfolding trim_right snoc_trim
trim_right-snoc_trim c [] h =
    elim (is_space (code c))
        as (λ b.
          is_space (code c) ≡ b
          → trim_right (if b then [] else c ∷ []) ≡ (if b then [] else c ∷ [])) [
            | true ↦ λ e. refl
            | false ↦ λ e. rw e refl
          ]
      refl
trim_right-snoc_trim c (d ∷ s) h = rw h refl

trim_right-trim_right : (s : String) → trim_right (trim_right s) ≡ trim_right s
unfolding trim_right
trim_right-trim_right [] = refl
trim_right-trim_right (c ∷ s) = trim_right-snoc_trim c (trim_right s) (trim_right-trim_right s)

pub trim_space-trim_space : (s : String) → trim_space (trim_space s) ≡ trim_space s
unfolding trim_space
trim_space-trim_space s =
    rw
      (trim_left_of_solid (trim_right (trim_left s))
        (trim_right-StartsSolid (trim_left s) (trim_left-StartsSolid s)))
      (trim_right-trim_right (trim_left s))
