-- ===== src/Prelude/Cuts.antt =====
-- Go's `len`, slicing, strings.TrimPrefix and strings.SplitN on texts. A text counts its UTF-8
-- bytes.
use Prim.Native.Char.{Char, code}
use Prim.Native.Nat.{ℕ, ◌+◌, ◌-◌}
use Prim.Native.String.{String, [], ◌∷◌, ◌++◌}
use mathlib.Core.Option.{Option, none, some}
use mathlib.Core.Path.{◌≡◌, refl, sym, subst, ap, ◌∙◌}
use mathlib.Core.Logic.{inl, inr}
use Prim.Native.String.append
use native.Mathlib.Omega.{arith}
use orbit_auth.Prelude.GoText.{NoSpaces}
use mathlib.Core.Bool.{true, false}
use orbit_auth.Prelude.Tests.{Option-cases, Bool-cases, ltb, eqb, if◌then◌else◌}

char_bytes : ℕ → ℕ
char_bytes c = if ltb c 0x80 then 1 else if ltb c 0x800 then 2 else if ltb c 0x10000 then 3 else 4

-- `len(s)`
unfoldable pub byte_length : String → ℕ
unfolding char_bytes
byte_length [] = 0
byte_length (c ∷ s) = char_bytes (code c) + byte_length s

cons_cut : Char → Option (String × String) → Option (String × String)
cons_cut c none = none
cons_cut c (some (p, r)) = some (c ∷ p, r)

-- `s[:n]` and `s[n:]`; none where the text is too short or a character would be cut.
unfoldable pub cut_bytes : ℕ → String → Option (String × String)
unfolding char_bytes cons_cut
cut_bytes n [] = if eqb n 0 then some ([], []) else none
cut_bytes n (c ∷ s) =
    let rest = cut_bytes (n - char_bytes (code c)) s in
    if eqb n 0
    then some ([], c ∷ s)
    else if ltb n (char_bytes (code c))
    then none
    else cons_cut c rest

-- The text after a prefix.
strip : String → String → Option String
strip [] s = some s
strip (c ∷ p) [] = none
strip (c ∷ p) (d ∷ s) = if eqb (code c) (code d) then strip p s else none

or_whole : String → Option String → String
or_whole s none = s
or_whole s (some t) = t

-- strings.TrimPrefix
unfoldable pub trim_prefix : String → String → String
unfolding strip or_whole
trim_prefix s p = or_whole s (strip p s)

-- strings.SplitN(s, sep, 2): the two parts, if the separator is there.
unfoldable pub cut_at : ℕ → String → Option (String × String)
unfolding cons_cut
cut_at sep [] = none
cut_at sep (c ∷ s) =
    let rest = cut_at sep s in if eqb (code c) sep then some ([], s) else cons_cut c rest

cuts : cut_at b'.' "ab.cd.e" ≡ some ("ab", "cd.e")
unfolding cut_at
cuts = refl

slices : cut_bytes 3 "abcd" ≡ some ("abc", "d")
unfolding cut_bytes
slices = refl

strips : trim_prefix "oat_x" "oat_" ≡ "x"
unfolding trim_prefix
strips = refl

appends : "ab" ++ "c" ≡ "abc"
appends = refl

abbrev pub HasNo : ℕ → String → Type 0
HasNo sep [] = Unit
HasNo sep (c ∷ s) = (eqb (code c) sep ≡ false) × HasNo sep s

append_nil : (t : String) → [] ++ t ≡ t
append_nil t = append.nil t

append_cons : (c : Char) (s t : String) → (c ∷ s) ++ t ≡ c ∷ (s ++ t)
append_cons c s t = append.cons c s t

-- The text in two parts, the first of `n` bytes.
abbrev pub IsCut : ℕ → String → String → String → Type 0
IsCut n s p r = (p ++ r ≡ s) × (byte_length p ≡ n)

abbrev whole_text : String → Option (String × String)
whole_text s = some ([], s)

IsCut-nothing :
    (n : ℕ) (s p r : String) → eqb n 0 ≡ true → whole_text s ≡ some (p, r) → IsCut n s p r
unfolding byte_length
IsCut-nothing n s p r zero e =
    let no_prefix : [] ≡ p = ground arith in
    let same_rest : s ≡ r = ground arith in
    subst (λ x. IsCut n s x r) no_prefix
      (subst (λ x. IsCut n s [] x) same_rest (append_nil s, ground arith))

IsCut-first :
    (n : ℕ) (c : Char) (s q t p r : String)
    → ltb n (char_bytes (code c)) ≡ false
    → IsCut (n - char_bytes (code c)) s q t
    → cons_cut c (some (q, t)) ≡ some (p, r)
    → IsCut n (c ∷ s) p r
unfolding byte_length cons_cut
IsCut-first n c s q t p r room (parts, size) e =
    let same_prefix : c ∷ q ≡ p = ground arith in
    let same_rest : t ≡ r = ground arith in
    subst (λ x. IsCut n (c ∷ s) x r) same_prefix
      (subst (λ x. IsCut n (c ∷ s) (c ∷ q) x) same_rest
        (
          append_cons c q t ∙ ap (λ x. c ∷ x) parts,
          fits (char_bytes (code c)) (byte_length q) room size,
        ))
  where
    fits : (k l : ℕ) → ltb n k ≡ false → l ≡ n - k → k + l ≡ n
    fits k l h e = ground arith

pub append-cut_bytes : (n : ℕ) (s p r : String) → cut_bytes n s ≡ some (p, r) → IsCut n s p r
unfolding cut_bytes cons_cut
append-cut_bytes n [] p r h = elim (Bool-cases (eqb n 0)) [
  | inl zero ↦ IsCut-nothing n [] p r zero (ground (arith, zero, h))
  | inr more ↦ absurd (ground (arith, more, h))
]
append-cut_bytes n (c ∷ s) p r h = elim (Bool-cases (eqb n 0)) [
  | inl zero ↦ IsCut-nothing n (c ∷ s) p r zero (ground (arith, zero, h))
  | inr more ↦ elim (Bool-cases (ltb n (char_bytes (code c)))) [
    | inl short ↦ absurd (ground (arith, more, short, h))
    | inr room ↦ elim (Option-cases (cut_bytes (n - char_bytes (code c)) s)) [
      | inl none_left ↦ absurd (ground (arith, more, room, none_left, h))
      | inr ((q, t), e) ↦
          IsCut-first n c s q t p r room (append-cut_bytes (n - char_bytes (code c)) s q t e)
            (ground (arith, more, room, e, h))
    ]
  ]
]

strip-append : (p s : String) → strip p (p ++ s) ≡ some s
unfolding strip
strip-append [] s = rw (append_nil s) refl
strip-append (c ∷ p) s = rw (append_cons c p s, strip) (ground (arith, strip-append p s))

pub trim_prefix-append : (p s : String) → trim_prefix (p ++ s) p ≡ s
unfolding trim_prefix or_whole
trim_prefix-append p s = rw (strip-append p s) refl

pub cut_at-append :
    (sep : Char) (p r : String)
    → HasNo (code sep) p
    → cut_at (code sep) (p ++ (sep ∷ r)) ≡ some (p, r)
unfolding cut_at cons_cut
cut_at-append sep [] r h = rw (append_nil (sep ∷ r)) (ground arith)
cut_at-append sep (c ∷ p) r h =
    rw (append_cons c p (sep ∷ r), cut_at) (rw h.0 (rw (cut_at-append sep p r h.1) refl))

pub NoSpaces-append : (p s : String) → NoSpaces p → NoSpaces s → NoSpaces (p ++ s)
NoSpaces-append [] s hp hs = rw (append_nil s) hs
NoSpaces-append (c ∷ p) s hp hs =
    subst NoSpaces (sym (append_cons c p s)) (hp.0, NoSpaces-append p s hp.1 hs)

pub append-NoSpaces : (p s : String) → NoSpaces (p ++ s) → NoSpaces p × NoSpaces s
append-NoSpaces [] s h = (tt, subst NoSpaces (append_nil s) h)
append-NoSpaces (c ∷ p) s h =
    let both : NoSpaces (c ∷ (p ++ s)) = subst NoSpaces (append_cons c p s) h in
    let rest = append-NoSpaces p s both.1 in ((both.0, rest.0), rest.1)

pub append-HasNo : (sep : ℕ) (p s : String) → HasNo sep (p ++ s) → HasNo sep p
append-HasNo sep [] s h = tt
append-HasNo sep (c ∷ p) s h =
    let both : HasNo sep (c ∷ (p ++ s)) = subst (HasNo sep) (append_cons c p s) h in
    (both.0, append-HasNo sep p s both.1)
