-- ===== src/Token/BigEndian.antt =====
-- Go's `big.Int` as token/access.go uses it: `Bytes` and `SetBytes`, most significant byte first.
use mathlib.Core.Logic.{dite, dif_pos, dif_neg}
use mathlib.Core.WellFounded.{Acc}
use native.Mathlib.Decide.{dec_lt}
use native.Mathlib.Bridge.{le_prop}
use orbit_auth.Prelude.{
  ℕ, zero, suc, ◌+◌, ◌*◌, ◌/◌, ◌%◌, ◌<◌, ◌≤◌, ◌≡◌, refl, ◌∙◌, ap, ◌^◌, List, [], ◌∷◌, All, length,
  arith,
}
use orbit_auth.Token.Base64.{IsByte}

acc_under : (k n : ℕ) → n < k → Acc ◌<◌ n
acc_under zero n h = absurd (omega arith)
acc_under (suc k) n h = Acc.intro n (λ m p. acc_under k m (omega arith))

rest_lt : (n : ℕ) → 0 < n → n / 256 < n
rest_lt n h = omega arith

-- The bytes of the number before those that are already there.
bytes_onto : (n : ℕ) → List ℕ → Acc ◌<◌ n → List ℕ
bytes_onto n l (Acc.intro _ smaller) =
    dite (dec_lt 0 n) (λ p. bytes_onto (n / 256) ((n % 256) ∷ l) (smaller (n / 256) (rest_lt n p)))
      (λ _. l)

-- Bytes
unfoldable pub to_bytes : ℕ → List ℕ
unfolding bytes_onto acc_under dec_lt rest_lt
to_bytes n = bytes_onto n [] (acc_under (suc n) n (omega arith))

unfoldable pub bytes_from : ℕ → List ℕ → ℕ
bytes_from n [] = n
bytes_from n (b ∷ l) = bytes_from (n * 256 + b) l

-- SetBytes
unfoldable pub of_bytes : List ℕ → ℕ
of_bytes l = bytes_from 0 l

exponent_bytes : to_bytes 65537 ≡ 1 ∷ 0 ∷ 1 ∷ []
unfolding to_bytes
exponent_bytes = refl

bytes_from-bytes_onto :
    (n : ℕ) (l : List ℕ) (w : Acc ◌<◌ n) → bytes_from 0 (bytes_onto n l w) ≡ bytes_from n l
unfolding bytes_onto bytes_from
bytes_from-bytes_onto n l (Acc.intro _ smaller) = elim (dec_lt 0 n) [
  | yes p ↦ rw (dif_pos (dec_lt 0 n) le_prop p) (
      bytes_from-bytes_onto (n / 256) ((n % 256) ∷ l) (smaller (n / 256) (rest_lt n p))
      ∙ ap (λ m. bytes_from m l) (omega arith))
  | no p ↦ rw (dif_neg (dec_lt 0 n) p) (ap (λ m. bytes_from m l) (omega arith))
]

pub of_bytes-to_bytes : (n : ℕ) → of_bytes (to_bytes n) ≡ n
unfolding of_bytes to_bytes bytes_from
of_bytes-to_bytes n = bytes_from-bytes_onto n [] (acc_under (suc n) n (omega arith))

bytes_onto-IsByte :
    (n : ℕ) (l : List ℕ) (w : Acc ◌<◌ n) → All IsByte l → All IsByte (bytes_onto n l w)
unfolding bytes_onto
bytes_onto-IsByte n l (Acc.intro _ smaller) h = elim (dec_lt 0 n) [
  | yes p ↦ rw (dif_pos (dec_lt 0 n) le_prop p) (
      bytes_onto-IsByte (n / 256) ((n % 256) ∷ l) (smaller (n / 256) (rest_lt n p))
        (omega arith, h))
  | no p ↦ rw (dif_neg (dec_lt 0 n) p) h
]

pub to_bytes-IsByte : (n : ℕ) → All IsByte (to_bytes n)
unfolding to_bytes
to_bytes-IsByte n = bytes_onto-IsByte n [] (acc_under (suc n) n (omega arith)) tt

-- Four bytes at most hold a number below 2 ^ 32.
pub of_bytes-lt : (l : List ℕ) → All IsByte l → length l ≤ 4 → of_bytes l < 2 ^ 32
unfolding of_bytes bytes_from
of_bytes-lt [] h b = omega arith
of_bytes-lt (a ∷ []) h b = omega arith
of_bytes-lt (a ∷ x ∷ []) h b = omega arith
of_bytes-lt (a ∷ x ∷ y ∷ []) h b = omega arith
of_bytes-lt (a ∷ x ∷ y ∷ z ∷ []) h b = omega arith
of_bytes-lt (a ∷ x ∷ y ∷ z ∷ w ∷ l) h b = absurd (omega arith)

abbrev bytes_bound : ℕ → ℕ
bytes_bound zero = 1
bytes_bound (suc k) = 256 * bytes_bound k

length-bytes_onto-le :
    (k n : ℕ) (l : List ℕ) (w : Acc ◌<◌ n)
    → n < bytes_bound k
    → length (bytes_onto n l w) ≤ k + length l
unfolding bytes_onto
length-bytes_onto-le zero n l (Acc.intro _ smaller) h = elim (dec_lt 0 n) [
  | no p ↦ rw (dif_neg (dec_lt 0 n) p) (omega arith)
  | yes p ↦ absurd (omega arith)
]
length-bytes_onto-le (suc k) n l (Acc.intro _ smaller) h = elim (dec_lt 0 n) [
  | no p ↦ rw (dif_neg (dec_lt 0 n) p) (omega arith)
  | yes p ↦ rw (dif_pos (dec_lt 0 n) le_prop p) (
      le_of k (length l) (
        length-bytes_onto-le k (n / 256) ((n % 256) ∷ l) (smaller (n / 256) (rest_lt n p))
          (omega arith)))
]
  where
    le_of : {a : ℕ} (b c : ℕ) → a ≤ b + suc c → a ≤ suc b + c
    le_of b c h = omega arith

length-bytes_onto-ge : (n : ℕ) (l : List ℕ) (w : Acc ◌<◌ n) → length l ≤ length (bytes_onto n l w)
unfolding bytes_onto
length-bytes_onto-ge n l (Acc.intro _ smaller) = elim (dec_lt 0 n) [
  | no p ↦ rw (dif_neg (dec_lt 0 n) p) (omega arith)
  | yes p ↦
      rw (dif_pos (dec_lt 0 n) le_prop p)
        (le_of (length-bytes_onto-ge (n / 256) ((n % 256) ∷ l) (smaller (n / 256) (rest_lt n p))))
]
  where
    le_of : {a b : ℕ} → suc a ≤ b → a ≤ b
    le_of h = omega arith

pub length-to_bytes-le : (n : ℕ) → n < 2 ^ 32 → length (to_bytes n) ≤ 4
unfolding to_bytes
length-to_bytes-le n small =
    length-bytes_onto-le 4 n [] (acc_under (suc n) n (omega arith)) (omega arith)

-- A list of bytes of a number that is not zero has a byte.
pub of_bytes-nonempty : (l : List ℕ) → 0 < of_bytes l → 0 < length l
unfolding of_bytes bytes_from
of_bytes-nonempty [] h = absurd (omega arith)
of_bytes-nonempty (b ∷ l) h = omega arith
