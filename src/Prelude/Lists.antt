-- ===== src/Prelude/Lists.antt =====
-- Predicates on lists by recursion, which the tactics read, and the Boolean searches of the
-- program's loops.
use Prim.Native.Nat.{ℕ, suc}
use Prim.Native.String.{String}
use mathlib.Core.Path.{◌≡◌, refl}
use mathlib.Core.Logic.{◌↔◌, ◌⊎◌, inl, inr}
use mathlib.Core.Bool.{Bool, true, false, ◌||◌}
use mathlib.Core.List.{List, [], ◌∷◌, ◌++◌}
use native.Mathlib.Omega.{arith}
use text.Mathlib.Text.{◌==◌}
use text.Mathlib.TextEquality.{eq_iff}
use orbit_auth.Prelude.Tests.{if◌then◌else◌, Bool-cases, String-cases}

module _ {ℓ} {A : Type ℓ} where
  abbrev pub length : List A → ℕ
  length [] = 0
  length (x ∷ xs) = suc (length xs)

  abbrev pub any : (A → Bool) → List A → Bool
  any p [] = false
  any p (x ∷ xs) = p x || any p xs

module _ {ℓ} {A : Type ℓ} (P : A → Type 0) where
  -- Every item satisfies `P`.
  abbrev pub All : List A → Type 0
  All [] = Unit
  All (x ∷ xs) = P x × All xs

  -- Some item satisfies `P`; the proof says which.
  abbrev pub Any : List A → Type 0
  Any [] = ⊥
  Any (x ∷ xs) = P x ⊎ Any xs

  pub All-append : (xs ys : List A) → All xs → All ys → All (xs ++ ys)
  All-append [] ys hx hy = hy
  All-append (x ∷ xs) ys (h, hx) hy = (h, All-append xs ys hx hy)

module _ {ℓ} {A : Type ℓ} (P : A → Type 0) where
  pub All-if :
      (b : Bool) (xs ys : List A)
      → (b ≡ true → All P xs)
      → (b ≡ false → All P ys)
      → All P (if b then xs else ys)
  All-if true xs ys hx hy = hx refl
  All-if false xs ys hx hy = hy refl

module _ {ℓ} {A : Type ℓ} {P Q : A → Type 0} where
  pub All-map : (xs : List A) → ((x : A) → P x → Q x) → All P xs → All Q xs
  All-map [] f h = tt
  All-map (x ∷ xs) f (h, hs) = (f x h, All-map xs f hs)

  pub Any-map : (xs : List A) → ((x : A) → P x → Q x) → Any P xs → Any Q xs
  Any-map [] f h = absurd h
  Any-map (x ∷ xs) f (inl h) = inl (f x h)
  Any-map (x ∷ xs) f (inr h) = inr (Any-map xs f h)

module _ {ℓ} {A : Type ℓ} {P Q R : A → Type 0} where
  -- A fact about every item joins the item that `Any` finds.
  pub Any-map_All : (xs : List A) → ((x : A) → P x → Q x → R x) → All P xs → Any Q xs → Any R xs
  Any-map_All [] f p q = absurd q
  Any-map_All (x ∷ xs) f (p, ps) (inl q) = inl (f x p q)
  Any-map_All (x ∷ xs) f (p, ps) (inr q) = inr (Any-map_All xs f ps q)

-- Membership in a list of texts, as a proposition and as the test `_, ok := set[x]`.
abbrev pub In : String → List String → Type 0
In s xs = Any (λ x. x ≡ s) xs

abbrev pub contains : String → List String → Bool
contains s xs = any (λ x. x == s) xs

pub contains_iff : (s : String) (xs : List String) → (contains s xs ≡ true) ↔ In s xs
contains_iff s [] = ground arith
contains_iff s (x ∷ xs) = ground (arith, eq_iff x s, contains_iff s xs)

pub contains-append :
    (s : String) (xs ys : List String) → contains s (xs ++ ys) ≡ (contains s xs || contains s ys)
contains-append s [] ys = refl
contains-append s (x ∷ xs) ys = ground (arith, contains-append s xs ys)

-- `set[x] = struct{}{}`
unfoldable pub set_insert : String → List String → List String
set_insert s xs = if contains s xs then xs else s ∷ xs

pub contains-set_insert :
    (s t : String) (xs : List String) → contains t (set_insert s xs) ≡ (s == t || contains t xs)
unfolding set_insert
contains-set_insert s t xs = elim (Bool-cases (contains s xs)) [
  | inl old ↦ rw old (elim (String-cases s t) [
    | inl e ↦ rw (← e) (rw old (ground (arith, eq_iff s s)))
    | inr e ↦ ground (arith, eq_iff s t)
  ])
  | inr new ↦ rw new
]
