-- ===== src/Prelude/Sorting.antt =====
-- Go's `sort.Strings`.
use Prim.Native.String.{String}
use mathlib.Core.Path.{◌≡◌, refl}
use mathlib.Core.Logic.{inl, inr}
use mathlib.Core.Bool.{true, false, ◌||◌}
use mathlib.Core.List.{List, [], ◌∷◌}
use Prim.Native.Nat.{◌+◌}
use native.Mathlib.Omega.{arith}
use text.Mathlib.Text.{◌==◌}
use text.Mathlib.TextEquality.{eq_iff}
use orbit_auth.Prelude.Tests.{if◌then◌else◌, Bool-cases}
use orbit_auth.Prelude.Lists.{contains, length, set_insert}
use orbit_auth.Prelude.GoText.{string_le, string_le_total}

unfoldable pub insert_sorted : String → List String → List String
insert_sorted s [] = s ∷ []
insert_sorted s (t ∷ l) = if string_le s t then s ∷ t ∷ l else t ∷ insert_sorted s l

-- sort.Strings
unfoldable pub sort_strings : List String → List String
unfolding insert_sorted
sort_strings [] = []
sort_strings (s ∷ l) = insert_sorted s (sort_strings l)

contains-insert_sorted :
    (q s : String) (l : List String) → contains q (insert_sorted s l) ≡ (s == q || contains q l)
unfolding insert_sorted
contains-insert_sorted q s [] = refl
contains-insert_sorted q s (t ∷ l) = ground (arith, contains-insert_sorted q s l)

pub contains-sort_strings :
    (q : String) (l : List String) → contains q (sort_strings l) ≡ contains q l
unfolding sort_strings
contains-sort_strings q [] = refl
contains-sort_strings q (s ∷ l) =
    ground (arith, contains-insert_sorted q s (sort_strings l), contains-sort_strings q l)

-- Each item is at most the next one.
abbrev pub IsSorted : List String → Type 0
IsSorted [] = Unit
IsSorted (s ∷ []) = Unit
IsSorted (s ∷ t ∷ l) = (string_le s t ≡ true) × IsSorted (t ∷ l)

abbrev pub IsDistinct : List String → Type 0
IsDistinct [] = Unit
IsDistinct (s ∷ l) = (contains s l ≡ false) × IsDistinct l

IsSorted-insert :
    (s t : String) (l : List String)
    → string_le t s ≡ true
    → IsSorted (t ∷ l)
    → IsSorted (t ∷ insert_sorted s l)
unfolding insert_sorted
IsSorted-insert s t [] le h = (le, tt)
IsSorted-insert s t (u ∷ l) le h = elim (Bool-cases (string_le s u)) [
  | inl lower ↦ rw lower (le, (lower, h.1))
  | inr above ↦ rw above (h.0, IsSorted-insert s u l (string_le_total s u above) h.1)
]

insert_sorted-IsSorted : (s : String) (l : List String) → IsSorted l → IsSorted (insert_sorted s l)
unfolding insert_sorted
insert_sorted-IsSorted s [] h = tt
insert_sorted-IsSorted s (t ∷ l) h = elim (Bool-cases (string_le s t)) [
  | inl lower ↦ rw lower (lower, h)
  | inr above ↦ rw above (IsSorted-insert s t l (string_le_total s t above) h)
]

pub sort_strings-IsSorted : (l : List String) → IsSorted (sort_strings l)
unfolding sort_strings
sort_strings-IsSorted [] = tt
sort_strings-IsSorted (s ∷ l) = insert_sorted-IsSorted s (sort_strings l) (sort_strings-IsSorted l)

insert_sorted-IsDistinct :
    (s : String) (l : List String)
    → contains s l ≡ false
    → IsDistinct l
    → IsDistinct (insert_sorted s l)
unfolding insert_sorted
insert_sorted-IsDistinct s [] new h = (refl, tt)
insert_sorted-IsDistinct s (t ∷ l) new h =
    ground
      (arith, contains-insert_sorted t s l, insert_sorted-IsDistinct s l, eq_iff s t, eq_iff t s)

pub sort_strings-IsDistinct : (l : List String) → IsDistinct l → IsDistinct (sort_strings l)
unfolding sort_strings
sort_strings-IsDistinct [] h = tt
sort_strings-IsDistinct (s ∷ l) h =
    insert_sorted-IsDistinct s (sort_strings l) (ground (arith, contains-sort_strings s l))
      (sort_strings-IsDistinct l h.1)

length-insert_sorted : (s : String) (l : List String) → length (insert_sorted s l) ≡ length l + 1
unfolding insert_sorted
length-insert_sorted s [] = refl
length-insert_sorted s (t ∷ l) = ground (arith, length-insert_sorted s l)

pub length-sort_strings : (l : List String) → length (sort_strings l) ≡ length l
unfolding sort_strings
length-sort_strings [] = refl
length-sort_strings (s ∷ l) =
    ground (arith, length-insert_sorted s (sort_strings l), length-sort_strings l)

pub set_insert-IsDistinct :
    (s : String) (l : List String) → IsDistinct l → IsDistinct (set_insert s l)
unfolding set_insert
set_insert-IsDistinct s l h = ground arith
