-- ===== src/Prelude/Maps.antt =====
-- Go's `map[string]V` as an association list: `m[k]` reads by `lookup`, `m[k] = v` is `insert`.
use Prim.Native.String.{String}
use mathlib.Core.Path.{◌≡◌, refl}
use mathlib.Core.Option.{Option, none, some}
use mathlib.Core.List.{List, [], ◌∷◌}
use native.Mathlib.Omega.{arith}
use text.Mathlib.Text.{◌==◌}
use text.Mathlib.TextEquality.{eq_iff}
use mathlib.Core.Logic.{inl, inr}
use orbit_auth.Prelude.Tests.{if◌then◌else◌, String-cases}

abbrev pub GoMap {ℓ} : Type ℓ → Type ℓ
GoMap V = List (String × V)

-- `v, ok := m[key]`
unfoldable pub lookup {ℓ} : {V : Type ℓ} → String → GoMap V → Option V
lookup key [] = none
lookup key (entry ∷ entries) = if entry.0 == key then some entry.1 else lookup key entries

-- `m[key] = value` overwrites the entry of the key where it stands.
unfoldable pub insert {ℓ} : {V : Type ℓ} → String → V → GoMap V → GoMap V
insert key value [] = (key, value) ∷ []
insert key value (entry ∷ entries) =
    if entry.0 == key then (key, value) ∷ entries else entry ∷ insert key value entries

pub lookup-insert {ℓ} :
    {V : Type ℓ} (written read : String) (value : V) (entries : GoMap V)
    → lookup read (insert written value entries)
      ≡ (if written == read then some value else lookup read entries)
unfolding lookup insert
lookup-insert written read value [] = refl
lookup-insert written read value (entry ∷ entries) = elim (String-cases entry.0 written) [
  | inl same ↦ ground (arith, eq_iff entry.0 written, eq_iff written read, eq_iff entry.0 read)
  | inr other ↦ ground (
    arith,
    lookup-insert written read value entries,
    eq_iff entry.0 written,
    eq_iff written read,
    eq_iff entry.0 read,
  )
]

-- `m[k]` at a key that is not there is the zero value.
abbrev pub or_else {ℓ} : {V : Type ℓ} → V → Option V → V
or_else d none = d
or_else d (some v) = v
