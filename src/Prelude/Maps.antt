-- ===== src/Prelude/Maps.antt =====
-- Go's maps with text keys, as association lists.
use Prim.Native.String.{String}
use mathlib.Core.Path.{◌≡◌, refl}
use mathlib.Core.List.{List, [], ◌∷◌}
use mathlib.Core.Option.{Option, none, some}
use native.Mathlib.Omega.{arith}
use text.Mathlib.TextEquality.{eq_iff}
use better_nm.Prelude.Tests.{str_eq, if◌then◌else◌}

-- A map from texts to values of type `V`.
abbrev pub Assoc {ℓ} : (V : Type ℓ) → Type ℓ
Assoc V = List (String × V)

module _ {ℓ} {V : Type ℓ} where
  -- `m[key]`; `none` is an absent key.
  unfoldable pub lookup : (key : String) → Assoc V → Option V
  lookup key [] = none
  lookup key ((head, found) ∷ rest) = if str_eq head key then some found else lookup key rest

  -- `m[key] = v`
  unfoldable pub insert : (key : String) → V → Assoc V → Assoc V
  insert key v [] = (key, v) ∷ []
  insert key v ((head, old) ∷ rest) =
      if str_eq head key then (head, v) ∷ rest else (head, old) ∷ insert key v rest

  -- `delete(m, key)`
  unfoldable pub erase : (key : String) → Assoc V → Assoc V
  erase key [] = []
  erase key ((head, old) ∷ rest) =
      if str_eq head key then erase key rest else (head, old) ∷ erase key rest

  pub lookup-insert :
      (key other : String) (v : V) (rest : Assoc V)
      → lookup other (insert key v rest) ≡ (if str_eq key other then some v else lookup other rest)
  unfolding lookup insert
  lookup-insert key other v [] = refl
  lookup-insert key other v ((head, old) ∷ rest) =
      ground (
        arith,
        lookup-insert key other v rest,
        eq_iff head key,
        eq_iff head other,
        eq_iff key other,
      )

  pub lookup-erase :
      (k j : String) (m : Assoc V)
      → lookup j (erase k m) ≡ (if str_eq k j then none else lookup j m)
  unfolding lookup erase
  lookup-erase k j [] = ground arith
  lookup-erase k j ((i, w) ∷ m) =
      ground (arith, eq_iff k j, eq_iff i k, eq_iff i j, lookup-erase k j m)

  -- A key occurs once, as in every map.
  abbrev pub Distinct : Assoc V → Type ℓ
  Distinct [] = Unit
  Distinct ((k, v) ∷ m) = (lookup k m ≡ none) × Distinct m

  pub insert-Distinct : (k : String) (v : V) (m : Assoc V) → Distinct m → Distinct (insert k v m)
  unfolding lookup insert
  insert-Distinct k v [] d = (refl, tt)
  insert-Distinct k v ((j, w) ∷ m) d =
      ground (arith, insert-Distinct k v m d.1, lookup-insert k j v m, eq_iff j k, eq_iff k j)

  pub erase-Distinct : (k : String) (m : Assoc V) → Distinct m → Distinct (erase k m)
  unfolding lookup erase
  erase-Distinct k [] d = tt
  erase-Distinct k ((j, w) ∷ m) d =
      ground (arith, erase-Distinct k m d.1, lookup-erase k j m, eq_iff j k, eq_iff k j)

  -- Every entry of `m` is found in `m'`.
  abbrev pub Within : Assoc V → Assoc V → Type ℓ
  Within [] m' = Unit
  Within ((k, v) ∷ m) m' = (lookup k m' ≡ some v) × Within m m'

  Within-cons :
      (m m' : Assoc V) (k : String) (v : V)
      → lookup k m ≡ none
      → Distinct m
      → Within m m'
      → Within m ((k, v) ∷ m')
  unfolding lookup
  Within-cons [] m' k v n d w = tt
  Within-cons ((j, u) ∷ m) m' k v n d w =
      (ground (arith, eq_iff j k, eq_iff k j), Within-cons m m' k v (ground arith) d.1 w.1)

  pub Distinct-Within : (m : Assoc V) → Distinct m → Within m m
  unfolding lookup
  Distinct-Within [] d = tt
  Distinct-Within ((k, v) ∷ m) d =
      (ground (arith, eq_iff k k), Within-cons m m k v d.0 d.1 (Distinct-Within m d.1))

  pub Within-erase :
      (m m' : Assoc V) (k : String) → lookup k m ≡ none → Within m m' → Within m (erase k m')
  unfolding lookup
  Within-erase [] m' k n w = tt
  Within-erase ((j, u) ∷ m) m' k n w = (
    ground (arith, lookup-erase k j m', eq_iff j k, eq_iff k j),
    Within-erase m m' k (ground arith) w.1,
  )
