-- ===== src/Prelude/Maps.antt =====
-- `HashMap`: keys compared by an instance of `Eq`, at most one entry to a key. The program never
-- iterates over a map where the order of entries matters.
use mathlib.Core.Path.{◌≡◌, refl}
use mathlib.Core.Bool.{Bool, true, false}
use mathlib.Core.List.{List, [], ◌∷◌}
use mathlib.Core.Option.{Option, none, some}
use native.Mathlib.Omega.{arith}
use e2e_chat_rs.Prelude.Tests.{Eq, ◌==◌, if◌then◌else◌}

pub record HashMap {ℓ κ} (K : Type ℓ) (V : Type κ) : Type (ℓ ⊔ κ) where
  pub entries : List (K × V)

module _ {ℓ κ} {K : Type ℓ} {V : Type κ} where
  abbrev pub empty : HashMap K V
  empty = record { entries = [] }

module _ {ℓ κ} {K : Type ℓ} {V : Type κ} ⦃e : Eq K⦄ where
  lookup : K → List (K × V) → Option V
  lookup k [] = none
  lookup k ((j, v) ∷ m) = if j == k then some v else lookup k m

  without : K → List (K × V) → List (K × V)
  without k [] = []
  without k ((j, v) ∷ m) = let rest = without k m in if j == k then rest else (j, v) ∷ rest

  keep : (K → Bool) → List (K × V) → List (K × V)
  keep p [] = []
  keep p ((j, v) ∷ m) = let rest = keep p m in if p j then (j, v) ∷ rest else rest

  lookup-without :
      (k j : K) (m : List (K × V)) → lookup j (without k m) ≡ (if k == j then none else lookup j m)
  unfolding lookup without
  lookup-without k j [] = ground arith
  lookup-without k j ((i, v) ∷ m) = ground (arith, lookup-without k j m)

  lookup-keep :
      (p : K → Bool) (j : K) (m : List (K × V))
      → lookup j (keep p m) ≡ (if p j then lookup j m else none)
  unfolding lookup keep
  lookup-keep p j [] = ground arith
  lookup-keep p j ((i, v) ∷ m) = ground (arith, lookup-keep p j m)

  unfoldable pub get : HashMap K V → K → Option V
  unfolding lookup
  get m k = lookup k m.entries

  abbrev pub contains_key : HashMap K V → K → Bool
  contains_key m k = elim (get m k) [ none ↦ false | some _ ↦ true ]

  unfoldable pub insert : HashMap K V → K → V → HashMap K V
  unfolding without
  insert m k v = record { entries = (k, v) ∷ without k m.entries }

  unfoldable pub remove : HashMap K V → K → HashMap K V
  unfolding without
  remove m k = record { entries = without k m.entries }

  -- `retain` by a test of the key
  unfoldable pub retain : HashMap K V → (K → Bool) → HashMap K V
  unfolding keep
  retain m p = record { entries = keep p m.entries }

  pub get-insert :
      (m : HashMap K V) (k j : K) (v : V)
      → get (insert m k v) j ≡ (if k == j then some v else get m j)
  unfolding get insert
  get-insert m k j v = ground (arith, lookup-without k j m.entries)

  pub get-remove :
      (m : HashMap K V) (k j : K) → get (remove m k) j ≡ (if k == j then none else get m j)
  unfolding get remove
  get-remove m k j = lookup-without k j m.entries

  pub get-retain :
      (m : HashMap K V) (p : K → Bool) (j : K)
      → get (retain m p) j ≡ (if p j then get m j else none)
  unfolding get retain
  get-retain m p j = lookup-keep p j m.entries

pub get-empty {ℓ κ} :
    {K : Type ℓ} {V : Type κ} ⦃e : Eq K⦄ (k : K) → get (empty {K = K} {V = V}) k ≡ none
unfolding get
get-empty k = refl

pub ruleset map_laws = (get-empty, get-insert, get-remove, get-retain)
