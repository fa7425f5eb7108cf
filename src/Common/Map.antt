-- ===== src/Common/Map.antt =====
-- std::collections::HashMap as an association list. The program never iterates in an order that a
-- result depends on, so the order of the entries is of no account.
use Prim.Native.Nat.{◌+◌, ◌≤◌}
use mathlib.Core.Path.{◌≡◌, refl, subst}
use mathlib.Core.Logic.{inl, inr}
use mathlib.Core.Bool.{Bool, true, false}
use mathlib.Core.Option.{Option, none, some}
use mathlib.Core.List.{List, [], ◌∷◌}
use native.Mathlib.Omega.{arith}
use vaiexia_obfs.Common.Tests.{if◌then◌else◌, Bool-cases}
use vaiexia_obfs.Common.Lists.{length}
use vaiexia_obfs.Common.Keys.{Key}

abbrev pub Map {ℓ κ} : Type ℓ → Type κ → Type (ℓ ⊔ κ)
Map K V = List (K × V)

module _ {ℓ κ} {K : Type ℓ} {V : Type κ} ⦃e : Key K⦄ where
  unfoldable pub get : Map K V → K → Option V
  get [] k = none
  get ((j, v) ∷ m) k = if e.equals j k then some v else get m k

  -- contains_key
  unfoldable pub contains : Map K V → K → Bool
  contains [] k = false
  contains ((j, v) ∷ m) k = if e.equals j k then true else contains m k

  -- insert: the old value of the key is replaced.
  unfoldable pub insert : Map K V → K → V → Map K V
  insert [] k v = (k, v) ∷ []
  insert ((j, w) ∷ m) k v = if e.equals j k then (k, v) ∷ m else (j, w) ∷ insert m k v

  unfoldable pub remove : Map K V → K → Map K V
  remove [] k = []
  remove ((j, v) ∷ m) k = let rest = remove m k in if e.equals j k then rest else (j, v) ∷ rest

module _ {ℓ κ} {K : Type ℓ} {V : Type κ} where
  -- retain, with a test on the value alone.
  unfoldable pub retain : (V → Bool) → Map K V → Map K V
  retain p [] = []
  retain p ((j, v) ∷ m) = let rest = retain p m in if p v then (j, v) ∷ rest else rest

module _ {ℓ κ} {K : Type ℓ} {V : Type κ} ⦃e : Key K⦄ where
  pub get-insert :
      (m : Map K V) (k j : K) (v : V)
      → get (insert m k v) j ≡ (if e.equals k j then some v else get m j)
  unfolding get insert
  get-insert [] k j v = refl
  get-insert ((i, w) ∷ m) k j v =
      ground (arith, e.equals_iff k j, e.equals_iff i k, e.equals_iff i j, get-insert m k j v)

  pub get-remove :
      (m : Map K V) (k j : K) → get (remove m k) j ≡ (if e.equals k j then none else get m j)
  unfolding get remove
  get-remove [] k j = ground arith
  get-remove ((i, w) ∷ m) k j =
      ground (arith, e.equals_iff k j, e.equals_iff i k, e.equals_iff i j, get-remove m k j)

  pub length-insert : (m : Map K V) (k : K) (v : V) → length (insert m k v) ≤ length m + 1
  unfolding insert
  length-insert [] k v = omega arith
  length-insert ((i, w) ∷ m) k v = ground (arith, length-insert m k v)

  pub contains_of_get : (m : Map K V) (k : K) (v : V) → get m k ≡ some v → contains m k ≡ true
  unfolding get contains
  contains_of_get [] k v h = cc
  contains_of_get ((i, w) ∷ m) k v h = ground (arith, contains_of_get m k v)

  -- Replacing the value of a key that is there adds no entry.
  pub length-insert_old :
      (m : Map K V) (k : K) (v : V) → contains m k ≡ true → length (insert m k v) ≡ length m
  unfolding insert contains
  length-insert_old [] k v h = cc
  length-insert_old ((i, w) ∷ m) k v h = ground (arith, length-insert_old m k v)

  pub length-remove : (m : Map K V) (k : K) → length (remove m k) ≤ length m
  unfolding remove
  length-remove [] k = omega arith
  length-remove ((i, w) ∷ m) k = ground (arith, length-remove m k)

  pub length-remove_found :
      (m : Map K V) (k : K) (v : V) → get m k ≡ some v → length (remove m k) + 1 ≤ length m
  unfolding remove get
  length-remove_found [] k v h = cc
  length-remove_found ((i, w) ∷ m) k v h =
      ground (arith, length-remove m k, length-remove_found m k v)

module _ {ℓ κ} {K : Type ℓ} {V : Type κ} where
  pub length-retain : (p : V → Bool) (m : Map K V) → length (retain p m) ≤ length m
  unfolding retain
  length-retain p [] = omega arith
  length-retain p ((i, w) ∷ m) = ground (arith, length-retain p m)

module _ {ℓ κ} {K : Type ℓ} {V : Type κ} ⦃e : Key K⦄ where
  -- No entry comes from a filter.
  pub get-retain-none :
      (p : V → Bool) (m : Map K V) (k : K) → get m k ≡ none → get (retain p m) k ≡ none
  unfolding get retain
  get-retain-none p [] k h = refl
  get-retain-none p ((i, w) ∷ m) k h = ground (arith, get-retain-none p m k)

  -- A predicate of every entry.
  abbrev pub Entries {μ} : (K → V → Type μ) → Map K V → Type μ
  Entries P [] = Unit
  Entries P ((k, v) ∷ m) = P k v × Entries P m

  pub Entries-get {μ} :
      (P : K → V → Type μ) (m : Map K V) (k : K) (v : V) → Entries P m → get m k ≡ some v → P k v
  unfolding get
  Entries-get P [] k v h found = cc
  Entries-get P ((i, w) ∷ m) k v h found = elim (Bool-cases (e.equals i k)) [
    | inl same ↦
        let value : w ≡ v = ground (arith, found) in
        subst (λ x. P x v) ((e.equals_iff i k).0 same) (subst (P i) value h.0)
    | inr other ↦ Entries-get P m k v h.1 (rw other at found)
  ]

  pub Entries-insert {μ} :
      (P : K → V → Type μ) (m : Map K V) (k : K) (v : V)
      → Entries P m
      → P k v
      → Entries P (insert m k v)
  unfolding insert
  Entries-insert P [] k v h new = (new, tt)
  Entries-insert P ((i, w) ∷ m) k v h new = elim (Bool-cases (e.equals i k)) [
    | inl same ↦ rw same (new, h.1)
    | inr other ↦ rw other (h.0, Entries-insert P m k v h.1 new)
  ]

  pub Entries-retain {μ} :
      (P : K → V → Type μ) (p : V → Bool) (m : Map K V) → Entries P m → Entries P (retain p m)
  unfolding retain
  Entries-retain P p [] h = tt
  Entries-retain P p ((i, w) ∷ m) h = elim (Bool-cases (p w)) [
    | inl kept ↦ rw kept (h.0, Entries-retain P p m h.1)
    | inr dropped ↦ rw dropped (Entries-retain P p m h.1)
  ]

  pub Entries-map {μ ν} :
      (P : K → V → Type μ) (Q : K → V → Type ν) (m : Map K V)
      → ((k : K) (v : V) → P k v → Q k v)
      → Entries P m
      → Entries Q m
  Entries-map P Q [] f h = tt
  Entries-map P Q ((i, w) ∷ m) f h = (f i w h.0, Entries-map P Q m f h.1)

  -- No key has two entries.
  abbrev pub IsUnique : Map K V → Type κ
  IsUnique [] = Unit
  IsUnique ((k, v) ∷ m) = (get m k ≡ none) × IsUnique m

  pub IsUnique-insert : (m : Map K V) (k : K) (v : V) → IsUnique m → IsUnique (insert m k v)
  unfolding insert get
  IsUnique-insert [] k v u = (refl, tt)
  IsUnique-insert ((i, w) ∷ m) k v u =
      ground (arith, e.equals_iff i k, e.equals_iff k i, get-insert m k i v, IsUnique-insert m k v)

  pub IsUnique-remove : (m : Map K V) (k : K) → IsUnique m → IsUnique (remove m k)
  unfolding remove
  IsUnique-remove [] k u = tt
  IsUnique-remove ((i, w) ∷ m) k u =
      ground (arith, e.equals_iff i k, e.equals_iff k i, get-remove m k i, IsUnique-remove m k)

  pub IsUnique-retain : (p : V → Bool) (m : Map K V) → IsUnique m → IsUnique (retain p m)
  unfolding retain
  IsUnique-retain p [] u = tt
  IsUnique-retain p ((i, w) ∷ m) u = ground (arith, get-retain-none p m i, IsUnique-retain p m)

  -- A filter keeps the entry of a key or drops it.
  pub get-retain :
      (p : V → Bool) (m : Map K V) (k : K) (v : V)
      → IsUnique m
      → get m k ≡ some v
      → get (retain p m) k ≡ (if p v then some v else none)
  unfolding get retain
  get-retain p [] k v u h = cc
  get-retain p ((i, w) ∷ m) k v u h =
      ground (arith, e.equals_iff i k, get-retain-none p m i, get-retain p m k v)

  pub get-retain_kept :
      (p : V → Bool) (m : Map K V) (k : K) (v : V)
      → get m k ≡ some v
      → p v ≡ true
      → get (retain p m) k ≡ some v
  unfolding get retain
  get-retain_kept p [] k v h keep = cc
  get-retain_kept p ((i, w) ∷ m) k v h keep = ground (arith, get-retain_kept p m k v)
