-- ===== src/Base/Dict.antt =====
-- Python's `dict` in insertion order, as an association list. Proofs go by the laws.
use mathlib.Core.List
use mathlib.Core.Path.{◌≡◌, refl}
use mathlib.Core.Bool.{Bool, true, false}
use mathlib.Core.Option.{Option, none, some}
use mathlib.Core.List.{List, [], ◌∷◌, ◌++◌}
use native.Mathlib.Omega.{arith}
use proyecto1_sd.Base.Tests.{if◌then◌else◌}
use proyecto1_sd.Base.Equality.{Eq, ◌==◌}
use proyecto1_sd.Base.Lists.{length}
use Prim.Native.Nat.{◌≤◌}

abbrev pub Dict {ℓ κ} : Type ℓ → Type κ → Type (ℓ ⊔ κ)
Dict K V = List (K × V)

unfoldable pub keys {ℓ κ} : {K : Type ℓ} {V : Type κ} → Dict K V → List K
keys = List.map (λ (k, _). k)

-- `if d:`
abbrev pub is_nonempty {ℓ κ} : {K : Type ℓ} {V : Type κ} → Dict K V → Bool
is_nonempty [] = false
is_nonempty (_ ∷ d) = true

module _ {ℓ κ} {K : Type ℓ} {V : Type κ} ⦃e : Eq K⦄ where
  -- `d.get(k)`
  unfoldable pub lookup : K → Dict K V → Option V
  lookup k [] = none
  lookup k ((j, v) ∷ d) = if k == j then some v else lookup k d

  -- `k in d`
  abbrev pub has : K → Dict K V → Bool
  has k d = elim (lookup k d) [ none ↦ false | some _ ↦ true ]

  -- `d[k] = v`
  unfoldable pub insert : K → V → Dict K V → Dict K V
  insert k v [] = (k, v) ∷ []
  insert k v ((j, w) ∷ d) = if k == j then (k, v) ∷ d else (j, w) ∷ insert k v d

  -- `del d[k]`. Every entry of the key goes; a real dict has at most one.
  unfoldable pub erase : K → Dict K V → Dict K V
  erase k [] = []
  erase k ((j, w) ∷ d) = let rest = erase k d in if k == j then rest else (j, w) ∷ rest

  -- `{k: v for k, v in d.items() if p(v)}`
  unfoldable pub keep_values : (V → Bool) → Dict K V → Dict K V
  keep_values p [] = []
  keep_values p ((j, v) ∷ d) = let rest = keep_values p d in if p v then (j, v) ∷ rest else rest

  abbrev pub NodupKeys : Dict K V → Type κ
  NodupKeys [] = Unit
  NodupKeys ((k, _) ∷ d) = (lookup k d ≡ none) × NodupKeys d

  pub lookup-nil : (k : K) → lookup k [] ≡ none
  unfolding lookup
  lookup-nil k = refl

  pub lookup-cons :
      (j k : K) (v : V) (d : Dict K V)
      → lookup j ((k, v) ∷ d) ≡ (if j == k then some v else lookup j d)
  unfolding lookup
  lookup-cons j k v d = refl

  pub lookup-insert :
      (j k : K) (v : V) (d : Dict K V)
      → lookup j (insert k v d) ≡ (if j == k then some v else lookup j d)
  unfolding insert lookup
  lookup-insert j k v [] = refl
  lookup-insert j k v (_ ∷ d) = ground (arith, lookup-insert j k v d)

  pub lookup-erase :
      (j k : K) (d : Dict K V) → lookup j (erase k d) ≡ (if j == k then none else lookup j d)
  unfolding erase lookup
  lookup-erase j k [] = ground arith
  lookup-erase j k (_ ∷ d) = ground (arith, lookup-erase j k d)

  pub insert-NodupKeys : (k : K) (v : V) (d : Dict K V) → NodupKeys d → NodupKeys (insert k v d)
  unfolding insert
  insert-NodupKeys k v [] _ = (lookup-nil k, tt)
  insert-NodupKeys k v ((j, _) ∷ d) (fresh, u) =
      ground (arith, insert-NodupKeys k v d u, lookup-insert j k v d)

  pub erase-NodupKeys : (k : K) (d : Dict K V) → NodupKeys d → NodupKeys (erase k d)
  unfolding erase
  erase-NodupKeys k [] _ = tt
  erase-NodupKeys k ((j, _) ∷ d) (fresh, u) =
      ground (arith, erase-NodupKeys k d u, lookup-erase j k d)

  pub lookup-keep_values_unset :
      (p : V → Bool) (k : K) (d : Dict K V) → lookup k d ≡ none → lookup k (keep_values p d) ≡ none
  unfolding keep_values lookup
  lookup-keep_values_unset p k [] h = refl
  lookup-keep_values_unset p k ((j, v) ∷ d) h = ground (arith, lookup-keep_values_unset p k d)

  -- With no key listed twice, a key keeps its value exactly if the value passes.
  pub lookup-keep_values :
      (p : V → Bool) (k : K) (d : Dict K V)
      → NodupKeys d
      → lookup k (keep_values p d)
        ≡ elim (lookup k d) [ none ↦ none | some v ↦ if p v then some v else none ]
  unfolding keep_values lookup
  lookup-keep_values p k [] u = refl
  lookup-keep_values p k ((j, v) ∷ d) (fresh, u) =
      ground (arith, lookup-keep_values p k d u, lookup-keep_values_unset p k d)

  pub keep_values-NodupKeys :
      (p : V → Bool) (d : Dict K V) → NodupKeys d → NodupKeys (keep_values p d)
  unfolding keep_values
  keep_values-NodupKeys p [] u = tt
  keep_values-NodupKeys p ((j, v) ∷ d) (fresh, u) =
      ground (arith, keep_values-NodupKeys p d u, lookup-keep_values_unset p j d)

  pub length-keep_values-le : (p : V → Bool) (d : Dict K V) → length (keep_values p d) ≤ length d
  unfolding keep_values
  length-keep_values-le p [] = omega arith
  length-keep_values-le p ((j, v) ∷ d) = ground (arith, length-keep_values-le p d)

  pub length-erase-le : (k : K) (d : Dict K V) → length (erase k d) ≤ length d
  unfolding erase
  length-erase-le k [] = omega arith
  length-erase-le k ((j, v) ∷ d) = ground (arith, length-erase-le k d)

  -- Writing a key that is there keeps the size.
  pub length-insert_known :
      (k : K) (v : V) (d : Dict K V) → has k d ≡ true → length (insert k v d) ≡ length d
  unfolding insert lookup
  length-insert_known k v [] h = cc
  length-insert_known k v ((j, w) ∷ d) h = ground (arith, length-insert_known k v d)

  pub insert-is_nonempty : (k : K) (v : V) (d : Dict K V) → is_nonempty (insert k v d) ≡ true
  unfolding insert
  insert-is_nonempty k v [] = refl
  insert-is_nonempty k v ((j, w) ∷ d) = ground arith
