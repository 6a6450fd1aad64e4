-- ===== src/Client/SlotContent/Elements.antt =====
-- What stands at an index of a slice, of two lists in a row and of an assignment to a slice.
use mathlib.Core.Path.{ap₂}
use proyecto1_sd.Base.{Bytes, List, [], ap, arith, drop, get_elem?, if◌then◌else◌, length}
use proyecto1_sd.Base.{length-append, length-take, ltb, none, refl, slice, some, suc, sym, take}
use proyecto1_sd.Base.{zero, ℕ, ◌++◌, ◌+◌, ◌-◌, ◌∙◌, ◌∷◌, ◌≡◌, ◌≤◌}
use proyecto1_sd.Client.SlotContent.{assign}

module _ {ℓ} {A : Type ℓ} where
  pub get_elem?-take :
      (n : ℕ) (xs : List A) (i : ℕ)
      → get_elem? (take n xs) i ≡ (if ltb i n then get_elem? xs i else none)
  unfolding take
  get_elem?-take n [] i = ground arith
  get_elem?-take zero (x ∷ xs) i = ground arith
  get_elem?-take (suc n) (x ∷ xs) zero = ground arith
  get_elem?-take (suc n) (x ∷ xs) (suc i) = ground (arith, get_elem?-take n xs i)

  zero_plus_index : (xs : List A) (i : ℕ) → get_elem? xs i ≡ get_elem? xs (0 + i)
  zero_plus_index xs i = ap (get_elem? xs) (omega arith)

  suc_plus_index :
      (x : A) (xs : List A) (n i : ℕ) → get_elem? xs (n + i) ≡ get_elem? (x ∷ xs) (suc n + i)
  suc_plus_index x xs n i = sym (ap (get_elem? (x ∷ xs)) next)
    where
      next : suc n + i ≡ suc (n + i)
      next = omega arith

  get_elem?-drop : (n : ℕ) (xs : List A) (i : ℕ) → get_elem? (drop n xs) i ≡ get_elem? xs (n + i)
  unfolding drop
  get_elem?-drop n [] i = refl
  get_elem?-drop zero (x ∷ xs) i = zero_plus_index (x ∷ xs) i
  get_elem?-drop (suc n) (x ∷ xs) i = get_elem?-drop n xs i ∙ suc_plus_index x xs n i

  pub get_elem?-append :
      (xs ys : List A) (i : ℕ)
      → get_elem? (xs ++ ys) i
        ≡ (if ltb i (length xs) then get_elem? xs i else get_elem? ys (i - length xs))
  get_elem?-append [] ys i = minus_zero ∙ ground arith
    where
      minus_zero : get_elem? ys i ≡ get_elem? ys (i - 0)
      minus_zero = ap (get_elem? ys) (omega arith)
  get_elem?-append (x ∷ xs) ys zero = ground arith
  get_elem?-append (x ∷ xs) ys (suc i) = ground (arith, get_elem?-append xs ys i)

  pub get_elem?-past : (xs : List A) (i : ℕ) → length xs ≤ i → get_elem? xs i ≡ none
  get_elem?-past [] i h = refl
  get_elem?-past (x ∷ xs) zero h = absurd (omega arith)
  get_elem?-past (x ∷ xs) (suc i) h = get_elem?-past xs i (omega arith)

  pub same_elements : (xs ys : List A) → ((i : ℕ) → get_elem? xs i ≡ get_elem? ys i) → xs ≡ ys
  same_elements [] [] h = refl
  same_elements [] (y ∷ ys) h = absurd (ground (arith, h 0))
  same_elements (x ∷ xs) [] h = absurd (ground (arith, h 0))
  same_elements (x ∷ xs) (y ∷ ys) h =
      ap₂ ◌∷◌ (some_inj (h 0)) (same_elements xs ys (λ i. h (suc i)))
    where
      some_inj : some x ≡ some y → x ≡ y
      some_inj p = cc

-- What stands at an index after an assignment to a slice of the same length.
pub get_elem?-assign :
    (a b : ℕ) (bytes xs : Bytes) (i : ℕ)
    → a ≤ length xs
    → b ≡ a + length bytes
    → get_elem? (assign a b bytes xs) i ≡ (
        if ltb i a
        then get_elem? xs i
        else if ltb i b
        then get_elem? bytes (i - a)
        else get_elem? xs i)
unfolding assign
get_elem?-assign a b bytes xs i h e =
    let front = length-append (take a xs) bytes in
    let first = length-take a xs in
    ground (
      arith,
      get_elem?-append (take a xs ++ bytes) (drop b xs) i,
      get_elem?-append (take a xs) bytes i,
      get_elem?-take a xs i,
      get_elem?-drop b xs (i - length (take a xs ++ bytes)),
      front,
      first,
    )

pub get_elem?-slice :
    (a b : ℕ) (xs : Bytes) (i : ℕ)
    → get_elem? (slice a b xs) i ≡ (if ltb i (b - a) then get_elem? xs (a + i) else none)
unfolding slice
get_elem?-slice a b xs i =
    get_elem?-take (b - a) (drop a xs) i
    ∙ ap (λ x. if ltb i (b - a) then x else none) (get_elem?-drop a xs i)
