-- ===== src/Base/Slices.antt =====
-- Python's slices `xs[a:b]`, with the laws by which reads are put together.
use Prim.Native.Nat.{ℕ, zero, suc, ◌+◌, ◌-◌, ◌≤◌, min}
use mathlib.Core.Path.{◌≡◌, refl, sym, ap, ◌∙◌}
use mathlib.Core.List.{List, [], ◌∷◌, ◌++◌}
use native.Mathlib.Numerals.{unary_clauses}
use native.Mathlib.Omega.{arith}
use proyecto1_sd.Base.Lists.{length}

suc_add : (a b : ℕ) → suc (a + b) ≡ suc a + b
suc_add a b = omega arith

module _ {ℓ} {A : Type ℓ} where
  -- `xs[:n]`
  unfoldable pub take : ℕ → List A → List A
  take n [] = []
  take zero (x ∷ xs) = []
  take (suc n) (x ∷ xs) = x ∷ take n xs

  -- `xs[n:]`
  unfoldable pub drop : ℕ → List A → List A
  drop n [] = []
  drop zero (x ∷ xs) = x ∷ xs
  drop (suc n) (x ∷ xs) = drop n xs

  -- `xs[a:b]`
  unfoldable pub slice : ℕ → ℕ → List A → List A
  slice a b xs = take (b - a) (drop a xs)

  -- `b"".join(xss)`
  unfoldable pub concat : List (List A) → List A
  concat [] = []
  concat (xs ∷ xss) = xs ++ concat xss

  pub append_nil : (xs : List A) → xs ++ [] ≡ xs
  append_nil [] = refl
  append_nil (x ∷ xs) = ap (◌∷◌ x) (append_nil xs)

  pub append_assoc : (xs ys zs : List A) → xs ++ ys ++ zs ≡ xs ++ (ys ++ zs)
  append_assoc [] ys zs = refl
  append_assoc (x ∷ xs) ys zs = ap (◌∷◌ x) (append_assoc xs ys zs)

  pub concat-append : (xss yss : List (List A)) → concat (xss ++ yss) ≡ concat xss ++ concat yss
  unfolding concat
  concat-append [] yss = refl
  concat-append (xs ∷ xss) yss =
      ap (◌++◌ xs) (concat-append xss yss) ∙ sym (append_assoc xs (concat xss) (concat yss))

  pub take_zero : (xs : List A) → take 0 xs ≡ []
  unfolding take
  take_zero [] = refl
  take_zero (x ∷ xs) = refl

  pub drop_zero : (xs : List A) → drop 0 xs ≡ xs
  unfolding drop
  drop_zero [] = refl
  drop_zero (x ∷ xs) = refl

  pub length-take : (n : ℕ) (xs : List A) → length (take n xs) ≡ min n (length xs)
  unfolding take
  length-take n [] = omega arith
  length-take zero (x ∷ xs) = omega arith
  length-take (suc n) (x ∷ xs) = omega (arith, length-take n xs)

  pub length-drop : (n : ℕ) (xs : List A) → length (drop n xs) ≡ length xs - n
  unfolding drop
  length-drop n [] = omega arith
  length-drop zero (x ∷ xs) = omega arith
  length-drop (suc n) (x ∷ xs) = omega (arith, length-drop n xs)

  pub take_all : (n : ℕ) (xs : List A) → length xs ≤ n → take n xs ≡ xs
  unfolding take
  take_all n [] h = refl
  take_all zero (x ∷ xs) h = absurd (omega arith)
  take_all (suc n) (x ∷ xs) h = ap (◌∷◌ x) (take_all n xs (omega arith))

  pub drop_all : (n : ℕ) (xs : List A) → length xs ≤ n → drop n xs ≡ []
  unfolding drop
  drop_all n [] h = refl
  drop_all zero (x ∷ xs) h = absurd (omega arith)
  drop_all (suc n) (x ∷ xs) h = drop_all n xs (omega arith)

  pub take-drop : (n : ℕ) (xs : List A) → take n xs ++ drop n xs ≡ xs
  unfolding take drop
  take-drop n [] = refl
  take-drop zero (x ∷ xs) = refl
  take-drop (suc n) (x ∷ xs) = ap (◌∷◌ x) (take-drop n xs)

  pub drop-drop : (a b : ℕ) (xs : List A) → drop a (drop b xs) ≡ drop (b + a) xs
  unfolding drop
  drop-drop a b [] = refl
  drop-drop a zero (x ∷ xs) = ap (λ n. drop n (x ∷ xs)) (omega arith)
  drop-drop a (suc b) (x ∷ xs) = drop-drop a b xs ∙ ap (λ m. drop m (x ∷ xs)) (suc_add b a)

  -- One slice is two that meet.
  pub take_add : (a b : ℕ) (xs : List A) → take (a + b) xs ≡ take a xs ++ take b (drop a xs)
  unfolding take drop
  take_add a b [] = refl
  take_add zero b (x ∷ xs) = ap (λ n. take n (x ∷ xs)) (omega arith)
  take_add (suc a) b (x ∷ xs) =
      sym (ap (λ m. take m (x ∷ xs)) (suc_add a b)) ∙ ap (◌∷◌ x) (take_add a b xs)

  pub take-append_left : (n : ℕ) (xs ys : List A) → n ≤ length xs → take n (xs ++ ys) ≡ take n xs
  unfolding take
  take-append_left zero [] ys h = take_zero ys
  take-append_left (suc n) [] ys h = absurd (omega arith)
  take-append_left zero (x ∷ xs) ys h = refl
  take-append_left (suc n) (x ∷ xs) ys h = ap (◌∷◌ x) (take-append_left n xs ys (omega arith))

  pub drop-append_left :
      (n : ℕ) (xs ys : List A) → n ≤ length xs → drop n (xs ++ ys) ≡ drop n xs ++ ys
  unfolding drop
  drop-append_left zero [] ys h = drop_zero ys
  drop-append_left (suc n) [] ys h = absurd (omega arith)
  drop-append_left zero (x ∷ xs) ys h = refl
  drop-append_left (suc n) (x ∷ xs) ys h = drop-append_left n xs ys (omega arith)

  pub drop-append : (n : ℕ) (xs ys : List A) → drop (length xs + n) (xs ++ ys) ≡ drop n ys
  unfolding drop
  drop-append n [] ys = ap (λ m. drop m ys) (omega arith)
  drop-append n (x ∷ xs) ys =
      sym (ap (λ m. drop m (x ∷ xs ++ ys)) (suc_add (length xs) n)) ∙ drop-append n xs ys

  pub take-append : (xs ys : List A) → take (length xs) (xs ++ ys) ≡ xs
  unfolding take
  take-append [] ys = take_zero ys
  take-append (x ∷ xs) ys = ap (◌∷◌ x) (take-append xs ys)

  pub take-take : (a b : ℕ) (xs : List A) → a ≤ b → take a (take b xs) ≡ take a xs
  unfolding take
  take-take a b [] h = refl
  take-take zero b (x ∷ xs) h = take_zero (take b (x ∷ xs))
  take-take (suc a) zero (x ∷ xs) h = absurd (omega arith)
  take-take (suc a) (suc b) (x ∷ xs) h = ap (◌∷◌ x) (take-take a b xs (omega arith))

  pub take_none : (n : ℕ) (xs : List A) → n ≡ 0 → take n xs ≡ []
  take_none n xs h = ap (λ m. take m xs) h ∙ take_zero xs

  -- A slice of a slice.
  pub drop-take : (a b : ℕ) (xs : List A) → drop a (take b xs) ≡ take (b - a) (drop a xs)
  unfolding take drop
  drop-take a b [] = refl
  drop-take zero b (x ∷ xs) = rw (drop_zero (take b (x ∷ xs))) (simp unary_clauses)
  drop-take (suc a) zero (x ∷ xs) = sym (take_none (0 - suc a) (drop a xs) (omega arith))
  drop-take (suc a) (suc b) (x ∷ xs) = rw (drop-take a b xs) (simp unary_clauses)

  pub take_prefix : (n : ℕ) (xs ys : List A) → n ≡ length xs → take n (xs ++ ys) ≡ xs
  take_prefix n xs ys h = ap (λ m. take m (xs ++ ys)) h ∙ take-append xs ys

  pub drop_prefix : (n : ℕ) (xs ys : List A) → n ≡ length xs → drop n (xs ++ ys) ≡ ys
  drop_prefix n xs ys h =
      ap (λ m. drop m (xs ++ ys)) (h ∙ omega arith) ∙ drop-append 0 xs ys ∙ drop_zero ys
