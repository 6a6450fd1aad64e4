-- ===== src/Base/Windows.antt =====
-- Slices of a list, and how they lie in lists put together.
use Prim.Native.Nat.{ℕ, ◌+◌, ◌-◌, ◌≤◌, min}
use mathlib.Core.Path.{◌≡◌, refl, sym, ap, ◌∙◌}
use mathlib.Core.List.{List, [], ◌++◌}
use native.Mathlib.Omega.{arith}
use mathlib.Core.Bool.{false, true}
use mathlib.Core.Logic.{inl, inr}
use proyecto1_sd.Base.Lists.{length}
use proyecto1_sd.Base.Tests.{Bool-cases, leb, leb→le}
use proyecto1_sd.Base.Slices.{
  take, drop, slice, append_nil, append_assoc, drop_zero, length-take, length-drop, take_all,
  drop_all, drop-drop, take_add, take-append_left, drop-append_left, drop-append, take-append,
  take-take, take_none, drop-take, take_prefix, drop_prefix,
}

module _ {ℓ} {A : Type ℓ} where
  -- A slice behind a prefix, up to the end of what follows it.
  pub slice_middle :
      (a b : ℕ) (xs ys zs : List A)
      → a ≡ length xs
      → b ≡ a + length ys
      → slice a b (xs ++ ys ++ zs) ≡ ys
  unfolding slice
  slice_middle a b xs ys zs h k =
      ap (λ l. take (b - a) (drop a l)) (append_assoc xs ys zs)
      ∙ ap (take (b - a)) (drop_prefix a xs (ys ++ zs) h)
      ∙ take_prefix (b - a) ys zs (omega arith)

  -- A slice that begins behind a prefix.
  pub slice_shift :
      (n a b : ℕ) (xs ys : List A)
      → n ≡ length xs
      → slice (n + a) (n + a + b) (xs ++ ys) ≡ slice a (a + b) ys
  unfolding slice
  slice_shift n a b xs ys h =
      ap (λ m. take (n + a + b - (n + a)) (drop m (xs ++ ys))) (ap (λ m. m + a) h)
      ∙ ap (take (n + a + b - (n + a))) (drop-append a xs ys)
      ∙ ap (λ m. take m (drop a ys)) (omega arith)

  pub slice_none : (a b : ℕ) (xs : List A) → b ≤ a → slice a b xs ≡ []
  unfolding slice
  slice_none a b xs h = take_none (b - a) (drop a xs) (omega arith)

  -- Two slices that meet.
  pub slice_join :
      (a m b : ℕ) (xs : List A) → a ≤ m → m ≤ b → slice a m xs ++ slice m b xs ≡ slice a b xs
  unfolding slice
  slice_join a m b xs h k =
      ap (λ n. take (m - a) (drop a xs) ++ take (b - m) (drop n xs)) (omega arith)
      ∙ ap (λ ys. take (m - a) (drop a xs) ++ take (b - m) ys) (sym (drop-drop (m - a) a xs))
      ∙ sym (take_add (m - a) (b - m) (drop a xs))
      ∙ ap (λ n. take n (drop a xs)) (omega arith)

  -- A slice of a window.
  pub slice_window :
      (at size a b : ℕ) (xs : List A)
      → b ≤ size
      → slice a b (take size (drop at xs)) ≡ slice (at + a) (at + b) xs
  unfolding slice
  slice_window at size a b xs h =
      ap (take (b - a)) (drop-take a size (drop at xs))
      ∙ take-take (b - a) (size - a) (drop a (drop at xs)) (omega arith)
      ∙ ap (take (b - a)) (drop-drop a at xs)
      ∙ ap (λ n. take n (drop (at + a) xs)) (omega arith)

  pub length-slice-le : (a b : ℕ) (xs : List A) → length (slice a b xs) ≤ b - a
  unfolding slice
  length-slice-le a b xs = omega (arith, length-take (b - a) (drop a xs))

  -- The same where the second slice may begin past the end.
  pub slice_step :
      (a step b : ℕ) (xs : List A)
      → a ≤ b
      → slice a (min (a + step) b) xs ++ slice (a + step) b xs ≡ slice a b xs
  slice_step a step b xs h = elim (Bool-cases (leb (a + step) b)) [
    | inl e ↦
        ap (λ m. slice a m xs ++ slice (a + step) b xs) (omega (arith, leb→le (a + step) b e))
        ∙ slice_join a (a + step) b xs (omega arith) (leb→le (a + step) b e)
    | inr e ↦
        ap (λ ys. slice a (min (a + step) b) xs ++ ys) (slice_none (a + step) b xs (past e))
        ∙ append_nil (slice a (min (a + step) b) xs)
        ∙ ap (λ m. slice a m xs) (omega (arith, past e))
  ]
    where
      past : leb (a + step) b ≡ false → b ≤ a + step
      past e = ground arith

  drop_append : (n : ℕ) (xs ys : List A) → drop n (xs ++ ys) ≡ drop n xs ++ drop (n - length xs) ys
  drop_append n xs ys = elim (Bool-cases (leb n (length xs))) [
    | inl e ↦
        let short = leb→le n (length xs) e in
        drop-append_left n xs ys short
        ∙ ap (◌++◌ (drop n xs)) (sym (drop_zero ys) ∙ ap (λ m. drop m ys) (omega arith))
    | inr e ↦
        ap (λ m. drop m (xs ++ ys)) (sum_of (past e))
        ∙ drop-append (n - length xs) xs ys
        ∙ ap (λ zs. zs ++ drop (n - length xs) ys) (sym (drop_all n xs (past e)))
  ]
    where
      past : leb n (length xs) ≡ false → length xs ≤ n
      past e = ground arith

      sum_of : length xs ≤ n → n ≡ length xs + (n - length xs)
      sum_of h = omega arith

  take_append : (n : ℕ) (xs ys : List A) → take n (xs ++ ys) ≡ take n xs ++ take (n - length xs) ys
  take_append n xs ys = elim (Bool-cases (leb n (length xs))) [
    | inl e ↦
        take-append_left n xs ys (leb→le n (length xs) e)
        ∙ sym (append_nil (take n xs))
        ∙ ap (◌++◌ (take n xs)) (sym (take_none (n - length xs) ys (below e)))
    | inr e ↦
        ap (λ m. take m (xs ++ ys)) (sum_of (past e))
        ∙ take_add (length xs) (n - length xs) (xs ++ ys)
        ∙ ap (λ zs. zs ++ take (n - length xs) (drop (length xs) (xs ++ ys))) (take-append xs ys)
        ∙ ap (λ zs. xs ++ take (n - length xs) zs) (drop_prefix (length xs) xs ys refl)
        ∙ ap (λ zs. zs ++ take (n - length xs) ys) (sym (take_all n xs (past e)))
  ]
    where
      past : leb n (length xs) ≡ false → length xs ≤ n
      past e = ground arith

      below : leb n (length xs) ≡ true → n - length xs ≡ 0
      below e = omega (arith, leb→le n (length xs) e)

      sum_of : length xs ≤ n → n ≡ length xs + (n - length xs)
      sum_of h = omega arith

  take_least : (n : ℕ) (xs : List A) → take n xs ≡ take (min n (length xs)) xs
  take_least n xs = elim (Bool-cases (leb n (length xs))) [
    | inl e ↦ ap (λ m. take m xs) (omega (arith, leb→le n (length xs) e))
    | inr e ↦ take_all n xs (past e) ∙ sym (take_all (min n (length xs)) xs (omega (arith, past e)))
  ]
    where
      past : leb n (length xs) ≡ false → length xs ≤ n
      past e = ground arith

  -- A slice of two lists in a row.
  pub slice_append :
      (a b : ℕ) (xs ys : List A)
      → slice a b (xs ++ ys)
        ≡ slice a (min b (length xs)) xs ++ slice (a - length xs) (b - length xs) ys
  unfolding slice
  slice_append a b xs ys =
      ap (take (b - a)) (drop_append a xs ys)
      ∙ take_append (b - a) (drop a xs) (drop (a - length xs) ys)
      ∙ ap (λ zs. zs ++ take (b - a - length (drop a xs)) (drop (a - length xs) ys))
          (take_least (b - a) (drop a xs)
            ∙ ap (λ n. take n (drop a xs)) (omega (arith, length-drop a xs)))
      ∙ ap (λ n. take (min b (length xs) - a) (drop a xs) ++ take n (drop (a - length xs) ys))
          (omega (arith, length-drop a xs))

  pub slice_nil : (a b : ℕ) → slice {A = A} a b [] ≡ []
  unfolding slice take drop
  slice_nil a b = refl

  -- The same, for ends that are computed in another way.
  pub slice_joined :
      (a b a' b' c d : ℕ) (xs ys : List A)
      → a' ≡ a
      → b' ≡ min b (length xs)
      → c ≡ a - length xs
      → d ≡ b - length xs
      → slice a' b' xs ++ slice c d ys ≡ slice a b (xs ++ ys)
  slice_joined a b a' b' c d xs ys e f g h =
      ap (λ n. slice n b' xs ++ slice c d ys) e
      ∙ ap (λ n. slice a n xs ++ slice c d ys) f
      ∙ ap (λ n. slice a (min b (length xs)) xs ++ slice n d ys) g
      ∙ ap (λ n. slice a (min b (length xs)) xs ++ slice (a - length xs) n ys) h
      ∙ sym (slice_append a b xs ys)

  -- The same where nothing of the first list is in the slice.
  pub slice_skipped :
      (a b c d : ℕ) (xs ys : List A)
      → min b (length xs) ≤ a
      → c ≡ a - length xs
      → d ≡ b - length xs
      → slice c d ys ≡ slice a b (xs ++ ys)
  slice_skipped a b c d xs ys e g h =
      sym (ap (λ zs. zs ++ slice c d ys) (slice_none a (min b (length xs)) xs e))
      ∙ slice_joined a b a (min b (length xs)) c d xs ys refl refl g h
