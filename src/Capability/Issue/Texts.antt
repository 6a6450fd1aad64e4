-- ===== src/Capability/Issue/Texts.antt =====
-- Cutting a text at a character, and the decimal digits of a number.
use proyecto1_sd.Base.{Bool, Bool-cases, Text, [], arith, contains, every, false, inl, inr}
use proyecto1_sd.Base.{is_empty, list_eq, ltb, nat_eq, none, refl, some, split, suc, true, zero, ℕ}
use proyecto1_sd.Base.{◌%◌, ◌&&◌, ◌*◌, ◌++◌, ◌+◌, ◌-◌, ◌/◌, ◌∷◌, ◌≡◌, ◌≤◌}
use proyecto1_sd.Capability.{is_digit, number_onto, rpartition}
use proyecto1_sd.Capability.Issue.{decimal}

pub every-append : (p : ℕ → Bool) (xs ys : Text) → every p (xs ++ ys) ≡ (every p xs && every p ys)
every-append p [] ys = refl
every-append p (x ∷ xs) ys = ground (arith, every-append p xs ys)

pub every_weaker :
    (p q : ℕ → Bool) (xs : Text)
    → ((c : ℕ) → p c ≡ true → q c ≡ true)
    → every p xs ≡ true
    → every q xs ≡ true
every_weaker p q [] w h = refl
every_weaker p q (x ∷ xs) w h = ground (arith, w x, every_weaker p q xs w)

-- What has only such characters has no other.
pub every_without :
    (p : ℕ → Bool) (c : ℕ) (xs : Text) → p c ≡ false → every p xs ≡ true → contains xs c ≡ false
every_without p c [] o h = refl
every_without p c (x ∷ xs) o h = ground (arith, every_without p c xs o)

pub rpartition-none : (sep : ℕ) (s : Text) → contains s sep ≡ false → rpartition sep s ≡ none
unfolding rpartition
rpartition-none sep [] h = refl
rpartition-none sep (c ∷ s) h = ground (arith, rpartition-none sep s)

pub rpartition-append :
    (sep : ℕ) (before behind : Text)
    → contains behind sep ≡ false
    → rpartition sep (before ++ sep ∷ behind) ≡ some (before, behind)
unfolding rpartition
rpartition-append sep [] behind h = ground (arith, rpartition-none sep behind h)
rpartition-append sep (c ∷ s) behind h = ground (arith, rpartition-append sep s behind h)

pub split_whole : (sep : ℕ) (s : Text) → contains s sep ≡ false → split sep s ≡ s ∷ []
unfolding split
split_whole sep [] h = refl
split_whole sep (c ∷ s) h = ground (arith, split_whole sep s)

pub split-append :
    (sep : ℕ) (s rest : Text)
    → contains s sep ≡ false
    → split sep (s ++ sep ∷ rest) ≡ s ∷ (split sep rest)
unfolding split
split-append sep [] rest h = ground arith
split-append sep (c ∷ s) rest h = ground (arith, split-append sep s rest)

pub number_onto-append :
    (n c : ℕ) (s : Text) → number_onto n (s ++ c ∷ []) ≡ 10 * number_onto n s + (c - b'0')
unfolding number_onto
number_onto-append n c [] = refl
number_onto-append n c (d ∷ s) = number_onto-append (10 * n + (d - b'0')) c s

pub number_onto-decimal : (rounds n : ℕ) → n ≤ rounds → number_onto 0 (decimal rounds n) ≡ n
unfolding decimal number_onto
number_onto-decimal zero n h = omega arith
number_onto-decimal (suc rounds) n h = elim (Bool-cases (ltb n 10)) [
  | inl e ↦ ground (arith)
  | inr e ↦
      let front = number_onto-decimal rounds (n / 10) (ground arith) in
      let last = number_onto-append 0 (b'0' + n % 10) (decimal rounds (n / 10)) in
      ground (arith, front, last)
]

pub every-decimal : (rounds n : ℕ) → every is_digit (decimal rounds n) ≡ true
unfolding decimal
every-decimal zero n = ground arith
every-decimal (suc rounds) n = ground (
  arith,
  every-decimal rounds (n / 10),
  every-append is_digit (decimal rounds (n / 10)) ((b'0' + n % 10) ∷ []),
)

pub is_empty-decimal : (rounds n : ℕ) → is_empty (decimal rounds n) ≡ false
unfolding decimal
is_empty-decimal zero n = refl
is_empty-decimal (suc rounds) n = ground (arith, nonempty (decimal rounds (n / 10)) (b'0' + n % 10))
  where
    nonempty : (s : Text) (c : ℕ) → is_empty (s ++ c ∷ []) ≡ false
    nonempty [] c = refl
    nonempty (x ∷ s) c = refl
