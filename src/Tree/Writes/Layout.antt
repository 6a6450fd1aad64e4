-- ===== src/Tree/Writes/Layout.antt =====
-- The sizes of the blocks of a file under a planned write.
use proyecto1_sd.Base.{List, Option-cases, [], arith, dec_lt, eqb, get_elem?, if◌then◌else◌, inl}
use proyecto1_sd.Base.{inr, le_trans, ltb, max, min, none, ok, pos, refl, set, some, suc, sum, zero}
use proyecto1_sd.Base.{ℕ, ◌*◌, ◌++◌, ◌+◌, ◌-◌, ◌/◌, ◌<◌, ◌∷◌, ◌≡◌, ◌≢◌, ◌≤◌}
use proyecto1_sd.Tree.Writes.Plan.{plan_slots, plan_write_slots, slots_from}

-- The blocks of a file of `size` bytes: all full but the last.
abbrev pub IsTiled : ℕ → ℕ → List ℕ → Type 0
IsTiled b size sizes =
    (j : ℕ) → get_elem? sizes j ≡ (if ltb (j * b) size then some (min b (size - j * b)) else none)

-- One slot: a size is replaced, or put behind the last.
abbrev pub put_size : ℕ → ℕ → List ℕ → List ℕ
put_size i v sizes = elim (get_elem? sizes i) [ none ↦ sizes ++ v ∷ [] | some _ ↦ set sizes i v ]

unfoldable pub put_sizes : List (ℕ × ℕ) → List ℕ → List ℕ
put_sizes [] sizes = sizes
put_sizes ((i, v) ∷ plan) sizes = put_sizes plan (put_size i v sizes)

mul_mono : (a c b : ℕ) → a ≤ c → a * b ≤ c * b
mul_mono a c b h = grind arith

get_elem?-set :
    (xs : List ℕ) (i v j : ℕ) {w : ℕ}
    → get_elem? xs i ≡ some w
    → get_elem? (set xs i v) j ≡ (if eqb j i then some v else get_elem? xs j)
get_elem?-set [] i v j h = absurd (ground arith)
get_elem?-set (x ∷ xs) zero v zero h = ground arith
get_elem?-set (x ∷ xs) zero v (suc j) h = ground arith
get_elem?-set (x ∷ xs) (suc i) v zero h = ground arith
get_elem?-set (x ∷ xs) (suc i) v (suc j) h = ground (arith, get_elem?-set xs i v j h)

get_elem?-append :
    (xs : List ℕ) (i v j : ℕ)
    → get_elem? xs i ≡ none
    → ((k : ℕ) → k < i → get_elem? xs k ≢ none)
    → get_elem? (xs ++ v ∷ []) j ≡ (if eqb j i then some v else get_elem? xs j)
get_elem?-append [] zero v zero h below = ground arith
get_elem?-append [] zero v (suc j) h below = ground arith
get_elem?-append [] (suc i) v j h below = absurd (below 0 (omega arith) refl)
get_elem?-append (x ∷ xs) zero v j h below = absurd (ground arith)
get_elem?-append (x ∷ xs) (suc i) v zero h below = ground arith
get_elem?-append (x ∷ xs) (suc i) v (suc j) h below =
    ground (arith, get_elem?-append xs i v j h (λ k lt. below (suc k) (omega arith)))

put_size-get_elem? :
    (xs : List ℕ) (i v j : ℕ)
    → ((k : ℕ) → k < i → get_elem? xs k ≢ none)
    → get_elem? (put_size i v xs) j ≡ (if eqb j i then some v else get_elem? xs j)
put_size-get_elem? xs i v j below = elim (Option-cases (get_elem? xs i)) [
  | inl e ↦ ground (arith, get_elem?-append xs i v j e below)
  | inr (w, e) ↦ ground (arith, get_elem?-set xs i v j e)
]

module _ (b old new : ℕ) (positive : 0 < b) where
  -- The sizes while the slots below `i` are written and the others are not.
  abbrev IsWritten : ℕ → List ℕ → Type 0
  IsWritten i sizes =
      (j : ℕ)
      → get_elem? sizes j ≡ (
          if ltb j i
          then some (min b (new - j * b))
          else if ltb (j * b) old
          then some (min b (old - j * b))
          else none)

  put_size-IsWritten :
      (i : ℕ) (sizes : List ℕ)
      → IsWritten i sizes
      → IsWritten (i + 1) (put_size i (min b (new - i * b)) sizes)
  put_size-IsWritten i sizes h j = ground (
    arith,
    put_size-get_elem? sizes i (min b (new - i * b)) j (λ k lt e. ground (arith, h k)),
    h j,
  )

  put_sizes-IsWritten :
      (count i : ℕ) (sizes : List ℕ)
      → IsWritten i sizes
      → IsWritten (i + count) (put_sizes (slots_from count i b new) sizes)
  unfolding put_sizes slots_from
  put_sizes-IsWritten zero i sizes h = let e : i + zero ≡ i = omega arith in rw e h
  put_sizes-IsWritten (suc count) i sizes h =
      let e : i + suc count ≡ i + 1 + count = omega arith in
      rw e (put_sizes-IsWritten count (i + 1) _ (put_size-IsWritten i sizes h))

  -- Before the first slot, and behind the last.
  untouched-IsWritten :
      (i : ℕ) (sizes : List ℕ) → i * b ≤ old → old ≤ new → IsTiled b old sizes → IsWritten i sizes
  untouched-IsWritten i sizes h le tiled j = elim (dec_lt j i) [
    | yes lt ↦ ground (arith, tiled j, mul_mono (j + 1) i b (omega arith))
    | no ge ↦ ground (arith, tiled j)
  ]

  rewritten-IsTiled :
      (last stop : ℕ) (sizes : List ℕ)
      → last * b < new
      → stop ≤ (last + 1) * b
      → new ≡ max old stop
      → IsWritten (last + 1) sizes
      → IsTiled b new sizes
  rewritten-IsTiled last stop sizes lt covers e written j = elim (dec_lt j (last + 1)) [
    | yes below ↦ ground (arith, written j, mul_mono j last b (omega arith))
    | no above ↦ ground (arith, written j, mul_mono (last + 1) j b (omega arith))
  ]

div_bounds : (x b : ℕ) → 0 < b → (x / b * b ≤ x) × (x < (x / b + 1) * b)
div_bounds x b h = (omega arith, omega arith)

div_mono : (x y b : ℕ) → 0 < b → x ≤ y → x / b ≤ y / b
div_mono x y b h le = elim (dec_lt (y / b) (x / b)) [
  | yes lt ↦ absurd (
      omega
        (arith, div_bounds x b h, div_bounds y b h, mul_mono (y / b + 1) (x / b) b (omega arith)))
  | no ge ↦ omega arith
]

-- The slots of a plan: from the block of the first byte to that of the last, at least one.
plan_slots_range :
    (size b offset count : ℕ) (plan : List (ℕ × ℕ))
    → plan_slots size b offset count ≡ ok plan
    → (0 < b)
      × (plan
          ≡ slots_from
              ((offset + count - 1) / b + 1 - offset / b)
              (offset / b)
              b
              (max size (offset + count)))
unfolding plan_slots
plan_slots_range size zero offset count plan h = absurd (ground arith)
plan_slots_range size (suc k) offset count plan h = (omega arith, ground arith)

-- Writing the slots of a plan into the sizes of a file gives the sizes of the longer file.
pub put_sizes-IsTiled :
    (sizes : List ℕ) (size b offset count : ℕ) (plan : List (ℕ × ℕ))
    → IsTiled b size sizes
    → offset ≤ size
    → 0 < count
    → plan_slots size b offset count ≡ ok plan
    → IsTiled b (max size (offset + count)) (put_sizes plan sizes)
put_sizes-IsTiled sizes size b offset count plan tiled le some_bytes h =
    let (positive, e) = plan_slots_range size b offset count plan h in
    let first = offset / b in
    let last = (offset + count - 1) / b in
    let new = max size (offset + count) in
    let first_bounds = div_bounds offset b positive in
    let last_bounds = div_bounds (offset + count - 1) b positive in
    let up = div_mono offset (offset + count - 1) b positive (omega arith) in
    let start =
      untouched-IsWritten b size new positive first sizes (le_trans first_bounds.0 le) (omega arith)
        tiled in
    let done = put_sizes-IsWritten b size new positive (last + 1 - first) first sizes start in
    let stop : first + (last + 1 - first) ≡ last + 1 = omega (arith, up) in
    rw e (
      rewritten-IsTiled b size new positive last (offset + count) _ (omega (arith, last_bounds))
        (omega (arith, last_bounds)) refl (rw stop at done))

-- A file's size is the sum of the sizes of its blocks.
pub sum_of_IsTiled : (sizes : List ℕ) (b size : ℕ) → 0 < b → IsTiled b size sizes → sum sizes ≡ size
sum_of_IsTiled [] b size h tiled = ground (arith, tiled 0)
sum_of_IsTiled (x ∷ xs) b size h tiled =
    ground (arith, tiled 0, sum_of_IsTiled xs b (size - b) h (λ j. tail j))
  where
    tail : IsTiled b (size - b) xs
    tail j = ground (arith, tiled (suc j))

-- An accepted plan of a write at `offset` of `count` bytes.
pub plan_write_slots_inv :
    (sizes : List ℕ) (b offset count : ℕ) (plan : List (ℕ × ℕ))
    → plan_write_slots sizes b (pos offset) (pos count) ≡ ok plan
    → (offset ≤ sum sizes)
      × (0 < count)
      × (0 < b)
      × (plan_slots (sum sizes) b offset count ≡ ok plan)
unfolding plan_write_slots
plan_write_slots_inv sizes b offset count plan h =
    let slots : plan_slots (sum sizes) b offset count ≡ ok plan = ground arith in
    (ground arith, ground arith, (plan_slots_range (sum sizes) b offset count plan slots).0, slots)
