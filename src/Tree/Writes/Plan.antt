-- ===== src/Tree/Writes/Plan.antt =====
-- dfsha/control_node/tree.py: `plan_write_slots`, the blocks that a write touches.
use proyecto1_sd.Base.Errors.{◌>>◌}
use proyecto1_sd.Base.{List, Result, [], eqb, err, guard, internal, invalid_path, is_negative, ltb}
use proyecto1_sd.Base.{max, min, not, ok, suc, sum, to_nat, zero, ℕ, ℤ, ◌*◌, ◌+◌, ◌-◌, ◌/◌, ◌||◌}
use proyecto1_sd.Base.{◌∷◌}

-- (index, new size) for each of `count` blocks from the index `first` on.
unfoldable pub slots_from : ℕ → ℕ → ℕ → ℕ → List (ℕ × ℕ)
slots_from zero first block_size new_size = []
slots_from (suc count) first block_size new_size =
    (first, min block_size (new_size - first * block_size))
    ∷ slots_from count (first + 1) block_size new_size

-- The plan for arguments that passed the checks. A block size of 0 is a division by zero.
unfoldable pub plan_slots : ℕ → ℕ → ℕ → ℕ → Result (List (ℕ × ℕ))
unfolding slots_from
plan_slots size zero offset count = err internal
plan_slots size (suc b) offset count =
    let block_size = suc b in
    let first = offset / block_size in
    let last = (offset + count - 1) / block_size in
    ok (slots_from (last + 1 - first) first block_size (max size (offset + count)))

unfoldable pub plan_write_slots : List ℕ → ℕ → ℤ → ℤ → Result (List (ℕ × ℕ))
unfolding plan_slots
plan_write_slots sizes block_size offset count = do
  guard (not (is_negative count || eqb (to_nat count) 0)) invalid_path
  guard (not (is_negative offset || ltb (sum sizes) (to_nat offset))) invalid_path
  plan_slots (sum sizes) block_size (to_nat offset) (to_nat count)
