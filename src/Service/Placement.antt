-- ===== src/Service/Placement.antt =====
-- dfsha/control_node/servicer.py: how `BeginUpload` cuts a file into blocks, and `_pick_replicas`.
use proyecto1_sd.Base.{List, Option, Option-cases, Text, [], arith, get_elem?, if◌then◌else◌, inl}
use proyecto1_sd.Base.{inr, length, ltb, map, min, none, some, suc, sum, zero, ℕ, ◌%◌, ◌*◌, ◌+◌}
use proyecto1_sd.Base.{◌-◌, ◌/◌, ◌<◌, ◌∷◌, ◌≡◌, ◌≤◌}
use proyecto1_sd.Tree.Writes.Layout.{IsTiled, sum_of_IsTiled}

-- `-(-size // block_size)`
unfoldable pub block_count : ℕ → ℕ → ℕ
block_count size zero = 0
block_count size (suc b) = (size + b) / suc b

-- `_pick_replicas`, from the addresses that are alive and the offset: the replicas and the next
-- offset, or nothing with fewer nodes than a write needs.
unfoldable pub pick_from : List Text → ℕ → ℕ → List Text
pick_from alive start zero = []
pick_from alive start (suc n) =
    let rest = pick_from alive (start + 1) n in
    elim (get_elem? alive (start % length alive)) [ none ↦ rest | some a ↦ a ∷ rest ]

unfoldable pub pick_replicas : ℕ → ℕ → List Text → ℕ → Option (List Text × ℕ)
unfolding pick_from
pick_replicas factor least alive start =
    if ltb (length alive) least
    then none
    else some (pick_from alive start (min factor (length alive)), (start + 1) % length alive)

-- One more placement before those of the rest, if there are those.
abbrev pub with_placement :
    Text × List Text → Option (List (Text × List Text)) → Option (List (Text × List Text))
with_placement p none = none
with_placement p (some rest) = some (p ∷ rest)

-- One new block for each of `n`, with the identifier that is made for it and the nodes that are alive
-- then, both by the number of blocks that follow. Nothing if the nodes are too few for one of them; the
-- next offset is the one that was reached.
unfoldable pub propose :
    ℕ → ℕ → (ℕ → List Text) → (ℕ → Text) → ℕ → ℕ → Option (List (Text × List Text)) × ℕ
unfolding pick_replicas
propose factor least alive ids offset zero = (some [], offset)
propose factor least alive ids offset (suc n) = elim (pick_replicas factor least (alive n) offset) [
  | none ↦ (none, offset)
  | some (replicas, next) ↦
      let (rest, final) = propose factor least alive ids next n in
      (with_placement (ids n, replicas) rest, final)
]

-- `BlockLocation`, with the addresses as the metadata has them.
pub record BlockLocation : Type 0 where
  pub block_id : Text
  pub datanode_addresses : List Text
  pub size_bytes : ℕ

-- `min(block_size, remaining)` of each placement, while `remaining` goes down.
unfoldable pub locations : ℕ → ℕ → List (Text × List Text) → List BlockLocation
locations block_size remaining [] = []
locations block_size remaining ((id, addresses) ∷ rest) =
    let this_block_size = min block_size remaining in
    record { block_id = id; datanode_addresses = addresses; size_bytes = this_block_size }
    ∷ locations block_size (remaining - this_block_size) rest

abbrev pub location_sizes : List BlockLocation → List ℕ
location_sizes l = map (λ (x : BlockLocation). x.size_bytes) l

locations-IsTiled :
    (b : ℕ) (ps : List (Text × List Text)) (size : ℕ)
    → 0 < b
    → size ≤ length ps * b
    → length ps * b < size + b
    → IsTiled b size (location_sizes (locations b size ps))
unfolding locations
locations-IsTiled b [] size h le lt j = ground arith
locations-IsTiled b (p ∷ ps) size h le lt zero = ground arith
locations-IsTiled b (p ∷ ps) size h le lt (suc j) =
    let rest = size - min b size in
    ground (arith, locations-IsTiled b ps rest h (omega arith) (omega arith) j)

length-propose :
    (factor least : ℕ) (alive : ℕ → List Text) (ids : ℕ → Text) (offset n : ℕ)
    (ps : List (Text × List Text))
    → (propose factor least alive ids offset n).0 ≡ some ps
    → length ps ≡ n
unfolding propose
length-propose factor least alive ids offset zero ps h = ground arith
length-propose factor least alive ids offset (suc n) ps h =
    elim (Option-cases (pick_replicas factor least (alive n) offset)) [
      | inl e ↦ absurd (ground arith)
      | inr ((replicas, next), e) ↦ elim (Option-cases (propose factor least alive ids next n).0) [
        | inl f ↦ absurd (ground arith)
        | inr (rest, f) ↦ ground (arith, length-propose factor least alive ids next n rest f)
      ]
    ]

block_count_bounds :
    (b size : ℕ) → 0 < b → (size ≤ block_count size b * b) × (block_count size b * b < size + b)
unfolding block_count
block_count_bounds zero size h = absurd (omega arith)
block_count_bounds (suc b) size h = (omega arith, omega arith)

-- The blocks that are proposed for an upload of `size` bytes are full but the last, once they are
-- laid out, and their sizes add up to the size of the upload.
pub upload-IsTiled :
    (factor least : ℕ) (alive : ℕ → List Text) (ids : ℕ → Text) (offset b size : ℕ)
    (ps : List (Text × List Text))
    → 0 < b
    → (propose factor least alive ids offset (block_count size b)).0 ≡ some ps
    → IsTiled b size (location_sizes (locations b size ps))
      × (sum (location_sizes (locations b size ps)) ≡ size)
upload-IsTiled factor least alive ids offset b size ps h e =
    let n = length-propose factor least alive ids offset (block_count size b) ps e in
    let (covers, tight) = block_count_bounds b size h in
    let tiled = locations-IsTiled b ps size h (rw n covers) (rw n tight) in
    (tiled, sum_of_IsTiled _ b size h tiled)
