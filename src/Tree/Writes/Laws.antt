-- ===== src/Tree/Writes/Laws.antt =====
-- The sizes of the blocks that a write publishes.
use proyecto1_sd.Base.{List, Option-cases, [], ap, arith, get_elem?, inl, inr, map, max, none, ok}
use proyecto1_sd.Base.{pos, refl, set, some, suc, sum, true, zero, ℕ, ◌++◌, ◌+◌, ◌∙◌, ◌∷◌, ◌≡◌}
use proyecto1_sd.Tree.Data.{BlockRecord, WriteSlotRecord}
use proyecto1_sd.Tree.Writes.{ConfirmedSlot, Proposal, confirmed_block, confirms, publish, sizes_of}
use proyecto1_sd.Tree.Writes.{zip_slots}
use proyecto1_sd.Tree.Writes.Layout.{IsTiled, plan_write_slots_inv, put_sizes, put_sizes-IsTiled}
use proyecto1_sd.Tree.Writes.Layout.{sum_of_IsTiled}
use proyecto1_sd.Tree.Writes.Plan.{plan_write_slots}

abbrev pub slot_sizes : List WriteSlotRecord → List (ℕ × ℕ)
slot_sizes slots = map (λ (s : WriteSlotRecord). (s.index, s.new_size)) slots

get_elem?-sizes_of :
    (blocks : List BlockRecord) (i : ℕ)
    → get_elem? (sizes_of blocks) i
      ≡ elim (get_elem? blocks i) [ none ↦ none | some b ↦ some b.size_bytes ]
get_elem?-sizes_of [] i = refl
get_elem?-sizes_of (b ∷ bs) zero = refl
get_elem?-sizes_of (b ∷ bs) (suc i) = get_elem?-sizes_of bs i

sizes_of-set :
    (blocks : List BlockRecord) (i : ℕ) (b : BlockRecord)
    → sizes_of (set blocks i b) ≡ set (sizes_of blocks) i b.size_bytes
sizes_of-set [] i b = refl
sizes_of-set (c ∷ bs) zero b = refl
sizes_of-set (c ∷ bs) (suc i) b = ap (◌∷◌ c.size_bytes) (sizes_of-set bs i b)

sizes_of-append :
    (blocks : List BlockRecord) (b : BlockRecord)
    → sizes_of (blocks ++ b ∷ []) ≡ sizes_of blocks ++ b.size_bytes ∷ []
sizes_of-append [] b = refl
sizes_of-append (c ∷ bs) b = ap (◌∷◌ c.size_bytes) (sizes_of-append bs b)

-- The sizes after the loop over the slots are those of the plan.
sizes_of-publish :
    (slots : List WriteSlotRecord) (cs : List ConfirmedSlot) (blocks : List BlockRecord)
    → confirms slots cs ≡ true
    → sizes_of (publish slots cs blocks).0 ≡ put_sizes (slot_sizes slots) (sizes_of blocks)
unfolding confirms publish put_sizes
sizes_of-publish [] [] blocks h = refl
sizes_of-publish [] (c ∷ cs) blocks h = absurd (ground arith)
sizes_of-publish (s ∷ ss) [] blocks h = absurd (ground arith)
sizes_of-publish (s ∷ ss) (c ∷ cs) blocks h = elim (Option-cases (get_elem? blocks s.index)) [
  | inl e ↦ ground (
    arith,
    sizes_of-publish ss cs (blocks ++ confirmed_block s c ∷ []) (ground arith),
    sizes_of-append blocks (confirmed_block s c),
    get_elem?-sizes_of blocks s.index,
  )
  | inr (old, e) ↦ ground (
    arith,
    sizes_of-publish ss cs (set blocks s.index (confirmed_block s c)) (ground arith),
    sizes_of-set blocks s.index (confirmed_block s c),
    get_elem?-sizes_of blocks s.index,
  )
]

slot_sizes-zip_slots :
    (plan : List (ℕ × ℕ)) (ps : List Proposal)
    → map (λ (x : ℕ × ℕ). x.0) plan ≡ map (λ (p : Proposal). p.index) ps
    → slot_sizes (zip_slots plan ps) ≡ plan
slot_sizes-zip_slots [] ps h = refl
slot_sizes-zip_slots (x ∷ plan) [] h = absurd (ground arith)
slot_sizes-zip_slots (x ∷ plan) (p ∷ ps) h =
    ground (arith, slot_sizes-zip_slots plan ps (ground arith))

-- From a file of `size` bytes whose blocks are full but the last, the planned slots of a write of
-- `count` bytes at `offset`, once confirmed and published, make a file of the larger of `size` and
-- `offset + count` bytes whose blocks are full but the last.
pub publish-IsTiled :
    (blocks : List BlockRecord) (b offset count : ℕ) (plan : List (ℕ × ℕ)) (ps : List Proposal)
    (cs : List ConfirmedSlot)
    → IsTiled b (sum (sizes_of blocks)) (sizes_of blocks)
    → plan_write_slots (sizes_of blocks) b (pos offset) (pos count) ≡ ok plan
    → map (λ (x : ℕ × ℕ). x.0) plan ≡ map (λ (p : Proposal). p.index) ps
    → confirms (zip_slots plan ps) cs ≡ true
    → let after = sizes_of (publish (zip_slots plan ps) cs blocks).0 in
      let size = max (sum (sizes_of blocks)) (offset + count) in
      IsTiled b size after × (sum after ≡ size)
publish-IsTiled blocks b offset count plan ps cs tiled planned proposed confirmed =
    let (le, some_bytes, positive, slots) =
      plan_write_slots_inv (sizes_of blocks) b offset count plan planned in
    let published =
      sizes_of-publish (zip_slots plan ps) cs blocks confirmed
      ∙ ap (λ p. put_sizes p (sizes_of blocks)) (slot_sizes-zip_slots plan ps proposed) in
    let done =
      put_sizes-IsTiled (sizes_of blocks) _ b offset count plan tiled le some_bytes slots in
    rw published (done, sum_of_IsTiled _ b _ positive done)
