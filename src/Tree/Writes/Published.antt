-- ===== src/Tree/Writes/Published.antt =====
-- What the loop of `commit_write` over the slots makes of the blocks of a file.
use proyecto1_sd.Base.{List, Option-cases, [], arith, get_elem?, inl, inr, none, refl, set, some}
use proyecto1_sd.Base.{true, ◌++◌, ◌∷◌, ◌≡◌}
use proyecto1_sd.Tests.{block}
use proyecto1_sd.Tree.Data.{BlockRecord, WriteSlotRecord}
use proyecto1_sd.Tree.Writes.{ConfirmedSlot, confirmed_block, confirms, publish}

-- The block that stands for a slot once the client has confirmed it, with the id and the size planned.
pub record IsConfirmedBlock (slot : WriteSlotRecord) (c : ConfirmedSlot) (b : BlockRecord)
    : Type 0 where
  pub planned_id : c.block_id ≡ slot.new_block_id
  pub planned_size : c.size ≡ slot.new_size
  pub same_id : b.block_id ≡ c.block_id
  pub same_addresses : b.datanode_addresses ≡ slot.new_addresses
  pub same_checksum : b.checksum ≡ c.checksum
  pub same_size : b.size_bytes ≡ c.size
  pub is_confirmed : b.confirmed ≡ true

-- Slot by slot, in order, a confirmed block takes the place of the block at the index of its slot, which
-- is among the replaced ones, or follows the last block if there is none.
pub data Published
    : List WriteSlotRecord
      → List ConfirmedSlot
      → List BlockRecord
      → List BlockRecord
      → List BlockRecord
      → Type 0 where
  all_published : (blocks : List BlockRecord) → Published [] [] blocks blocks []
  replaces :
      {slot : WriteSlotRecord} {c : ConfirmedSlot} {b old : BlockRecord}
      {slots : List WriteSlotRecord} {cs : List ConfirmedSlot}
      {blocks after gone : List BlockRecord}
      → IsConfirmedBlock slot c b
      → c.index ≡ slot.index
      → get_elem? blocks slot.index ≡ some old
      → Published slots cs (set blocks slot.index b) after gone
      → Published (slot ∷ slots) (c ∷ cs) blocks after (old ∷ gone)
  follows :
      {slot : WriteSlotRecord} {c : ConfirmedSlot} {b : BlockRecord} {slots : List WriteSlotRecord}
      {cs : List ConfirmedSlot} {blocks after gone : List BlockRecord}
      → IsConfirmedBlock slot c b
      → c.index ≡ slot.index
      → get_elem? blocks slot.index ≡ none
      → Published slots cs (blocks ++ b ∷ []) after gone
      → Published (slot ∷ slots) (c ∷ cs) blocks after gone

confirms_head :
    (s : WriteSlotRecord) (ss : List WriteSlotRecord) (c : ConfirmedSlot) (cs : List ConfirmedSlot)
    → confirms (s ∷ ss) (c ∷ cs) ≡ true
    → IsConfirmedBlock s c (confirmed_block s c) × (c.index ≡ s.index) × (confirms ss cs ≡ true)
unfolding confirms
confirms_head s ss c cs h = (
  record {
    planned_id = ground arith;
    planned_size = ground arith;
    same_id = ground arith;
    same_addresses = refl;
    same_checksum = refl;
    same_size = refl;
    is_confirmed = refl;
  },
  ground arith,
  ground arith,
)

pub publish-Published :
    (slots : List WriteSlotRecord) (cs : List ConfirmedSlot) (blocks : List BlockRecord)
    → confirms slots cs ≡ true
    → Published slots cs blocks (publish slots cs blocks).0 (publish slots cs blocks).1
unfolding publish
publish-Published [] [] blocks h = all_published blocks
publish-Published [] (c ∷ cs) blocks h = absurd (unfold confirms in ground arith)
publish-Published (s ∷ ss) [] blocks h = absurd (unfold confirms in ground arith)
publish-Published (s ∷ ss) (c ∷ cs) blocks h =
    let (block, index, rest) = confirms_head s ss c cs h in
    elim (Option-cases (get_elem? blocks s.index)) [
      | inl e ↦
          rw (publish, e)
            (follows block index e
              (publish-Published ss cs (blocks ++ confirmed_block s c ∷ []) rest))
      | inr (old, e) ↦
          rw (publish, e)
            (replaces block index e
              (publish-Published ss cs (set blocks s.index (confirmed_block s c)) rest))
    ]
