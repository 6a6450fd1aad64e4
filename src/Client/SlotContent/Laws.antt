-- ===== src/Client/SlotContent/Laws.antt =====
-- The content of a slot of a write, against the file after the write.
use proyecto1_sd.Base.{Bool-cases, Bytes, Option-cases, ap, arith, eqb, false, inl, inr, length}
use proyecto1_sd.Base.{max, min, none, slice, some, true, ℕ, ◌&&◌, ◌*◌, ◌+◌, ◌<◌, ◌≡◌, ◌≤◌}
use proyecto1_sd.Client.Failover.{BlockRef, Fetched, fetched}
use proyecto1_sd.Client.SlotContent.{Slot, slot_content, spliced}
use proyecto1_sd.Client.SlotContent.Splicing.{covered-spliced, old_content, overlap_end}
use proyecto1_sd.Client.SlotContent.Splicing.{overlap_start, overwritten-spliced}

-- What the plan says of the old block of a slot: there is none only behind the end of the file, and
-- the one that there is reads as the bytes of the file at its place.
abbrev pub OldBlock : (BlockRef → Fetched) → Slot → ℕ → Bytes → Type 0
OldBlock read slot block_size file_bytes = elim slot.old_block [
  | none ↦ length file_bytes ≤ slot.index * block_size
  | some b ↦
      (n : ℕ) × (read b
        ≡ fetched n
            (slice (slot.index * block_size) (slot.index * block_size + block_size) file_bytes))
]

-- The new block of a slot holds the bytes that the file has at its place after the write, the bytes of
-- the write over the old ones, for a slot that the write touches, within the new file, not empty and of at
-- most the size of a block, and a write that begins in the file or at its end.
pub slot_content-spliced :
    (read : BlockRef → Fetched) (slot : Slot) (block_size offset : ℕ) (bytes file_bytes : Bytes)
    → 0 < slot.new_size
    → slot.new_size ≤ block_size
    → offset ≤ length file_bytes
    → slot.index * block_size + slot.new_size ≤ max (length file_bytes) (offset + length bytes)
    → slot.index * block_size < offset + length bytes
    → offset < slot.index * block_size + slot.new_size
    → OldBlock read slot block_size file_bytes
    → slot_content read slot block_size offset bytes
      ≡ inl (
          slice
            (slot.index * block_size)
            (slot.index * block_size + slot.new_size)
            (spliced offset bytes file_bytes))
unfolding slot_content old_content overlap_start overlap_end
slot_content-spliced read slot block_size offset bytes file_bytes filled fits inside in_new
      before_end behind_start old =
    let start = slot.index * block_size in
    let size = slot.new_size in
    elim (Bool-cases (
      eqb (max offset start) start
      && eqb (min (offset + length bytes) (start + size)) (start + size))) [
        | inl e ↦
            let (low, high) = ends offset start (offset + length bytes) (start + size) e in
            rw (slot_content, e)
              (ap inl (
                covered-spliced start size block_size offset bytes file_bytes fits inside in_new
                  before_end behind_start low high))
        | inr e ↦ elim (Option-cases slot.old_block) [
          | inl h ↦ absurd (
              always offset start (offset + length bytes) (start + size) (length file_bytes) inside
                in_new behind_start (omega arith) (rw h at old) e)
          | inr (b, h) ↦
              let (n, r) = rw h at old in
              rw (slot_content, e, h, r)
                (ap inl (
                  overwritten-spliced start size block_size offset bytes file_bytes fits inside
                    in_new before_end behind_start))
        ]
      ]
  where
    ends : (a b c d : ℕ) → (eqb (max a b) b && eqb (min c d) d) ≡ true → (a ≤ b) × (d ≤ c)
    ends a b c d e = (ground arith, ground arith)

    always :
        (a b c d n : ℕ)
        → a ≤ n
        → d ≤ max n c
        → a < d
        → b < d
        → n ≤ b
        → (eqb (max a b) b && eqb (min c d) d) ≡ false
        → ⊥
    always a b c d n h k l i m e = ground arith
