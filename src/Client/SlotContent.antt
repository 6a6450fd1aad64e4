-- ===== src/Client/SlotContent.antt =====
-- dfsha/client/distributed_client.py: `_slot_content`, the bytes of a block that a write replaces.
pub mod Elements
pub mod Splicing
pub mod Laws
use proyecto1_sd.Base.{Bytes, Option, [], drop, eqb, if◌then◌else◌, inl, inr, length, max, min}
use proyecto1_sd.Base.{none, slice, some, suc, take, zero, ℕ, ◌&&◌, ◌*◌, ◌++◌, ◌+◌, ◌-◌, ◌∷◌, ◌⊎◌}
use proyecto1_sd.Client.Failover.{BlockRef, Fetched, fetched, replicas_failed, unregistered}

-- A slot of a write, with the block it replaces if the file has one there.
pub record Slot : Type 0 where
  pub index : ℕ
  pub new_size : ℕ
  pub old_block : Option BlockRef

-- `content[a:b] = bytes`
unfoldable pub assign : ℕ → ℕ → Bytes → Bytes → Bytes
assign a b bytes content = take a content ++ bytes ++ drop b content

-- `bytearray(n)`
unfoldable pub zeros : ℕ → Bytes
zeros zero = []
zeros (suc n) = 0 ∷ zeros n

-- What the slot is filled with before the bytes of the write: `old` is what was read of the old block.
abbrev pub background : ℕ → Option Bytes → Bytes
background size none = zeros size
background size (some old) = let kept = take size old in assign 0 (length kept) kept (zeros size)

-- The content from the old bytes, with the bytes of the write that fall into the block.
unfoldable pub overwritten : ℕ → ℕ → ℕ → Bytes → Option Bytes → Bytes
overwritten block_start size offset bytes old =
    let block_end = block_start + size in
    let write_start = max offset block_start in
    let write_end = min (offset + length bytes) block_end in
    assign (write_start - block_start) (write_end - block_start)
      (slice (write_start - offset) (write_end - offset) bytes) (background size old)

-- `_slot_content`: the bytes, or what reading the old block raised.
unfoldable pub slot_content : (BlockRef → Fetched) → Slot → ℕ → ℕ → Bytes → Bytes ⊎ Fetched
slot_content read slot block_size offset bytes =
    let block_start = slot.index * block_size in
    let block_end = block_start + slot.new_size in
    let write_start = max offset block_start in
    let write_end = min (offset + length bytes) block_end in
    if eqb write_start block_start && eqb write_end block_end
    then inl (slice (write_start - offset) (write_end - offset) bytes)
    else elim slot.old_block [
      | none ↦ inl (overwritten block_start slot.new_size offset bytes none)
      | some b ↦ elim (read b) [
        | fetched n old ↦ inl (overwritten block_start slot.new_size offset bytes (some old))
        | unregistered out ↦ inr (unregistered out)
        | replicas_failed e out ↦ inr (replicas_failed e out)
      ]
    ]

-- The file after a write: the bytes at the offset, over what was there or behind the end.
unfoldable pub spliced : ℕ → Bytes → Bytes → Bytes
spliced offset bytes old = assign offset (offset + length bytes) bytes old
