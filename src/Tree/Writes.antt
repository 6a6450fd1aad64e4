-- ===== src/Tree/Writes.antt =====
-- dfsha/control_node/tree.py: copy-on-write writes (`write_layout`, `begin_write`, `commit_write`,
-- `abort_write`) and their reservations. The blocks of a file are never changed in their place.
pub mod Plan
pub mod Layout
pub mod Laws
pub mod Published
pub mod Commit
use proyecto1_sd.Base.Dict
use proyecto1_sd.Base.{Bool, Exec, List, Option, Text, [], conflict, eqb, false, get_elem?, gets}
use proyecto1_sd.Base.{guard, if◌then◌else◌, lift, list_eq, ltb, map, modify, nat_eq, none, not}
use proyecto1_sd.Base.{or_error, pure, set, some, suc, true, zero, ℕ, ℤ, ◌&&◌, ◌++◌, ◌+◌, ◌==◌}
use proyecto1_sd.Base.{◌>>=◌, ◌>>◌, ◌∷◌}
use proyecto1_sd.Tree.Data.{BlockRecord, Caller, ControlTree, FileNode, LockMode, LockState}
use proyecto1_sd.Tree.Data.{WriteReservation, WriteSlotRecord, exclusive, file, shared, write_bit}
use proyecto1_sd.Tree.FilePath.{canonical_path, path_parts}
use proyecto1_sd.Tree.Locks.{cleanup_expired_locks}
use proyecto1_sd.Tree.Lookup.{get_committed_file}
use proyecto1_sd.Tree.Perms.{require}
use proyecto1_sd.Tree.Uploads.{set_file}
use proyecto1_sd.Tree.Writes.Plan.{plan_write_slots}

-- The size of a file from before block sizes were stored is that of its first block, if a second
-- follows.
abbrev pub inferred_size : List BlockRecord → ℕ → ℕ
inferred_size [] default = default
inferred_size (b ∷ []) default = default
inferred_size (b ∷ c ∷ bs) default = b.size_bytes

abbrev pub nonzero_or : ℕ → ℕ → ℕ
nonzero_or zero d = d
nonzero_or (suc n) d = suc n

-- `_block_size_of`
unfoldable pub block_size_of : FileNode → ℕ → ℕ
block_size_of f default = nonzero_or f.block_size (inferred_size f.blocks default)

abbrev pub sizes_of : List BlockRecord → List ℕ
sizes_of blocks = map (λ (b : BlockRecord). b.size_bytes) blocks

unfoldable pub write_layout : Text → ℕ → Option Caller → Exec ControlTree (ℕ × ℕ × List ℕ)
write_layout path default caller = do
  s ← gets (λ s. s)
  f ← lift (get_committed_file path s)
  lift (require (file f) caller write_bit)
  pure (f.version, block_size_of f default, sizes_of f.blocks)

abbrev pub is_exclusive : LockMode → Bool
is_exclusive shared = false
is_exclusive exclusive = true

abbrev pub holds_exclusive : Text → Option LockState → Bool
holds_exclusive lock_id none = false
holds_exclusive lock_id (some state) = is_exclusive state.mode && Dict.has lock_id state.holders

-- `_require_write_lock`
unfoldable pub require_write_lock : Text → Text → ℕ → Exec ControlTree (Unit {0})
require_write_lock canonical lock_id now = do
  modify (cleanup_expired_locks canonical (some now))
  held ← gets (λ s. Dict.lookup canonical s.locks)
  lift (guard (holds_exclusive lock_id held) conflict)

-- `_cleanup_expired_writes`
unfoldable pub cleanup_expired_writes : Option ℕ → ControlTree → ControlTree
cleanup_expired_writes none s = s
cleanup_expired_writes (some now) s = record s {
  writes = Dict.keep_values (λ (r : WriteReservation). ltb now r.lease_expires_at) s.writes;
}

-- What the leader proposed for a slot: its index, the new block and its replicas.
pub record Proposal : Type 0 where
  pub index : ℕ
  pub block_id : Text
  pub addresses : List Text

abbrev pub zip_slots : List (ℕ × ℕ) → List Proposal → List WriteSlotRecord
zip_slots [] ps = []
zip_slots (x ∷ plan) [] = []
zip_slots ((index, new_size) ∷ plan) (p ∷ ps) =
    record {
      index = index;
      new_block_id = p.block_id;
      new_addresses = p.addresses;
      new_size = new_size;
    }
    ∷ zip_slots plan ps

-- A slot as the leader describes it to the client: with the block that it replaces, if any.
pub record DescribedSlot : Type 0 where
  pub index : ℕ
  pub old_block_id : Text
  pub old_size : ℕ
  pub old_addresses : List Text
  pub new_block_id : Text
  pub new_addresses : List Text
  pub new_size : ℕ

abbrev pub no_block : BlockRecord
no_block = record {
  block_id = [];
  datanode_addresses = [];
  checksum = [];
  size_bytes = 0;
  confirmed = false;
}

abbrev pub block_or_none : Option BlockRecord → BlockRecord
block_or_none none = no_block
block_or_none (some b) = b

abbrev pub describe : List BlockRecord → WriteSlotRecord → DescribedSlot
describe blocks slot =
    let old = block_or_none (get_elem? blocks slot.index) in
    record {
      index = slot.index;
      old_block_id = old.block_id;
      old_size = old.size_bytes;
      old_addresses = old.datanode_addresses;
      new_block_id = slot.new_block_id;
      new_addresses = slot.new_addresses;
      new_size = slot.new_size;
    }

unfoldable pub begin_write :
    Text
    → Text
    → Text
    → ℕ
    → ℤ
    → ℤ
    → List Proposal
    → ℕ
    → ℕ
    → ℕ
    → Option Caller
    → Exec ControlTree (Text × ℕ × ℕ × List DescribedSlot)
begin_write path write_id lock_id base_version offset size proposals now lease_s default caller = do
  canonical ← lift (canonical_path path)
  s ← gets (λ s. s)
  f ← lift (get_committed_file canonical s)
  lift (require (file f) caller write_bit)
  require_write_lock canonical lock_id now
  modify (cleanup_expired_writes (some now))
  writes ← gets (λ s. s.writes)
  lift (guard (not (Dict.has write_id writes)) conflict)
  lift (guard (eqb f.version base_version) conflict)
  let block_size = block_size_of f default
  plan ← lift (plan_write_slots (sizes_of f.blocks) block_size offset size)
  let planned = map (λ (x : ℕ × ℕ). x.0) plan
  lift (guard (planned == map (λ (p : Proposal). p.index) proposals) conflict)
  let slots = zip_slots plan proposals
  let reservation : WriteReservation = record {
    write_id = write_id;
    path = canonical;
    base_version = f.version;
    lock_id = lock_id;
    block_size = block_size;
    slots = slots;
    lease_expires_at = now + lease_s;
  }
  modify (λ s. record s { writes = Dict.insert write_id reservation s.writes })
  pure (write_id, f.version, block_size, map (describe f.blocks) slots)

-- What the client confirms of a slot: its index, block, checksum and size.
pub record ConfirmedSlot : Type 0 where
  pub index : ℕ
  pub block_id : Text
  pub checksum : Text
  pub size : ℕ

-- The reservation of a path, if it is not another path's.
abbrev pub reserved_for : Text → Option WriteReservation → Option WriteReservation
reserved_for canonical none = none
reserved_for canonical (some r) = if r.path == canonical then some r else none

-- The confirmed blocks are those of the slots, in order and of the planned sizes.
unfoldable pub confirms : List WriteSlotRecord → List ConfirmedSlot → Bool
confirms [] [] = true
confirms [] (c ∷ cs) = false
confirms (s ∷ ss) [] = false
confirms (s ∷ ss) (c ∷ cs) =
    eqb s.index c.index && s.new_block_id == c.block_id && eqb s.new_size c.size && confirms ss cs

abbrev pub confirmed_block : WriteSlotRecord → ConfirmedSlot → BlockRecord
confirmed_block slot c = record {
  block_id = slot.new_block_id;
  datanode_addresses = slot.new_addresses;
  checksum = c.checksum;
  size_bytes = c.size;
  confirmed = true;
}

-- The loop over the slots: the blocks after it, and the blocks that it replaced.
unfoldable pub publish :
    List WriteSlotRecord
    → List ConfirmedSlot
    → List BlockRecord
    → List BlockRecord × List BlockRecord
publish [] cs blocks = (blocks, [])
publish (s ∷ ss) [] blocks = (blocks, [])
publish (s ∷ ss) (c ∷ cs) blocks = elim (get_elem? blocks s.index) [
  | some old ↦
      let (after, replaced) = publish ss cs (set blocks s.index (confirmed_block s c)) in
      (after, old ∷ replaced)
  | none ↦ publish ss cs (blocks ++ confirmed_block s c ∷ [])
]

unfoldable pub commit_write :
    Text
    → Text
    → Text
    → ℕ
    → List ConfirmedSlot
    → ℕ
    → Option Caller
    → Exec ControlTree (ℕ × List BlockRecord)
commit_write path write_id lock_id base_version confirmed now caller = do
  canonical ← lift (canonical_path path)
  s ← gets (λ s. s)
  f ← lift (get_committed_file canonical s)
  lift (require (file f) caller write_bit)
  modify (cleanup_expired_writes (some now))
  found ← gets (λ s. Dict.lookup write_id s.writes)
  reservation ← lift (or_error (reserved_for canonical found) conflict)
  lift (guard (reservation.lock_id == lock_id) conflict)
  require_write_lock canonical lock_id now
  lift (
      guard (eqb base_version reservation.base_version && eqb f.version reservation.base_version)
        conflict)
  lift (guard (confirms reservation.slots confirmed) conflict)
  names ← lift (path_parts canonical)
  let (blocks, replaced) = publish reservation.slots confirmed f.blocks
  let written = record f {
    blocks = blocks;
    version = f.version + 1;
    block_size = reservation.block_size;
  }
  modify (set_file names written)
  modify (λ s. record s { writes = Dict.erase write_id s.writes })
  pure (f.version + 1, replaced)

abbrev pub reserved_block : WriteSlotRecord → BlockRecord
reserved_block slot = record {
  block_id = slot.new_block_id;
  datanode_addresses = slot.new_addresses;
  checksum = [];
  size_bytes = slot.new_size;
  confirmed = false;
}

unfoldable pub abort_reservation :
    Text → Text → Option WriteReservation → Exec ControlTree (List BlockRecord)
abort_reservation write_id lock_id none = pure []
abort_reservation write_id lock_id (some r) = do
  lift (guard (r.lock_id == lock_id) conflict)
  modify (λ s. record s { writes = Dict.erase write_id s.writes })
  pure (map reserved_block r.slots)

unfoldable pub abort_write : Text → Text → Text → Option ℕ → Exec ControlTree (List BlockRecord)
abort_write path write_id lock_id now = do
  canonical ← lift (canonical_path path)
  modify (cleanup_expired_writes now)
  found ← gets (λ s. Dict.lookup write_id s.writes)
  abort_reservation write_id lock_id (reserved_for canonical found)
