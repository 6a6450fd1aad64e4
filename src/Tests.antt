-- ===== src/Tests.antt =====
-- A small file system for the tests: alice's directory with a file of 6 bytes in two blocks of at
-- most 4, a directory that is empty, and an upload that waits for its only block.
mod Namespace
mod Uploads
mod Writes
mod Log
mod Upkeep
mod Service
mod Blocks
mod Client
use proyecto1_sd.Base.{Text, [], codes, false, true, ℕ, ◌∷◌}
use proyecto1_sd.Tree.Data.{BlockRecord, Caller, ControlTree, FileNode, LockState, Ownership}
use proyecto1_sd.Tree.Data.{WriteReservation, committed, default_owner, dir, dir_mode, end, entry}
use proyecto1_sd.Tree.Data.{exclusive, file, file_mode, pending, root_mode}

abbrev pub alice : Caller
alice = record { username = codes "alice"; groups = codes "staff" ∷ []; is_admin = false }

abbrev pub of_alice : ℕ → Ownership
of_alice mode = record { owner = codes "alice"; group = codes "staff"; mode = mode }

abbrev pub block : Text → ℕ → BlockRecord
block id size = record {
  block_id = id;
  datanode_addresses = codes "d1" ∷ codes "d2" ∷ [];
  checksum = codes "c";
  size_bytes = size;
  confirmed = true;
}

abbrev pub notes : FileNode
notes = record {
  state = committed;
  blocks = block (codes "b1") 4 ∷ block (codes "b2") 2 ∷ [];
  lease_expires_at = 0;
  version = 3;
  block_size = 4;
  own = of_alice file_mode;
}

-- The upload that waits: begun at 10, with a lease until 40.
abbrev pub draft : FileNode
draft = record {
  state = pending;
  blocks = block (codes "b3") 5 ∷ [];
  lease_expires_at = 40;
  version = 0;
  block_size = 4;
  own = of_alice file_mode;
}

abbrev pub notes_path : Text
notes_path = codes "/home/notes"

abbrev pub draft_path : Text
draft_path = codes "/home/draft"

-- The exclusive lock that alice holds on her file until 100.
abbrev pub write_lock : LockState
write_lock = record { mode = exclusive; holders = (codes "L", (codes "alice", 100)) ∷ [] }

-- A reservation to write 3 bytes at offset 5 of the file: the second block is replaced.
abbrev pub reservation : WriteReservation
reservation = record {
  write_id = codes "w";
  path = notes_path;
  base_version = 3;
  lock_id = codes "L";
  block_size = 4;
  slots =
      record { index = 1; new_block_id = codes "b9"; new_addresses = codes "d1" ∷ []; new_size = 4 }
      ∷ [];
  lease_expires_at = 100;
}

abbrev pub home : ControlTree
home = record {
  root =
      dir (record { owner = default_owner; group = default_owner; mode = root_mode })
        (entry (codes "home")
          (dir (of_alice dir_mode) (
            entry (codes "notes") (file notes) (
              entry (codes "empty") (dir (of_alice dir_mode) end)
                (entry (codes "draft") (file draft) end))))
          end);
  locks = (notes_path, write_lock) ∷ [];
  writes = (codes "w", reservation) ∷ [];
  users = [];
}
