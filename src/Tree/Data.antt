-- ===== src/Tree/Data.antt =====
-- dfsha/control_node/tree.py: the data types of the replicated metadata.
use proyecto1_sd.Base.{ℕ, Bool, List, [], Text, codes}
use proyecto1_sd.Base.Dict.{Dict}

-- `DEFAULT_OWNER`, and the default modes 0o755, 0o644 and 0o777.
abbrev pub default_owner : Text
default_owner = codes "admin"

abbrev pub dir_mode : ℕ
dir_mode = 0o755

abbrev pub file_mode : ℕ
file_mode = 0o644

abbrev pub root_mode : ℕ
root_mode = 0o777

-- `R` and `W`, the bits of a permission that a caller asks for.
abbrev pub read_bit : ℕ
read_bit = 4

abbrev pub write_bit : ℕ
write_bit = 2

-- `Caller`: (user, groups, is_admin), or nobody for an internal command.
pub record Caller : Type 0 where
  pub username : Text
  pub groups : List Text
  pub is_admin : Bool

pub record BlockRecord : Type 0 where
  pub block_id : Text
  pub datanode_addresses : List Text
  pub checksum : Text
  pub size_bytes : ℕ
  pub confirmed : Bool

-- "pending" or "committed"
pub data FileState : Type 0 where
  pending committed : FileState

-- The three fields that a file and a directory share.
pub record Ownership : Type 0 where
  pub owner : Text
  pub group : Text
  pub mode : ℕ

-- A lease of 0 never expires; a block size of 0 is a file from before block sizes were stored.
pub record FileNode : Type 0 where
  pub state : FileState
  pub blocks : List BlockRecord
  pub lease_expires_at : ℕ
  pub version : ℕ
  pub block_size : ℕ
  pub own : Ownership

pub record WriteSlotRecord : Type 0 where
  pub index : ℕ
  pub new_block_id : Text
  pub new_addresses : List Text
  pub new_size : ℕ

pub record WriteReservation : Type 0 where
  pub write_id : Text
  pub path : Text
  pub base_version : ℕ
  pub lock_id : Text
  pub block_size : ℕ
  pub slots : List WriteSlotRecord
  pub lease_expires_at : ℕ

-- "r" or "w"
pub data LockMode : Type 0 where
  shared exclusive : LockMode

pub record LockState : Type 0 where
  pub mode : LockMode
  pub holders : Dict Text (Text × ℕ)

pub record UserRecord : Type 0 where
  pub password_hash : List ℕ
  pub salt : List ℕ
  pub groups : List Text
  pub is_admin : Bool

-- A directory with its children in insertion order, or a file.
mutual
  pub data Node : Type 0 where
    dir : Ownership → Entries → Node
    file : FileNode → Node

  pub data Entries : Type 0 where
    end : Entries
    entry : Text → Node → Entries → Entries

pub record ControlTree : Type 0 where
  pub root : Node
  pub locks : Dict Text LockState
  pub writes : Dict Text WriteReservation
  pub users : Dict Text UserRecord

-- `ControlTree()`
abbrev pub new_tree : ControlTree
new_tree = record {
  root = dir (record { owner = default_owner; group = default_owner; mode = root_mode }) end;
  locks = [];
  writes = [];
  users = [];
}
