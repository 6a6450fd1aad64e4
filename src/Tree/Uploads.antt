-- ===== src/Tree/Uploads.antt =====
-- dfsha/control_node/tree.py: uploads (`begin_upload`, `confirm_block`, `complete_upload`,
-- `abort_upload`, `pending_blocks`) and `_walk_to_parent` with `create`.
pub mod Leases
pub mod Laws
pub mod Atomic
pub mod Created
use proyecto1_sd.Base.{Bool, Exec, List, Option, Result, Text, [], access_denied, err, every, false}
use proyecto1_sd.Base.{gets, guard, if◌then◌else◌, invalid_path, leb, lift, list_eq, ltb, map}
use proyecto1_sd.Base.{modify, nat_eq, none, not_a_directory, ok, or_error, path_exists}
use proyecto1_sd.Base.{path_not_found, pure, some, split_last, suc, true, zero, ℕ, ◌&&◌, ◌+◌, ◌==◌}
use proyecto1_sd.Base.{◌>>=◌, ◌>>◌, ◌||◌, ◌∷◌}
use proyecto1_sd.Tree.Data.{BlockRecord, Caller, ControlTree, FileNode, Node, committed, dir}
use proyecto1_sd.Tree.Data.{dir_mode, end, file, file_mode, pending, write_bit}
use proyecto1_sd.Tree.FilePath.{path_parts}
use proyecto1_sd.Tree.Lookup.{get_pending_file}
use proyecto1_sd.Tree.Nodes.{child_of, get_child, modify_node, put_child, walk_to_parent}
use proyecto1_sd.Tree.Nodes.{with_child, without_child}
use proyecto1_sd.Tree.Perms.{allows, new_ownership, owner_or_admin}

-- `_walk_to_parent(parts, create=True)`: the directory that the walk ends in, or its error, and the
-- tree with the directories that it created.
unfoldable pub walk_create : Option Caller → Bool → List Text → Node → Result Node × Node
walk_create caller created ps (file f) = (err not_a_directory, file f)
walk_create caller true [] (dir o es) = (ok (dir o es), dir o es)
walk_create caller false [] (dir o es) =
    if allows o caller write_bit then (ok (dir o es), dir o es) else (err access_denied, dir o es)
walk_create caller created (p ∷ ps) (dir o es) =
    let fresh = dir (new_ownership caller dir_mode) end in
    let rest = walk_create caller true ps fresh in
    let made : Result Node × Node = (rest.0, dir o (put_child p rest.1 es)) in
    elim (get_child p es) [
      | none ↦ if created || allows o caller write_bit then made else (err access_denied, dir o es)
      | some (file f) ↦ (err not_a_directory, dir o es)
      | some (dir o' es') ↦
          let (r, c) = walk_create caller created ps (dir o' es') in (r, dir o (put_child p c es))
    ]

-- The walk as a step of a method: what it created stays, also when it raises.
unfoldable pub walk_or_create : List Text → Option Caller → Exec ControlTree Node
unfolding walk_create
walk_or_create dirs caller s =
    let (r, root) = walk_create caller false dirs s.root in (r, record s { root = root })

abbrev pub lease_expired : FileNode → Option ℕ → Bool
lease_expired f none = false
lease_expired f (some now) = ltb 0 f.lease_expires_at && leb f.lease_expires_at now

-- A name is free, or taken by an upload whose lease ran out: the blocks that are replaced.
abbrev pub stale_blocks : Option Node → Option ℕ → Result (List BlockRecord)
stale_blocks none now = ok []
stale_blocks (some (dir o es)) now = err path_exists
stale_blocks (some (file f)) now = elim f.state [
  | committed ↦ err path_exists
  | pending ↦ if lease_expired f now then ok f.blocks else err path_exists
]

abbrev pub new_block : Text × List Text → BlockRecord
new_block (block_id, addresses) = record {
  block_id = block_id;
  datanode_addresses = addresses;
  checksum = [];
  size_bytes = 0;
  confirmed = false;
}

-- `now + lease_s if now is not None and lease_s else 0.0`
abbrev pub lease_end : Option ℕ → Option ℕ → ℕ
lease_end none lease_s = 0
lease_end (some now) none = 0
lease_end (some now) (some zero) = 0
lease_end (some now) (some (suc l)) = now + suc l

abbrev pub number_or_zero : Option ℕ → ℕ
number_or_zero none = 0
number_or_zero (some n) = n

abbrev pub new_file :
    List (Text × List Text) → Option ℕ → Option ℕ → Option ℕ → Option Caller → FileNode
new_file placements now lease_s block_size caller = record {
  state = pending;
  blocks = map new_block placements;
  lease_expires_at = lease_end now lease_s;
  version = 0;
  block_size = number_or_zero block_size;
  own = new_ownership caller file_mode;
}

unfoldable pub begin_upload :
    Text
    → List (Text × List Text)
    → Option ℕ
    → Option ℕ
    → Option ℕ
    → Option Caller
    → Exec ControlTree (List (Text × List Text) × List BlockRecord)
begin_upload path placements now lease_s block_size caller = do
  names ← lift (path_parts path)
  (dirs, name) ← lift (or_error (split_last names) invalid_path)
  parent ← walk_or_create dirs caller
  stale ← lift (stale_blocks (child_of parent name) now)
  let new = file (new_file placements now lease_s block_size caller)
  modify (λ s. record s { root = modify_node dirs (with_child name new) s.root })
  pure (placements, stale)

-- The first block with the id is confirmed; no block has it otherwise.
unfoldable pub confirm_in : Text → Text → ℕ → List BlockRecord → Option (List BlockRecord)
confirm_in block_id checksum size [] = none
confirm_in block_id checksum size (b ∷ bs) =
    let rest = confirm_in block_id checksum size bs in
    if b.block_id == block_id
    then some (record b { checksum = checksum; size_bytes = size; confirmed = true } ∷ bs)
    else elim rest [ none ↦ none | some bs' ↦ some (b ∷ bs') ]

-- A confirmed block renews the lease of the upload.
abbrev pub renewed_lease : ℕ → Option ℕ → Option ℕ → ℕ
renewed_lease old (some now) (some (suc l)) = now + suc l
renewed_lease old now lease_s = old

-- A change to a file that was found at a path.
abbrev pub set_file : List Text → FileNode → ControlTree → ControlTree
set_file names f s = record s { root = modify_node names (λ _. file f) s.root }

unfoldable pub confirm_block :
    Text → Text → Text → ℕ → Option ℕ → Option ℕ → Option Caller → Exec ControlTree (Unit {0})
confirm_block path block_id checksum size_bytes now lease_s caller = do
  s ← gets (λ s. s)
  f ← lift (get_pending_file path s)
  lift (guard (owner_or_admin f.own caller) access_denied)
  blocks ← lift (or_error (confirm_in block_id checksum size_bytes f.blocks) path_not_found)
  names ← lift (path_parts path)
  let expires_at = renewed_lease f.lease_expires_at now lease_s
  modify (set_file names (record f { blocks = blocks; lease_expires_at = expires_at }))

unfoldable pub complete_upload : Text → Option Caller → Exec ControlTree (Unit {0})
complete_upload path caller = do
  s ← gets (λ s. s)
  f ← lift (get_pending_file path s)
  lift (guard (owner_or_admin f.own caller) access_denied)
  lift (guard (every (λ (b : BlockRecord). b.confirmed) f.blocks) invalid_path)
  names ← lift (path_parts path)
  modify (set_file names (record f { state = committed }))

abbrev pub pending_upload : Option Node → Result FileNode
pending_upload none = err path_not_found
pending_upload (some (dir o es)) = err path_not_found
pending_upload (some (file f)) = elim f.state [ pending ↦ ok f | committed ↦ err path_not_found ]

unfoldable pub abort_upload : Text → Option Caller → Exec ControlTree (Unit {0})
abort_upload path caller = do
  names ← lift (path_parts path)
  (dirs, name) ← lift (or_error (split_last names) invalid_path)
  root ← gets (λ s. s.root)
  parent ← lift (walk_to_parent dirs root)
  f ← lift (pending_upload (child_of parent name))
  lift (guard (owner_or_admin f.own caller) access_denied)
  modify (λ s. record s { root = modify_node dirs (without_child name) s.root })

-- The blocks of a pending upload, none if there is no such upload.
unfoldable pub pending_blocks : Text → ControlTree → List BlockRecord
pending_blocks path s = elim (get_pending_file path s) [
  | err e ↦ []
  | ok f ↦ map (λ (b : BlockRecord). record b { confirmed = false }) f.blocks
]
