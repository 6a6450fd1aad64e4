-- ===== src/Tree/Files.antt =====
-- dfsha/control_node/tree.py: `remove_file` and `list_blocks`.
pub mod Laws
use proyecto1_sd.Base.Dict
use proyecto1_sd.Base.{Bool, Exec, List, Option, Result, Text, conflict, err, false, gets, guard}
use proyecto1_sd.Base.{invalid_path, lift, list_eq, modify, nat_eq, not, not_a_file, ok, or_error}
use proyecto1_sd.Base.{path_not_found, pure, split_last, true, ℕ, ◌>>=◌, ◌>>◌}
use proyecto1_sd.Tree.Data.{BlockRecord, Caller, ControlTree, FileNode, Node, committed, dir, file}
use proyecto1_sd.Tree.Data.{pending, read_bit, write_bit}
use proyecto1_sd.Tree.FilePath.{path_of, path_parts}
use proyecto1_sd.Tree.Locks.{cleanup_expired_locks}
use proyecto1_sd.Tree.Lookup.{get_committed_file}
use proyecto1_sd.Tree.Nodes.{child_of, modify_node, walk_to_parent, without_child}
use proyecto1_sd.Tree.Perms.{require}

abbrev pub as_file : Node → Result FileNode
as_file (dir o es) = err not_a_file
as_file (file f) = ok f

abbrev pub is_committed : FileNode → Bool
is_committed f = elim f.state [ pending ↦ false | committed ↦ true ]

-- The blocks that the file had are returned, for the leader to delete.
unfoldable pub remove_file : Text → Option ℕ → Option Caller → Exec ControlTree (List BlockRecord)
remove_file path now caller = do
  names ← lift (path_parts path)
  let canonical = path_of names
  (dirs, name) ← lift (or_error (split_last names) invalid_path)
  root ← gets (λ s. s.root)
  parent ← lift (walk_to_parent dirs root)
  lift (require parent caller write_bit)
  node ← lift (or_error (child_of parent name) path_not_found)
  f ← lift (as_file node)
  lift (guard (is_committed f) path_not_found)
  modify (cleanup_expired_locks canonical now)
  locks ← gets (λ s. s.locks)
  lift (guard (not (Dict.has canonical locks)) conflict)
  modify (λ s. record s { root = modify_node dirs (without_child name) s.root })
  pure f.blocks

unfoldable pub list_blocks : Text → Option Caller → Exec ControlTree (List BlockRecord)
list_blocks path caller = do
  s ← gets (λ s. s)
  f ← lift (get_committed_file path s)
  lift (require (file f) caller read_bit)
  pure f.blocks
