-- ===== src/Tree/Dirs.antt =====
-- dfsha/control_node/tree.py: `list_dir`, `make_dir`, `remove_dir`.
pub mod Laws
use proyecto1_sd.Base.Errors
use proyecto1_sd.Base.{Bool, Exec, List, Option, Result, Text, [], eqb, false, filter_map, gets}
use proyecto1_sd.Base.{guard, if◌then◌else◌, invalid_path, lift, list_eq, ltb, map, modify, nat_eq}
use proyecto1_sd.Base.{none, not, not_a_directory, not_empty, ok, or_error, path_exists}
use proyecto1_sd.Base.{path_not_found, some, split_last, sum, true, ℕ, ◌>>=◌, ◌>>◌, ◌∷◌}
use proyecto1_sd.Tree.Data.{BlockRecord, Caller, ControlTree, Entries, FileNode, FileState, Node}
use proyecto1_sd.Tree.Data.{Ownership, committed, dir, dir_mode, end, entry, file, pending}
use proyecto1_sd.Tree.Data.{read_bit, write_bit}
use proyecto1_sd.Tree.FilePath.{path_parts}
use proyecto1_sd.Tree.Nodes.{child_of, get_node, has_child, modify_node, no_children}
use proyecto1_sd.Tree.Nodes.{walk_to_parent, with_child, without_child}
use proyecto1_sd.Tree.Perms.{new_ownership, require}

-- `DirEntryData`
pub record DirEntryData : Type 0 where
  pub name : Text
  pub is_dir : Bool
  pub size_bytes : ℕ
  pub own : Ownership

-- The order of texts by code point.
abbrev pub text_lt : Text → Text → Bool
text_lt [] [] = false
text_lt [] (c ∷ s) = true
text_lt (b ∷ t) [] = false
text_lt (b ∷ t) (c ∷ s) = if eqb b c then text_lt t s else ltb b c

-- `sorted(children.items())`: the names of a directory differ, so that the nodes are never compared.
unfoldable pub insert_entry : Text → Node → List (Text × Node) → List (Text × Node)
insert_entry k n [] = (k, n) ∷ []
insert_entry k n ((j, m) ∷ l) =
    if text_lt j k then (j, m) ∷ insert_entry k n l else (k, n) ∷ (j, m) ∷ l

unfoldable pub sorted_entries : Entries → List (Text × Node)
unfolding insert_entry
sorted_entries end = []
sorted_entries (entry k n es) = insert_entry k n (sorted_entries es)

unfoldable pub file_size : FileNode → ℕ
file_size f = sum (map (λ (b : BlockRecord). b.size_bytes) f.blocks)

-- A directory is listed with no size, and an upload that is not committed is not listed.
abbrev pub listed_file : Text → FileNode → FileState → Option DirEntryData
listed_file name f pending = none
listed_file name f committed =
    some (record { name = name; is_dir = false; size_bytes = file_size f; own = f.own })

abbrev pub listed : Text × Node → Option DirEntryData
listed (name, dir o es) = some (record { name = name; is_dir = true; size_bytes = 0; own = o })
listed (name, file f) = listed_file name f f.state

-- The children of a directory.
abbrev pub as_dir : Node → Result Entries
as_dir (dir o es) = ok es
as_dir (file f) = Errors.err not_a_directory

unfoldable pub list_dir : Text → Option Caller → Exec ControlTree (List DirEntryData)
list_dir path caller = do
  names ← lift (path_parts path)
  root ← gets (λ s. s.root)
  node ← lift (or_error (get_node names root) path_not_found)
  es ← lift (as_dir node)
  lift (require node caller read_bit)
  lift (ok (filter_map listed (sorted_entries es)))

unfoldable pub make_dir : Text → Option Caller → Exec ControlTree (Unit {0})
make_dir path caller = do
  names ← lift (path_parts path)
  (dirs, name) ← lift (or_error (split_last names) path_exists)
  root ← gets (λ s. s.root)
  parent ← lift (walk_to_parent dirs root)
  lift (require parent caller write_bit)
  lift (guard (not (has_child parent name)) path_exists)
  let new = dir (new_ownership caller dir_mode) end
  modify (λ s. record s { root = modify_node dirs (with_child name new) s.root })

unfoldable pub remove_dir : Text → Option Caller → Exec ControlTree (Unit {0})
remove_dir path caller = do
  names ← lift (path_parts path)
  (dirs, name) ← lift (or_error (split_last names) invalid_path)
  root ← gets (λ s. s.root)
  parent ← lift (walk_to_parent dirs root)
  lift (require parent caller write_bit)
  node ← lift (or_error (child_of parent name) path_not_found)
  lift (as_dir node)
  lift (guard (no_children node) not_empty)
  modify (λ s. record s { root = modify_node dirs (without_child name) s.root })
