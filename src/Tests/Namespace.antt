-- ===== src/Tests/Namespace.antt =====
-- The operations on the namespace at concrete trees, and their theorems there.
use proyecto1_sd.Base.Dict
use proyecto1_sd.Base.{List, Text, [], arith, codes, if◌then◌else◌, join, leb, list_eq, nat_eq}
use proyecto1_sd.Base.{none, ok, refl, some, split, strip, true, ◌%◌, ◌==◌, ◌>>=◌, ◌∷◌, ◌≡◌}
use proyecto1_sd.Tests.{alice, home, notes, notes_path, of_alice, reservation}
use proyecto1_sd.Tree.Blocks.{referenced_blocks}
use proyecto1_sd.Tree.Blocks.Laws.{referenced_blocks_files, referenced_blocks_writes, refers}
use proyecto1_sd.Tree.Data.{ControlTree, FileNode, UserRecord, committed, dir_mode, read_bit}
use proyecto1_sd.Tree.Data.{write_bit}
use proyecto1_sd.Tree.Dirs.{make_dir}
use proyecto1_sd.Tree.Dirs.Laws.{make_dir_lem}
use proyecto1_sd.Tree.FilePath.{path_of, path_parts}
use proyecto1_sd.Tree.Files.{remove_file}
use proyecto1_sd.Tree.Files.Laws.{remove_file_lem}
use proyecto1_sd.Tree.Locks.{cleanup_expired_locks}
use proyecto1_sd.Tree.Locks.Laws.{live_holders}
use proyecto1_sd.Tree.Nodes.{get_child, get_node, walk_to_parent}
use proyecto1_sd.Tree.Nodes.View.{dir_info, file_info, look}
use proyecto1_sd.Tree.Perms.{allows, new_ownership}
use proyecto1_sd.Tree.Perms.Laws.{allows-class_digit, class_digit}

make_dir_example :
    (names : List Text) × (path_parts (codes "/home/new/") ≡ ok names)
    × (look names home.root ≡ none)
    × ((q : List Text)
        → look q (make_dir (codes "/home/new/") (some alice) home).1.root ≡ (
            if q == names
            then some (dir_info (new_ownership (some alice) dir_mode))
            else look q home.root))
    × ((make_dir (codes "/home/new/") (some alice) home).1
        ≡ record home { root = (make_dir (codes "/home/new/") (some alice) home).1.root })
unfolding make_dir ◌>>=◌ path_parts split strip join list_eq nat_eq walk_to_parent get_child allows
make_dir_example = make_dir_lem (codes "/home/new/") (some alice) home refl

-- The lock on the file has run out at 200.
remove_file_example :
    (names : List Text) × (f : FileNode) × (path_parts notes_path ≡ ok names)
    × (look names home.root ≡ some (file_info f))
    × (f.state ≡ committed)
    × (f.blocks ≡ notes.blocks)
    × (live_holders (path_of names) 200 home ≡ [])
    × ((q : List Text)
        → look q (remove_file notes_path (some 200) (some alice) home).1.root
          ≡ (if q == names then none else look q home.root))
    × ((remove_file notes_path (some 200) (some alice) home).1.writes ≡ home.writes)
    × ((remove_file notes_path (some 200) (some alice) home).1.users ≡ home.users)
unfolding remove_file path_of cleanup_expired_locks Dict.lookup Dict.keep_values Dict.erase ◌>>=◌
    path_parts split strip join list_eq nat_eq walk_to_parent get_child allows
remove_file_example = remove_file_lem notes_path 200 (some alice) home notes.blocks refl

abbrev bob : UserRecord
bob = record { password_hash = 1 ∷ []; salt = 2 ∷ []; groups = []; is_admin = true }

abbrev with_bob : ControlTree
with_bob = record home { users = (codes "bob", bob) ∷ [] }

allows_example :
    (allows (of_alice 0o640) (some alice) read_bit ≡ leb 4 (class_digit (of_alice 0o640) alice))
    × (allows (of_alice 0o640) (some alice) write_bit
        ≡ leb 2 (class_digit (of_alice 0o640) alice % 4))
allows_example = allows-class_digit (of_alice 0o640) alice (omega arith) refl

referenced_blocks_files_example :
    refers (codes "b2") (codes "d2") (referenced_blocks 200 home) ≡ true
unfolding get_node get_child list_eq nat_eq
referenced_blocks_files_example =
    referenced_blocks_files (codes "b2") (codes "d2") 200 home (codes "home" ∷ codes "notes" ∷ [])
      notes refl refl

referenced_blocks_writes_example :
    refers (codes "b9") (codes "d1") (referenced_blocks 50 home) ≡ true
unfolding Dict.lookup list_eq nat_eq
referenced_blocks_writes_example =
    referenced_blocks_writes (codes "b9") (codes "d1") 50 home (codes "w") reservation refl refl
      refl
