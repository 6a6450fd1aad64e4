-- ===== src/Tree/Lookup.antt =====
-- dfsha/control_node/tree.py: `_get_committed_file`, `_get_pending_file`, `_get_visible_node`.
use proyecto1_sd.Base.Errors.{◌>>=◌}
use proyecto1_sd.Base.{List, Option, Option-cases, Result, Result-cases, Text, arith, err, inl, inr}
use proyecto1_sd.Base.{list_eq, nat_eq, none, ok, path_not_found, some, ◌≡◌}
use proyecto1_sd.Tree.Data.{ControlTree, FileNode, FileState, Node, committed, dir, file, pending}
use proyecto1_sd.Tree.FilePath.{path_parts}
use proyecto1_sd.Tree.Nodes.{get_node}

-- A file in the given state, or no path at all.
abbrev pub file_in : FileState → Option Node → Result FileNode
file_in st none = err path_not_found
file_in st (some (dir o es)) = err path_not_found
file_in pending (some (file f)) = elim f.state [ pending ↦ ok f | committed ↦ err path_not_found ]
file_in committed (some (file f)) = elim f.state [ pending ↦ err path_not_found | committed ↦ ok f ]

unfoldable pub get_committed_file : Text → ControlTree → Result FileNode
get_committed_file path s = do names ← path_parts path; file_in committed (get_node names s.root)

unfoldable pub get_pending_file : Text → ControlTree → Result FileNode
get_pending_file path s = do names ← path_parts path; file_in pending (get_node names s.root)

-- A directory or a committed file.
abbrev pub visible : Option Node → Result Node
visible none = err path_not_found
visible (some (dir o es)) = ok (dir o es)
visible (some (file f)) = elim f.state [ pending ↦ err path_not_found | committed ↦ ok (file f) ]

unfoldable pub get_visible_node : Text → ControlTree → Result Node
get_visible_node path s = do names ← path_parts path; visible (get_node names s.root)

pub committed_file-found :
    (path : Text) (s : ControlTree) (f : FileNode)
    → get_committed_file path s ≡ ok f
    → (names : List Text) × (path_parts path ≡ ok names)
      × (get_node names s.root ≡ some (file f))
      × (f.state ≡ committed)
unfolding get_committed_file
committed_file-found path s f h = elim (Result-cases (path_parts path)) [
  | inr (e, p) ↦ ground arith
  | inl (names, p) ↦ elim (Option-cases (get_node names s.root)) [
    | inl n ↦ ground arith
    | inr (dir o es, n) ↦ ground arith
    | inr (file g, n) ↦ (names, p, ground arith, ground arith)
  ]
]
