-- ===== src/Tree/Nodes.antt =====
-- dfsha/control_node/tree.py: the children of a directory, `_get_node` and `_walk_to_parent`
-- without `create`. An object of the tree is reached by one path only, so that a change to it is
-- a change at its path.
pub mod View
pub mod Update
use proyecto1_sd.Base.{Bool, List, Option, Result, Text, [], err, false, if◌then◌else◌, list_eq}
use proyecto1_sd.Base.{nat_eq, none, not_a_directory, ok, path_not_found, some, true, ◌==◌, ◌∷◌}
use proyecto1_sd.Tree.Data.{Entries, Node, Ownership, dir, end, entry, file}

-- `children.get(name)`
unfoldable pub get_child : Text → Entries → Option Node
get_child name end = none
get_child name (entry k n es) = if name == k then some n else get_child name es

-- `children[name] = node`
unfoldable pub put_child : Text → Node → Entries → Entries
put_child name node end = entry name node end
put_child name node (entry k n es) =
    if name == k then entry name node es else entry k n (put_child name node es)

-- `del children[name]`
unfoldable pub del_child : Text → Entries → Entries
del_child name end = end
del_child name (entry k n es) =
    let rest = del_child name es in if name == k then rest else entry k n rest

-- The child of a node; a file has none.
abbrev pub child_of : Node → Text → Option Node
child_of (dir o es) name = get_child name es
child_of (file f) name = none

abbrev pub has_child : Node → Text → Bool
has_child n name = elim (child_of n name) [ none ↦ false | some _ ↦ true ]

abbrev pub own_of : Node → Ownership
own_of (dir o es) = o
own_of (file f) = f.own

-- The node with its three fields of ownership set.
abbrev pub with_own : Ownership → Node → Node
with_own own (dir o es) = dir own es
with_own own (file f) = file (record f { own = own })

-- `not node.children`, of a directory
abbrev pub no_children : Node → Bool
no_children (dir o end) = true
no_children (dir o (entry k n es)) = false
no_children (file f) = true

abbrev pub with_child : Text → Node → Node → Node
with_child name new (dir o es) = dir o (put_child name new es)
with_child name new (file f) = file f

abbrev pub without_child : Text → Node → Node
without_child name (dir o es) = dir o (del_child name es)
without_child name (file f) = file f

-- `_get_node`
unfoldable pub get_node : List Text → Node → Option Node
get_node [] n = some n
get_node (p ∷ ps) n = elim (child_of n p) [ none ↦ none | some c ↦ get_node ps c ]

-- `_walk_to_parent(parts)`. The root is a directory, so the second clause is for no tree of the
-- program.
unfoldable pub walk_to_parent : List Text → Node → Result Node
walk_to_parent [] (dir o es) = ok (dir o es)
walk_to_parent [] (file f) = err not_a_directory
walk_to_parent (p ∷ ps) n = elim (child_of n p) [
  | none ↦ err path_not_found
  | some (file f) ↦ err not_a_directory
  | some (dir o es) ↦ walk_to_parent ps (dir o es)
]

-- The tree after a change to the object at a path.
unfoldable pub modify_node : List Text → (Node → Node) → Node → Node
modify_node [] f n = f n
modify_node (p ∷ ps) f n = elim (child_of n p) [
  | none ↦ n
  | some c ↦ with_child p (modify_node ps f c) n
]
