-- ===== src/Tree/Dirs/Laws.antt =====
-- What `make_dir` and `remove_dir` change.
use proyecto1_sd.Base.{Error, List, Option, Option-cases, Result-cases, Text, [], arith, err}
use proyecto1_sd.Base.{if◌then◌else◌, inl, inr, list_eq, nat_eq, none, ok, refl, some, split_last}
use proyecto1_sd.Base.{split_last-append, true, ◌++◌, ◌==◌, ◌>>=◌, ◌∙◌, ◌∷◌, ◌≡◌}
use proyecto1_sd.Tree.Data.{Caller, ControlTree, Node, Ownership, dir, dir_mode, end, entry, file}
use proyecto1_sd.Tree.Data.{write_bit}
use proyecto1_sd.Tree.Dirs.{make_dir, remove_dir}
use proyecto1_sd.Tree.FilePath.{path_parts}
use proyecto1_sd.Tree.Nodes.{child_of, get_child, get_node, modify_node, own_of, walk_to_parent}
use proyecto1_sd.Tree.Nodes.{with_child, without_child}
use proyecto1_sd.Tree.Nodes.Update.{get_node_of_child, look_deleted, look_put}
use proyecto1_sd.Tree.Nodes.View.{dir_info, get_node-append, look}
use proyecto1_sd.Tree.Perms.{allows, new_ownership}

-- A `make_dir` that raises has changed nothing.
pub make_dir_error :
    (path : Text) (caller : Option Caller) (s : ControlTree) (e : Error)
    → (make_dir path caller s).0 ≡ err e
    → (make_dir path caller s).1 ≡ s
unfolding make_dir ◌>>=◌
make_dir_error path caller s e h = ground arith

-- What a successful `make_dir` has found, and what it returns.
record Made (path : Text) (caller : Option Caller) (s : ControlTree) : Type 0 where
  dirs : List Text
  name : Text
  parent : Node
  names : path_parts path ≡ ok (dirs ++ name ∷ [])
  walked : walk_to_parent dirs s.root ≡ ok parent
  allowed : allows (own_of parent) caller write_bit ≡ true
  free : child_of parent name ≡ none
  made : (make_dir path caller s).1 ≡ record s {
    root = modify_node dirs (with_child name (dir (new_ownership caller dir_mode) end)) s.root;
  }

make_dir_inv :
    (path : Text) (caller : Option Caller) (s : ControlTree)
    → (make_dir path caller s).0 ≡ ok tt
    → Made path caller s
unfolding make_dir ◌>>=◌
make_dir_inv path caller s h = elim (Result-cases (path_parts path)) [
  | inr (e, p) ↦ ground arith
  | inl (names, p) ↦ elim (Option-cases (split_last names)) [
    | inl l ↦ ground arith
    | inr ((dirs, name), l) ↦ elim (Result-cases (walk_to_parent dirs s.root)) [
      | inr (e, w) ↦ ground arith
      | inl (parent, w) ↦ record {
        dirs = dirs;
        name = name;
        parent = parent;
        names = ground (arith, split_last-append names l);
        walked = w;
        allowed = ground arith;
        free = ground arith;
        made = ground arith;
      }
    ]
  ]
]

-- A successful `make_dir` adds a directory of the caller where nothing was, and changes no other
-- path and no lock, reservation or user.
pub make_dir_lem :
    (path : Text) (caller : Option Caller) (s : ControlTree)
    → (make_dir path caller s).0 ≡ ok tt
    → (names : List Text) × (path_parts path ≡ ok names)
      × (look names s.root ≡ none)
      × ((q : List Text)
          → look q (make_dir path caller s).1.root ≡ (
              if q == names
              then some (dir_info (new_ownership caller dir_mode))
              else look q s.root))
      × ((make_dir path caller s).1 ≡ record s { root = (make_dir path caller s).1.root })
make_dir_lem path caller s h =
    let m = make_dir_inv path caller s h in
    let at_name = get_node_of_child m.dirs m.name s.root m.parent m.walked in
    (
      m.dirs ++ m.name ∷ [],
      m.names,
      rw (at_name, m.free),
      λ q. rw m.made (look_put m.dirs m.name s.root m.parent _ m.walked (rw m.free tt) refl q),
      rw m.made refl,
    )

-- What a successful `remove_dir` has found, and what it returns.
record Removed (path : Text) (caller : Option Caller) (s : ControlTree) : Type 0 where
  dirs : List Text
  name : Text
  parent : Node
  own : Ownership
  names : path_parts path ≡ ok (dirs ++ name ∷ [])
  walked : walk_to_parent dirs s.root ≡ ok parent
  allowed : allows (own_of parent) caller write_bit ≡ true
  found : child_of parent name ≡ some (dir own end)
  left :
      (remove_dir path caller s).1
      ≡ record s { root = modify_node dirs (without_child name) s.root }

remove_dir_inv :
    (path : Text) (caller : Option Caller) (s : ControlTree)
    → (remove_dir path caller s).0 ≡ ok tt
    → Removed path caller s
unfolding remove_dir ◌>>=◌
remove_dir_inv path caller s h = elim (Result-cases (path_parts path)) [
  | inr (e, p) ↦ ground arith
  | inl (names, p) ↦ elim (Option-cases (split_last names)) [
    | inl l ↦ ground arith
    | inr ((dirs, name), l) ↦ elim (Result-cases (walk_to_parent dirs s.root)) [
      | inr (e, w) ↦ ground arith
      | inl (parent, w) ↦ elim (Option-cases (child_of parent name)) [
        | inl c ↦ ground arith
        | inr (file f, c) ↦ ground arith
        | inr (dir o (entry k n es), c) ↦ ground arith
        | inr (dir o end, c) ↦ record {
          dirs = dirs;
          name = name;
          parent = parent;
          own = o;
          names = ground (arith, split_last-append names l);
          walked = w;
          allowed = ground arith;
          found = c;
          left = ground arith;
        }
      ]
    ]
  ]
]

-- A successful `remove_dir` removes a directory in which nothing was, and changes no other path.
pub remove_dir_lem :
    (path : Text) (caller : Option Caller) (s : ControlTree)
    → (remove_dir path caller s).0 ≡ ok tt
    → (names : List Text) × (own : Ownership) × (path_parts path ≡ ok names)
      × (look names s.root ≡ some (dir_info own))
      × ((x : Text) → look (names ++ x ∷ []) s.root ≡ none)
      × ((q : List Text)
          → look q (remove_dir path caller s).1.root ≡ (if q == names then none else look q s.root))
      × ((remove_dir path caller s).1 ≡ record s { root = (remove_dir path caller s).1.root })
remove_dir_lem path caller s h =
    let m = remove_dir_inv path caller s h in
    let at_name = get_node_of_child m.dirs m.name s.root m.parent m.walked in
    (
      m.dirs ++ m.name ∷ [],
      m.own,
      m.names,
      rw (at_name, m.found),
      λ x.
          rw (get_node-append (m.dirs ++ m.name ∷ []) (x ∷ []) s.root _ (at_name ∙ m.found))
            (unfold get_node get_child in refl),
      λ q. rw m.left (look_deleted m.dirs m.name s.root m.parent m.walked (rw m.found refl) q),
      rw m.left refl,
    )

-- A `remove_dir` that raises has changed nothing.
pub remove_dir_error :
    (path : Text) (caller : Option Caller) (s : ControlTree) (e : Error)
    → (remove_dir path caller s).0 ≡ err e
    → (remove_dir path caller s).1 ≡ s
unfolding remove_dir ◌>>=◌
remove_dir_error path caller s e h = ground arith
