-- ===== src/Tree/Files/Laws.antt =====
-- What `remove_file` and `list_blocks` return and change.
use proyecto1_sd.Base.Dict
use proyecto1_sd.Base.{List, Option, Option-cases, Result-cases, Text, [], ap, arith, if◌then◌else◌}
use proyecto1_sd.Base.{inl, inr, list_eq, nat_eq, none, ok, refl, some, split_last}
use proyecto1_sd.Base.{split_last-append, sym, true, ℕ, ◌++◌, ◌==◌, ◌>>=◌, ◌∙◌, ◌∷◌, ◌≡◌}
use proyecto1_sd.Tree.Data.{BlockRecord, Caller, ControlTree, FileNode, Node, committed, dir, file}
use proyecto1_sd.Tree.Data.{read_bit, write_bit}
use proyecto1_sd.Tree.FilePath.{path_of, path_parts}
use proyecto1_sd.Tree.Files.{list_blocks, remove_file}
use proyecto1_sd.Tree.Locks.{cleanup_expired_locks}
use proyecto1_sd.Tree.Locks.Laws.{holders-cleanup, holders_of, live_holders}
use proyecto1_sd.Tree.Lookup.{get_committed_file}
use proyecto1_sd.Tree.Nodes.{child_of, modify_node, own_of, walk_to_parent, without_child}
use proyecto1_sd.Tree.Nodes.Update.{get_node_of_child, look_deleted}
use proyecto1_sd.Tree.Nodes.View.{file_info, look}
use proyecto1_sd.Tree.Perms.{allows}

-- What a successful `remove_file` has found, and what it returns.
record Deleted (path : Text) (now : Option ℕ) (caller : Option Caller) (s : ControlTree)
    (blocks : List BlockRecord) : Type 0 where
  dirs : List Text
  name : Text
  parent : Node
  f : FileNode
  names : path_parts path ≡ ok (dirs ++ name ∷ [])
  walked : walk_to_parent dirs s.root ≡ ok parent
  allowed : allows (own_of parent) caller write_bit ≡ true
  found : child_of parent name ≡ some (file f)
  published : f.state ≡ committed
  returned : f.blocks ≡ blocks
  free :
      Dict.lookup
        (path_of (dirs ++ name ∷ []))
        (cleanup_expired_locks (path_of (dirs ++ name ∷ [])) now s).locks
      ≡ none
  left :
      (remove_file path now caller s).1
      ≡ record (cleanup_expired_locks (path_of (dirs ++ name ∷ [])) now s) {
        root =
            modify_node dirs
              (without_child name)
              (cleanup_expired_locks (path_of (dirs ++ name ∷ [])) now s).root;
      }

remove_file_inv :
    (path : Text) (now : Option ℕ) (caller : Option Caller) (s : ControlTree)
    → (blocks : List BlockRecord) → (remove_file path now caller s).0 ≡ ok blocks
    → Deleted path now caller s blocks
unfolding remove_file ◌>>=◌
remove_file_inv path now caller s blocks h = elim (Result-cases (path_parts path)) [
  | inr (e, p) ↦ ground arith
  | inl (names, p) ↦ elim (Option-cases (split_last names)) [
    | inl l ↦ ground arith
    | inr ((dirs, name), l) ↦ elim (Result-cases (walk_to_parent dirs s.root)) [
      | inr (e, w) ↦ ground arith
      | inl (parent, w) ↦ elim (Option-cases (child_of parent name)) [
        | inl c ↦ ground arith
        | inr (dir o es, c) ↦ ground arith
        | inr (file f, c) ↦
            let e : names ≡ dirs ++ name ∷ [] = ground (arith, split_last-append names l) in
            record {
              dirs = dirs;
              name = name;
              parent = parent;
              f = f;
              names = p ∙ ap ok e;
              walked = w;
              allowed = ground arith;
              found = c;
              published = ground arith;
              returned = ground arith;
              free = rw (← e) (ground arith);
              left = rw (← e) (ground arith);
            }
      ]
    ]
  ]
]

cleanup_locks_only :
    (path : Text) (now : Option ℕ) (s : ControlTree)
    → cleanup_expired_locks path now s
      ≡ record s { locks = (cleanup_expired_locks path now s).locks }
unfolding cleanup_expired_locks
cleanup_locks_only path none s = refl
cleanup_locks_only path (some now) s = ground arith

-- A successful `remove_file` by the leader's clock removes a committed file on which no lease runs,
-- returns its blocks, and changes no other path, no reservation and no user.
pub remove_file_lem :
    (path : Text) (now : ℕ) (caller : Option Caller) (s : ControlTree) (blocks : List BlockRecord)
    → (remove_file path (some now) caller s).0 ≡ ok blocks
    → (names : List Text) × (f : FileNode) × (path_parts path ≡ ok names)
      × (look names s.root ≡ some (file_info f))
      × (f.state ≡ committed)
      × (f.blocks ≡ blocks)
      × (live_holders (path_of names) now s ≡ [])
      × ((q : List Text)
          → look q (remove_file path (some now) caller s).1.root
            ≡ (if q == names then none else look q s.root))
      × ((remove_file path (some now) caller s).1.writes ≡ s.writes)
      × ((remove_file path (some now) caller s).1.users ≡ s.users)
remove_file_lem path now caller s blocks h =
    let m = remove_file_inv path (some now) caller s blocks h in
    let names = m.dirs ++ m.name ∷ [] in
    let cleaned = cleanup_locks_only (path_of names) (some now) s in
    (
      names,
      m.f,
      m.names,
      rw (get_node_of_child m.dirs m.name s.root m.parent m.walked, m.found),
      m.published,
      m.returned,
      sym (holders-cleanup (path_of names) now s) ∙ ap holders_of m.free,
      λ q.
          rw (m.left, cleaned)
            (look_deleted m.dirs m.name s.root m.parent m.walked (rw m.found refl) q),
      rw (m.left, cleaned) refl,
      rw (m.left, cleaned) refl,
    )

-- The blocks of a file are those that a caller who may read it finds by `list_blocks`; the call
-- changes nothing.
pub list_blocks_lem :
    (path : Text) (caller : Option Caller) (s : ControlTree) (blocks : List BlockRecord)
    → (list_blocks path caller s).0 ≡ ok blocks
    → ((list_blocks path caller s).1 ≡ s)
      × (f : FileNode) × (get_committed_file path s ≡ ok f)
      × (allows f.own caller read_bit ≡ true)
      × (f.blocks ≡ blocks)
unfolding list_blocks ◌>>=◌
list_blocks_lem path caller s blocks h = elim (Result-cases (get_committed_file path s)) [
  | inr (e, g) ↦ ground arith
  | inl (f, g) ↦ (ground arith, f, g, ground arith, ground arith)
]
