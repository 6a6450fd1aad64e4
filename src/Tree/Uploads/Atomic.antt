-- ===== src/Tree/Uploads/Atomic.antt =====
-- A refused `begin_upload` leaves no directory behind.
use proyecto1_sd.Base.{Bool, Error, List, Option, Option-cases, Result, Result-cases, Text, []}
use proyecto1_sd.Base.{arith, err, false, inl, inr, list_eq, nat_eq, none, ok, refl, some}
use proyecto1_sd.Base.{split_last, true, ℕ, ◌>>=◌, ◌∷◌, ◌≡◌}
use proyecto1_sd.Tree.Data.{Caller, ControlTree, Entries, Node, Ownership, dir, dir_mode, end}
use proyecto1_sd.Tree.Data.{entry, file}
use proyecto1_sd.Tree.FilePath.{path_parts}
use proyecto1_sd.Tree.Nodes.{child_of, get_child, put_child}
use proyecto1_sd.Tree.Perms.{new_ownership}
use proyecto1_sd.Tree.Uploads.{begin_upload, walk_create, walk_or_create}

put_child_same :
    (name : Text) (n : Node) (es : Entries) → get_child name es ≡ some n → put_child name n es ≡ es
unfolding get_child put_child
put_child_same name n end h = cc
put_child_same name n (entry k m es) h = ground (arith, put_child_same name n es)

-- A walk from a directory that the walk itself created meets nothing and is not refused.
pub walk_fresh :
    (caller : Option Caller) (own : Ownership) (ps : List Text)
    → (parent : Node) × ((walk_create caller true ps (dir own end)).0 ≡ ok parent)
      × ((name : Text) → child_of parent name ≡ none)
unfolding walk_create get_child
walk_fresh caller own [] = (dir own end, refl, λ name. refl)
walk_fresh caller own (p ∷ ps) = walk_fresh caller (new_ownership caller dir_mode) ps

-- A walk that created something ends in a directory without children; one that is refused has
-- created nothing.
pub record Walked (n : Node) (r : Result Node) (n' : Node) : Type 0 where
  pub refused : (e : Error) → r ≡ err e → n' ≡ n
  pub occupied :
      (parent c : Node) (name : Text) → r ≡ ok parent → child_of parent name ≡ some c → n' ≡ n

pub walk_create-Walked :
    (caller : Option Caller) (created : Bool) (ps : List Text) (n : Node)
    → Walked n (walk_create caller created ps n).0 (walk_create caller created ps n).1
unfolding walk_create
walk_create-Walked caller created [] (file f) = record {
  refused = λ e h. refl;
  occupied = λ parent c name h k. refl;
}
walk_create-Walked caller true [] (dir o es) = record {
  refused = λ e h. refl;
  occupied = λ parent c name h k. refl;
}
walk_create-Walked caller false [] (dir o es) = record {
  refused = λ e h. ground arith;
  occupied = λ parent c name h k. ground arith;
}
walk_create-Walked caller created (p ∷ ps) (file f) = record {
  refused = λ e h. refl;
  occupied = λ parent c name h k. refl;
}
walk_create-Walked caller created (p ∷ ps) (dir o es) = elim (Option-cases (get_child p es)) [
  | inl free ↦
      let (parent, made, empty) = walk_fresh caller (new_ownership caller dir_mode) ps in
      record {
        refused = λ e h. ground arith;
        occupied = λ parent' c name h k. ground (arith, empty name);
      }
  | inr (file f, found) ↦ record {
    refused = λ e h. ground arith;
    occupied = λ parent c name h k. ground arith;
  }
  | inr (dir o' es', found) ↦
      let w = walk_create-Walked caller created ps (dir o' es') in
      record {
        refused = λ e h. ground (arith, w.refused e, put_child_same p (dir o' es') es);
        occupied = λ parent c name h k.
            ground (arith, w.occupied parent c name, put_child_same p (dir o' es') es);
      }
]

-- A `begin_upload` that raises has changed nothing: the directories on the way are created only
-- if the upload is accepted.
pub begin_upload_error :
    (path : Text) (placements : List (Text × List Text)) (now lease_s block_size : Option ℕ)
    (caller : Option Caller) (s : ControlTree) (e : Error)
    → (begin_upload path placements now lease_s block_size caller s).0 ≡ err e
    → (begin_upload path placements now lease_s block_size caller s).1 ≡ s
unfolding begin_upload walk_or_create ◌>>=◌
begin_upload_error path placements now lease_s block_size caller s e h =
    elim (Result-cases (path_parts path)) [
      | inr (e', p) ↦ ground arith
      | inl (names, p) ↦ elim (Option-cases (split_last names)) [
        | inl l ↦ ground arith
        | inr ((dirs, name), l) ↦
            let w = walk_create-Walked caller false dirs s.root in
            elim (Result-cases (walk_create caller false dirs s.root).0) [
              | inr (e', r) ↦ ground (arith, w.refused e' r)
              | inl (parent, r) ↦ elim (Option-cases (child_of parent name)) [
                | inl free ↦ ground arith
                | inr (c, found) ↦ ground (arith, w.occupied parent c name r found)
              ]
            ]
      ]
    ]
