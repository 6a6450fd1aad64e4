-- ===== src/Tree/Nodes/Update.antt =====
-- How each change of the tree shows at every path.
use mathlib.Core.List.{append-nil}
use proyecto1_sd.Base.{List, Option-cases, Text, [], arith, if◌then◌else◌, inl, inr, list_eq}
use proyecto1_sd.Base.{nat_eq, none, ok, refl, some, subst, true, ◌++◌, ◌==◌, ◌∙◌, ◌∷◌, ◌≡◌}
use proyecto1_sd.Tree.Data.{FileNode, Node, Ownership, dir, file}
use proyecto1_sd.Tree.Nodes.{child_of, get_child, get_node, modify_node, no_children}
use proyecto1_sd.Tree.Nodes.{walk_to_parent, with_child, with_own, without_child}
use proyecto1_sd.Tree.Nodes.View.{IsChildless, file_info, get_node_of_walk, info_of, look}
use proyecto1_sd.Tree.Nodes.View.{look-modify_node, look-with_child, look-without_child}

-- A path to a child of the directory that a walk ends in.
pub get_node_of_child :
    (dirs : List Text) (name : Text) (root parent : Node)
    → walk_to_parent dirs root ≡ ok parent
    → get_node (dirs ++ name ∷ []) root ≡ child_of parent name
unfolding walk_to_parent get_node
get_node_of_child [] name (dir o es) parent h = ground arith
get_node_of_child [] name (file f) parent h = cc
get_node_of_child (p ∷ ps) name (file f) parent h = cc
get_node_of_child (p ∷ ps) name (dir o es) parent h = elim (Option-cases (get_child p es)) [
  | inl e ↦ ground arith
  | inr (file f, e) ↦ ground arith
  | inr (dir o' es', e) ↦
      ground (arith, get_node_of_child ps name (dir o' es') parent (ground arith))
]

module _ (dirs : List Text) (name : Text) (root parent : Node) where
  -- A node without children put where none, or one without children, was.
  pub look_put :
      (new : Node)
      → walk_to_parent dirs root ≡ ok parent
      → IsChildless (child_of parent name)
      → no_children new ≡ true
      → (q : List Text)
      → look q (modify_node dirs (with_child name new) root)
        ≡ (if q == dirs ++ name ∷ [] then info_of (some new) else look q root)
  look_put new walked free leaf =
      let (at_dirs, o, es, e) = get_node_of_walk dirs root parent walked in
      look-modify_node (name ∷ []) (info_of (some new)) (with_child name new) dirs root (dir o es)
        (rw (← e) at_dirs)
        (look-with_child name o es new (get_child name es) refl
          (subst (λ p. IsChildless (child_of p name)) e free) leaf)

  -- A node without children deleted.
  pub look_deleted :
      walk_to_parent dirs root ≡ ok parent
      → IsChildless (child_of parent name)
      → (q : List Text)
      → look q (modify_node dirs (without_child name) root)
        ≡ (if q == dirs ++ name ∷ [] then none else look q root)
  look_deleted walked free =
      let (at_dirs, o, es, e) = get_node_of_walk dirs root parent walked in
      look-modify_node (name ∷ []) none (without_child name) dirs root (dir o es) (rw (← e) at_dirs)
        (look-without_child name o es (get_child name es) refl
          (subst (λ p. IsChildless (child_of p name)) e free))

-- A node replaced by one with the same view of its children.
pub look_changed :
    (p : List Text) (c d : Node) (h : Node → Node) (root : Node)
    → get_node p root ≡ some c
    → h c ≡ d
    → ((x : Text) (r : List Text) → look (x ∷ r) d ≡ look (x ∷ r) c)
    → (q : List Text)
    → look q (modify_node p h root) ≡ (if q == p then info_of (some d) else look q root)
look_changed p c d h root at_p e same q =
    look-modify_node [] (info_of (some d)) h p root c at_p (λ r. rw e (at_most_here r)) q
    ∙ rw append-nil
  where
    at_most_here : (r : List Text) → look r d ≡ (if r == [] then info_of (some d) else look r c)
    at_most_here [] = unfold get_node in ground arith
    at_most_here (x ∷ r) = ground (arith, same x r)

-- A file replaced by a file.
pub look_file :
    (p : List Text) (f g : FileNode) (h : Node → Node) (root : Node)
    → get_node p root ≡ some (file f)
    → h (file f) ≡ file g
    → (q : List Text)
    → look q (modify_node p h root) ≡ (if q == p then some (file_info g) else look q root)
unfolding get_node
look_file p f g h root at_p e = look_changed p (file f) (file g) h root at_p e (λ x r. refl)

-- A node with another ownership.
pub look_owned :
    (p : List Text) (c : Node) (own : Ownership) (root : Node)
    → get_node p root ≡ some c
    → (q : List Text)
    → look q (modify_node p (with_own own) root)
      ≡ (if q == p then info_of (some (with_own own c)) else look q root)
unfolding get_node
look_owned p (dir o es) own root at_p =
    look_changed p (dir o es) (dir own es) (with_own own) root at_p refl (λ x r. refl)
look_owned p (file f) own root at_p =
    look_changed p (file f) (file (record f { own = own })) (with_own own) root at_p refl
      (λ x r. refl)
