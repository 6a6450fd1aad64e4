-- ===== src/Tree/Nodes/View.antt =====
-- What a path shows: nothing, a directory with its ownership, or a file. The view forgets the
-- order of children; each operation on the tree changes it at its own paths only.
use proyecto1_sd.Base.{List, Option, Option-cases, Text, [], arith, if◌then◌else◌, inl, inr}
use proyecto1_sd.Base.{list_eq, nat_eq, none, ok, refl, some, true, ◌++◌, ◌==◌, ◌∷◌, ◌≡◌}
use proyecto1_sd.Tree.Data.{Entries, FileNode, Node, Ownership, dir, end, entry, file}
use proyecto1_sd.Tree.Nodes.{child_of, del_child, get_child, get_node, modify_node, no_children}
use proyecto1_sd.Tree.Nodes.{put_child, walk_to_parent, with_child, without_child}

pub data Info : Type 0 where
  dir_info : Ownership → Info
  file_info : FileNode → Info

abbrev pub info_of : Option Node → Option Info
info_of none = none
info_of (some (dir o es)) = some (dir_info o)
info_of (some (file f)) = some (file_info f)

-- What stands at a path below a node.
abbrev pub look : List Text → Node → Option Info
look path n = info_of (get_node path n)

pub get_child-put_child :
    (j k : Text) (n : Node) (es : Entries)
    → get_child j (put_child k n es) ≡ (if j == k then some n else get_child j es)
unfolding get_child put_child
get_child-put_child j k n end = refl
get_child-put_child j k n (entry i m es) = ground (arith, get_child-put_child j k n es)

pub get_child-del_child :
    (j k : Text) (es : Entries)
    → get_child j (del_child k es) ≡ (if j == k then none else get_child j es)
unfolding get_child del_child
get_child-del_child j k end = ground arith
get_child-del_child j k (entry i m es) = ground (arith, get_child-del_child j k es)

module _ (t : List Text) (v : Option Info) (f : Node → Node) where
  -- A change that shows `v` at the relative path `t` and nothing else new, made at `p`, shows
  -- `v` at `p ++ t` and nothing else new.
  pub look-modify_node :
      (p : List Text) (root c : Node)
      → get_node p root ≡ some c
      → ((r : List Text) → look r (f c) ≡ (if r == t then v else look r c))
      → (q : List Text) → look q (modify_node p f root) ≡ (if q == p ++ t then v else look q root)
  unfolding get_node modify_node
  look-modify_node [] root c at_p same q = ground (arith, same q)
  look-modify_node (a ∷ p) (file g) c at_p same q = ground arith
  look-modify_node (a ∷ p) (dir o es) c at_p same [] = ground arith
  look-modify_node (a ∷ p) (dir o es) c at_p same (b ∷ q) = elim (Option-cases (get_child a es)) [
    | inl e ↦ ground arith
    | inr (m, e) ↦ ground (
      arith,
      get_child-put_child b a (modify_node p f m) es,
      look-modify_node p m c (ground arith) same q,
    )
  ]

-- No node, or one without children.
abbrev pub IsChildless : Option Node → Type 0
IsChildless none = Unit
IsChildless (some n) = no_children n ≡ true

module _ (name : Text) (o : Ownership) (es : Entries) where
  -- Below a name that is free, or whose node has no children, nothing shows.
  look_below : (x : Text) (r : List Text) (n : Node) → no_children n ≡ true → look (x ∷ r) n ≡ none
  unfolding get_node get_child
  look_below x r (dir o' end) h = refl
  look_below x r (dir o' (entry k m rest)) h = cc
  look_below x r (file f) h = refl

  look_below_child :
      (x : Text) (r : List Text) (m : Option Node)
      → get_child name es ≡ m
      → IsChildless m
      → look (name ∷ x ∷ r) (dir o es) ≡ none
  unfolding get_node
  look_below_child x r none e h = ground arith
  look_below_child x r (some n) e h = ground (arith, look_below x r n h)

  pub look-with_child :
      (new : Node) (m : Option Node)
      → get_child name es ≡ m
      → IsChildless m
      → no_children new ≡ true
      → (r : List Text)
      → look r (with_child name new (dir o es))
        ≡ (if r == name ∷ [] then info_of (some new) else look r (dir o es))
  unfolding get_node
  look-with_child new m e h leaf [] = ground arith
  look-with_child new m e h leaf (x ∷ []) = ground (arith, get_child-put_child x name new es)
  look-with_child new m e h leaf (x ∷ y ∷ r) = ground (
    arith,
    get_child-put_child x name new es,
    look_below_child y r m e h,
    look_below y r new leaf,
  )

  pub look-without_child :
      (m : Option Node)
      → get_child name es ≡ m
      → IsChildless m
      → (r : List Text)
      → look r (without_child name (dir o es))
        ≡ (if r == name ∷ [] then none else look r (dir o es))
  unfolding get_node
  look-without_child m e h [] = ground arith
  look-without_child m e h (x ∷ []) = ground (arith, get_child-del_child x name es)
  look-without_child m e h (x ∷ y ∷ r) =
      ground (arith, get_child-del_child x name es, look_below_child y r m e h)

pub get_node_of_walk :
    (ps : List Text) (root d : Node)
    → walk_to_parent ps root ≡ ok d
    → (get_node ps root ≡ some d) × (o : Ownership) × (es : Entries) × (d ≡ dir o es)
unfolding walk_to_parent get_node
get_node_of_walk [] (dir o es) d h = (ground arith, o, es, ground arith)
get_node_of_walk [] (file f) d h = cc
get_node_of_walk (p ∷ ps) (file f) d h = cc
get_node_of_walk (p ∷ ps) (dir o es) d h = elim (Option-cases (get_child p es)) [
  | inl e ↦ ground arith
  | inr (file f, e) ↦ ground arith
  | inr (dir o' es', e) ↦
      let (at_p, o'', es'', e') = get_node_of_walk ps (dir o' es') d (ground arith) in
      (ground arith, o'', es'', e')
]

pub get_node-append :
    (p q : List Text) (root c : Node)
    → get_node p root ≡ some c
    → get_node (p ++ q) root ≡ get_node q c
unfolding get_node
get_node-append [] q root c h = ground arith
get_node-append (a ∷ p) q root c h = elim (Option-cases (child_of root a)) [
  | inl e ↦ ground arith
  | inr (m, e) ↦ ground (arith, get_node-append p q m c (ground arith))
]
