-- ===== src/Tree/Uploads/Created.antt =====
-- What an accepted `begin_upload` adds to the tree.
use proyecto1_sd.Base.{Bool, Bool-cases, List, Option, Option-cases, Result, Result-cases, Text, []}
use proyecto1_sd.Base.{ap, arith, false, if◌then◌else◌, inl, inr, list_eq, nat_eq, none, ok, refl}
use proyecto1_sd.Base.{some, split_last, split_last-append, subst, sym, true, ℕ, ◌&&◌, ◌++◌, ◌<◌}
use proyecto1_sd.Base.{◌==◌, ◌>>=◌, ◌||◌, ◌∙◌, ◌∷◌, ◌≡◌, ◌≤◌}
use proyecto1_sd.Tree.Data.{BlockRecord, Caller, ControlTree, Entries, FileNode, Node, Ownership}
use proyecto1_sd.Tree.Data.{dir, dir_mode, end, file, pending, write_bit}
use proyecto1_sd.Tree.FilePath.{path_parts}
use proyecto1_sd.Tree.Nodes.{child_of, get_child, get_node, modify_node, put_child, walk_to_parent}
use proyecto1_sd.Tree.Nodes.{with_child}
use proyecto1_sd.Tree.Nodes.Update.{get_node_of_child, look_put}
use proyecto1_sd.Tree.Nodes.View.{Info, IsChildless, dir_info, file_info, get_child-put_child}
use proyecto1_sd.Tree.Nodes.View.{info_of, look}
use proyecto1_sd.Tree.Perms.{allows, new_ownership}
use proyecto1_sd.Tree.Uploads.{begin_upload, new_file, stale_blocks, walk_create, walk_or_create}
use proyecto1_sd.Tree.Uploads.Leases.{IsNewFile, new_file-IsNewFile}

abbrev pub is_prefix : List Text → List Text → Bool
is_prefix [] ps = true
is_prefix (b ∷ q) [] = false
is_prefix (b ∷ q) (p ∷ ps) = b == p && is_prefix q ps

-- A directory where nothing was, on the way to the new file.
abbrev pub fill : Bool → Option Caller → Option Info → Option Info
fill false caller shown = shown
fill true caller none = some (dir_info (new_ownership caller dir_mode))
fill true caller (some i) = some i

look-put_child :
    (b p : Text) (q : List Text) (o : Ownership) (c : Node) (es : Entries)
    → look (b ∷ q) (dir o (put_child p c es))
      ≡ (if b == p then look q c else look (b ∷ q) (dir o es))
unfolding get_node
look-put_child b p q o c es = ground (arith, get_child-put_child b p c es)

look_free :
    (b p : Text) (q : List Text) (o : Ownership) (es : Entries)
    → get_child p es ≡ none
    → b ≡ p
    → look (b ∷ q) (dir o es) ≡ none
unfolding get_node
look_free b p q o es free e = ground arith

look_found :
    (b p : Text) (q : List Text) (o : Ownership) (es : Entries) (c : Node)
    → get_child p es ≡ some c
    → b ≡ p
    → look (b ∷ q) (dir o es) ≡ look q c
unfolding get_node
look_found b p q o es c there e = ground arith

module _ (caller : Option Caller) where
  -- Where the walk creates directories, the way shows directories of the caller, and nothing else.
  look_fresh :
      (q : List Text) (way : Bool) (shown : Option Info)
      → shown ≡ fill way caller (look q (dir (new_ownership caller dir_mode) end))
      → (q ≡ [] → way ≡ true)
      → shown ≡ fill way caller none
  unfolding get_node get_child
  look_fresh [] way shown h w = ground (arith, w refl)
  look_fresh (b ∷ q) way shown h w = h

  prefix_nil : (q ps : List Text) → q ≡ [] → is_prefix q ps ≡ true
  prefix_nil q ps e = rw e

  -- An accepted walk has filled the way to the directory that it ends in.
  walk_create-look :
      (created : Bool) (ps q : List Text) (n parent : Node)
      → (walk_create caller created ps n).0 ≡ ok parent
      → look q (walk_create caller created ps n).1 ≡ fill (is_prefix q ps) caller (look q n)
  unfolding walk_create
  walk_create-look created [] q (file f) parent h = absurd (ground arith)
  walk_create-look true [] [] (dir o es) parent h = unfold get_node in refl
  walk_create-look true [] (b ∷ q) (dir o es) parent h = refl
  walk_create-look false [] [] (dir o es) parent h = unfold get_node in ground arith
  walk_create-look false [] (b ∷ q) (dir o es) parent h = ground arith
  walk_create-look created (p ∷ ps) q (file f) parent h = absurd (ground arith)
  walk_create-look created (p ∷ ps) [] (dir o es) parent h = unfold get_node in ground arith
  walk_create-look created (p ∷ ps) (b ∷ q) (dir o es) parent h =
      elim (Option-cases (get_child p es)) [
        | inl free ↦
            let fresh = dir (new_ownership caller dir_mode) end in
            let rest = walk_create caller true ps fresh in
            ground (
              arith,
              look-put_child b p q o rest.1 es,
              look_fresh q (is_prefix q ps) (look q rest.1)
                  (walk_create-look true ps q fresh parent (ground arith)) (prefix_nil q ps),
              look_free b p q o es free,
            )
        | inr (file f, there) ↦ ground arith
        | inr (dir o' es', there) ↦
            let rest = walk_create caller created ps (dir o' es') in
            ground (
              arith,
              look-put_child b p q o rest.1 es,
              walk_create-look created ps q (dir o' es') parent (ground arith),
              look_found b p q o es (dir o' es') there,
            )
      ]

  -- A walk from a directory leaves a directory.
  walk_create-dir :
      (created : Bool) (ps : List Text) (o : Ownership) (es : Entries)
      → (es' : Entries) × ((walk_create caller created ps (dir o es)).1 ≡ dir o es')
  unfolding walk_create
  walk_create-dir true [] o es = (es, refl)
  walk_create-dir false [] o es = (es, ground arith)
  walk_create-dir created (p ∷ ps) o es = elim (Option-cases (get_child p es)) [
    | inl free ↦ elim (Bool-cases (created || allows o caller write_bit)) [
      | inl may ↦
          let fresh = dir (new_ownership caller dir_mode) end in
          (put_child p (walk_create caller true ps fresh).1 es, ground arith)
      | inr may_not ↦ (es, ground arith)
    ]
    | inr (file f, there) ↦ (es, ground arith)
    | inr (dir o' es', there) ↦
        (put_child p (walk_create caller created ps (dir o' es')).1 es, ground arith)
  ]

  -- The walk without `create` finds the same directory in the tree that the walk left.
  walk_create-walk :
      (created : Bool) (ps : List Text) (n parent : Node)
      → (walk_create caller created ps n).0 ≡ ok parent
      → walk_to_parent ps (walk_create caller created ps n).1 ≡ ok parent
  unfolding walk_create walk_to_parent
  walk_create-walk created [] (file f) parent h = absurd (ground arith)
  walk_create-walk true [] (dir o es) parent h = h
  walk_create-walk false [] (dir o es) parent h = ground arith
  walk_create-walk created (p ∷ ps) (file f) parent h = absurd (ground arith)
  walk_create-walk created (p ∷ ps) (dir o es) parent h = elim (Option-cases (get_child p es)) [
    | inl free ↦
        let fresh = dir (new_ownership caller dir_mode) end in
        let rest = walk_create caller true ps fresh in
        ground (
          arith,
          get_child-put_child p p rest.1 es,
          walk_create-walk true ps fresh parent (ground arith),
          walk_create-dir true ps (new_ownership caller dir_mode) end,
        )
    | inr (file f, there) ↦ ground arith
    | inr (dir o' es', there) ↦
        let rest = walk_create caller created ps (dir o' es') in
        ground (
          arith,
          get_child-put_child p p rest.1 es,
          walk_create-walk created ps (dir o' es') parent (ground arith),
          walk_create-dir created ps o' es',
        )
  ]

-- What a name shows that an upload may take: nothing, or an upload whose lease ran out, of which
-- the blocks are returned.
pub data Takes (now : Option ℕ) (shown : Option Info) (stale : List BlockRecord) : Type 0 where
  free : shown ≡ none → stale ≡ [] → Takes now shown stale
  expired :
      (f : FileNode) (t : ℕ)
      → shown ≡ some (file_info f)
      → f.state ≡ pending
      → now ≡ some t
      → 0 < f.lease_expires_at
      → f.lease_expires_at ≤ t
      → stale ≡ f.blocks
      → Takes now shown stale

usurps :
    (now : Option ℕ) (child : Option Node) (stale : List BlockRecord)
    → stale_blocks child now ≡ ok stale
    → Takes now (info_of child) stale × IsChildless child
usurps now none stale h = (free refl (ground arith), tt)
usurps now (some (dir o es)) stale h = absurd (ground arith)
usurps none (some (file f)) stale h = absurd (ground arith)
usurps (some t) (some (file f)) stale h =
    (expired f t refl (ground arith) refl (ground arith) (ground arith) (ground arith), refl)

is_prefix_longer : (dirs : List Text) (name : Text) → is_prefix (dirs ++ name ∷ []) dirs ≡ false
is_prefix_longer [] name = refl
is_prefix_longer (d ∷ dirs) name = ground (arith, is_prefix_longer dirs name)

module _ (path : Text) (placements : List (Text × List Text)) (now lease_s block_size : Option ℕ)
    (caller : Option Caller) (s : ControlTree) where
  abbrev begun : Result (List (Text × List Text) × List BlockRecord) × ControlTree
  begun = begin_upload path placements now lease_s block_size caller s

  record Begun (reply : List (Text × List Text)) (stale : List BlockRecord) : Type 0 where
    dirs : List Text
    name : Text
    parent : Node
    names : path_parts path ≡ ok (dirs ++ name ∷ [])
    walked : (walk_create caller false dirs s.root).0 ≡ ok parent
    taken : stale_blocks (child_of parent name) now ≡ ok stale
    placed_all : reply ≡ placements
    left : begun.1 ≡ record s {
      root =
          modify_node dirs
            (with_child name (file (new_file placements now lease_s block_size caller)))
            (walk_create caller false dirs s.root).1;
    }

  begin_upload_inv :
      (reply : List (Text × List Text)) (stale : List BlockRecord)
      → begun.0 ≡ ok (reply, stale)
      → Begun reply stale
  unfolding begin_upload walk_or_create ◌>>=◌
  begin_upload_inv reply stale h = elim (Result-cases (path_parts path)) [
    | inr (e, p) ↦ absurd (ground arith)
    | inl (names, p) ↦ elim (Option-cases (split_last names)) [
      | inl l ↦ absurd (ground arith)
      | inr ((dirs, name), l) ↦ elim (Result-cases (walk_create caller false dirs s.root).0) [
        | inr (e, w) ↦ absurd (ground arith)
        | inl (parent, w) ↦ record {
          dirs = dirs;
          name = name;
          parent = parent;
          names = ground (arith, split_last-append names l);
          walked = w;
          taken = ground arith;
          placed_all = ground arith;
          left = ground arith;
        }
      ]
    ]
  ]

  -- An accepted `begin_upload` returns the placements that it was given. It puts a pending file of the
  -- caller's, with these blocks, none of them confirmed, and with a lease that ends after the given time
  -- from now if there is one, at its path, where nothing was or a pending upload whose lease ran out; the
  -- blocks of that one are returned. Directories of the caller fill the way where nothing was, and no
  -- other path changes, nor does any lock, reservation or user.
  pub begin_upload_lem :
      (reply : List (Text × List Text)) (stale : List BlockRecord)
      → begun.0 ≡ ok (reply, stale)
      → (dirs : List Text) × (name : Text) × (f : FileNode) × (path_parts path
          ≡ ok (dirs ++ name ∷ []))
        × (reply ≡ placements)
        × IsNewFile placements now lease_s block_size caller f
        × Takes now (look (dirs ++ name ∷ []) s.root) stale
        × ((q : List Text)
            → look q begun.1.root ≡ (
                if q == dirs ++ name ∷ []
                then some (file_info f)
                else fill (is_prefix q dirs) caller (look q s.root)))
        × (begun.1 ≡ record s { root = begun.1.root })
  begin_upload_lem reply stale h =
      let m = begin_upload_inv reply stale h in
      let (takes, childless) = usurps now (child_of m.parent m.name) stale m.taken in
      let root' = (walk_create caller false m.dirs s.root).1 in
      let walked = walk_create-walk caller false m.dirs s.root m.parent m.walked in
      let filled =
        λ (q : List Text). walk_create-look caller false m.dirs q s.root m.parent m.walked in
      (
        m.dirs,
        m.name,
        new_file placements now lease_s block_size caller,
        m.names,
        m.placed_all,
        new_file-IsNewFile placements now lease_s block_size caller,
        subst (λ i. Takes now i stale)
            (ap info_of (sym (get_node_of_child m.dirs m.name root' m.parent walked))
              ∙ filled (m.dirs ++ m.name ∷ [])
              ∙ rw is_prefix_longer refl)
            takes,
        λ q.
            rw m.left (
              look_put m.dirs m.name root' m.parent _ walked childless refl q ∙ rw (filled q) refl),
        rw m.left refl,
      )
