-- ===== src/Tree/Blocks/Laws.antt =====
-- No block that a file or a live reservation names is missing from `referenced_blocks`.
use proyecto1_sd.Base.Dict
use proyecto1_sd.Base.{Bool, List, Option-cases, Text, [], arith, contains, contains-append, false}
use proyecto1_sd.Base.{inl, inr, list_eq, ltb, nat_eq, some, true, ℕ, ◌&&◌, ◌++◌, ◌==◌, ◌||◌, ◌∙◌}
use proyecto1_sd.Base.{◌∷◌, ◌≡◌}
use proyecto1_sd.Tree.Blocks.{Refs, add_all, add_blocks, add_ref, add_slots, add_writes}
use proyecto1_sd.Tree.Blocks.{referenced_blocks, refs_of, visit, visit_entries}
use proyecto1_sd.Tree.Data.{BlockRecord, ControlTree, Entries, FileNode, Node, WriteReservation}
use proyecto1_sd.Tree.Data.{WriteSlotRecord, dir, end, entry, file}
use proyecto1_sd.Tree.Nodes.{get_child, get_node}

-- The address is among those that the references give the block.
abbrev pub refers : Text → Text → Refs → Bool
refers block_id address refs = contains (refs_of block_id refs) address

contains-add_all :
    (ys : List Text) (xs : List Text) (a : Text)
    → contains (add_all xs ys) a ≡ (contains xs a || contains ys a)
contains-add_all [] xs a = ground arith
contains-add_all (y ∷ ys) xs a = ground (
  arith,
  contains-add_all ys xs a,
  contains-add_all ys (xs ++ y ∷ []) a,
  contains-append xs (y ∷ []) a,
)

refers-add_ref :
    (i a b : Text) (addresses : List Text) (refs : Refs)
    → refers i a (add_ref b addresses refs) ≡ (refers i a refs || (i == b && contains addresses a))
unfolding add_ref
refers-add_ref i a b addresses refs = ground (
  arith,
  Dict.lookup-insert i b (add_all (refs_of b refs) addresses) refs,
  contains-add_all addresses (refs_of b refs) a,
)

module _ (i a : Text) where
  -- A list of blocks puts the block `i` at the address `a`.
  abbrev pub named_in : List BlockRecord → Bool
  named_in [] = false
  named_in (b ∷ bs) = (i == b.block_id && contains b.datanode_addresses a) || named_in bs

  abbrev pub reserved_in : List WriteSlotRecord → Bool
  reserved_in [] = false
  reserved_in (s ∷ ss) = (i == s.new_block_id && contains s.new_addresses a) || reserved_in ss

  refers-add_blocks :
      (bs : List BlockRecord) (refs : Refs)
      → refers i a (add_blocks bs refs) ≡ (refers i a refs || named_in bs)
  unfolding add_blocks
  refers-add_blocks [] refs = ground arith
  refers-add_blocks (b ∷ bs) refs = ground (
    arith,
    refers-add_blocks bs (add_ref b.block_id b.datanode_addresses refs),
    refers-add_ref i a b.block_id b.datanode_addresses refs,
  )

  refers-add_slots :
      (ss : List WriteSlotRecord) (refs : Refs)
      → refers i a (add_slots ss refs) ≡ (refers i a refs || reserved_in ss)
  unfolding add_slots
  refers-add_slots [] refs = ground arith
  refers-add_slots (s ∷ ss) refs = ground (
    arith,
    refers-add_slots ss (add_ref s.new_block_id s.new_addresses refs),
    refers-add_ref i a s.new_block_id s.new_addresses refs,
  )

  mutual
    named_below : Node → Bool
    named_below (dir o es) = named_entries es
    named_below (file f) = named_in f.blocks

    named_entries : Entries → Bool
    named_entries end = false
    named_entries (entry name n es) = named_below n || named_entries es

  mutual
    unfolding visit visit_entries named_below named_entries

    refers-visit :
        (n : Node) (refs : Refs) → refers i a (visit n refs) ≡ (refers i a refs || named_below n)
    refers-visit (dir o es) refs = refers-visit_entries es refs
    refers-visit (file f) refs = refers-add_blocks f.blocks refs

    refers-visit_entries :
        (es : Entries) (refs : Refs)
        → refers i a (visit_entries es refs) ≡ (refers i a refs || named_entries es)
    refers-visit_entries end refs = ground arith
    refers-visit_entries (entry name n es) refs =
        ground (arith, refers-visit_entries es (visit n refs), refers-visit n refs)

  named_child :
      (name : Text) (es : Entries) (c : Node)
      → get_child name es ≡ some c
      → named_below c ≡ true
      → named_entries es ≡ true
  unfolding get_child named_entries
  named_child name end c h t = absurd (ground arith)
  named_child name (entry k n es) c h t = ground (arith, named_child name es c)

  named_at :
      (q : List Text) (n : Node) (f : FileNode)
      → get_node q n ≡ some (file f)
      → named_in f.blocks ≡ true
      → named_below n ≡ true
  unfolding get_node named_below
  named_at [] n f h t = ground arith
  named_at (p ∷ q) (file g) f h t = absurd (ground arith)
  named_at (p ∷ q) (dir o es) f h t = elim (Option-cases (get_child p es)) [
    | inl e ↦ absurd (ground arith)
    | inr (c, e) ↦ named_child p es c e (named_at q c f (ground arith) t)
  ]

  refers-add_writes_old :
      (now : ℕ) (ws : List (Text × WriteReservation)) (refs : Refs)
      → refers i a refs ≡ true
      → refers i a (add_writes now ws refs) ≡ true
  unfolding add_writes
  refers-add_writes_old now [] refs h = h
  refers-add_writes_old now (w ∷ ws) refs h = ground (
    arith,
    refers-add_slots w.1.slots refs,
    refers-add_writes_old now ws refs h,
    refers-add_writes_old now ws (add_slots w.1.slots refs),
  )

  refers-add_writes :
      (now : ℕ) (ws : Dict.Dict Text WriteReservation) (refs : Refs) (w : Text)
      (r : WriteReservation)
      → Dict.lookup w ws ≡ some r
      → ltb now r.lease_expires_at ≡ true
      → reserved_in r.slots ≡ true
      → refers i a (add_writes now ws refs) ≡ true
  unfolding add_writes Dict.lookup
  refers-add_writes now [] refs w r h live t = absurd (ground arith)
  refers-add_writes now (x ∷ ws) refs w r h live t = ground (
    arith,
    refers-add_slots x.1.slots refs,
    refers-add_writes_old now ws (add_slots x.1.slots refs),
    refers-add_writes now ws refs w r,
    refers-add_writes now ws (add_slots x.1.slots refs) w r,
  )

  -- Every replica of every block of a file, committed or pending, is among the references.
  pub referenced_blocks_files :
      (now : ℕ) (s : ControlTree) (q : List Text) (f : FileNode)
      → get_node q s.root ≡ some (file f)
      → named_in f.blocks ≡ true
      → refers i a (referenced_blocks now s) ≡ true
  unfolding referenced_blocks
  referenced_blocks_files now s q f h t =
      refers-add_writes_old now s.writes _
        (refers-visit s.root [] ∙ rw (named_at q s.root f h t) (ground arith))

  -- Every replica of every new block of a write reservation whose lease runs on is among the
  -- references.
  pub referenced_blocks_writes :
      (now : ℕ) (s : ControlTree) (w : Text) (r : WriteReservation)
      → Dict.lookup w s.writes ≡ some r
      → ltb now r.lease_expires_at ≡ true
      → reserved_in r.slots ≡ true
      → refers i a (referenced_blocks now s) ≡ true
  unfolding referenced_blocks
  referenced_blocks_writes now s w r h live t = refers-add_writes now s.writes _ w r h live t
