-- ===== src/Upkeep/Collector.antt =====
-- dfsha/control_node/garbage_collector.py: `GarbageCollector.run_cycle`, which deletes from the data
-- nodes the blocks that the metadata does not place there.
use proyecto1_sd.Base.Dict
use proyecto1_sd.Base.{Bool, Bool-cases, List, Option, Text, [], arith, contains, false, get_elem?}
use proyecto1_sd.Base.{if◌then◌else◌, inl, inr, keep, leb, list_eq, map, nat_eq, none, not, some}
use proyecto1_sd.Base.{suc, true, zero, ℕ, ◌&&◌, ◌++◌, ◌+◌, ◌==◌, ◌||◌, ◌∷◌, ◌≡◌, ◌≤◌}
use proyecto1_sd.Base.Dict.{Dict}
use proyecto1_sd.Tree.Blocks.{Refs, referenced_blocks, refs_of}
use proyecto1_sd.Tree.Blocks.Laws.{named_in, referenced_blocks_files, refers}
use proyecto1_sd.Tree.Data.{ControlTree, FileNode, file}
use proyecto1_sd.Tree.Nodes.{get_node}

-- A block on a data node, with its age in ticks.
pub record Stored : Type 0 where
  pub address : Text
  pub block_id : Text
  pub age : ℕ

-- What a cycle learns from outside, in the order in which it asks: whether this node leads, what
-- each data node that is alive lists (nothing if the call failed), whether the read barrier passed,
-- the copies that are under way, and, before the n-th deletion, whether this node still leads and
-- whether the data node deletes the block.
pub record Answers : Type 0 where
  pub leads_first : Bool
  pub alive : List Text
  pub lists : Text → Option (List (Text × ℕ))
  pub barrier : Bool
  pub in_flight : List (Text × Text)
  pub clock : ℕ
  pub leads : ℕ → Bool
  pub deletes : ℕ → Bool

-- `stored[address] = [...]`, for each address that answers.
unfoldable pub inventory :
    (Text → Option (List (Text × ℕ)))
    → List Text
    → Dict Text (List (Text × ℕ))
    → Dict Text (List (Text × ℕ))
inventory lists [] stored = stored
inventory lists (a ∷ rest) stored = elim (lists a) [
  | none ↦ inventory lists rest stored
  | some blocks ↦ inventory lists rest (Dict.insert a blocks stored)
]

unfoldable pub stored_blocks : Dict Text (List (Text × ℕ)) → List Stored
stored_blocks [] = []
stored_blocks ((a, blocks) ∷ rest) =
    map (λ (x : Text × ℕ). record { address = a; block_id = x.0; age = x.1 }) blocks
    ++ stored_blocks rest

-- (block_id, address) in in_flight
abbrev pub under_way : Text → Text → List (Text × Text) → Bool
under_way block_id address [] = false
under_way block_id address ((b, a) ∷ l) =
    (block_id == b && address == a) || under_way block_id address l

-- The blocks that the loop does not pass over.
unfoldable pub is_garbage : ℕ → List (Text × Text) → Refs → Stored → Bool
is_garbage grace in_flight refs x =
    not (contains (refs_of x.block_id refs) x.address)
    && not (under_way x.block_id x.address in_flight)
    && leb grace x.age

-- The calls of DeleteBlock, each with its outcome. The loop ends when the node no longer leads.
unfoldable pub delete_all : (ℕ → Bool) → (ℕ → Bool) → ℕ → List Stored → List (Stored × Bool)
delete_all leads deletes n [] = []
delete_all leads deletes n (x ∷ xs) =
    let rest = delete_all leads deletes (n + 1) xs in if leads n then (x, deletes n) ∷ rest else []

-- `run_cycle`: the calls of DeleteBlock that it makes.
unfoldable pub run_cycle : ℕ → Answers → ControlTree → List (Stored × Bool)
unfolding is_garbage delete_all stored_blocks inventory
run_cycle grace a tree =
    if a.leads_first && a.barrier
    then delete_all a.leads a.deletes 0 (
        keep (is_garbage grace a.in_flight (referenced_blocks a.clock tree))
          (stored_blocks (inventory a.lists a.alive [])))
    else []

-- `self.deleted`
unfoldable pub deleted : List (Stored × Bool) → List (Text × Text)
deleted [] = []
deleted ((x, true) ∷ rest) = (x.address, x.block_id) ∷ deleted rest
deleted ((x, false) ∷ rest) = deleted rest

every_kept :
    (p : Stored → Bool) (xs : List Stored) (i : ℕ) (x : Stored)
    → get_elem? (keep p xs) i ≡ some x
    → p x ≡ true
every_kept p [] i x h = absurd (ground arith)
every_kept p (y ∷ ys) zero x h = ground (arith, every_kept p ys zero x)
every_kept p (y ∷ ys) (suc i) x h = ground (arith, every_kept p ys i x, every_kept p ys (suc i) x)

delete_all-subset :
    (leads deletes : ℕ → Bool) (n : ℕ) (xs : List Stored) (i : ℕ) (x : Stored) (done : Bool)
    → get_elem? (delete_all leads deletes n xs) i ≡ some (x, done)
    → get_elem? xs i ≡ some x
unfolding delete_all
delete_all-subset leads deletes n [] i x done h = absurd (ground arith)
delete_all-subset leads deletes n (y ∷ ys) zero x done h = ground arith
delete_all-subset leads deletes n (y ∷ ys) (suc i) x done h =
    ground (arith, delete_all-subset leads deletes (n + 1) ys i x done)

-- Whatever the network answers, each block that a cycle asks a data node to delete is one that the
-- metadata does not place there, that no copy under way brings there, and that is as old as the
-- grace period.
pub run_cycle-IsGarbage :
    (grace : ℕ) (a : Answers) (tree : ControlTree) (i : ℕ) (x : Stored) (done : Bool)
    → get_elem? (run_cycle grace a tree) i ≡ some (x, done)
    → (refers x.block_id x.address (referenced_blocks a.clock tree) ≡ false)
      × (under_way x.block_id x.address a.in_flight ≡ false)
      × (grace ≤ x.age)
unfolding run_cycle
run_cycle-IsGarbage grace a tree i x done h = elim (Bool-cases (a.leads_first && a.barrier)) [
  | inr stopped ↦ absurd (ground arith)
  | inl named ↦
      let refs = referenced_blocks a.clock tree in
      let stored = stored_blocks (inventory a.lists a.alive []) in
      let garbage = keep (is_garbage grace a.in_flight refs) stored in
      let listed = delete_all-subset a.leads a.deletes 0 garbage i x done (ground arith) in
      let kept = every_kept (is_garbage grace a.in_flight refs) stored i x listed in
      unfold is_garbage in (ground arith, ground arith, ground arith)
]

-- No replica that a file of the metadata names, committed or pending, is among those that a cycle
-- asks a data node to delete.
pub run_cycle-files :
    (grace : ℕ) (a : Answers) (tree : ControlTree) (i : ℕ) (x : Stored) (done : Bool)
    (q : List Text) (f : FileNode)
    → get_elem? (run_cycle grace a tree) i ≡ some (x, done)
    → get_node q tree.root ≡ some (file f)
    → named_in x.block_id x.address f.blocks ≡ false
run_cycle-files grace a tree i x done q f h at_q =
    elim (Bool-cases (named_in x.block_id x.address f.blocks)) [
      | inr unnamed ↦ unnamed
      | inl named ↦ ground (
        arith,
        run_cycle-IsGarbage grace a tree i x done h,
        referenced_blocks_files x.block_id x.address a.clock tree q f at_q named,
      )
    ]
