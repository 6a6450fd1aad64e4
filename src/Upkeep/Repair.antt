-- ===== src/Upkeep/Repair.antt =====
-- dfsha/control_node/rereplicator.py: `ReReplicator`, which copies blocks that have too few live
-- replicas. The pauses between attempts and the thread are not modelled.
pub mod Laws
use proyecto1_sd.Base.{Bool, List, Option, Text, [], contains, false, if◌then◌else◌, is_empty, keep}
use proyecto1_sd.Base.{leb, length, list_eq, ltb, nat_eq, none, not, some, suc, true, zero, ℕ, ◌&&◌}
use proyecto1_sd.Base.{◌++◌, ◌+◌, ◌==◌, ◌||◌, ◌∷◌}
use proyecto1_sd.Tree.Blocks.{iter_blocks}
use proyecto1_sd.Tree.Data.{BlockRecord, ControlTree}

-- The settings of the constructor that a cycle reads.
pub record Settings : Type 0 where
  pub replication_factor : ℕ
  pub delay : ℕ
  pub max_per_cycle : ℕ
  pub max_attempts : ℕ

-- How a call of ReplicateBlock ends: with the checksum of the copy, with UNAVAILABLE or
-- DEADLINE_EXCEEDED, or with another status.
pub data CopyReply : Type 0 where
  copied : Text → CopyReply
  unreachable refused : CopyReply

-- How `_commit_raw` ends: an unknown outcome may have been applied. A conflict, a node that does not
-- lead and any other error end alike.
pub data CommitReply : Type 0 where
  committed unknown path_gone rejected : CommitReply

-- What a cycle learns from outside: whether this node leads, at first and before each repair, and
-- whether it is told to stop before each block; the read barrier; the nodes that are alive and how
-- long the others have been dead (nothing for one that the monitor does not know); and the replies
-- to each attempt of a copy and of a commit.
pub record Replies : Type 0 where
  pub leads : ℕ → Bool
  pub stops : ℕ → Bool
  pub barrier : Bool
  pub alive : List Text
  pub dead_for : Text → Option ℕ
  pub copies : Text → Text → Text → ℕ → CopyReply
  pub commits : Text → ℕ → CommitReply

-- `_dead_for(address) < delay_s`: a node that the monitor does not know died long ago.
abbrev pub recently_dead : ℕ → Option ℕ → Bool
recently_dead delay none = false
recently_dead delay (some t) = ltb t delay

abbrev pub some_recent : ℕ → (Text → Option ℕ) → List Text → List Text → Bool
some_recent delay dead_for alive [] = false
some_recent delay dead_for alive (a ∷ rest) =
    (not (contains alive a) && recently_dead delay (dead_for a))
    || some_recent delay dead_for alive rest

-- The first live node that has no replica.
unfoldable pub target_among : List Text → List Text → Option Text
target_among [] expected = none
target_among (a ∷ rest) expected =
    let later = target_among rest expected in if contains expected a then later else some a

-- What the loop decides of a block.
pub data Verdict : Type 0 where
  enough lost too_soon no_target : Verdict
  repair : List Text → Text → Verdict

abbrev pub repair_to : List Text → Option Text → Verdict
repair_to live none = no_target
repair_to live (some target) = repair live target

unfoldable pub judge : Settings → List Text → (Text → Option ℕ) → List Text → Verdict
judge c alive dead_for expected =
    let live = keep (contains alive) expected in
    if leb c.replication_factor (length live)
    then enough
    else if is_empty live
    then lost
    else if some_recent c.delay dead_for alive expected
    then too_soon
    else repair_to live (target_among alive expected)

-- `_replicate`, with `left` attempts of `max_attempts` to go.
unfoldable pub replicate : ℕ → ℕ → Text → (ℕ → CopyReply) → Bool
replicate zero attempt checksum replies = false
replicate (suc left) attempt checksum replies = elim (replies attempt) [
  | copied c ↦ c == checksum
  | unreachable ↦ replicate left (attempt + 1) checksum replies
  | refused ↦ false
]

-- `_commit_replicas`: whether it noted that the path is gone.
unfoldable pub commit_replicas : ℕ → ℕ → (ℕ → CommitReply) → Bool
commit_replicas zero attempt replies = false
commit_replicas (suc left) attempt replies = elim (replies attempt) [
  | committed ↦ false
  | unknown ↦ commit_replicas left (attempt + 1) replies
  | path_gone ↦ true
  | rejected ↦ false
]

-- The arguments of `update_block_replicas` that a repair commits.
pub record Update : Type 0 where
  pub path : Text
  pub block_id : Text
  pub expected : List Text
  pub new : List Text

-- A source that has the block, tried in order.
unfoldable pub copied_from : Settings → Replies → BlockRecord → Text → List Text → Bool
unfolding replicate
copied_from c a b target [] = false
copied_from c a b target (source ∷ rest) =
    replicate c.max_attempts 0 b.checksum (a.copies b.block_id source target)
    || copied_from c a b target rest

-- What a cycle leaves: `lost_blocks`, `ignored_deleted_paths`, and the updates that it committed or
-- tried to.
pub record Report : Type 0 where
  pub lost_blocks : List (Text × Text)
  pub ignored_deleted_paths : List Text
  pub updates : List Update

abbrev pub empty_report : Report
empty_report = record { lost_blocks = []; ignored_deleted_paths = []; updates = [] }

-- A repair whose copy was made commits its update.
unfoldable pub repaired :
    Settings → Replies → Text → BlockRecord → List Text → Text → Report → Report
unfolding copied_from commit_replicas
repaired c a path b live target rest =
    if copied_from c a b target live
    then record {
      lost_blocks = rest.lost_blocks;
      ignored_deleted_paths =
          if commit_replicas c.max_attempts 0 (a.commits b.block_id)
          then path ∷ rest.ignored_deleted_paths
          else rest.ignored_deleted_paths;
      updates =
          record {
            path = path;
            block_id = b.block_id;
            expected = b.datanode_addresses;
            new = live ++ target ∷ [];
          }
          ∷ rest.updates;
    }
    else rest

abbrev pub noted_lost : Text → BlockRecord → Report → Report
noted_lost path b rest = record rest { lost_blocks = (path, b.block_id) ∷ rest.lost_blocks }

-- The loop over the blocks, from the position `n` and with `completed` repairs done.
unfoldable pub repair_all : Settings → Replies → ℕ → ℕ → List (Text × BlockRecord) → Report
unfolding repaired judge
repair_all c a n completed [] = empty_report
repair_all c a n completed ((path, b) ∷ rest) = elim (leb c.max_per_cycle completed || a.stops n) [
  | true ↦ empty_report
  | false ↦ elim (judge c a.alive a.dead_for b.datanode_addresses) [
    | enough ↦ repair_all c a (n + 1) completed rest
    | lost ↦ noted_lost path b (repair_all c a (n + 1) completed rest)
    | too_soon ↦ repair_all c a (n + 1) completed rest
    | no_target ↦ repair_all c a (n + 1) completed rest
    | repair live target ↦ elim (a.leads (completed + 1)) [
      | false ↦ empty_report
      | true ↦ repaired c a path b live target (repair_all c a (n + 1) (completed + 1) rest)
    ]
  ]
]

-- `run_cycle`
unfoldable pub run_repairs : Settings → Replies → ControlTree → Report
unfolding repair_all
run_repairs c a tree =
    if a.leads 0 && a.barrier then repair_all c a 0 0 (iter_blocks tree) else empty_report
