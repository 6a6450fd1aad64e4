-- ===== src/Service/Reads.antt =====
-- dfsha/control_node/servicer.py: the calls that only read the tree (`ListDir`, `ListBlocks`), behind
-- the barrier of Raft (`_read_barrier`), and `BeginWrite`, which reads it to propose new blocks.
use proyecto1_sd.Base.{Bool, Error, Exec, List, Option, Option-cases, Result, Status, Text, []}
use proyecto1_sd.Base.{access_denied, arith, conflict, err, false, if◌then◌else◌, inl, inr}
use proyecto1_sd.Base.{invalid_path, length, list_eq, map, nat_eq, none, not_a_directory, ok}
use proyecto1_sd.Base.{path_not_found, some, true, unavailable, ℕ, ℤ, ◌>>=◌, ◌∷◌, ◌≡◌, ◌≢◌}
use proyecto1_sd.Replicated.{Command, ReplicatedTree}
use proyecto1_sd.Service.Blocks.{Cluster, caught_by}
use proyecto1_sd.Service.Commit.{Delivery, Leader, Reply, catches, commit, ended, name_of, raised}
use proyecto1_sd.Service.Commit.{status_of}
use proyecto1_sd.Service.Placement.{pick_replicas}
use proyecto1_sd.Tree.Data.{BlockRecord, Caller, ControlTree}
use proyecto1_sd.Tree.Dirs.{DirEntryData, list_dir}
use proyecto1_sd.Tree.FilePath.{path_parts}
use proyecto1_sd.Tree.Files.{list_blocks}
use proyecto1_sd.Tree.Lookup.{get_committed_file}
use proyecto1_sd.Tree.Writes.{Proposal, write_layout}
use proyecto1_sd.Tree.Writes.Plan.{plan_write_slots}

-- How a call that reads ends: with a value, with a status, or with an exception that goes on.
pub data Answer (A : Type 0) : Type 0 where
  found : A → Answer A
  stopped : Status → Answer A
  escaped : Error → Answer A

abbrev pub answer_of : {A : Type 0} → (Error → Bool) → Result A → Answer A
answer_of catches (ok a) = found a
answer_of catches (err e) = if catches e then stopped (status_of e) else escaped e

-- A reading of the tree, once the barrier passed.
unfoldable pub serve_read :
    {A : Type 0} → (Error → Bool) → Bool → Exec ControlTree A → ReplicatedTree → Answer A
serve_read catches passed m r =
    if passed then answer_of catches (m r.tree).0 else stopped unavailable

abbrev pub list_dir_catches : Error → Bool
list_dir_catches path_not_found = true
list_dir_catches not_a_directory = true
list_dir_catches invalid_path = true
list_dir_catches access_denied = true
list_dir_catches e = false

unfoldable pub serve_list_dir :
    Option Caller → Bool → Text → ReplicatedTree → Answer (List DirEntryData)
unfolding serve_read
serve_list_dir caller passed path r = serve_read list_dir_catches passed (list_dir path caller) r

abbrev pub list_blocks_catches : Error → Bool
list_blocks_catches path_not_found = true
list_blocks_catches invalid_path = true
list_blocks_catches access_denied = true
list_blocks_catches e = false

unfoldable pub serve_list_blocks :
    Option Caller → Bool → Text → ReplicatedTree → Answer (List BlockRecord)
unfolding serve_read
serve_list_blocks caller passed path r =
    serve_read list_blocks_catches passed (list_blocks path caller) r

abbrev pub with_proposal : Proposal → Option (List Proposal) → Option (List Proposal)
with_proposal p none = none
with_proposal p (some others) = some (p ∷ others)

-- One proposal for each slot of a plan, with the nodes that are alive then; nothing if they are too few
-- for one of them. The next offset is the one that was reached.
unfoldable pub propose_slots :
    ℕ → ℕ → (ℕ → List Text) → (ℕ → Text) → ℕ → List (ℕ × ℕ) → Option (List Proposal) × ℕ
unfolding pick_replicas
propose_slots factor least alive ids offset [] = (some [], offset)
propose_slots factor least alive ids offset (slot ∷ rest) =
    elim (pick_replicas factor least (alive (length rest)) offset) [
      | none ↦ (none, offset)
      | some (replicas, next) ↦
          let (others, final) = propose_slots factor least alive ids next rest in
          let p : Proposal = record {
            index = slot.0;
            block_id = ids (length rest);
            addresses = replicas;
          } in
          (with_proposal p others, final)
    ]

-- The layout of the file and the plan, both from the tree.
unfoldable pub planned : Text → ℕ → ℤ → ℤ → Option Caller → ControlTree → Result (ℕ × List (ℕ × ℕ))
planned path block_size offset size caller s = elim (write_layout path block_size caller s).0 [
  | err e ↦ err e
  | ok (version, b, sizes) ↦ elim (plan_write_slots sizes b offset size) [
    | err e ↦ err e
    | ok plan ↦ ok (version, plan)
  ]
]

abbrev pub plan_catches : Error → Bool
plan_catches path_not_found = true
plan_catches invalid_path = true
plan_catches access_denied = true
plan_catches e = false

abbrev pub begin_write_catches : Error → Bool
begin_write_catches path_not_found = true
begin_write_catches invalid_path = true
begin_write_catches conflict = true
begin_write_catches access_denied = true
begin_write_catches e = false

-- `BeginWrite`: the reply, the replica after it, and the next offset of the placement.
unfoldable pub serve_begin_write :
    Cluster
    → Leader
    → Option Caller
    → (ℕ → List Text)
    → (ℕ → Text)
    → Text
    → ℕ
    → Bool
    → Bool
    → Bool
    → Delivery
    → Text
    → Text
    → Text
    → ℤ
    → ℤ
    → ReplicatedTree
    → Reply × ReplicatedTree × ℕ
unfolding planned propose_slots
serve_begin_write k l caller alive ids write_id next_offset passed leads still_leads d op_id path
      lock_id offset size r =
    if passed
    then elim (planned path k.block_size offset size caller r.tree) [
      | err e ↦ (caught_by plan_catches (raised e), r, next_offset)
      | ok (version, plan) ↦
          let (proposed, final) =
            propose_slots k.replication_factor k.min_write_replicas alive ids next_offset plan in
          elim proposed [
            | none ↦ (ended unavailable, r, final)
            | some proposals ↦
                let c : Command =
                  Command.begin_write path write_id lock_id version offset size proposals l.now
                    l.upload_lease k.block_size caller in
                let (reply, r') = commit (name_of caller) leads still_leads d op_id c r in
                (caught_by begin_write_catches reply, r', final)
          ]
    ]
    else (ended unavailable, r, next_offset)

-- No exception of the tree escapes from `ListDir`: each that it raises has its status.
pub serve_list_dir_escapes :
    (caller : Option Caller) (passed : Bool) (path : Text) (r : ReplicatedTree) (e : Error)
    → serve_list_dir caller passed path r ≢ escaped e
unfolding serve_list_dir list_dir path_parts ◌>>=◌
serve_list_dir_escapes caller passed path r e h = ground arith

-- No exception of the tree escapes from `ListBlocks`: each that it raises has its status.
pub serve_list_blocks_escapes :
    (caller : Option Caller) (passed : Bool) (path : Text) (r : ReplicatedTree) (e : Error)
    → serve_list_blocks caller passed path r ≢ escaped e
unfolding serve_list_blocks list_blocks get_committed_file path_parts ◌>>=◌
serve_list_blocks_escapes caller passed path r e h = ground arith

-- The slots that `BeginWrite` proposes are those of the plan, in order, so that the tree, which plans
-- again, accepts them unless the file has changed.
pub propose_slots_lem :
    (factor least : ℕ) (alive : ℕ → List Text) (ids : ℕ → Text) (offset : ℕ) (plan : List (ℕ × ℕ))
    (proposals : List Proposal)
    → (propose_slots factor least alive ids offset plan).0 ≡ some proposals
    → map (λ (p : Proposal). p.index) proposals ≡ map (λ (x : ℕ × ℕ). x.0) plan
unfolding propose_slots
propose_slots_lem factor least alive ids offset [] proposals h = ground arith
propose_slots_lem factor least alive ids offset (slot ∷ rest) proposals h =
    elim (Option-cases (pick_replicas factor least (alive (length rest)) offset)) [
      | inl e ↦ absurd (ground arith)
      | inr ((replicas, next), e) ↦
          elim (Option-cases (propose_slots factor least alive ids next rest).0) [
            | inl f ↦ absurd (ground arith)
            | inr (others, f) ↦
                ground (arith, propose_slots_lem factor least alive ids next rest others f)
          ]
    ]
