-- ===== src/Service/Blocks.antt =====
-- dfsha/control_node/servicer.py: the calls that delete blocks after they commit (`Remove`,
-- `AbortUpload`, `CommitWrite`, `AbortWrite`, `BeginUpload`). A deletion that fails is passed over, so
-- that only the requests are modelled.
use proyecto1_sd.Base.Dict
use proyecto1_sd.Base.{Bool, Error, List, Option, Status, Text, [], access_denied, arith, conflict}
use proyecto1_sd.Base.{eqb, false, if◌then◌else◌, invalid_path, is_empty, is_negative, length}
use proyecto1_sd.Base.{list_eq, map, nat_eq, none, not_a_directory, not_a_file, path_exists}
use proyecto1_sd.Base.{path_not_found, some, to_nat, true, unavailable, ℕ, ℤ, ◌++◌, ◌<◌, ◌||◌, ◌∷◌}
use proyecto1_sd.Base.{◌≡◌}
use proyecto1_sd.Replicated.{Command, ReplicatedTree, Value, freed, max_applied_ops, placed}
use proyecto1_sd.Replicated.{published, replay, run}
use proyecto1_sd.Service.Commit.{Delivery, Leader, Reply, catches, commit, commit_retry, delivered}
use proyecto1_sd.Service.Commit.{ended, finished, name_of, raised, reply_lost, reply_of, returned}
use proyecto1_sd.Service.Commit.{status_of}
use proyecto1_sd.Service.Keys.{log_key}
use proyecto1_sd.Service.Placement.{BlockLocation, block_count, locations, propose}
use proyecto1_sd.Tree.Data.{BlockRecord, Caller}
use proyecto1_sd.Tree.Uploads.{pending_blocks}
use proyecto1_sd.Tree.Writes.{ConfirmedSlot}

-- `_delete_blocks`: each request, with the block and the address.
unfoldable pub delete_blocks : List BlockRecord → List (Text × Text)
delete_blocks [] = []
delete_blocks (b ∷ rest) =
    map (λ (a : Text). (b.block_id, a)) b.datanode_addresses ++ delete_blocks rest

-- The calls, with the fields of their requests.
pub data Removal : Type 0 where
  remove : Text → Removal
  commit_write : Text → Text → Text → ℕ → List ConfirmedSlot → Removal
  abort_write : Text → Text → Text → Removal

unfoldable pub removal_command : ℕ → Option Caller → Removal → Command
removal_command now c (remove path) = Command.remove_file path (some now) c
removal_command now c (commit_write path w l v slots) = Command.commit_write path w l v slots now c
removal_command now c (abort_write path w l) = Command.abort_write path w l (some now)

unfoldable pub removal_catches : Removal → Error → Bool
removal_catches (remove path) not_a_file = true
removal_catches (remove path) not_a_directory = true
removal_catches (abort_write path w l) access_denied = false
removal_catches q path_not_found = true
removal_catches q invalid_path = true
removal_catches q conflict = true
removal_catches q access_denied = true
removal_catches q e = false

-- The blocks that the result of a command leaves to delete.
abbrev pub blocks_of_value : Value → List BlockRecord
blocks_of_value (freed blocks) = blocks
blocks_of_value (published version replaced) = replaced
blocks_of_value (placed placements stale) = stale
blocks_of_value v = []

abbrev pub blocks_of : Reply → List BlockRecord
blocks_of (returned v) = blocks_of_value v
blocks_of (raised e) = []
blocks_of (ended st) = []

abbrev pub caught_by : (Error → Bool) → Reply → Reply
caught_by catches (returned v) = returned v
caught_by catches (ended st) = ended st
caught_by catches (raised e) = if catches e then ended (status_of e) else raised e

-- A reply, the requests to delete that went before it, and the replica after it.
pub record Served : Type 0 where
  pub reply : Reply
  pub deletes : List (Text × Text)
  pub after : ReplicatedTree

unfoldable pub serve_removal :
    ℕ → Option Caller → Bool → Bool → Delivery → Text → Removal → ReplicatedTree → Served
unfolding removal_command removal_catches delete_blocks
serve_removal now caller leads still_leads d op_id q r =
    let (reply, r') =
      commit (name_of caller) leads still_leads d op_id (removal_command now caller q) r in
    record {
      reply = caught_by (removal_catches q) reply;
      deletes = delete_blocks (blocks_of reply);
      after = r';
    }

-- `AbortUpload`: the blocks of the upload are read before the commit, which does not return them.
abbrev pub abort_catches : Error → Bool
abort_catches path_not_found = true
abort_catches not_a_directory = true
abort_catches invalid_path = true
abort_catches access_denied = true
abort_catches e = false

abbrev pub done_with : List BlockRecord → Reply → List BlockRecord
done_with blocks (returned v) = blocks
done_with blocks (raised e) = []
done_with blocks (ended st) = []

unfoldable pub serve_abort_upload :
    Option Caller → Bool → Bool → Bool → Delivery → Text → Text → ReplicatedTree → Served
unfolding delete_blocks
serve_abort_upload caller barrier leads still_leads d op_id path r =
    let blocks = pending_blocks path r.tree in
    let (reply, r') =
      commit (name_of caller) leads still_leads d op_id (Command.abort_upload path caller) r in
    if barrier
    then record {
      reply = caught_by abort_catches reply;
      deletes = delete_blocks (done_with blocks reply);
      after = r';
    }
    else record { reply = ended unavailable; deletes = []; after = r }

-- The settings of the constructor that place blocks.
pub record Cluster : Type 0 where
  pub replication_factor : ℕ
  pub min_write_replicas : ℕ
  pub block_size : ℕ

abbrev pub begin_catches : Error → Bool
begin_catches path_exists = true
begin_catches not_a_directory = true
begin_catches invalid_path = true
begin_catches access_denied = true
begin_catches e = false

-- The response is made of what the commit returned, which may be the placements of an earlier call.
abbrev pub locations_of : ℕ → ℕ → Reply → List BlockLocation
locations_of block_size size (returned (placed ps stale)) = locations block_size size ps
locations_of block_size size reply = []

abbrev pub refused_with : Status → ReplicatedTree → ℕ → Served × List BlockLocation × ℕ
refused_with st r offset = (record { reply = ended st; deletes = []; after = r }, [], offset)

-- `BeginUpload`, with the nodes that are alive at each block, the identifiers that are made and the offset; the
-- last component is the next offset.
unfoldable pub serve_begin_upload :
    Cluster
    → Leader
    → Option Caller
    → (ℕ → List Text)
    → (ℕ → Text)
    → ℕ
    → Bool
    → Bool
    → Delivery
    → Text
    → Text
    → ℤ
    → ReplicatedTree
    → Served × List BlockLocation × ℕ
unfolding propose locations delete_blocks block_count
serve_begin_upload k l caller alive ids offset leads still_leads d op_id path size r =
    let count = block_count (to_nat size) k.block_size in
    if is_negative size || eqb (to_nat size) 0
    then refused_with (status_of invalid_path) r offset
    else let (proposed, next) =
        propose k.replication_factor k.min_write_replicas alive ids offset count in
      elim proposed [
        | none ↦ refused_with unavailable r next
        | some ps ↦
            let c =
              Command.begin_upload path ps (some l.now) (some l.upload_lease) (some k.block_size)
                caller in
            let (reply, r') = commit (name_of caller) leads still_leads d op_id c r in
            (
              record {
                reply = caught_by begin_catches reply;
                deletes = delete_blocks (blocks_of reply);
                after = r';
              },
              locations_of k.block_size (to_nat size) reply,
              next,
            )
      ]

-- A call with a new key and an op_id that is not empty, which is applied but too late to answer,
-- deletes nothing. When the client sends it again and is answered in time, with fewer than 10,000
-- other commands between, the call deletes what the first would have, and changes nothing else.
pub removal_retry :
    (now now' : ℕ) (caller : Option Caller) (op_id : Text) (q : Removal)
    (log : List (Text × Command)) (r : ReplicatedTree)
    → is_empty op_id ≡ false
    → Dict.lookup (log_key (name_of caller) op_id) r.applied_ops ≡ none
    → length log < max_applied_ops
    → let first = serve_removal now caller true true reply_lost op_id q r in
      let again = serve_removal now' caller true true delivered op_id q (replay log first.after) in
      (first.deletes ≡ [])
      × (again.deletes
          ≡ delete_blocks
              (blocks_of (reply_of (finished (run (removal_command now caller q) r.tree).0))))
      × (again.after ≡ replay log first.after)
unfolding serve_removal
removal_retry now now' caller op_id q log r some_id fresh short =
    let (first, again) =
      commit_retry (name_of caller) op_id (removal_command now caller q)
        (removal_command now' caller q) log r some_id fresh short in
    (ground (arith, first), ground (arith, again), ground (arith, again))
