-- ===== src/Lib.antt =====
-- Verification of DFSha, a distributed file system: the replicated metadata of the control nodes,
-- what they do with it, the data nodes that keep the blocks, and the client between them.
--
-- A control node keeps the metadata in a tree (dfsha/control_node/tree.py): directories, files with
-- their blocks, locks with leases, uploads under way, reservations of writes, and users. Raft
-- delivers the same log of commands to every control node, and each applies it on its own
-- (dfsha/control_node/replicated_tree.py). The blocks themselves lie on the data nodes. The
-- service commits commands to the log; threads beside it watch the data nodes, copy the blocks that
-- have lost replicas, and delete those that the metadata does not name.
--
-- The files, and what they model:
--   Base and its children: the language, with the slices of `bytes` and the status codes of gRPC.
--     `Text` is a string as the list of its code points, `Dict` a dictionary in insertion order,
--     `Result` an outcome or a raised exception (the classes of dfsha/common/exceptions.py, without
--     their messages), `Exec` a method that reads and changes a state and may raise. What a method
--     changed before it raised stays changed.
--   Tree/Data: the records BlockRecord, FileNode, WriteReservation, LockState, UserRecord and
--     ControlTree. The three fields owner, group and mode are the record Ownership.
--   Tree/FilePath (`_parts`, `_canonical_path`), Tree/Nodes (`_get_node`, `_walk_to_parent`),
--     Tree/Lookup (`_get_committed_file` and its like), Tree/Perms (`_allows`, `_require`, names and
--     modes).
--   Tree/Dirs (`list_dir`, `make_dir`, `remove_dir`), Tree/Files (`remove_file`, `list_blocks`),
--     Tree/Users (`create_user`, `change_password`, `chmod`, `chown`), Tree/Locks (`acquire_lock`,
--     `renew_lock`, `release_lock`), Tree/Uploads (`begin_upload`, `confirm_block`,
--     `complete_upload`, `abort_upload`, `pending_blocks`), Tree/Writes (`plan_write_slots`,
--     `write_layout`, `begin_write`, `commit_write`, `abort_write`), Tree/Blocks
--     (`update_block_replicas`, `referenced_blocks`, `iter_blocks`). Their children hold the proofs.
--   Replicated: `ReplicatedTree.apply` and the replay of a log. A command is a constructor with the
--     method's arguments.
--   Upkeep: the threads beside the service. Upkeep/Monitor (dfsha/control_node/datanode_monitor.py),
--     Upkeep/Collector (dfsha/control_node/garbage_collector.py), Upkeep/Repair
--     (dfsha/control_node/rereplicator.py).
--   Capability: the capabilities that a data node verifies, and in Capability/Issue those that a
--     control node issues (dfsha/common/block_token.py).
--   Service: parts of dfsha/control_node/servicer.py. Service/Commit (`_commit`, `_commit_raw` and
--     the calls that only commit a command), Service/Keys (the key of a command in the log),
--     Service/Placement (`_pick_replicas`, the blocks of an upload), Service/Blocks (`BeginUpload` and
--     the calls that delete blocks), Service/Reads (`ListDir`, `ListBlocks`, `BeginWrite`),
--     Service/Escapes (`Unlock`).
--   BlockStore: the container of a block (dfsha/data_node/block_store.py). BlockStore/Disk are the
--     functions on the directory (`write_block`, `read_block`, `delete_block`, `list_blocks`),
--     BlockStore/Framing the container written at once, the other children proofs.
--   DataNode: the calls of dfsha/data_node/servicer.py over a network of data nodes: WriteBlock with
--     its pipeline (`_write_and_forward`), and in DataNode/Blocks ReadBlock, DeleteBlock,
--     ReplicateBlock and ListStoredBlocks. The other children are proofs.
--   Client: parts of dfsha/client/distributed_client.py. Client (the exception behind a failed call),
--     Client/Calls (`_call`), Client/Failover (`_read_block_with_failover`), Client/ReadRange
--     (`_read_range`), Client/SlotContent (`_slot_content`).
--   Tests: a small file system, and every theorem at concrete data.
--
-- Proofs about the namespace go through the view `look` (Tree/Nodes/View), which shows what stands
-- at a path and forgets the order of children.
--
-- Choices. Clock readings, leases and sizes are natural numbers; a clock in floating point is read
-- as a number of ticks. Where whole seconds matter, in capabilities, the ticks in a second are a
-- parameter: readings are multiples of one power of two, and only the rounding of a sum is left
-- out. The offset and the count of a write are integers, since the source tests their sign. A value
-- of a wrong type (a mode that is a text, say) is not modelled. Most loops run over a list or a
-- path and need no fuel; those over attempts run over the number of attempts that the constructor
-- fixes. Of the others, `drain` has the number of pending bytes as its fuel, since each round
-- removes a chunk; `pieces` has one round for each byte of the range; `call_rounds` has fuel for
-- one round more than come before the one at whose end the budget is spent, which is a theorem
-- below. A data node handles one call at a time, and an answer of its pipeline comes when the call
-- is over.
--
-- Not modelled: Raft, whose log is an argument; the network, the clock, the HMAC, the AES-GCM
-- cipher and SHA-256, which are arguments too (the laws of the cipher and the hash, and that the
-- HMAC is in hexadecimal, are hypotheses); the process lock, so that a method is one step;
-- snapshots and their migration (`__getstate__`, `__setstate__`); the thread, the bounded queue and
-- the deadlines of the pipeline; upload, download and the handles of locks in the client; starting
-- the nodes, the shell, the scripts, the TLS set-up and the single-server version.
pub mod Base
pub mod Tree
pub mod Replicated
pub mod BlockStore
pub mod Capability
pub mod Client
pub mod DataNode
pub mod Service
pub mod Upkeep
pub mod Tests
