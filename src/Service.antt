-- ===== src/Service.antt =====
-- dfsha/control_node/servicer.py: what `ControlNodeServicer` adds to the replicated tree. The token of
-- a session, Raft and the data nodes are outside; what they answer is an argument.
pub mod Commit
pub mod Keys
pub mod Placement
pub mod Blocks
pub mod Reads
pub mod Escapes
