-- ===== src/Upkeep.antt =====
-- dfsha/control_node: the threads that a control node runs beside its service. What the network and
-- the other threads answer is an argument of each cycle.
pub mod Monitor
pub mod Collector
pub mod Repair
