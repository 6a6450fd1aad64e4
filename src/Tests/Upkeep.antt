-- ===== src/Tests/Upkeep.antt =====
-- The threads beside the service at concrete answers, and their theorems there.
-- Two data nodes answer; the first holds an old block that nothing names.
use proyecto1_sd.Base.Dict
use proyecto1_sd.Upkeep.Repair
use proyecto1_sd.Base.{[], arith, codes, false, get_elem?, if◌then◌else◌, list_eq, nat_eq, refl}
use proyecto1_sd.Base.{some, true, ◌==◌, ◌∷◌, ◌≡◌, ◌≤◌}
use proyecto1_sd.Tests.{home, notes, notes_path}
use proyecto1_sd.Tree.Blocks.{add_blocks, add_ref, add_slots, add_writes, iter_blocks, iter_entries}
use proyecto1_sd.Tree.Blocks.{iter_node, referenced_blocks, visit, visit_entries}
use proyecto1_sd.Tree.Blocks.Laws.{named_in, refers}
use proyecto1_sd.Tree.Nodes.{get_child, get_node}
use proyecto1_sd.Upkeep.Collector.{Answers, Stored, run_cycle, run_cycle-IsGarbage, run_cycle-files}
use proyecto1_sd.Upkeep.Collector.{under_way}
use proyecto1_sd.Upkeep.Monitor.{DataNodeMonitor, IsConsistent, new_monitor}
use proyecto1_sd.Upkeep.Repair.{Replies, Settings, Update, copied, run_repairs, target_among}
use proyecto1_sd.Upkeep.Repair.{unreachable}
use proyecto1_sd.Upkeep.Repair.Laws.{IsRepair, run_repairs-IsRepair}

abbrev answers : Answers
answers = record {
  leads_first = true;
  alive = codes "d1" ∷ codes "d2" ∷ [];
  lists = λ a. some ((codes "b0", 5000) ∷ (codes "b1", 5000) ∷ []);
  barrier = true;
  in_flight = (codes "b0", codes "d2") ∷ [];
  clock = 50;
  leads = λ n. true;
  deletes = λ n. true;
}

abbrev garbage : Stored
garbage = record { address = codes "d1"; block_id = codes "b0"; age = 5000 }

one_call : run_cycle 1200 answers home ≡ (garbage, true) ∷ []
unfolding run_cycle referenced_blocks visit visit_entries add_blocks add_slots add_writes add_ref
    list_eq nat_eq Dict.insert Dict.lookup
one_call = refl

first_call : get_elem? (run_cycle 1200 answers home) 0 ≡ some (garbage, true)
first_call = rw one_call refl

run_cycle-IsGarbage_example :
    (refers garbage.block_id garbage.address (referenced_blocks answers.clock home) ≡ false)
    × (under_way garbage.block_id garbage.address answers.in_flight ≡ false)
    × (1200 ≤ garbage.age)
run_cycle-IsGarbage_example = run_cycle-IsGarbage 1200 answers home 0 garbage true first_call

run_cycle-files_example : named_in garbage.block_id garbage.address notes.blocks ≡ false
unfolding get_node get_child list_eq nat_eq
run_cycle-files_example =
    run_cycle-files 1200 answers home 0 garbage true (codes "home" ∷ codes "notes" ∷ []) notes
      first_call refl

abbrev monitor : DataNodeMonitor
monitor = new_monitor (codes "d1" ∷ codes "d2" ∷ []) 6

monitor-IsConsistent : IsConsistent monitor
unfolding Dict.insert Dict.lookup
monitor-IsConsistent = record { dead_known = λ a h. absurd (ground arith) }

-- Only the first data node is alive, and a third one; the second died long ago.
abbrev settings : Settings
settings = record { replication_factor = 2; delay = 30; max_per_cycle = 1; max_attempts = 3 }

abbrev replies : Replies
replies = record {
  leads = λ n. true;
  stops = λ n. false;
  barrier = true;
  alive = codes "d1" ∷ codes "d3" ∷ [];
  dead_for = λ a. some 100;
  copies = λ block source target n. if n == 0 then unreachable else copied (codes "c");
  commits = λ block n. Repair.committed;
}

abbrev update : Update
update = record {
  path = notes_path;
  block_id = codes "b1";
  expected = codes "d1" ∷ codes "d2" ∷ [];
  new = codes "d1" ∷ codes "d3" ∷ [];
}

one_update : (run_repairs settings replies home).updates ≡ update ∷ []
unfolding run_repairs iter_blocks iter_node iter_entries target_among list_eq nat_eq
one_update = refl

run_repairs-IsRepair_example : IsRepair settings replies.alive (iter_blocks home) update
run_repairs-IsRepair_example =
    run_repairs-IsRepair settings replies home 0 update (rw one_update refl)
