-- ===== src/Tests/Log.antt =====
-- The replicated log at concrete commands, and its theorems there.
use proyecto1_sd.Base.Dict
use proyecto1_sd.Base.{[], arith, codes, list_eq, nat_eq, none, refl, ◌∷◌, ◌≡◌}
use proyecto1_sd.Replicated.{Command, apply, new_replica, replay}
use proyecto1_sd.Replicated.Invariant.{replay-LocksAreValid}
use proyecto1_sd.Replicated.Once.{apply_again}
use proyecto1_sd.Tree.Data.{new_tree}
use proyecto1_sd.Tree.Locks.Exclusion.{LocksAreValid}

abbrev first : Command
first = Command.make_dir (codes "/a") none

abbrev second : Command
second = Command.make_dir (codes "/b") none

apply_again_example :
    let later = replay ((codes "2", second) ∷ []) (apply (codes "1") first new_replica).1 in
    apply (codes "1") first later ≡ ((apply (codes "1") first new_replica).0, later)
unfolding Dict.lookup
apply_again_example =
    apply_again (codes "1") first first ((codes "2", second) ∷ []) new_replica refl (omega arith)

new_tree_valid : LocksAreValid new_tree
unfolding Dict.lookup
new_tree_valid = record { at_path = λ path state h. absurd (ground arith) }

replay_example :
    LocksAreValid (replay ((codes "1", first) ∷ (codes "2", second) ∷ []) new_replica).tree
replay_example =
    replay-LocksAreValid ((codes "1", first) ∷ (codes "2", second) ∷ []) new_replica new_tree_valid
