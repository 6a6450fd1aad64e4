-- ===== src/Replicated.antt =====
-- dfsha/control_node/replicated_tree.py: the tree as the state machine that Raft replicates. The
-- log that Raft delivers is a list of commands; Raft itself (pysyncobj) is not modelled.
pub mod Once
pub mod Invariant
use proyecto1_sd.Tree.Blocks
use proyecto1_sd.Base.Dict
use proyecto1_sd.Tree.Dirs
use proyecto1_sd.Tree.Files
use proyecto1_sd.Tree.Locks
use proyecto1_sd.Tree.Uploads
use proyecto1_sd.Tree.Users
use proyecto1_sd.Tree.Writes
use proyecto1_sd.Base.{Bool, Exec, List, Option, Result, Text, [], if◌then◌else◌, invalid_path, leb}
use proyecto1_sd.Base.{length, list_eq, nat_eq, none, pure, raise, some, sum, ℕ, ℤ, ◌>>=◌, ◌>>◌}
use proyecto1_sd.Base.{◌∷◌}
use proyecto1_sd.Base.Dict.{Dict}
use proyecto1_sd.Tree.Data.{BlockRecord, Caller, ControlTree, new_tree}
use proyecto1_sd.Tree.Writes.{ConfirmedSlot, DescribedSlot, Proposal}

-- `MUTATIONS`: the operations that the log may apply, with their arguments. `unknown` is any other
-- method name.
pub data Command : Type 0 where
  make_dir : Text → Option Caller → Command
  remove_dir : Text → Option Caller → Command
  remove_file : Text → Option ℕ → Option Caller → Command
  begin_upload :
      Text → List (Text × List Text) → Option ℕ → Option ℕ → Option ℕ → Option Caller → Command
  confirm_block : Text → Text → Text → ℕ → Option ℕ → Option ℕ → Option Caller → Command
  complete_upload : Text → Option Caller → Command
  abort_upload : Text → Option Caller → Command
  acquire_lock : Text → Text → Text → Text → ℕ → ℕ → Option Caller → Command
  renew_lock : Text → Text → ℕ → ℕ → Command
  release_lock : Text → Text → Option ℕ → Command
  update_block_replicas : Text → Text → List Text → List Text → Command
  begin_write : Text → Text → Text → ℕ → ℤ → ℤ → List Proposal → ℕ → ℕ → ℕ → Option Caller → Command
  commit_write : Text → Text → Text → ℕ → List ConfirmedSlot → ℕ → Option Caller → Command
  abort_write : Text → Text → Text → Option ℕ → Command
  create_user : Text → List ℕ → List ℕ → List Text → Bool → Command
  change_password : Text → List ℕ → List ℕ → Command
  chmod : Text → ℕ → Option Caller → Command
  chown : Text → Text → Text → Option Caller → Command
  unknown : Command

-- What an operation returns.
pub data Value : Type 0 where
  nothing : Value
  locked_as : Text → Value
  freed : List BlockRecord → Value
  placed : List (Text × List Text) → List BlockRecord → Value
  reserved : Text → ℕ → ℕ → List DescribedSlot → Value
  published : ℕ → List BlockRecord → Value

-- ("ok", result) or ("error", class, message)
abbrev pub Outcome : Type 0
Outcome = Result Value

abbrev pub returns : Exec ControlTree (Unit {0}) → Exec ControlTree Value
returns m = m >>= λ _. pure nothing

-- `getattr(self.tree, method)(*args)`; an unknown method has no effect.
unfoldable pub run : Command → Exec ControlTree Value
run (make_dir p c) = returns (Dirs.make_dir p c)
run (remove_dir p c) = returns (Dirs.remove_dir p c)
run (remove_file p now c) = do blocks ← Files.remove_file p now c; pure (freed blocks)
run (begin_upload p ps now lease size c) = do
  (given, stale) ← Uploads.begin_upload p ps now lease size c
  pure (placed given stale)
run (confirm_block p b sum size now lease c) =
    returns (Uploads.confirm_block p b sum size now lease c)
run (complete_upload p c) = returns (Uploads.complete_upload p c)
run (abort_upload p c) = returns (Uploads.abort_upload p c)
run (acquire_lock p l o m now lease c) = do
  id ← Locks.acquire_lock p l o m now lease c
  pure (locked_as id)
run (renew_lock p l now lease) = returns (Locks.renew_lock p l now lease)
run (release_lock p l now) = returns (Locks.release_lock p l now)
run (update_block_replicas p b old new) = returns (Blocks.update_block_replicas p b old new)
run (begin_write p w l v offset size ps now lease default c) = do
  (id, version, block_size, slots) ← Writes.begin_write p w l v offset size ps now lease default c
  pure (reserved id version block_size slots)
run (commit_write p w l v cs now c) = do
  (version, replaced) ← Writes.commit_write p w l v cs now c
  pure (published version replaced)
run (abort_write p w l now) = do blocks ← Writes.abort_write p w l now; pure (freed blocks)
run (create_user u h salt groups admin) = returns (Users.create_user u h salt groups admin)
run (change_password u h salt) = returns (Users.change_password u h salt)
run (chmod p mode c) = returns (Users.chmod p mode c)
run (chown p owner group c) = returns (Users.chown p owner group c)
run unknown = raise invalid_path

-- `ReplicatedTree`
pub record ReplicatedTree : Type 0 where
  pub tree : ControlTree
  pub applied_ops : Dict Text Outcome

abbrev pub new_replica : ReplicatedTree
new_replica = record { tree = new_tree; applied_ops = [] }

-- `MAX_APPLIED_OPS`
abbrev pub max_applied_ops : ℕ
max_applied_ops = 10_000

-- `while len(ops) > limit: ops.popitem(last=False)`
unfoldable pub evict : ℕ → Dict Text Outcome → Dict Text Outcome
evict limit [] = []
evict limit (x ∷ ops) =
    let rest = evict limit ops in if leb (length (x ∷ ops)) limit then x ∷ ops else rest

unfoldable pub apply : Text → Command → ReplicatedTree → Outcome × ReplicatedTree
unfolding evict
apply op_id c r = elim (Dict.lookup op_id r.applied_ops) [
  | some outcome ↦ (outcome, r)
  | none ↦
      let (outcome, tree) = run c r.tree in
      (
        outcome,
        record {
          tree = tree;
          applied_ops = evict max_applied_ops (Dict.insert op_id outcome r.applied_ops);
        },
      )
]

-- A node that restarts replays the log; so do all nodes, each on its own.
unfoldable pub replay : List (Text × Command) → ReplicatedTree → ReplicatedTree
replay [] r = r
replay ((op_id, c) ∷ log) r = replay log (apply op_id c r).1
