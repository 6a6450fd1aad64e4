-- ===== src/Tree/Locks.antt =====
-- dfsha/control_node/tree.py: locks with a lease (`acquire_lock`, `renew_lock`, `release_lock`,
-- `_cleanup_expired_locks`). Clock readings and leases are numbers of ticks, set by the leader.
pub mod Laws
pub mod Exclusion
pub mod Grants
use proyecto1_sd.Base.Dict
use proyecto1_sd.Base.{Bool, Exec, Option, Result, Text, [], codes, conflict, err, false, gets}
use proyecto1_sd.Base.{guard, if◌then◌else◌, invalid_path, lift, list_eq, ltb, modify, nat_eq, none}
use proyecto1_sd.Base.{not, ok, or_error, pure, some, true, ℕ, ◌+◌, ◌==◌, ◌>>=◌, ◌>>◌}
use proyecto1_sd.Tree.Data.{Caller, ControlTree, LockMode, LockState, exclusive, file, read_bit}
use proyecto1_sd.Tree.Data.{shared, write_bit}
use proyecto1_sd.Tree.FilePath.{canonical_path}
use proyecto1_sd.Tree.Lookup.{get_committed_file}
use proyecto1_sd.Tree.Perms.{require}

abbrev pub unexpired : ℕ → Text × ℕ → Bool
unexpired now holder = ltb now holder.1

abbrev pub set_lock : Text → LockState → ControlTree → ControlTree
set_lock path state s = record s { locks = Dict.insert path state s.locks }

abbrev pub drop_lock : Text → ControlTree → ControlTree
drop_lock path s = record s { locks = Dict.erase path s.locks }

-- The state with its holders set, or no state if none is left.
abbrev pub keep_lock : Text → LockState → ControlTree → ControlTree
keep_lock path state s =
    if Dict.is_nonempty state.holders then set_lock path state s else drop_lock path s

-- `_cleanup_expired_locks`
unfoldable pub cleanup_expired_locks : Text → Option ℕ → ControlTree → ControlTree
cleanup_expired_locks path none s = s
cleanup_expired_locks path (some now) s = elim (Dict.lookup path s.locks) [
  | none ↦ s
  | some state ↦
      keep_lock path (record state { holders = Dict.keep_values (unexpired now) state.holders }) s
]

unfoldable pub lock_mode : Text → Option LockMode
lock_mode mode =
    if mode == codes "r" then some shared else if mode == codes "w" then some exclusive else none

abbrev pub wanted : LockMode → ℕ
wanted shared = read_bit
wanted exclusive = write_bit

-- A path without a lock is free for any mode; one with a lock only for a second reader.
abbrev pub compatible : Option LockState → LockMode → Bool
compatible none mode = true
compatible (some state) mode = elim state.mode [
  | exclusive ↦ false
  | shared ↦ elim mode [ shared ↦ true | exclusive ↦ false ]
]

abbrev pub state_or_new : Option LockState → LockMode → LockState
state_or_new none mode = record { mode = mode; holders = [] }
state_or_new (some state) mode = state

-- A new state has no holder, so it is stored with its first one.
unfoldable pub acquire_lock :
    Text → Text → Text → Text → ℕ → ℕ → Option Caller → Exec ControlTree Text
acquire_lock path lock_id owner mode now lease_s caller = do
  canonical ← lift (canonical_path path)
  kind ← lift (or_error (lock_mode mode) invalid_path)
  lift (guard (ltb 0 lease_s) invalid_path)
  s ← gets (λ s. s)
  node ← lift (get_committed_file canonical s)
  lift (require (file node) caller (wanted kind))
  modify (cleanup_expired_locks canonical (some now))
  held ← gets (λ s. Dict.lookup canonical s.locks)
  lift (guard (compatible held kind) conflict)
  let state = state_or_new held kind
  lift (guard (not (Dict.has lock_id state.holders)) conflict)
  let holders = Dict.insert lock_id (owner, now + lease_s) state.holders
  modify (set_lock canonical (record state { holders = holders }))
  pure lock_id

unfoldable pub renew_lock : Text → Text → ℕ → ℕ → Exec ControlTree (Unit {0})
renew_lock path lock_id now lease_s = do
  canonical ← lift (canonical_path path)
  lift (guard (ltb 0 lease_s) invalid_path)
  s ← gets (λ s. s)
  lift (get_committed_file canonical s)
  modify (cleanup_expired_locks canonical (some now))
  held ← gets (λ s. Dict.lookup canonical s.locks)
  state ← lift (or_error held conflict)
  (owner, _) ← lift (or_error (Dict.lookup lock_id state.holders) conflict)
  let holders = Dict.insert lock_id (owner, now + lease_s) state.holders
  modify (set_lock canonical (record state { holders = holders }))

-- The lock is gone already: not an error if the leader's clock says so.
abbrev pub release_missing : Option ℕ → Result (Unit {0})
release_missing none = err conflict
release_missing (some now) = ok tt

unfoldable pub release_held :
    Text → Text → Option ℕ → Option LockState → Exec ControlTree (Unit {0})
release_held canonical lock_id now none = lift (release_missing now)
release_held canonical lock_id now (some state) = do
  lift (guard (Dict.has lock_id state.holders) conflict)
  modify (keep_lock canonical (record state { holders = Dict.erase lock_id state.holders }))

unfoldable pub release_lock : Text → Text → Option ℕ → Exec ControlTree (Unit {0})
release_lock path lock_id now = do
  canonical ← lift (canonical_path path)
  s ← gets (λ s. s)
  lift (get_committed_file canonical s)
  modify (cleanup_expired_locks canonical now)
  held ← gets (λ s. Dict.lookup canonical s.locks)
  release_held canonical lock_id now held
