-- ===== src/Service/Escapes.antt =====
-- dfsha/control_node/servicer.py: an exception that `Unlock` lets through and `RenewLock` does not.
use proyecto1_sd.Base.Dict
use proyecto1_sd.Tree.Locks
use proyecto1_sd.Base.{Option, Text, arith, err, false, invalid_path, is_empty, list_eq, nat_eq}
use proyecto1_sd.Base.{none, permission_denied, some, true, ℕ, ◌>>=◌, ◌≡◌}
use proyecto1_sd.Replicated.{Command, ReplicatedTree, run}
use proyecto1_sd.Replicated.Once.{applied_fresh}
use proyecto1_sd.Service.Commit.{Leader, catches, command_of, commit, commit_raw, delivered, ended}
use proyecto1_sd.Service.Commit.{name_of, raised, renew_lock, reply_of, serve, status_of, unlock}
use proyecto1_sd.Service.Keys.{log_key}
use proyecto1_sd.Tree.Data.{Caller, ControlTree}
use proyecto1_sd.Tree.FilePath.{canonical_path}

release_lock_refused :
    (path id : Text) (now : Option ℕ) (s : ControlTree)
    → canonical_path path ≡ err invalid_path
    → (run (Command.release_lock path id now) s).0 ≡ err invalid_path
unfolding run Locks.release_lock ◌>>=◌
release_lock_refused path id now s bad = ground arith

renew_lock_refused :
    (path id : Text) (now lease : ℕ) (s : ControlTree)
    → canonical_path path ≡ err invalid_path
    → (run (Command.renew_lock path id now lease) s).0 ≡ err invalid_path
unfolding run Locks.renew_lock ◌>>=◌
renew_lock_refused path id now lease s bad = ground arith

-- For a path that has ".." among its names, a `RenewLock` with a new key, applied in time, ends with
-- PERMISSION_DENIED, while such an `Unlock` lets the exception through.
pub unlock_escapes :
    (l : Leader) (caller : Option Caller) (op_id path id : Text) (r : ReplicatedTree)
    → is_empty op_id ≡ false
    → Dict.lookup (log_key (name_of caller) op_id) r.applied_ops ≡ none
    → canonical_path path ≡ err invalid_path
    → ((serve l caller true true delivered op_id (renew_lock path id) r).0
        ≡ ended permission_denied)
      × ((serve l caller true true delivered op_id (unlock path id) r).0 ≡ raised invalid_path)
unfolding serve commit commit_raw reply_of command_of status_of catches
unlock_escapes l caller op_id path id r some_id fresh bad =
    let key = log_key (name_of caller) op_id in
    let renew : Command = Command.renew_lock path id l.now l.lock_lease in
    let release : Command = Command.release_lock path id (some l.now) in
    let renewed = applied_fresh key renew r fresh in
    let released = applied_fresh key release r fresh in
    (
      ground (arith, renewed, renew_lock_refused path id l.now l.lock_lease r.tree bad),
      ground (arith, released, release_lock_refused path id (some l.now) r.tree bad),
    )
