-- ===== src/Service/Commit.antt =====
-- dfsha/control_node/servicer.py: `_commit_raw`, `_commit` and the mutations of the namespace.
use proyecto1_sd.Base.Dict
use proyecto1_sd.Base.{Bool, Error, List, Option, Status, Text, aborted, access_denied}
use proyecto1_sd.Base.{already_exists, arith, auth_error, block_corrupted, block_not_found}
use proyecto1_sd.Base.{conflict, err, failed_precondition, false, if◌then◌else◌, internal}
use proyecto1_sd.Base.{invalid_argument, invalid_path, is_empty, length, list_eq, nat_eq, none}
use proyecto1_sd.Base.{not_a_directory, not_a_file, not_empty, not_found, ok, path_exists}
use proyecto1_sd.Base.{path_not_found, permission_denied, some, sum, true, unauthenticated}
use proyecto1_sd.Base.{unavailable, unknown, ℕ, ◌<◌, ◌≡◌}
use proyecto1_sd.Replicated.{Command, Outcome, ReplicatedTree, Value, apply, max_applied_ops}
use proyecto1_sd.Replicated.{replay, run}
use proyecto1_sd.Replicated.Once.{applied_fresh, apply_again}
use proyecto1_sd.Service.Keys.{log_key}
use proyecto1_sd.Tree.Data.{Caller}

-- `_ERROR_STATUS_MAP`
unfoldable pub status_of : Error → Status
status_of path_not_found = not_found
status_of path_exists = already_exists
status_of not_empty = failed_precondition
status_of invalid_path = permission_denied
status_of not_a_file = invalid_argument
status_of not_a_directory = invalid_argument
status_of conflict = aborted
status_of access_denied = permission_denied
status_of auth_error = unauthenticated
status_of block_not_found = unknown
status_of block_corrupted = unknown
status_of internal = unknown

-- How Raft treats a command that the leader submits: it is applied and the result comes back in
-- time; it is applied and the call times out; or it is never applied.
pub data Delivery : Type 0 where
  delivered reply_lost dropped : Delivery

pub data CommitOutcome : Type 0 where
  finished : Outcome → CommitOutcome
  not_leader outcome_unknown : CommitOutcome

-- `_commit_raw`, on the replica of the leader.
unfoldable pub commit_raw :
    Bool → Delivery → Text → Command → ReplicatedTree → CommitOutcome × ReplicatedTree
commit_raw leads d op_id c r =
    if leads
    then elim d [
      | delivered ↦ let (o, r') = apply op_id c r in (finished o, r')
      | reply_lost ↦ let (_, r') = apply op_id c r in (outcome_unknown, r')
      | dropped ↦ (outcome_unknown, r)
    ]
    else (not_leader, r)

-- How a method of the service ends: with a value, with an exception that goes on, or with a status.
pub data Reply : Type 0 where
  returned : Value → Reply
  raised : Error → Reply
  ended : Status → Reply

unfoldable pub reply_of : CommitOutcome → Reply
reply_of not_leader = ended unavailable
reply_of outcome_unknown = ended unavailable
reply_of (finished (ok v)) = returned v
reply_of (finished (err e)) = raised e

abbrev pub answered : CommitOutcome × ReplicatedTree → Reply × ReplicatedTree
answered (o, r) = (reply_of o, r)

-- `_commit`, for a caller whose token was accepted. The two tests of leadership are two answers.
unfoldable pub commit :
    Option Text → Bool → Bool → Delivery → Text → Command → ReplicatedTree → Reply × ReplicatedTree
unfolding commit_raw
commit username leads still_leads d op_id c r =
    if is_empty op_id
    then (ended invalid_argument, r)
    else if leads
    then answered (commit_raw still_leads d (log_key username op_id) c r)
    else (ended unavailable, r)

-- The calls that only commit a command, with the fields of their requests. A lock comes with the
-- identifier that the leader makes for it, and with the owner.
pub data Request : Type 0 where
  make_dir : Text → Request
  remove_dir : Text → Request
  confirm_block : Text → Text → Text → ℕ → Request
  complete_upload : Text → Request
  lock : Text → Text → Text → Text → Request
  renew_lock : Text → Text → Request
  unlock : Text → Text → Request
  chmod : Text → ℕ → Request
  chown : Text → Text → Text → Request

-- The clock of the leader and the leases that it was started with.
pub record Leader : Type 0 where
  pub now : ℕ
  pub upload_lease : ℕ
  pub lock_lease : ℕ

unfoldable pub command_of : Leader → Option Caller → Request → Command
command_of l c (make_dir path) = Command.make_dir path c
command_of l c (remove_dir path) = Command.remove_dir path c
command_of l c (confirm_block path b sum size) =
    Command.confirm_block path b sum size (some l.now) (some l.upload_lease) c
command_of l c (complete_upload path) = Command.complete_upload path c
command_of l c (lock path id owner mode) =
    Command.acquire_lock path id owner mode l.now l.lock_lease c
command_of l c (renew_lock path id) = Command.renew_lock path id l.now l.lock_lease
command_of l c (unlock path id) = Command.release_lock path id (some l.now)
command_of l c (chmod path mode) = Command.chmod path mode c
command_of l c (chown path owner group) = Command.chown path owner group c

-- The exceptions that a call turns into a status; any other goes on.
unfoldable pub catches : Request → Error → Bool
catches (make_dir path) path_exists = true
catches (remove_dir path) not_empty = true
catches (lock path id owner mode) conflict = true
catches (renew_lock path id) conflict = true
catches (unlock path id) conflict = true
catches (make_dir path) not_a_directory = true
catches (remove_dir path) not_a_directory = true
catches (renew_lock path id) access_denied = false
catches (unlock path id) access_denied = false
catches (unlock path id) invalid_path = false
catches q path_not_found = true
catches q invalid_path = true
catches q access_denied = true
catches q e = false

abbrev pub caught : Request → Reply → Reply
caught q (returned v) = returned v
caught q (ended st) = ended st
caught q (raised e) = if catches q e then ended (status_of e) else raised e

abbrev pub name_of : Option Caller → Option Text
name_of none = none
name_of (some c) = some c.username

-- A call that only commits a command, from a caller whose token was accepted.
unfoldable pub serve :
    Leader
    → Option Caller
    → Bool
    → Bool
    → Delivery
    → Text
    → Request
    → ReplicatedTree
    → Reply × ReplicatedTree
unfolding commit command_of catches
serve l caller leads still_leads d op_id q r =
    let (reply, r') = commit (name_of caller) leads still_leads d op_id (command_of l caller q) r in
    (caught q reply, r')

-- A command with a new key and an op_id that is not empty, which the leader applies but too late to
-- answer, ends as unavailable. When the client sends it again to a leader that answers in time, with
-- fewer than 10,000 other commands between, it gets what the first call would have returned, and
-- nothing is applied twice.
pub commit_retry :
    (username : Option Text) (op_id : Text) (c c' : Command) (log : List (Text × Command))
    (r : ReplicatedTree)
    → is_empty op_id ≡ false
    → Dict.lookup (log_key username op_id) r.applied_ops ≡ none
    → length log < max_applied_ops
    → let first = commit username true true reply_lost op_id c r in
      let later = replay log first.1 in
      (first.0 ≡ ended unavailable)
      × (commit username true true delivered op_id c' later
          ≡ (reply_of (finished (run c r.tree).0), later))
unfolding commit commit_raw reply_of
commit_retry username op_id c c' log r some_id fresh short =
    let key = log_key username op_id in
    let again = apply_again key c c' log r fresh short in
    let (same, _) = applied_fresh key c r fresh in (ground arith, ground (arith, again, same))
