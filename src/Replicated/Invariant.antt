-- ===== src/Replicated/Invariant.antt =====
-- Every node that replays a log has a valid lock table.
use proyecto1_sd.Tree.Blocks
use proyecto1_sd.Base.Dict
use proyecto1_sd.Tree.Dirs
use proyecto1_sd.Tree.Files
use proyecto1_sd.Tree.Uploads
use proyecto1_sd.Tree.Users
use proyecto1_sd.Tree.Writes
use proyecto1_sd.Base.{Bool, Exec, Keeps, Keeps-bind, Keeps-check, Keeps-lift, Keeps-modify}
use proyecto1_sd.Base.{Keeps-pure, Keeps-read, List, Option, Option-cases, Text, [], ap, arith, inl}
use proyecto1_sd.Base.{inr, list_eq, nat_eq, none, pure, raise, refl, some, sum, sym, ℕ, ℤ, ◌>>=◌}
use proyecto1_sd.Base.{◌∙◌, ◌∷◌, ◌≡◌}
use proyecto1_sd.Replicated.{Command, ReplicatedTree, abort_upload, abort_write, acquire_lock}
use proyecto1_sd.Replicated.{apply, begin_upload, begin_write, change_password, chmod, chown}
use proyecto1_sd.Replicated.{commit_write, complete_upload, confirm_block, create_user, make_dir}
use proyecto1_sd.Replicated.{release_lock, remove_dir, remove_file, renew_lock, replay, run}
use proyecto1_sd.Replicated.{unknown, update_block_replicas}
use proyecto1_sd.Tree.Data.{Caller, ControlTree, WriteReservation}
use proyecto1_sd.Tree.FilePath.{path_of}
use proyecto1_sd.Tree.Locks.Exclusion.{LocksAreValid, acquire_lock-LocksAreValid}
use proyecto1_sd.Tree.Locks.Exclusion.{cleanup-LocksAreValid, release_lock-LocksAreValid}
use proyecto1_sd.Tree.Locks.Exclusion.{renew_lock-LocksAreValid}

-- An operation that leaves the lock table alone.
same_locks :
    {A : Type 0} (m : Exec ControlTree A)
    → ((s : ControlTree) → (m s).1.locks ≡ s.locks)
    → Keeps LocksAreValid m
same_locks m same = record {
  at = λ s v. record { at_path = λ p st e. v.at_path p st (ap (Dict.lookup p) (sym (same s)) ∙ e) };
}

remove_file-LocksAreValid :
    (path : Text) (now : Option ℕ) (caller : Option Caller)
    → Keeps LocksAreValid (Files.remove_file path now caller)
unfolding Files.remove_file
remove_file-LocksAreValid path now caller = Keeps-check _ _ λ names _.
    Keeps-check _ _ λ (dirs, name) _. Keeps-read _ _ λ s _. Keeps-check _ _ λ parent _.
      Keeps-check _ _ λ _ _. Keeps-check _ _ λ node _. Keeps-check _ _ λ f _. Keeps-check _ _ λ _ _.
        Keeps-bind _ _ (Keeps-modify _ (cleanup-LocksAreValid (path_of names) now)) λ _.
          Keeps-read _ _ λ t _. Keeps-check _ _ λ _ _.
            Keeps-bind _ _ (Keeps-modify _ (λ t v. record { at_path = v.at_path }))
              λ _. Keeps-pure _

require_write_lock-LocksAreValid :
    (canonical lock_id : Text) (now : ℕ)
    → Keeps LocksAreValid (Writes.require_write_lock canonical lock_id now)
unfolding Writes.require_write_lock
require_write_lock-LocksAreValid canonical lock_id now =
    Keeps-bind _ _ (Keeps-modify _ (cleanup-LocksAreValid canonical (some now)))
      λ _. Keeps-read _ _ λ s _. Keeps-lift _

cleanup_writes-LocksAreValid :
    (now : Option ℕ) (s : ControlTree)
    → LocksAreValid s
    → LocksAreValid (Writes.cleanup_expired_writes now s)
unfolding Writes.cleanup_expired_writes
cleanup_writes-LocksAreValid none s v = v
cleanup_writes-LocksAreValid (some now) s v = record { at_path = v.at_path }

begin_write-LocksAreValid :
    (path write_id lock_id : Text) (base : ℕ) (offset size : ℤ) (ps : List Writes.Proposal)
    (now lease_s default : ℕ) (caller : Option Caller)
    → Keeps LocksAreValid
        (Writes.begin_write path write_id lock_id base offset size ps now lease_s default caller)
unfolding Writes.begin_write
begin_write-LocksAreValid path write_id lock_id base offset size ps now lease_s default caller =
    Keeps-check _ _ λ canonical _. Keeps-read _ _ λ s _. Keeps-check _ _ λ f _.
      Keeps-check _ _ λ _ _.
        Keeps-bind _ _ (require_write_lock-LocksAreValid canonical lock_id now) λ _.
          Keeps-bind _ _ (Keeps-modify _ (cleanup_writes-LocksAreValid (some now))) λ _.
            Keeps-read _ _ λ t _. Keeps-check _ _ λ _ _. Keeps-check _ _ λ _ _.
              Keeps-check _ _ λ plan _. Keeps-check _ _ λ _ _.
                Keeps-bind _ _ (Keeps-modify _ (λ t v. record { at_path = v.at_path }))
                  λ _. Keeps-pure _

commit_write-LocksAreValid :
    (path write_id lock_id : Text) (base : ℕ) (confirmed : List Writes.ConfirmedSlot) (now : ℕ)
    (caller : Option Caller)
    → Keeps LocksAreValid (Writes.commit_write path write_id lock_id base confirmed now caller)
unfolding Writes.commit_write
commit_write-LocksAreValid path write_id lock_id base confirmed now caller =
    Keeps-check _ _ λ canonical _. Keeps-read _ _ λ s _. Keeps-check _ _ λ f _.
      Keeps-check _ _ λ _ _.
        Keeps-bind _ _ (Keeps-modify _ (cleanup_writes-LocksAreValid (some now))) λ _.
          Keeps-read _ _ λ t _. Keeps-check _ _ λ r _. Keeps-check _ _ λ _ _.
            Keeps-bind _ _ (require_write_lock-LocksAreValid canonical lock_id now) λ _.
              Keeps-check _ _ λ _ _. Keeps-check _ _ λ _ _. Keeps-check _ _ λ names _.
                Keeps-bind _ _ (Keeps-modify _ (λ t v. record { at_path = v.at_path })) λ _.
                  Keeps-bind _ _ (Keeps-modify _ (λ t v. record { at_path = v.at_path }))
                    λ _. Keeps-pure _

walk_or_create-locks :
    (dirs : List Text) (caller : Option Caller) (s : ControlTree)
    → (Uploads.walk_or_create dirs caller s).1.locks ≡ s.locks
unfolding Uploads.walk_or_create
walk_or_create-locks dirs caller s = refl

begin_upload-LocksAreValid :
    (path : Text) (ps : List (Text × List Text)) (now lease_s block_size : Option ℕ)
    (caller : Option Caller)
    → Keeps LocksAreValid (Uploads.begin_upload path ps now lease_s block_size caller)
unfolding Uploads.begin_upload
begin_upload-LocksAreValid path ps now lease_s block_size caller = Keeps-check _ _ λ names _.
    Keeps-check _ _ λ (dirs, name) _.
      Keeps-bind _ _ (same_locks _ (walk_or_create-locks dirs caller)) λ parent.
        Keeps-check _ _ λ stale _.
          Keeps-bind _ _ (Keeps-modify _ (λ t v. record { at_path = v.at_path })) λ _. Keeps-pure _

abort_reservation-LocksAreValid :
    (write_id lock_id : Text) (found : Option WriteReservation)
    → Keeps LocksAreValid (Writes.abort_reservation write_id lock_id found)
unfolding Writes.abort_reservation
abort_reservation-LocksAreValid write_id lock_id none = Keeps-pure _
abort_reservation-LocksAreValid write_id lock_id (some r) =
    Keeps-check _ _ λ _ _.
      Keeps-bind _ _ (Keeps-modify _ (λ t v. record { at_path = v.at_path })) λ _. Keeps-pure _

abort_write-LocksAreValid :
    (path write_id lock_id : Text) (now : Option ℕ)
    → Keeps LocksAreValid (Writes.abort_write path write_id lock_id now)
unfolding Writes.abort_write
abort_write-LocksAreValid path write_id lock_id now = Keeps-check _ _ λ canonical _.
    Keeps-bind _ _ (Keeps-modify _ (cleanup_writes-LocksAreValid now))
      λ _. Keeps-read _ _ λ t _. abort_reservation-LocksAreValid write_id lock_id _

-- The operations that change the files or the users only.
make_dir-locks :
    (p : Text) (c : Option Caller) (s : ControlTree) → (Dirs.make_dir p c s).1.locks ≡ s.locks
unfolding Dirs.make_dir ◌>>=◌
make_dir-locks p c s = ground arith

remove_dir-locks :
    (p : Text) (c : Option Caller) (s : ControlTree) → (Dirs.remove_dir p c s).1.locks ≡ s.locks
unfolding Dirs.remove_dir ◌>>=◌
remove_dir-locks p c s = ground arith

confirm_block-locks :
    (p b sum : Text) (size : ℕ) (now lease : Option ℕ) (c : Option Caller) (s : ControlTree)
    → (Uploads.confirm_block p b sum size now lease c s).1.locks ≡ s.locks
unfolding Uploads.confirm_block ◌>>=◌
confirm_block-locks p b sum size now lease c s = ground arith

complete_upload-locks :
    (p : Text) (c : Option Caller) (s : ControlTree)
    → (Uploads.complete_upload p c s).1.locks ≡ s.locks
unfolding Uploads.complete_upload ◌>>=◌
complete_upload-locks p c s = ground arith

abort_upload-locks :
    (p : Text) (c : Option Caller) (s : ControlTree)
    → (Uploads.abort_upload p c s).1.locks ≡ s.locks
unfolding Uploads.abort_upload ◌>>=◌
abort_upload-locks p c s = ground arith

update_block_replicas-locks :
    (p b : Text) (old new : List Text) (s : ControlTree)
    → (Blocks.update_block_replicas p b old new s).1.locks ≡ s.locks
unfolding Blocks.update_block_replicas ◌>>=◌
update_block_replicas-locks p b old new s = ground arith

create_user-locks :
    (u : Text) (h salt : List ℕ) (groups : List Text) (admin : Bool) (s : ControlTree)
    → (Users.create_user u h salt groups admin s).1.locks ≡ s.locks
unfolding Users.create_user ◌>>=◌
create_user-locks u h salt groups admin s = ground arith

change_password-locks :
    (u : Text) (h salt : List ℕ) (s : ControlTree)
    → (Users.change_password u h salt s).1.locks ≡ s.locks
unfolding Users.change_password ◌>>=◌
change_password-locks u h salt s = ground arith

chmod-locks :
    (p : Text) (mode : ℕ) (c : Option Caller) (s : ControlTree)
    → (Users.chmod p mode c s).1.locks ≡ s.locks
unfolding Users.chmod ◌>>=◌
chmod-locks p mode c s = ground arith

chown-locks :
    (p owner group : Text) (c : Option Caller) (s : ControlTree)
    → (Users.chown p owner group c s).1.locks ≡ s.locks
unfolding Users.chown ◌>>=◌
chown-locks p owner group c s = ground arith

and_pure :
    {A B : Type 0} (m : Exec ControlTree A) (f : A → B)
    → Keeps LocksAreValid m
    → Keeps LocksAreValid (m >>= λ a. pure (f a))
and_pure m f k = Keeps-bind _ _ k (λ a. Keeps-pure (f a))

-- Every command of the log keeps the lock table valid, whether it succeeds or not.
pub run-LocksAreValid : (c : Command) → Keeps LocksAreValid (run c)
unfolding run
run-LocksAreValid (make_dir p c) = and_pure _ _ (same_locks _ (make_dir-locks p c))
run-LocksAreValid (remove_dir p c) = and_pure _ _ (same_locks _ (remove_dir-locks p c))
run-LocksAreValid (remove_file p now c) = and_pure _ _ (remove_file-LocksAreValid p now c)
run-LocksAreValid (begin_upload p ps now lease size c) =
    Keeps-bind _ _ (begin_upload-LocksAreValid p ps now lease size c)
      (λ (given, stale). Keeps-pure _)
run-LocksAreValid (confirm_block p b sum size now lease c) =
    and_pure _ _ (same_locks _ (confirm_block-locks p b sum size now lease c))
run-LocksAreValid (complete_upload p c) = and_pure _ _ (same_locks _ (complete_upload-locks p c))
run-LocksAreValid (abort_upload p c) = and_pure _ _ (same_locks _ (abort_upload-locks p c))
run-LocksAreValid (acquire_lock p l o m now lease c) =
    and_pure _ _ (acquire_lock-LocksAreValid p l o m now lease c)
run-LocksAreValid (renew_lock p l now lease) = and_pure _ _ (renew_lock-LocksAreValid p l now lease)
run-LocksAreValid (release_lock p l now) = and_pure _ _ (release_lock-LocksAreValid p l now)
run-LocksAreValid (update_block_replicas p b old new) =
    and_pure _ _ (same_locks _ (update_block_replicas-locks p b old new))
run-LocksAreValid (begin_write p w l v offset size ps now lease default c) =
    Keeps-bind _ _ (begin_write-LocksAreValid p w l v offset size ps now lease default c)
      (λ _. Keeps-pure _)
run-LocksAreValid (commit_write p w l v cs now c) =
    Keeps-bind _ _ (commit_write-LocksAreValid p w l v cs now c) (λ _. Keeps-pure _)
run-LocksAreValid (abort_write p w l now) = and_pure _ _ (abort_write-LocksAreValid p w l now)
run-LocksAreValid (create_user u h salt groups admin) =
    and_pure _ _ (same_locks _ (create_user-locks u h salt groups admin))
run-LocksAreValid (change_password u h salt) =
    and_pure _ _ (same_locks _ (change_password-locks u h salt))
run-LocksAreValid (chmod p mode c) = and_pure _ _ (same_locks _ (chmod-locks p mode c))
run-LocksAreValid (chown p owner group c) =
    and_pure _ _ (same_locks _ (chown-locks p owner group c))
run-LocksAreValid unknown = same_locks _ (λ s. unfold raise in refl)

apply-LocksAreValid :
    (op_id : Text) (c : Command) (r : ReplicatedTree)
    → LocksAreValid r.tree
    → LocksAreValid (apply op_id c r).1.tree
unfolding apply
apply-LocksAreValid op_id c r v = elim (Option-cases (Dict.lookup op_id r.applied_ops)) [
  | inl e ↦ rw (apply, e) ((run-LocksAreValid c).at r.tree v)
  | inr (o, e) ↦ rw (apply, e) v
]

-- Whatever the log, no path has a second holder beside an exclusive one in the replayed tree.
pub replay-LocksAreValid :
    (log : List (Text × Command)) (r : ReplicatedTree)
    → LocksAreValid r.tree
    → LocksAreValid (replay log r).tree
unfolding replay
replay-LocksAreValid [] r v = v
replay-LocksAreValid ((op_id, c) ∷ log) r v =
    replay-LocksAreValid log _ (apply-LocksAreValid op_id c r v)
