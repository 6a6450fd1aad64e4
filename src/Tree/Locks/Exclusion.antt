-- ===== src/Tree/Locks/Exclusion.antt =====
-- Mutual exclusion of the locks of a path, and what each lock operation grants.
use proyecto1_sd.Base.Dict
use proyecto1_sd.Base.{Error, Keeps, Keeps-bind, Keeps-check, Keeps-lift, Keeps-modify, Keeps-pure}
use proyecto1_sd.Base.{Keeps-read, Option, Option-cases, Result-cases, Text, arith, false, guard_ok}
use proyecto1_sd.Base.{inl, inr, le_trans, length, list_eq, ltb, nat_eq, none, ok, or_error}
use proyecto1_sd.Base.{or_error_ok, refl, some, true, ℕ, ◌+◌, ◌>>=◌, ◌≡◌, ◌≤◌}
use proyecto1_sd.Tree.Data.{Caller, ControlTree, FileNode, LockMode, LockState, exclusive}
use proyecto1_sd.Tree.FilePath.{canonical_path}
use proyecto1_sd.Tree.Locks.{acquire_lock, cleanup_expired_locks, compatible, keep_lock, lock_mode}
use proyecto1_sd.Tree.Locks.{release_held, release_lock, renew_lock, set_lock, state_or_new}
use proyecto1_sd.Tree.Locks.{unexpired, wanted}
use proyecto1_sd.Tree.Locks.Laws.{lookup-keep_lock}
use proyecto1_sd.Tree.Lookup.{get_committed_file}
use proyecto1_sd.Tree.Perms.{allows}

-- What a successful `acquire_lock` has found, and what it returns.
pub record Acquired (path lock_id owner mode : Text) (now lease_s : ℕ) (caller : Option Caller)
    (s : ControlTree) : Type 0 where
  pub canonical : Text
  pub kind : LockMode
  pub node : FileNode
  pub is_canonical : canonical_path path ≡ ok canonical
  pub is_kind : lock_mode mode ≡ some kind
  pub lease_pos : ltb 0 lease_s ≡ true
  pub committed_file : get_committed_file canonical s ≡ ok node
  pub allowed : allows node.own caller (wanted kind) ≡ true
  pub held : Option LockState
  pub is_held : Dict.lookup canonical (cleanup_expired_locks canonical (some now) s).locks ≡ held
  pub fits : compatible held kind ≡ true
  pub fresh : Dict.has lock_id (state_or_new held kind).holders ≡ false
  pub granted :
      (acquire_lock path lock_id owner mode now lease_s caller s).1
      ≡ set_lock canonical
          (record (state_or_new held kind) {
            holders = Dict.insert lock_id (owner, now + lease_s) (state_or_new held kind).holders;
          })
          (cleanup_expired_locks canonical (some now) s)

pub acquire_lock_inv :
    (path lock_id owner mode : Text) (now lease_s : ℕ) (caller : Option Caller) (s : ControlTree)
    {id : Text}
    → (acquire_lock path lock_id owner mode now lease_s caller s).0 ≡ ok id
    → Acquired path lock_id owner mode now lease_s caller s
unfolding acquire_lock ◌>>=◌
acquire_lock_inv path lock_id owner mode now lease_s caller s h =
    elim (Result-cases (canonical_path path)) [
      | inr (e, p) ↦ ground arith
      | inl (canonical, p) ↦ elim (Option-cases (lock_mode mode)) [
        | inl k ↦ ground arith
        | inr (kind, k) ↦ elim (Result-cases (get_committed_file canonical s)) [
          | inr (e, f) ↦ ground arith
          | inl (node, f) ↦ record {
            canonical = canonical;
            kind = kind;
            node = node;
            is_canonical = p;
            is_kind = k;
            lease_pos = ground arith;
            committed_file = f;
            allowed = ground arith;
            held = Dict.lookup canonical (cleanup_expired_locks canonical (some now) s).locks;
            is_held = refl;
            fits = ground arith;
            fresh = ground arith;
            granted = ground arith;
          }
        ]
      ]
    ]

-- A lock has a holder, and an exclusive one has no second.
pub record IsValidLock (state : LockState) : Type 0 where
  pub some_holder : Dict.is_nonempty state.holders ≡ true
  pub one_writer : state.mode ≡ exclusive → length state.holders ≤ 1

pub record LocksAreValid (s : ControlTree) : Type 0 where
  pub at_path :
      (path : Text) (state : LockState) → Dict.lookup path s.locks ≡ some state → IsValidLock state

pub set_lock-LocksAreValid :
    (path : Text) (state : LockState) (s : ControlTree)
    → LocksAreValid s
    → IsValidLock state
    → LocksAreValid (set_lock path state s)
set_lock-LocksAreValid path state s v h = record {
  at_path = λ p st e. ground (arith, Dict.lookup-insert p path state s.locks, v.at_path p st);
}

keep_lock-LocksAreValid :
    (path : Text) (state : LockState) (s : ControlTree)
    → LocksAreValid s
    → (state.mode ≡ exclusive → length state.holders ≤ 1)
    → LocksAreValid (keep_lock path state s)
keep_lock-LocksAreValid path state s v h = record {
  at_path = λ p st e. ground (arith, lookup-keep_lock p path state s, v.at_path p st);
}

pub cleanup-LocksAreValid :
    (path : Text) (now : Option ℕ) (s : ControlTree)
    → LocksAreValid s
    → LocksAreValid (cleanup_expired_locks path now s)
unfolding cleanup_expired_locks
cleanup-LocksAreValid path none s v = v
cleanup-LocksAreValid path (some now) s v = elim (Option-cases (Dict.lookup path s.locks)) [
  | inl e ↦ rw (e, cleanup_expired_locks) v
  | inr (state, e) ↦
      rw (e, cleanup_expired_locks)
        (keep_lock-LocksAreValid path _ s v λ x.
          le_trans (Dict.length-keep_values-le (unexpired now) state.holders)
            ((v.at_path path state e).one_writer x))
]

-- The lock that a request writes.
pub granted-IsValidLock :
    (held : Option LockState) (kind : LockMode) (lock_id : Text) (h : Text × ℕ)
    → compatible held kind ≡ true
    → IsValidLock (record (state_or_new held kind) {
      holders = Dict.insert lock_id h (state_or_new held kind).holders;
    })
unfolding Dict.insert
granted-IsValidLock none kind lock_id h fits = record {
  some_holder = refl;
  one_writer = λ e. omega arith;
}
granted-IsValidLock (some state) kind lock_id h fits = record {
  some_holder = Dict.insert-is_nonempty lock_id h state.holders;
  one_writer = λ e. ground arith;
}

renewed-IsValidLock :
    (lock_id : Text) (h : Text × ℕ) (state : LockState)
    → IsValidLock state
    → Dict.has lock_id state.holders ≡ true
    → IsValidLock (record state { holders = Dict.insert lock_id h state.holders })
renewed-IsValidLock lock_id h state v found = record {
  some_holder = Dict.insert-is_nonempty lock_id h state.holders;
  one_writer =
      λ x. omega (arith, v.one_writer x, Dict.length-insert_known lock_id h state.holders found);
}

known_of_found :
    (lock_id : Text) (holders : Dict.Dict Text (Text × ℕ)) (e : Error) {h : Text × ℕ}
    → or_error (Dict.lookup lock_id holders) e ≡ ok h
    → Dict.has lock_id holders ≡ true
known_of_found lock_id holders e found = ground arith

module _ (path lock_id : Text) where
  -- Of a lock table where no path has a second holder beside an exclusive one, `acquire_lock`
  -- makes another such, whether it grants the lock or refuses it.
  pub acquire_lock-LocksAreValid :
      (owner mode : Text) (now lease_s : ℕ) (caller : Option Caller)
      → Keeps LocksAreValid (acquire_lock path lock_id owner mode now lease_s caller)
  unfolding acquire_lock
  acquire_lock-LocksAreValid owner mode now lease_s caller = Keeps-check _ _ λ canonical _.
      Keeps-check _ _ λ kind _. Keeps-check _ _ λ _ _. Keeps-read _ _ λ s _.
        Keeps-check _ _ λ node _. Keeps-check _ _ λ _ _.
          Keeps-bind _ _ (Keeps-modify _ (cleanup-LocksAreValid canonical (some now))) λ _.
            Keeps-read _ _ λ s _. Keeps-check _ _ λ _ fits. Keeps-check _ _ λ _ _.
              Keeps-bind _ _
                (Keeps-modify _ λ t v.
                  set_lock-LocksAreValid canonical _ t v
                    (granted-IsValidLock _ kind lock_id (owner, now + lease_s) (guard_ok _ _ fits)))
                λ _. Keeps-pure _

  pub renew_lock-LocksAreValid :
      (now lease_s : ℕ) → Keeps LocksAreValid (renew_lock path lock_id now lease_s)
  unfolding renew_lock
  renew_lock-LocksAreValid now lease_s = Keeps-check _ _ λ canonical _. Keeps-check _ _ λ _ _.
      Keeps-read _ _ λ _ _. Keeps-check _ _ λ _ _.
        Keeps-bind _ _ (Keeps-modify _ (cleanup-LocksAreValid canonical (some now))) λ _.
          Keeps-read _ _ λ s v. Keeps-check _ _ λ state held. Keeps-check _ _ λ (owner, old) found.
            Keeps-modify _ λ t w. set_lock-LocksAreValid canonical _ t w (
              renewed-IsValidLock lock_id (owner, now + lease_s) state
                (v.at_path canonical state (or_error_ok _ _ held))
                (known_of_found lock_id state.holders _ found))

  pub release_lock-LocksAreValid :
      (now : Option ℕ) → Keeps LocksAreValid (release_lock path lock_id now)
  unfolding release_lock
  release_lock-LocksAreValid now = Keeps-check _ _ λ canonical _. Keeps-read _ _ λ _ _.
      Keeps-check _ _ λ _ _.
        Keeps-bind _ _ (Keeps-modify _ (cleanup-LocksAreValid canonical now))
          λ _. Keeps-read _ _ λ s v. released canonical _ (v.at_path canonical)
    where
      released :
          (canonical : Text) (held : Option LockState)
          → ((state : LockState) → held ≡ some state → IsValidLock state)
          → Keeps LocksAreValid (release_held canonical lock_id now held)
      released canonical none h = unfold release_held in Keeps-lift _
      released canonical (some state) h =
          unfold release_held in
          Keeps-check _ _ λ _ _. Keeps-modify _ λ t w.
            keep_lock-LocksAreValid canonical _ t w λ x.
              le_trans (Dict.length-erase-le lock_id state.holders) ((h state refl).one_writer x)
