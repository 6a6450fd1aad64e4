-- ===== src/Tree/Locks/Laws.antt =====
-- What a lock request finds and leaves behind.
use proyecto1_sd.Base.Dict
use proyecto1_sd.Base.{Bool-cases, Option, Option-cases, Text, [], arith, false, if◌then◌else◌, inl}
use proyecto1_sd.Base.{inr, list_eq, ltb, nat_eq, none, refl, some, true, ℕ, ◌==◌, ◌∷◌, ◌≡◌, ◌≢◌}
use proyecto1_sd.Base.Dict.{Dict}
use proyecto1_sd.Tree.Data.{ControlTree, LockState}
use proyecto1_sd.Tree.Locks.{cleanup_expired_locks, keep_lock, unexpired}

-- The holders of a path, and those whose lease runs on.
abbrev pub holders_of : Option LockState → Dict Text (Text × ℕ)
holders_of none = []
holders_of (some state) = state.holders

abbrev pub live_holders : Text → ℕ → ControlTree → Dict Text (Text × ℕ)
live_holders path now s =
    Dict.keep_values (λ (holder : Text × ℕ). ltb now holder.1)
      (holders_of (Dict.lookup path s.locks))

pub lookup-keep_lock :
    (j k : Text) (state : LockState) (s : ControlTree)
    → Dict.lookup j (keep_lock k state s).locks ≡ (
        if j == k
        then (if Dict.is_nonempty state.holders then some state else none)
        else Dict.lookup j s.locks)
lookup-keep_lock j k state s = elim (Bool-cases (Dict.is_nonempty state.holders)) [
  | inl e ↦ rw e (Dict.lookup-insert j k state s.locks)
  | inr e ↦ rw e (Dict.lookup-erase j k s.locks)
]

nonempty_eq : (d : Dict Text (Text × ℕ)) → Dict.is_nonempty d ≡ false → [] ≡ d
nonempty_eq [] h = refl
nonempty_eq (x ∷ d) h = cc

-- After the cleanup a path has the holders whose lease runs on, and the mode that it had.
pub holders-cleanup :
    (path : Text) (now : ℕ) (s : ControlTree)
    → holders_of (Dict.lookup path (cleanup_expired_locks path (some now) s).locks)
      ≡ live_holders path now s
unfolding cleanup_expired_locks
holders-cleanup path now s = elim (Option-cases (Dict.lookup path s.locks)) [
  | inl e ↦ unfold Dict.keep_values in ground arith
  | inr (state, e) ↦
      let left = Dict.keep_values (unexpired now) state.holders in
      ground
        (arith, lookup-keep_lock path path (record state { holders = left }) s, nonempty_eq left)
]

pub mode-cleanup :
    (path : Text) (now : ℕ) (s : ControlTree) (state : LockState)
    → Dict.lookup path (cleanup_expired_locks path (some now) s).locks ≡ some state
    → (before : LockState) × (Dict.lookup path s.locks ≡ some before)
      × (state ≡ record before { holders = live_holders path now s })
      × (Dict.is_nonempty state.holders ≡ true)
unfolding cleanup_expired_locks
mode-cleanup path now s state h = elim (Option-cases (Dict.lookup path s.locks)) [
  | inl e ↦ absurd (ground arith)
  | inr (before, e) ↦
      let left = Dict.keep_values (unexpired now) before.holders in
      let l = lookup-keep_lock path path (record before { holders = left }) s in
      (before, e, ground (arith, l), ground (arith, l))
]

pub lookup-cleanup_ne :
    (path other : Text) (now : Option ℕ) (s : ControlTree)
    → other ≢ path
    → Dict.lookup other (cleanup_expired_locks path now s).locks ≡ Dict.lookup other s.locks
unfolding cleanup_expired_locks
lookup-cleanup_ne path other none s ne = refl
lookup-cleanup_ne path other (some now) s ne = elim (Option-cases (Dict.lookup path s.locks)) [
  | inl e ↦ ground arith
  | inr (state, e) ↦
      let left = Dict.keep_values (unexpired now) state.holders in
      ground (arith, lookup-keep_lock other path (record state { holders = left }) s)
]

pub rest-cleanup :
    (path : Text) (now : Option ℕ) (s : ControlTree)
    → cleanup_expired_locks path now s
      ≡ record s { locks = (cleanup_expired_locks path now s).locks }
unfolding cleanup_expired_locks
rest-cleanup path none s = refl
rest-cleanup path (some now) s = ground arith
