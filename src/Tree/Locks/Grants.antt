-- ===== src/Tree/Locks/Grants.antt =====
-- What `acquire_lock` grants.
use proyecto1_sd.Base.Dict
use proyecto1_sd.Base.{Bool-cases, Option, Text, ap, arith, codes, eq_self, false, if◌then◌else◌}
use proyecto1_sd.Base.{inl, inr, list_eq, nat_eq, none, ok, refl, some, sym, true, ℕ, ◌+◌, ◌==◌}
use proyecto1_sd.Base.{◌∙◌, ◌≡◌, ◌⊎◌}
use proyecto1_sd.Tree.Data.{Caller, ControlTree, LockMode, LockState, exclusive, shared}
use proyecto1_sd.Tree.FilePath.{canonical_path}
use proyecto1_sd.Tree.Locks.{acquire_lock, cleanup_expired_locks, compatible, lock_mode}
use proyecto1_sd.Tree.Locks.{state_or_new}
use proyecto1_sd.Tree.Locks.Exclusion.{Acquired, acquire_lock_inv}
use proyecto1_sd.Tree.Locks.Laws.{holders-cleanup, holders_of, live_holders, lookup-cleanup_ne}
use proyecto1_sd.Tree.Locks.Laws.{mode-cleanup, rest-cleanup}

holders-state_or_new :
    (held : Option LockState) (kind : LockMode) → (state_or_new held kind).holders ≡ holders_of held
holders-state_or_new none kind = refl
holders-state_or_new (some state) kind = refl

lock_mode_inv :
    (mode : Text) (kind : LockMode)
    → lock_mode mode ≡ some kind
    → ((mode ≡ codes "r") × (kind ≡ shared)) ⊎ ((mode ≡ codes "w") × (kind ≡ exclusive))
unfolding lock_mode
lock_mode_inv mode kind h = elim (Bool-cases (mode == codes "r")) [
  | inl e ↦ inl (ground arith, ground arith)
  | inr e ↦ elim (Bool-cases (mode == codes "w")) [
    | inl x ↦ inr (ground arith, ground arith)
    | inr x ↦ absurd (ground arith)
  ]
]

-- A mode that is compatible with a lock is the lock's.
mode-state_or_new :
    (held : Option LockState) (kind : LockMode)
    → compatible held kind ≡ true
    → (state_or_new held kind).mode ≡ kind
mode-state_or_new none kind fits = refl
mode-state_or_new (some state) kind fits = ground arith

module _ (path : Text) (now : ℕ) (s : ControlTree) (kind : LockMode) where
  -- A mode that is compatible with a path whose holders live on is a second reader's.
  all_readers :
      (held : Option LockState)
      → Dict.lookup path (cleanup_expired_locks path (some now) s).locks ≡ held
      → compatible held kind ≡ true
      → (Dict.is_nonempty (live_holders path now s) ≡ false)
        ⊎ ((kind ≡ shared)
            × (state : LockState) × (Dict.lookup path s.locks ≡ some state)
            × (state.mode ≡ shared))
  all_readers none e fits = inl (ground (arith, holders-cleanup path now s))
  all_readers (some state) e fits =
      let (before, was, same, _) = mode-cleanup path now s state e in
      inr (ground arith, before, was, ground arith)

module _ (path lock_id owner mode : Text) (now lease_s : ℕ) (caller : Option Caller)
    (s : ControlTree) {id : Text}
    (granted : (acquire_lock path lock_id owner mode now lease_s caller s).0 ≡ ok id) where
  abbrev after : ControlTree
  after = (acquire_lock path lock_id owner mode now lease_s caller s).1

  facts : Acquired path lock_id owner mode now lease_s caller s
  facts = acquire_lock_inv path lock_id owner mode now lease_s caller s granted

  locks_after :
      (p : Text)
      → Dict.lookup p after.locks ≡ (
          if p == facts.canonical
          then some (record (state_or_new facts.held facts.kind) {
            holders =
                Dict.insert lock_id
                  (owner, now + lease_s)
                  (state_or_new facts.held facts.kind).holders;
          })
          else Dict.lookup p (cleanup_expired_locks facts.canonical (some now) s).locks)
  locks_after p = rw facts.granted (Dict.lookup-insert p facts.canonical _ _)

  live_before : (state_or_new facts.held facts.kind).holders ≡ live_holders facts.canonical now s
  live_before =
      holders-state_or_new facts.held facts.kind
      ∙ ap holders_of (sym facts.is_held)
      ∙ holders-cleanup facts.canonical now s

  mode_after : (state_or_new facts.held facts.kind).mode ≡ facts.kind
  mode_after = mode-state_or_new facts.held facts.kind facts.fits

  -- A granted lock joins the holders whose lease runs on, and the path is locked in the mode that was
  -- asked for, "r" to share it and "w" to exclude others. If there are such holders, that mode and
  -- theirs is the readers'. No other path's lock changes, nor do the files, the reservations or the
  -- users.
  pub acquire_lock_lem :
      (canonical : Text) × (kind : LockMode) × (canonical_path path ≡ ok canonical)
      × (((mode ≡ codes "r") × (kind ≡ shared)) ⊎ ((mode ≡ codes "w") × (kind ≡ exclusive)))
      × (Dict.lookup canonical after.locks
          ≡ some (record {
            mode = kind;
            holders = Dict.insert lock_id (owner, now + lease_s) (live_holders canonical now s);
          }))
      × ((Dict.is_nonempty (live_holders canonical now s) ≡ false)
          ⊎ ((kind ≡ shared)
              × (state : LockState) × (Dict.lookup canonical s.locks ≡ some state)
              × (state.mode ≡ shared)))
      × ((other : Text)
          → Dict.lookup other after.locks ≡ (
              if other == canonical
              then Dict.lookup canonical after.locks
              else Dict.lookup other s.locks))
      × (after ≡ record s { locks = after.locks })
  acquire_lock_lem =
      let c = facts.canonical in
      (
        c,
        facts.kind,
        facts.is_canonical,
        lock_mode_inv mode facts.kind facts.is_kind,
        rw (locks_after c, eq_self c, mode_after, live_before) refl,
        all_readers c now s facts.kind facts.held facts.is_held facts.fits,
        λ other. ground (
          arith,
          locks_after other,
          locks_after c,
          eq_self c,
          lookup-cleanup_ne c other (some now) s,
        ),
        ground (arith, facts.granted, rest-cleanup c (some now) s),
      )
