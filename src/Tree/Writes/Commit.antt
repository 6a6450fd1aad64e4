-- ===== src/Tree/Writes/Commit.antt =====
-- Copy-on-write: what `commit_write` publishes, and that it does so once for a version.
use proyecto1_sd.Base.Dict
use proyecto1_sd.Base.{Bool, List, Option, Option-cases, Result-cases, Text, [], ap, arith, eq_self}
use proyecto1_sd.Base.{if◌then◌else◌, inl, inr, list_eq, ltb, ltb→lt, nat_eq, none, ok, refl, some}
use proyecto1_sd.Base.{subst, sym, true, ℕ, ◌+◌, ◌<◌, ◌==◌, ◌>>=◌, ◌∙◌, ◌∷◌, ◌≡◌, ◌≢◌, ◌≤◌}
use proyecto1_sd.Base.Dict.{Dict, has}
use proyecto1_sd.Tree.Data.{BlockRecord, Caller, ControlTree, FileNode, LockState, WriteReservation}
use proyecto1_sd.Tree.Data.{committed, exclusive, file, write_bit}
use proyecto1_sd.Tree.FilePath.{canonical_path, path_parts}
use proyecto1_sd.Tree.Locks.{cleanup_expired_locks}
use proyecto1_sd.Tree.Locks.Laws.{live_holders, mode-cleanup, rest-cleanup}
use proyecto1_sd.Tree.Lookup.{committed_file-found, get_committed_file}
use proyecto1_sd.Tree.Nodes.{get_node, modify_node}
use proyecto1_sd.Tree.Nodes.Update.{look_file}
use proyecto1_sd.Tree.Nodes.View.{file_info, info_of, look}
use proyecto1_sd.Tree.Perms.{allows}
use proyecto1_sd.Tree.Writes.{ConfirmedSlot, cleanup_expired_writes, commit_write, confirms}
use proyecto1_sd.Tree.Writes.{holds_exclusive, publish, require_write_lock}
use proyecto1_sd.Tree.Writes.Published.{Published, publish-Published}

-- What a successful `commit_write` has found, and what it returns.
pub record Committed (path write_id lock_id : Text) (base_version : ℕ)
    (confirmed : List ConfirmedSlot) (now : ℕ) (caller : Option Caller) (s : ControlTree)
    : Type 0 where
  pub canonical : Text
  pub names : List Text
  pub before : FileNode
  pub reservation : WriteReservation
  pub is_canonical : canonical_path path ≡ ok canonical
  pub is_path : path_parts canonical ≡ ok names
  pub found : get_node names s.root ≡ some (file before)
  pub was_committed : before.state ≡ committed
  pub allowed : allows before.own caller write_bit ≡ true
  pub reserved :
      Dict.lookup write_id (cleanup_expired_writes (some now) s).writes ≡ some reservation
  pub for_path : reservation.path ≡ canonical
  pub for_lock : reservation.lock_id ≡ lock_id
  pub locked :
      holds_exclusive lock_id (
        Dict.lookup canonical
          (cleanup_expired_locks canonical (some now) (cleanup_expired_writes (some now) s)).locks)
      ≡ true
  pub same_base : base_version ≡ reservation.base_version
  pub same_version : before.version ≡ reservation.base_version
  pub confirms_all : confirms reservation.slots confirmed ≡ true
  pub writes_after :
      (commit_write path write_id lock_id base_version confirmed now caller s).1.writes
      ≡ Dict.erase write_id (cleanup_expired_writes (some now) s).writes
  pub returned :
      (commit_write path write_id lock_id base_version confirmed now caller s).0
      ≡ ok (before.version + 1, (publish reservation.slots confirmed before.blocks).1)
  pub root_after :
      (commit_write path write_id lock_id base_version confirmed now caller s).1.root
      ≡ modify_node names
          (λ _. file (record before {
            blocks = (publish reservation.slots confirmed before.blocks).0;
            version = before.version + 1;
            block_size = reservation.block_size;
          }))
          s.root

pub root-cleanup_expired_writes :
    (now : Option ℕ) (s : ControlTree)
    → cleanup_expired_writes now s ≡ record s { writes = (cleanup_expired_writes now s).writes }
unfolding cleanup_expired_writes
root-cleanup_expired_writes none s = refl
root-cleanup_expired_writes (some now) s = refl

commit_write_inv :
    (path write_id lock_id : Text) (base_version : ℕ) (confirmed : List ConfirmedSlot) (now : ℕ)
    (caller : Option Caller) (s : ControlTree) {v : ℕ} {replaced : List BlockRecord}
    → (commit_write path write_id lock_id base_version confirmed now caller s).0 ≡ ok (v, replaced)
    → Committed path write_id lock_id base_version confirmed now caller s
unfolding commit_write require_write_lock ◌>>=◌
commit_write_inv path write_id lock_id base_version confirmed now caller s h =
    elim (Result-cases (canonical_path path)) [
      | inr (e, p) ↦ absurd (ground arith)
      | inl (canonical, p) ↦ elim (Result-cases (get_committed_file canonical s)) [
        | inr (e, f) ↦ absurd (ground arith)
        | inl (f, q) ↦
            let t = cleanup_expired_writes (some now) s in
            let t_rest = root-cleanup_expired_writes (some now) s in
            let u_rest = rest-cleanup canonical (some now) t in
            elim (Option-cases (Dict.lookup write_id t.writes)) [
              | inl l ↦ absurd (ground arith)
              | inr (r, l) ↦
                  let (names, parts, found, was) = committed_file-found canonical s f q in
                  record {
                    canonical = canonical;
                    names = names;
                    before = f;
                    reservation = r;
                    is_canonical = p;
                    is_path = parts;
                    found = found;
                    was_committed = was;
                    allowed = ground arith;
                    reserved = l;
                    for_path = ground arith;
                    for_lock = ground arith;
                    locked = ground arith;
                    same_base = ground arith;
                    same_version = ground arith;
                    confirms_all = ground arith;
                    writes_after = ground (arith, t_rest, u_rest);
                    returned = ground arith;
                    root_after = ground (arith, t_rest, u_rest);
                  }
            ]
      ]
    ]

kept_passes {ℓ} :
    {V : Type ℓ} (p : V → Bool) (k : Text) (d : Dict Text V) (v : V)
    → Dict.lookup k (Dict.keep_values p d) ≡ some v
    → p v ≡ true
unfolding Dict.keep_values Dict.lookup
kept_passes p k [] v h = absurd (ground arith)
kept_passes p k ((j, x) ∷ d) v h = ground (arith, kept_passes p k d v)

has_value {ℓ} :
    {V : Type ℓ} (k : Text) (d : Dict Text V)
    → Dict.has k d ≡ true
    → (v : V) × (Dict.lookup k d ≡ some v)
has_value k d h = elim (Option-cases (Dict.lookup k d)) [
  | inl e ↦ absurd (ground arith)
  | inr (v, e) ↦ (v, e)
]

held_exclusive :
    (canonical lock_id : Text) (now : ℕ) (t : ControlTree)
    → holds_exclusive lock_id
        (Dict.lookup canonical (cleanup_expired_locks canonical (some now) t).locks)
      ≡ true
    → (state : LockState) × (Dict.lookup canonical t.locks ≡ some state)
      × (state.mode ≡ exclusive)
      × (Dict.has lock_id (live_holders canonical now t) ≡ true)
held_exclusive canonical lock_id now t h =
    elim (Option-cases
      (Dict.lookup canonical (cleanup_expired_locks canonical (some now) t).locks)) [
        | inl e ↦ absurd (ground arith)
        | inr (left, e) ↦
            let (state, there, same, _) = mode-cleanup canonical now t left e in
            (state, there, ground arith, ground arith)
      ]

module _ (path write_id lock_id : Text) (base_version : ℕ) (confirmed : List ConfirmedSlot)
    (now : ℕ) (caller : Option Caller) (s : ControlTree) {v : ℕ} {replaced : List BlockRecord}
    (done : (commit_write path write_id lock_id base_version confirmed now caller s).0
      ≡ ok (v, replaced)) where
  abbrev written : ControlTree
  written = (commit_write path write_id lock_id base_version confirmed now caller s).1

  inv : Committed path write_id lock_id base_version confirmed now caller s
  inv = commit_write_inv path write_id lock_id base_version confirmed now caller s done

  gone_lem : (publish inv.reservation.slots confirmed inv.before.blocks).1 ≡ replaced
  gone_lem = let m = inv in ground (arith, m.returned)

  reserved_now :
      Dict.lookup write_id
        (Dict.keep_values (λ (x : WriteReservation). ltb now x.lease_expires_at) s.writes)
      ≡ some inv.reservation
  unfolding cleanup_expired_writes
  reserved_now = inv.reserved

  -- The writer's lock that `require_write_lock` has found is held under a lease that runs on.
  holder :
      (state : LockState) × (owner : Text) × (expires_at : ℕ) × (Dict.lookup inv.canonical s.locks
        ≡ some state)
      × (state.mode ≡ exclusive)
      × (Dict.lookup lock_id (live_holders inv.canonical now s) ≡ some (owner, expires_at))
      × (now < expires_at)
  unfolding cleanup_expired_writes
  holder =
      let (state, there, mode, has) =
        held_exclusive inv.canonical lock_id now (cleanup_expired_writes (some now) s) inv.locked in
      let (x, at) = has_value lock_id (live_holders inv.canonical now s) has in
      (
        state,
        x.0,
        x.1,
        there,
        mode,
        at,
        ltb→lt _ _ (kept_passes (λ (h : Text × ℕ). ltb now h.1) lock_id _ x at),
      )

  -- A successful `commit_write` found, at the path that was asked for, a committed file that the caller
  -- may write, of the version that the caller names; a reservation with the identifier of the write for
  -- that path, that lock and that version, whose lease runs on; and that lock as a writer's on that path
  -- whose lease runs on. The confirmed blocks are those of its slots, in order. They take the place of
  -- the blocks at their slots, which are returned, or follow the last one; the version rises by 1, and no
  -- other path changes. The reservation is gone.
  pub commit_write_lem :
      (canonical : Text) × (names : List Text) × (f : FileNode) × (r : WriteReservation)
      × (blocks : List BlockRecord) × (canonical_path path ≡ ok canonical)
      × (path_parts canonical ≡ ok names)
      × (look names s.root ≡ some (file_info f))
      × (f.state ≡ committed)
      × (allows f.own caller write_bit ≡ true)
      × (f.version ≡ base_version)
      × (Dict.lookup write_id
            (Dict.keep_values (λ (x : WriteReservation). ltb now x.lease_expires_at) s.writes)
          ≡ some r)
      × (now < r.lease_expires_at)
      × (r.path ≡ canonical)
      × (r.lock_id ≡ lock_id)
      × (r.base_version ≡ base_version)
      × ((state : LockState) × (owner : Text) × (expires_at : ℕ) × (Dict.lookup canonical s.locks
            ≡ some state)
          × (state.mode ≡ exclusive)
          × (Dict.lookup lock_id (live_holders canonical now s) ≡ some (owner, expires_at))
          × (now < expires_at))
      × (v ≡ base_version + 1)
      × Published r.slots confirmed f.blocks blocks replaced
      × ((q : List Text)
          → look q written.root ≡ (
              if q == names
              then some (
                  file_info (record f {
                    blocks = blocks;
                    version = base_version + 1;
                    block_size = r.block_size;
                  }))
              else look q s.root))
      × (Dict.lookup write_id written.writes ≡ none)
  commit_write_lem =
      let published_blocks = gone_lem in
      let m = inv in
      let f = m.before in
      let same : f.version ≡ base_version = m.same_version ∙ sym m.same_base in
      let reserved = reserved_now in
      (
        m.canonical,
        m.names,
        f,
        m.reservation,
        (publish m.reservation.slots confirmed f.blocks).0,
        m.is_canonical,
        m.is_path,
        rw m.found refl,
        m.was_committed,
        m.allowed,
        same,
        reserved,
        ltb→lt _ _ (
            kept_passes (λ (x : WriteReservation). ltb now x.lease_expires_at) write_id s.writes
              m.reservation reserved),
        m.for_path,
        m.for_lock,
        sym m.same_base,
        holder,
        ground (arith, m.returned, same),
        subst (Published m.reservation.slots confirmed f.blocks _) published_blocks
            (publish-Published m.reservation.slots confirmed f.blocks m.confirms_all),
        λ q. rw (m.root_after, same) (look_file m.names f _ (λ _. file _) s.root m.found refl q),
        rw m.writes_after (Dict.lookup-erase write_id write_id _ ∙ rw eq_self refl),
      )

  -- Directly after a successful `commit_write`, every `commit_write` of the same path that names the
  -- same base version, or an older one, is refused: of the writes that started from one version one
  -- is published.
  pub commit_write_once :
      (write_id' lock_id' : Text) (base_version' : ℕ) (confirmed' : List ConfirmedSlot) (now' : ℕ)
      (caller' : Option Caller) (v' : ℕ) (replaced' : List BlockRecord)
      → base_version' ≤ base_version
      → (commit_write path write_id' lock_id' base_version' confirmed' now' caller' written).0
        ≢ ok (v', replaced')
  commit_write_once write_id' lock_id' base_version' confirmed' now' caller' v' replaced' le again =
      let m = inv in
      let n =
        commit_write_inv path write_id' lock_id' base_version' confirmed' now' caller' written
          again in
      let f = m.before in
      let same_path : m.canonical ≡ n.canonical = cc (m.is_canonical, n.is_canonical) in
      let same_names : m.names ≡ n.names = cc (same_path, m.is_path, n.is_path) in
      let w : FileNode = record f {
        blocks = (publish m.reservation.slots confirmed f.blocks).0;
        version = f.version + 1;
        block_size = m.reservation.block_size;
      } in
      let shown = look_file m.names f w (λ _. file w) s.root m.found refl m.names in
      let read : look m.names written.root ≡ some (file_info n.before) =
        rw same_names (ap info_of n.found) in
      ground
        (arith, read, m.root_after, shown, m.same_base, m.same_version, n.same_base, n.same_version)
