-- ===== src/Tree/Uploads/Laws.antt =====
-- What the steps of an upload change.
use proyecto1_sd.Base.{Bool-cases, List, Option, Option-cases, Result-cases, Text, [], arith, every}
use proyecto1_sd.Base.{if◌then◌else◌, inl, inr, list_eq, nat_eq, not, ok, refl, some, true, ℕ, ◌++◌}
use proyecto1_sd.Base.{◌==◌, ◌>>=◌, ◌∷◌, ◌≡◌}
use proyecto1_sd.Tree.Data.{BlockRecord, Caller, ControlTree, FileNode, committed, dir, file}
use proyecto1_sd.Tree.Data.{pending}
use proyecto1_sd.Tree.FilePath.{path_parts}
use proyecto1_sd.Tree.Lookup.{get_pending_file}
use proyecto1_sd.Tree.Nodes.{get_node}
use proyecto1_sd.Tree.Nodes.Update.{look_file}
use proyecto1_sd.Tree.Nodes.View.{file_info, look}
use proyecto1_sd.Tree.Perms.{owner_or_admin}
use proyecto1_sd.Tree.Uploads.{complete_upload, confirm_block, confirm_in, renewed_lease, set_file}
use proyecto1_sd.Tree.Uploads.Leases.{IsLease, renewed_lease-IsLease}

pub pending_file-found :
    (path : Text) (s : ControlTree) (f : FileNode)
    → get_pending_file path s ≡ ok f
    → (names : List Text) × (path_parts path ≡ ok names)
      × (get_node names s.root ≡ some (file f))
      × (f.state ≡ pending)
unfolding get_pending_file
pending_file-found path s f h = elim (Result-cases (path_parts path)) [
  | inr (e, p) ↦ ground arith
  | inl (names, p) ↦ elim (Option-cases (get_node names s.root)) [
    | inl n ↦ ground arith
    | inr (dir o es, n) ↦ ground arith
    | inr (file g, n) ↦ (names, p, ground arith, ground arith)
  ]
]

-- What a successful `complete_upload` has found, and what it returns.
record Completed (path : Text) (caller : Option Caller) (s : ControlTree) : Type 0 where
  names : List Text
  before : FileNode
  is_path : path_parts path ≡ ok names
  found : get_node names s.root ≡ some (file before)
  was_pending : before.state ≡ pending
  owned : owner_or_admin before.own caller ≡ true
  all_confirmed : every (λ (b : BlockRecord). b.confirmed) before.blocks ≡ true
  left : (complete_upload path caller s).1 ≡ set_file names (record before { state = committed }) s

complete_upload_inv :
    (path : Text) (caller : Option Caller) (s : ControlTree)
    → (complete_upload path caller s).0 ≡ ok tt
    → Completed path caller s
unfolding complete_upload ◌>>=◌
complete_upload_inv path caller s h = elim (Result-cases (get_pending_file path s)) [
  | inr (e, p) ↦ ground arith
  | inl (f, p) ↦
      let (parts_of, is_path, found, was_pending) = pending_file-found path s f p in
      record {
        names = parts_of;
        before = f;
        is_path = is_path;
        found = found;
        was_pending = was_pending;
        owned = ground arith;
        all_confirmed = ground arith;
        left = ground arith;
      }
]

-- A successful `complete_upload` commits a pending upload of the caller's (of anybody's for an
-- admin or for nobody) of which every block is confirmed. The file keeps its blocks and all else,
-- and no other path changes, nor does any lock, reservation or user.
pub complete_upload_lem :
    (path : Text) (caller : Option Caller) (s : ControlTree)
    → (complete_upload path caller s).0 ≡ ok tt
    → (names : List Text) × (f : FileNode) × (path_parts path ≡ ok names)
      × (look names s.root ≡ some (file_info f))
      × (f.state ≡ pending)
      × (owner_or_admin f.own caller ≡ true)
      × (every (λ (b : BlockRecord). b.confirmed) f.blocks ≡ true)
      × ((q : List Text)
          → look q (complete_upload path caller s).1.root ≡ (
              if q == names
              then some (file_info (record f { state = committed }))
              else look q s.root))
      × ((complete_upload path caller s).1
          ≡ record s { root = (complete_upload path caller s).1.root })
complete_upload_lem path caller s h =
    let m = complete_upload_inv path caller s h in
    let g : FileNode = record (m.before) { state = committed } in
    (
      m.names,
      m.before,
      m.is_path,
      rw m.found refl,
      m.was_pending,
      m.owned,
      m.all_confirmed,
      λ q. rw m.left (look_file m.names m.before g (λ _. file g) s.root m.found refl q),
      rw m.left refl,
    )

-- The first block of the list with the id becomes the confirmed one, and the others stay.
abbrev pub confirmed_with : BlockRecord → Text → ℕ → BlockRecord
confirmed_with b checksum size = record b {
  checksum = checksum;
  size_bytes = size;
  confirmed = true;
}

pub record ConfirmsFirst (block_id checksum : Text) (size : ℕ) (bs bs' : List BlockRecord)
    : Type 0 where
  pub before : List BlockRecord
  pub block : BlockRecord
  pub behind : List BlockRecord
  pub is_list : bs ≡ before ++ block ∷ behind
  pub is_result : bs' ≡ before ++ confirmed_with block checksum size ∷ behind
  pub is_id : block.block_id ≡ block_id
  pub is_first : every (λ (b : BlockRecord). not (b.block_id == block_id)) before ≡ true

confirm_in-ConfirmsFirst :
    (block_id checksum : Text) (size : ℕ) (bs bs' : List BlockRecord)
    → confirm_in block_id checksum size bs ≡ some bs'
    → ConfirmsFirst block_id checksum size bs bs'
unfolding confirm_in
confirm_in-ConfirmsFirst block_id checksum size [] bs' h = absurd (ground arith)
confirm_in-ConfirmsFirst block_id checksum size (b ∷ bs) bs' h =
    elim (Bool-cases (b.block_id == block_id)) [
      | inl same ↦ record {
        before = [];
        block = b;
        behind = bs;
        is_list = refl;
        is_result = ground arith;
        is_id = ground arith;
        is_first = refl;
      }
      | inr other ↦ elim (Option-cases (confirm_in block_id checksum size bs)) [
        | inl e ↦ absurd (ground arith)
        | inr (bs'', e) ↦
            let c = confirm_in-ConfirmsFirst block_id checksum size bs bs'' e in
            record {
              before = b ∷ c.before;
              block = c.block;
              behind = c.behind;
              is_list = ground (arith, c.is_list);
              is_result = ground (arith, c.is_result);
              is_id = c.is_id;
              is_first = ground (arith, c.is_first);
            }
      ]
    ]

record BlockConfirmed (path block_id checksum : Text) (size : ℕ) (now lease_s : Option ℕ)
    (caller : Option Caller) (s : ControlTree) : Type 0 where
  names : List Text
  before : FileNode
  blocks : List BlockRecord
  is_path : path_parts path ≡ ok names
  found : get_node names s.root ≡ some (file before)
  was_pending : before.state ≡ pending
  owned : owner_or_admin before.own caller ≡ true
  confirms : confirm_in block_id checksum size before.blocks ≡ some blocks
  left :
      (confirm_block path block_id checksum size now lease_s caller s).1
      ≡ set_file names
          (record before {
            blocks = blocks;
            lease_expires_at = renewed_lease before.lease_expires_at now lease_s;
          })
          s

confirm_block_inv :
    (path block_id checksum : Text) (size : ℕ) (now lease_s : Option ℕ) (caller : Option Caller)
    (s : ControlTree)
    → (confirm_block path block_id checksum size now lease_s caller s).0 ≡ ok tt
    → BlockConfirmed path block_id checksum size now lease_s caller s
unfolding confirm_block ◌>>=◌
confirm_block_inv path block_id checksum size now lease_s caller s h =
    elim (Result-cases (get_pending_file path s)) [
      | inr (e, p) ↦ ground arith
      | inl (f, p) ↦ elim (Option-cases (confirm_in block_id checksum size f.blocks)) [
        | inl c ↦ ground arith
        | inr (bs, c) ↦
            let (parts_of, is_path, found, was_pending) = pending_file-found path s f p in
            record {
              names = parts_of;
              before = f;
              blocks = bs;
              is_path = is_path;
              found = found;
              was_pending = was_pending;
              owned = ground arith;
              confirms = c;
              left = ground arith;
            }
      ]
    ]

-- A successful `confirm_block` confirms one block of a pending upload of the caller's, the first
-- with the id. If it came with a clock and a lease that is not zero, the lease of the upload ends at
-- their sum; else it stays. No other block, path, lock, reservation or user changes.
pub confirm_block_lem :
    (path block_id checksum : Text) (size : ℕ) (now lease_s : Option ℕ) (caller : Option Caller)
    (s : ControlTree)
    → (confirm_block path block_id checksum size now lease_s caller s).0 ≡ ok tt
    → let after = (confirm_block path block_id checksum size now lease_s caller s).1 in
      (names : List Text) × (f : FileNode) × (blocks : List BlockRecord) × (expires_at : ℕ)
      × (path_parts path ≡ ok names)
      × (look names s.root ≡ some (file_info f))
      × (f.state ≡ pending)
      × (owner_or_admin f.own caller ≡ true)
      × ConfirmsFirst block_id checksum size f.blocks blocks
      × IsLease now lease_s f.lease_expires_at expires_at
      × ((q : List Text)
          → look q after.root ≡ (
              if q == names
              then some (file_info (record f { blocks = blocks; lease_expires_at = expires_at }))
              else look q s.root))
      × (after ≡ record s { root = after.root })
confirm_block_lem path block_id checksum size now lease_s caller s h =
    let m = confirm_block_inv path block_id checksum size now lease_s caller s h in
    (
      m.names,
      m.before,
      m.blocks,
      renewed_lease m.before.lease_expires_at now lease_s,
      m.is_path,
      rw m.found refl,
      m.was_pending,
      m.owned,
      confirm_in-ConfirmsFirst block_id checksum size m.before.blocks m.blocks m.confirms,
      renewed_lease-IsLease m.before.lease_expires_at now lease_s,
      λ q. rw m.left (look_file m.names m.before _ (λ _. file _) s.root m.found refl q),
      rw m.left refl,
    )
