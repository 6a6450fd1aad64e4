-- ===== src/Tests/Writes.antt =====
-- Writes at a concrete tree, and their theorems there.
use proyecto1_sd.Base.Dict
use proyecto1_sd.Base.{List, Text, [], arith, codes, if◌then◌else◌, join, list_eq, ltb, max, nat_eq}
use proyecto1_sd.Base.{none, ok, refl, some, split, strip, suc, sum, true, zero, ℕ, ◌+◌, ◌<◌, ◌==◌}
use proyecto1_sd.Base.{◌>>=◌, ◌∷◌, ◌≡◌, ◌≢◌}
use proyecto1_sd.Tests.{alice, block, home, notes, notes_path}
use proyecto1_sd.Tree.Data.{BlockRecord, ControlTree, FileNode, LockState, WriteReservation}
use proyecto1_sd.Tree.Data.{committed, exclusive, write_bit}
use proyecto1_sd.Tree.FilePath.{canonical_path, path_parts}
use proyecto1_sd.Tree.Locks.{cleanup_expired_locks}
use proyecto1_sd.Tree.Locks.Laws.{live_holders}
use proyecto1_sd.Tree.Lookup.{get_committed_file}
use proyecto1_sd.Tree.Nodes.{get_child, get_node, modify_node, put_child, walk_to_parent}
use proyecto1_sd.Tree.Nodes.View.{file_info, look}
use proyecto1_sd.Tree.Perms.{allows}
use proyecto1_sd.Tree.Writes.{ConfirmedSlot, Proposal, cleanup_expired_writes, commit_write}
use proyecto1_sd.Tree.Writes.{confirms, publish, require_write_lock, sizes_of, zip_slots}
use proyecto1_sd.Tree.Writes.Commit.{commit_write_lem, commit_write_once}
use proyecto1_sd.Tree.Writes.Laws.{publish-IsTiled}
use proyecto1_sd.Tree.Writes.Layout.{IsTiled}
use proyecto1_sd.Tree.Writes.Plan.{plan_write_slots}
use proyecto1_sd.Tree.Writes.Published.{Published}

abbrev confirmed : List ConfirmedSlot
confirmed = record { index = 1; block_id = codes "b9"; checksum = codes "k"; size = 4 } ∷ []

abbrev written : ControlTree
written = (commit_write notes_path (codes "w") (codes "L") 3 confirmed 50 (some alice) home).1

commit_write_example :
    (canonical : Text) × (names : List Text) × (f : FileNode) × (r : WriteReservation)
    × (blocks : List BlockRecord) × (canonical_path notes_path ≡ ok canonical)
    × (path_parts canonical ≡ ok names)
    × (look names home.root ≡ some (file_info f))
    × (f.state ≡ committed)
    × (allows f.own (some alice) write_bit ≡ true)
    × (f.version ≡ 3)
    × (Dict.lookup
          (codes "w")
          (Dict.keep_values (λ (x : WriteReservation). ltb 50 x.lease_expires_at) home.writes)
        ≡ some r)
    × (50 < r.lease_expires_at)
    × (r.path ≡ canonical)
    × (r.lock_id ≡ (codes "L"))
    × (r.base_version ≡ 3)
    × ((state : LockState) × (owner : Text) × (expires_at : ℕ) × (Dict.lookup canonical home.locks
          ≡ some state)
        × (state.mode ≡ exclusive)
        × (Dict.lookup (codes "L") (live_holders canonical 50 home) ≡ some (owner, expires_at))
        × (50 < expires_at))
    × (4 ≡ 3 + 1)
    × Published r.slots confirmed f.blocks blocks (block (codes "b2") 2 ∷ [])
    × ((q : List Text)
        → look q written.root ≡ (
            if q == names
            then some (
                file_info
                  (record f { blocks = blocks; version = 3 + 1; block_size = r.block_size }))
            else look q home.root))
    × (Dict.lookup (codes "w") written.writes ≡ none)
unfolding commit_write require_write_lock cleanup_expired_writes cleanup_expired_locks
    canonical_path get_committed_file get_node confirms publish Dict.lookup Dict.keep_values
    Dict.erase Dict.insert modify_node put_child ◌>>=◌ path_parts split strip join list_eq nat_eq
    walk_to_parent get_child allows
commit_write_example =
    commit_write_lem notes_path (codes "w") (codes "L") 3 confirmed 50 (some alice) home refl

-- A second writer that began at the same version is refused.
commit_write_once_example :
    (commit_write notes_path (codes "w2") (codes "M") 3 confirmed 60 (some alice) written).0
    ≢ ok (4, [])
unfolding commit_write require_write_lock cleanup_expired_writes cleanup_expired_locks
    canonical_path get_committed_file get_node confirms publish Dict.lookup Dict.keep_values
    Dict.erase Dict.insert modify_node put_child ◌>>=◌ path_parts split strip join list_eq nat_eq
    walk_to_parent get_child allows
commit_write_once_example =
    commit_write_once notes_path (codes "w") (codes "L") 3 confirmed 50 (some alice) home refl
      (codes "w2") (codes "M") 3 confirmed 60 (some alice) 4 [] (omega arith)

abbrev proposal : Proposal
proposal = record { index = 1; block_id = codes "b9"; addresses = codes "d1" ∷ [] }

two_blocks : IsTiled 4 6 (4 ∷ 2 ∷ [])
two_blocks zero = refl
two_blocks (suc zero) = refl
two_blocks (suc (suc j)) = ground arith

-- Three bytes at offset 5 of a file of 6 bytes.
publish_example :
    let after =
      sizes_of (publish (zip_slots ((1, 4) ∷ []) (proposal ∷ [])) confirmed notes.blocks).0 in
    let size = max (sum (sizes_of notes.blocks)) (5 + 3) in
    IsTiled 4 size after × (sum after ≡ size)
unfolding plan_write_slots confirms list_eq nat_eq
publish_example =
    publish-IsTiled notes.blocks 4 5 3 ((1, 4) ∷ []) (proposal ∷ []) confirmed two_blocks refl refl
      refl
