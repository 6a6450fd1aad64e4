-- ===== src/Tests/Uploads.antt =====
-- Uploads and locks at concrete trees, and their theorems there.
use proyecto1_sd.Base.Dict
use proyecto1_sd.Base.{List, Text, [], codes, every, false, if◌then◌else◌, join, list_eq, nat_eq}
use proyecto1_sd.Base.{none, not_a_directory, ok, refl, some, split, strip, true, ℕ, ◌++◌, ◌+◌}
use proyecto1_sd.Base.{◌==◌, ◌>>=◌, ◌∷◌, ◌≡◌, ◌⊎◌}
use proyecto1_sd.Tests.{alice, draft_path, home, notes_path}
use proyecto1_sd.Tree.Data.{BlockRecord, FileNode, LockMode, LockState, committed, exclusive}
use proyecto1_sd.Tree.Data.{pending, shared}
use proyecto1_sd.Tree.FilePath.{canonical_path, path_parts}
use proyecto1_sd.Tree.Locks.{acquire_lock, cleanup_expired_locks, lock_mode}
use proyecto1_sd.Tree.Locks.Grants.{acquire_lock_lem}
use proyecto1_sd.Tree.Locks.Laws.{live_holders}
use proyecto1_sd.Tree.Lookup.{get_committed_file, get_pending_file}
use proyecto1_sd.Tree.Nodes.{get_child, get_node, put_child, walk_to_parent}
use proyecto1_sd.Tree.Nodes.View.{file_info, look}
use proyecto1_sd.Tree.Perms.{allows, owner_or_admin}
use proyecto1_sd.Tree.Uploads.{begin_upload, complete_upload, confirm_block, confirm_in}
use proyecto1_sd.Tree.Uploads.{walk_or_create}
use proyecto1_sd.Tree.Uploads.Atomic.{begin_upload_error}
use proyecto1_sd.Tree.Uploads.Created.{Takes, begin_upload_lem, fill, is_prefix}
use proyecto1_sd.Tree.Uploads.Laws.{ConfirmsFirst, complete_upload_lem, confirm_block_lem}
use proyecto1_sd.Tree.Uploads.Leases.{IsLease, IsNewFile}

abbrev placements : List (Text × List Text)
placements = (codes "b7", codes "d1" ∷ []) ∷ []

abbrev deep_path : Text
deep_path = codes "/home/new/file"

-- The directory on the way is created.
begin_upload_example :
    (dirs : List Text) × (name : Text) × (f : FileNode) × (path_parts deep_path
      ≡ ok (dirs ++ name ∷ []))
    × (placements ≡ placements)
    × IsNewFile placements (some 50) (some 30) (some 4) (some alice) f
    × Takes (some 50) (look (dirs ++ name ∷ []) home.root) []
    × ((q : List Text)
        → look q
            (begin_upload deep_path placements
              (some 50)
              (some 30)
              (some 4)
              (some alice)
              home).1.root
          ≡ (if q == dirs ++ name ∷ []
              then some (file_info f)
              else fill (is_prefix q dirs) (some alice) (look q home.root)))
    × ((begin_upload deep_path placements (some 50) (some 30) (some 4) (some alice) home).1
        ≡ record home {
          root =
              (begin_upload deep_path placements
                (some 50)
                (some 30)
                (some 4)
                (some alice)
                home).1.root;
        })
unfolding begin_upload walk_or_create put_child ◌>>=◌ path_parts split strip join list_eq nat_eq
    walk_to_parent get_child allows
begin_upload_example =
    begin_upload_lem deep_path placements (some 50) (some 30) (some 4) (some alice) home placements
      [] refl

-- A file stands on the way.
begin_upload_error_example :
    (begin_upload
      (codes "/home/notes/x")
      placements
      (some 50)
      (some 30)
      (some 4)
      (some alice)
      home).1
    ≡ home
unfolding begin_upload walk_or_create put_child ◌>>=◌ path_parts split strip join list_eq nat_eq
    walk_to_parent get_child allows
begin_upload_error_example =
    begin_upload_error (codes "/home/notes/x") placements (some 50) (some 30) (some 4) (some alice)
      home not_a_directory refl

complete_upload_example :
    (names : List Text) × (f : FileNode) × (path_parts draft_path ≡ ok names)
    × (look names home.root ≡ some (file_info f))
    × (f.state ≡ pending)
    × (owner_or_admin f.own (some alice) ≡ true)
    × (every (λ (b : BlockRecord). b.confirmed) f.blocks ≡ true)
    × ((q : List Text)
        → look q (complete_upload draft_path (some alice) home).1.root ≡ (
            if q == names
            then some (file_info (record f { state = committed }))
            else look q home.root))
    × ((complete_upload draft_path (some alice) home).1
        ≡ record home { root = (complete_upload draft_path (some alice) home).1.root })
unfolding complete_upload get_pending_file get_node owner_or_admin ◌>>=◌ path_parts split strip join
    list_eq nat_eq walk_to_parent get_child allows
complete_upload_example = complete_upload_lem draft_path (some alice) home refl

confirm_block_example :
    let after =
      (confirm_block draft_path
        (codes "b3")
        (codes "z")
        4
        (some 20)
        (some 30)
        (some alice)
        home).1 in
    (names : List Text) × (f : FileNode) × (blocks : List BlockRecord) × (expires_at : ℕ)
    × (path_parts draft_path ≡ ok names)
    × (look names home.root ≡ some (file_info f))
    × (f.state ≡ pending)
    × (owner_or_admin f.own (some alice) ≡ true)
    × ConfirmsFirst (codes "b3") (codes "z") 4 f.blocks blocks
    × IsLease (some 20) (some 30) f.lease_expires_at expires_at
    × ((q : List Text)
        → look q after.root ≡ (
            if q == names
            then some (file_info (record f { blocks = blocks; lease_expires_at = expires_at }))
            else look q home.root))
    × (after ≡ record home { root = after.root })
unfolding confirm_block confirm_in get_pending_file get_node owner_or_admin ◌>>=◌ path_parts split
    strip join list_eq nat_eq walk_to_parent get_child allows
confirm_block_example =
    confirm_block_lem draft_path (codes "b3") (codes "z") 4 (some 20) (some 30) (some alice) home
      refl

-- A reader takes the lock when the writer's lease has run out.
acquire_lock_example :
    (canonical : Text) × (kind : LockMode) × (canonical_path notes_path ≡ ok canonical)
    × (((codes "r" ≡ codes "r") × (kind ≡ shared)) ⊎ ((codes "r" ≡ codes "w") × (kind ≡ exclusive)))
    × (Dict.lookup canonical
          (acquire_lock notes_path (codes "M") (codes "bob") (codes "r") 200 30 none home).1.locks
        ≡ some (record {
          mode = kind;
          holders =
              Dict.insert (codes "M") ((codes "bob"), 200 + 30) (live_holders canonical 200 home);
        }))
    × ((Dict.is_nonempty (live_holders canonical 200 home) ≡ false)
        ⊎ ((kind ≡ shared)
            × (state : LockState) × (Dict.lookup canonical home.locks ≡ some state)
            × (state.mode ≡ shared)))
    × ((other : Text)
        → Dict.lookup other
            (acquire_lock notes_path (codes "M") (codes "bob") (codes "r") 200 30 none home).1.locks
          ≡ (if other == canonical
              then Dict.lookup canonical
                  (acquire_lock notes_path
                    (codes "M")
                    (codes "bob")
                    (codes "r")
                    200
                    30
                    none
                    home).1.locks
              else Dict.lookup other home.locks))
    × ((acquire_lock notes_path (codes "M") (codes "bob") (codes "r") 200 30 none home).1
        ≡ record home {
          locks =
              (acquire_lock notes_path
                (codes "M")
                (codes "bob")
                (codes "r")
                200
                30
                none
                home).1.locks;
        })
unfolding acquire_lock lock_mode canonical_path get_committed_file get_node cleanup_expired_locks
    Dict.lookup Dict.keep_values Dict.erase ◌>>=◌ path_parts split strip join list_eq nat_eq
    walk_to_parent get_child allows
acquire_lock_example =
    acquire_lock_lem notes_path (codes "M") (codes "bob") (codes "r") 200 30 none home refl
