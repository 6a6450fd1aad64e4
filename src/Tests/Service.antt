-- ===== src/Tests/Service.antt =====
-- The service and the capabilities at concrete calls, and their theorems there.
use proyecto1_sd.Base.Dict
use proyecto1_sd.Base.{List, Text, [], access_denied, arith, codes, err, if◌then◌else◌}
use proyecto1_sd.Base.{invalid_path, list_eq, ltb, nat_eq, none, ok, permission_denied, refl, some}
use proyecto1_sd.Base.{split, sum, true, unavailable, ℕ, ◌*◌, ◌+◌, ◌<◌, ◌∷◌, ◌≡◌, ◌≤◌}
use proyecto1_sd.BlockStore.{is_block_id}
use proyecto1_sd.Capability.{number_onto, separator, sign, verify_block, verify_internal}
use proyecto1_sd.Capability.Issue.{expiry, issue_block}
use proyecto1_sd.Capability.Issue.Laws.{verify_block-issue_block}
use proyecto1_sd.Capability.Laws.{verify_block_lem, verify_block_once}
use proyecto1_sd.Replicated.{Command, ReplicatedTree, new_replica, replay, run}
use proyecto1_sd.Service.Blocks.{Removal, remove}
use proyecto1_sd.Service.Commit.{Leader, Request, commit, commit_retry, delivered, ended, finished}
use proyecto1_sd.Service.Commit.{raised, reply_lost, reply_of, serve}
use proyecto1_sd.Service.Escapes.{unlock_escapes}
use proyecto1_sd.Service.Keys.{log_key_lem}
use proyecto1_sd.Service.Placement.{block_count, location_sizes, locations, propose, upload-IsTiled}
use proyecto1_sd.Tests.{alice, home, notes_path}
use proyecto1_sd.Tree.FilePath.{canonical_path}
use proyecto1_sd.Tree.Perms.{name_char, valid_name}
use proyecto1_sd.Tree.Writes.{Proposal}
use proyecto1_sd.Tree.Writes.Layout.{IsTiled}

abbrev request : Command
request = Command.make_dir (codes "/a") none

abbrev other : Command
other = Command.make_dir (codes "/b") none

commit_retry_example :
    let first =
      commit (some (codes "alice")) true true reply_lost (codes "1") request new_replica in
    let later = replay ((codes "2", other) ∷ []) first.1 in
    (first.0 ≡ ended unavailable)
    × (commit (some (codes "alice")) true true delivered (codes "1") request later
        ≡ (reply_of (finished (run request new_replica.tree).0), later))
unfolding Dict.lookup
commit_retry_example =
    commit_retry (some (codes "alice")) (codes "1") request request ((codes "2", other) ∷ [])
      new_replica refl refl (omega arith)

log_key_example : ((codes "alice") ≡ (codes "alice")) × ((codes "1") ≡ (codes "1"))
unfolding valid_name name_char
log_key_example = log_key_lem (codes "alice") (codes "alice") (codes "1") (codes "1") refl refl refl

-- Three blocks of at most 4 bytes for 10 bytes, two replicas each.
abbrev nodes : List Text
nodes = codes "d1" ∷ codes "d2" ∷ codes "d3" ∷ []

abbrev three_blocks : List (Text × List Text)
three_blocks =
    (2 ∷ [], codes "d1" ∷ codes "d2" ∷ [])
    ∷ (1 ∷ [], codes "d2" ∷ codes "d3" ∷ [])
    ∷ (0 ∷ [], codes "d3" ∷ codes "d1" ∷ [])
    ∷ []

upload_example :
    IsTiled 4 10 (location_sizes (locations 4 10 three_blocks))
    × (sum (location_sizes (locations 4 10 three_blocks)) ≡ 10)
unfolding propose block_count
upload_example =
    upload-IsTiled 2 1 (λ n. nodes) (λ n. n ∷ []) 0 4 10 three_blocks (omega arith) refl

abbrev removal : Removal
removal = remove notes_path

abbrev at_home : ReplicatedTree
at_home = record new_replica { tree = home }

-- A signature that is no secret, for the tests only.
abbrev digest : List ℕ → Text → Text
digest key payload = codes "0"

abbrev key : List ℕ
key = 1 ∷ 2 ∷ []

abbrev reading : Text
reading = codes "b:read:b1:99.0"

abbrev listing : Text
listing = codes "i:list:99.0"

verify_block_example :
    (payload exp : Text) × (reading ≡ sign digest key payload)
    × (split separator payload ≡ codes "b" ∷ (codes "read") ∷ (codes "b1") ∷ exp ∷ [])
    × (50 < number_onto 0 exp * 4)
unfolding verify_block split list_eq nat_eq
verify_block_example = verify_block_lem digest 4 key reading (codes "b1") (codes "read") 50 refl

verify_block_once_example :
    (verify_block digest 4 key reading (codes "b1") (codes "write") 10 ≡ err access_denied)
    × (verify_internal digest 4 key reading (codes "write") 10 ≡ err access_denied)
unfolding verify_block split list_eq nat_eq
verify_block_once_example =
    verify_block_once digest 4 key reading (codes "b1") (codes "read") 50 refl (codes "b1")
      (codes "write") 10 refl

abbrev some_block : Text
some_block = codes "0123456789abcdef0123456789abcdef"

abbrev issued : Text
issued = sign digest key (codes "b:read:0123456789abcdef0123456789abcdef:1791503601")

-- With four ticks a second, an hour from 1791500000.25 on ends within the second that is named.
verify_block-issue_block_example :
    (expires_at : ℕ) × (7166000001 + 14400 ≤ expires_at * 4)
    × (expires_at * 4 < 7166000001 + 14400 + 4)
    × ((later : ℕ)
        → verify_block digest 4 key issued some_block (codes "read") later
          ≡ (if ltb later (expires_at * 4) then ok tt else err access_denied))
unfolding issue_block is_block_id expiry nat_eq list_eq
verify_block-issue_block_example =
    verify_block-issue_block digest 4 key (λ payload. refl) some_block (codes "read") issued 14400
      7166000001 (omega arith) refl

abbrev planned_slots : List (ℕ × ℕ)
planned_slots = (1, 4) ∷ (2, 2) ∷ []

abbrev proposed : List Proposal
proposed =
    record { index = 1; block_id = 1 ∷ []; addresses = codes "d1" ∷ [] }
    ∷ record { index = 2; block_id = 0 ∷ []; addresses = codes "d2" ∷ [] }
    ∷ []

abbrev leader : Leader
leader = record { now = 200; upload_lease = 600; lock_lease = 30 }

abbrev renewal : Request
renewal = Request.renew_lock (codes "/a/../b") (codes "L")

abbrev unlocking : Request
unlocking = Request.unlock (codes "/a/../b") (codes "L")

unlock_escapes_example :
    ((serve leader (some alice) true true delivered (codes "1") renewal at_home).0
      ≡ ended permission_denied)
    × ((serve leader (some alice) true true delivered (codes "1") unlocking at_home).0
        ≡ raised invalid_path)
unfolding canonical_path split list_eq nat_eq Dict.lookup
unlock_escapes_example =
    unlock_escapes leader (some alice) (codes "1") (codes "/a/../b") (codes "L") at_home refl refl
      refl
