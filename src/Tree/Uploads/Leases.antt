-- ===== src/Tree/Uploads/Leases.antt =====
-- What a new upload and its lease must be.
use proyecto1_sd.Base.{List, Option, Text, [], ap, arith, every, map, none, not, refl, some, suc}
use proyecto1_sd.Base.{true, zero, ℕ, ◌+◌, ◌<◌, ◌∷◌, ◌≡◌}
use proyecto1_sd.Tree.Data.{BlockRecord, Caller, FileNode, default_owner, file_mode, pending}
use proyecto1_sd.Tree.Perms.{new_ownership}
use proyecto1_sd.Tree.Uploads.{lease_end, new_block, new_file, number_or_zero, renewed_lease}

-- When a lease ends: with a clock and a lease that is not zero at their sum, else as it did otherwise.
pub data IsLease (now lease_s : Option ℕ) (otherwise expires_at : ℕ) : Type 0 where
  is_sum :
      (t l : ℕ)
      → now ≡ some t
      → lease_s ≡ some l
      → 0 < l
      → expires_at ≡ t + l
      → IsLease now lease_s otherwise expires_at
  without_clock : now ≡ none → expires_at ≡ otherwise → IsLease now lease_s otherwise expires_at
  without_lease : lease_s ≡ none → expires_at ≡ otherwise → IsLease now lease_s otherwise expires_at
  lease_of_zero :
      lease_s ≡ some 0 → expires_at ≡ otherwise → IsLease now lease_s otherwise expires_at

pub lease_end-IsLease : (now lease_s : Option ℕ) → IsLease now lease_s 0 (lease_end now lease_s)
lease_end-IsLease none lease_s = without_clock refl refl
lease_end-IsLease (some t) none = without_lease refl refl
lease_end-IsLease (some t) (some zero) = lease_of_zero refl refl
lease_end-IsLease (some t) (some (suc l)) = is_sum t (suc l) refl refl (omega arith) refl

pub renewed_lease-IsLease :
    (old : ℕ) (now lease_s : Option ℕ) → IsLease now lease_s old (renewed_lease old now lease_s)
renewed_lease-IsLease old none lease_s = without_clock refl refl
renewed_lease-IsLease old (some t) none = without_lease refl refl
renewed_lease-IsLease old (some t) (some zero) = lease_of_zero refl refl
renewed_lease-IsLease old (some t) (some (suc l)) = is_sum t (suc l) refl refl (omega arith) refl

-- The owner of a new node: its creator, or the default one of an internal command.
pub data IsCreator (caller : Option Caller) (owner : Text) : Type 0 where
  by_user : (c : Caller) → caller ≡ some c → owner ≡ c.username → IsCreator caller owner
  internally : caller ≡ none → owner ≡ default_owner → IsCreator caller owner

new_ownership-IsCreator :
    (caller : Option Caller) (mode : ℕ) → IsCreator caller (new_ownership caller mode).owner
unfolding new_ownership
new_ownership-IsCreator none mode = internally refl refl
new_ownership-IsCreator (some c) mode = by_user c refl refl

mode-new_ownership : (caller : Option Caller) (mode : ℕ) → (new_ownership caller mode).mode ≡ mode
unfolding new_ownership
mode-new_ownership none mode = refl
mode-new_ownership (some c) mode = refl

-- A pending file of the caller's, with the placed blocks, of which none is confirmed.
pub record IsNewFile (placements : List (Text × List Text)) (now lease_s block_size : Option ℕ)
    (caller : Option Caller) (f : FileNode) : Type 0 where
  pub is_pending : f.state ≡ pending
  pub are_placed :
      map (λ (b : BlockRecord). (b.block_id, b.datanode_addresses)) f.blocks ≡ placements
  pub are_unconfirmed : every (λ (b : BlockRecord). not b.confirmed) f.blocks ≡ true
  pub lease : IsLease now lease_s 0 f.lease_expires_at
  pub is_first_version : f.version ≡ 0
  pub is_block_size : f.block_size ≡ elim block_size [ none ↦ 0 | some n ↦ n ]
  pub is_creator : IsCreator caller f.own.owner
  pub is_mode : f.own.mode ≡ 0o644

placed_blocks :
    (placements : List (Text × List Text))
    → map (λ (b : BlockRecord). (b.block_id, b.datanode_addresses)) (map new_block placements)
      ≡ placements
placed_blocks [] = refl
placed_blocks (p ∷ ps) = ap (◌∷◌ p) (placed_blocks ps)

unconfirmed_blocks :
    (placements : List (Text × List Text))
    → every (λ (b : BlockRecord). not b.confirmed) (map new_block placements) ≡ true
unconfirmed_blocks [] = refl
unconfirmed_blocks (p ∷ ps) = unconfirmed_blocks ps

number_lem : (n : Option ℕ) → number_or_zero n ≡ elim n [ none ↦ 0 | some m ↦ m ]
number_lem none = refl
number_lem (some n) = refl

pub new_file-IsNewFile :
    (placements : List (Text × List Text)) (now lease_s block_size : Option ℕ)
    (caller : Option Caller)
    → IsNewFile placements now lease_s block_size caller
        (new_file placements now lease_s block_size caller)
new_file-IsNewFile placements now lease_s block_size caller = record {
  is_pending = refl;
  are_placed = placed_blocks placements;
  are_unconfirmed = unconfirmed_blocks placements;
  lease = lease_end-IsLease now lease_s;
  is_first_version = refl;
  is_block_size = number_lem block_size;
  is_creator = new_ownership-IsCreator caller file_mode;
  is_mode = mode-new_ownership caller file_mode;
}
