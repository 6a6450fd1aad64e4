-- ===== src/Tree/Blocks.antt =====
-- dfsha/control_node/tree.py: the blocks that the metadata names (`referenced_blocks`,
-- `iter_blocks`) and `update_block_replicas`.
pub mod Laws
use proyecto1_sd.Base.Dict
use proyecto1_sd.Base.{Exec, List, Result, Text, [], conflict, contains, err, gets, if◌then◌else◌}
use proyecto1_sd.Base.{lift, list_eq, ltb, map, modify, nat_eq, none, ok, path_not_found, some, ℕ}
use proyecto1_sd.Base.{◌++◌, ◌==◌, ◌>>=◌, ◌>>◌, ◌∷◌}
use proyecto1_sd.Base.Dict.{Dict}
use proyecto1_sd.Tree.Data.{BlockRecord, ControlTree, Entries, Node, WriteReservation}
use proyecto1_sd.Tree.Data.{WriteSlotRecord, committed, dir, end, entry, file, pending}
use proyecto1_sd.Tree.FilePath.{path_parts, slash}
use proyecto1_sd.Tree.Lookup.{get_committed_file}
use proyecto1_sd.Tree.Uploads.{set_file}

-- block_id -> the addresses that the metadata assigns to it. A set is a list without repetition.
abbrev pub Refs : Type 0
Refs = Dict Text (List Text)

-- `s.update(xs)`
abbrev pub add_all : List Text → List Text → List Text
add_all xs [] = xs
add_all xs (y ∷ ys) = add_all (if contains xs y then xs else xs ++ y ∷ []) ys

abbrev pub refs_of : Text → Refs → List Text
refs_of block_id refs = elim (Dict.lookup block_id refs) [ none ↦ [] | some xs ↦ xs ]

-- `referenced.setdefault(block_id, set()).update(addresses)`
unfoldable pub add_ref : Text → List Text → Refs → Refs
add_ref block_id addresses refs =
    Dict.insert block_id (add_all (refs_of block_id refs) addresses) refs

unfoldable pub add_blocks : List BlockRecord → Refs → Refs
unfolding add_ref
add_blocks [] refs = refs
add_blocks (b ∷ bs) refs = add_blocks bs (add_ref b.block_id b.datanode_addresses refs)

-- `visit`
unfoldable mutual
  pub visit : Node → Refs → Refs
  visit (dir o es) refs = visit_entries es refs
  visit (file f) refs = add_blocks f.blocks refs

  pub visit_entries : Entries → Refs → Refs
  visit_entries end refs = refs
  visit_entries (entry name n es) refs = visit_entries es (visit n refs)

unfoldable pub add_slots : List WriteSlotRecord → Refs → Refs
unfolding add_ref
add_slots [] refs = refs
add_slots (s ∷ ss) refs = add_slots ss (add_ref s.new_block_id s.new_addresses refs)

unfoldable pub add_writes : ℕ → List (Text × WriteReservation) → Refs → Refs
unfolding add_slots
add_writes now [] refs = refs
add_writes now ((_, r) ∷ ws) refs =
    add_writes now ws (if ltb now r.lease_expires_at then add_slots r.slots refs else refs)

unfoldable pub referenced_blocks : ℕ → ControlTree → Refs
referenced_blocks now s = add_writes now s.writes (visit s.root [])

-- The blocks of the committed files, each with the path of its file.
unfoldable mutual
  pub iter_node : Text → Node → List (Text × BlockRecord)
  iter_node path (dir o es) = iter_entries path es
  iter_node path (file f) = elim f.state [
    | pending ↦ []
    | committed ↦ map (λ (b : BlockRecord). (path, b)) f.blocks
  ]

  pub iter_entries : Text → Entries → List (Text × BlockRecord)
  iter_entries path end = []
  iter_entries path (entry name n es) = iter_node (path ++ slash ∷ name) n ++ iter_entries path es

unfoldable pub iter_blocks : ControlTree → List (Text × BlockRecord)
iter_blocks s = iter_node [] s.root

-- The first block with the id takes the new replicas, if it still has the expected ones.
unfoldable pub replace_replicas :
    Text → List Text → List Text → List BlockRecord → Result (List BlockRecord)
replace_replicas block_id expected new [] = err path_not_found
replace_replicas block_id expected new (b ∷ bs) =
    let rest = replace_replicas block_id expected new bs in
    if b.block_id == block_id
    then if b.datanode_addresses == expected
      then ok (record b { datanode_addresses = new } ∷ bs)
      else err conflict
    else elim rest [ err e ↦ err e | ok bs' ↦ ok (b ∷ bs') ]

unfoldable pub update_block_replicas :
    Text → Text → List Text → List Text → Exec ControlTree (Unit {0})
update_block_replicas path block_id expected new = do
  s ← gets (λ s. s)
  f ← lift (get_committed_file path s)
  blocks ← lift (replace_replicas block_id expected new f.blocks)
  names ← lift (path_parts path)
  modify (set_file names (record f { blocks = blocks }))
