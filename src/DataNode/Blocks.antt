-- ===== src/DataNode/Blocks.antt =====
-- dfsha/data_node/servicer.py: `ReadBlock`, `DeleteBlock`, `ReplicateBlock` and `ListStoredBlocks`.
use proyecto1_sd.Base.Dict
use proyecto1_sd.Base.{Bytes, List, Option, Result, Rpc, RpcError, Text, [], abort, access_denied}
use proyecto1_sd.Base.{block_corrupted, block_not_found, codes, deadline_exceeded, err}
use proyecto1_sd.Base.{if◌then◌else◌, invalid_argument, is_negative, list_eq, nat_eq, negsuc, none}
use proyecto1_sd.Base.{ok, permission_denied, pos, response, rpc_failed, some, suc, unavailable}
use proyecto1_sd.Base.{unknown, zero, ℕ, ℤ, ◌||◌}
use proyecto1_sd.BlockStore.{is_block_id}
use proyecto1_sd.BlockStore.Disk.{Listed, delete_block, list_disk_blocks, read_block}
use proyecto1_sd.DataNode.{DataNode, Network, Surroundings, abort_on_domain_error, chunk_bytes}
use proyecto1_sd.DataNode.{require_block, require_internal, write_pipeline}

-- A call that streams: the messages, and how it ends.
abbrev pub Streamed {ℓ} : Type ℓ → Type ℓ
Streamed A = List A × Rpc (Unit {0})

abbrev pub stream_ending : Result (Unit {0}) → Rpc (Unit {0})
stream_ending (ok u) = response tt
stream_ending (err block_not_found) = rpc_failed (abort_on_domain_error block_not_found)
stream_ending (err block_corrupted) = rpc_failed (abort_on_domain_error block_corrupted)
stream_ending (err e) = rpc_failed (abort unknown)

-- `request.length or None`
abbrev pub wanted_length : ℤ → Option ℤ
wanted_length (pos zero) = none
wanted_length (pos (suc n)) = some (pos (suc n))
wanted_length (negsuc n) = some (negsuc n)

unfoldable pub read_at : Surroundings → DataNode → Text → ℤ → ℤ → Streamed Bytes
read_at env n id offset l =
    if is_negative offset || is_negative l
    then ([], rpc_failed (abort invalid_argument))
    else let (ps, ending) =
        read_block env.crypto n.encryption_key id n.disk chunk_bytes offset (wanted_length l) in
      (ps, stream_ending ending)

unfoldable pub serve_read_block :
    Surroundings → Text → Text → Text → ℤ → ℤ → Network → Streamed Bytes
serve_read_block env capability a id offset l net = elim (Dict.lookup a net) [
  | none ↦ ([], rpc_failed (abort unavailable))
  | some n ↦ elim (require_block env n capability id (codes "read")) [
    | rpc_failed e ↦ ([], rpc_failed e)
    | response u ↦ read_at env n id offset l
  ]
]

abbrev pub delete_ending : Result (Unit {0}) → Rpc (Unit {0})
delete_ending (ok u) = response tt
delete_ending (err block_not_found) = rpc_failed (abort_on_domain_error block_not_found)
delete_ending (err e) = rpc_failed (abort unknown)

unfoldable pub serve_delete_block :
    Surroundings → Text → Text → Text → Network → Rpc (Unit {0}) × Network
serve_delete_block env capability a id net = elim (Dict.lookup a net) [
  | none ↦ (rpc_failed (abort unavailable), net)
  | some n ↦ elim (require_block env n capability id (codes "delete")) [
    | rpc_failed e ↦ (rpc_failed e, net)
    | response u ↦
        let (result, disk) = delete_block env.crypto n.encryption_key id n.disk in
        (delete_ending result, Dict.insert a (record n { disk = disk }) net)
  ]
]

-- The answer of the target, as the source passes it on.
abbrev pub replicate_failure : RpcError → RpcError
replicate_failure e = elim e.code [
  | permission_denied ↦ abort_on_domain_error access_denied
  | deadline_exceeded ↦ abort deadline_exceeded
  | _ ↦ abort unavailable
]

abbrev pub replicate_ending : Rpc (Text × ℕ) → Rpc (Text × ℕ)
replicate_ending (response written) = response written
replicate_ending (rpc_failed e) = rpc_failed (replicate_failure e)

-- The copy, from what the source reads: an error before the first chunk answers for the source, a
-- later one breaks the stream to the target.
unfoldable pub copy_to :
    Surroundings
    → Text
    → Text
    → Text
    → List Bytes
    → Result (Unit {0})
    → Network
    → Rpc (Text × ℕ) × Network
copy_to env capability target id [] (err e) net = elim (stream_ending (err e)) [
  | response u ↦ (rpc_failed (abort unknown), net)
  | rpc_failed x ↦ (rpc_failed x, net)
]
copy_to env capability target id ps ending net =
    let (answer, net') = write_pipeline env capability target [] id ps ending net in
    (replicate_ending answer, net')

unfoldable pub serve_replicate_block :
    Surroundings → Text → Text → Text → Text → Text → Network → Rpc (Text × ℕ) × Network
serve_replicate_block env capability target_capability a id target net = elim (Dict.lookup a net) [
  | none ↦ (rpc_failed (abort unavailable), net)
  | some n ↦ elim (require_internal env n capability (codes "replicate")) [
    | rpc_failed e ↦ (rpc_failed e, net)
    | response u ↦ elim (require_block env n target_capability id (codes "write")) [
      | rpc_failed e ↦ (rpc_failed e, net)
      | response forward ↦
          if is_block_id id
          then (let (ps, ending) =
                read_block env.crypto n.encryption_key id n.disk chunk_bytes (pos 0) none in
              copy_to env forward target id ps ending net)
          else (rpc_failed (abort_on_domain_error block_not_found), net)
    ]
  ]
]

unfoldable pub serve_list_stored_blocks : Surroundings → Text → Text → Network → Streamed Listed
serve_list_stored_blocks env capability a net = elim (Dict.lookup a net) [
  | none ↦ ([], rpc_failed (abort unavailable))
  | some n ↦ elim (require_internal env n capability (codes "list")) [
    | rpc_failed e ↦ ([], rpc_failed e)
    | response u ↦
        let (entries, ending) = list_disk_blocks env.crypto n.encryption_key env.now n.disk in
        elim ending [
          | ok u ↦ (entries, response tt)
          | err e ↦ (entries, rpc_failed (abort unknown))
        ]
  ]
]
