-- ===== src/DataNode.antt =====
-- dfsha/data_node/servicer.py: the calls that a data node serves, in a cluster of data nodes that call
-- each other by address. What is random, the clock and the HMAC are arguments.
pub mod Blocks
pub mod Pipeline
pub mod Replicas
pub mod Laws
pub mod Failures
use proyecto1_sd.Base.Dict
use proyecto1_sd.Base.{Bool, Bytes, Error, List, Option, Result, Rpc, RpcError, Status, Text, []}
use proyecto1_sd.Base.{abort, aborted, access_denied, auth_error, block_corrupted, block_not_found}
use proyecto1_sd.Base.{codes, conflict, data_loss, eqb, err, false, if◌then◌else◌, internal}
use proyecto1_sd.Base.{invalid_argument, length, list_eq, map, nat_eq, none, not_found, ok}
use proyecto1_sd.Base.{permission_denied, response, rpc_failed, some, true, unauthenticated}
use proyecto1_sd.Base.{unavailable, unknown, ℕ, ◌&&◌, ◌==◌, ◌∷◌}
use proyecto1_sd.Base.Dict.{Dict}
use proyecto1_sd.BlockStore.{Crypto, Writing, is_block_id, pack_header, receive}
use proyecto1_sd.BlockStore.Disk.{Disk, delete_block, write_block}
use proyecto1_sd.Capability.{verify_block, verify_internal}
use proyecto1_sd.Tree.Data.{pending}

pub record DataNode : Type 0 where
  pub disk : Disk
  pub encryption_key : Bytes
  pub capability_key : Option Bytes

-- The data nodes that answer, by address.
abbrev pub Network : Type 0
Network = Dict Text DataNode

-- What a call does not choose: the clock and the ticks in a second of it, what each node draws at
-- random for a file that it writes, and whether its pool had not begun to forward yet when the local
-- write failed.
pub record Surroundings : Type 0 where
  pub crypto : Crypto
  pub hexdigest : Bytes → Text → Text
  pub second : ℕ
  pub now : ℕ
  pub uuid : Text → Text
  pub prefix : Text → Bytes
  pub cancels : Text → Bool

abbrev pub chunk_bytes : ℕ
chunk_bytes = 1048576

-- `_ERROR_STATUS_MAP` and `_abort_on_domain_error`
unfoldable pub status_of_error : Error → Status
status_of_error block_not_found = not_found
status_of_error block_corrupted = data_loss
status_of_error conflict = aborted
status_of_error access_denied = permission_denied
status_of_error auth_error = unauthenticated
status_of_error e = unknown

abbrev pub abort_on_domain_error : Error → RpcError
abort_on_domain_error e = record { code = status_of_error e; domain = some e }

-- `_require_block` with the capability that came in the metadata: what is forwarded, or the error.
unfoldable pub require_block : Surroundings → DataNode → Text → Text → Text → Rpc Text
require_block env n capability id op = elim n.capability_key [
  | none ↦ response []
  | some key ↦ elim (verify_block env.hexdigest env.second key capability id op env.now) [
    | err e ↦ rpc_failed (abort_on_domain_error access_denied)
    | ok _ ↦ response capability
  ]
]

unfoldable pub require_internal : Surroundings → DataNode → Text → Text → Rpc (Unit {0})
require_internal env n capability op = elim n.capability_key [
  | none ↦ response tt
  | some key ↦ elim (verify_internal env.hexdigest env.second key capability op env.now) [
    | err e ↦ rpc_failed (abort_on_domain_error access_denied)
    | ok _ ↦ response tt
  ]
]

-- `WriteBlock` up to the local write: the node, and the capability that it forwards.
unfoldable pub admit_write : Surroundings → Text → Text → Text → Network → Rpc (DataNode × Text)
admit_write env capability a id net = elim (Dict.lookup a net) [
  | none ↦ rpc_failed (abort unavailable)
  | some n ↦ elim (require_block env n capability id (codes "write")) [
    | rpc_failed e ↦ rpc_failed e
    | response forward ↦
        if is_block_id id
        then response (n, forward)
        else rpc_failed (abort_on_domain_error block_not_found)
  ]
]

-- The chunks that `write_block` took before it raised, the last one included.
unfoldable pub taken_chunks : Crypto → Bytes → Text → Bytes → List Bytes → Writing → List Bytes
taken_chunks c key id prefix [] w = []
taken_chunks c key id prefix (x ∷ chunks) w = elim (receive c key id prefix x w) [
  | err e ↦ x ∷ []
  | ok v ↦ x ∷ taken_chunks c key id prefix chunks v
]

-- What `tee` puts in the queue, and how the stream that is forwarded ends. The sentinel ends it well
-- if `tee` was begun. If `write_block` raised before, the next node waits until the deadline.
unfoldable pub forwarded :
    Crypto → Bytes → Text → Bytes → List Bytes → Result (Text × ℕ) → List Bytes × Result (Unit {0})
forwarded c key id prefix chunks (ok written) = (chunks, ok tt)
forwarded c key id prefix chunks (err e) =
    if eqb (length key) 32
    then (
      taken_chunks c key id prefix chunks
          (record { part = pack_header prefix; chunk_count = 0; hashed = []; pending = [] }),
      ok tt,
    )
    else ([], err internal)

-- `_discard_local`
unfoldable pub discard_local : Crypto → Text → Text → Network → Network
discard_local c a id net = elim (Dict.lookup a net) [
  | none ↦ net
  | some n ↦ Dict.insert a (record n { disk = (delete_block c n.encryption_key id n.disk).1 }) net
]

-- The end of `_write_and_forward`: the local write, the answer of the next node, the network.
unfoldable pub settle :
    Crypto → Text → Text → Result (Text × ℕ) → Rpc (Text × ℕ) → Network → Rpc (Text × ℕ) × Network
settle c a id (err e) answer net = (rpc_failed (abort unknown), net)
settle c a id (ok written) (rpc_failed e) net =
    (rpc_failed (abort unavailable), discard_local c a id net)
settle c a id (ok written) (response downstream) net =
    if downstream.0 == written.0
    then (response written, net)
    else (rpc_failed (abort data_loss), discard_local c a id net)

-- `block_store.write_block` at a node.
abbrev pub local_write :
    Surroundings
    → Text
    → DataNode
    → Text
    → List Bytes
    → Result (Unit {0})
    → Network
    → Result (Text × ℕ) × Network
local_write env a n id chunks how_ended net =
    let (result, disk) =
      write_block env.crypto n.encryption_key id (env.uuid a) (env.prefix a) env.now chunks
        how_ended n.disk in
    (result, Dict.insert a (record n { disk = disk }) net)

abbrev pub unless_raised : Result (Text × ℕ) → Rpc (Text × ℕ)
unless_raised (ok written) = response written
unless_raised (err e) = rpc_failed (abort unknown)

abbrev pub is_raised : Result (Text × ℕ) → Bool
is_raised (ok written) = false
is_raised (err e) = true

-- `WriteBlock` behind its header, along the nodes of `downstream`. Each node works on its own disk.
unfoldable pub write_pipeline :
    Surroundings
    → Text
    → Text
    → List Text
    → Text
    → List Bytes
    → Result (Unit {0})
    → Network
    → Rpc (Text × ℕ) × Network
write_pipeline env capability a [] id chunks how_ended net =
    elim (admit_write env capability a id net) [
      | rpc_failed e ↦ (rpc_failed e, net)
      | response (n, forward) ↦
          let (result, net') = local_write env a n id chunks how_ended net in
          (unless_raised result, net')
    ]
write_pipeline env capability a (b ∷ rest) id chunks how_ended net =
    elim (admit_write env capability a id net) [
      | rpc_failed e ↦ (rpc_failed e, net)
      | response (n, forward) ↦
          let (result, net') = local_write env a n id chunks how_ended net in
          let (sent, ending) =
            forwarded env.crypto n.encryption_key id (env.prefix a) chunks result in
          let (answer, net'') = write_pipeline env forward b rest id sent ending net' in
          if env.cancels a && is_raised result
          then (rpc_failed (abort unknown), net')
          else settle env.crypto a id result answer net''
    ]

-- The messages of the stream, and the handler from its first one.
pub data WriteBlockChunk : Type 0 where
  header_message : Text → List Text → WriteBlockChunk
  data_message : Bytes → WriteBlockChunk

-- `msg.data`
abbrev pub data_of : WriteBlockChunk → Bytes
data_of (header_message id downstream) = []
data_of (data_message bytes) = bytes

unfoldable pub serve_write_block :
    Surroundings
    → Text
    → Text
    → List WriteBlockChunk
    → Result (Unit {0})
    → Network
    → Rpc (Text × ℕ) × Network
serve_write_block env capability a [] (ok _) net = (rpc_failed (abort invalid_argument), net)
serve_write_block env capability a [] (err e) net = (rpc_failed (abort unknown), net)
serve_write_block env capability a (data_message bytes ∷ messages) how_ended net =
    (rpc_failed (abort invalid_argument), net)
serve_write_block env capability a (header_message id downstream ∷ messages) how_ended net =
    write_pipeline env capability a downstream id (map data_of messages) how_ended net
