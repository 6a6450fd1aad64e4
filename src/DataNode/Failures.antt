-- ===== src/DataNode/Failures.antt =====
-- dfsha/data_node/servicer.py: failures of the calls, by a pipeline that breaks or a capability
-- that is not accepted.
use proyecto1_sd.Base.Dict
use proyecto1_sd.Base.{Bool, Bool-cases, Bytes, Error, List, Option-cases, Result, Rpc, RpcError}
use proyecto1_sd.Base.{Text, [], access_denied, arith, codes, contains, eq_self, err, false, inl}
use proyecto1_sd.Base.{inr, list_eq, nat_eq, none, ok, permission_denied, refl, response}
use proyecto1_sd.Base.{rpc_failed, some, true, ℕ, ℤ, ◌&&◌, ◌==◌, ◌∙◌, ◌∷◌, ◌≡◌}
use proyecto1_sd.BlockStore.{Crypto, is_block_id}
use proyecto1_sd.BlockStore.Disk.{Disk, delete_block, write_block}
use proyecto1_sd.Capability.{verify_block, verify_internal}
use proyecto1_sd.DataNode.{DataNode, Network, Surroundings, abort_on_domain_error, admit_write}
use proyecto1_sd.DataNode.{discard_local, forwarded, is_raised, local_write, require_block}
use proyecto1_sd.DataNode.{require_internal, settle, status_of_error, write_pipeline}
use proyecto1_sd.DataNode.Blocks.{serve_delete_block, serve_list_stored_blocks, serve_read_block}
use proyecto1_sd.DataNode.Blocks.{serve_replicate_block}
use proyecto1_sd.DataNode.Pipeline.{write_pipeline-frame}

delete_block-gone :
    (c : Crypto) (key : Bytes) (id : Text) (disk : Disk)
    → is_block_id id ≡ true
    → Dict.lookup id (delete_block c key id disk).1 ≡ none
unfolding delete_block
delete_block-gone c key id disk valid = elim (Option-cases (Dict.lookup id disk)) [
  | inl h ↦ rw (delete_block, valid, h) h
  | inr (f, h) ↦ rw (delete_block, valid, h) (Dict.lookup-erase id id disk ∙ rw (eq_self id) refl)
]

admit_valid :
    (env : Surroundings) (capability a id : Text) (net : Network) (x : DataNode × Text)
    → admit_write env capability a id net ≡ response x
    → is_block_id id ≡ true
unfolding admit_write
admit_valid env capability a id net x h = ground arith

never_raised :
    (b : Bool) (r : Result (Text × ℕ)) (w : Text × ℕ) → r ≡ ok w → (b && is_raised r) ≡ false
never_raised true r w h = rw h refl
never_raised false r w h = refl

discard_local-gone :
    (c : Crypto) (a id : Text) (net : Network) (n : DataNode)
    → is_block_id id ≡ true
    → Dict.lookup a net ≡ some n
    → (m : DataNode) × (Dict.lookup a (discard_local c a id net) ≡ some m)
      × (Dict.lookup id m.disk ≡ none)
unfolding discard_local
discard_local-gone c a id net n valid there =
    let m : DataNode = record n { disk = (delete_block c n.encryption_key id n.disk).1 } in
    (
      m,
      rw (discard_local, there) (Dict.lookup-insert a a m net ∙ rw (eq_self a) refl),
      delete_block-gone c n.encryption_key id n.disk valid,
    )

settle_broken :
    (c : Crypto) (a id : Text) (r : Result (Text × ℕ)) (answer : Rpc (Text × ℕ)) (net : Network)
    (w : Text × ℕ) (e : RpcError) (n : DataNode)
    → is_block_id id ≡ true
    → r ≡ ok w
    → Dict.lookup a net ≡ some n
    → (settle c a id r answer net).0 ≡ rpc_failed e
    → ((settle c a id r answer net).1 ≡ discard_local c a id net)
      × ((m : DataNode) × (Dict.lookup a (settle c a id r answer net).1 ≡ some m)
          × (Dict.lookup id m.disk ≡ none))
unfolding settle
settle_broken c a id (err x) answer net w e n valid r there h = absurd (cc)
settle_broken c a id (ok v) (rpc_failed x) net w e n valid r there h =
    (refl, discard_local-gone c a id net n valid there)
settle_broken c a id (ok v) (response d) net w e n valid r there h =
    elim (Bool-cases (d.0 == v.0)) [
      | inl s ↦ absurd (ground arith)
      | inr s ↦ rw s (refl, discard_local-gone c a id net n valid there)
    ]

-- A write that the rest of the pipeline fails leaves no copy at its first node: if the local write
-- returned, and the call still ends with an error, then the node does not keep the block, where the
-- nodes of the pipeline are different and the first forwards.
pub write_pipeline-discards :
    (env : Surroundings) (capability a b : Text) (rest : List Text) (id : Text)
    (chunks : List Bytes) (how_ended : Result (Unit {0})) (net : Network) (n : DataNode) (f : Text)
    (w : Text × ℕ) (e : RpcError)
    → contains (b ∷ rest) a ≡ false
    → admit_write env capability a id net ≡ response (n, f)
    → (local_write env a n id chunks how_ended net).0 ≡ ok w
    → (write_pipeline env capability a (b ∷ rest) id chunks how_ended net).0 ≡ rpc_failed e
    → (m : DataNode) × (Dict.lookup a
          (write_pipeline env capability a (b ∷ rest) id chunks how_ended net).1
        ≡ some m)
      × (Dict.lookup id m.disk ≡ none)
unfolding write_pipeline
write_pipeline-discards env capability a b rest id chunks how_ended net n f w e apart admitted kept
      broken =
    let l = local_write env a n id chunks how_ended net in
    let s = forwarded env.crypto n.encryption_key id (env.prefix a) chunks l.0 in
    let answer = write_pipeline env f b rest id s.0 s.1 l.1 in
    let found_node =
      write_pipeline-frame env a f b rest id s.0 s.1 l.1 apart
      ∙ Dict.lookup-insert a a
          (record n {
            disk =
                (write_block env.crypto n.encryption_key id (env.uuid a) (env.prefix a) env.now
                  chunks how_ended n.disk).1;
          })
          net
      ∙ rw (eq_self a) refl in
    let on = never_raised (env.cancels a) l.0 w kept in
    let (gone, (m, there, empty)) =
      settle_broken env.crypto a id l.0 answer.0 answer.1 w e
        (record n {
          disk =
              (write_block env.crypto n.encryption_key id (env.uuid a) (env.prefix a) env.now chunks
                how_ended n.disk).1;
        })
        (admit_valid env capability a id net (n, f) admitted) kept found_node
        (rw (write_pipeline, admitted, on) at broken) in
    (m, rw (write_pipeline, admitted, on) there, empty)

require_refused :
    (env : Surroundings) (n : DataNode) (capability id op : Text) (key : Bytes) (e : Error)
    → n.capability_key ≡ some key
    → verify_block env.hexdigest env.second key capability id op env.now ≡ err e
    → require_block env n capability id op ≡ rpc_failed (abort_on_domain_error access_denied)
unfolding require_block
require_refused env n capability id op key e keyed denied = rw (require_block, keyed, denied) refl

internal_refused :
    (env : Surroundings) (n : DataNode) (capability op : Text) (key : Bytes) (e : Error)
    → n.capability_key ≡ some key
    → verify_internal env.hexdigest env.second key capability op env.now ≡ err e
    → require_internal env n capability op ≡ rpc_failed (abort_on_domain_error access_denied)
unfolding require_internal
internal_refused env n capability op key e keyed denied = rw (require_internal, keyed, denied) refl

admit_refused :
    (env : Surroundings) (n : DataNode) (capability a id : Text) (net : Network) (x : RpcError)
    → Dict.lookup a net ≡ some n
    → require_block env n capability id (codes "write") ≡ rpc_failed x
    → admit_write env capability a id net ≡ rpc_failed x
unfolding admit_write
admit_refused env n capability a id net x there denied = rw (admit_write, there, denied) refl

pipeline_refused :
    (env : Surroundings) (capability a id : Text) (net : Network) (x : RpcError) (rest : List Text)
    (chunks : List Bytes) (how_ended : Result (Unit {0}))
    → admit_write env capability a id net ≡ rpc_failed x
    → write_pipeline env capability a rest id chunks how_ended net ≡ (rpc_failed x, net)
unfolding write_pipeline
pipeline_refused env capability a id net x [] chunks how_ended h = rw (write_pipeline, h) refl
pipeline_refused env capability a id net x (b ∷ rest) chunks how_ended h =
    rw (write_pipeline, h) refl

-- A call of a data node for a block, or for the list of its blocks, with its arguments.
pub data Call : Type 0 where
  write_call : List Text → List Bytes → Result (Unit {0}) → Call
  read_call : ℤ → ℤ → Call
  delete_call : Call
  replicate_call : Text → Text → Call
  list_call : Call

-- Whether the capability of a call authorises what this call does, and not another one.
abbrev pub authorised : Surroundings → Bytes → Text → Text → Call → Result (Unit {0})
authorised env key capability id (write_call downstream chunks how_ended) =
    verify_block env.hexdigest env.second key capability id (codes "write") env.now
authorised env key capability id (read_call offset l) =
    verify_block env.hexdigest env.second key capability id (codes "read") env.now
authorised env key capability id delete_call =
    verify_block env.hexdigest env.second key capability id (codes "delete") env.now
authorised env key capability id (replicate_call target_capability target) =
    verify_internal env.hexdigest env.second key capability (codes "replicate") env.now
authorised env key capability id list_call =
    verify_internal env.hexdigest env.second key capability (codes "list") env.now

-- The call ends with an error, streams nothing and changes no node.
abbrev pub EndsWith : Surroundings → Text → Text → Text → Network → RpcError → Call → Type 0
EndsWith env capability a id net e (write_call downstream chunks how_ended) =
    write_pipeline env capability a downstream id chunks how_ended net ≡ (rpc_failed e, net)
EndsWith env capability a id net e (read_call offset l) =
    serve_read_block env capability a id offset l net ≡ ([], rpc_failed e)
EndsWith env capability a id net e delete_call =
    serve_delete_block env capability a id net ≡ (rpc_failed e, net)
EndsWith env capability a id net e (replicate_call target_capability target) =
    serve_replicate_block env capability target_capability a id target net ≡ (rpc_failed e, net)
EndsWith env capability a id net e list_call =
    serve_list_stored_blocks env capability a net ≡ ([], rpc_failed e)

-- Without its capability no call touches a block: at a node that has a key, a call whose capability
-- the node does not accept for that very operation (writing, reading or deleting the block, replicating,
-- listing) ends with PERMISSION_DENIED, streams nothing and changes no node, whatever its arguments and
-- whatever else the capability is good for.
pub call_refused :
    (env : Surroundings) (capability a id : Text) (net : Network) (n : DataNode) (key : Bytes)
    (e : Error) (call : Call)
    → Dict.lookup a net ≡ some n
    → n.capability_key ≡ some key
    → authorised env key capability id call ≡ err e
    → EndsWith env capability a id net
        (record { code = permission_denied; domain = some access_denied })
        call
unfolding serve_read_block serve_delete_block serve_replicate_block serve_list_stored_blocks
    status_of_error
call_refused env capability a id net n key e (write_call rest chunks how_ended) there keyed denied =
    pipeline_refused env capability a id net (abort_on_domain_error access_denied) rest chunks
      how_ended
      (admit_refused env n capability a id net (abort_on_domain_error access_denied) there
        (require_refused env n capability id (codes "write") key e keyed denied))
call_refused env capability a id net n key e (read_call offset l) there keyed denied =
    rw
      (
        serve_read_block,
        there,
        require_refused env n capability id (codes "read") key e keyed denied,
      )
      refl
call_refused env capability a id net n key e delete_call there keyed denied =
    rw
      (
        serve_delete_block,
        there,
        require_refused env n capability id (codes "delete") key e keyed denied,
      )
      refl
call_refused env capability a id net n key e (replicate_call target_capability target) there keyed
      denied =
    rw
      (
        serve_replicate_block,
        there,
        internal_refused env n capability (codes "replicate") key e keyed denied,
      )
      refl
call_refused env capability a id net n key e list_call there keyed denied =
    rw
      (
        serve_list_stored_blocks,
        there,
        internal_refused env n capability (codes "list") key e keyed denied,
      )
      refl
