-- ===== src/Tests/Blocks.antt =====
-- The block store and the data nodes at a cipher that only puts a tag behind the text.
use proyecto1_sd.Base.Dict
use proyecto1_sd.Base.{Bytes, List, Result, Text, [], abort, access_denied, ap, arith, codes}
use proyecto1_sd.Base.{concat, contains, drop, eqb, err, false, if◌then◌else◌, internal, keep}
use proyecto1_sd.Base.{length, length-append, list_eq, map, min, nat_eq, none, ok}
use proyecto1_sd.Base.{permission_denied, pos, refl, response, rpc_failed, slice, some, split, take}
use proyecto1_sd.Base.{take_prefix, true, unavailable, ℕ, ◌++◌, ◌+◌, ◌-◌, ◌∷◌, ◌≡◌, ◌≤◌}
use proyecto1_sd.BlockStore.{Crypto, complete, container, drain, encrypt_chunk, flush, from_bytes}
use proyecto1_sd.BlockStore.{from_bytes_onto, is_block_id, nonce, pack_header, pack_metadata}
use proyecto1_sd.BlockStore.{receive, receive_all, to_bytes}
use proyecto1_sd.BlockStore.Disk.{StoredFile, chunk_pieces, decrypt_chunk, expected_chunks}
use proyecto1_sd.BlockStore.Disk.{expected_size, last_plaintext_size, list_disk_blocks, open_block}
use proyecto1_sd.BlockStore.Disk.{part_name, pieces, plaintext_size, range_end, read_block}
use proyecto1_sd.BlockStore.Disk.{read_chunks, read_metadata, read_range, unpack_metadata}
use proyecto1_sd.BlockStore.Disk.{write_block}
use proyecto1_sd.BlockStore.Framing.{IsCrypto, body, chunk_at, max_size, metadata_record}
use proyecto1_sd.BlockStore.Framing.{sealed_block, sealed_chunk, sealed_upto}
use proyecto1_sd.BlockStore.Laws.{list_disk_blocks-all, read_block-write_block, write_block-failed}
use proyecto1_sd.BlockStore.Ranges.{are_short}
use proyecto1_sd.Capability.{check_expiry, is_number, number_onto, rpartition, verified_fields}
use proyecto1_sd.Capability.{verify_block}
use proyecto1_sd.Client.SlotContent.{zeros}
use proyecto1_sd.DataNode.{DataNode, Network, Surroundings, admit_write, forwarded, local_write}
use proyecto1_sd.DataNode.{require_block, require_internal, settle, write_pipeline}
use proyecto1_sd.DataNode.Blocks.{copy_to, serve_delete_block, serve_read_block}
use proyecto1_sd.DataNode.Blocks.{serve_replicate_block}
use proyecto1_sd.DataNode.Failures.{call_refused, delete_call, write_pipeline-discards}
use proyecto1_sd.DataNode.Laws.{serve_read_block-Holds, serve_replicate_block-Holds}
use proyecto1_sd.DataNode.Pipeline.{AllHold, Distinct, Holds}
use proyecto1_sd.DataNode.Replicas.{write_pipeline-AllHold}
use proyecto1_sd.Tree.Dirs.{listed}

abbrev toy : Crypto
toy = record {
  encrypt = λ key n text aad. text ++ zeros 16;
  decrypt = λ key n text aad. some (take (length text - 16) text);
  digest = λ text. zeros 32;
  hexdigest = λ text. text;
}

toy-IsCrypto : IsCrypto toy
unfolding zeros
toy-IsCrypto = record {
  decrypt_encrypt = λ key n text aad. ap some (
      take_prefix (length (text ++ zeros 16) - 16) text (zeros 16)
        (omega (arith, length-append text (zeros 16))));
  length_encrypt = λ key n text aad. length-append text (zeros 16);
  length_digest = λ text. refl;
}

abbrev id32 : Text
id32 = codes "0123456789abcdef0123456789abcdef"

abbrev key32 : Bytes
key32 = codes "kkkkkkkkkkkkkkkkkkkkkkkkkkkkkkkk"

abbrev prefix8 : Bytes
prefix8 = codes "pppppppp"

abbrev stream : List Bytes
stream = (1 ∷ 2 ∷ []) ∷ (3 ∷ []) ∷ []

stream_short : length (concat stream) ≤ max_size
unfolding concat
stream_short = omega arith

id32-valid : is_block_id id32 ≡ true
unfolding is_block_id
id32-valid = refl

read_block-write_block_example :
    let text = concat stream in
    let (result, disk') = write_block toy key32 id32 (codes "u") prefix8 7 stream (ok tt) [] in
    let (ps, ending) = read_block toy key32 id32 disk' 2 (pos 1) (some (pos 5)) in
    (result ≡ ok (toy.hexdigest text, length text))
    × (ending ≡ ok tt)
    × (concat ps ≡ slice 1 (range_end (length text) 1 (some (pos 5))) text)
    × (are_short 2 ps ≡ true)
read_block-write_block_example =
    read_block-write_block toy toy-IsCrypto key32 id32 (codes "u") prefix8 7 stream [] 2 1
      (some (pos 5)) refl id32-valid refl stream_short (omega arith) refl

broken_write :
    (write_block toy key32 id32 (codes "u") prefix8 7 stream (err internal) []).0 ≡ err internal
unfolding write_block container receive_all receive drain is_block_id
broken_write = refl

write_block-failed_example :
    Dict.lookup id32 (write_block toy key32 id32 (codes "u") prefix8 7 stream (err internal) []).1
    ≡ Dict.lookup id32 []
write_block-failed_example =
    write_block-failed toy key32 id32 (codes "u") prefix8 7 stream (err internal) [] internal id32
      (Dict.lookup-nil (part_name id32 (codes "u"))) broken_write

abbrev damaged : StoredFile
damaged = record { contents = 1 ∷ 2 ∷ []; modified = 3 }

list_disk_blocks-all_example :
    let (listed, ending) =
      list_disk_blocks toy key32 9 ((id32, damaged) ∷ (codes "x.part-u", damaged) ∷ []) in
    (ending ≡ ok tt)
    × (map (λ x. x.block_id) listed
        ≡ keep is_block_id (Dict.keys ((id32, damaged) ∷ (codes "x.part-u", damaged) ∷ [])))
list_disk_blocks-all_example =
    list_disk_blocks-all toy key32 9 ((id32, damaged) ∷ (codes "x.part-u", damaged) ∷ []) refl

abbrev reply3 : Text × ℕ
reply3 = (1 ∷ 2 ∷ 3 ∷ [], 3)

-- Two nodes without a key for capabilities.
abbrev node : DataNode
node = record { disk = []; encryption_key = key32; capability_key = none }

abbrev d1 : Text
d1 = codes "d1"

abbrev d2 : Text
d2 = codes "d2"

abbrev two : Network
two = (d1, node) ∷ (d2, node) ∷ []

abbrev around : Surroundings
around = record {
  crypto = toy;
  hexdigest = λ key text. codes "signature";
  second = 4;
  now = 7;
  uuid = λ a. a;
  prefix = λ a. prefix8;
  cancels = λ a. false;
}

acknowledged : (write_pipeline around [] d1 (d2 ∷ []) id32 stream (ok tt) two).0 ≡ response reply3
unfolding write_pipeline admit_write require_block settle forwarded write_block container
    receive_all receive drain complete flush encrypt_chunk nonce is_block_id Dict.lookup Dict.insert
    Dict.erase list_eq nat_eq
acknowledged = refl

d1-d2-Distinct : Distinct (d1 ∷ d2 ∷ [])
unfolding list_eq nat_eq
d1-d2-Distinct = (refl, (refl, tt))

write_pipeline-AllHold_example :
    let ended_well : Result (Unit {0}) = ok tt in
    (ended_well ≡ ok tt)
    × (reply3 ≡ (toy.hexdigest (concat stream), length (concat stream)))
    × AllHold around id32
        (concat stream)
        (d1 ∷ d2 ∷ [])
        (write_pipeline around [] d1 (d2 ∷ []) id32 stream (ok tt) two).1
write_pipeline-AllHold_example =
    write_pipeline-AllHold around id32 [] d1 (d2 ∷ []) stream (ok tt) two reply3 stream_short
      d1-d2-Distinct acknowledged

-- The first node keeps a block of three bytes.
abbrev text3 : Bytes
text3 = 1 ∷ 2 ∷ 3 ∷ []

abbrev stored3 : StoredFile
stored3 = record { contents = sealed_block toy key32 id32 prefix8 text3; modified = 7 }

abbrev holder : DataNode
holder = record { disk = (id32, stored3) ∷ []; encryption_key = key32; capability_key = none }

abbrev one_held : Network
one_held = (d1, holder) ∷ (d2, node) ∷ []

holder_answers : Dict.lookup d1 one_held ≡ some holder
unfolding Dict.lookup list_eq nat_eq
holder_answers = refl

held : Holds around id32 text3 d1 one_held
unfolding Dict.lookup list_eq nat_eq
held = record {
  node = holder;
  stored = stored3;
  answers = holder_answers;
  found_at = refl;
  sealed = refl;
  key_fits = refl;
  valid = id32-valid;
}

text3_short : length text3 ≤ max_size
text3_short = omega arith

unguarded : require_block around holder [] id32 (codes "read") ≡ response []
unfolding require_block
unguarded = refl

serve_read_block-Holds_example :
    let (ps, ending) = serve_read_block around [] d1 id32 (pos 1) (pos 0) one_held in
    (ending ≡ response tt)
    × (concat ps ≡ slice 1 (if eqb 0 0 then length text3 else min (length text3) (1 + 0)) text3)
serve_read_block-Holds_example =
    serve_read_block-Holds around toy-IsCrypto id32 text3 d1 one_held holder [] [] 1 0 refl
      text3_short held holder_answers unguarded

copied : (serve_replicate_block around [] [] d1 id32 d2 one_held).0 ≡ response reply3
unfolding serve_replicate_block require_internal require_block copy_to write_pipeline admit_write
    write_block container receive_all receive drain complete flush encrypt_chunk nonce is_block_id
    Dict.lookup Dict.insert Dict.erase list_eq nat_eq read_block open_block read_metadata
    unpack_metadata read_range read_chunks chunk_pieces decrypt_chunk plaintext_size pieces
    sealed_block body sealed_upto sealed_chunk chunk_at metadata_record pack_header pack_metadata
    to_bytes from_bytes from_bytes_onto expected_chunks expected_size last_plaintext_size slice take
    drop concat zeros
copied = refl

serve_replicate_block-Holds_example :
    Holds around id32 text3 d2 (serve_replicate_block around [] [] d1 id32 d2 one_held).1
    × (reply3 ≡ (toy.hexdigest text3, length text3))
serve_replicate_block-Holds_example =
    serve_replicate_block-Holds around toy-IsCrypto id32 text3 d1 one_held holder [] [] d2 reply3
      refl text3_short held holder_answers copied

-- A pipeline whose second node does not answer.
admitted_d1 : admit_write around [] d1 id32 two ≡ response (node, [])
unfolding admit_write require_block is_block_id Dict.lookup list_eq nat_eq
admitted_d1 = refl

kept_at_d1 : (local_write around d1 node id32 stream (ok tt) two).0 ≡ ok reply3
unfolding write_block container receive_all receive drain complete flush encrypt_chunk nonce
    is_block_id Dict.lookup Dict.insert Dict.erase list_eq nat_eq
kept_at_d1 = refl

broken_pipeline :
    (write_pipeline around [] d1 (codes "d9" ∷ []) id32 stream (ok tt) two).0
    ≡ rpc_failed (abort unavailable)
unfolding write_pipeline admit_write require_block settle forwarded write_block container
    receive_all receive drain complete flush encrypt_chunk nonce is_block_id Dict.lookup Dict.insert
    Dict.erase list_eq nat_eq
broken_pipeline = refl

d1-d9-apart : contains (codes "d9" ∷ []) d1 ≡ false
unfolding list_eq nat_eq
d1-d9-apart = refl

write_pipeline-discards_example :
    (m : DataNode) × (Dict.lookup d1
        (write_pipeline around [] d1 (codes "d9" ∷ []) id32 stream (ok tt) two).1
      ≡ some m)
    × (Dict.lookup id32 m.disk ≡ none)
write_pipeline-discards_example =
    write_pipeline-discards around [] d1 (codes "d9") [] id32 stream (ok tt) two node [] reply3
      (abort unavailable) d1-d9-apart admitted_d1 kept_at_d1 broken_pipeline

-- A node with a key, and a call without a capability.
abbrev guarded : DataNode
guarded = record { disk = []; encryption_key = key32; capability_key = some key32 }

abbrev one_guarded : Network
one_guarded = (d1, guarded) ∷ []

guarded_answers : Dict.lookup d1 one_guarded ≡ some guarded
unfolding Dict.lookup list_eq nat_eq
guarded_answers = refl

-- A capability that reads the block, signed as the node expects, but that does not delete it.
abbrev to_read : Text
to_read = codes "b:read:0123456789abcdef0123456789abcdef:99.signature"

reads_only :
    (verify_block around.hexdigest around.second key32 to_read id32 (codes "read") around.now
      ≡ ok tt)
    × (verify_block around.hexdigest around.second key32 to_read id32 (codes "delete") around.now
        ≡ err access_denied)
unfolding verify_block verified_fields rpartition split check_expiry number_onto is_number list_eq
    nat_eq
reads_only = (refl, refl)

call_refused_example :
    serve_delete_block around to_read d1 id32 one_guarded
    ≡ (rpc_failed (record { code = permission_denied; domain = some access_denied }), one_guarded)
call_refused_example =
    call_refused around to_read d1 id32 one_guarded guarded key32 access_denied delete_call
      guarded_answers refl reads_only.1
