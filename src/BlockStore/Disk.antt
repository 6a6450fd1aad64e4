-- ===== src/BlockStore/Disk.antt =====
-- dfsha/data_node/block_store.py: `_read_metadata` and the functions that work on the directory of
-- a node, a dict from file names to files. A generator is what it yields and how it ends.
use proyecto1_sd.Base.Errors.{◌>>=◌, ◌>>◌}
use proyecto1_sd.Base.Dict
use proyecto1_sd.Base.{Bool, Bytes, List, Option, Result, Text, [], block_corrupted}
use proyecto1_sd.Base.{block_not_found, codes, drop, eqb, err, false, guard, if◌then◌else◌}
use proyecto1_sd.Base.{internal, is_negative, leb, length, list_eq, ltb, min, nat_eq, none, not, ok}
use proyecto1_sd.Base.{or_error, slice, some, suc, take, to_nat, zero, ℕ, ℤ, ◌&&◌, ◌*◌, ◌++◌, ◌+◌}
use proyecto1_sd.Base.{◌-◌, ◌/◌, ◌==◌, ◌||◌, ◌∷◌}
use proyecto1_sd.Base.Dict.{Dict}
use proyecto1_sd.BlockStore.{Crypto, chunk_aad, chunk_size_bytes, container, format_version}
use proyecto1_sd.BlockStore.{from_bytes, header_size, is_block_id, magic, max_chunks, metadata_aad}
use proyecto1_sd.BlockStore.{metadata_record_size, metadata_size, nonce, tag_size_bytes}
use proyecto1_sd.BlockStore.{validate_block_id, validate_key}

pub record StoredFile : Type 0 where
  pub contents : Bytes
  pub modified : ℕ

abbrev pub Disk : Type 0
Disk = Dict Text StoredFile

-- What a generator yields, and how it ends.
abbrev pub Yielded : Type 0
Yielded = List Bytes × Result (Unit {0})

pub record Metadata : Type 0 where
  pub prefix : Bytes
  pub logical_size : ℕ
  pub chunk_count : ℕ
  pub checksum : Bytes

unfoldable pub expected_chunks : ℕ → ℕ
expected_chunks size = if eqb size 0 then 0 else (size - 1) / chunk_size_bytes + 1

unfoldable pub last_plaintext_size : ℕ → ℕ → ℕ
last_plaintext_size size count = if eqb count 0 then 0 else size - chunk_size_bytes * (count - 1)

unfoldable pub expected_size : ℕ → ℕ → ℕ
expected_size size count =
    header_size
    + (count - 1) * (chunk_size_bytes + tag_size_bytes)
    + (if eqb count 0 then 0 else last_plaintext_size size count + tag_size_bytes)
    + metadata_record_size

-- `range(a, b, step)` and the slices of a chunk that it cuts, for a step above 0; `b - a` rounds are
-- enough.
unfoldable pub pieces : ℕ → ℕ → ℕ → ℕ → Bytes → List Bytes
pieces zero step a b plaintext = []
pieces (suc fuel) step a b plaintext =
    if ltb a b
    then slice a (min (a + step) b) plaintext ∷ pieces fuel step (a + step) b plaintext
    else []

-- `_METADATA.unpack` and the checks behind it.
unfoldable pub unpack_metadata : Bytes → Bytes → Bytes → Result Metadata
unpack_metadata prefix record_bytes container_bytes =
    let size = from_bytes (slice 0 8 record_bytes) in
    let count = from_bytes (slice 8 16 record_bytes) in
    do
      guard (eqb (length record_bytes) metadata_size) block_corrupted
      guard (eqb count (expected_chunks size)) block_corrupted
      guard (leb count max_chunks) block_corrupted
      guard (eqb (length container_bytes) (expected_size size count)) block_corrupted
      ok record {
        prefix = prefix;
        logical_size = size;
        chunk_count = count;
        checksum = slice 16 48 record_bytes;
      }

-- One round of the loop of `read_block`: `chunk_size` is the size of the pieces, `first` and `last`
-- the indices of the outer chunks, and `offset` and `till` the ends of the range in the block.
pub record Range : Type 0 where
  pub chunk_size : ℕ
  pub offset : ℕ
  pub till : ℕ
  pub first : ℕ
  pub last : ℕ

unfoldable pub plaintext_size : Metadata → ℕ → ℕ
plaintext_size m index =
    if ltb index (m.chunk_count - 1)
    then chunk_size_bytes
    else m.logical_size - chunk_size_bytes * (m.chunk_count - 1)

abbrev pub start_in_chunk : Range → ℕ → ℕ
start_in_chunk r index = if eqb index r.first then r.offset - index * chunk_size_bytes else 0

abbrev pub end_in_chunk : Range → Metadata → ℕ → ℕ
end_in_chunk r m index =
    if eqb index r.last then r.till - index * chunk_size_bytes else plaintext_size m index

abbrev pub is_negative_range : ℤ → Option ℤ → Bool
is_negative_range offset none = is_negative offset
is_negative_range offset (some l) = is_negative offset || is_negative l

-- `length == 0`
abbrev pub is_zero : Option ℤ → Bool
is_zero none = false
is_zero (some l) = eqb (to_nat l) 0 && not (is_negative l)

abbrev pub range_end : ℕ → ℕ → Option ℤ → ℕ
range_end size offset none = size
range_end size offset (some l) = min size (offset + to_nat l)

abbrev pub part_name : Text → Text → Text
part_name id uuid = id ++ codes ".part-" ++ uuid

module _ (c : Crypto) (key : Bytes) (id : Text) where
  -- `_read_metadata` on a file that is there.
  unfoldable pub read_metadata : Bytes → Result Metadata
  read_metadata file_bytes =
      let header = take header_size file_bytes in
      let prefix = slice 6 14 header in
      do
        guard (leb (header_size + metadata_record_size) (length file_bytes)) block_corrupted
        guard (slice 0 5 header == magic) block_corrupted
        guard (slice 5 6 header == format_version ∷ []) block_corrupted
        validate_key key
        n ← nonce prefix max_chunks
        record_bytes ←
            or_error
              (c.decrypt key n (drop (length file_bytes - metadata_record_size) file_bytes)
                (metadata_aad id header))
              block_corrupted
        unpack_metadata prefix record_bytes file_bytes

  unfoldable pub decrypt_chunk : Bytes → Metadata → ℕ → Result Bytes
  decrypt_chunk file_bytes m index =
      let size = plaintext_size m index + tag_size_bytes in
      let at = header_size + index * (chunk_size_bytes + tag_size_bytes) in
      let encrypted = slice at (at + size) file_bytes in
      do
        guard (eqb (length encrypted) size) block_corrupted
        n ← nonce m.prefix index
        plaintext ←
            or_error
              (c.decrypt key n encrypted (chunk_aad id index (eqb index (m.chunk_count - 1))))
              block_corrupted
        guard (eqb (length plaintext) (plaintext_size m index)) block_corrupted
        ok plaintext

  unfoldable pub chunk_pieces : Bytes → Metadata → Range → ℕ → Result (List Bytes)
  chunk_pieces file_bytes m r index = do
    plaintext ← decrypt_chunk file_bytes m index
    guard (not (eqb r.chunk_size 0)) internal
    ok (
        pieces (end_in_chunk r m index - start_in_chunk r index) r.chunk_size
          (start_in_chunk r index) (end_in_chunk r m index) plaintext)

  unfoldable pub read_chunks : Bytes → Metadata → Range → ℕ → ℕ → Yielded
  read_chunks file_bytes m r zero index = ([], ok tt)
  read_chunks file_bytes m r (suc n) index =
      let rest = read_chunks file_bytes m r n (index + 1) in
      elim (chunk_pieces file_bytes m r index) [
        | err e ↦ ([], err e)
        | ok ps ↦ (ps ++ rest.0, rest.1)
      ]

  -- The part of `read_block` that follows the metadata.
  unfoldable pub read_range : Bytes → Metadata → ℕ → ℕ → Option ℤ → Yielded
  read_range file_bytes m chunk_size offset l =
      let till = range_end m.logical_size offset l in
      let first = offset / chunk_size_bytes in
      let last = (till - 1) / chunk_size_bytes in
      if leb m.logical_size offset || is_zero l
      then ([], ok tt)
      else read_chunks file_bytes m
          (record {
            chunk_size = chunk_size;
            offset = offset;
            till = till;
            first = first;
            last = last;
          })
          (last + 1 - first) first

  -- What `read_block` does before it reads a chunk.
  unfoldable pub open_block : Disk → ℤ → Option ℤ → Result (Bytes × Metadata)
  open_block disk offset l = do
    guard (not (is_negative_range offset l)) internal
    validate_block_id id
    stored ← or_error (Dict.lookup id disk) block_not_found
    m ← read_metadata stored.contents
    ok (stored.contents, m)

  unfoldable pub read_block : Disk → ℕ → ℤ → Option ℤ → Yielded
  read_block disk chunk_size offset l = elim (open_block disk offset l) [
    | err e ↦ ([], err e)
    | ok (file_bytes, m) ↦ read_range file_bytes m chunk_size (to_nat offset) l
  ]

  -- The temporary file is replaced onto the block, or removed. `uuid` and `prefix` are the random
  -- values, `now` the time of the file system.
  unfoldable pub write_block :
      Text → Bytes → ℕ → List Bytes → Result (Unit {0}) → Disk → Result (Text × ℕ) × Disk
  write_block uuid prefix now chunks how_ended disk =
      let part = Dict.insert (part_name id uuid) (record { contents = []; modified = now }) disk in
      elim (validate_key key >> validate_block_id id) [
        | err e ↦ (err e, disk)
        | ok _ ↦ elim (container c key id prefix chunks how_ended) [
          | err e ↦ (err e, Dict.erase (part_name id uuid) part)
          | ok (file_bytes, hashed) ↦ (
            ok (c.hexdigest hashed, length hashed),
            Dict.insert id (record { contents = file_bytes; modified = now })
                (Dict.erase (part_name id uuid) part),
          )
        ]
      ]

  unfoldable pub delete_block : Disk → Result (Unit {0}) × Disk
  delete_block disk =
      elim (validate_block_id id >> or_error (Dict.lookup id disk) block_not_found) [
        | err e ↦ (err e, disk)
        | ok _ ↦ (ok tt, Dict.erase id disk)
      ]

-- `list_blocks`: name, logical size and age.
pub record Listed : Type 0 where
  pub block_id : Text
  pub size : ℕ
  pub age : ℕ

-- The size that is listed: the physical one if the container is invalid.
abbrev pub listed_size : Result Metadata → ℕ → Result ℕ
listed_size (ok m) on_disk = ok m.logical_size
listed_size (err block_corrupted) on_disk = ok on_disk
listed_size (err e) on_disk = err e

unfoldable pub list_disk_blocks : Crypto → Bytes → ℕ → Disk → List Listed × Result (Unit {0})
list_disk_blocks c key now [] = ([], ok tt)
list_disk_blocks c key now ((name, f) ∷ disk) =
    let rest = list_disk_blocks c key now disk in
    if is_block_id name
    then elim (listed_size (read_metadata c key name f.contents) (length f.contents)) [
      | err block_not_found ↦ rest
      | err e ↦ ([], err e)
      | ok size ↦ (record { block_id = name; size = size; age = now - f.modified } ∷ rest.0, rest.1)
    ]
    else rest
