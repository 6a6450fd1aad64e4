-- ===== src/BlockStore/Laws.antt =====
-- dfsha/data_node/block_store.py: the blocks of a directory.
use proyecto1_sd.Base.Errors.{◌>>◌}
use proyecto1_sd.Base.Dict
use proyecto1_sd.Base.{Bool-cases, Bytes, Error, List, Option, Result, Result-cases, Text, [], ap}
use proyecto1_sd.Base.{arith, block_corrupted, concat, eq_self, err, false, inl, inr, keep, length}
use proyecto1_sd.Base.{list_eq, map, nat_eq, none, ok, pos, refl, slice, some, sym, true, ℕ, ℤ, ◌<◌}
use proyecto1_sd.Base.{◌∙◌, ◌∷◌, ◌≡◌, ◌≤◌}
use proyecto1_sd.BlockStore.{Crypto, container, is_block_id, nonce, validate_block_id, validate_key}
use proyecto1_sd.BlockStore.Arrival.{container-sealed_block}
use proyecto1_sd.BlockStore.Disk.{Disk, Metadata, StoredFile, is_negative_range, list_disk_blocks}
use proyecto1_sd.BlockStore.Disk.{open_block, part_name, range_end, read_block, read_metadata}
use proyecto1_sd.BlockStore.Disk.{read_range, unpack_metadata, write_block}
use proyecto1_sd.BlockStore.Framing.{IsCrypto, max_size, sealed_block}
use proyecto1_sd.BlockStore.Ranges.{are_short, read_range-sealed_block}
use proyecto1_sd.BlockStore.RoundTrip.{metadata, read_metadata-sealed_block}
use proyecto1_sd.Tree.Dirs.{listed}

module _ (c : Crypto) (key : Bytes) (id : Text) where
  -- The directory after a block was written.
  abbrev with_block : Text → ℕ → Bytes → Disk → Disk
  with_block uuid now file_bytes disk =
      Dict.insert id (record { contents = file_bytes; modified = now })
        (Dict.erase (part_name id uuid)
          (Dict.insert (part_name id uuid) (record { contents = []; modified = now }) disk))

  validated :
      length key ≡ 32 → is_block_id id ≡ true → (validate_key key >> validate_block_id id) ≡ ok tt
  validated key_fits valid = ground arith

  -- The temporary file is gone.
  unstaged :
      (part : StoredFile) (p name : Text) (disk : Disk)
      → Dict.lookup p disk ≡ none
      → Dict.lookup name (Dict.erase p (Dict.insert p part disk)) ≡ Dict.lookup name disk
  unstaged part p name disk fresh = ground (
    arith,
    Dict.lookup-erase name p (Dict.insert p part disk),
    Dict.lookup-insert name p part disk,
  )

  write_block-ok :
      (uuid : Text) (prefix : Bytes) (now : ℕ) (chunks : List Bytes) (disk : Disk)
      → length key ≡ 32
      → is_block_id id ≡ true
      → length (concat chunks) ≤ max_size
      → write_block c key id uuid prefix now chunks (ok tt) disk ≡ (
        ok (c.hexdigest (concat chunks), length (concat chunks)),
        with_block uuid now (sealed_block c key id prefix (concat chunks)) disk,
      )
  unfolding write_block
  write_block-ok uuid prefix now chunks disk key_fits valid short =
      rw
        (write_block, validated key_fits valid, container-sealed_block c key id prefix chunks short)
        refl

  read_block-stored :
      (disk : Disk) (chunk_size offset : ℕ) (l : Option ℤ) (f : StoredFile) (m : Metadata)
      → is_block_id id ≡ true
      → is_negative_range (pos offset) l ≡ false
      → Dict.lookup id disk ≡ some f
      → read_metadata c key id f.contents ≡ ok m
      → read_block c key id disk chunk_size (pos offset) l
        ≡ read_range c key id f.contents m chunk_size offset l
  unfolding read_block open_block
  read_block-stored disk chunk_size offset l f m valid positive is_there opened = ground arith

-- The file of the block is there afterwards.
lookup-with_block :
    (c : Crypto) (key : Bytes) (id uuid : Text) (now : ℕ) (file_bytes : Bytes) (disk : Disk)
    → Dict.lookup id (with_block c key id uuid now file_bytes disk)
      ≡ some record { contents = file_bytes; modified = now }
lookup-with_block c key id uuid now file_bytes disk = ground (
  arith,
  Dict.lookup-insert id id (record { contents = file_bytes; modified = now })
      (Dict.erase (part_name id uuid)
        (Dict.insert (part_name id uuid) (record { contents = []; modified = now }) disk)),
  eq_self id,
)

-- A block reads back: after `write_block` of a stream, `read_block` yields, in pieces of at most the
-- size asked for, the bytes of the range, which ends at the end of the block if it has no length. It
-- holds for a key of 32 bytes, a valid identifier, a block that is not too long for the format, a
-- size of pieces above 0 and a range that is not negative, however the stream was cut. What is
-- assumed of the cipher: it decrypts what it encrypted, and adds a tag of 16 bytes.
pub read_block-write_block :
    (c : Crypto) (law : IsCrypto c) (key : Bytes) (id uuid : Text) (prefix : Bytes) (now : ℕ)
    (chunks : List Bytes) (disk : Disk) (chunk_size offset : ℕ) (l : Option ℤ)
    → length key ≡ 32
    → is_block_id id ≡ true
    → length prefix ≡ 8
    → length (concat chunks) ≤ max_size
    → 0 < chunk_size
    → is_negative_range (pos offset) l ≡ false
    → let text = concat chunks in
      let (result, disk') = write_block c key id uuid prefix now chunks (ok tt) disk in
      let (ps, ending) = read_block c key id disk' chunk_size (pos offset) l in
      (result ≡ ok (c.hexdigest text, length text))
      × (ending ≡ ok tt)
      × (concat ps ≡ slice offset (range_end (length text) offset l) text)
      × (are_short chunk_size ps ≡ true)
read_block-write_block c law key id uuid prefix now chunks disk chunk_size offset l key_fits valid
      prefix_fits short steps positive =
    let text = concat chunks in
    let stored : StoredFile = record {
      contents = sealed_block c key id prefix text;
      modified = now;
    } in
    let read =
      read_block-stored c key id (with_block c key id uuid now stored.contents disk) chunk_size
        offset l stored (metadata c law key id prefix text prefix_fits short) valid positive
        (lookup-with_block c key id uuid now stored.contents disk)
        (read_metadata-sealed_block c law key id prefix text prefix_fits short key_fits) in
    let (ending, made, are) =
      read_range-sealed_block c law key id prefix text prefix_fits short chunk_size offset l steps
        positive in
    rw (write_block-ok c key id uuid prefix now chunks disk key_fits valid short, read)
      (refl, ending, made, are)

-- `write_block` is all or nothing: if it raises, every file of the directory is as it was, whatever
-- part of the stream had arrived, where no file has the name of the temporary one.
pub write_block-failed :
    (c : Crypto) (key : Bytes) (id uuid : Text) (prefix : Bytes) (now : ℕ) (chunks : List Bytes)
    (how_ended : Result (Unit {0})) (disk : Disk) (e : Error) (name : Text)
    → Dict.lookup (part_name id uuid) disk ≡ none
    → (write_block c key id uuid prefix now chunks how_ended disk).0 ≡ err e
    → Dict.lookup name (write_block c key id uuid prefix now chunks how_ended disk).1
      ≡ Dict.lookup name disk
unfolding write_block
write_block-failed c key id uuid prefix now chunks how_ended disk e name fresh failed =
    elim (Result-cases (validate_key key >> validate_block_id id)) [
      | inr (x, h) ↦ rw (write_block, h) refl
      | inl (u, h) ↦ elim (Result-cases (container c key id prefix chunks how_ended)) [
        | inl (x, k) ↦ absurd (no_err (rw (write_block, h, k) at failed))
        | inr (x, k) ↦
            rw (write_block, h, k)
              (unstaged c key id (record { contents = []; modified = now }) (part_name id uuid) name
                disk fresh)
      ]
    ]
  where
    no_err : {r : Text × ℕ} → ok r ≡ err e → ⊥
    no_err p = cc

-- With a key of 32 bytes, all that `_read_metadata` raises is that the container is invalid.
read_metadata_error :
    (c : Crypto) (key : Bytes) (id : Text) (file_bytes : Bytes) (e : Error)
    → length key ≡ 32
    → read_metadata c key id file_bytes ≡ err e
    → e ≡ block_corrupted
unfolding read_metadata unpack_metadata nonce
read_metadata_error c key id file_bytes e key_fits h = ground arith

-- `list_blocks` hides nothing: with a key of 32 bytes it ends well and lists exactly the files whose
-- name is a block identifier, in the order of the directory, the invalid containers among them.
pub list_disk_blocks-all :
    (c : Crypto) (key : Bytes) (now : ℕ) (disk : Disk)
    → length key ≡ 32
    → let (listed, ending) = list_disk_blocks c key now disk in
      (ending ≡ ok tt) × (map (λ x. x.block_id) listed ≡ keep is_block_id (Dict.keys disk))
unfolding list_disk_blocks Dict.keys
list_disk_blocks-all c key now [] key_fits = (refl, refl)
list_disk_blocks-all c key now ((name, f) ∷ disk) key_fits =
    let (ending, names) = list_disk_blocks-all c key now disk key_fits in
    elim (Bool-cases (is_block_id name)) [
      | inr v ↦ rw v (ending, names)
      | inl v ↦ elim (Result-cases (read_metadata c key name f.contents)) [
        | inl (m, h) ↦ rw (v, h) (ending, ap (◌∷◌ name) names)
        | inr (e, h) ↦
            rw (v, h ∙ ap err (read_metadata_error c key name f.contents e key_fits h))
              (ending, ap (◌∷◌ name) names)
      ]
    ]

container_raised :
    (c : Crypto) (key : Bytes) (id : Text) (prefix : Bytes) (chunks : List Bytes) (e : Error)
    (x : Bytes × Bytes)
    → container c key id prefix chunks (err e) ≡ ok x
    → ⊥
unfolding container
container_raised c key id prefix chunks e x h = ground arith

-- A write that returns: the stream ended well, the key and the identifier were valid, the checksum and
-- the size are those of the bytes that arrived, and the file of the block is their container.
pub write_block_inv :
    (c : Crypto) (key : Bytes) (id uuid : Text) (prefix : Bytes) (now : ℕ) (chunks : List Bytes)
    (how_ended : Result (Unit {0})) (disk : Disk) (written : Text × ℕ)
    → length (concat chunks) ≤ max_size
    → (write_block c key id uuid prefix now chunks how_ended disk).0 ≡ ok written
    → (how_ended ≡ ok tt)
      × (length key ≡ 32)
      × (is_block_id id ≡ true)
      × (written ≡ (c.hexdigest (concat chunks), length (concat chunks)))
      × (Dict.lookup id (write_block c key id uuid prefix now chunks how_ended disk).1
          ≡ some record { contents = sealed_block c key id prefix (concat chunks); modified = now })
unfolding write_block
write_block_inv c key id uuid prefix now chunks (err e) disk written short h =
    elim (Result-cases (validate_key key >> validate_block_id id)) [
      | inr (x, v) ↦ absurd (no_ok (rw (write_block, v) at h))
      | inl (u, v) ↦ elim (Result-cases (container c key id prefix chunks (err e))) [
        | inl (x, k) ↦ absurd (container_raised c key id prefix chunks e x k)
        | inr (x, k) ↦ absurd (no_ok (rw (write_block, v, k) at h))
      ]
    ]
  where
    no_ok : {e : Error} → err e ≡ ok written → ⊥
    no_ok p = cc
write_block_inv c key id uuid prefix now chunks (ok u) disk written short h =
    elim (Result-cases (validate_key key >> validate_block_id id)) [
      | inr (x, v) ↦ absurd (no_ok (rw (write_block, v) at h))
      | inl (t, v) ↦
          let key_fits = valid_key v in
          let valid = valid_id v in
          let eq = write_block-ok c key id uuid prefix now chunks disk key_fits valid short in
          (
            refl,
            key_fits,
            valid,
            same (sym h ∙ ap (λ r. r.0) eq),
            ap (λ r. Dict.lookup id r.1) eq
                ∙ lookup-with_block c key id uuid now (sealed_block c key id prefix (concat chunks))
                    disk,
          )
    ]
  where
    no_ok : {e : Error} → err e ≡ ok written → ⊥
    no_ok p = cc

    same :
        ok written ≡ ok (c.hexdigest (concat chunks), length (concat chunks))
        → written ≡ (c.hexdigest (concat chunks), length (concat chunks))
    same p = cc

    valid_key : {t : Unit {0}} → (validate_key key >> validate_block_id id) ≡ ok t → length key ≡ 32
    valid_key v = ground arith

    valid_id :
        {t : Unit {0}} → (validate_key key >> validate_block_id id) ≡ ok t → is_block_id id ≡ true
    valid_id v = ground arith

-- `read_block` of a file that is the container of a text.
pub read_block-sealed_block :
    (c : Crypto) (law : IsCrypto c) (key : Bytes) (id : Text) (prefix text : Bytes) (disk : Disk)
    (f : StoredFile) (chunk_size offset : ℕ) (l : Option ℤ)
    → length key ≡ 32
    → is_block_id id ≡ true
    → length prefix ≡ 8
    → length text ≤ max_size
    → 0 < chunk_size
    → is_negative_range (pos offset) l ≡ false
    → Dict.lookup id disk ≡ some f
    → f.contents ≡ sealed_block c key id prefix text
    → let (ps, ending) = read_block c key id disk chunk_size (pos offset) l in
      (ending ≡ ok tt)
      × (concat ps ≡ slice offset (range_end (length text) offset l) text)
      × (are_short chunk_size ps ≡ true)
read_block-sealed_block c law key id prefix text disk f chunk_size offset l key_fits valid
      prefix_fits short steps positive is_there sealed =
    let m = metadata c law key id prefix text prefix_fits short in
    let opened =
      ap (read_metadata c key id) sealed
      ∙ read_metadata-sealed_block c law key id prefix text prefix_fits short key_fits in
    rw
      (
        read_block-stored c key id disk chunk_size offset l f m valid positive is_there opened,
        sealed,
      )
      (read_range-sealed_block c law key id prefix text prefix_fits short chunk_size offset l steps
        positive)
