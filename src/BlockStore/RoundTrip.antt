-- ===== src/BlockStore/RoundTrip.antt =====
-- dfsha/data_node/block_store.py: what `read_block` yields of a container that `write_block` wrote.
use proyecto1_sd.Base.{Bool, Bytes, Text, [], ap, append_assoc, arith, drop, drop_prefix, drop_zero}
use proyecto1_sd.Base.{eqb, leb, length, length-append, length-drop, length-take, ok, refl, slice}
use proyecto1_sd.Base.{slice_shift, some, sym, take, take_all, take_prefix, take_zero, true, ℕ, ◌*◌}
use proyecto1_sd.Base.{◌++◌, ◌+◌, ◌-◌, ◌<◌, ◌∙◌, ◌∷◌, ◌≡◌, ◌≤◌}
use proyecto1_sd.BlockStore.{Crypto, chunk_aad, chunk_size_bytes, format_version, header_size}
use proyecto1_sd.BlockStore.{magic, max_chunks, metadata_aad, metadata_record_size, nonce}
use proyecto1_sd.BlockStore.{pack_header, pack_metadata, tag_size_bytes, to_bytes}
use proyecto1_sd.BlockStore.Disk.{Metadata, decrypt_chunk, expected_chunks, expected_size}
use proyecto1_sd.BlockStore.Disk.{plaintext_size, read_metadata}
use proyecto1_sd.BlockStore.Framing.{IsCrypto, body, chunk_at, max_size, metadata_record}
use proyecto1_sd.BlockStore.Framing.{sealed_block, sealed_chunk}
use proyecto1_sd.BlockStore.Layout.{slice-body, length-body}
use proyecto1_sd.BlockStore.Unpacking.{length-pack_metadata, unpack-pack}

header_slices :
    (prefix : Bytes)
    → length prefix ≡ 8
    → (slice 0 5 (pack_header prefix) ≡ magic)
      × (slice 5 6 (pack_header prefix) ≡ format_version ∷ [])
      × (slice 6 14 (pack_header prefix) ≡ prefix)
unfolding pack_header slice take drop
header_slices prefix h = (
  refl,
  ap (◌∷◌ format_version) (take_zero prefix),
  ap (take 8) (drop_zero prefix) ∙ take_all 8 prefix (omega arith),
)

nonce_lem : (prefix : Bytes) (i : ℕ) → i ≤ max_chunks → nonce prefix i ≡ ok (prefix ++ to_bytes 4 i)
unfolding nonce
nonce_lem prefix i h = ground arith

module _ (c : Crypto) (law : IsCrypto c) (key : Bytes) (id : Text) (prefix text : Bytes)
    (prefix_fits : length prefix ≡ 8) (short : length text ≤ max_size) where
  count_fits : expected_chunks (length text) ≤ max_chunks
  unfolding expected_chunks
  count_fits = ground arith

  -- What `_read_metadata` returns.
  unfoldable pub metadata : Metadata
  metadata = record {
    prefix = prefix;
    logical_size = length text;
    chunk_count = expected_chunks (length text);
    checksum = c.digest text;
  }

  length-header : length (pack_header prefix) ≡ header_size
  unfolding pack_header
  length-header = omega arith

  length-metadata_record : length (metadata_record c key id prefix text) ≡ metadata_record_size
  unfolding metadata_record
  length-metadata_record =
      law.length_encrypt key (prefix ++ to_bytes 4 max_chunks)
        (pack_metadata (length text) (expected_chunks (length text)) (c.digest text))
        (metadata_aad id (pack_header prefix))
      ∙ ap (λ n. n + tag_size_bytes)
          (length-pack_metadata (length text) (expected_chunks (length text)) (c.digest text)
            (law.length_digest text))

  length-sealed_block :
      length (sealed_block c key id prefix text)
      ≡ expected_size (length text) (expected_chunks (length text))
  unfolding sealed_block expected_size
  length-sealed_block =
      let k = expected_chunks (length text) in
      length-append (pack_header prefix ++ body c key id prefix text k)
        (metadata_record c key id prefix text)
      ∙ omega (
        arith,
        length-append (pack_header prefix) (body c key id prefix text k),
        length-header,
        length-metadata_record,
        length-body c law key id prefix text k refl,
      )

  take-sealed_block : take header_size (sealed_block c key id prefix text) ≡ pack_header prefix
  unfolding sealed_block
  take-sealed_block =
      let k = expected_chunks (length text) in
      ap (take header_size) (
        append_assoc (pack_header prefix) (body c key id prefix text k)
          (metadata_record c key id prefix text))
      ∙ take_prefix header_size (pack_header prefix)
          (body c key id prefix text k ++ metadata_record c key id prefix text) (sym length-header)

  drop-sealed_block :
      drop
        (length (sealed_block c key id prefix text) - metadata_record_size)
        (sealed_block c key id prefix text)
      ≡ metadata_record c key id prefix text
  unfolding sealed_block
  drop-sealed_block =
      let k = expected_chunks (length text) in
      drop_prefix (length (sealed_block c key id prefix text) - metadata_record_size)
        (pack_header prefix ++ body c key id prefix text k) (metadata_record c key id prefix text)
        (omega (
          arith,
          length-metadata_record,
          length-append (pack_header prefix ++ body c key id prefix text k)
              (metadata_record c key id prefix text),
        ))

  decrypt-metadata_record :
      c.decrypt key
        (prefix ++ to_bytes 4 max_chunks)
        (metadata_record c key id prefix text)
        (metadata_aad id (pack_header prefix))
      ≡ some (pack_metadata (length text) (expected_chunks (length text)) (c.digest text))
  unfolding metadata_record
  decrypt-metadata_record =
      law.decrypt_encrypt key (prefix ++ to_bytes 4 max_chunks)
        (pack_metadata (length text) (expected_chunks (length text)) (c.digest text))
        (metadata_aad id (pack_header prefix))

  long_enough :
      leb (header_size + metadata_record_size) (length (sealed_block c key id prefix text)) ≡ true
  unfolding expected_size
  long_enough = ground (arith, length-sealed_block)

  pub read_metadata-sealed_block :
      length key ≡ 32 → read_metadata c key id (sealed_block c key id prefix text) ≡ ok metadata
  unfolding read_metadata nonce metadata
  read_metadata-sealed_block key_fits =
      let (starts, version, salt) = header_slices prefix prefix_fits in
      rw
        (
          take-sealed_block, drop-sealed_block, starts, version, salt, long_enough,
          decrypt-metadata_record,
        )
        (ground (
          arith,
          unpack-pack (length text) (expected_chunks (length text)) (c.digest text)
              (law.length_digest text) prefix (sealed_block c key id prefix text) (omega arith) refl
              count_fits length-sealed_block,
        ))

  slice-sealed_block :
      (i : ℕ)
      → i < expected_chunks (length text)
      → slice
          (header_size + i * (chunk_size_bytes + tag_size_bytes))
          (header_size
            + i * (chunk_size_bytes + tag_size_bytes)
            + (plaintext_size metadata i + tag_size_bytes))
          (sealed_block c key id prefix text)
        ≡ sealed_chunk c key id prefix text i (eqb i (expected_chunks (length text) - 1))
  unfolding sealed_block metadata plaintext_size
  slice-sealed_block i h =
      let k = expected_chunks (length text) in
      let at = i * (chunk_size_bytes + tag_size_bytes) in
      ap
        (slice (header_size + at) (header_size + at + (plaintext_size metadata i + tag_size_bytes)))
        (append_assoc (pack_header prefix) (body c key id prefix text k)
          (metadata_record c key id prefix text))
      ∙ slice_shift header_size at (plaintext_size metadata i + tag_size_bytes) (pack_header prefix)
          (body c key id prefix text k ++ metadata_record c key id prefix text) (sym length-header)
      ∙ slice-body c law key id prefix text k i (metadata_record c key id prefix text) refl h

  length-chunk_at :
      (i : ℕ)
      → i < expected_chunks (length text)
      → length (chunk_at c key id prefix text i) ≡ plaintext_size metadata i
  unfolding chunk_at metadata plaintext_size expected_chunks
  length-chunk_at i h = ground (
    arith,
    length-take chunk_size_bytes (drop (i * chunk_size_bytes) text),
    length-drop (i * chunk_size_bytes) text,
  )

  length-stored_chunk :
      (i : ℕ) (is_last : Bool)
      → i < expected_chunks (length text)
      → length (sealed_chunk c key id prefix text i is_last)
        ≡ plaintext_size metadata i + tag_size_bytes
  unfolding sealed_chunk
  length-stored_chunk i is_last h =
      law.length_encrypt key (prefix ++ to_bytes 4 i) (chunk_at c key id prefix text i)
        (chunk_aad id i is_last)
      ∙ ap (λ n. n + tag_size_bytes) (length-chunk_at i h)

  decrypt-sealed_chunk :
      (i : ℕ) (is_last : Bool)
      → c.decrypt key
          (prefix ++ to_bytes 4 i)
          (sealed_chunk c key id prefix text i is_last)
          (chunk_aad id i is_last)
        ≡ some (chunk_at c key id prefix text i)
  unfolding sealed_chunk
  decrypt-sealed_chunk i is_last =
      law.decrypt_encrypt key (prefix ++ to_bytes 4 i) (chunk_at c key id prefix text i)
        (chunk_aad id i is_last)

  -- Every chunk of a container that was written is decrypted.
  pub decrypt_chunk-sealed_block :
      (i : ℕ)
      → i < expected_chunks (length text)
      → decrypt_chunk c key id (sealed_block c key id prefix text) metadata i
        ≡ ok (chunk_at c key id prefix text i)
  unfolding decrypt_chunk metadata
  decrypt_chunk-sealed_block i h =
      let is_last = eqb i (expected_chunks (length text) - 1) in
      rw (slice-sealed_block i h, nonce_lem prefix i (omega (arith, count_fits)))
        (ground (
          arith,
          decrypt-sealed_chunk i is_last,
          length-stored_chunk i is_last h,
          length-chunk_at i h,
          count_fits,
        ))
