-- ===== src/BlockStore/Framing.antt =====
-- dfsha/data_node/block_store.py: a container written down at once, and what is asked of the crypto.
use proyecto1_sd.Base.{Bool, Bytes, Text, [], drop, false, length, some, suc, take, true, zero, ℕ}
use proyecto1_sd.Base.{◌*◌, ◌++◌, ◌+◌, ◌≡◌}
use proyecto1_sd.BlockStore.{Crypto, chunk_aad, chunk_size_bytes, max_chunks, metadata_aad}
use proyecto1_sd.BlockStore.{pack_header, pack_metadata, tag_size_bytes, to_bytes}
use proyecto1_sd.BlockStore.Disk.{expected_chunks}

-- What `AESGCM` and `hashlib.sha256` document.
pub record IsCrypto (c : Crypto) : Type 0 where
  pub decrypt_encrypt :
      (key n text aad : Bytes) → c.decrypt key n (c.encrypt key n text aad) aad ≡ some text
  pub length_encrypt :
      (key n text aad : Bytes) → length (c.encrypt key n text aad) ≡ length text + tag_size_bytes
  pub length_digest : (text : Bytes) → length (c.digest text) ≡ 32

-- A block that is not too long for the format.
abbrev pub max_size : ℕ
max_size = max_chunks * chunk_size_bytes

module _ (c : Crypto) (key : Bytes) (id : Text) (prefix : Bytes) (text : Bytes) where
  -- The chunk at an index, in the clear and as it is stored.
  unfoldable pub chunk_at : ℕ → Bytes
  chunk_at i = take chunk_size_bytes (drop (i * chunk_size_bytes) text)

  unfoldable pub sealed_chunk : ℕ → Bool → Bytes
  unfolding chunk_at
  sealed_chunk i is_last =
      c.encrypt key (prefix ++ to_bytes 4 i) (chunk_at i) (chunk_aad id i is_last)

  unfoldable pub sealed_upto : ℕ → Bytes
  unfolding sealed_chunk
  sealed_upto zero = []
  sealed_upto (suc k) = sealed_upto k ++ sealed_chunk k false

  unfoldable pub body : ℕ → Bytes
  unfolding sealed_upto sealed_chunk
  body zero = []
  body (suc k) = sealed_upto k ++ sealed_chunk k true

  unfoldable pub metadata_record : Bytes
  metadata_record =
      c.encrypt key (prefix ++ to_bytes 4 max_chunks)
        (pack_metadata (length text) (expected_chunks (length text)) (c.digest text))
        (metadata_aad id (pack_header prefix))

  -- The container of a block, written down at once.
  unfoldable pub sealed_block : Bytes
  unfolding body metadata_record
  sealed_block = pack_header prefix ++ body (expected_chunks (length text)) ++ metadata_record
