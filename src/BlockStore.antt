-- ===== src/BlockStore.antt =====
-- dfsha/data_node/block_store.py: the containers that a data node keeps its blocks in. A byte string
-- is a list of numbers below 256, AES-256-GCM and SHA-256 are arguments, and the directory of a node
-- is a dict from file names to what they hold. The modules below this one hold the reads and proofs.
pub mod Framing
pub mod Disk
pub mod Arrival
pub mod Unpacking
pub mod Layout
pub mod RoundTrip
pub mod Ranges
pub mod Laws
use proyecto1_sd.Base.Errors.{◌>>=◌, ◌>>◌}
use proyecto1_sd.Base.{Bool, Bytes, List, Option, Result, Text, [], block_not_found, codes, drop}
use proyecto1_sd.Base.{eqb, every, false, guard, if◌then◌else◌, internal, is_empty, leb, length}
use proyecto1_sd.Base.{ltb, ok, suc, take, true, zero, ℕ, ◌%◌, ◌&&◌, ◌*◌, ◌++◌, ◌+◌, ◌/◌, ◌||◌, ◌∷◌}

-- What the module uses of `AESGCM` and `hashlib`: key, nonce, text and associated data. A tag that
-- does not match (`InvalidTag`) decrypts to nothing.
pub record Crypto : Type 0 where
  pub encrypt : Bytes → Bytes → Bytes → Bytes → Bytes
  pub decrypt : Bytes → Bytes → Bytes → Bytes → Option Bytes
  pub digest : Bytes → Bytes
  pub hexdigest : Bytes → Text

abbrev pub magic : Bytes
magic = b'D' ∷ b'F' ∷ b'S' ∷ b'E' ∷ b'1' ∷ []

abbrev pub format_version : ℕ
format_version = 1

abbrev pub chunk_size_bytes : ℕ
chunk_size_bytes = 1048576

abbrev pub tag_size_bytes : ℕ
tag_size_bytes = 16

abbrev pub header_size : ℕ
header_size = 14

abbrev pub metadata_size : ℕ
metadata_size = 48

abbrev pub metadata_record_size : ℕ
metadata_record_size = 64

abbrev pub max_chunks : ℕ
max_chunks = 4294967295

-- `_VALID_BLOCK_ID`
abbrev pub is_hex_digit : ℕ → Bool
is_hex_digit c = leb b'0' c && leb c b'9' || leb b'a' c && leb c b'f'

unfoldable pub is_block_id : Text → Bool
is_block_id id = eqb (length id) 32 && every is_hex_digit id

abbrev pub validate_block_id : Text → Result (Unit {0})
validate_block_id id = guard (is_block_id id) block_not_found

-- `_validate_key` raises a `ValueError`.
abbrev pub validate_key : Bytes → Result (Unit {0})
validate_key key = guard (eqb (length key) 32) internal

-- `n.to_bytes(w, "big")` for a number below 256 ^ w, and `int.from_bytes`.
unfoldable pub to_bytes : ℕ → ℕ → Bytes
to_bytes zero n = []
to_bytes (suc w) n = to_bytes w (n / 256) ++ n % 256 ∷ []

unfoldable pub from_bytes_onto : ℕ → Bytes → ℕ
from_bytes_onto n [] = n
from_bytes_onto n (b ∷ bs) = from_bytes_onto (256 * n + b) bs

unfoldable pub from_bytes : Bytes → ℕ
unfolding from_bytes_onto
from_bytes bs = from_bytes_onto 0 bs

-- `_nonce` raises a `ValueError` past the last chunk of the format.
unfoldable pub nonce : Bytes → ℕ → Result Bytes
nonce prefix counter = do guard (leb counter max_chunks) internal; ok (prefix ++ to_bytes 4 counter)

abbrev pub flag : Bool → Bytes
flag true = 1 ∷ []
flag false = 0 ∷ []

unfoldable pub chunk_aad : Text → ℕ → Bool → Bytes
chunk_aad id index is_last = id ++ to_bytes 4 index ++ flag is_last

unfoldable pub metadata_aad : Text → Bytes → Bytes
metadata_aad id header = id ++ codes "metadata" ++ header

-- `_HEADER.pack` and `_METADATA.pack`
unfoldable pub pack_header : Bytes → Bytes
pack_header prefix = magic ++ format_version ∷ prefix

unfoldable pub pack_metadata : ℕ → ℕ → Bytes → Bytes
pack_metadata size count checksum = to_bytes 8 size ++ to_bytes 8 count ++ checksum

-- The variables of `write_block` while it runs. The hasher's input has `bytes_written` bytes.
pub record Writing : Type 0 where
  pub part : Bytes
  pub chunk_count : ℕ
  pub hashed : Bytes
  pub pending : Bytes

module _ (c : Crypto) (key : Bytes) (id : Text) (prefix : Bytes) where
  -- `_encrypt_chunk`
  unfoldable pub encrypt_chunk : ℕ → Bool → Bytes → Result Bytes
  unfolding nonce
  encrypt_chunk index is_last plaintext = do
    n ← nonce prefix index
    ok (c.encrypt key n plaintext (chunk_aad id index is_last))

  -- `flush`
  unfoldable pub flush : Bytes → Bool → Writing → Result Writing
  unfolding encrypt_chunk
  flush plaintext is_last w = do
    guard (ltb w.chunk_count max_chunks) internal
    sealed ← encrypt_chunk w.chunk_count is_last plaintext
    ok (record w { part = w.part ++ sealed; chunk_count = w.chunk_count + 1 })

  -- `while len(pending) > _CHUNK_SIZE_BYTES`
  unfoldable pub drain : ℕ → Writing → Result Writing
  unfolding flush
  drain zero w = ok w
  drain (suc fuel) w = elim (ltb chunk_size_bytes (length w.pending)) [
    | false ↦ ok w
    | true ↦ flush (take chunk_size_bytes w.pending) false w >>= λ v.
        drain fuel (record v { pending = drop chunk_size_bytes w.pending })
  ]

  -- The body of `for incoming in chunks`; each round of its loop takes away a chunk of `pending`.
  unfoldable pub receive : Bytes → Writing → Result Writing
  unfolding drain
  receive incoming w =
      let v = record w { pending = w.pending ++ incoming; hashed = w.hashed ++ incoming } in
      drain (length v.pending) v

  unfoldable pub receive_all : List Bytes → Writing → Result Writing
  unfolding receive
  receive_all [] w = ok w
  receive_all (incoming ∷ chunks) w = receive incoming w >>= receive_all chunks

  -- What follows the loop: the last chunk and the metadata record.
  unfoldable pub complete : Writing → Result Bytes
  unfolding flush nonce
  complete w = do
    v ← (if is_empty w.pending then ok w else flush w.pending true w)
    n ← nonce prefix max_chunks
    ok (
        v.part
        ++ c.encrypt key n (pack_metadata (length v.hashed) v.chunk_count (c.digest v.hashed))
            (metadata_aad id (pack_header prefix)))

  -- The container that `write_block` writes, and what it hashed, where `chunks` ends by `how_ended`.
  unfoldable pub container : List Bytes → Result (Unit {0}) → Result (Bytes × Bytes)
  unfolding receive_all complete
  container chunks how_ended = do
    w ←
        receive_all chunks
          (record { part = pack_header prefix; chunk_count = 0; hashed = []; pending = [] })
    how_ended
    contents ← complete w
    ok (contents, w.hashed)
