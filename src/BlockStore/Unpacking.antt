-- ===== src/BlockStore/Unpacking.antt =====
-- dfsha/data_node/block_store.py: `_read_metadata` takes back what `write_block` packed.
use native.Mathlib.Numerals.{unary_clauses}
use proyecto1_sd.Base.{Bytes, [], ap, append_assoc, append_nil, arith, length, length-append, ok}
use proyecto1_sd.Base.{refl, slice, slice_middle, suc, sum, sym, zero, ℕ, ◌%◌, ◌*◌, ◌++◌, ◌+◌, ◌/◌}
use proyecto1_sd.Base.{◌<◌, ◌^◌, ◌∙◌, ◌∷◌, ◌≡◌, ◌≤◌}
use proyecto1_sd.BlockStore.{from_bytes, from_bytes_onto, max_chunks, metadata_size, pack_metadata}
use proyecto1_sd.BlockStore.{to_bytes}
use proyecto1_sd.BlockStore.Disk.{expected_chunks, expected_size, unpack_metadata}

pub length-to_bytes : (w n : ℕ) → length (to_bytes w n) ≡ w
unfolding to_bytes
length-to_bytes zero n = refl
length-to_bytes (suc w) n =
    omega (arith, length-append (to_bytes w (n / 256)) (n % 256 ∷ []), length-to_bytes w (n / 256))

from_bytes_onto-append :
    (n b : ℕ) (bs : Bytes) → from_bytes_onto n (bs ++ b ∷ []) ≡ 256 * from_bytes_onto n bs + b
unfolding from_bytes_onto
from_bytes_onto-append n b [] = refl
from_bytes_onto-append n b (a ∷ bs) = from_bytes_onto-append (256 * n + a) b bs

below : (w n : ℕ) → n < 256 ^ suc w → n < 256 * 256 ^ w
below w n h = omega (arith, simp unary_clauses at h)

quotient_lt : (k n : ℕ) → n < 256 * k → n / 256 < k
quotient_lt k n h = omega arith

-- A number that fits is read back.
pub from_bytes-to_bytes : (w n : ℕ) → n < 256 ^ w → from_bytes (to_bytes w n) ≡ n
unfolding from_bytes to_bytes
from_bytes-to_bytes zero n h = omega arith
from_bytes-to_bytes (suc w) n h =
    from_bytes_onto-append 0 (n % 256) (to_bytes w (n / 256))
    ∙ ap (λ m. 256 * m + n % 256)
        (from_bytes-to_bytes w (n / 256) (quotient_lt (256 ^ w) n (below w n h)))
    ∙ omega arith

pub length-pack_metadata :
    (size count : ℕ) (sum : Bytes)
    → length sum ≡ 32
    → length (pack_metadata size count sum) ≡ metadata_size
unfolding pack_metadata
length-pack_metadata size count sum h =
    length-append (to_bytes 8 size ++ to_bytes 8 count) sum
    ∙ omega (
      arith,
      length-append (to_bytes 8 size) (to_bytes 8 count),
      length-to_bytes 8 size,
      length-to_bytes 8 count,
    )

module _ (size count : ℕ) (checksum : Bytes) (h : length checksum ≡ 32) where
  packed_size : size < 256 ^ 8 → from_bytes (slice 0 8 (pack_metadata size count checksum)) ≡ size
  unfolding pack_metadata
  packed_size fits =
      ap (λ bs. from_bytes (slice 0 8 bs))
        (append_assoc (to_bytes 8 size) (to_bytes 8 count) checksum)
      ∙ ap from_bytes (
          slice_middle 0 8 [] (to_bytes 8 size) (to_bytes 8 count ++ checksum) refl
            (omega (arith, length-to_bytes 8 size)))
      ∙ from_bytes-to_bytes 8 size fits

  packed_count :
      count < 256 ^ 8 → from_bytes (slice 8 16 (pack_metadata size count checksum)) ≡ count
  unfolding pack_metadata
  packed_count fits =
      ap from_bytes (
        slice_middle 8 16 (to_bytes 8 size) (to_bytes 8 count) checksum
          (sym (length-to_bytes 8 size)) (omega (arith, length-to_bytes 8 count)))
      ∙ from_bytes-to_bytes 8 count fits

  packed_checksum : slice 16 48 (pack_metadata size count checksum) ≡ checksum
  unfolding pack_metadata
  packed_checksum =
      ap (slice 16 48) (sym (append_nil (to_bytes 8 size ++ to_bytes 8 count ++ checksum)))
      ∙ slice_middle 16 48 (to_bytes 8 size ++ to_bytes 8 count) checksum []
          (omega (
            arith,
            length-append (to_bytes 8 size) (to_bytes 8 count),
            length-to_bytes 8 size,
            length-to_bytes 8 count,
          ))
          (omega arith)

  -- The record is unpacked to what was packed, where the container has the size that it asks for.
  pub unpack-pack :
      (prefix file_bytes : Bytes)
      → size < 256 ^ 8
      → count ≡ expected_chunks size
      → count ≤ max_chunks
      → length file_bytes ≡ expected_size size count
      → unpack_metadata prefix (pack_metadata size count checksum) file_bytes
        ≡ ok record {
          prefix = prefix;
          logical_size = size;
          chunk_count = count;
          checksum = checksum;
        }
  unfolding unpack_metadata
  unpack-pack prefix file_bytes fits counted few framed =
      let total = length-pack_metadata size count checksum h in
      let first = packed_size fits in
      let second = packed_count (omega arith) in
      rw (packed_checksum, first, second) (ground (arith, total))
