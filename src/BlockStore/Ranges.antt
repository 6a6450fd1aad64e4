-- ===== src/BlockStore/Ranges.antt =====
-- dfsha/data_node/block_store.py: the loops of `read_block` put a range together.
use mathlib.Core.Path.{ap₂}
use proyecto1_sd.Base.{Bool, Bool-cases, Bytes, List, Option, Text, [], ap, arith, concat}
use proyecto1_sd.Base.{concat-append, every, false, inl, inr, leb, length, length-slice-le, ltb}
use proyecto1_sd.Base.{ltb→lt, max, min, negsuc, none, ok, pos, refl, slice, slice_none, slice_step}
use proyecto1_sd.Base.{slice_window, some, suc, sym, true, zero, ℕ, ℤ, ◌*◌, ◌++◌, ◌+◌, ◌-◌, ◌/◌}
use proyecto1_sd.Base.{◌<◌, ◌||◌, ◌∙◌, ◌∷◌, ◌≡◌, ◌≤◌}
use proyecto1_sd.BlockStore.{Crypto, chunk_size_bytes}
use proyecto1_sd.BlockStore.Disk.{Metadata, Range, chunk_pieces, end_in_chunk, expected_chunks}
use proyecto1_sd.BlockStore.Disk.{is_negative_range, is_zero, pieces, plaintext_size, range_end}
use proyecto1_sd.BlockStore.Disk.{read_chunks, read_range, start_in_chunk}
use proyecto1_sd.BlockStore.Framing.{IsCrypto, chunk_at, max_size, sealed_block}
use proyecto1_sd.BlockStore.RoundTrip.{decrypt_chunk-sealed_block, metadata}

-- No piece is longer than the size that was asked for.
abbrev pub are_short : ℕ → List Bytes → Bool
are_short size ps = every (λ p. leb (length p) size) ps

are_short-append :
    (size : ℕ) (ps qs : List Bytes)
    → are_short size ps ≡ true
    → are_short size qs ≡ true
    → are_short size (ps ++ qs) ≡ true
are_short-append size [] qs h k = k
are_short-append size (p ∷ ps) qs h k = ground (arith, are_short-append size ps qs)

slice_meet :
    (a m b : ℕ) (xs : Bytes) → a ≤ m → a ≤ b → slice a (min m b) xs ++ slice m b xs ≡ slice a b xs
slice_meet a m b xs h k =
    ap (λ n. slice a (min n b) xs ++ slice n b xs) (omega arith) ∙ slice_step a (m - a) b xs k

concat-pieces :
    (fuel step a b : ℕ) (text : Bytes)
    → 0 < step
    → b - a ≤ fuel
    → concat (pieces fuel step a b text) ≡ slice a b text
unfolding pieces concat
concat-pieces zero step a b text h k = sym (slice_none a b text (omega arith))
concat-pieces (suc fuel) step a b text h k = elim (Bool-cases (ltb a b)) [
  | inr e ↦ ground (arith, slice_none a b text (past e))
  | inl e ↦ ground (
    arith,
    concat-pieces fuel step (a + step) b text h (shorter e),
    slice_step a step b text (omega (arith, ltb→lt a b e)),
  )
]
  where
    past : ltb a b ≡ false → b ≤ a
    past e = ground arith

    shorter : ltb a b ≡ true → b - (a + step) ≤ fuel
    shorter e = omega (arith, ltb→lt a b e)

pieces_short :
    (fuel step a b : ℕ) (text : Bytes) → are_short step (pieces fuel step a b text) ≡ true
unfolding pieces
pieces_short zero step a b text = refl
pieces_short (suc fuel) step a b text =
    ground
      (arith, pieces_short fuel step (a + step) b text, length-slice-le a (min (a + step) b) text)

module _ (c : Crypto) (law : IsCrypto c) (key : Bytes) (id : Text) (prefix text : Bytes)
    (prefix_fits : length prefix ≡ 8) (short : length text ≤ max_size) (chunk_size offset till : ℕ)
    (steps : 0 < chunk_size) (low : offset < till) (high : till ≤ length text) where
  range : Range
  range = record {
    chunk_size = chunk_size;
    offset = offset;
    till = till;
    first = offset / chunk_size_bytes;
    last = (till - 1) / chunk_size_bytes;
  }

  stored : Metadata
  stored = metadata c law key id prefix text prefix_fits short

  -- Where the part of the range in a chunk begins and ends.
  from_chunk : ℕ → ℕ
  from_chunk i = max offset (i * chunk_size_bytes)

  index_lt : (i : ℕ) → i ≤ (till - 1) / chunk_size_bytes → i < expected_chunks (length text)
  unfolding expected_chunks
  index_lt i h = ground arith

  start_lem :
      (i : ℕ)
      → offset / chunk_size_bytes ≤ i
      → i * chunk_size_bytes + start_in_chunk range i ≡ from_chunk i
  unfolding range from_chunk
  start_lem i above = ground arith

  end_lem :
      (i : ℕ)
      → offset / chunk_size_bytes ≤ i
      → i ≤ (till - 1) / chunk_size_bytes
      → (i * chunk_size_bytes + end_in_chunk range stored i ≡ min (from_chunk (i + 1)) till)
        × (end_in_chunk range stored i ≤ chunk_size_bytes)
  unfolding range from_chunk stored metadata plaintext_size expected_chunks
  end_lem i above below = (ground arith, ground arith)

  concat-chunk_pieces :
      (i : ℕ)
      → offset / chunk_size_bytes ≤ i
      → i ≤ (till - 1) / chunk_size_bytes
      → (ps : List Bytes) × (chunk_pieces c key id
            (sealed_block c key id prefix text)
            stored
            range
            i
          ≡ ok ps)
        × (concat ps ≡ slice (from_chunk i) (min (from_chunk (i + 1)) till) text)
        × (are_short chunk_size ps ≡ true)
  unfolding chunk_pieces chunk_at range stored
  concat-chunk_pieces i above below =
      let from = start_in_chunk range i in
      let to = end_in_chunk range stored i in
      let plaintext = chunk_at c key id prefix text i in
      let (ends, fits) = end_lem i above below in
      let opened =
        decrypt_chunk-sealed_block c law key id prefix text prefix_fits short i
          (index_lt i below) in
      (
        pieces (to - from) chunk_size from to plaintext,
        rw opened (ground (arith, steps)),
        concat-pieces (to - from) chunk_size from to plaintext steps (omega arith)
            ∙ slice_window (i * chunk_size_bytes) chunk_size_bytes from to text fits
            ∙ ap (λ a. slice a (i * chunk_size_bytes + to) text) (start_lem i above)
            ∙ ap (λ b. slice (from_chunk i) b text) ends,
        pieces_short (to - from) chunk_size from to plaintext,
      )

  concat-read_chunks :
      (n i : ℕ)
      → offset / chunk_size_bytes ≤ i
      → i + n ≡ (till - 1) / chunk_size_bytes + 1
      → let (ps, ending) =
          read_chunks c key id (sealed_block c key id prefix text) stored range n i in
        (ending ≡ ok tt)
        × (concat ps ≡ slice (from_chunk i) till text)
        × (are_short chunk_size ps ≡ true)
  unfolding read_chunks concat from_chunk
  concat-read_chunks zero i above all =
      (refl, sym (slice_none (from_chunk i) till text (omega arith)), refl)
  concat-read_chunks (suc n) i above all =
      let (ps, read, made, are) = concat-chunk_pieces i above (omega arith) in
      let (ending, rest, small) = concat-read_chunks n (i + 1) (omega arith) (omega arith) in
      rw (read_chunks, read)
        (
          ending,
          concat-append ps
                (read_chunks c key id (sealed_block c key id prefix text) stored range n (i + 1)).0
              ∙ ap₂ ◌++◌ made rest
              ∙ slice_meet (from_chunk i) (from_chunk (i + 1)) till text (omega arith)
                  (omega arith),
          are_short-append chunk_size ps
              (read_chunks c key id (sealed_block c key id prefix text) stored range n (i + 1)).0
              are small,
        )

range_none :
    (size offset : ℕ) (l : Option ℤ)
    → (leb size offset || is_zero l) ≡ true
    → range_end size offset l ≤ offset
range_none size offset none h = ground arith
range_none size offset (some (pos n)) h = ground arith
range_none size offset (some (negsuc n)) h = omega arith

range_some :
    (size offset : ℕ) (l : Option ℤ)
    → is_negative_range (pos offset) l ≡ false
    → (leb size offset || is_zero l) ≡ false
    → (offset < range_end size offset l) × (range_end size offset l ≤ size)
range_some size offset none k h = (ground arith, omega arith)
range_some size offset (some (pos n)) k h = (ground arith, omega arith)
range_some size offset (some (negsuc n)) k h = absurd (ground arith)

module _ (c : Crypto) (law : IsCrypto c) (key : Bytes) (id : Text) (prefix text : Bytes)
    (prefix_fits : length prefix ≡ 8) (short : length text ≤ max_size) where
  -- A range of a container that was written comes back as pieces of the bytes it names.
  pub read_range-sealed_block :
      (chunk_size offset : ℕ) (l : Option ℤ)
      → 0 < chunk_size
      → is_negative_range (pos offset) l ≡ false
      → let (ps, ending) =
          read_range c key id
            (sealed_block c key id prefix text)
            (metadata c law key id prefix text prefix_fits short)
            chunk_size
            offset
            l in
        (ending ≡ ok tt)
        × (concat ps ≡ slice offset (range_end (length text) offset l) text)
        × (are_short chunk_size ps ≡ true)
  unfolding read_range metadata concat range stored from_chunk
  read_range-sealed_block chunk_size offset l steps positive =
      let till = range_end (length text) offset l in
      let first = offset / chunk_size_bytes in
      let last = (till - 1) / chunk_size_bytes in
      elim (Bool-cases (leb (length text) offset || is_zero l)) [
        | inl e ↦
            rw e
              (refl, sym (slice_none offset till text (range_none (length text) offset l e)), refl)
        | inr e ↦
            let (low, high) = range_some (length text) offset l positive e in
            let (ending, made, are) =
              concat-read_chunks c law key id prefix text prefix_fits short chunk_size offset till
                steps low high (last + 1 - first) first (omega arith) (omega arith) in
            rw e (ending, made ∙ ap (λ a. slice a till text) (omega arith), are)
      ]
