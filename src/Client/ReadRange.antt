-- ===== src/Client/ReadRange.antt =====
-- dfsha/client/distributed_client.py: `_block_starts` and `_read_range`, from the answer of
-- `ListBlocks` on. How a range of a block is fetched is a parameter.
use mathlib.Core.Path.{ap₂}
use proyecto1_sd.Base.{Bool-cases, Bytes, List, Option, [], ap, append_assoc, append_nil, arith}
use proyecto1_sd.Base.{concat, drop, false, if◌then◌else◌, inl, inr, invalid_path, length}
use proyecto1_sd.Base.{length-append, ltb, map, max, min, none, path_not_found, pos, refl, slice}
use proyecto1_sd.Base.{slice_joined, slice_nil, slice_skipped, some, sum, sym, to_nat, true, ℕ, ℤ}
use proyecto1_sd.Base.{◌&&◌, ◌++◌, ◌+◌, ◌-◌, ◌<◌, ◌∙◌, ◌∷◌, ◌≡◌, ◌≤◌}
use proyecto1_sd.BlockStore.Disk.{is_negative_range, range_end}
use proyecto1_sd.Client.{translate}
use proyecto1_sd.Client.Calls.{Called, gave, raised_as}
use proyecto1_sd.Client.Failover.{BlockRef, Fetched, fetched, replicas_failed, unregistered}

-- `_block_starts`
unfoldable pub starts_from : ℕ → List BlockRef → List ℕ
starts_from position [] = []
starts_from position (b ∷ blocks) = position ∷ starts_from (position + b.size_bytes) blocks

unfoldable pub block_starts : List BlockRef → List ℕ
block_starts blocks = starts_from 0 blocks

abbrev pub total_size : List BlockRef → ℕ
total_size blocks = sum (map (λ b. b.size_bytes) blocks)

module _ (fetch : BlockRef → ℕ → ℕ → Bytes → Fetched) where
  -- `for block in blocks`: the outcome, and what was written.
  unfoldable pub read_blocks : ℕ → ℕ → List BlockRef → ℕ → ℕ → Bytes → Called ℕ × Bytes
  read_blocks offset till [] block_start written out = (gave written, out)
  read_blocks offset till (b ∷ blocks) block_start written out =
      let block_end = block_start + b.size_bytes in
      let start_in_block = max offset block_start - block_start in
      let count = min till block_end - block_start - start_in_block in
      let skipped = read_blocks offset till blocks block_end written out in
      if ltb block_start till && ltb offset block_end
      then elim (fetch b start_in_block count out) [
        | fetched n out' ↦ read_blocks offset till blocks block_end (written + n) out'
        | unregistered out' ↦ (raised_as (some path_not_found), out')
        | replicas_failed e out' ↦ (raised_as (translate e), out')
      ]
      else skipped

  -- `_read_range` into an empty buffer.
  unfoldable pub read_range_of : List BlockRef → ℤ → Option ℤ → Called ℕ × Bytes
  read_range_of blocks offset l =
      let size = total_size blocks in
      let from = to_nat offset in
      if is_negative_range offset l
      then (raised_as (some invalid_path), [])
      else if ltb size from
      then (raised_as (some invalid_path), [])
      else read_blocks from (range_end size from l) blocks 0 0 []

  -- A block that is not empty and whose ranges are fetched from its bytes.
  pub record IsServed (b : BlockRef) (bytes : Bytes) : Type 0 where
    pub sized : length bytes ≡ b.size_bytes
    pub nonempty : 0 < b.size_bytes
    pub serves :
        (start count : ℕ) (out : Bytes)
        → 0 < count
        → start + count ≤ b.size_bytes
        → fetch b start count out ≡ fetched count (out ++ slice start (start + count) bytes)

  abbrev pub AllServed : List BlockRef → List Bytes → Type 0
  AllServed [] [] = Unit
  AllServed [] (t ∷ texts) = ⊥
  AllServed (b ∷ blocks) [] = ⊥
  AllServed (b ∷ blocks) (t ∷ texts) = IsServed b t × AllServed blocks texts

  in_rest :
      (t : Bytes) (texts : List Bytes) (till block_start size : ℕ)
      → length t ≡ size
      → till ≤ block_start + length (concat (t ∷ texts))
      → till ≤ block_start + size + length (concat texts)
  unfolding concat
  in_rest t texts till block_start size sized h = omega (arith, length-append t (concat texts))

  overlaps : (a b c d : ℕ) → (ltb a b && ltb c d) ≡ true → (a < b) × (c < d)
  overlaps a b c d e = (ground arith, ground arith)

  misses : (a b c d : ℕ) → (ltb a b && ltb c d) ≡ false → min b d ≤ max a c
  misses a b c d e = ground arith

  read_blocks-slice :
      (offset till : ℕ) (blocks : List BlockRef) (texts : List Bytes) (block_start written : ℕ)
      (out : Bytes)
      → AllServed blocks texts
      → offset < till
      → till ≤ block_start + length (concat texts)
      → read_blocks offset till blocks block_start written out ≡ (
        gave (written + (till - max offset block_start)),
        out ++ slice (offset - block_start) (till - block_start) (concat texts),
      )
  unfolding read_blocks concat
  read_blocks-slice offset till [] [] block_start written out all some_left h =
      ap₂ (λ n bytes. (gave n, bytes)) (omega arith)
        (sym (append_nil out)
          ∙ ap (◌++◌ out) (sym (slice_nil (offset - block_start) (till - block_start))))
  read_blocks-slice offset till [] (t ∷ texts) block_start written out all some_left h = absurd all
  read_blocks-slice offset till (b ∷ blocks) [] block_start written out all some_left h = absurd all
  read_blocks-slice offset till (b ∷ blocks) (t ∷ texts) block_start written out (s, all) some_left
        h =
      let block_end = block_start + b.size_bytes in
      let start = max offset block_start - block_start in
      let count = min till block_end - block_start - start in
      let rest_fits = in_rest t texts till block_start b.size_bytes s.sized h in
      elim (Bool-cases (ltb block_start till && ltb offset (block_start + b.size_bytes))) [
        | inl e ↦
            let (low, high) = overlaps block_start till offset block_end e in
            let chunk = slice start (start + count) t in
            rw (read_blocks, e, s.serves start count out (omega (arith, s.nonempty)) (omega arith))
              (read_blocks-slice offset till blocks texts block_end (written + count) (out ++ chunk)
                  all some_left rest_fits
                ∙ ap₂ (λ n bytes. (gave n, bytes)) (omega arith)
                    (append_assoc out chunk
                        (slice (offset - block_end) (till - block_end) (concat texts))
                      ∙ ap (◌++◌ out) (
                          slice_joined (offset - block_start) (till - block_start) start
                            (start + count) (offset - block_end) (till - block_end) t (concat texts)
                            (omega arith) (omega (arith, s.sized)) (omega (arith, s.sized))
                            (omega (arith, s.sized)))))
        | inr e ↦
            let apart = misses block_start till offset block_end e in
            rw (read_blocks, e)
              (read_blocks-slice offset till blocks texts block_end written out all some_left
                  rest_fits
                ∙ ap₂ (λ n bytes. (gave n, bytes)) (omega (arith, apart))
                    (ap (◌++◌ out) (
                      slice_skipped (offset - block_start) (till - block_start) (offset - block_end)
                        (till - block_end) t (concat texts) (omega (arith, s.sized, apart))
                        (omega (arith, s.sized)) (omega (arith, s.sized)))))
      ]

  total_size-length :
      (blocks : List BlockRef) (texts : List Bytes)
      → AllServed blocks texts
      → total_size blocks ≡ length (concat texts)
  unfolding concat
  total_size-length [] [] all = refl
  total_size-length [] (t ∷ texts) all = absurd all
  total_size-length (b ∷ blocks) [] all = absurd all
  total_size-length (b ∷ blocks) (t ∷ texts) (s, all) =
      omega (arith, total_size-length blocks texts all, length-append t (concat texts), s.sized)

  range_end-le : (size offset : ℕ) (l : Option ℤ) → range_end size offset l ≤ size
  range_end-le size offset none = omega arith
  range_end-le size offset (some n) = omega arith

  in_file : (offset till size : ℕ) → offset < till → till ≤ size → ltb size offset ≡ false
  in_file offset till size h k = ground arith

  -- A range of a file is read: where the blocks are not empty and their ranges can be fetched, the
  -- range from an offset up to an end behind it, at most the end of the file, comes back as those
  -- bytes of the blocks in a row, with their count.
  pub read_range_of-slice :
      (blocks : List BlockRef) (texts : List Bytes) (offset : ℕ) (l : Option ℤ)
      → AllServed blocks texts
      → is_negative_range (pos offset) l ≡ false
      → offset < range_end (total_size blocks) offset l
      → let till = range_end (length (concat texts)) offset l in
        read_range_of blocks (pos offset) l
        ≡ (gave (till - offset), slice offset till (concat texts))
  unfolding read_range_of
  read_range_of-slice blocks texts offset l all positive some_left =
      let till = range_end (total_size blocks) offset l in
      let fits = range_end-le (total_size blocks) offset l in
      rw (read_range_of, positive, in_file offset till (total_size blocks) some_left fits)
        (read_blocks-slice offset till blocks texts 0 0 [] all some_left
            (omega (arith, total_size-length blocks texts all))
          ∙ ap₂ (λ n bytes. (gave n, bytes)) (omega arith)
              (ap (λ m. slice m (till - 0) (concat texts)) (omega arith)
                ∙ ap (λ m. slice offset m (concat texts)) (omega arith))
          ∙ ap
              (λ n. (
                gave (range_end n offset l - offset),
                slice offset (range_end n offset l) (concat texts),
              ))
              (total_size-length blocks texts all))

  skip_before :
      (before rest : List BlockRef) (offset block_start written : ℕ) (out : Bytes)
      → block_start + total_size before ≤ offset
      → read_blocks offset offset (before ++ rest) block_start written out
        ≡ read_blocks offset offset rest (block_start + total_size before) written out
  unfolding read_blocks
  skip_before [] rest offset block_start written out h =
      ap (λ n. read_blocks offset offset rest n written out) (omega arith)
  skip_before (b ∷ before) rest offset block_start written out h =
      rw (read_blocks, missed)
        (skip_before before rest offset (block_start + b.size_bytes) written out (omega arith)
          ∙ ap (λ n. read_blocks offset offset rest n written out) (omega arith))
    where
      missed : (ltb block_start offset && ltb offset (block_start + b.size_bytes)) ≡ false
      missed = ground arith

  skip_after :
      (blocks : List BlockRef) (offset block_start written : ℕ) (out : Bytes)
      → offset ≤ block_start
      → read_blocks offset offset blocks block_start written out ≡ (gave written, out)
  unfolding read_blocks
  skip_after [] offset block_start written out h = refl
  skip_after (b ∷ blocks) offset block_start written out h =
      rw (read_blocks, missed)
        (skip_after blocks offset (block_start + b.size_bytes) written out (omega arith))
    where
      missed : (ltb block_start offset && ltb offset (block_start + b.size_bytes)) ≡ false
      missed = ground arith

  total_size-append :
      (before rest : List BlockRef)
      → total_size (before ++ rest) ≡ total_size before + total_size rest
  total_size-append [] rest = omega arith
  total_size-append (b ∷ before) rest = omega (arith, total_size-append before rest)

  range_end_zero : (offset size : ℕ) → offset ≤ size → min size (offset + 0) ≡ offset
  range_end_zero offset size h = omega arith

  inside_file : (offset size : ℕ) → offset ≤ size → ltb size offset ≡ false
  inside_file offset size h = ground arith

  one_block :
      (before after : List BlockRef) (b : BlockRef) (k : ℕ) (bytes : Bytes)
      → 0 < k
      → k < b.size_bytes
      → fetch b k 0 [] ≡ fetched (b.size_bytes - k) (drop k bytes)
      → read_blocks
          (total_size before + k)
          (total_size before + k)
          (b ∷ after)
          (0 + total_size before)
          0
          []
        ≡ (gave (b.size_bytes - k), drop k bytes)
  unfolding read_blocks
  one_block before after b k bytes inside below served =
      let at = total_size before in
      let offset = at + k in
      let start = max offset (0 + at) - (0 + at) in
      let count = min offset (0 + at + b.size_bytes) - (0 + at) - start in
      let at_k : start ≡ k = omega arith in
      let no_count : count ≡ 0 = omega arith in
      rw
        (
          read_blocks,
          met at k b.size_bytes inside below,
          ap (λ n. fetch b n count []) at_k ∙ ap (λ n. fetch b k n []) no_count ∙ served,
        )
        (skip_after after offset (0 + at + b.size_bytes) (0 + (b.size_bytes - k)) (drop k bytes)
            (omega arith)
          ∙ ap (λ n. (gave n, drop k bytes)) (omega arith))
    where
      met :
          (at k size : ℕ)
          → 0 < k
          → k < size
          → (ltb (0 + at) (at + k) && ltb (at + k) (0 + at + size)) ≡ true
      met at k size h l = ground arith

  -- A read of no bytes inside a block returns bytes: with the length 0 at an offset that is neither at
  -- the start nor at the end of a block, the block is asked for 0 bytes, which a data node takes for
  -- all that is left of it, and these are returned.
  pub read_range_of_zero :
      (before after : List BlockRef) (b : BlockRef) (k : ℕ) (bytes : Bytes)
      → 0 < k
      → k < b.size_bytes
      → fetch b k 0 [] ≡ fetched (b.size_bytes - k) (drop k bytes)
      → read_range_of (before ++ b ∷ after) (pos (total_size before + k)) (some (pos 0))
        ≡ (gave (b.size_bytes - k), drop k bytes)
  unfolding read_range_of
  read_range_of_zero before after b k bytes inside below served =
      let offset = total_size before + k in
      let total = total_size-append before (b ∷ after) in
      rw
        (
          read_range_of,
          inside_file offset (total_size (before ++ b ∷ after)) (omega (arith, total)),
          range_end_zero offset (total_size (before ++ b ∷ after)) (omega (arith, total)),
        )
        (skip_before before (b ∷ after) offset 0 0 [] (omega arith)
          ∙ one_block before after b k bytes inside below served)
