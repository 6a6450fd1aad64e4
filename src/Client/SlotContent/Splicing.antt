-- ===== src/Client/SlotContent/Splicing.antt =====
-- The bytes of a slot after a write, index by index, against the file after it.
use proyecto1_sd.Base.{Bool-cases, Bytes, Option, ap, arith, drop, false, get_elem?, if◌then◌else◌}
use proyecto1_sd.Base.{inl, inr, length, length-append, length-drop, length-take, ltb, ltb→lt, max}
use proyecto1_sd.Base.{min, none, refl, slice, some, suc, sym, take, true, zero, ℕ, ◌++◌, ◌+◌, ◌-◌}
use proyecto1_sd.Base.{◌<◌, ◌∙◌, ◌≡◌, ◌≤◌, ◌⊎◌}
use proyecto1_sd.Client.SlotContent.{assign, background, overwritten, spliced, zeros}
use proyecto1_sd.Client.SlotContent.Elements.{get_elem?-assign, get_elem?-past, get_elem?-slice}
use proyecto1_sd.Client.SlotContent.Elements.{get_elem?-take, same_elements}

pub length-zeros : (n : ℕ) → length (zeros n) ≡ n
unfolding zeros
length-zeros zero = refl
length-zeros (suc n) = omega (arith, length-zeros n)

length-assign :
    (a b : ℕ) (bytes xs : Bytes)
    → a ≤ b
    → b ≤ length xs
    → length bytes ≡ b - a
    → length (assign a b bytes xs) ≡ length xs
unfolding assign
length-assign a b bytes xs h k e =
    length-append (take a xs ++ bytes) (drop b xs)
    ∙ omega (arith, length-append (take a xs) bytes, length-take a xs, length-drop b xs)

module _ (start size bsz offset : ℕ) (bytes file_bytes : Bytes) (fits : size ≤ bsz)
    (inside : offset ≤ length file_bytes)
    (in_new : start + size ≤ max (length file_bytes) (offset + length bytes))
    (before_end : start < offset + length bytes) (behind_start : offset < start + size) where
  -- What is read of the old block.
  unfoldable pub old_content : Bytes
  old_content = slice start (start + bsz) file_bytes

  length-kept : length (take size old_content) ≡ min size (length file_bytes - start)
  unfolding old_content slice
  length-kept =
      length-take size (take (start + bsz - start) (drop start file_bytes))
      ∙ omega (
        arith,
        length-take (start + bsz - start) (drop start file_bytes),
        length-drop start file_bytes,
      )

  kept : Bytes
  kept = take size old_content

  length-background : length (background size (some old_content)) ≡ size
  length-background =
      length-assign 0 (length (take size old_content)) (take size old_content) (zeros size)
        (omega arith) (omega (arith, length-kept, length-zeros size)) (omega arith)
      ∙ length-zeros size

  kept_at :
      (i : ℕ) → i < size → get_elem? (take size old_content) i ≡ get_elem? file_bytes (start + i)
  unfolding old_content
  kept_at i h = ground (
    arith,
    get_elem?-take size (slice start (start + bsz) file_bytes) i,
    get_elem?-slice start (start + bsz) file_bytes i,
  )

  background_at :
      (i : ℕ)
      → i < size
      → start + i < length file_bytes
      → get_elem? (background size (some old_content)) i ≡ get_elem? file_bytes (start + i)
  background_at i h k =
      let len = length (take size old_content) in
      let below : i < len = omega (arith, length-kept) in
      get_elem?-assign 0 len (take size old_content) (zeros size) i (omega arith) (omega arith)
      ∙ first_part (get_elem? (zeros size) i) (get_elem? (zeros size) i) (take size old_content) i
          len below
      ∙ kept_at i h
    where
      first_part :
          (x y : Option ℕ) (xs : Bytes) (i n : ℕ)
          → i < n
          → (if ltb i 0 then x else if ltb i n then get_elem? xs (i - 0) else y) ≡ get_elem? xs i
      first_part x y xs i n h = rw (sym (minus_zero i)) (ground arith)
        where
          minus_zero : (i : ℕ) → i ≡ i - 0
          minus_zero i = omega arith

  background_past : (i : ℕ) → size ≤ i → get_elem? (background size (some old_content)) i ≡ none
  background_past i h =
      get_elem?-past (background size (some old_content)) i (omega (arith, length-background))

  unfoldable pub overlap_start : ℕ
  overlap_start = max offset start

  unfoldable pub overlap_end : ℕ
  overlap_end = min (offset + length bytes) (start + size)

  new_bytes : Bytes
  new_bytes = slice (overlap_start - offset) (overlap_end - offset) bytes

  length-new_bytes : length new_bytes ≡ overlap_end - overlap_start
  unfolding new_bytes slice overlap_start overlap_end
  length-new_bytes =
      length-take (overlap_end - offset - (overlap_start - offset))
        (drop (overlap_start - offset) bytes)
      ∙ omega (arith, length-drop (overlap_start - offset) bytes)

  -- The element of the file after the write.
  after_at :
      (i : ℕ)
      → get_elem? (slice start (start + size) (spliced offset bytes file_bytes)) i ≡ (
          if ltb i size
          then (if ltb (start + i) offset
              then get_elem? file_bytes (start + i)
              else if ltb (start + i) (offset + length bytes)
              then get_elem? bytes (start + i - offset)
              else get_elem? file_bytes (start + i))
          else none)
  unfolding spliced
  after_at i = ground (
    arith,
    get_elem?-slice start (start + size) (spliced offset bytes file_bytes) i,
    get_elem?-assign offset (offset + length bytes) bytes file_bytes (start + i) inside refl,
  )

  -- The element of the new block.
  written_at :
      (i : ℕ)
      → get_elem? (overwritten start size offset bytes (some old_content)) i ≡ (
          if ltb i (overlap_start - start)
          then get_elem? (background size (some old_content)) i
          else if ltb i (overlap_end - start)
          then get_elem? bytes (overlap_start - offset + (i - (overlap_start - start)))
          else get_elem? (background size (some old_content)) i)
  unfolding overwritten overlap_start overlap_end new_bytes
  written_at i =
      let bg = background size (some old_content) in
      get_elem?-assign (overlap_start - start) (overlap_end - start) new_bytes bg i
        (omega (arith, length-background)) (omega (arith, length-new_bytes))
      ∙ ground (
        arith,
        get_elem?-slice (overlap_start - offset) (overlap_end - offset) bytes
            (i - (overlap_start - start)),
      )

  same_at :
      (i : ℕ)
      → get_elem? (overwritten start size offset bytes (some old_content)) i
        ≡ get_elem? (slice start (start + size) (spliced offset bytes file_bytes)) i
  unfolding overlap_start overlap_end
  same_at i = written_at i ∙ cases (Bool-cases (ltb i size)) ∙ sym (after_at i)
    where
      index :
          max offset start - start ≤ i
          → max offset start - offset + (i - (max offset start - start)) ≡ start + i - offset
      index h = omega arith

      cases :
          (ltb i size ≡ true) ⊎ (ltb i size ≡ false)
          → (if ltb i (overlap_start - start)
              then get_elem? (background size (some old_content)) i
              else if ltb i (overlap_end - start)
              then get_elem? bytes (overlap_start - offset + (i - (overlap_start - start)))
              else get_elem? (background size (some old_content)) i)
            ≡ (if ltb i size
                then (if ltb (start + i) offset
                    then get_elem? file_bytes (start + i)
                    else if ltb (start + i) (offset + length bytes)
                    then get_elem? bytes (start + i - offset)
                    else get_elem? file_bytes (start + i))
                else none)
      cases (inr e) = ground (arith, background_past i (ge e))
        where
          ge : ltb i size ≡ false → size ≤ i
          ge e = ground arith
      cases (inl e) = elim (Bool-cases (ltb i (max offset start - start))) [
        | inl b ↦ ground (
          arith,
          background_at i (ltb→lt i size e) (omega (arith, ltb→lt i (max offset start - start) b)),
        )
        | inr b ↦ elim (Bool-cases (ltb i (min (offset + length bytes) (start + size) - start))) [
          | inl d ↦ ground (arith, ap (get_elem? bytes) (index (ge b)))
          | inr d ↦
              ground
                (arith, background_at i (ltb→lt i size e) (omega (arith, ltb→lt i size e, ge d)))
        ]
      ]
        where
          ge : {n : ℕ} → ltb i n ≡ false → n ≤ i
          ge e = ground arith

  -- The block after a write is the file after it, at the place of the block.
  pub overwritten-spliced :
      overwritten start size offset bytes (some old_content)
      ≡ slice start (start + size) (spliced offset bytes file_bytes)
  overwritten-spliced =
      same_elements (overwritten start size offset bytes (some old_content))
        (slice start (start + size) (spliced offset bytes file_bytes)) same_at

  pub covered-spliced :
      offset ≤ start
      → start + size ≤ offset + length bytes
      → slice (overlap_start - offset) (overlap_end - offset) bytes
        ≡ slice start (start + size) (spliced offset bytes file_bytes)
  unfolding overlap_start overlap_end
  covered-spliced low high =
      same_elements (slice (overlap_start - offset) (overlap_end - offset) bytes)
        (slice start (start + size) (spliced offset bytes file_bytes))
        (λ i.
          get_elem?-slice (overlap_start - offset) (overlap_end - offset) bytes i
          ∙ same i
          ∙ sym (after_at i))
    where
      index : (i : ℕ) → max offset start - offset + i ≡ start + i - offset
      index i = omega arith

      same :
          (i : ℕ)
          → (if ltb i (overlap_end - offset - (overlap_start - offset))
              then get_elem? bytes (overlap_start - offset + i)
              else none)
            ≡ (if ltb i size
                then (if ltb (start + i) offset
                    then get_elem? file_bytes (start + i)
                    else if ltb (start + i) (offset + length bytes)
                    then get_elem? bytes (start + i - offset)
                    else get_elem? file_bytes (start + i))
                else none)
      same i = ground (arith, ap (get_elem? bytes) (index i))
