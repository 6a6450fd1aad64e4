-- ===== src/BlockStore/Layout.antt =====
-- dfsha/data_node/block_store.py: where the chunks and the metadata of a container stand.
use proyecto1_sd.Base.{Bool, Bool-cases, Bytes, Text, ap, append_assoc, arith, drop, eqb, false}
use proyecto1_sd.Base.{if◌then◌else◌, inl, inr, length, length-append, length-drop, length-take}
use proyecto1_sd.Base.{ltb, ltb→lt, min, refl, slice, slice_middle, suc, sym, true, zero, ℕ, ◌*◌}
use proyecto1_sd.Base.{◌++◌, ◌+◌, ◌-◌, ◌<◌, ◌∙◌, ◌≡◌, ◌≤◌}
use proyecto1_sd.BlockStore.{Crypto, chunk_aad, chunk_size_bytes, tag_size_bytes, to_bytes}
use proyecto1_sd.BlockStore.Disk.{expected_chunks, last_plaintext_size}
use proyecto1_sd.BlockStore.Framing.{IsCrypto, body, chunk_at, sealed_chunk, sealed_upto}

pub expected_chunks-suc :
    (k size : ℕ)
    → suc k ≡ expected_chunks size
    → (k * chunk_size_bytes < size) × (size ≤ k * chunk_size_bytes + chunk_size_bytes)
unfolding expected_chunks
expected_chunks-suc k size h = (ground arith, ground arith)

module _ (c : Crypto) (law : IsCrypto c) (key : Bytes) (id : Text) (prefix text : Bytes) where
  pub length-sealed_chunk :
      (i : ℕ) (is_last : Bool)
      → length (sealed_chunk c key id prefix text i is_last)
        ≡ min chunk_size_bytes (length text - i * chunk_size_bytes) + tag_size_bytes
  unfolding sealed_chunk chunk_at
  length-sealed_chunk i is_last =
      law.length_encrypt key (prefix ++ to_bytes 4 i) (chunk_at c key id prefix text i)
        (chunk_aad id i is_last)
      ∙ omega (
        arith,
        length-take chunk_size_bytes (drop (i * chunk_size_bytes) text),
        length-drop (i * chunk_size_bytes) text,
      )

  pub length-sealed_upto :
      (k : ℕ)
      → k * chunk_size_bytes ≤ length text
      → length (sealed_upto c key id prefix text k) ≡ k * (chunk_size_bytes + tag_size_bytes)
  unfolding sealed_upto
  length-sealed_upto zero h = refl
  length-sealed_upto (suc k) h = omega (
    arith,
    length-sealed_upto k (omega arith),
    length-sealed_chunk k false,
    length-append (sealed_upto c key id prefix text k) (sealed_chunk c key id prefix text k false),
  )

  -- The framing that the metadata asks for.
  pub length-body :
      (k : ℕ)
      → k ≡ expected_chunks (length text)
      → length (body c key id prefix text k)
        ≡ (k - 1) * (chunk_size_bytes + tag_size_bytes)
          + (if eqb k 0 then 0 else last_plaintext_size (length text) k + tag_size_bytes)
  unfolding body last_plaintext_size
  length-body zero h = refl
  length-body (suc k) h =
      let (low, high) = expected_chunks-suc k (length text) h in
      ground (
        arith,
        length-sealed_upto k (omega arith),
        length-sealed_chunk k true,
        length-append (sealed_upto c key id prefix text k)
            (sealed_chunk c key id prefix text k true),
      )

  pub upto_slice :
      (k i : ℕ) (rest : Bytes)
      → i < k
      → k * chunk_size_bytes ≤ length text
      → slice
          (i * (chunk_size_bytes + tag_size_bytes))
          (i * (chunk_size_bytes + tag_size_bytes) + (chunk_size_bytes + tag_size_bytes))
          (sealed_upto c key id prefix text k ++ rest)
        ≡ sealed_chunk c key id prefix text i false
  unfolding sealed_upto
  upto_slice zero i rest h short = absurd (omega arith)
  upto_slice (suc k) i rest h short = elim (Bool-cases (ltb i k)) [
    | inl e ↦
        ap
          (slice (i * (chunk_size_bytes + tag_size_bytes))
            (i * (chunk_size_bytes + tag_size_bytes) + (chunk_size_bytes + tag_size_bytes)))
          (append_assoc (sealed_upto c key id prefix text k)
            (sealed_chunk c key id prefix text k false) rest)
        ∙ upto_slice k i (sealed_chunk c key id prefix text k false ++ rest) (ltb→lt i k e)
            (omega arith)
    | inr e ↦ last_slice (ground arith)
  ]
    where
      last_slice :
          i ≡ k
          → slice
              (i * (chunk_size_bytes + tag_size_bytes))
              (i * (chunk_size_bytes + tag_size_bytes) + (chunk_size_bytes + tag_size_bytes))
              (sealed_upto c key id prefix text k
                ++ sealed_chunk c key id prefix text k false
                ++ rest)
            ≡ sealed_chunk c key id prefix text i false
      last_slice e =
          slice_middle (i * (chunk_size_bytes + tag_size_bytes))
            (i * (chunk_size_bytes + tag_size_bytes) + (chunk_size_bytes + tag_size_bytes))
            (sealed_upto c key id prefix text k) (sealed_chunk c key id prefix text k false) rest
            (omega (arith, length-sealed_upto k (omega arith)))
            (omega (arith, length-sealed_chunk k false))
          ∙ ap (λ j. sealed_chunk c key id prefix text j false) (sym e)

  -- The size of a stored chunk.
  abbrev stored_size : ℕ → ℕ → ℕ
  stored_size k i =
      (if ltb i (k - 1) then chunk_size_bytes else length text - chunk_size_bytes * (k - 1))
      + tag_size_bytes

  last_body-slice :
      (k i : ℕ) (rest : Bytes)
      → suc k ≡ expected_chunks (length text)
      → i ≡ k
      → slice
          (i * (chunk_size_bytes + tag_size_bytes))
          (i * (chunk_size_bytes + tag_size_bytes)
            + (length text - chunk_size_bytes * k + tag_size_bytes))
          (body c key id prefix text (suc k) ++ rest)
        ≡ sealed_chunk c key id prefix text i true
  unfolding body
  last_body-slice k i rest h e =
      let (low, high) = expected_chunks-suc k (length text) h in
      slice_middle (i * (chunk_size_bytes + tag_size_bytes))
        (i * (chunk_size_bytes + tag_size_bytes)
          + (length text - chunk_size_bytes * k + tag_size_bytes))
        (sealed_upto c key id prefix text k) (sealed_chunk c key id prefix text k true) rest
        (omega (arith, length-sealed_upto k (omega arith)))
        (omega (arith, length-sealed_chunk k true))
      ∙ ap (λ j. sealed_chunk c key id prefix text j true) (sym e)

  inner_body-slice :
      (k i : ℕ) (rest : Bytes)
      → suc k ≡ expected_chunks (length text)
      → i < k
      → slice
          (i * (chunk_size_bytes + tag_size_bytes))
          (i * (chunk_size_bytes + tag_size_bytes) + (chunk_size_bytes + tag_size_bytes))
          (body c key id prefix text (suc k) ++ rest)
        ≡ sealed_chunk c key id prefix text i false
  unfolding body
  inner_body-slice k i rest h e =
      let (low, high) = expected_chunks-suc k (length text) h in
      ap
        (slice (i * (chunk_size_bytes + tag_size_bytes))
          (i * (chunk_size_bytes + tag_size_bytes) + (chunk_size_bytes + tag_size_bytes)))
        (append_assoc (sealed_upto c key id prefix text k)
          (sealed_chunk c key id prefix text k true) rest)
      ∙ upto_slice k i (sealed_chunk c key id prefix text k true ++ rest) e (omega arith)

  -- Every chunk stands where `read_block` looks for it.
  pub slice-body :
      (k i : ℕ) (rest : Bytes)
      → k ≡ expected_chunks (length text)
      → i < k
      → slice
          (i * (chunk_size_bytes + tag_size_bytes))
          (i * (chunk_size_bytes + tag_size_bytes) + stored_size k i)
          (body c key id prefix text k ++ rest)
        ≡ sealed_chunk c key id prefix text i (eqb i (k - 1))
  slice-body zero i rest h e = absurd (omega arith)
  slice-body (suc k) i rest h e = elim (Bool-cases (ltb i k)) [
    | inl l ↦ ground (arith, inner_body-slice k i rest h (ltb→lt i k l))
    | inr l ↦ ground (arith, last_body-slice k i rest h (ground arith))
  ]
