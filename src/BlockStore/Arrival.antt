-- ===== src/BlockStore/Arrival.antt =====
-- dfsha/data_node/block_store.py: `write_block` writes the container, whatever chunks the text arrives in.
use proyecto1_sd.Base.{Bool, Bool-cases, Bytes, List, Text, [], ap, append_assoc, append_nil, arith}
use proyecto1_sd.Base.{concat, drop, drop-append_left, drop-drop, drop_zero, false, inl, inr}
use proyecto1_sd.Base.{is_empty, length, length-append, length-drop, ltb, ltb→lt, min, ok, refl}
use proyecto1_sd.Base.{suc, sym, take, take-append_left, take_all, true, zero, ℕ, ◌*◌, ◌++◌, ◌+◌}
use proyecto1_sd.Base.{◌-◌, ◌<◌, ◌∙◌, ◌∷◌, ◌≡◌, ◌≤◌}
use proyecto1_sd.BlockStore.{Crypto, Writing, chunk_aad, chunk_size_bytes, complete, container}
use proyecto1_sd.BlockStore.{drain, encrypt_chunk, flush, max_chunks, metadata_aad, nonce}
use proyecto1_sd.BlockStore.{pack_header, pack_metadata, receive, receive_all, to_bytes}
use proyecto1_sd.BlockStore.Disk.{expected_chunks}
use proyecto1_sd.BlockStore.Framing.{body, chunk_at, max_size, metadata_record, sealed_block}
use proyecto1_sd.BlockStore.Framing.{sealed_chunk, sealed_upto}

suc_one : (k : ℕ) → suc k ≡ k + 1
suc_one k = omega arith

is_empty-true : (xs : Bytes) → is_empty xs ≡ true → length xs ≡ 0
is_empty-true [] h = refl
is_empty-true (x ∷ xs) h = absurd (ground arith)

is_empty-false : (xs : Bytes) → is_empty xs ≡ false → 0 < length xs
is_empty-false [] h = absurd (ground arith)
is_empty-false (x ∷ xs) h = omega arith

expected_chunks_none : (k size : ℕ) → k ≡ 0 → size ≡ 0 → k ≡ expected_chunks size
unfolding expected_chunks
expected_chunks_none k size e f = ground arith

expected_chunks_last :
    (k size : ℕ)
    → k * chunk_size_bytes < size
    → size ≤ k * chunk_size_bytes + chunk_size_bytes
    → k + 1 ≡ expected_chunks size
unfolding expected_chunks
expected_chunks_last k size low high = ground arith

module _ (c : Crypto) (key : Bytes) (id : Text) (prefix : Bytes) where
  flush_lem :
      (text : Bytes) (is_last : Bool) (w : Writing)
      → w.chunk_count < max_chunks
      → flush c key id prefix text is_last w
        ≡ ok (record w {
          part =
              w.part
              ++ c.encrypt key
                  (prefix ++ to_bytes 4 w.chunk_count)
                  text
                  (chunk_aad id w.chunk_count is_last);
          chunk_count = w.chunk_count + 1;
        })
  unfolding flush encrypt_chunk nonce
  flush_lem text is_last w h = ground arith

  module _ (text : Bytes) where
    -- The state of `write_block` when `rest` has not arrived yet.
    record IsWriting (rest : Bytes) (w : Writing) : Type 0 where
      part : w.part ≡ pack_header prefix ++ (sealed_upto c key id prefix text) w.chunk_count
      left : w.pending ++ rest ≡ drop (w.chunk_count * chunk_size_bytes) text
      hashed : w.hashed ++ rest ≡ text
      nonempty : min w.chunk_count 1 ≤ length w.pending

    module _ (short : length text ≤ max_size) (rest : Bytes) where
      length-left :
          (w : Writing)
          → IsWriting rest w
          → length w.pending + length rest ≡ length text - w.chunk_count * chunk_size_bytes
      length-left w h =
          sym (length-append w.pending rest)
          ∙ ap length h.left
          ∙ length-drop (w.chunk_count * chunk_size_bytes) text

      -- One round of the inner loop.
      flushed : (w : Writing) → Writing
      flushed w = record {
        part = w.part ++ (sealed_chunk c key id prefix text) w.chunk_count false;
        chunk_count = w.chunk_count + 1;
        hashed = w.hashed;
        pending = drop chunk_size_bytes w.pending;
      }

      chunk_at-pending :
          (w : Writing)
          → IsWriting rest w
          → chunk_size_bytes < length w.pending
          → take chunk_size_bytes w.pending ≡ (chunk_at c key id prefix text) w.chunk_count
      unfolding chunk_at
      chunk_at-pending w h long =
          sym (take-append_left chunk_size_bytes w.pending rest (omega arith))
          ∙ ap (take chunk_size_bytes) h.left

      flushed-IsWriting :
          (w : Writing)
          → IsWriting rest w
          → chunk_size_bytes < length w.pending
          → IsWriting rest (flushed w)
      unfolding flushed sealed_upto
      flushed-IsWriting w h long = record {
        part =
            ap (λ p. p ++ (sealed_chunk c key id prefix text) w.chunk_count false) h.part
            ∙ append_assoc (pack_header prefix) ((sealed_upto c key id prefix text) w.chunk_count)
                ((sealed_chunk c key id prefix text) w.chunk_count false)
            ∙ ap (λ k. pack_header prefix ++ (sealed_upto c key id prefix text) k)
                (suc_one w.chunk_count);
        left =
            sym (drop-append_left chunk_size_bytes w.pending rest (omega arith))
            ∙ ap (drop chunk_size_bytes) h.left
            ∙ drop-drop chunk_size_bytes (w.chunk_count * chunk_size_bytes) text
            ∙ ap (λ n. drop n text) (omega arith);
        hashed = h.hashed;
        nonempty = omega (arith, length-drop chunk_size_bytes w.pending);
      }

      count_lt :
          (w : Writing)
          → IsWriting rest w
          → 0 < length w.pending + length rest
          → w.chunk_count < max_chunks
      count_lt w h some_left = omega (arith, length-left w h)

      drain_step :
          (fuel : ℕ) (w : Writing)
          → IsWriting rest w
          → chunk_size_bytes < length w.pending
          → drain c key id prefix (suc fuel) w ≡ drain c key id prefix fuel (flushed w)
      unfolding drain flushed sealed_chunk
      drain_step fuel w h long =
          let flush_eq =
            flush_lem (take chunk_size_bytes w.pending) false w (count_lt w h (omega arith)) in
          ground (arith, flush_eq, chunk_at-pending w h long)

      drain-IsWriting :
          (fuel : ℕ) (w : Writing)
          → IsWriting rest w
          → length w.pending ≤ fuel
          → (v : Writing) × (drain c key id prefix fuel w ≡ ok v)
            × IsWriting rest v
            × (length v.pending ≤ chunk_size_bytes)
      unfolding drain flushed
      drain-IsWriting zero w h enough_fuel = (w, refl, h, omega arith)
      drain-IsWriting (suc fuel) w h enough_fuel =
          elim (Bool-cases (ltb chunk_size_bytes (length w.pending))) [
            | inr e ↦ (w, ground arith, h, ground arith)
            | inl e ↦
                let long = ltb→lt chunk_size_bytes (length w.pending) e in
                let (v, drained, i, fits) =
                  drain-IsWriting fuel (flushed w) (flushed-IsWriting w h long)
                    (omega (arith, length-drop chunk_size_bytes w.pending)) in
                (v, drain_step fuel w h long ∙ drained, i, fits)
          ]

    -- Between two chunks that arrive, at most one chunk of the format is pending.
    receive_all-IsWriting :
        (chunks : List Bytes) (w : Writing)
        → length text ≤ max_size
        → IsWriting (concat chunks) w
        → length w.pending ≤ chunk_size_bytes
        → (v : Writing) × (receive_all c key id prefix chunks w ≡ ok v)
          × IsWriting [] v
          × (length v.pending ≤ chunk_size_bytes)
    unfolding receive_all receive concat
    receive_all-IsWriting [] w short h fits = (w, refl, h, fits)
    receive_all-IsWriting (incoming ∷ chunks) w short h fits =
        let (v, received, i, fits_v) =
          drain-IsWriting short (concat chunks) (length (taken w).pending) (taken w)
            (taken-IsWriting w h) (omega arith) in
        let (u, rest_received, j, fits_u) = receive_all-IsWriting chunks v short i fits_v in
        (u, ground arith, j, fits_u)
      where
        taken : Writing → Writing
        taken w = record w { pending = w.pending ++ incoming; hashed = w.hashed ++ incoming }

        taken-IsWriting :
            (w : Writing)
            → IsWriting (incoming ++ concat chunks) w
            → IsWriting (concat chunks) (taken w)
        taken-IsWriting w h = record {
          part = h.part;
          left = append_assoc w.pending incoming (concat chunks) ∙ h.left;
          hashed = append_assoc w.hashed incoming (concat chunks) ∙ h.hashed;
          nonempty = omega (arith, length-append w.pending incoming);
        }

    finish :
        (part hashed : Bytes) (count : ℕ)
        → part ≡ pack_header prefix ++ (body c key id prefix text) count
        → hashed ≡ text
        → count ≡ expected_chunks (length text)
        → part
            ++ c.encrypt key
                (prefix ++ to_bytes 4 max_chunks)
                (pack_metadata (length hashed) count (c.digest hashed))
                (metadata_aad id (pack_header prefix))
          ≡ (sealed_block c key id prefix text)
    unfolding sealed_block metadata_record
    finish part hashed count p h e = rw (p, h, e)

    upto_none :
        (k : ℕ) → k ≡ 0 → (sealed_upto c key id prefix text) k ≡ (body c key id prefix text) k
    unfolding body
    upto_none k e = ap (sealed_upto c key id prefix text) e ∙ sym (ap (body c key id prefix text) e)

    no_chunks :
        (w : Writing)
        → length text ≤ max_size
        → IsWriting [] w
        → is_empty w.pending ≡ true
        → (w.chunk_count ≡ 0) × (w.chunk_count ≡ expected_chunks (length text))
    no_chunks w short h none_left =
        let empty = is_empty-true w.pending none_left in
        let all = length-left short [] w h in
        (omega arith, expected_chunks_none w.chunk_count (length text) (omega arith) (omega arith))

    complete-empty :
        (w : Writing)
        → length text ≤ max_size
        → IsWriting [] w
        → is_empty w.pending ≡ true
        → complete c key id prefix w ≡ ok (sealed_block c key id prefix text)
    unfolding complete nonce
    complete-empty w short h none_left =
        let no_chunk = no_chunks w short h none_left in
        let done =
          finish w.part w.hashed w.chunk_count
            (h.part ∙ ap (◌++◌ (pack_header prefix)) (upto_none w.chunk_count no_chunk.0))
            (sym (append_nil w.hashed) ∙ h.hashed) no_chunk.1 in
        ground (arith, done)

    chunk_at-last :
        (w : Writing)
        → IsWriting [] w
        → length w.pending ≤ chunk_size_bytes
        → (chunk_at c key id prefix text) w.chunk_count ≡ w.pending
    unfolding chunk_at
    chunk_at-last w h fits =
        ap (take chunk_size_bytes) (sym h.left ∙ append_nil w.pending)
        ∙ take_all chunk_size_bytes w.pending fits

    last_part :
        (w : Writing)
        → IsWriting [] w
        → length w.pending ≤ chunk_size_bytes
        → w.part
            ++ c.encrypt key
                (prefix ++ to_bytes 4 w.chunk_count)
                w.pending
                (chunk_aad id w.chunk_count true)
          ≡ pack_header prefix ++ (body c key id prefix text) (w.chunk_count + 1)
    unfolding body sealed_chunk
    last_part w h fits =
        ap
          (λ p.
            w.part
            ++ c.encrypt key (prefix ++ to_bytes 4 w.chunk_count) p
                (chunk_aad id w.chunk_count true))
          (sym (chunk_at-last w h fits))
        ∙ ap (λ p. p ++ (sealed_chunk c key id prefix text) w.chunk_count true) h.part
        ∙ append_assoc (pack_header prefix) ((sealed_upto c key id prefix text) w.chunk_count)
            ((sealed_chunk c key id prefix text) w.chunk_count true)
        ∙ ap (λ k. pack_header prefix ++ (body c key id prefix text) k) (suc_one w.chunk_count)

    complete-pending :
        (w : Writing)
        → length text ≤ max_size
        → IsWriting [] w
        → length w.pending ≤ chunk_size_bytes
        → is_empty w.pending ≡ false
        → complete c key id prefix w ≡ ok (sealed_block c key id prefix text)
    unfolding complete nonce
    complete-pending w short h fits some_left =
        let long = is_empty-false w.pending some_left in
        let flush_eq = flush_lem w.pending true w (count_lt short [] w h (omega arith)) in
        let done =
          finish
            (w.part
              ++ c.encrypt key (prefix ++ to_bytes 4 w.chunk_count) w.pending
                  (chunk_aad id w.chunk_count true))
            w.hashed (w.chunk_count + 1) (last_part w h fits) (sym (append_nil w.hashed) ∙ h.hashed)
            (expected_chunks_last w.chunk_count (length text)
              (omega (arith, length-left short [] w h))
              (omega (arith, length-left short [] w h))) in
        ground (arith, done, flush_eq)

    complete-IsWriting :
        (w : Writing)
        → length text ≤ max_size
        → IsWriting [] w
        → length w.pending ≤ chunk_size_bytes
        → complete c key id prefix w ≡ ok (sealed_block c key id prefix text)
    complete-IsWriting w short h fits = elim (Bool-cases (is_empty w.pending)) [
      | inl e ↦ complete-empty w short h e
      | inr e ↦ complete-pending w short h fits e
    ]

  start_IsWriting :
      (text : Bytes)
      → IsWriting text text
          (record { part = pack_header prefix; chunk_count = 0; hashed = []; pending = [] })
  unfolding sealed_upto
  start_IsWriting text = record {
    part = sym (append_nil (pack_header prefix));
    left = sym (drop_zero text);
    hashed = refl;
    nonempty = omega arith;
  }

  -- However the bytes of a block arrive, `write_block` writes the same container, if they are not too
  -- many for the format and the stream ends well.
  pub container-sealed_block :
      (chunks : List Bytes)
      → length (concat chunks) ≤ max_size
      → container c key id prefix chunks (ok tt)
        ≡ ok (sealed_block c key id prefix (concat chunks), concat chunks)
  unfolding container
  container-sealed_block chunks short =
      let text = concat chunks in
      let (w, received, h, fits) =
        receive_all-IsWriting text chunks
          (record { part = pack_header prefix; chunk_count = 0; hashed = []; pending = [] }) short
          (start_IsWriting text) (omega arith) in
      let completed = complete-IsWriting text w short h fits in
      let all = sym (append_nil w.hashed) ∙ h.hashed in ground (arith, received, completed, all)
