-- ===== src/DataNode/Laws.antt =====
-- dfsha/data_node/servicer.py: reads of a replica, and copies.
use proyecto1_sd.Base.Dict
use proyecto1_sd.Base.{Bytes, List, Option, Rpc, Rpc-cases, RpcError, Text, [], ap, arith, codes}
use proyecto1_sd.Base.{concat, drop, drop_zero, eqb, false, if◌then◌else◌, inl, inr, length}
use proyecto1_sd.Base.{list_eq, min, nat_eq, none, ok, pos, refl, response, rpc_failed, slice, some}
use proyecto1_sd.Base.{subst, suc, sym, take, take_all, true, zero, ℕ, ℤ, ◌+◌, ◌∙◌, ◌∷◌, ◌≡◌, ◌≤◌}
use proyecto1_sd.BlockStore.Disk.{is_negative_range, range_end, read_block}
use proyecto1_sd.BlockStore.Framing.{IsCrypto, max_size}
use proyecto1_sd.BlockStore.Laws.{read_block-sealed_block}
use proyecto1_sd.BlockStore.Ranges.{are_short}
use proyecto1_sd.DataNode.{DataNode, Network, Surroundings, chunk_bytes, require_block}
use proyecto1_sd.DataNode.{require_internal, write_pipeline}
use proyecto1_sd.DataNode.Blocks.{copy_to, read_at, replicate_ending, serve_read_block}
use proyecto1_sd.DataNode.Blocks.{serve_replicate_block, stream_ending}
use proyecto1_sd.DataNode.Pipeline.{Holds}
use proyecto1_sd.DataNode.Replicas.{write_pipeline-AllHold}

end_suc :
    (size offset l : ℕ)
    → min size (offset + suc l) ≡ (if eqb (suc l) 0 then size else min size (offset + suc l))
end_suc size offset l = ground arith

whole : (text : Bytes) → slice 0 (length text) text ≡ text
unfolding slice
whole text =
    ap (λ n. take n (drop 0 text)) (omega arith)
    ∙ ap (take (length text)) (drop_zero text)
    ∙ take_all (length text) text (omega arith)

copy_to-ok :
    (env : Surroundings) (capability target id : Text) (ps : List Bytes) (net : Network)
    → copy_to env capability target id ps (ok tt) net ≡ (
      replicate_ending (write_pipeline env capability target [] id ps (ok tt) net).0,
      (write_pipeline env capability target [] id ps (ok tt) net).1,
    )
unfolding copy_to
copy_to-ok env capability target id [] net = refl
copy_to-ok env capability target id (p ∷ ps) net = refl

replicate_ending_inv :
    (r : Rpc (Text × ℕ)) (w : Text × ℕ) → replicate_ending r ≡ response w → r ≡ response w
replicate_ending_inv (response v) w h = h
replicate_ending_inv (rpc_failed e) w h = absurd (cc)

module _ (env : Surroundings) (law : IsCrypto env.crypto) (id : Text) (text : Bytes) (a : Text)
    (net : Network) where
  same_node : (n : DataNode) (h : Holds env id text a net) → Dict.lookup a net ≡ some n → h.node ≡ n
  same_node n h there = same (sym h.answers ∙ there)
    where
      same : some h.node ≡ some n → h.node ≡ n
      same p = cc

  read_node :
      (h : Holds env id text a net) (offset : ℕ) (l : Option ℤ)
      → length (env.prefix a) ≡ 8
      → length text ≤ max_size
      → is_negative_range (pos offset) l ≡ false
      → let (ps, ending) =
          read_block env.crypto h.node.encryption_key id h.node.disk chunk_bytes (pos offset) l in
        (ending ≡ ok tt)
        × (concat ps ≡ slice offset (range_end (length text) offset l) text)
        × (are_short chunk_bytes ps ≡ true)
  read_node h offset l prefix_fits short positive =
      read_block-sealed_block env.crypto law h.node.encryption_key id (env.prefix a) text
        h.node.disk h.stored chunk_bytes offset l h.key_fits h.valid prefix_fits short (omega arith)
        positive h.found_at h.sealed

  read_at-Holds :
      (h : Holds env id text a net) (offset l : ℕ)
      → length (env.prefix a) ≡ 8
      → length text ≤ max_size
      → let (ps, ending) = read_at env h.node id (pos offset) (pos l) in
        (ending ≡ response tt)
        × (concat ps
            ≡ slice offset (if eqb l 0 then length text else min (length text) (offset + l)) text)
  unfolding read_at
  read_at-Holds h offset zero prefix_fits short =
      let (e, made, are) = read_node h offset none prefix_fits short refl in
      (ap stream_ending e, made)
  read_at-Holds h offset (suc l) prefix_fits short =
      let (e, made, are) = read_node h offset (some (pos (suc l))) prefix_fits short refl in
      (ap stream_ending e, made ∙ ap (λ b. slice offset b text) (end_suc (length text) offset l))

  -- A replica serves its block: `ReadBlock` at a node that keeps a text and accepts the capability
  -- streams the bytes of the range, up to the end of the block if the length is 0, and ends well. What
  -- is assumed of the cipher: it decrypts what it encrypted, and adds a tag of 16 bytes.
  pub serve_read_block-Holds :
      (n : DataNode) (capability u : Text) (offset l : ℕ)
      → length (env.prefix a) ≡ 8
      → length text ≤ max_size
      → Holds env id text a net
      → Dict.lookup a net ≡ some n
      → require_block env n capability id (codes "read") ≡ response u
      → let (ps, ending) = serve_read_block env capability a id (pos offset) (pos l) net in
        (ending ≡ response tt)
        × (concat ps
            ≡ slice offset (if eqb l 0 then length text else min (length text) (offset + l)) text)
  unfolding serve_read_block
  serve_read_block-Holds n capability u offset l prefix_fits short h there admitted =
      rw (serve_read_block, there, admitted, sym (same_node n h there))
        (read_at-Holds h offset l prefix_fits short)

  -- A copy is a replica: when `ReplicateBlock` at a node that keeps a text is acknowledged, the target
  -- keeps a container of the same text, under its own key, and the checksum and the size in the answer
  -- are those of the text.
  pub serve_replicate_block-Holds :
      (n : DataNode) (capability target_capability target : Text) (w : Text × ℕ)
      → length (env.prefix a) ≡ 8
      → length text ≤ max_size
      → Holds env id text a net
      → Dict.lookup a net ≡ some n
      → (serve_replicate_block env capability target_capability a id target net).0 ≡ response w
      → Holds env id text target
          (serve_replicate_block env capability target_capability a id target net).1
        × (w ≡ (env.crypto.hexdigest text, length text))
  unfolding serve_replicate_block
  serve_replicate_block-Holds n capability target_capability target w prefix_fits short h there
        done =
      elim (Rpc-cases (require_internal env n capability (codes "replicate"))) [
        | inr (e, i) ↦ absurd (no_answer (rw (serve_replicate_block, there, i) at done))
        | inl (u, i) ↦ elim (Rpc-cases (require_block env n target_capability id (codes "write"))) [
          | inr (e, b) ↦ absurd (no_answer (rw (serve_replicate_block, there, i, b) at done))
          | inl (f, b) ↦
              let (ends, made, are) = read_node h 0 none prefix_fits short refl in
              let made_text = made ∙ whole text in
              let node = same_node n h there in
              let stream =
                read_block env.crypto n.encryption_key id n.disk chunk_bytes (pos 0) none in
              let well : stream.1 ≡ ok tt = rw (sym node) ends in
              let all : concat stream.0 ≡ text = rw (sym node) made_text in
              let answered =
                rw (serve_replicate_block, there, i, b, h.valid, well, copy_to-ok) at done in
              let (ended_well, same, (holds, u')) =
                write_pipeline-AllHold env id f target [] stream.0 (ok tt) net w
                  (subst (λ t. length t ≤ max_size) (sym all) short) (refl, tt)
                  (replicate_ending_inv (write_pipeline env f target [] id stream.0 (ok tt) net).0 w
                    answered) in
              rw (serve_replicate_block, there, i, b, h.valid, well, copy_to-ok)
                (
                  subst
                      (λ t.
                        Holds env id t target
                          (write_pipeline env f target [] id stream.0 (ok tt) net).1)
                      all holds,
                  same ∙ ap (λ t. (env.crypto.hexdigest t, length t)) all,
                )
        ]
      ]
    where
      no_answer : {e : RpcError} → rpc_failed e ≡ response w → ⊥
      no_answer p = cc
