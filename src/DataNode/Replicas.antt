-- ===== src/DataNode/Replicas.antt =====
-- dfsha/data_node/servicer.py: an acknowledged write is on every node of its pipeline.
use proyecto1_sd.Base.Dict
use proyecto1_sd.Base.{Bool, Bool-cases, Bytes, List, Result, Rpc, Rpc-cases, RpcError, Text, []}
use proyecto1_sd.Base.{abort, arith, concat, eq_self, err, false, if◌then◌else◌, inl, inr, length}
use proyecto1_sd.Base.{list_eq, nat_eq, ok, refl, response, rpc_failed, subst, sym, true, unknown}
use proyecto1_sd.Base.{ℕ, ◌&&◌, ◌==◌, ◌∙◌, ◌∷◌, ◌≡◌, ◌≤◌}
use proyecto1_sd.BlockStore.{Crypto}
use proyecto1_sd.BlockStore.Disk.{write_block}
use proyecto1_sd.BlockStore.Framing.{max_size, sealed_block}
use proyecto1_sd.BlockStore.Laws.{write_block_inv}
use proyecto1_sd.DataNode.{DataNode, Network, Surroundings, admit_write, forwarded, is_raised}
use proyecto1_sd.DataNode.{local_write, settle, unless_raised, write_pipeline}
use proyecto1_sd.DataNode.Pipeline.{AllHold, Distinct, Holds, write_pipeline-frame}

settle_inv :
    (c : Crypto) (a id : Text) (result : Result (Text × ℕ)) (answer : Rpc (Text × ℕ))
    (net : Network) (w : Text × ℕ)
    → (settle c a id result answer net).0 ≡ response w
    → (result ≡ ok w)
      × ((d : Text × ℕ) × (answer ≡ response d))
      × ((settle c a id result answer net).1 ≡ net)
unfolding settle
settle_inv c a id (err e) answer net w h = absurd (cc)
settle_inv c a id (ok v) (rpc_failed e) net w h = absurd (cc)
settle_inv c a id (ok v) (response d) net w h = elim (Bool-cases (d.0 == v.0)) [
  | inl e ↦ (ground arith, (d, refl), rw e refl)
  | inr e ↦ absurd (ground arith)
]

no_response : {e : RpcError} {A : Type 0} {x : A} → rpc_failed e ≡ response x → ⊥
no_response p = cc

unless_cancelled :
    (b : Bool) (e : RpcError) (net : Network) (q : Rpc (Text × ℕ) × Network) (w : Text × ℕ)
    → (if b then (rpc_failed e, net) else q).0 ≡ response w
    → (q.0 ≡ response w) × ((if b then (rpc_failed e, net) else q).1 ≡ q.1)
unless_cancelled true e net q w h = absurd (cc)
unless_cancelled false e net q w h = (h, refl)

module _ (env : Surroundings) (id : Text) where
  Holds-frame :
      (text : Bytes) (a : Text) (net net' : Network)
      → Dict.lookup a net' ≡ Dict.lookup a net
      → Holds env id text a net
      → Holds env id text a net'
  Holds-frame text a net net' same h = record {
    node = h.node;
    stored = h.stored;
    answers = same ∙ h.answers;
    found_at = h.found_at;
    sealed = h.sealed;
    key_fits = h.key_fits;
    valid = h.valid;
  }

  abbrev node_after : Text → DataNode → List Bytes → Result (Unit {0}) → DataNode
  node_after a n chunks how_ended = record n {
    disk =
        (write_block env.crypto n.encryption_key id (env.uuid a) (env.prefix a) env.now chunks
          how_ended n.disk).1;
  }

  local_write-Holds :
      (a : Text) (n : DataNode) (chunks : List Bytes) (how_ended : Result (Unit {0}))
      (net : Network) (w : Text × ℕ)
      → length (concat chunks) ≤ max_size
      → (local_write env a n id chunks how_ended net).0 ≡ ok w
      → (how_ended ≡ ok tt)
        × (w ≡ (env.crypto.hexdigest (concat chunks), length (concat chunks)))
        × Holds env id (concat chunks) a (local_write env a n id chunks how_ended net).1
  local_write-Holds a n chunks how_ended net w short h =
      let (ended_well, key_fits, valid, same, is_there) =
        write_block_inv env.crypto n.encryption_key id (env.uuid a) (env.prefix a) env.now chunks
          how_ended n.disk w short h in
      (
        ended_well,
        same,
        record {
          node = node_after a n chunks how_ended;
          stored = record {
            contents = sealed_block env.crypto n.encryption_key id (env.prefix a) (concat chunks);
            modified = env.now;
          };
          answers =
              Dict.lookup-insert a a (node_after a n chunks how_ended) net ∙ rw (eq_self a) refl;
          found_at = is_there;
          sealed = refl;
          key_fits = key_fits;
          valid = valid;
        },
      )

  unless_raised_inv :
      (r : Result (Text × ℕ)) (w : Text × ℕ) → unless_raised r ≡ response w → r ≡ ok w
  unless_raised_inv (ok v) w h = ground arith
  unless_raised_inv (err e) w h = absurd (cc)

  sent_all :
      (key prefix : Bytes) (chunks : List Bytes) (r : Result (Text × ℕ)) (w : Text × ℕ)
      → r ≡ ok w
      → forwarded env.crypto key id prefix chunks r ≡ (chunks, ok tt)
  unfolding forwarded
  sent_all key prefix chunks (ok v) w h = refl
  sent_all key prefix chunks (err e) w h = absurd (cc)

  -- A write that is acknowledged, its pipeline of different nodes: its stream ended well; the checksum
  -- and the size in the answer are those of the bytes that were sent; and every node of the pipeline
  -- keeps a container of exactly these bytes, under its own key. It holds for a block that is not too
  -- long for the format, whatever keys, capabilities and older blocks the nodes have.
  pub write_pipeline-AllHold :
      (capability a : Text) (rest : List Text) (chunks : List Bytes) (how_ended : Result (Unit {0}))
      (net : Network) (w : Text × ℕ)
      → length (concat chunks) ≤ max_size
      → Distinct (a ∷ rest)
      → (write_pipeline env capability a rest id chunks how_ended net).0 ≡ response w
      → (how_ended ≡ ok tt)
        × (w ≡ (env.crypto.hexdigest (concat chunks), length (concat chunks)))
        × AllHold env id
            (concat chunks)
            (a ∷ rest)
            (write_pipeline env capability a rest id chunks how_ended net).1
  unfolding write_pipeline
  write_pipeline-AllHold capability a [] chunks how_ended net w short distinct h =
      elim (Rpc-cases (admit_write env capability a id net)) [
        | inr (e, k) ↦ absurd (no_response (rw (write_pipeline, k) at h))
        | inl ((n, f), k) ↦
            let r =
              unless_raised_inv (local_write env a n id chunks how_ended net).0 w
                (rw (write_pipeline, k) at h) in
            let (ended_well, same, holds) = local_write-Holds a n chunks how_ended net w short r in
            (ended_well, same, rw (write_pipeline, k) (holds, tt))
      ]
  write_pipeline-AllHold capability a (b ∷ rest) chunks how_ended net w short (apart, distinct) h =
      elim (Rpc-cases (admit_write env capability a id net)) [
        | inr (e, k) ↦ absurd (no_response (rw (write_pipeline, k) at h))
        | inl ((n, f), k) ↦
            let l = local_write env a n id chunks how_ended net in
            let s = forwarded env.crypto n.encryption_key id (env.prefix a) chunks l.0 in
            let answer = write_pipeline env f b rest id s.0 s.1 l.1 in
            let (acknowledged, same_net) =
              unless_cancelled (env.cancels a && is_raised l.0) (abort unknown) l.1
                (settle env.crypto a id l.0 answer.0 answer.1) w (rw (write_pipeline, k) at h) in
            let (r, (d, answered_d), settled) =
              settle_inv env.crypto a id l.0 answer.0 answer.1 w acknowledged in
            let (ended_well, same, holds) = local_write-Holds a n chunks how_ended net w short r in
            let kept =
              Holds-frame (concat chunks) a l.1 answer.1
                (write_pipeline-frame env a f b rest id s.0 s.1 l.1 apart) holds in
            let all_later =
              subst
                (λ s'.
                  (write_pipeline env f b rest id s'.0 s'.1 l.1).0 ≡ response d
                  → AllHold env id (concat chunks) (b ∷ rest)
                      (write_pipeline env f b rest id s'.0 s'.1 l.1).1)
                (sym (sent_all n.encryption_key (env.prefix a) chunks l.0 w r))
                (λ g. (write_pipeline-AllHold f b rest chunks (ok tt) l.1 d short distinct g).2)
                answered_d in
            (ended_well, same, rw (write_pipeline, k, same_net ∙ settled) (kept, all_later))
      ]
