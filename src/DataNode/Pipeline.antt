-- ===== src/DataNode/Pipeline.antt =====
-- dfsha/data_node/servicer.py: what a write that is acknowledged leaves on the nodes of its pipeline.
use proyecto1_sd.Base.Dict
use proyecto1_sd.Base.{Bool, Bytes, List, Option-cases, Result, Rpc, Rpc-cases, Text, [], abort}
use proyecto1_sd.Base.{arith, contains, data_loss, err, false, if◌then◌else◌, inl, inr, length}
use proyecto1_sd.Base.{list_eq, nat_eq, ok, refl, response, rpc_failed, some, true, unknown, ℕ}
use proyecto1_sd.Base.{◌&&◌, ◌==◌, ◌∙◌, ◌∷◌, ◌≡◌}
use proyecto1_sd.BlockStore.{is_block_id}
use proyecto1_sd.BlockStore.Disk.{StoredFile, delete_block, write_block}
use proyecto1_sd.BlockStore.Framing.{sealed_block}
use proyecto1_sd.DataNode.{DataNode, Network, Surroundings, admit_write, discard_local, forwarded}
use proyecto1_sd.DataNode.{is_raised, local_write, settle, write_pipeline}

-- The node keeps the block, and its text is the given one.
pub record Holds (env : Surroundings) (id : Text) (text : Bytes) (a : Text) (net : Network)
    : Type 0 where
  pub node : DataNode
  pub stored : StoredFile
  pub answers : Dict.lookup a net ≡ some node
  pub found_at : Dict.lookup id node.disk ≡ some stored
  pub sealed : stored.contents ≡ sealed_block env.crypto node.encryption_key id (env.prefix a) text
  pub key_fits : length node.encryption_key ≡ 32
  pub valid : is_block_id id ≡ true

abbrev pub AllHold : Surroundings → Text → Bytes → List Text → Network → Type 0
AllHold env id text [] net = Unit
AllHold env id text (a ∷ rest) net = Holds env id text a net × AllHold env id text rest net

-- No address twice.
abbrev pub Distinct : List Text → Type 0
Distinct [] = Unit
Distinct (a ∷ rest) = (contains rest a ≡ false) × Distinct rest

insert_frame :
    (x a : Text) (n : DataNode) (net : Network)
    → (x == a) ≡ false
    → Dict.lookup x (Dict.insert a n net) ≡ Dict.lookup x net
insert_frame x a n net other = Dict.lookup-insert x a n net ∙ rw other refl

if_frame :
    {A : Type 0} (x : Text) (b : Bool) (p q : A × Network) (net : Network)
    → Dict.lookup x p.1 ≡ Dict.lookup x net
    → Dict.lookup x q.1 ≡ Dict.lookup x net
    → Dict.lookup x (if b then p else q).1 ≡ Dict.lookup x net
if_frame x true p q net h k = h
if_frame x false p q net h k = k

module _ (env : Surroundings) where
  discard_local-frame :
      (x a id : Text) (net : Network)
      → (x == a) ≡ false
      → Dict.lookup x (discard_local env.crypto a id net) ≡ Dict.lookup x net
  unfolding discard_local
  discard_local-frame x a id net other = elim (Option-cases (Dict.lookup a net)) [
    | inl h ↦ rw (discard_local, h) refl
    | inr (n, h) ↦
        rw (discard_local, h)
          (insert_frame x a
            (record n { disk = (delete_block env.crypto n.encryption_key id n.disk).1 }) net other)
  ]

  settle-frame :
      (x a id : Text) (result : Result (Text × ℕ)) (answer : Rpc (Text × ℕ)) (net : Network)
      → (x == a) ≡ false
      → Dict.lookup x (settle env.crypto a id result answer net).1 ≡ Dict.lookup x net
  unfolding settle
  settle-frame x a id (err e) answer net other = refl
  settle-frame x a id (ok w) (rpc_failed e) net other = discard_local-frame x a id net other
  settle-frame x a id (ok w) (response d) net other =
      if_frame x (d.0 == w.0) (response w, net)
        (rpc_failed (abort data_loss), discard_local env.crypto a id net) net refl
        (discard_local-frame x a id net other)

  local_write-frame :
      (x a : Text) (n : DataNode) (id : Text) (chunks : List Bytes) (how_ended : Result (Unit {0}))
      (net : Network)
      → (x == a) ≡ false
      → Dict.lookup x (local_write env a n id chunks how_ended net).1 ≡ Dict.lookup x net
  local_write-frame x a n id chunks how_ended net other =
      insert_frame x a
        (record n {
          disk =
              (write_block env.crypto n.encryption_key id (env.uuid a) (env.prefix a) env.now chunks
                how_ended n.disk).1;
        })
        net other

  not_first : (x a : Text) (rest : List Text) → contains (a ∷ rest) x ≡ false → (x == a) ≡ false
  not_first x a rest h = ground arith

  not_rest :
      (x a : Text) (rest : List Text) → contains (a ∷ rest) x ≡ false → contains rest x ≡ false
  not_rest x a rest h = ground arith

  -- A write changes the nodes of its pipeline only.
  pub write_pipeline-frame :
      (x capability a : Text) (rest : List Text) (id : Text) (chunks : List Bytes)
      (how_ended : Result (Unit {0})) (net : Network)
      → contains (a ∷ rest) x ≡ false
      → Dict.lookup x (write_pipeline env capability a rest id chunks how_ended net).1
        ≡ Dict.lookup x net
  unfolding write_pipeline
  write_pipeline-frame x capability a [] id chunks how_ended net other =
      elim (Rpc-cases (admit_write env capability a id net)) [
        | inr (e, h) ↦ rw (write_pipeline, h) refl
        | inl ((n, f), h) ↦
            rw (write_pipeline, h)
              (local_write-frame x a n id chunks how_ended net (not_first x a [] other))
      ]
  write_pipeline-frame x capability a (b ∷ rest) id chunks how_ended net other =
      let apart = not_first x a (b ∷ rest) other in
      elim (Rpc-cases (admit_write env capability a id net)) [
        | inr (e, h) ↦ rw (write_pipeline, h) refl
        | inl ((n, f), h) ↦
            let w = local_write env a n id chunks how_ended net in
            let local = local_write-frame x a n id chunks how_ended net apart in
            let s = forwarded env.crypto n.encryption_key id (env.prefix a) chunks w.0 in
            let further =
              write_pipeline-frame x f b rest id s.0 s.1 w.1 (not_rest x a (b ∷ rest) other) in
            let answer = write_pipeline env f b rest id s.0 s.1 w.1 in
            rw (write_pipeline, h)
              (if_frame x (env.cancels a && is_raised w.0) (rpc_failed (abort unknown), w.1)
                (settle env.crypto a id w.0 answer.0 answer.1) net local
                (settle-frame x a id w.0 answer.0 answer.1 apart ∙ further ∙ local))
      ]
