-- ===== src/Client/Failover.antt =====
-- dfsha/client/distributed_client.py: `_read_block_with_failover`. A replica answers with a stream; the
-- bytes of the local file are threaded through.
use proyecto1_sd.Base.{Bool-cases, Bytes, List, Option, Rpc, RpcError, Text, [], ap, arith, concat}
use proyecto1_sd.Base.{contains, eq_self, if◌then◌else◌, inl, inr, length, length-append, list_eq}
use proyecto1_sd.Base.{nat_eq, none, response, rpc_failed, some, sym, take, take-append, true, ℕ}
use proyecto1_sd.Base.{◌++◌, ◌-◌, ◌==◌, ◌∙◌, ◌∷◌, ◌≡◌, ◌⊎◌}
use proyecto1_sd.Client.{is_recoverable_read_error}
use proyecto1_sd.Service.Commit.{serve}
use proyecto1_sd.Tests.{block}

-- The fields of a block that the client reads by.
pub record BlockRef : Type 0 where
  pub block_id : Text
  pub datanode_addresses : List Text
  pub size_bytes : ℕ

-- The count that is returned, or what is raised, with what the file holds then.
pub data Fetched : Type 0 where
  fetched : ℕ → Bytes → Fetched
  unregistered : Bytes → Fetched
  replicas_failed : RpcError → Bytes → Fetched

-- `ReadBlock` at an address, for a block, an offset and a length.
abbrev pub Replica : Type 0
Replica = Text → Text → ℕ → ℕ → List Bytes × Rpc (Unit {0})

unfoldable pub read_replicas :
    Replica → Text → ℕ → ℕ → List Text → Option RpcError → Bytes → Fetched
read_replicas serve id offset l [] none out = unregistered out
read_replicas serve id offset l [] (some e) out = replicas_failed e out
read_replicas serve id offset l (a ∷ rest) last_error out =
    let (chunks, ending) = serve a id offset l in
    let written = out ++ concat chunks in
    let kept = take (length out) written in
    elim ending [
      | response u ↦ fetched (length written - length out) written
      | rpc_failed e ↦
          let next = read_replicas serve id offset l rest (some e) kept in
          if is_recoverable_read_error e then next else replicas_failed e kept
    ]

unfoldable pub read_block_with_failover : Replica → BlockRef → ℕ → ℕ → Bytes → Fetched
read_block_with_failover serve block offset l out =
    read_replicas serve block.block_id offset l block.datanode_addresses none out

first_of : (a : Text) (rest : List Text) → contains (a ∷ rest) a ≡ true
first_of a rest = ground (arith, eq_self a)

later_of : (b a : Text) (rest : List Text) → contains rest b ≡ true → contains (a ∷ rest) b ≡ true
later_of b a rest h = ground arith

still_there :
    (x a : Text) (rest : List Text)
    → contains (a ∷ rest) x ≡ true
    → ((x == a) ≡ true → ⊥)
    → contains rest x ≡ true
still_there x a rest there apart = elim (Bool-cases (x == a)) [
  | inl e ↦ absurd (apart e)
  | inr e ↦ ground arith
]

module _ (serve : Replica) (id : Text) (offset l : ℕ) (content : Bytes) where
  -- A replica that streams the content, and one that fails in a way that another may make good.
  pub record Good (a : Text) : Type 0 where
    pub ends : (serve a id offset l).1 ≡ response tt
    pub streams : concat (serve a id offset l).0 ≡ content

  pub record Recoverable (a : Text) : Type 0 where
    pub error : RpcError
    pub fails : (serve a id offset l).1 ≡ rpc_failed error
    pub retried : is_recoverable_read_error error ≡ true

  rewound : (out chunks : Bytes) → take (length out) (out ++ chunks) ≡ out
  rewound out chunks = take-append out chunks

  count : (out : Bytes) → length (out ++ content) - length out ≡ length content
  count out = omega (arith, length-append out content)

  clash : (x a : Text) → Recoverable a → Good x → (x == a) ≡ true → ⊥
  clash x a r good e =
      let same : x ≡ a = ground arith in
      no_both (sym good.ends ∙ ap (λ y. (serve y id offset l).1) same ∙ r.fails)
    where
      no_both : {e : RpcError} {u : Unit {0}} → response u ≡ rpc_failed e → ⊥
      no_both p = cc

  -- The replicas agree: if each one either streams the content and ends well or fails in a way that is
  -- made good, whatever it streamed before, and one of them does not fail, then the content, and no
  -- more, is put behind what the file held, and its length is returned.
  pub read_replicas-content :
      (addresses : List Text) (last_error : Option RpcError) (out : Bytes) (x : Text)
      → ((a : Text) → contains addresses a ≡ true → Good a ⊎ Recoverable a)
      → contains addresses x ≡ true
      → Good x
      → read_replicas serve id offset l addresses last_error out
        ≡ fetched (length content) (out ++ content)
  unfolding read_replicas
  read_replicas-content [] last_error out x all there good = absurd (cc)
  read_replicas-content (a ∷ rest) last_error out x all there good =
      elim (all a (first_of a rest)) [
        | inl g ↦
            rw (read_replicas, g.ends, g.streams) (ap (λ n. fetched n (out ++ content)) (count out))
        | inr r ↦
            rw (read_replicas, r.fails, r.retried, rewound out (concat (serve a id offset l).0))
              (read_replicas-content rest (some r.error) out x (λ b h. all b (later_of b a rest h))
                (still_there x a rest there (λ e. clash x a r good e)) good)
      ]
