-- ===== src/Upkeep/Repair/Laws.antt =====
-- What a cycle of repairs commits.
use proyecto1_sd.Base.{Bool-cases, List, Option, Option-cases, Text, [], arith, contains, eq_self}
use proyecto1_sd.Base.{false, get_elem?, inl, inr, is_empty, keep, leb, length, list_eq, nat_eq}
use proyecto1_sd.Base.{refl, some, suc, true, zero, ℕ, ◌&&◌, ◌++◌, ◌+◌, ◌-◌, ◌<◌, ◌||◌, ◌∷◌, ◌≡◌}
use proyecto1_sd.Base.{◌≤◌, ◌⊎◌}
use proyecto1_sd.Tree.Blocks.{iter_blocks}
use proyecto1_sd.Tree.Data.{BlockRecord, ControlTree}
use proyecto1_sd.Upkeep.Monitor.{dead_for}
use proyecto1_sd.Upkeep.Repair.{Replies, Report, Settings, Update, Verdict, copied_from, enough}
use proyecto1_sd.Upkeep.Repair.{judge, lost, no_target, repair, repair_all, repaired, run_repairs}
use proyecto1_sd.Upkeep.Repair.{target_among, too_soon}

-- An update that is right for a block of a snapshot: it expects the replicas that the block has, and
-- keeps the live ones, of which there are some but too few, with one live node that had none.
pub record IsRepair (c : Settings) (alive : List Text) (blocks : List (Text × BlockRecord))
    (u : Update) : Type 0 where
  pub at : ℕ
  pub block : BlockRecord
  pub target : Text
  pub listed : get_elem? blocks at ≡ some (u.path, block)
  pub same_block : u.block_id ≡ block.block_id
  pub expects : u.expected ≡ block.datanode_addresses
  pub keeps_live : u.new ≡ keep (contains alive) block.datanode_addresses ++ target ∷ []
  pub some_live : 0 < length (keep (contains alive) block.datanode_addresses)
  pub too_few : length (keep (contains alive) block.datanode_addresses) < c.replication_factor
  pub target_alive : contains alive target ≡ true
  pub target_new : contains block.datanode_addresses target ≡ false

target_among-found :
    (alive : List Text) (expected : List Text) (t : Text)
    → target_among alive expected ≡ some t
    → (contains alive t ≡ true) × (contains expected t ≡ false)
unfolding target_among
target_among-found [] expected t h = absurd (ground arith)
target_among-found (a ∷ rest) expected t h =
    ground (arith, target_among-found rest expected t, eq_self a)

nonempty-length : (xs : List Text) → is_empty xs ≡ false → 0 < length xs
nonempty-length [] h = absurd (ground arith)
nonempty-length (x ∷ xs) h = omega arith

verdict_cases :
    (v : Verdict)
    → ((v ≡ enough) ⊎ ((v ≡ lost) ⊎ ((v ≡ too_soon) ⊎ (v ≡ no_target))))
      ⊎ ((live : List Text) × (t : Text) × (v ≡ repair live t))
verdict_cases enough = inl (inl refl)
verdict_cases lost = inl (inr (inl refl))
verdict_cases too_soon = inl (inr (inr (inl refl)))
verdict_cases no_target = inl (inr (inr (inr refl)))
verdict_cases (repair live t) = inr (live, t, refl)

judge-repair :
    (c : Settings) (alive : List Text) (dead_for : Text → Option ℕ) (expected live : List Text)
    (t : Text)
    → judge c alive dead_for expected ≡ repair live t
    → (live ≡ keep (contains alive) expected)
      × (0 < length live)
      × (length live < c.replication_factor)
      × (target_among alive expected ≡ some t)
unfolding judge
judge-repair c alive dead_for expected live t h =
    elim (Option-cases (target_among alive expected)) [
      | inl e ↦ absurd (ground arith)
      | inr (u, e) ↦ (
        ground arith,
        ground (arith, nonempty-length (keep (contains alive) expected)),
        ground arith,
        ground arith,
      )
    ]

-- The updates that one repair adds stand before those of the rest.
repaired-updates :
    (c : Settings) (a : Replies) (path : Text) (b : BlockRecord) (live : List Text) (t : Text)
    (rest : Report)
    → (i : ℕ) (u : Update) → get_elem? (repaired c a path b live t rest).updates i ≡ some u
    → (u ≡ record {
      path = path;
      block_id = b.block_id;
      expected = b.datanode_addresses;
      new = live ++ t ∷ [];
    })
      ⊎ ((j : ℕ) × (get_elem? rest.updates j ≡ some u))
unfolding repaired
repaired-updates c a path b live t rest i u h = elim (Bool-cases (copied_from c a b t live)) [
  | inr failed ↦ inr (i, ground arith)
  | inl done ↦ first_or_rest i (ground arith)
]
  where
    first : Update
    first = record {
      path = path;
      block_id = b.block_id;
      expected = b.datanode_addresses;
      new = live ++ t ∷ [];
    }

    first_or_rest :
        (k : ℕ)
        → get_elem? (first ∷ rest.updates) k ≡ some u
        → (u ≡ first) ⊎ ((j : ℕ) × (get_elem? rest.updates j ≡ some u))
    first_or_rest zero e = inl (ground arith)
    first_or_rest (suc k) e = inr (k, e)

later :
    (c : Settings) (alive : List Text) (x : Text × BlockRecord) (blocks : List (Text × BlockRecord))
    (u : Update)
    → IsRepair c alive blocks u
    → IsRepair c alive (x ∷ blocks) u
later c alive x blocks u r = record {
  at = suc r.at;
  block = r.block;
  target = r.target;
  listed = r.listed;
  same_block = r.same_block;
  expects = r.expects;
  keeps_live = r.keeps_live;
  some_live = r.some_live;
  too_few = r.too_few;
  target_alive = r.target_alive;
  target_new = r.target_new;
}

repair_all-IsRepair :
    (c : Settings) (a : Replies) (n completed : ℕ) (blocks : List (Text × BlockRecord))
    → (i : ℕ) (u : Update) → get_elem? (repair_all c a n completed blocks).updates i ≡ some u
    → IsRepair c a.alive blocks u
unfolding repair_all
repair_all-IsRepair c a n completed [] i u h = absurd (ground arith)
repair_all-IsRepair c a n completed ((path, b) ∷ rest) i u h =
    elim (Bool-cases (leb c.max_per_cycle completed || a.stops n)) [
      | inl stopped ↦ absurd (ground arith)
      | inr goes_on ↦ elim (verdict_cases (judge c a.alive a.dead_for b.datanode_addresses)) [
        | inl e ↦
            later c a.alive (path, b) rest u
              (repair_all-IsRepair c a (n + 1) completed rest i u (ground arith))
        | inr (live, t, e) ↦ elim (Bool-cases (a.leads (completed + 1))) [
          | inr lost_lead ↦ absurd (ground arith)
          | inl leads ↦
              let more = repair_all c a (n + 1) (completed + 1) rest in
              elim (repaired-updates c a path b live t more i u (ground arith)) [
                | inr (j, r) ↦
                    later c a.alive (path, b) rest u
                      (repair_all-IsRepair c a (n + 1) (completed + 1) rest j u r)
                | inl same ↦
                    let (l, some_live, too_few, found) =
                      judge-repair c a.alive a.dead_for b.datanode_addresses live t e in
                    let (alive, fresh) = target_among-found a.alive b.datanode_addresses t found in
                    record {
                      at = 0;
                      block = b;
                      target = t;
                      listed = ground arith;
                      same_block = ground arith;
                      expects = ground arith;
                      keeps_live = ground arith;
                      some_live = rw (← l) some_live;
                      too_few = rw (← l) too_few;
                      target_alive = alive;
                      target_new = fresh;
                    }
              ]
        ]
      ]
    ]

-- However the nodes answer, each update that a cycle commits is for a block of a committed file: it
-- expects the replicas that the metadata gave the block, and keeps the live ones, of which there is
-- one at least but fewer than the replication factor, with one live node that had no replica.
pub run_repairs-IsRepair :
    (c : Settings) (a : Replies) (tree : ControlTree) (i : ℕ) (u : Update)
    → get_elem? (run_repairs c a tree).updates i ≡ some u
    → IsRepair c a.alive (iter_blocks tree) u
unfolding run_repairs
run_repairs-IsRepair c a tree i u h = elim (Bool-cases (a.leads 0 && a.barrier)) [
  | inl leads ↦ repair_all-IsRepair c a 0 0 (iter_blocks tree) i u (ground arith)
  | inr follows ↦ absurd (ground arith)
]

length-repaired :
    (c : Settings) (a : Replies) (path : Text) (b : BlockRecord) (live : List Text) (t : Text)
    (rest : Report)
    → length (repaired c a path b live t rest).updates ≤ length rest.updates + 1
unfolding repaired
length-repaired c a path b live t rest = elim (Bool-cases (copied_from c a b t live)) [
  | inl done ↦ ground arith
  | inr failed ↦ ground arith
]

length-repair_all :
    (c : Settings) (a : Replies) (n completed : ℕ) (blocks : List (Text × BlockRecord))
    → length (repair_all c a n completed blocks).updates ≤ c.max_per_cycle - completed
unfolding repair_all
length-repair_all c a n completed [] = omega arith
length-repair_all c a n completed ((path, b) ∷ rest) =
    let same = length-repair_all c a (n + 1) completed rest in
    let more = length-repair_all c a (n + 1) (completed + 1) rest in
    elim (Bool-cases (leb c.max_per_cycle completed || a.stops n)) [
      | inl stopped ↦ ground arith
      | inr goes_on ↦ elim (verdict_cases (judge c a.alive a.dead_for b.datanode_addresses)) [
        | inl e ↦ ground arith
        | inr (live, t, e) ↦ elim (Bool-cases (a.leads (completed + 1))) [
          | inr lost_lead ↦ ground arith
          | inl leads ↦ ground (
            arith,
            length-repaired c a path b live t (repair_all c a (n + 1) (completed + 1) rest),
          )
        ]
      ]
    ]

-- A cycle commits at most `max_per_cycle` updates.
pub length-run_repairs-le :
    (c : Settings) (a : Replies) (tree : ControlTree)
    → length (run_repairs c a tree).updates ≤ c.max_per_cycle
unfolding run_repairs
length-run_repairs-le c a tree = ground (arith, length-repair_all c a 0 0 (iter_blocks tree))
