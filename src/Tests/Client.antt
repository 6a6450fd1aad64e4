-- ===== src/Tests/Client.antt =====
-- The client at a cluster of three control nodes and at files of two blocks.
use proyecto1_sd.Base.{Bool-cases, Bytes, List, Rpc, Text, [], abort, arith, codes, concat}
use proyecto1_sd.Base.{conflict, contains, drop, eqb, false, if◌then◌else◌, inl, inr, internal, leb}
use proyecto1_sd.Base.{length, list_eq, nat_eq, none, pos, refl, response, rpc_failed, slice, some}
use proyecto1_sd.Base.{true, unavailable, ℕ, ◌%◌, ◌&&◌, ◌++◌, ◌+◌, ◌-◌, ◌<◌, ◌==◌, ◌∷◌, ◌≡◌, ◌≢◌}
use proyecto1_sd.Base.{◌⊎◌}
use proyecto1_sd.BlockStore.Disk.{range_end}
use proyecto1_sd.Client.{is_recoverable_read_error, is_retryable, translate}
use proyecto1_sd.Client.{translate-abort_on_domain_error}
use proyecto1_sd.Client.Calls.{Called, call_rounds, call_rounds_ends, call_rounds_reaches}
use proyecto1_sd.Client.Calls.{fails_retryably, gave}
use proyecto1_sd.Client.Failover.{BlockRef, Fetched, Good, Recoverable, Replica, fetched}
use proyecto1_sd.Client.Failover.{read_replicas, read_replicas-content}
use proyecto1_sd.Client.ReadRange.{AllServed, IsServed, read_range_of, read_range_of-slice}
use proyecto1_sd.Client.ReadRange.{read_range_of_zero, total_size}
use proyecto1_sd.Client.SlotContent.{Slot, slot_content, spliced, zeros}
use proyecto1_sd.Client.SlotContent.Laws.{slot_content-spliced}
use proyecto1_sd.Client.SlotContent.Splicing.{length-zeros}
use proyecto1_sd.DataNode.{abort_on_domain_error}

conflict-internal : conflict ≢ internal
conflict-internal = λ p. cc

translate-abort_on_domain_error_example : translate (abort_on_domain_error conflict) ≡ some conflict
translate-abort_on_domain_error_example = translate-abort_on_domain_error conflict conflict-internal

-- The third node answers from the second round on.
abbrev ask : ℕ → ℕ → Rpc ℕ
ask round index = if leb 1 round && eqb index 2 then response 7 else rpc_failed (abort unavailable)

first_round_fails : (j i : ℕ) → j < 1 → i < 3 → fails_retryably (ask (0 + j) ((1 + i) % 3)) ≡ true
unfolding is_retryable
first_round_fails j i h k = ground arith

lasts_one_round : (j : ℕ) → j < 1 → leb 3 (0 + j) ≡ false
lasts_one_round j h = ground arith

second_node_fails : (i : ℕ) → i < 1 → fails_retryably (ask (0 + 1) ((1 + i) % 3)) ≡ true
unfolding is_retryable
second_node_fails i h = ground arith

call_rounds_reaches_example : call_rounds ask (λ r. leb 3 r) 3 1 2 0 none ≡ some (gave 7, 2)
call_rounds_reaches_example =
    call_rounds_reaches ask (λ r. leb 3 r) 3 1 1 0 1 none 7 (omega arith) first_round_fails
      lasts_one_round second_node_fails refl

call_rounds_ends_example :
    (outcome : Called ℕ × ℕ) × (call_rounds ask (λ r. leb 3 r) 3 1 4 0 none ≡ some outcome)
call_rounds_ends_example = call_rounds_ends ask (λ r. leb 3 r) 3 1 3 0 none refl

-- One replica breaks off, the others stream two bytes.
abbrev d1 : Text
d1 = codes "d1"

abbrev pair : Bytes
pair = 1 ∷ 2 ∷ []

abbrev serve : Replica
serve a id offset l =
    if a == d1
    then ((9 ∷ []) ∷ [], rpc_failed (abort unavailable))
    else ((1 ∷ []) ∷ (2 ∷ []) ∷ [], response tt)

serve-cases :
    (a : Text)
    → contains (d1 ∷ codes "d2" ∷ []) a ≡ true
    → Good serve (codes "b") 0 0 pair a ⊎ Recoverable serve (codes "b") 0 0 pair a
unfolding is_recoverable_read_error concat
serve-cases a h = elim (Bool-cases (a == d1)) [
  | inl e ↦ inr (record { error = abort unavailable; fails = rw e refl; retried = refl })
  | inr e ↦ inl (record { ends = rw e refl; streams = rw e refl })
]

d2-there : contains (d1 ∷ codes "d2" ∷ []) (codes "d2") ≡ true
unfolding list_eq nat_eq
d2-there = refl

d2-Good : Good serve (codes "b") 0 0 pair (codes "d2")
unfolding list_eq nat_eq concat
d2-Good = record { ends = refl; streams = refl }

read_replicas-content_example :
    read_replicas serve (codes "b") 0 0 (d1 ∷ codes "d2" ∷ []) none (5 ∷ [])
    ≡ fetched (length pair) ((5 ∷ []) ++ pair)
read_replicas-content_example =
    read_replicas-content serve (codes "b") 0 0 pair (d1 ∷ codes "d2" ∷ []) none (5 ∷ [])
      (codes "d2") serve-cases d2-there d2-Good

-- A file of three zeros and two zeros. A fetch of no bytes is one of all that is left.
abbrev block_of : ℕ → BlockRef
block_of n = record { block_id = codes "b"; datanode_addresses = d1 ∷ []; size_bytes = n }

abbrev fetch_zeros : BlockRef → ℕ → ℕ → Bytes → Fetched
fetch_zeros b start count out =
    if eqb count 0
    then fetched (b.size_bytes - start) (out ++ drop start (zeros b.size_bytes))
    else fetched count (out ++ slice start (start + count) (zeros b.size_bytes))

zeros-IsServed : (n : ℕ) → 0 < n → IsServed fetch_zeros (block_of n) (zeros n)
zeros-IsServed n h = record {
  sized = length-zeros n;
  nonempty = h;
  serves = λ start count out positive fits. ground arith;
}

abbrev five : List BlockRef
five = block_of 3 ∷ block_of 2 ∷ []

five-served : AllServed fetch_zeros five (zeros 3 ∷ zeros 2 ∷ [])
five-served = (zeros-IsServed 3 (omega arith), (zeros-IsServed 2 (omega arith), tt))

read_range_of-slice_example :
    let till = range_end (length (concat (zeros 3 ∷ zeros 2 ∷ []))) 1 (some (pos 3)) in
    read_range_of fetch_zeros five (pos 1) (some (pos 3))
    ≡ (gave (till - 1), slice 1 till (concat (zeros 3 ∷ zeros 2 ∷ [])))
read_range_of-slice_example =
    read_range_of-slice fetch_zeros five (zeros 3 ∷ zeros 2 ∷ []) 1 (some (pos 3)) five-served refl
      (omega arith)

read_range_of_zero_example :
    read_range_of fetch_zeros
      ([] ++ block_of 3 ∷ block_of 2 ∷ [])
      (pos (total_size [] + 1))
      (some (pos 0))
    ≡ (gave (3 - 1), drop 1 (zeros 3))
read_range_of_zero_example =
    read_range_of_zero fetch_zeros [] (block_of 2 ∷ []) (block_of 3) 1 (zeros 3) (omega arith)
      (omega arith) refl

-- Three bytes at the offset 5 of a file of six, in blocks of four.
abbrev six : Bytes
six = 1 ∷ 2 ∷ 3 ∷ 4 ∷ 5 ∷ 6 ∷ []

abbrev read_second : BlockRef → Fetched
read_second b = fetched 2 (slice 4 8 six)

abbrev second_slot : Slot
second_slot = record { index = 1; new_size = 4; old_block = some (block_of 2) }

slot_content-spliced_example :
    slot_content read_second second_slot 4 5 (7 ∷ 8 ∷ 9 ∷ [])
    ≡ inl (slice 4 8 (spliced 5 (7 ∷ 8 ∷ 9 ∷ []) six))
slot_content-spliced_example =
    slot_content-spliced read_second second_slot 4 5 (7 ∷ 8 ∷ 9 ∷ []) six (omega arith)
      (omega arith) (omega arith) (omega arith) (omega arith) (omega arith) (2, refl)
