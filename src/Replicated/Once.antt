-- ===== src/Replicated/Once.antt =====
-- A command that is delivered again is not applied again.
use mathlib.Core.List.{append_assoc}
use proyecto1_sd.Base.Dict
use proyecto1_sd.Base.{Bool-cases, List, Option-cases, Text, [], ap, arith, inl, inr, leb, length}
use proyecto1_sd.Base.{length-append, list_eq, nat_eq, none, refl, some, suc, ℕ, ◌++◌, ◌+◌, ◌<◌}
use proyecto1_sd.Base.{◌∙◌, ◌∷◌, ◌≡◌, ◌≤◌}
use proyecto1_sd.Base.Dict.{Dict}
use proyecto1_sd.Replicated.{Command, Outcome, ReplicatedTree, apply, evict, max_applied_ops}
use proyecto1_sd.Replicated.{replay, run}

-- The key stands in the dict with at most `n` entries behind it.
record IsRecent (k : Text) (v : Outcome) (n : ℕ) (ops : Dict Text Outcome) : Type 0 where
  before : Dict Text Outcome
  behind : Dict Text Outcome
  is_dict : ops ≡ before ++ (k, v) ∷ behind
  first : Dict.lookup k before ≡ none
  few : length behind ≤ n

lookup_behind :
    (k : Text) (v : Outcome) (before behind : Dict Text Outcome)
    → Dict.lookup k before ≡ none
    → Dict.lookup k (before ++ (k, v) ∷ behind) ≡ some v
unfolding Dict.lookup
lookup_behind k v [] behind h = ground arith
lookup_behind k v (x ∷ before) behind h = ground (arith, lookup_behind k v before behind)

insert_fresh :
    (k : Text) (v : Outcome) (ops : Dict Text Outcome)
    → Dict.lookup k ops ≡ none
    → Dict.insert k v ops ≡ ops ++ (k, v) ∷ []
unfolding Dict.lookup Dict.insert
insert_fresh k v [] h = refl
insert_fresh k v (x ∷ ops) h = ground (arith, insert_fresh k v ops)

evict_fits : (limit : ℕ) (ops : Dict Text Outcome) → length ops ≤ limit → evict limit ops ≡ ops
unfolding evict
evict_fits limit [] h = refl
evict_fits limit (x ∷ ops) h = ground arith

-- Evicting leaves a tail that fits alone.
evict_front :
    (limit : ℕ) (k : Text) (before tail : Dict Text Outcome)
    → Dict.lookup k before ≡ none
    → length tail ≤ limit
    → (kept : Dict Text Outcome) × (evict limit (before ++ tail) ≡ kept ++ tail)
      × (Dict.lookup k kept ≡ none)
unfolding evict Dict.lookup
evict_front limit k [] tail h fits = ([], evict_fits limit tail fits, refl)
evict_front limit k (x ∷ before) tail h fits =
    let (kept, e, none_kept) = evict_front limit k before tail (ground arith) fits in
    elim (Bool-cases (leb (length (x ∷ before ++ tail)) limit)) [
      | inl all ↦ (x ∷ before, ground arith, h)
      | inr less ↦ (kept, ground (arith, e), none_kept)
    ]

-- A command with a new key runs, and its outcome is remembered last.
pub applied_fresh :
    (op_id : Text) (c : Command) (r : ReplicatedTree)
    → Dict.lookup op_id r.applied_ops ≡ none
    → ((apply op_id c r).0 ≡ (run c r.tree).0)
      × ((apply op_id c r).1.applied_ops
          ≡ evict max_applied_ops (r.applied_ops ++ (op_id, (run c r.tree).0) ∷ []))
unfolding apply
applied_fresh op_id c r fresh =
    (ground arith, ground (arith, insert_fresh op_id (run c r.tree).0 r.applied_ops))

applied_known :
    (op_id : Text) (c : Command) (r : ReplicatedTree) (o : Outcome)
    → Dict.lookup op_id r.applied_ops ≡ some o
    → apply op_id c r ≡ (o, r)
unfolding apply
applied_known op_id c r o known = ground arith

pub length-evict-le : (limit : ℕ) (ops : Dict Text Outcome) → length (evict limit ops) ≤ limit
unfolding evict
length-evict-le limit [] = omega arith
length-evict-le limit (x ∷ ops) = ground (arith, length-evict-le limit ops)

-- At most 10,000 outcomes are remembered.
pub length-apply-le :
    (op_id : Text) (c : Command) (r : ReplicatedTree)
    → length r.applied_ops ≤ max_applied_ops
    → length (apply op_id c r).1.applied_ops ≤ max_applied_ops
unfolding apply
length-apply-le op_id c r h =
    ground
      (arith, length-evict-le max_applied_ops (Dict.insert op_id (run c r.tree).0 r.applied_ops))

apply_fresh-IsRecent :
    (op_id : Text) (c : Command) (r : ReplicatedTree)
    → Dict.lookup op_id r.applied_ops ≡ none
    → IsRecent op_id (apply op_id c r).0 0 (apply op_id c r).1.applied_ops
apply_fresh-IsRecent op_id c r fresh =
    let (outcome, ops) = applied_fresh op_id c r fresh in
    let (kept, e, none_kept) =
      evict_front max_applied_ops op_id r.applied_ops ((op_id, (run c r.tree).0) ∷ []) fresh
        (omega arith) in
    record {
      before = kept;
      behind = [];
      is_dict = cc (outcome, ops, e);
      first = none_kept;
      few = omega arith;
    }

apply-IsRecent :
    (k : Text) (v : Outcome) (n : ℕ) (op_id : Text) (c : Command) (r : ReplicatedTree)
    → n + 1 < max_applied_ops
    → IsRecent k v n r.applied_ops
    → IsRecent k v (n + 1) (apply op_id c r).1.applied_ops
apply-IsRecent k v n op_id c r small recent =
    elim (Option-cases (Dict.lookup op_id r.applied_ops)) [
      | inr (o, known) ↦ rw (applied_known op_id c r o known) (record {
        before = recent.before;
        behind = recent.behind;
        is_dict = recent.is_dict;
        first = recent.first;
        few = omega (arith, recent.few);
      })
      | inl fresh ↦
          let (outcome, ops) = applied_fresh op_id c r fresh in
          let last : Text × Outcome = (op_id, (run c r.tree).0) in
          let longer = length-append recent.behind (last ∷ []) in
          let (kept, e, none_kept) =
            evict_front max_applied_ops k recent.before ((k, v) ∷ recent.behind ++ last ∷ [])
              recent.first (omega (arith, longer, recent.few)) in
          record {
            before = kept;
            behind = recent.behind ++ last ∷ [];
            is_dict =
                ops
                ∙ ap (λ d. evict max_applied_ops (d ++ last ∷ [])) recent.is_dict
                ∙ ap (evict max_applied_ops)
                    (append_assoc recent.before ((k, v) ∷ recent.behind) (last ∷ []))
                ∙ e;
            first = none_kept;
            few = omega (arith, longer, recent.few);
          }
    ]

replay-IsRecent :
    (log : List (Text × Command)) (k : Text) (v : Outcome) (n : ℕ) (r : ReplicatedTree)
    → n + length log < max_applied_ops
    → IsRecent k v n r.applied_ops
    → IsRecent k v (n + length log) (replay log r).applied_ops
unfolding replay
replay-IsRecent [] k v n r small recent = let e : n + 0 ≡ n = omega arith in rw e recent
replay-IsRecent ((op_id, c) ∷ log) k v n r small recent =
    let e : n + suc (length log) ≡ n + 1 + length log = omega arith in
    rw e (
      replay-IsRecent log k v (n + 1) _ (omega arith)
        (apply-IsRecent k v n op_id c r (omega arith) recent))

-- A command whose op_id is new, when it comes again, with whatever arguments, after fewer than
-- 10,000 others, returns the outcome of the first time and changes nothing.
pub apply_again :
    (op_id : Text) (c c' : Command) (log : List (Text × Command)) (r : ReplicatedTree)
    → Dict.lookup op_id r.applied_ops ≡ none
    → length log < max_applied_ops
    → let later = replay log (apply op_id c r).1 in
      apply op_id c' later ≡ ((apply op_id c r).0, later)
apply_again op_id c c' log r fresh short =
    let (o, r') = apply op_id c r in
    let m = replay-IsRecent log op_id o 0 r' (omega arith) (apply_fresh-IsRecent op_id c r fresh) in
    applied_known op_id c' (replay log r') o
      (ap (Dict.lookup op_id) m.is_dict ∙ lookup_behind op_id o m.before m.behind m.first)
