-- ===== src/Client/Calls.antt =====
-- dfsha/client/distributed_client.py: `_call`, which follows the leader of the control nodes.
use proyecto1_sd.Base.{Bool, Bool-cases, Error, Option, Rpc, RpcError, ap, arith, false}
use proyecto1_sd.Base.{if◌then◌else◌, inl, inr, internal, none, refl, response, rpc_failed, some}
use proyecto1_sd.Base.{suc, sym, true, zero, ℕ, ◌%◌, ◌+◌, ◌<◌, ◌∙◌, ◌≡◌, ◌⊎◌}
use proyecto1_sd.Client.{is_retryable, translate}

pub data Called {ℓ} (A : Type ℓ) : Type ℓ where
  gave : A → Called A
  raised_as : Option Error → Called A

-- How one round over the nodes ends: an answer and the index of its node, an error that is not worth
-- another try, or the last error.
pub data Round {ℓ} (A : Type ℓ) : Type ℓ where
  answered_by : A → ℕ → Round A
  refused_by : RpcError → Round A
  no_answer : Option RpcError → Round A

plus_zero : (n : ℕ) → n ≡ n + 0
plus_zero n = omega arith

zero_plus : (n : ℕ) → 0 + n ≡ n
zero_plus n = omega arith

next_round : (n k : ℕ) → n + 1 + k ≡ n + suc k
next_round n k = omega arith

module _ {A : Type 0} where
  -- `for offset in range(total)`: `ask index` is the answer of a node in this round.
  unfoldable pub ask_nodes : (ℕ → Rpc A) → ℕ → ℕ → ℕ → ℕ → Option RpcError → Round A
  ask_nodes ask total leader zero offset last_error = no_answer last_error
  ask_nodes ask total leader (suc left) offset last_error = elim (ask ((leader + offset) % total)) [
    | response a ↦ answered_by a ((leader + offset) % total)
    | rpc_failed e ↦
        let next = ask_nodes ask total leader left (offset + 1) (some e) in
        if is_retryable e.code then next else refused_by e
  ]

  abbrev pub translated : Option RpcError → Called A
  translated none = raised_as (some internal)
  translated (some e) = raised_as (translate e)

  -- `while True`: `ask round index` is the answer of a node in a round, and `is_over round` whether
  -- the budget is spent at the end of it. Beside the outcome, the next `_leader_index`.
  unfoldable pub call_rounds :
      (ℕ → ℕ → Rpc A) → (ℕ → Bool) → ℕ → ℕ → ℕ → ℕ → Option RpcError → Option (Called A × ℕ)
  call_rounds ask is_over total leader zero round last_error = none
  call_rounds ask is_over total leader (suc fuel) round last_error =
      elim (ask_nodes (ask round) total leader total 0 last_error) [
        | answered_by a index ↦ some (gave a, index)
        | refused_by e ↦ some (raised_as (translate e), leader)
        | no_answer last ↦
            let next = call_rounds ask is_over total leader fuel (round + 1) last in
            if is_over round then some (translated last, leader) else next
      ]

  -- `_call`
  abbrev pub call : (ℕ → ℕ → Rpc A) → (ℕ → Bool) → ℕ → ℕ → ℕ → Option (Called A × ℕ)
  call ask is_over total leader fuel = call_rounds ask is_over total leader fuel 0 none

  Round-cases :
      (r : Round A)
      → ((a : A) × ((i : ℕ) × (r ≡ answered_by a i)))
        ⊎ (((e : RpcError) × (r ≡ refused_by e)) ⊎ ((l : Option RpcError) × (r ≡ no_answer l)))
  Round-cases (answered_by a i) = inl (a, (i, refl))
  Round-cases (refused_by e) = inr (inl (e, refl))
  Round-cases (no_answer l) = inr (inr (l, refl))

  -- The call ends: however the nodes answer, once the budget is spent at the end of some round, one
  -- round more than come before it is enough.
  pub call_rounds_ends :
      (ask : ℕ → ℕ → Rpc A) (is_over : ℕ → Bool) (total leader k round : ℕ)
      (last_error : Option RpcError)
      → is_over (round + k) ≡ true
      → (outcome : Called A × ℕ) × (call_rounds ask is_over total leader (suc k) round last_error
          ≡ some outcome)
  unfolding call_rounds
  call_rounds_ends ask is_over total leader zero round last_error h =
      elim (Round-cases (ask_nodes (ask round) total leader total 0 last_error)) [
        | inl (a, (i, e)) ↦ ((gave a, i), rw (call_rounds, e) refl)
        | inr (inl (x, e)) ↦ ((raised_as (translate x), leader), rw (call_rounds, e) refl)
        | inr (inr (last, e)) ↦
            ((translated last, leader), rw (call_rounds, e, ap is_over (plus_zero round) ∙ h) refl)
      ]
  call_rounds_ends ask is_over total leader (suc k) round last_error h =
      elim (Round-cases (ask_nodes (ask round) total leader total 0 last_error)) [
        | inl (a, (i, e)) ↦ ((gave a, i), rw (call_rounds, e) refl)
        | inr (inl (x, e)) ↦ ((raised_as (translate x), leader), rw (call_rounds, e) refl)
        | inr (inr (last, e)) ↦
            let (outcome, later) =
              call_rounds_ends ask is_over total leader k (round + 1) last
                (ap is_over (next_round round k) ∙ h) in
            elim (Bool-cases (is_over round)) [
              | inl b ↦ ((translated last, leader), rw (call_rounds, e, b) refl)
              | inr b ↦ (outcome, rw (call_rounds, e, b) later)
            ]
      ]

  -- An error after which the next node is tried.
  abbrev pub fails_retryably : Rpc A → Bool
  fails_retryably (response a) = false
  fails_retryably (rpc_failed e) = is_retryable e.code

  failure :
      (r : Rpc A)
      → fails_retryably r ≡ true
      → (e : RpcError) × (r ≡ rpc_failed e) × (is_retryable e.code ≡ true)
  failure (response a) h = absurd (cc)
  failure (rpc_failed e) h = (e, refl, h)

  ask_nodes_reaches :
      (ask : ℕ → Rpc A) (total leader o left offset : ℕ) (last_error : Option RpcError) (a : A)
      → o < left
      → ((i : ℕ) → i < o → fails_retryably (ask ((leader + (offset + i)) % total)) ≡ true)
      → ask ((leader + (offset + o)) % total) ≡ response a
      → ask_nodes ask total leader left offset last_error
        ≡ answered_by a ((leader + (offset + o)) % total)
  unfolding ask_nodes
  ask_nodes_reaches ask total leader o zero offset last_error a h before at = absurd (omega arith)
  ask_nodes_reaches ask total leader zero (suc left) offset last_error a h before at =
      rw (ask_nodes, at' offset ∙ at)
        (ap (λ n. answered_by a ((leader + n) % total)) (plus_zero offset))
    where
      at' : (n : ℕ) → ask ((leader + n) % total) ≡ ask ((leader + (n + 0)) % total)
      at' n = ap (λ m. ask ((leader + m) % total)) (plus_zero n)
  ask_nodes_reaches ask total leader (suc o) (suc left) offset last_error a h before at =
      let (e, h_e, retry) = failure (ask ((leader + offset) % total)) (
        ap (λ n. fails_retryably (ask ((leader + n) % total))) (plus_zero offset)
        ∙ before 0 (omega arith)) in
      rw (ask_nodes, h_e, retry, sym (next_round offset o))
        (ask_nodes_reaches ask total leader o left (offset + 1) (some e) a (omega arith)
          (λ i lt.
            ap (λ n. fails_retryably (ask ((leader + n) % total))) (next_round offset i)
            ∙ before (suc i) (omega arith))
          (ap (λ n. ask ((leader + n) % total)) (next_round offset o) ∙ at))

  ask_nodes_none :
      (ask : ℕ → Rpc A) (total leader left offset : ℕ) (last_error : Option RpcError)
      → ((i : ℕ) → i < left → fails_retryably (ask ((leader + (offset + i)) % total)) ≡ true)
      → (l : Option RpcError) × (ask_nodes ask total leader left offset last_error ≡ no_answer l)
  unfolding ask_nodes
  ask_nodes_none ask total leader zero offset last_error before = (last_error, refl)
  ask_nodes_none ask total leader (suc left) offset last_error before =
      let (e, h_e, retry) = failure (ask ((leader + offset) % total)) (
        ap (λ n. fails_retryably (ask ((leader + n) % total))) (plus_zero offset)
        ∙ before 0 (omega arith)) in
      let (l, rest) = ask_nodes_none ask total leader left (offset + 1) (some e) (λ i lt.
        ap (λ n. fails_retryably (ask ((leader + n) % total))) (next_round offset i)
        ∙ before (suc i) (omega arith)) in
      (l, rw (ask_nodes, h_e, retry) rest)

  first_round :
      (ask : ℕ → Rpc A) (total leader o : ℕ) (last_error : Option RpcError) (a : A)
      → o < total
      → ((i : ℕ) → i < o → fails_retryably (ask ((leader + i) % total)) ≡ true)
      → ask ((leader + o) % total) ≡ response a
      → ask_nodes ask total leader total 0 last_error ≡ answered_by a ((leader + o) % total)
  first_round ask total leader o last_error a h before at =
      ask_nodes_reaches ask total leader o total 0 last_error a h
        (λ i lt. ap (λ n. fails_retryably (ask ((leader + n) % total))) (zero_plus i) ∙ before i lt)
        (ap (λ n. ask ((leader + n) % total)) (zero_plus o) ∙ at)
      ∙ ap (λ n. answered_by a ((leader + n) % total)) (zero_plus o)

  -- A call reaches the leader: if in every earlier round each node fails in a way that is retried and
  -- the budget lasts, and in this round a node answers behind nodes that fail so too, then the call
  -- returns the answer of that node and remembers it as the leader.
  pub call_rounds_reaches :
      (ask : ℕ → ℕ → Rpc A) (is_over : ℕ → Bool) (total leader k round o : ℕ)
      (last_error : Option RpcError) (a : A)
      → o < total
      → ((j i : ℕ)
          → j < k
          → i < total
          → fails_retryably (ask (round + j) ((leader + i) % total)) ≡ true)
      → ((j : ℕ) → j < k → is_over (round + j) ≡ false)
      → ((i : ℕ) → i < o → fails_retryably (ask (round + k) ((leader + i) % total)) ≡ true)
      → ask (round + k) ((leader + o) % total) ≡ response a
      → call_rounds ask is_over total leader (suc k) round last_error
        ≡ some (gave a, (leader + o) % total)
  unfolding call_rounds
  call_rounds_reaches ask is_over total leader zero round o last_error a h rounds lasts before at =
      rw
        (
          call_rounds,
          first_round (ask round) total leader o last_error a h
              (λ i lt.
                ap (λ r. fails_retryably (ask r ((leader + i) % total))) (plus_zero round)
                ∙ before i lt)
              (ap (λ r. ask r ((leader + o) % total)) (plus_zero round) ∙ at),
        )
        refl
  call_rounds_reaches ask is_over total leader (suc k) round o last_error a h rounds lasts before
        at =
      let (last, none_yet) = ask_nodes_none (ask round) total leader total 0 last_error (λ i lt.
        ap (λ n. fails_retryably (ask round ((leader + n) % total))) (zero_plus i)
        ∙ ap (λ r. fails_retryably (ask r ((leader + i) % total))) (plus_zero round)
        ∙ rounds 0 i (omega arith) lt) in
      rw (call_rounds, none_yet, ap is_over (plus_zero round) ∙ lasts 0 (omega arith))
        (call_rounds_reaches ask is_over total leader k (round + 1) o last a h
          (λ j i below lt.
            ap (λ r. fails_retryably (ask r ((leader + i) % total))) (next_round round j)
            ∙ rounds (suc j) i (omega arith) lt)
          (λ j below. ap is_over (next_round round j) ∙ lasts (suc j) (omega arith))
          (λ i lt.
            ap (λ r. fails_retryably (ask r ((leader + i) % total))) (next_round round k)
            ∙ before i lt)
          (ap (λ r. ask r ((leader + o) % total)) (next_round round k) ∙ at))
