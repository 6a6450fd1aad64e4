-- ===== src/Upkeep/Monitor.antt =====
-- dfsha/control_node/datanode_monitor.py: `DataNodeMonitor`, which data nodes answer a ping. The
-- clock counts ticks; the timer and the thread that repeat a round of pings are not modelled.
use proyecto1_sd.Base.Dict
use proyecto1_sd.Base.{Bool, Bool-cases, List, Option, Text, [], arith, eq_self, false}
use proyecto1_sd.Base.{if◌then◌else◌, inl, inr, keep, leb, list_eq, nat_eq, none, some, true, ℕ}
use proyecto1_sd.Base.{◌+◌, ◌-◌, ◌==◌, ◌∷◌, ◌≡◌}
use proyecto1_sd.Base.Dict.{Dict}

-- `_addresses`, `_alive`, `_dead_since` and `_dead_after_s`
pub record DataNodeMonitor : Type 0 where
  pub addresses : List Text
  pub alive : Dict Text Bool
  pub dead_since : Dict Text (Option ℕ)
  pub dead_after : ℕ

abbrev pub each {ℓ} : {V : Type ℓ} → V → List Text → Dict Text V
each v [] = []
each v (a ∷ rest) = Dict.insert a v (each v rest)

-- The constructor: every address counts as alive.
abbrev pub new_monitor : List Text → ℕ → DataNodeMonitor
new_monitor addresses dead_after = record {
  addresses = addresses;
  alive = each true addresses;
  dead_since = each none addresses;
  dead_after = dead_after;
}

abbrev pub true_at : Option Bool → Bool
true_at none = false
true_at (some b) = b

unfoldable pub is_alive : Text → DataNodeMonitor → Bool
is_alive address m = true_at (Dict.lookup address m.alive)

unfoldable pub alive_addresses : DataNodeMonitor → List Text
unfolding is_alive
alive_addresses m = keep (λ a. is_alive a m) m.addresses

abbrev pub since_of : Option (Option ℕ) → Option ℕ
since_of none = none
since_of (some t) = t

-- `dead_for`, at a reading of the clock.
unfoldable pub dead_for : Text → ℕ → DataNodeMonitor → Option ℕ
dead_for address now m = elim (since_of (Dict.lookup address m.dead_since)) [
  | none ↦ none
  | some t ↦ some (now - t)
]

-- The first failure in a row is remembered.
abbrev pub first_failure : Option ℕ → ℕ → ℕ
first_failure none now = now
first_failure (some t) now = t

-- One ping of a round: it was answered, or it failed when the clock showed `now`.
unfoldable pub probe : Text → Option ℕ → DataNodeMonitor → DataNodeMonitor
probe address none m = record m {
  alive = Dict.insert address true m.alive;
  dead_since = Dict.insert address none m.dead_since;
}
probe address (some now) m =
    let t = first_failure (since_of (Dict.lookup address m.dead_since)) now in
    record m {
      dead_since = Dict.insert address (some t) m.dead_since;
      alive = if leb (t + m.dead_after) now then Dict.insert address false m.alive else m.alive;
    }

-- `_probe_once`, with the outcome of the ping of each address; and rounds of it.
unfoldable pub probe_all : List (Text × Option ℕ) → DataNodeMonitor → DataNodeMonitor
unfolding probe
probe_all [] m = m
probe_all ((a, failed) ∷ rest) m = probe_all rest (probe a failed m)

-- A node that counts as dead has failed since a time that is remembered.
pub record IsConsistent (m : DataNodeMonitor) : Type 0 where
  pub dead_known :
      (a : Text)
      → Dict.lookup a m.alive ≡ some false
      → (t : ℕ) × (Dict.lookup a m.dead_since ≡ some (some t))

probe-IsConsistent :
    (a : Text) (failed : Option ℕ) (m : DataNodeMonitor)
    → IsConsistent m
    → IsConsistent (probe a failed m)
unfolding probe
probe-IsConsistent a none m c = record {
  dead_known = λ b h. ground (
    arith,
    c.dead_known b,
    Dict.lookup-insert b a true m.alive,
    Dict.lookup-insert b a none m.dead_since,
  );
}
probe-IsConsistent a (some now) m c = record {
  dead_known = λ b h.
      let t = first_failure (since_of (Dict.lookup a m.dead_since)) now in
      elim (Bool-cases (b == a)) [
        | inl same ↦ (t, ground (arith, Dict.lookup-insert b a (some t) m.dead_since))
        | inr other ↦
            let old : Dict.lookup b m.alive ≡ some false =
              ground (arith, Dict.lookup-insert b a false m.alive) in
            let (u, e) = c.dead_known b old in
            (u, ground (arith, Dict.lookup-insert b a (some t) m.dead_since))
      ];
}

-- However the pings turn out, a data node counts as dead only if a time is remembered since which
-- it has failed.
pub probe_all-IsConsistent :
    (pings : List (Text × Option ℕ)) (m : DataNodeMonitor)
    → IsConsistent m
    → IsConsistent (probe_all pings m)
unfolding probe_all
probe_all-IsConsistent [] m c = c
probe_all-IsConsistent ((a, failed) ∷ rest) m c =
    probe_all-IsConsistent rest (probe a failed m) (probe-IsConsistent a failed m c)

alive_of_probe :
    (b a : Text) (failed : Option ℕ) (m : DataNodeMonitor)
    → is_alive b (probe a failed m)
      ≡ (if b == a then is_alive a (probe a failed m) else is_alive b m)
unfolding probe is_alive
alive_of_probe b a none m =
    ground
      (arith, Dict.lookup-insert b a true m.alive, Dict.lookup-insert a a true m.alive, eq_self a)
alive_of_probe b a (some now) m =
    ground
      (arith, Dict.lookup-insert b a false m.alive, Dict.lookup-insert a a false m.alive, eq_self a)

-- A failed ping marks a data node as dead exactly if the failures in a row began `dead_after` ticks
-- ago or more, and otherwise leaves it as it was; an answered one brings it back. No other data node
-- is affected.
pub probe_lem :
    (a : Text) (now : ℕ) (m : DataNodeMonitor)
    → (is_alive a (probe a none m) ≡ true)
      × (dead_for a now (probe a none m) ≡ none)
      × (is_alive a (probe a (some now) m) ≡ (
          if leb (first_failure (since_of (Dict.lookup a m.dead_since)) now + m.dead_after) now
          then false
          else is_alive a m))
      × (dead_for a now (probe a (some now) m)
          ≡ some (now - first_failure (since_of (Dict.lookup a m.dead_since)) now))
      × ((b : Text) (failed : Option ℕ)
          → is_alive b (probe a failed m)
            ≡ (if b == a then is_alive a (probe a failed m) else is_alive b m))
unfolding probe is_alive dead_for
probe_lem a now m =
    let t = first_failure (since_of (Dict.lookup a m.dead_since)) now in
    (
      ground (arith, Dict.lookup-insert a a true m.alive, eq_self a),
      ground (arith, Dict.lookup-insert a a none m.dead_since, eq_self a),
      ground (arith, Dict.lookup-insert a a false m.alive, eq_self a),
      ground (arith, Dict.lookup-insert a a (some t) m.dead_since, eq_self a),
      λ b failed. alive_of_probe b a failed m,
    )
