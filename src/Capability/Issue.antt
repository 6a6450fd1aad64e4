-- ===== src/Capability/Issue.antt =====
-- dfsha/common/block_token.py: the capabilities that a control node issues. Clock readings and
-- lifetimes count ticks, of which `second` make a second.
pub mod Texts
pub mod Laws
use proyecto1_sd.Base.Errors.{◌>>◌}
use proyecto1_sd.Base.{List, Result, Text, [], codes, contains, false, guard, internal, list_eq}
use proyecto1_sd.Base.{ltb, nat_eq, ok, suc, true, zero, ℕ, ◌%◌, ◌++◌, ◌+◌, ◌/◌, ◌>>=◌, ◌∷◌}
use proyecto1_sd.BlockStore.{is_block_id}
use proyecto1_sd.Capability.{separator, sign}

-- `str(n)`, with as many rounds as `n` at most.
unfoldable pub decimal : ℕ → ℕ → Text
decimal zero n = (b'0' + n % 10) ∷ []
decimal (suc rounds) n = elim (ltb n 10) [
  | true ↦ (b'0' + n % 10) ∷ []
  | false ↦ decimal rounds (n / 10) ++ (b'0' + n % 10) ∷ []
]

-- `math.ceil` of a number of ticks, in seconds.
unfoldable pub ceil : ℕ → ℕ → ℕ
ceil zero ticks = ticks
ceil (suc s) ticks = (ticks + s) / suc s

-- `_expiry`
unfoldable pub expiry : ℕ → ℕ → ℕ → Text
unfolding ceil decimal
expiry second now ttl = let seconds = ceil second (now + ttl) in decimal seconds seconds

-- `BLOCK_OPS` and `INTERNAL_OPS`
abbrev pub block_ops : List Text
block_ops = codes "read" ∷ (codes "write") ∷ (codes "delete") ∷ []

abbrev pub internal_ops : List Text
internal_ops = codes "list" ∷ (codes "replicate") ∷ []

module _ (hexdigest : List ℕ → Text → Text) where
  unfoldable pub issue_block : ℕ → List ℕ → Text → Text → ℕ → ℕ → Result Text
  unfolding expiry
  issue_block second key block_id op ttl now = do
    guard (contains block_ops op) internal
    guard (is_block_id block_id) internal
    ok (
        sign hexdigest key (
          codes "b"
          ++ separator ∷ (op ++ separator ∷ (block_id ++ separator ∷ expiry second now ttl))))

  unfoldable pub issue_internal : ℕ → List ℕ → Text → ℕ → ℕ → Result Text
  unfolding expiry
  issue_internal second key op ttl now = do
    guard (contains internal_ops op) internal
    ok (sign hexdigest key (codes "i" ++ separator ∷ (op ++ separator ∷ expiry second now ttl)))
