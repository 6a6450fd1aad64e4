-- ===== src/Capability.antt =====
-- dfsha/common/block_token.py: how a data node verifies the capabilities that a control node signs. The
-- HMAC-SHA256 in hexadecimal is an argument and a capability is a text. The clock counts ticks, of
-- which `second` make a second, so that a reading is a fraction of seconds as in the source.
pub mod Laws
pub mod Issue
use proyecto1_sd.Base.Errors.{◌>>=◌, ◌>>◌}
use proyecto1_sd.Base.{Bool, List, Option, Result, Text, [], access_denied, codes, eqb, err, every}
use proyecto1_sd.Base.{guard, if◌then◌else◌, is_empty, leb, list_eq, ltb, nat_eq, none, not, ok}
use proyecto1_sd.Base.{some, split, ℕ, ◌&&◌, ◌*◌, ◌++◌, ◌+◌, ◌-◌, ◌==◌, ◌∷◌}

abbrev pub period : ℕ
period = b'.'

abbrev pub separator : ℕ
separator = b':'

-- `token.rpartition(".")`: what stands before and behind the last period, if there is one.
unfoldable pub rpartition : ℕ → Text → Option (Text × Text)
rpartition sep [] = none
rpartition sep (c ∷ s) = elim (rpartition sep s) [
  | some (before, behind) ↦ some (c ∷ before, behind)
  | none ↦ if eqb c sep then some ([], s) else none
]

-- `s.encode("ascii")` succeeds.
abbrev pub is_ascii : Text → Bool
is_ascii s = every (λ c. ltb c 128) s

-- `_EXP` and `int`
abbrev pub is_digit : ℕ → Bool
is_digit c = leb b'0' c && leb c b'9'

unfoldable pub is_number : Text → Bool
is_number s = not (is_empty s) && every is_digit s

unfoldable pub number_onto : ℕ → Text → ℕ
number_onto n [] = n
number_onto n (c ∷ s) = number_onto (10 * n + (c - b'0')) s

unfoldable pub check_expiry : ℕ → Text → ℕ → Result (Unit {0})
unfolding is_number number_onto
check_expiry second exp now = do
  guard (is_number exp) access_denied
  guard (ltb now (number_onto 0 exp * second)) access_denied

module _ (hexdigest : List ℕ → Text → Text) where
  -- `_sign`
  unfoldable pub sign : List ℕ → Text → Text
  sign key payload = payload ++ period ∷ hexdigest key payload

  abbrev pub signed_payload : List ℕ → Option (Text × Text) → Result Text
  signed_payload key none = err access_denied
  signed_payload key (some (payload, signature)) =
      if is_ascii payload && is_ascii signature && signature == hexdigest key payload
      then ok payload
      else err access_denied

  -- `_verified_fields`
  unfoldable pub verified_fields : List ℕ → Text → Result (List Text)
  unfolding rpartition
  verified_fields key token = do
    guard (not (is_empty token)) access_denied
    payload ← signed_payload key (rpartition period token)
    ok (split separator payload)

  -- The fields of a capability for a block, and of an internal one.
  abbrev pub block_expiry : Text → Text → List Text → Result Text
  block_expiry block_id op (kind ∷ o ∷ b ∷ exp ∷ []) =
      if kind == codes "b" && o == op && b == block_id then ok exp else err access_denied
  block_expiry block_id op fields = err access_denied

  abbrev pub internal_expiry : Text → List Text → Result Text
  internal_expiry op (kind ∷ o ∷ exp ∷ []) =
      if kind == codes "i" && o == op then ok exp else err access_denied
  internal_expiry op fields = err access_denied

  unfoldable pub verify_block : ℕ → List ℕ → Text → Text → Text → ℕ → Result (Unit {0})
  unfolding verified_fields check_expiry
  verify_block second key token block_id op now = do
    fields ← verified_fields key token
    exp ← block_expiry block_id op fields
    check_expiry second exp now

  unfoldable pub verify_internal : ℕ → List ℕ → Text → Text → ℕ → Result (Unit {0})
  unfolding verified_fields check_expiry
  verify_internal second key token op now = do
    fields ← verified_fields key token
    exp ← internal_expiry op fields
    check_expiry second exp now
