-- ===== src/Tree/Perms.antt =====
-- dfsha/control_node/tree.py: ownership and permission bits (`_allows`, `_require`,
-- `_owner_or_admin`, `_ownership`, `_valid_mode`, `_valid_name`).
pub mod Laws
use proyecto1_sd.Base.{ℕ, suc, ◌/◌, ◌^◌, bit_and, Bool, true, false, ◌&&◌, ◌||◌, Option, none, some}
use proyecto1_sd.Base.{List, [], ◌∷◌, Result, guard, access_denied, Text, contains, length, every}
use proyecto1_sd.Base.{◌==◌, leb, eqb, if◌then◌else◌, list_eq, nat_eq}
use proyecto1_sd.Tree.Data.{Caller, Ownership, Node, default_owner}
use proyecto1_sd.Tree.Nodes.{own_of}

-- The three classes exclude one another: the owner has only the owner's bits.
unfoldable pub class_shift : Ownership → Caller → ℕ
class_shift own c =
    if c.username == own.owner then 6 else if contains c.groups own.group then 3 else 0

unfoldable pub allows : Ownership → Option Caller → ℕ → Bool
unfolding class_shift
allows own none want = true
allows own (some c) want =
    if c.is_admin then true else eqb (bit_and (own.mode / 2 ^ class_shift own c) want) want

abbrev pub require : Node → Option Caller → ℕ → Result (Unit {0})
require n caller want = guard (allows (own_of n) caller want) access_denied

unfoldable pub owner_or_admin : Ownership → Option Caller → Bool
owner_or_admin own none = true
owner_or_admin own (some c) = c.is_admin || c.username == own.owner

abbrev pub first_or : Text → List Text → Text
first_or d [] = d
first_or d (g ∷ gs) = g

-- `_ownership`, with the mode of the new node.
unfoldable pub new_ownership : Option Caller → ℕ → Ownership
new_ownership none mode = record { owner = default_owner; group = default_owner; mode = mode }
new_ownership (some c) mode = record {
  owner = c.username;
  group = first_or c.username c.groups;
  mode = mode;
}

-- `_valid_mode`, of an argument that is a number.
abbrev pub valid_mode : ℕ → Bool
valid_mode mode = leb mode 0o777

-- The regular expression [a-z_][a-z0-9_-]{0,31}.
unfoldable pub name_start : ℕ → Bool
name_start c = leb b'a' c && leb c b'z' || eqb c b'_'

unfoldable pub name_char : ℕ → Bool
unfolding name_start
name_char c = name_start c || leb b'0' c && leb c b'9' || eqb c b'-'

unfoldable pub valid_name : Text → Bool
unfolding name_start name_char
valid_name [] = false
valid_name (c ∷ cs) = name_start c && every name_char cs && leb (length cs) 31
