-- ===== src/Service/Keys.antt =====
-- dfsha/control_node/servicer.py: the key of a command in the log, in `_commit`. The log answers a
-- key that it knows without running the command, so that the key must tell users apart.
use proyecto1_sd.Base.{Option, Text, [], arith, contains, every, false, list_eq, nat_eq, none, refl}
use proyecto1_sd.Base.{some, true, ℕ, ◌++◌, ◌∷◌, ◌≡◌, ◌≢◌}
use proyecto1_sd.Tree.Perms.{name_char, name_start, valid_name}

abbrev pub colon : ℕ
colon = b':'

-- `op_id if principal is None else f"{principal.username}:{op_id}"`
unfoldable pub log_key : Option Text → Text → Text
log_key none op_id = op_id
log_key (some username) op_id = username ++ colon ∷ op_id

-- What stands before the first colon, and behind it.
same_before_colon :
    (u v : Text) (x y : Text)
    → contains u colon ≡ false
    → contains v colon ≡ false
    → u ++ colon ∷ x ≡ v ++ colon ∷ y
    → (u ≡ v) × (x ≡ y)
same_before_colon [] [] x y h k e = (refl, ground arith)
same_before_colon [] (c ∷ v) x y h k e = absurd (ground arith)
same_before_colon (c ∷ u) [] x y h k e = absurd (ground arith)
same_before_colon (c ∷ u) (d ∷ v) x y h k e =
    let (p, q) = same_before_colon u v x y (ground arith) (ground arith) (ground arith) in
    (ground arith, q)

name_char-colon : (c : ℕ) → name_char c ≡ true → c ≢ colon
unfolding name_char name_start
name_char-colon c h e = ground arith

every_name-colon : (cs : Text) → every name_char cs ≡ true → contains cs colon ≡ false
every_name-colon [] h = refl
every_name-colon (c ∷ cs) h = ground (arith, every_name-colon cs, name_char-colon c)

valid_name-colon : (u : Text) → valid_name u ≡ true → contains u colon ≡ false
unfolding valid_name name_start
valid_name-colon [] h = refl
valid_name-colon (c ∷ cs) h = ground (arith, every_name-colon cs)

-- Two users with valid names never share a key, nor does one user for two operations.
pub log_key_lem :
    (u v op_id op_id' : Text)
    → valid_name u ≡ true
    → valid_name v ≡ true
    → log_key (some u) op_id ≡ log_key (some v) op_id'
    → (u ≡ v) × (op_id ≡ op_id')
unfolding log_key
log_key_lem u v op_id op_id' hu hv e =
    same_before_colon u v op_id op_id' (valid_name-colon u hu) (valid_name-colon v hv) e
