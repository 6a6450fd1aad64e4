-- ===== src/Tree/Users.antt =====
-- dfsha/control_node/tree.py: users, `chmod` and `chown`.
pub mod Laws
use proyecto1_sd.Base.Dict
use proyecto1_sd.Base.{Bool, Exec, List, Option, Text, [], access_denied, contains, every, gets}
use proyecto1_sd.Base.{guard, invalid_path, is_empty, lift, list_eq, modify, nat_eq, none, not}
use proyecto1_sd.Base.{or_error, path_exists, path_not_found, some, true, ℕ, ◌&&◌, ◌==◌, ◌>>=◌}
use proyecto1_sd.Base.{◌>>◌, ◌||◌, ◌∷◌}
use proyecto1_sd.Tree.Data.{Caller, ControlTree, Ownership, UserRecord}
use proyecto1_sd.Tree.FilePath.{canonical_path, path_parts}
use proyecto1_sd.Tree.Lookup.{get_visible_node}
use proyecto1_sd.Tree.Nodes.{modify_node, own_of, with_own}
use proyecto1_sd.Tree.Perms.{owner_or_admin, valid_mode, valid_name}

unfoldable pub create_user : Text → List ℕ → List ℕ → List Text → Bool → Exec ControlTree (Unit {0})
create_user username password_hash salt groups is_admin = do
  lift (guard (valid_name username) invalid_path)
  lift (guard (every valid_name groups) invalid_path)
  users ← gets (λ s. s.users)
  lift (guard (not (Dict.has username users)) path_exists)
  let user : UserRecord = record {
    password_hash = password_hash;
    salt = salt;
    groups = groups;
    is_admin = is_admin;
  }
  modify (λ s. record s { users = Dict.insert username user s.users })

unfoldable pub change_password : Text → List ℕ → List ℕ → Exec ControlTree (Unit {0})
change_password username password_hash salt = do
  users ← gets (λ s. s.users)
  user ← lift (or_error (Dict.lookup username users) path_not_found)
  let renewed = record user { password_hash = password_hash; salt = salt }
  modify (λ s. record s { users = Dict.insert username renewed s.users })

unfoldable pub get_user : Text → ControlTree → Option UserRecord
get_user username s = Dict.lookup username s.users

unfoldable pub has_users : ControlTree → Bool
has_users s = Dict.is_nonempty s.users

unfoldable pub chmod : Text → ℕ → Option Caller → Exec ControlTree (Unit {0})
chmod path mode caller = do
  canonical ← lift (canonical_path path)
  s ← gets (λ s. s)
  node ← lift (get_visible_node canonical s)
  lift (guard (owner_or_admin (own_of node) caller) access_denied)
  lift (guard (valid_mode mode) invalid_path)
  names ← lift (path_parts canonical)
  modify (λ s. record s {
    root = modify_node names (with_own (record (own_of node) { mode = mode })) s.root;
  })

-- Who may change the owner or the group; an empty text asks for no change.
abbrev pub may_chown : Ownership → Text → Text → Option Caller → Bool
may_chown own owner group none = true
may_chown own owner group (some c) =
    (is_empty owner || c.is_admin)
    && (is_empty group || c.is_admin || (c.username == own.owner && contains c.groups group))

abbrev pub text_or : Text → Text → Text
text_or [] d = d
text_or (c ∷ s) d = c ∷ s

unfoldable pub chown : Text → Text → Text → Option Caller → Exec ControlTree (Unit {0})
chown path owner group caller = do
  canonical ← lift (canonical_path path)
  s ← gets (λ s. s)
  node ← lift (get_visible_node canonical s)
  lift (guard (not (is_empty owner && is_empty group)) invalid_path)
  lift (guard (may_chown (own_of node) owner group caller) access_denied)
  lift (guard (is_empty owner || Dict.has owner s.users) path_not_found)
  lift (guard (is_empty group || valid_name group) invalid_path)
  names ← lift (path_parts canonical)
  let own = own_of node
  let changed = record own { owner = text_or owner own.owner; group = text_or group own.group }
  modify (λ s. record s { root = modify_node names (with_own changed) s.root })
