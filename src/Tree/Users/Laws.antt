-- ===== src/Tree/Users/Laws.antt =====
-- What `create_user`, `change_password`, `chmod` and `chown` change.
use proyecto1_sd.Base.Dict
use proyecto1_sd.Base.{Bool, List, Option, Result-cases, Text, arith, if◌then◌else◌, inl, inr}
use proyecto1_sd.Base.{list_eq, nat_eq, none, ok, refl, some, true, ℕ, ◌==◌, ◌>>=◌, ◌≡◌, ◌≤◌}
use proyecto1_sd.Tree.Data.{Caller, ControlTree, Node, UserRecord, dir, file}
use proyecto1_sd.Tree.FilePath.{canonical_path, path_parts}
use proyecto1_sd.Tree.Lookup.{get_visible_node, visible}
use proyecto1_sd.Tree.Nodes.{get_node, modify_node, own_of, with_own}
use proyecto1_sd.Tree.Nodes.Update.{look_owned}
use proyecto1_sd.Tree.Nodes.View.{info_of, look}
use proyecto1_sd.Tree.Perms.{owner_or_admin}
use proyecto1_sd.Tree.Users.{change_password, chmod, create_user, get_user, has_users}

-- A user is created once: the new user is found under the new name, every other user is kept, and
-- a name that is taken is refused and its user left alone.
pub create_user_lem :
    (username : Text) (h salt : List ℕ) (groups : List Text) (is_admin : Bool) (s : ControlTree)
    → (create_user username h salt groups is_admin s).0 ≡ ok tt
    → (get_user username s ≡ none)
      × ((u : Text)
          → get_user u (create_user username h salt groups is_admin s).1 ≡ (
              if u == username
              then some
                  (record { password_hash = h; salt = salt; groups = groups; is_admin = is_admin })
              else get_user u s))
      × (has_users (create_user username h salt groups is_admin s).1 ≡ true)
unfolding create_user get_user has_users ◌>>=◌
create_user_lem username h salt groups is_admin s e =
    let user : UserRecord = record {
      password_hash = h;
      salt = salt;
      groups = groups;
      is_admin = is_admin;
    } in
    (
      ground arith,
      λ u. ground (arith, Dict.lookup-insert u username user s.users),
      ground (arith, Dict.insert-is_nonempty username user s.users),
    )

-- A new password keeps the groups and the rights of its user, and every other user.
pub change_password_lem :
    (username : Text) (h salt : List ℕ) (s : ControlTree) (user : UserRecord)
    → get_user username s ≡ some user
    → ((change_password username h salt s).0 ≡ ok tt)
      × ((u : Text)
          → get_user u (change_password username h salt s).1 ≡ (
              if u == username
              then some (record user { password_hash = h; salt = salt })
              else get_user u s))
unfolding change_password get_user ◌>>=◌
change_password_lem username h salt s user e =
    let renewed = record user { password_hash = h; salt = salt } in
    (ground arith, λ u. ground (arith, Dict.lookup-insert u username renewed s.users))

-- The node that `chmod` and `chown` find: a directory or a committed file.
record Found (path : Text) (s : ControlTree) : Type 0 where
  canonical : Text
  names : List Text
  node : Node
  is_canonical : canonical_path path ≡ ok canonical
  parts : path_parts canonical ≡ ok names
  seen : get_visible_node canonical s ≡ ok node
  at_path : get_node names s.root ≡ some node

visible_eq : (m : Option Node) (n : Node) → visible m ≡ ok n → m ≡ some n
visible_eq none n h = cc
visible_eq (some (dir o es)) n h = cc
visible_eq (some (file f)) n h = ground arith

visible-at_path :
    (canonical : Text) (names : List Text) (node : Node) (s : ControlTree)
    → path_parts canonical ≡ ok names
    → get_visible_node canonical s ≡ ok node
    → get_node names s.root ≡ some node
unfolding get_visible_node
visible-at_path canonical names node s p h = visible_eq (get_node names s.root) node (ground arith)

chmod-Found :
    (path : Text) (mode : ℕ) (caller : Option Caller) (s : ControlTree)
    → (chmod path mode caller s).0 ≡ ok tt
    → Found path s
unfolding chmod ◌>>=◌
chmod-Found path mode caller s h = elim (Result-cases (canonical_path path)) [
  | inr (e, c) ↦ ground arith
  | inl (canonical, c) ↦ elim (Result-cases (get_visible_node canonical s)) [
    | inr (e, n) ↦ ground arith
    | inl (node, n) ↦ elim (Result-cases (path_parts canonical)) [
      | inr (e, p) ↦ ground arith
      | inl (names, p) ↦ record {
        canonical = canonical;
        names = names;
        node = node;
        is_canonical = c;
        parts = p;
        seen = n;
        at_path = visible-at_path canonical names node s p n;
      }
    ]
  ]
]

chmod_done :
    (path : Text) (mode : ℕ) (caller : Option Caller) (s : ControlTree) (f : Found path s)
    → (chmod path mode caller s).0 ≡ ok tt
    → ((chmod path mode caller s).1 ≡ record s {
      root = modify_node f.names (with_own (record (own_of f.node) { mode = mode })) s.root;
    })
      × (owner_or_admin (own_of f.node) caller ≡ true)
      × (mode ≤ 0o777)
unfolding chmod ◌>>=◌
chmod_done path mode caller s f h =
    let c = f.is_canonical in
    let n = f.seen in let p = f.parts in (ground arith, ground arith, ground arith)

-- A `chmod` that succeeds was asked by the owner, an administrator or an internal command, for a
-- mode of at most 0o777; it sets the mode of that path and changes nothing else.
pub chmod_lem :
    (path : Text) (mode : ℕ) (caller : Option Caller) (s : ControlTree)
    → (chmod path mode caller s).0 ≡ ok tt
    → (canonical : Text) × (names : List Text) × (node : Node) × (canonical_path path
        ≡ ok canonical)
      × (path_parts canonical ≡ ok names)
      × (get_node names s.root ≡ some node)
      × (owner_or_admin (own_of node) caller ≡ true)
      × (mode ≤ 0o777)
      × ((q : List Text)
          → look q (chmod path mode caller s).1.root ≡ (
              if q == names
              then info_of (some (with_own (record (own_of node) { mode = mode }) node))
              else look q s.root))
      × ((chmod path mode caller s).1 ≡ record s { root = (chmod path mode caller s).1.root })
chmod_lem path mode caller s h =
    let f = chmod-Found path mode caller s h in
    let own = record (own_of f.node) { mode = mode } in
    let (left, allowed, small) = chmod_done path mode caller s f h in
    (
      f.canonical,
      f.names,
      f.node,
      f.is_canonical,
      f.parts,
      f.at_path,
      allowed,
      small,
      λ q. rw left (look_owned f.names f.node own s.root f.at_path q),
      rw left refl,
    )
