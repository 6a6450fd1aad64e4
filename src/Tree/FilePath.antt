-- ===== src/Tree/FilePath.antt =====
-- dfsha/control_node/tree.py: `_parts` and `_canonical_path`.
use proyecto1_sd.Base.Errors.{◌>>=◌}
use proyecto1_sd.Base.{List, Result, Text, codes, contains, err, if◌then◌else◌, invalid_path}
use proyecto1_sd.Base.{is_empty, join, keep, list_eq, nat_eq, not, ok, refl, split, strip, ℕ, ◌∷◌}
use proyecto1_sd.Base.{◌≡◌}

abbrev pub slash : ℕ
slash = b'/'

abbrev pub dot_dot : Text
dot_dot = codes ".."

-- The names of a path; ".." anywhere in it is refused.
unfoldable pub path_parts : Text → Result (List Text)
path_parts path =
    if contains (split slash path) dot_dot
    then err invalid_path
    else ok (keep (λ p. not (is_empty p)) (split slash (strip slash path)))

-- "/" + "/".join(parts)
unfoldable pub path_of : List Text → Text
path_of names = slash ∷ join slash names

unfoldable pub canonical_path : Text → Result Text
unfolding path_parts path_of
canonical_path path = do names ← path_parts path; ok (path_of names)

canonical_path_run : canonical_path (codes "//a/b/") ≡ ok (codes "/a/b")
unfolding canonical_path split strip join list_eq nat_eq
canonical_path_run = refl
