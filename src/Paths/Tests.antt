-- ===== src/Paths/Tests.antt =====
-- The theorem on paths (src/lib/paths.cpp) at /a/bc, and what the parts of `bc` are.
use nanodistro.Base.{codes, eqb, some, ◌≡◌, refl}
use nanodistro.Paths.{rfind, path_basename, path_dirname, path_join}
use nanodistro.Paths.Join.{path_join-parts}

slash_at : rfind b'/' (codes "/a/bc") ≡ some 2
unfolding rfind
slash_at = refl

directory_of : path_dirname (codes "/a/bc") ≡ codes "/a"
unfolding path_dirname eqb
directory_of = refl

path_join-parts_example :
    path_join (path_dirname (codes "/a/bc")) (path_basename (codes "/a/bc")) ≡ codes "/a/bc"
unfolding eqb
path_join-parts_example = path_join-parts (codes "/a/bc") 2 refl slash_at (rw directory_of refl)

no_directory : path_dirname (codes "bc") ≡ codes "bc"
unfolding path_dirname eqb
no_directory = refl
