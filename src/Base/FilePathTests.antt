-- ===== src/Base/FilePathTests.antt =====
-- The path functions at the examples of their documentation.
use mathlib.Core.Path.{◌≡◌, refl}
use mathlib.Core.List.{[], ◌∷◌}
use groot_btrfs.Base.Str.{codes}
use groot_btrfs.Base.FilePath.{join, dir, base}

join_cleans :
    (join (codes "/store" ∷ codes "volumes" ∷ codes "../x/" ∷ []) ≡ codes "/store/x")
    × (join (codes "a" ∷ [] ∷ codes "../../b" ∷ []) ≡ codes "../b")
    × (join ([] ∷ []) ≡ [])
unfolding join
join_cleans = (refl, refl, refl)

dir_examples :
    (dir (codes "/a/b/c") ≡ codes "/a/b")
    × (dir (codes "/a") ≡ codes "/")
    × (dir (codes "home") ≡ codes ".")
    × (dir (codes ".") ≡ codes ".")
    × (dir (codes "/") ≡ codes "/")
unfolding dir
dir_examples = (refl, refl, refl, refl, refl)

base_examples :
    (base (codes "/a/b/") ≡ codes "b") × (base (codes "///") ≡ codes "/") × (base [] ≡ codes ".")
unfolding base
base_examples = (refl, refl, refl)
