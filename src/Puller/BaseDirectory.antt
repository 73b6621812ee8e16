-- ===== src/Puller/BaseDirectory.antt =====
-- `ensureBaseDirectoryExists` of base_image_puller/base_image_puller.go.
pub mod Endless
use mathlib.Core.Option.{Option, none, some}
use groot_btrfs.Base.{ℕ, zero, suc, List, [], ◌∷◌, if◌then◌else◌}
use groot_btrfs.Base.Str.{Str, codes, eqb, size}
use groot_btrfs.Base.FilePath.{join, dir}
use groot_btrfs.Base.Os.{Os}
use groot_btrfs.Base.Effect.{
  M, ⊤, Error, Result, ok, err, wrap, is_not_exist, pure, ◌>>=◌, ◌>>◌, wrapping, fatal,
}

-- The paths that the recursion visits, from the root's child down to the base directory: the calls
-- on `filepath.Dir` end at the separator. `none` means that the fuel ran out before the separator.
unfoldable pub base_directories : ℕ → Str → Option (List Str)
unfolding eqb
base_directories zero d = none
base_directories (suc fuel) d =
    let rest = base_directories fuel (dir d) in
    if eqb d (codes "/")
    then some []
    else elim rest [ none ↦ none | some parents ↦ some (d ∷ parents) ]

module _ {W : Type 0} (os : Os W) where
  -- The body after the recursive call.
  unfoldable pub ensure_one : Str → Str → Str → M W ⊤
  unfolding is_not_exist join
  ensure_one base_dir child_path parent_path w =
      let child = join (child_path ∷ base_dir ∷ []) in
      let (r, w1) = os.stat child w in
      elim r [
        | ok _ ↦ (ok tt, w1)
        | err e ↦
            if is_not_exist e
            then (do
              info ←
                  wrapping (codes "base directory not found in parent layer")
                    (os.stat (join (parent_path ∷ base_dir ∷ [])))
              wrapping (codes "could not create base directory in child layer")
                  (os.mkdir child info.mode)
              wrapping (codes "could not chown base directory") (os.chown child info.uid info.gid))
                w1
            else (err (wrap e (codes "failed to stat base directory")), w1)
      ]

  -- The parents first, then the directory itself; the recursion is made on the parents' list.
  unfoldable pub ensure_each : List Str → Str → Str → M W ⊤
  unfolding ensure_one
  ensure_each [] child_path parent_path = pure tt
  ensure_each (d ∷ parents) child_path parent_path =
      ensure_each parents child_path parent_path >> ensure_one d child_path parent_path

  -- A base directory that leads to no separator makes the code recurse without end.
  unfoldable pub ensure_base_directory_exists : Str → Str → Str → M W ⊤
  unfolding base_directories ensure_each
  ensure_base_directory_exists base_dir child_path parent_path =
      elim (base_directories (suc (size base_dir)) base_dir) [
        | none ↦ (λ w. (err fatal, w))
        | some parents ↦ ensure_each parents child_path parent_path
      ]
