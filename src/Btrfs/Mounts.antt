-- ===== src/Btrfs/Mounts.antt =====
-- store/filesystems/filesystems.go: whether a path is on a file system that is mounted as needed.
use groot_btrfs.Base.{
  true, List, [], ◌∷◌, ◌++◌, if◌then◌else◌, all, arith, ◌≡◌, refl, inl, inr, Bool-cases, Option,
  none, some,
}
use groot_btrfs.Base.Int.{ℤ, pos, eqb_ℤ}
use groot_btrfs.Base.Str.{Str, codes, eqb, contains_str}
use groot_btrfs.Base.Str.Split.{lines}
use groot_btrfs.Base.Effect.{
  M, ⊤, Error, Result, ok, err, message, lift, ◌>>=◌, wrapping, succeeded,
}
use groot_btrfs.Btrfs.{Driver}

-- `BtrfsType`
abbrev pub btrfs_type : ℤ
btrfs_type = pos 0x9123683E

unfoldable pub filesystem_code : Str → Result ℤ
unfolding eqb
filesystem_code filesystem =
    if eqb filesystem (codes "btrfs")
    then ok btrfs_type
    else err (Error.new (codes "filesystem " ++ (filesystem ++ codes " is not supported")))

-- The loop over the options at the mount point that was found.
unfoldable pub check_options : Str → List Str → Result ⊤
unfolding contains_str
check_options mount_point [] = ok tt
check_options mount_point (option ∷ options) =
    let rest = check_options mount_point options in
    if contains_str mount_point option
    then rest
    else err (
        Error.new (
          codes "'"
          ++ (option
              ++ (codes "' option missing at the mount point '" ++ (mount_point ++ codes "'")))))

-- The loop over the mounts: the first one that names the file system and the path is checked.
unfoldable pub check_mounts : Str → Str → List Str → List Str → Result ⊤
unfolding check_options contains_str
check_mounts path filesystem options [] = ok tt
check_mounts path filesystem options (mount_point ∷ mounts) =
    let rest = check_mounts path filesystem options mounts in
    if contains_str mount_point (filesystem ++ (codes " " ++ path))
    then check_options mount_point options
    else rest

module _ {W : Type 0} (d : Driver W) where
  unfoldable pub check_mount_options : Str → Str → List Str → M W ⊤
  unfolding check_mounts lines message
  check_mount_options path filesystem options w =
      let (r, w1) = d.meta.os.read_file (codes "/proc/mounts") w in
      elim r [
        | err e ↦ (err (Error.new (codes "Failed to open /proc/mounts: " ++ message e)), w1)
        | ok mounts ↦ (check_mounts path filesystem options (lines mounts), w1)
      ]

  unfoldable pub check_fs_path : Str → Str → List Str → M W ⊤
  unfolding filesystem_code check_mount_options
  check_fs_path path filesystem mount_options = do
    type ← wrapping (codes "Failed to detect type of filesystem") (d.statfs_type path)
    fs_type ← lift (filesystem_code filesystem)
    if eqb_ℤ type fs_type
        then check_mount_options path filesystem mount_options
        else lift (
            err (
              Error.new (
                codes "Store path filesystem ("
                ++ (path ++ codes ") is incompatible with requested driver"))))

  -- `Driver.ValidateFileSystem`
  unfoldable pub validate_file_system : Str → M W ⊤
  unfolding check_fs_path
  validate_file_system path =
      wrapping (codes "btrfs filesystem validation")
        (check_fs_path path (codes "btrfs") (codes "user_subvol_rm_allowed" ∷ []))

-- The first mount that names the file system and the path.
abbrev pub mount_of : Str → Str → List Str → Option Str
mount_of path filesystem [] = none
mount_of path filesystem (m ∷ mounts) =
    if contains_str m (filesystem ++ (codes " " ++ path))
    then some m
    else mount_of path filesystem mounts

check_options_iff :
    (m : Str) (options : List Str)
    → succeeded (check_options m options) ≡ all (λ o. contains_str m o) options
unfolding check_options
check_options_iff m [] = refl
check_options_iff m (o ∷ options) = ground (arith, check_options_iff m options)

-- The mount options are accepted exactly if the first mount that names the file system and the path
-- has each of them, or no mount does.
pub check_mounts_iff :
    (path filesystem : Str) (options mounts : List Str)
    → succeeded (check_mounts path filesystem options mounts)
      ≡ elim (mount_of path filesystem mounts) [
        | none ↦ true
        | some m ↦ all (λ o. contains_str m o) options
      ]
unfolding check_mounts
check_mounts_iff path filesystem options [] = refl
check_mounts_iff path filesystem options (m ∷ mounts) =
    elim (Bool-cases (contains_str m (filesystem ++ (codes " " ++ path)))) [
      | inl named ↦ rw named (check_options_iff m options)
      | inr other ↦ rw other (check_mounts_iff path filesystem options mounts)
    ]
