-- ===== src/Btrfs.antt =====
-- store/filesystems/btrfs/driver.go: volumes and images as subvolumes of btrfs.
pub mod Usage
pub mod Mounts
pub mod Volumes
pub mod Image
use groot_btrfs.Base.{
  ℕ, Bool, true, false, not, ◌&&◌, ◌||◌, List, [], ◌∷◌, ◌++◌, if◌then◌else◌, ◌==◌, ◌/◌, ◌%◌, ◌^◌,
  map,
}
use groot_btrfs.Base.Int.{ℤ, pos, eqb_ℤ}
use groot_btrfs.Base.Str.{Str, codes, eqb, contains_str}
use groot_btrfs.Base.Str.Split.{split_on, trim_space, trim_left, trim_right}
use groot_btrfs.Base.Decimal.{itoa}
use groot_btrfs.Base.FilePath.{join}
use groot_btrfs.Base.Os.{Os, FileInfo}
use groot_btrfs.Base.Commands.{Commands, Output}
use groot_btrfs.Base.Effect.{
  M, ⊤, Error, Result, ok, err, wrap, message, fatal, for_each, pure, raise, ◌>>=◌, ◌>>◌, wrapping,
}
use groot_btrfs.Groot.{VolumeStats}
use groot_btrfs.Store.Cloner.{ImageDriverSpec}
use groot_btrfs.Store.VolumeMeta.{MetaFiles}

-- `meta` holds the path of the store and the calls of the operating system; `statfs_type` is the
-- type that `syscall.Statfs` reports.
pub record Driver (W : Type 0) : Type 0 where
  pub drax_bin_path : Str
  pub btrfs_bin_path : Str
  pub mkfs_bin_path : Str
  pub meta : MetaFiles W
  pub commands : Commands W
  pub statfs_type : Str → M W ℤ

-- `info.Mode() & os.ModeSetuid`: bit 23.
unfoldable pub is_setuid : FileInfo → Bool
is_setuid info = info.mode / 2 ^ 23 % 2 == 1

-- `strings.Trim(fmt.Sprintf("%s,user_subvol_rm_allowed,rw", option), ",")`
unfoldable pub mount_options : Str → Str
unfolding trim_left trim_right
mount_options option =
    trim_right is_comma (trim_left is_comma (option ++ codes ",user_subvol_rm_allowed,rw"))
  where
    is_comma : ℕ → Bool
    is_comma c = c == b','

module _ {W : Type 0} (d : Driver W) where
  unfoldable pub drax_in_path : W → Bool × W
  drax_in_path w =
      let (r, w1) = d.commands.look_path d.drax_bin_path w in
      elim r [ ok _ ↦ (true, w1) | err _ ↦ (false, w1) ]

  -- A path that was found but cannot be looked at makes the code panic.
  unfoldable pub has_suid : M W Bool
  unfolding is_setuid
  has_suid w =
      let (r, w1) = d.commands.look_path d.drax_bin_path w in
      elim r [
        | err _ ↦ (ok false, w1)
        | ok path ↦
            let (found, w2) = d.meta.os.stat path w1 in
            elim found [ ok info ↦ (ok (is_setuid info), w2) | err _ ↦ (err fatal, w2) ]
      ]

  unfoldable pub start_drax : List Str → M W Str
  unfolding trim_space
  start_drax arguments w =
      let (output, w1) = d.commands.run d.drax_bin_path arguments w in
      elim output.ended [
        | ok _ ↦ (ok output.stdout, w1)
        | err e ↦ (err (wrap e (codes " " ++ trim_space output.stdout)), w1)
      ]

  -- Drax must have the setuid bit, unless the program runs as root.
  unfoldable pub start_checked : List Str → Bool → M W Str
  unfolding start_drax
  start_checked arguments suid w =
      if not suid && not (eqb_ℤ d.meta.os.geteuid (pos 0))
      then (err (Error.new (codes "missing the setuid bit on drax")), w)
      else start_drax arguments w

  unfoldable pub run_drax : List Str → M W Str
  unfolding drax_in_path has_suid start_checked
  run_drax arguments w =
      let (found, w1) = drax_in_path w in
      if not found
      then (err (Error.new (codes "drax was not found in the $PATH")), w1)
      else (has_suid >>= start_checked arguments) w1

  -- `--btrfs-bin` and its value stand before the command.
  abbrev pub drax_arguments : List Str → List Str
  drax_arguments arguments = codes "--btrfs-bin" ∷ d.btrfs_bin_path ∷ arguments

  unfoldable pub destroy_qgroup : Str → M W ⊤
  unfolding run_drax
  destroy_qgroup path = do
    run_drax (drax_arguments (codes "destroy" ∷ codes "--volume-path" ∷ path ∷ []))
    pure tt

  unfoldable pub list_subvolumes : Str → M W (List Str)
  unfolding run_drax split_on
  list_subvolumes path = do
    contents ← run_drax (drax_arguments (codes "list" ∷ path ∷ []))
    pure (split_on 10 contents)

  unfoldable pub apply_disk_limit : ImageDriverSpec → M W ⊤
  unfolding run_drax itoa join
  apply_disk_limit spec = if eqb_ℤ spec.disk_limit (pos 0) then pure tt else (do
    run_drax (
        drax_arguments (
          (codes "limit"
            ∷ codes "--volume-path"
            ∷ join (spec.image_path ∷ codes "rootfs" ∷ [])
            ∷ codes "--disk-limit-bytes"
            ∷ itoa spec.disk_limit
            ∷ [])
          ++ (if spec.exclusive_disk_limit then codes "--exclude-image-from-quota" ∷ [] else [])))
    pure tt)

  -- `btrfs subvolume delete`
  unfoldable pub delete_subvolume : Str → M W ⊤
  unfolding trim_space
  delete_subvolume path w =
      let (output, w1) =
        d.commands.run d.btrfs_bin_path (codes "subvolume" ∷ codes "delete" ∷ path ∷ []) w in
      elim output.ended [
        | ok _ ↦ (ok tt, w1)
        | err e ↦ (err (wrap e (codes "destroying volume " ++ trim_space output.combined)), w1)
      ]

  -- A quota group that cannot be destroyed is only logged.
  unfoldable pub destroy_btrfs_volume : Str → M W ⊤
  unfolding destroy_qgroup delete_subvolume
  destroy_btrfs_volume path w =
      let (r, w1) = d.meta.os.stat path w in
      elim r [
        | err e ↦ (err (wrap e (codes "image path not found")), w1)
        | ok _ ↦ let (_, w2) = destroy_qgroup path w1 in delete_subvolume path w2
      ]

  unfoldable pub mount_filesystem : Str → Str → Str → M W ⊤
  mount_filesystem all_options source destination w =
      let (output, w1) =
        d.commands.run (codes "mount")
          (codes "-o" ∷ all_options ∷ codes "-t" ∷ codes "btrfs" ∷ source ∷ destination ∷ []) w in
      elim output.ended [
        | ok _ ↦ (ok tt, w1)
        | err e ↦ (err (Error.new (message e ++ (codes ": " ++ output.combined))), w1)
      ]

  unfoldable pub format_filesystem : Str → M W ⊤
  unfolding message
  format_filesystem filesystem_path w =
      let (output, w1) = d.commands.run d.mkfs_bin_path (codes "-f" ∷ filesystem_path ∷ []) w in
      elim output.ended [
        | ok _ ↦ (ok tt, w1)
        | err e ↦ (err (Error.new (codes "Formatting BTRFS filesystem: " ++ message e)), w1)
      ]

  unfoldable pub mount_formatted : Str → Str → M W ⊤
  unfolding mount_filesystem mount_options message
  mount_formatted filesystem_path store_path w =
      let (r, w1) = mount_filesystem (mount_options []) filesystem_path store_path w in
      elim r [
        | ok _ ↦ (ok tt, w1)
        | err e ↦ (err (Error.new (codes "Mounting filesystem: " ++ message e)), w1)
      ]

  -- A file system that can be remounted is not formatted.
  unfoldable pub init_filesystem : Str → Str → M W ⊤
  unfolding mount_filesystem format_filesystem mount_formatted
  init_filesystem filesystem_path store_path w =
      let (r, w1) =
        mount_filesystem (mount_options (codes "remount")) filesystem_path store_path w in
      elim r [
        | ok _ ↦ (ok tt, w1)
        | err _ ↦
            (format_filesystem filesystem_path >> mount_formatted filesystem_path store_path) w1
      ]
