-- ===== src/Drax.antt =====
-- store/filesystems/btrfs/drax: the setuid helper that runs the commands of btrfs for the driver.
pub mod Lister
use groot_btrfs.Base.{Bool, true, false, List, [], ◌∷◌, ◌++◌, if◌then◌else◌, not, ◌==◌, length}
use groot_btrfs.Base.Int.{ℤ}
use groot_btrfs.Base.Str.{Str, codes, contains_str}
use groot_btrfs.Base.Str.Split.{trim_space}
use groot_btrfs.Base.Decimal.{itoa}
use groot_btrfs.Base.Commands.{Commands, Output}
use groot_btrfs.Base.Effect.{M, ⊤, Error, Result, ok, err, wrap, pure, ◌>>=◌, ◌>>◌}

-- The state of a limiter and of the statistics: the path of the program `btrfs`.
pub record Btrfs (W : Type 0) : Type 0 where
  pub btrfs_bin : Str
  pub commands : Commands W

module _ {W : Type 0} (i : Btrfs W) where
  -- limiter/btrfs.go
  unfoldable pub args_for_limit : Str → Str → Bool → List Str
  args_for_limit path disk_limit exclusive_limit =
      codes "qgroup"
      ∷ codes "limit"
      ∷ ((if exclusive_limit then codes "-e" ∷ [] else []) ++ (disk_limit ∷ path ∷ []))

  -- The output of a command that fails is used as a format.
  unfoldable pub run_limiter : List Str → M W ⊤
  unfolding trim_space
  run_limiter arguments w =
      let (output, w1) = i.commands.run i.btrfs_bin arguments w in
      elim output.ended [
        | ok _ ↦ (ok tt, w1)
        | err _ ↦ (err (Error.new (i.commands.sprintf (trim_space output.combined))), w1)
      ]

  unfoldable pub apply_disk_limit : Str → ℤ → Bool → M W ⊤
  unfolding args_for_limit run_limiter itoa
  apply_disk_limit path disk_limit exclusive_limit =
      run_limiter (args_for_limit path (itoa disk_limit) exclusive_limit)

  unfoldable pub destroy_quota_group : Str → M W ⊤
  unfolding run_limiter
  destroy_quota_group path = run_limiter (codes "qgroup" ∷ codes "destroy" ∷ path ∷ path ∷ [])

  -- metrix/btrfs_stats.go
  unfoldable pub is_subvolume : Str → M W ⊤
  unfolding contains_str
  is_subvolume path w =
      let (output, w1) =
        i.commands.run i.btrfs_bin (codes "subvolume" ∷ codes "show" ∷ path ∷ []) w in
      elim output.ended [
        | ok _ ↦ (ok tt, w1)
        | err e ↦
            if contains_str output.combined (codes "not a subvolume")
            then (err (wrap e (codes "`" ++ (path ++ codes "` is not a btrfs volume"))), w1)
            else (err (Error.new (codes "checking if volume exists: " ++ output.combined)), w1)
      ]

  unfoldable pub sync_filesystem : Str → M W ⊤
  unfolding trim_space
  sync_filesystem path w =
      let (output, w1) =
        i.commands.run i.btrfs_bin (codes "filesystem" ∷ codes "sync" ∷ path ∷ []) w in
      elim output.ended [
        | ok _ ↦ (ok tt, w1)
        | err _ ↦ (err (Error.new (codes "syncing filesystem: " ++ trim_space output.combined)), w1)
      ]

  unfoldable pub show_qgroup : Str → M W Str
  unfolding trim_space
  show_qgroup path w =
      let (output, w1) =
        i.commands.run i.btrfs_bin
          (codes "qgroup" ∷ codes "show" ∷ codes "--raw" ∷ codes "-F" ∷ path ∷ []) w in
      elim output.ended [
        | ok _ ↦ (ok output.stdout, w1)
        | err _ ↦ (
          err (
              Error.new (
                codes "qgroup usage: "
                ++ (trim_space output.stdout ++ (codes ", " ++ trim_space output.stderr)))),
          w1,
        )
      ]

  unfoldable pub volume_stats : Str → Bool → M W Str
  unfolding is_subvolume sync_filesystem show_qgroup
  volume_stats path force_sync = do
    is_subvolume path
    if force_sync then sync_filesystem path else pure tt
    show_qgroup path
