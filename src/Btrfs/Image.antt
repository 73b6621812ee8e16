-- ===== src/Btrfs/Image.antt =====
-- The images of store/filesystems/btrfs/driver.go.
use groot_btrfs.Base.{List, [], ◌∷◌, ◌++◌, if◌then◌else◌, Option, none, some}
use groot_btrfs.Base.Str.{Str, codes, contains_str}
use groot_btrfs.Base.FilePath.{join}
use groot_btrfs.Base.Effect.{
  M, ⊤, Error, Result, ok, err, message, fatal, for_each, pure, lift, ◌>>=◌, ◌>>◌, wrapping,
}
use groot_btrfs.Groot.{MountInfo, VolumeStats}
use groot_btrfs.Store.{volumes_dir_name}
use groot_btrfs.Store.Cloner.{ImageDriver, ImageDriverSpec}
use groot_btrfs.Btrfs.{
  Driver, drax_arguments, run_drax, list_subvolumes, apply_disk_limit, destroy_btrfs_volume,
}
use groot_btrfs.Btrfs.Usage.{parse_usage}

unfoldable pub last_id : List Str → Option Str
last_id [] = none
last_id (id ∷ []) = some id
last_id (id ∷ next ∷ ids) = last_id (next ∷ ids)

-- `groot.MountInfo{}`
abbrev pub zero_mount : MountInfo
zero_mount = record { destination = []; type = []; source = []; options = [] }

abbrev pub bind_of : Str → MountInfo
bind_of source = record {
  destination = codes "/";
  type = [];
  source = source;
  options = codes "bind" ∷ [];
}

module _ {W : Type 0} (d : Driver W) where
  -- Without a mount the snapshot stands beside an empty folder `rootfs`: where the snapshot goes, and
  -- how it is to be mounted.
  unfoldable pub prepare_target : ImageDriverSpec → M W (Str × MountInfo)
  unfolding join
  prepare_target spec =
      let rootfs = join (spec.image_path ∷ codes "rootfs" ∷ []) in
      let snapshot = join (spec.image_path ∷ codes "snapshot" ∷ []) in
      if spec.mount then pure (rootfs, zero_mount) else (do
        wrapping (codes "creating rootfs folder") (d.meta.os.mkdir rootfs 0o755)
        wrapping (codes "chmoding rootfs folder") (d.meta.os.chmod rootfs 0o755)
        pure (snapshot, bind_of snapshot))

  unfoldable pub snapshot_volume : Str → Str → M W ⊤
  unfolding message
  snapshot_volume base_volume_path to_path w =
      let (output, w1) =
        d.commands.run d.btrfs_bin_path
          (codes "subvolume" ∷ codes "snapshot" ∷ base_volume_path ∷ to_path ∷ []) w in
      elim output.ended [
        | ok _ ↦ (ok tt, w1)
        | err e ↦ (
          err (
              Error.new (
                codes "creating btrfs snapshot from `"
                ++ (base_volume_path
                    ++ (codes "` to `"
                        ++ (to_path
                            ++ (codes "` ("
                                ++ (message e ++ (codes "): " ++ output.combined)))))))),
          w1,
        )
      ]

  -- An image without base volumes makes the code panic.
  unfoldable pub create_image : ImageDriverSpec → M W MountInfo
  unfolding last_id prepare_target snapshot_volume apply_disk_limit join
  create_image spec = elim (last_id spec.base_volume_ids) [
    | none ↦ (λ w. (err fatal, w))
    | some base_id ↦ do
      target ← prepare_target spec
      snapshot_volume (join (d.meta.store_path ∷ volumes_dir_name ∷ base_id ∷ [])) target.0
      wrapping (codes "chmoding snapshot") (d.meta.os.chmod target.0 0o755)
      apply_disk_limit d spec
      pure target.1
  ]

  -- The subvolume of an image: the snapshot, if there is one beside the folder `rootfs`, which is
  -- removed then.
  unfoldable pub find_snapshot : Str → M W Str
  unfolding join
  find_snapshot image_path w =
      let rootfs = join (image_path ∷ codes "rootfs" ∷ []) in
      let snapshot = join (image_path ∷ codes "snapshot" ∷ []) in
      let (r, w1) = d.meta.os.stat snapshot w in
      elim r [
        | err _ ↦ (ok rootfs, w1)
        | ok _ ↦
            (wrapping (codes "remove rootfs folder") (d.meta.os.remove rootfs) >> pure snapshot) w1
      ]

  -- A subvolume that is not empty: the subvolumes inside are destroyed as they are listed.
  unfoldable pub destroy_subvolumes : Str → M W ⊤
  unfolding list_subvolumes for_each destroy_btrfs_volume
  destroy_subvolumes image_path = do
    subvolumes ← wrapping (codes "list subvolumes") (list_subvolumes d image_path)
    for_each (destroy_btrfs_volume d) subvolumes

  -- An image path that cannot be removed is only logged.
  unfoldable pub remove_image_path : Str → Result ⊤ → M W ⊤
  remove_image_path image_path r w = let (_, w1) = d.meta.os.remove_all image_path w in (r, w1)

  -- The subvolume and then the image path; only where the subvolumes inside cannot be destroyed does
  -- the image path stay.
  unfoldable pub destroy_from : Str → Str → M W ⊤
  unfolding destroy_btrfs_volume destroy_subvolumes remove_image_path contains_str message
  destroy_from image_path path w =
      let (r, w1) = destroy_btrfs_volume d path w in
      elim r [
        | ok _ ↦ remove_image_path image_path (ok tt) w1
        | err e ↦
            if contains_str (message e) (codes "Directory not empty")
            then (destroy_subvolumes image_path >> remove_image_path image_path (ok tt)) w1
            else remove_image_path image_path (err e) w1
      ]

  unfoldable pub destroy_image : Str → M W ⊤
  unfolding find_snapshot destroy_from
  destroy_image image_path = find_snapshot image_path >>= destroy_from image_path

  unfoldable pub fetch_stats : Str → M W VolumeStats
  unfolding run_drax parse_usage join
  fetch_stats image_path = do
    output ← run_drax d (
        drax_arguments d (
          codes "stats"
          ∷ codes "--volume-path"
          ∷ join (image_path ∷ codes "rootfs" ∷ [])
          ∷ codes "--force-sync"
          ∷ []))
    lift (parse_usage output)

  -- The driver as the cloner and the manager see it.
  abbrev pub image_driver : ImageDriver W
  image_driver = record {
    create_image = create_image;
    destroy_image = destroy_image;
    fetch_stats = fetch_stats;
  }
