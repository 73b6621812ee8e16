-- ===== src/Btrfs/Volumes.antt =====
-- The volumes of store/filesystems/btrfs/driver.go.
pub mod Kernel
pub mod Paths
pub mod Destroy
pub mod Refine
pub mod Pull
pub mod Clean
use groot_btrfs.Base.{not, List, [], ◌∷◌, ◌++◌, if◌then◌else◌}
use groot_btrfs.Base.Int.{ℤ}
use groot_btrfs.Base.Str.{Str, codes, eqb}
use groot_btrfs.Base.FilePath.{join, dir}
use groot_btrfs.Base.Effect.{M, ⊤, ok, err, wrap, is_exist, for_each, ◌>>=◌, wrapping}
use groot_btrfs.Puller.{VolumeDriver, VolumeMeta}
use groot_btrfs.Store.{volumes_dir_name}
use groot_btrfs.Store.VolumeMeta as Meta
use groot_btrfs.Store.VolumeMeta.{volume_meta_file_path}
use groot_btrfs.Btrfs.{Driver, destroy_btrfs_volume}

module _ {W : Type 0} (d : Driver W) where
  abbrev pub path_of : Str → Str
  path_of id = join (d.meta.store_path ∷ volumes_dir_name ∷ id ∷ [])

  unfoldable pub volume_path : Str → M W Str
  unfolding join
  volume_path id w =
      let (r, w1) = d.meta.os.stat (path_of id) w in
      elim r [
        | ok _ ↦ (ok (path_of id), w1)
        | err e ↦ (err (wrap e (codes "volume does not exist `" ++ (id ++ codes "`"))), w1)
      ]

  -- The arguments of `btrfs subvolume`: a volume with a parent is a snapshot of it.
  unfoldable pub create_arguments : Str → Str → List Str
  unfolding eqb join
  create_arguments parent_id id =
      if eqb parent_id []
      then codes "subvolume" ∷ codes "create" ∷ path_of id ∷ []
      else codes "subvolume" ∷ codes "snapshot" ∷ path_of parent_id ∷ path_of id ∷ []

  unfoldable pub create_volume : Str → Str → M W Str
  unfolding create_arguments join
  create_volume parent_id id w =
      let (output, w1) = d.commands.run d.btrfs_bin_path (create_arguments parent_id id) w in
      elim output.ended [
        | ok _ ↦ (ok (path_of id), w1)
        | err e ↦ (
          err (
              wrap e (
                codes "creating btrfs volume `"
                ++ (path_of id ++ (codes "` " ++ output.combined)))),
          w1,
        )
      ]

  -- A target that is there already is no error.
  unfoldable pub move_volume : Str → Str → M W ⊤
  unfolding is_exist
  move_volume from to w =
      let (r, w1) = d.meta.os.rename from to w in
      elim r [
        | ok _ ↦ (ok tt, w1)
        | err e ↦
            if not (is_exist e) then (err (wrap e (codes "moving volume")), w1) else (ok tt, w1)
      ]

  unfoldable pub clean_whiteout_dir : Str → M W ⊤
  unfolding for_each join
  clean_whiteout_dir path = do
    contents ← wrapping (codes "reading whiteout directory") (d.meta.os.read_dir path)
    for_each
        (λ name.
          wrapping (codes "cleaning up whiteout directory")
            (d.meta.os.remove_all (join (path ∷ name ∷ []))))
        contents

  unfoldable pub handle_opaque_whiteouts : Str → List Str → M W ⊤
  unfolding volume_path clean_whiteout_dir for_each join dir
  handle_opaque_whiteouts id opaque_whiteouts = do
    path ← volume_path id
    for_each (λ whiteout. clean_whiteout_dir (dir (join (path ∷ whiteout ∷ [])))) opaque_whiteouts

  unfoldable pub write_volume_meta : Str → VolumeMeta → M W ⊤
  unfolding Meta.write_volume_meta
  write_volume_meta = Meta.write_volume_meta d.meta

  unfoldable pub volume_size : Str → M W ℤ
  unfolding Meta.volume_size
  volume_size = Meta.volume_size d.meta

  unfoldable pub volumes : M W (List Str)
  unfolding join
  volumes =
      wrapping (codes "failed to list volumes")
        (d.meta.os.read_dir (join (d.meta.store_path ∷ volumes_dir_name ∷ [])))

  -- Metadata that cannot be removed is only logged.
  unfoldable pub destroy_volume : Str → M W ⊤
  unfolding volume_meta_file_path destroy_btrfs_volume join
  destroy_volume id w =
      let (_, w1) = d.meta.os.remove (volume_meta_file_path d.meta id) w in
      destroy_btrfs_volume d (path_of id) w1

  -- The driver as the puller sees it.
  abbrev pub volume_driver : VolumeDriver W
  volume_driver = record {
    volume_path = volume_path;
    create_volume = create_volume;
    destroy_volume = destroy_volume;
    volumes = volumes;
    move_volume = move_volume;
    write_volume_meta = write_volume_meta;
    handle_opaque_whiteouts = handle_opaque_whiteouts;
  }
