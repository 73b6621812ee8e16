-- ===== src/Store/VolumeMeta.antt =====
-- store/filesystems/common.go: the metadata of volumes. Package `encoding/json` is a parameter.
pub mod Laws
use groot_btrfs.Base.{List, [], ◌∷◌, ◌++◌}
use groot_btrfs.Base.Int.{ℤ}
use groot_btrfs.Base.Str.{Str, codes, replace_first}
use groot_btrfs.Base.FilePath.{join}
use groot_btrfs.Base.Os.{Os}
use groot_btrfs.Base.Effect.{M, ⊤, Result, ok, err, pure, lift, ◌>>=◌, ◌>>◌, wrapping}
use groot_btrfs.Puller.{VolumeMeta}
use groot_btrfs.Store.{meta_dir_name}

pub record MetaFiles (W : Type 0) : Type 0 where
  pub store_path : Str
  pub os : Os W
  pub encode : VolumeMeta → Str
  pub decode : Str → Result VolumeMeta

module _ {W : Type 0} (n : MetaFiles W) where
  unfoldable pub volume_meta_file_path : Str → Str
  unfolding replace_first join
  volume_meta_file_path id =
      join
        (n.store_path ∷ meta_dir_name ∷ (codes "volume-" ++ replace_first id (codes "gc.") []) ∷ [])

  unfoldable pub write_volume_meta : Str → VolumeMeta → M W ⊤
  unfolding volume_meta_file_path
  write_volume_meta id metadata = do
    wrapping (codes "creating metadata file") (n.os.write_file (volume_meta_file_path id) [] 0o666)
    wrapping (codes "writing metadata file")
        (n.os.write_file (volume_meta_file_path id) (n.encode metadata) 0o666)

  unfoldable pub volume_size : Str → M W ℤ
  unfolding volume_meta_file_path
  volume_size id = do
    text ←
        wrapping (codes "opening volume `" ++ (id ++ codes "` metadata"))
          (n.os.read_file (volume_meta_file_path id))
    metadata ←
        wrapping (codes "parsing volume `" ++ (id ++ codes "` metadata")) (lift (n.decode text))
    pure metadata.size
