-- ===== src/Store/Cloner.antt =====
-- store/image_cloner/image_cloner.go. The hash of package `crypto/sha256`, in hexadecimal, is a
-- parameter, and the volumes of an image are listed in the order in which the map yields them.
pub mod Laws
use groot_btrfs.Base.{Bool, true, false, not, ◌&&◌, List, [], ◌∷◌, ◌++◌, map, if◌then◌else◌}
use groot_btrfs.Base.Int.{ℤ, pos, eqb_ℤ}
use groot_btrfs.Base.Str.{Str, codes, eqb}
use groot_btrfs.Base.Decimal.{itoa}
use groot_btrfs.Base.FilePath.{join}
use groot_btrfs.Base.Os.{Os}
use groot_btrfs.Base.Effect.{
  M, ⊤, Error, Result, ok, err, wrap, is_not_exist, for_each, pure, ◌>>=◌, ◌>>◌, wrapping,
}
use groot_btrfs.Groot as Interface
use groot_btrfs.Groot.{MountInfo, ImageInfo, OciImage, ImageSpec, VolumeStats}
use groot_btrfs.Store.{image_dir_name}

pub record ImageDriverSpec : Type 0 where
  pub base_volume_ids : List Str
  pub mount : Bool
  pub image_path : Str
  pub disk_limit : ℤ
  pub exclusive_disk_limit : Bool

pub record ImageDriver (W : Type 0) : Type 0 where
  pub create_image : ImageDriverSpec → M W MountInfo
  pub destroy_image : Str → M W ⊤
  pub fetch_stats : Str → M W VolumeStats

pub record ImageCloner (W : Type 0) : Type 0 where
  pub image_driver : ImageDriver W
  pub store_path : Str
  pub os : Os W
  pub hex_sha256 : Str → Str

unfoldable pub image_driver_spec : ImageSpec → Str → ImageDriverSpec
image_driver_spec spec image_path = record {
  base_volume_ids = spec.base_volume_ids;
  mount = spec.mount;
  image_path = image_path;
  disk_limit = spec.disk_limit;
  exclusive_disk_limit = spec.exclude_base_image_from_quota;
}

module _ {W : Type 0} (b : ImageCloner W) where
  unfoldable pub image_path : Str → Str
  unfolding join
  image_path id = join (b.store_path ∷ image_dir_name ∷ id ∷ [])

  unfoldable pub image_ids : M W (List Str)
  unfolding join
  image_ids =
      wrapping (codes "failed to read images dir")
        (b.os.read_dir (join (b.store_path ∷ image_dir_name ∷ [])))

  unfoldable pub exists : Str → M W Bool
  unfolding image_path is_not_exist
  exists id w =
      let (r, w1) = b.os.stat (image_path id) w in
      elim r [
        | ok _ ↦ (ok true, w1)
        | err e ↦
            if is_not_exist e
            then (ok false, w1)
            else (err (wrap e (codes "checking if image `" ++ (id ++ codes "` exists"))), w1)
      ]

  unfoldable pub set_ownership : ImageSpec → List Str → M W ⊤
  unfolding for_each itoa
  set_ownership spec paths =
      if eqb_ℤ spec.owner_uid (pos 0) && eqb_ℤ spec.owner_gid (pos 0)
      then pure tt
      else for_each
          (λ path.
            wrapping
              (codes "changing "
                ++ (path
                    ++ (codes " ownership to "
                        ++ (itoa spec.owner_uid ++ (codes ":" ++ itoa spec.owner_gid)))))
              (b.os.chown path spec.owner_uid spec.owner_gid))
          paths

  -- The mount of one volume of the image.
  unfoldable pub volume_mount : Str → Str → MountInfo
  unfolding join
  volume_mount path volume = record {
    destination = volume;
    type = codes "bind";
    source = join (path ∷ (codes "vol-" ++ b.hex_sha256 volume) ∷ []);
    options = codes "bind" ∷ [];
  }

  unfoldable pub image_info : Str → Str → OciImage → MountInfo → Bool → ImageInfo
  unfolding volume_mount
  image_info rootfs_path path base_image mount_json mount = record {
    rootfs = rootfs_path;
    image = base_image;
    mounts = (if mount then [] else mount_json ∷ []) ++ map (volume_mount path) base_image.volumes;
    path = path;
  }

  unfoldable pub create_volumes_sources : List MountInfo → ℤ → ℤ → M W ⊤
  unfolding for_each eqb
  create_volumes_sources mounts owner_uid owner_gid =
      for_each
        (λ mount_info.
          if eqb mount_info.type (codes "bind")
          then b.os.mkdir mount_info.source 0o755
            >> b.os.chown mount_info.source owner_uid owner_gid
          else pure tt)
        mounts

  -- The deferred function, when the variable `err` that it captures is set.
  unfoldable pub clean_up : Str → W → W
  clean_up path w = (b.os.remove_all path (b.image_driver.destroy_image path w).1).1

  -- What follows the driver's work. Its errors are variables of their own, so that the deferred
  -- function does not see them.
  unfoldable pub furnish : ImageSpec → Str → MountInfo → M W ImageInfo
  unfolding set_ownership image_info create_volumes_sources join
  furnish spec path mount_info = do
    let rootfs = join (path ∷ codes "rootfs" ∷ [])
    set_ownership spec (path ∷ rootfs ∷ [])
    let info = image_info rootfs path spec.base_image mount_info spec.mount
    wrapping (codes "creating volume source")
        (create_volumes_sources info.mounts spec.owner_uid spec.owner_gid)
    pure info

  unfoldable pub create : ImageSpec → M W ImageInfo
  unfolding image_path image_driver_spec clean_up furnish
  create spec w =
      let path = image_path spec.id in
      let (made, w1) = b.os.mkdir path 0o700 w in
      elim made [
        | err e ↦ (err (wrap e (codes "making image path")), clean_up path w1)
        | ok _ ↦
            let (driven, w2) = b.image_driver.create_image (image_driver_spec spec path) w1 in
            elim driven [
              | err e ↦ (err (wrap e (codes "creating image")), clean_up path w2)
              | ok mount_info ↦ furnish spec path mount_info w2
            ]
      ]

  unfoldable pub destroy : Str → M W ⊤
  unfolding exists image_path
  destroy id w =
      let (r, w1) = exists id w in
      elim r [
        | err e ↦ (err (wrap e (codes "unable to check image: " ++ id)), w1)
        | ok false ↦ (err (Error.new (codes "image not found: " ++ id)), w1)
        | ok true ↦
            let w2 = (b.image_driver.destroy_image (image_path id) w1).1 in
            let (still, w3) = b.os.stat (image_path id) w2 in
            elim still [
              | ok _ ↦ (err (Error.new (codes "deleting image path")), w3)
              | err _ ↦ (ok tt, w3)
            ]
      ]

  unfoldable pub stats : Str → M W VolumeStats
  unfolding exists image_path
  stats id w =
      let (r, w1) = exists id w in
      elim r [
        | err e ↦ (err (Error.new (codes "image not found: " ++ id)), w1)
        | ok false ↦ (err (Error.new (codes "image not found: " ++ id)), w1)
        | ok true ↦ b.image_driver.fetch_stats (image_path id) w1
      ]

  -- The cloner as the creator and the deleter see it.
  abbrev pub cloner_interface : Interface.ImageCloner W
  cloner_interface = record { exists = exists; create = create; destroy = destroy; stats = stats }
