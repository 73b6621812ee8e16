-- ===== src/Groot/Creator.antt =====
-- groot/creator.go: `Creator.Create`. Its three stages are functions of their own: the checks, the
-- work before the lock, and the work under the lock.
pub mod View
pub mod Laws
pub mod Parts
use groot_btrfs.Base.{◌&&◌, Bool, List, [], ◌∷◌, ◌++◌, if◌then◌else◌}
use groot_btrfs.Base.Int.{ℤ, pos, eqb_ℤ}
use groot_btrfs.Base.Str.{Str, codes, contains_str}
use groot_btrfs.Base.Effect.{
  M, ⊤, Error, Result, ok, err, wrap, pure, raise, ◌>>=◌, ◌>>◌, wrapping, deferring, ignoring,
}
use groot_btrfs.Groot.{
  IdMappingSpec, LayerInfo, BaseImageInfo, BaseImageSpec, ImageSpec, ImageInfo, CreateSpec,
  BaseImagePuller, ImageCloner, DependencyManager, Locksmith, Cleaner,
}

-- `groot.GlobalLockKey`
abbrev pub global_lock_key : Str
global_lock_key = codes "global-groot-lock"

-- `fmt.Sprintf(ImageReferenceFormat, id)`
unfoldable pub image_reference : Str → Str
image_reference id = codes "image:" ++ id

pub record Creator (W : Type 0) : Type 0 where
  pub cleaner : Cleaner W
  pub image_cloner : ImageCloner W
  pub base_image_puller : BaseImagePuller W
  pub locksmith : Locksmith W
  pub dependency_manager : DependencyManager W

unfoldable pub chain_ids : List LayerInfo → List Str
chain_ids [] = []
chain_ids (info ∷ infos) = info.chain_id ∷ chain_ids infos

-- One of the two loops of `parseOwner`; `id` is `os.Getuid()` or `os.Getgid()`.
unfoldable pub owner_of : ℤ → List IdMappingSpec → ℤ
owner_of id [] = id
owner_of id (mapping ∷ mappings) =
    if eqb_ℤ mapping.size (pos 1) && eqb_ℤ mapping.namespace_id (pos 0)
    then mapping.host_id
    else owner_of id mappings

unfoldable pub parse_owner : ℤ → ℤ → List IdMappingSpec → List IdMappingSpec → ℤ × ℤ
unfolding owner_of
parse_owner getuid getgid uid_mappings gid_mappings =
    (owner_of getuid uid_mappings, owner_of getgid gid_mappings)

unfoldable pub base_image_spec : CreateSpec → ℤ × ℤ → BaseImageSpec
base_image_spec spec owner = record {
  disk_limit = spec.disk_limit;
  exclude_base_image_from_quota = spec.exclude_base_image_from_quota;
  base_image_src = spec.base_image_url;
  uid_mappings = spec.uid_mappings;
  gid_mappings = spec.gid_mappings;
  owner_uid = owner.0;
  owner_gid = owner.1;
}

unfoldable pub image_spec : CreateSpec → ℤ × ℤ → BaseImageInfo → ImageSpec
unfolding chain_ids
image_spec spec owner info = record {
  id = spec.id;
  mount = spec.mount;
  disk_limit = spec.disk_limit;
  exclude_base_image_from_quota = spec.exclude_base_image_from_quota;
  base_volume_ids = chain_ids info.layer_infos;
  base_image = info.config;
  owner_uid = owner.0;
  owner_gid = owner.1;
}

module _ {W : Type 0} (c : Creator W) where
  -- The registration, which destroys the image if it fails.
  unfoldable pub register_image : CreateSpec → BaseImageInfo → ImageInfo → M W ImageInfo
  unfolding chain_ids image_reference
  register_image spec info image w =
      let (r, w1) =
        c.dependency_manager.register (image_reference spec.id) (chain_ids info.layer_infos) w in
      elim r [
        | ok _ ↦ (ok image, w1)
        | err e ↦ let (_, w2) = c.image_cloner.destroy spec.id w1 in (err e, w2)
      ]

  -- What runs while the lock is held.
  unfoldable pub create_locked : CreateSpec → ℤ × ℤ → BaseImageInfo → M W ImageInfo
  unfolding register_image base_image_spec image_spec
  create_locked spec owner info = do
    wrapping (codes "pulling the image")
        (c.base_image_puller.pull info (base_image_spec spec owner))
    image ← wrapping (codes "making image") (c.image_cloner.create (image_spec spec owner info))
    register_image spec info image

  -- `if spec.CleanOnCreate { … }`
  unfoldable pub clean_on_create : CreateSpec → BaseImageInfo → M W ⊤
  unfolding chain_ids
  clean_on_create spec info w =
      if spec.clean_on_create
      then (let ((_, r), w1) =
            c.cleaner.clean spec.clean_on_create_threshold_bytes (chain_ids info.layer_infos) w in
          elim r [
            | ok _ ↦ (ok tt, w1)
            | err e ↦ (err (wrap e (codes "failed-to-cleanup-store")), w1)
          ])
      else (ok tt, w)

  unfoldable pub create_checked : CreateSpec → ℤ × ℤ → M W ImageInfo
  unfolding clean_on_create create_locked base_image_spec
  create_checked spec owner = do
    info ← c.base_image_puller.fetch_base_image_info (base_image_spec spec owner)
    clean_on_create spec info
    lock_file ← c.locksmith.lock global_lock_key
    deferring (c.locksmith.unlock lock_file) (create_locked spec owner info)

  unfoldable pub create : ℤ → ℤ → CreateSpec → M W ImageInfo
  unfolding create_checked parse_owner
  create getuid getgid spec w =
      if contains_str spec.id (codes "/")
      then (
        err (Error.new (codes "id `" ++ (spec.id ++ codes "` contains invalid characters: `/`"))),
        w,
      )
      else (let (r, w1) = c.image_cloner.exists spec.id w in
          elim r [
            | err e ↦ (err (wrap e (codes "checking id exists")), w1)
            | ok found ↦
                if found
                then (
                  err (Error.new (codes "image for id `" ++ (spec.id ++ codes "` already exists"))),
                  w1,
                )
                else create_checked spec
                    (parse_owner getuid getgid spec.uid_mappings spec.gid_mappings) w1
          ])
