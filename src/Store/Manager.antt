-- ===== src/Store/Manager.antt =====
-- store/manager/manager.go.
pub mod Laws
pub mod Initialized
pub mod Delete
use groot_btrfs.Base.{Bool, true, false, not, ◌||◌, List, [], ◌∷◌, ◌++◌, map, if◌then◌else◌, ◌*◌}
use groot_btrfs.Base.Int.{ℤ, pos, ltb_ℤ, leb_ℤ}
use groot_btrfs.Base.Str.{Str, codes}
use groot_btrfs.Base.Decimal.{itoa}
use groot_btrfs.Base.FilePath.{join, dir}
use groot_btrfs.Base.Os.{Os, FileInfo}
use groot_btrfs.Base.Effect.{
  M, ⊤, Error, Result, ok, err, wrap, is_not_exist, for_each, pure, ◌>>=◌, ◌>>◌, wrapping,
  deferring,
}
use groot_btrfs.Groot.{IdMappingSpec, Locksmith}
use groot_btrfs.Groot.Creator.{global_lock_key}
use groot_btrfs.Puller.{VolumeDriver}
use groot_btrfs.Store.{image_dir_name, volumes_dir_name, meta_dir_name, store_folders}
use groot_btrfs.Store.Cloner.{ImageDriver}
use groot_btrfs.Ids.{find_store_owner}

-- `MinStoreSizeBytes`
abbrev pub min_store_size_bytes : ℤ
min_store_size_bytes = pos (1024 * 1024 * 200)

-- `groot.NamespaceFilename`
abbrev pub namespace_filename : Str
namespace_filename = codes "namespace.json"

pub record StoreDriver (W : Type 0) : Type 0 where
  pub configure_store : Str → ℤ → ℤ → M W ⊤
  pub validate_file_system : Str → M W ⊤
  pub init_filesystem : Str → Str → M W ⊤

pub record InitSpec : Type 0 where
  pub uid_mappings : List IdMappingSpec
  pub gid_mappings : List IdMappingSpec
  pub store_size_bytes : ℤ

-- `apply_mappings` is the one operation of the namespacer that the manager calls.
pub record Manager (W : Type 0) : Type 0 where
  pub store_path : Str
  pub image_driver : ImageDriver W
  pub volume_driver : VolumeDriver W
  pub store_driver : StoreDriver W
  pub apply_mappings : List IdMappingSpec → List IdMappingSpec → M W ⊤
  pub os : Os W

-- `os.IsNotExist` of the error of a call, if it has one.
unfoldable pub missing : {A : Type 0} → Result A → Bool
unfolding is_not_exist
missing (ok a) = false
missing (err e) = is_not_exist e

module _ {W : Type 0} (m : Manager W) where
  -- A path where nothing stands passes, and so does one that cannot be looked at.
  unfoldable pub is_directory : Str → M W ⊤
  is_directory required_path w =
      let (r, w1) = m.os.stat required_path w in
      elim r [
        | err _ ↦ (ok tt, w1)
        | ok info ↦ if info.is_dir then (ok tt, w1) else (
          err (Error.new (codes "path `" ++ (required_path ++ codes "` is not a directory"))),
          w1,
        )
      ]

  -- `os.Mkdir`, where a directory that is there already is no error.
  unfoldable pub make_directory : Str → M W ⊤
  make_directory required_path w =
      let (r, w1) = m.os.mkdir required_path 0o755 w in
      elim r [
        | ok _ ↦ (ok tt, w1)
        | err e ↦
            let failed = wrap e (codes "making directory `" ++ (required_path ++ codes "`")) in
            let (r1, w2) = m.os.lstat required_path w1 in
            elim r1 [
              | err _ ↦ (err failed, w2)
              | ok found ↦ if found.is_dir then (ok tt, w2) else (err failed, w2)
            ]
      ]

  unfoldable pub owner_message : ℤ → ℤ → Str → Str
  unfolding itoa
  owner_message owner_uid owner_gid path =
      codes "changing store owner to "
      ++ (itoa owner_uid ++ (codes ":" ++ (itoa owner_gid ++ (codes " for path " ++ path))))

  unfoldable pub create_internal_directory : ℤ → ℤ → Str → M W ⊤
  unfolding is_directory make_directory owner_message join
  create_internal_directory owner_uid owner_gid folder_name = do
    let required_path = join (m.store_path ∷ folder_name ∷ [])
    is_directory required_path
    make_directory required_path
    wrapping (owner_message owner_uid owner_gid required_path)
        (m.os.chown required_path owner_uid owner_gid)

  -- `configureStore` for a list of folders.
  unfoldable pub configure_folders : ℤ → ℤ → List Str → M W ⊤
  configure_folders owner_uid owner_gid folders = do
    is_directory m.store_path
    wrapping (owner_message owner_uid owner_gid m.store_path)
        (m.os.chown m.store_path owner_uid owner_gid)
    wrapping (codes "changing store permissions " ++ m.store_path) (m.os.chmod m.store_path 0o700)
    for_each (create_internal_directory owner_uid owner_gid) folders
    wrapping (codes "running filesystem-specific configuration")
        (m.store_driver.configure_store m.store_path owner_uid owner_gid)

  unfoldable pub configure_store : ℤ → ℤ → M W ⊤
  configure_store owner_uid owner_gid = configure_folders owner_uid owner_gid store_folders

  -- The backing store file, unless it is there.
  unfoldable pub create_backing_file : Str → M W ⊤
  unfolding missing
  create_backing_file backing_store_file w =
      let (r, w1) = m.os.stat backing_store_file w in
      if missing r
      then wrapping (codes "creating backing store file")
          (m.os.write_file backing_store_file [] 0o600) w1
      else (ok tt, w1)

  unfoldable pub create_and_mount_filesystem : ℤ → M W ⊤
  unfolding create_backing_file
  create_and_mount_filesystem store_size_bytes w =
      let backing_store_file = m.store_path ++ codes ".backing-store" in
      if ltb_ℤ store_size_bytes min_store_size_bytes
      then (err (Error.new (codes "store size must be at least 200Mb")), w)
      else (do
        create_backing_file backing_store_file
        wrapping (codes "truncating backing store file")
            (m.os.truncate backing_store_file store_size_bytes)
        wrapping (codes "initializing store") (m.os.mkdir_all m.store_path 0o755)
        wrapping (codes "initializing filesyztem")
            (m.store_driver.init_filesystem backing_store_file m.store_path))
          w

  -- `err == nil && stat.IsDir()`
  unfoldable pub is_found_directory : Result FileInfo → Bool
  is_found_directory (ok info) = info.is_dir
  is_found_directory (err e) = false

  -- The validation of the store's file system, which is created if it is not valid.
  unfoldable pub prepare_filesystem : ℤ → M W ⊤
  unfolding is_found_directory create_and_mount_filesystem dir
  prepare_filesystem store_size_bytes w =
      let (stat, w1) = m.os.stat m.store_path w in
      let validation_path =
        if is_found_directory stat || ltb_ℤ (pos 0) store_size_bytes
        then m.store_path
        else dir m.store_path in
      let (r, w2) = m.store_driver.validate_file_system validation_path w1 in
      elim r [
        | ok _ ↦ (ok tt, w2)
        | err e ↦
            if leb_ℤ store_size_bytes (pos 0)
            then (err (wrap e (codes "validating store path filesystem")), w2)
            else create_and_mount_filesystem store_size_bytes w2
      ]

  unfoldable pub init_store : InitSpec → M W ⊤
  unfolding prepare_filesystem configure_store find_store_owner join
  init_store spec = do
    prepare_filesystem spec.store_size_bytes
    wrapping (codes "initializing store")
        (m.os.mkdir_all (join (m.store_path ∷ meta_dir_name ∷ [])) 0o755)
    m.apply_mappings spec.uid_mappings spec.gid_mappings
    let owner = find_store_owner m.os.getuid m.os.getgid spec.uid_mappings spec.gid_mappings
    wrapping (codes "chowing store") (m.os.chown m.store_path owner.0 owner.1)
    wrapping (codes "running filesystem-specific configuration") (configure_store owner.0 owner.1)

  -- The loop of `IsStoreInitialized`: no folder is missing.
  unfoldable pub has_folders : List Str → W → Bool × W
  unfolding missing join
  has_folders [] w = (true, w)
  has_folders (folder_name ∷ folders) w =
      let (r, w1) = m.os.stat (join (m.store_path ∷ folder_name ∷ [])) w in
      let rest = has_folders folders w1 in if missing r then (false, w1) else rest

  unfoldable pub namespace_path : Str
  unfolding join
  namespace_path = join (m.store_path ∷ meta_dir_name ∷ namespace_filename ∷ [])

  unfoldable pub is_store_initialized : W → Bool × W
  unfolding has_folders missing store_folders namespace_path
  is_store_initialized w =
      let (found, w1) = has_folders store_folders w in
      if found
      then (let (r, w2) = m.os.stat namespace_path w1 in (not (missing r), w2))
      else (false, w1)

  unfoldable pub images : M W (List Str)
  unfolding join
  images = do
    let images_path = join (m.store_path ∷ image_dir_name ∷ [])
    names ← wrapping (codes "listing images") (m.os.read_dir images_path)
    pure (map (λ name. join (images_path ∷ name ∷ [])) names)

  unfoldable pub volumes : M W (List Str)
  unfolding join
  volumes =
      wrapping (codes "listing volumes")
        (m.os.read_dir (join (m.store_path ∷ volumes_dir_name ∷ [])))

  -- What runs under the lock.
  unfoldable pub delete_locked : M W ⊤
  unfolding images volumes for_each
  delete_locked = do
    existing_images ← images
    for_each
        (λ image.
          wrapping (codes "destroying image " ++ image) (m.image_driver.destroy_image image))
        existing_images
    existing_volumes ← volumes
    for_each
        (λ volume.
          wrapping (codes "destroying volume " ++ volume) (m.volume_driver.destroy_volume volume))
        existing_volumes
    wrapping (codes "deleting store path") (m.os.remove_all m.store_path)

  unfoldable pub delete_store : Locksmith W → M W ⊤
  unfolding delete_locked missing
  delete_store locksmith w =
      let (r, w1) = m.os.stat m.store_path w in
      if missing r
      then (ok tt, w1)
      else (do
        file_lock ←
            wrapping (codes "failed to lock - refusing to delete possibly corrupted store")
              (locksmith.lock global_lock_key)
        deferring (locksmith.unlock file_lock) delete_locked)
          w1
