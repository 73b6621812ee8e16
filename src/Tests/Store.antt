-- ===== src/Tests/Store.antt =====
-- The cloner, the manager and the locks at concrete inputs.
use groot_btrfs.Base.{
  ◌≡◌, ◌≢◌, refl, true, false, not, ◌&&◌, [], ◌∷◌, arith, Option, none, some, All, if◌then◌else◌,
  ◌==◌,
}
use groot_btrfs.Base.Int.{ℤ, pos}
use groot_btrfs.Base.Str.{Str, codes, contains}
use groot_btrfs.Base.Str.Laws.{slash_free}
use groot_btrfs.Base.Effect.{Error, ok, err, succeeded, for_each}
use groot_btrfs.Groot.{ImageSpec, ImageInfo, File}
use groot_btrfs.Gc.{insert_key, delete_key}
use groot_btrfs.Store.{store_folders}
use groot_btrfs.Store.Cloner as Cloner
use groot_btrfs.Store.Cloner.{image_path, image_driver_spec, image_info}
use groot_btrfs.Store.Cloner.Laws.{HasSource, create_there, create_mounts, destroy_there}
use groot_btrfs.Store.Manager.{
  init_store, is_store_initialized, delete_store, InitSpec, configure_folders,
  create_internal_directory,
}
use groot_btrfs.Store.Manager.Initialized.{init_store-initialized}
use groot_btrfs.Store.Manager.Delete.{delete_store_gone}
use groot_btrfs.Store.Locks.{
  LockType, exclusive, shared, unlocked, FileSystem, lock, unlock, lock_path, without_slashes,
  new_exclusive_file_system,
}
use groot_btrfs.Store.Locks.Laws.{IsLocking, lock_then_unlock}
use groot_btrfs.Tests.Files.{
  Files, there, cloner, cloner-IsFileSystem, manager, manager-IsFileSystem, manager-IsStore,
  file_locks, delete_view, mounted,
}

abbrev spec : ℤ → ImageSpec
spec owner = record {
  id = codes "img";
  mount = true;
  disk_limit = pos 0;
  exclude_base_image_from_quota = false;
  base_volume_ids = codes "base" ∷ [];
  base_image = record { volumes = codes "data" ∷ []; env = [] };
  owner_uid = owner;
  owner_gid = pos 0;
}

abbrev fresh : Files
fresh = record { paths = []; held = 0 }

abbrev with_image : Files
with_image = record { paths = codes "/s/images/img" ∷ []; held = 0 }

-- A failed change of ownership leaves the image behind.
left_behind : (Cloner.create cloner (spec (pos 13)) fresh).1.paths ≡ codes "/s/images/img" ∷ []
unfolding Cloner.create cloner insert_key contains
left_behind = refl

-- A second creation under the same id fails and removes the image that was there.
removed_by_second : (Cloner.create cloner (spec (pos 0)) with_image).1.paths ≡ []
unfolding Cloner.create cloner delete_key contains
removed_by_second = refl

create_there_example :
    there (Cloner.create cloner (spec (pos 13)) fresh).1 (image_path cloner (codes "img")) ≡ (
      succeeded (cloner.os.mkdir (image_path cloner (codes "img")) 0o700 fresh).0
      && succeeded
          (cloner.image_driver.create_image
            (image_driver_spec (spec (pos 13)) (image_path cloner (codes "img")))
            (cloner.os.mkdir (image_path cloner (codes "img")) 0o700 fresh).1).0)
unfolding cloner
create_there_example =
    create_there there cloner cloner-IsFileSystem (spec (pos 13)) fresh (λ t p. refl)

abbrev made : ImageInfo
made =
    image_info cloner (codes "/s/images/img/rootfs") (codes "/s/images/img")
      (spec (pos 0)).base_image (mounted (image_driver_spec (spec (pos 0)) (codes "/s/images/img")))
      true

made_run : (Cloner.create cloner (spec (pos 0)) fresh).0 ≡ ok made
unfolding Cloner.create cloner contains insert_key image_driver_spec image_info
made_run = refl

create_mounts_example :
    (there (Cloner.create cloner (spec (pos 0)) fresh).1 (image_path cloner (codes "img")) ≡ true)
    × All (HasSource (there (Cloner.create cloner (spec (pos 0)) fresh).1)) made.mounts
create_mounts_example =
    create_mounts there cloner cloner-IsFileSystem (spec (pos 0)) fresh made made_run

destroy_there_example :
    (succeeded (Cloner.destroy cloner (codes "img") with_image).0 ≡ (
      there with_image (image_path cloner (codes "img"))
      && not (
          there
            (cloner.image_driver.destroy_image
              (image_path cloner (codes "img"))
              (cloner.os.stat (image_path cloner (codes "img")) with_image).1).1
            (image_path cloner (codes "img")))))
    × (succeeded (Cloner.destroy cloner (codes "img") with_image).0 ≡ true
        → there (Cloner.destroy cloner (codes "img") with_image).1 (image_path cloner (codes "img"))
          ≡ false)
destroy_there_example = destroy_there there cloner cloner-IsFileSystem (codes "img") with_image

abbrev init_spec : InitSpec
init_spec = record { uid_mappings = []; gid_mappings = []; store_size_bytes = pos 0 }

init_run : succeeded (init_store manager init_spec fresh).0 ≡ true
unfolding init_store manager configure_folders store_folders contains insert_key
    create_internal_directory for_each
init_run = refl

init_store-initialized_example :
    (is_store_initialized manager (init_store manager init_spec fresh).1).0 ≡ true
init_store-initialized_example =
    init_store-initialized there manager manager-IsFileSystem init_spec fresh init_run

delete_store_gone_example :
    ((delete_view (delete_store manager file_locks with_image).1).there
      ≡ not (succeeded (delete_store manager file_locks with_image).0))
    × ((delete_view (delete_store manager file_locks with_image).1).held ≡ 0)
delete_store_gone_example =
    delete_store_gone delete_view manager file_locks manager-IsStore with_image

-- The path that the one file is open at, and the lock on it.
record OneFile : Type 0 where
  path : Option Str
  held : Option LockType

abbrev held_as : LockType → Option LockType
held_as t = elim t [ exclusive ↦ some exclusive | shared ↦ some shared | unlocked ↦ none ]

abbrev path_of : OneFile → File → Option Str
path_of w f = if f == 3 then w.path else none

abbrev held_of : OneFile → File → Option LockType
held_of w f = if f == 3 then w.held else none

unfoldable one_file : FileSystem OneFile
one_file = new_exclusive_file_system (codes "/s") (record {
  open_file = λ p w. (ok 3, record w { path = some p });
  flock = λ f t w.
      if f == 3
      then (ok tt, record w { held = held_as t })
      else (err (Error.new (codes "EBADF")), w);
  close = λ f w. (ok tt, if f == 3 then record w { held = none } else w);
})

held_as_other : (t : LockType) → t ≢ unlocked → held_as t ≡ some t
held_as_other exclusive h = refl
held_as_other shared h = refl
held_as_other unlocked h = absurd (h refl)

one_file-IsLocking : IsLocking path_of held_of one_file
unfolding one_file new_exclusive_file_system
one_file-IsLocking = record {
  open_path = λ w p f e. ground arith;
  flock_path = λ w f t. ground arith;
  flock_held = λ w f t e h. ground (arith, held_as_other t h);
  close_held = λ w f. ground arith;
}

abbrev closed : OneFile
closed = record { path = none; held = none }

locked_run : (lock one_file (codes "a/b") closed).0 ≡ ok 3
unfolding lock one_file new_exclusive_file_system
locked_run = refl

is_exclusive : one_file.lock_type ≢ unlocked
unfolding one_file new_exclusive_file_system
is_exclusive e = cc

lock_then_unlock_example :
    (path_of (lock one_file (codes "a/b") closed).1 3
      ≡ some (lock_path one_file (without_slashes (codes "a/b"))))
    × (slash_free (without_slashes (codes "a/b")) ≡ true)
    × (held_of (lock one_file (codes "a/b") closed).1 3 ≡ some one_file.lock_type)
    × ((t : OneFile) → held_of (unlock one_file 3 t).1 3 ≡ none)
lock_then_unlock_example =
    lock_then_unlock path_of held_of one_file one_file-IsLocking (codes "a/b") 3 closed is_exclusive
      locked_run
