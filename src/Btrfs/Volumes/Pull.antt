-- ===== src/Btrfs/Volumes/Pull.antt =====
-- The puller over the volumes of the btrfs driver.
use groot_btrfs.Base.{ℕ, ◌≡◌, ◌∷◌}
use mathlib.Core.List.{reverse}
use groot_btrfs.Base.Str.{Str}
use groot_btrfs.Base.Effect.{succeeded}
use groot_btrfs.Groot.{BaseImageInfo, BaseImageSpec}
use groot_btrfs.Puller.{BaseImagePuller, pull}
use groot_btrfs.Puller.Store.{IsAside, IsLocking}
use groot_btrfs.Puller.Layers.{Builds, Closed, ValidLayers}
use groot_btrfs.Puller.Closed.{pull-Builds}
use groot_btrfs.Btrfs.{Driver}
use groot_btrfs.Btrfs.Volumes.{volume_driver}
use groot_btrfs.Btrfs.Volumes.Kernel.{Files, IsKernel}
use groot_btrfs.Btrfs.Volumes.Paths.{volumes_path}
use groot_btrfs.Btrfs.Volumes.Refine.{volumes_of, volume_driver-IsDriver}

module _ {W Stream : Type 0} (files : W → Files) (d : Driver W) (q : BaseImagePuller W Stream) where
  -- The puller with the volumes of the btrfs driver.
  abbrev pub btrfs_puller : BaseImagePuller W Stream
  btrfs_puller = record q { volume_driver = volume_driver d }

  -- Pulling a base image into the volumes of the btrfs driver, over a kernel that keeps its promises,
  -- where the layers have proper and distinct ids, and base directories that stay in their volumes, no
  -- layer has its volume without the layers below it, and no volume has a symbolic link out of it:
  -- afterwards that holds of the layers again, also if the pull fails; after a success every layer has
  -- its volume; no other finished volume has come or gone; and no lock is left held.
  pub pull_btrfs :
      (c : ℕ) (p : Str)
      → d.meta.store_path ≡ c ∷ p
      → IsKernel files d
      → IsAside (λ w. volumes_of d (files w)) (volumes_path (c ∷ p)) btrfs_puller
      → IsLocking (λ w. volumes_of d (files w)) (volumes_path (c ∷ p)) btrfs_puller
      → (info : BaseImageInfo) (spec : BaseImageSpec) (w : W)
      → ValidLayers (volumes_path (c ∷ p)) (reverse info.layer_infos)
      → Closed (volumes_of d (files w)) (reverse info.layer_infos)
      → Builds
          (volumes_path (c ∷ p))
          (reverse info.layer_infos)
          (succeeded (pull btrfs_puller info spec w).0)
          (volumes_of d (files w))
          (volumes_of d (files (pull btrfs_puller info spec w).1))
  pull_btrfs c p rooted K A L info spec w =
      pull-Builds (λ v. volumes_of d (files v)) (volumes_path (c ∷ p)) btrfs_puller
        (volume_driver-IsDriver files d K c p rooted q) A L info spec w
