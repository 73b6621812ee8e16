-- ===== src/Groot/Creator/View.antt =====
-- What the creator relies on: how its collaborators change the images, the dependencies and the locks.
use groot_btrfs.Base.{◌≡◌, Bool, true, false, List, ℕ, suc, ◌-◌, Option, some, if◌then◌else◌}
use groot_btrfs.Base.Int.{ℤ}
use groot_btrfs.Base.Str.{Str}
use groot_btrfs.Base.FilePath.Laws.{IsName}
use groot_btrfs.Base.Effect.{ok, succeeded}
use groot_btrfs.Groot.{BaseImageInfo, BaseImageSpec, ImageSpec, File}
use groot_btrfs.Groot.Creator.{Creator}

-- The images there are, by their plain names, what each reference depends on, and how many locks are held.
pub record View : Type 0 where
  pub image : Str → Bool
  pub deps : Str → Option (List Str)
  pub held : ℕ

pub record IsLawful {W : Type 0} (view : W → View) (c : Creator W) : Type 0 where
  pub exists_view : (w : W) (id : Str) → view (c.image_cloner.exists id w).1 ≡ view w
  pub image_name : (w : W) (id : Str) → (view w).image id ≡ true → IsName id
  pub exists_image :
      (w : W) (id : Str) (found : Bool)
      → IsName id
      → (c.image_cloner.exists id w).0 ≡ ok found
      → found ≡ (view w).image id
  pub fetch_held :
      (w : W) (spec : BaseImageSpec)
      → (view (c.base_image_puller.fetch_base_image_info spec w).1).held ≡ (view w).held
  pub clean_held :
      (w : W) (threshold : ℤ) (ids : List Str)
      → (view (c.cleaner.clean threshold ids w).1).held ≡ (view w).held
  pub pull_held :
      (w : W) (info : BaseImageInfo) (spec : BaseImageSpec)
      → (view (c.base_image_puller.pull info spec w).1).held ≡ (view w).held
  pub create_image :
      (w : W) (spec : ImageSpec)
      → IsName spec.id
      → succeeded (c.image_cloner.create spec w).0 ≡ true
      → (view (c.image_cloner.create spec w).1).image spec.id ≡ true
  pub create_held :
      (w : W) (spec : ImageSpec) → (view (c.image_cloner.create spec w).1).held ≡ (view w).held
  pub destroy_image :
      (w : W) (id : Str)
      → IsName id
      → succeeded (c.image_cloner.destroy id w).0 ≡ true
      → (view (c.image_cloner.destroy id w).1).image id ≡ false
  pub destroy_held :
      (w : W) (id : Str) → (view (c.image_cloner.destroy id w).1).held ≡ (view w).held
  pub register_deps :
      (w : W) (id : Str) (ids : List Str)
      → succeeded (c.dependency_manager.register id ids w).0 ≡ true
      → (view (c.dependency_manager.register id ids w).1).deps id ≡ some ids
  pub register_image :
      (w : W) (id : Str) (ids : List Str)
      → (view (c.dependency_manager.register id ids w).1).image ≡ (view w).image
  pub register_held :
      (w : W) (id : Str) (ids : List Str)
      → (view (c.dependency_manager.register id ids w).1).held ≡ (view w).held
  pub lock_held :
      (w : W) (key : Str)
      → (view (c.locksmith.lock key w).1).held
        ≡ (if succeeded (c.locksmith.lock key w).0 then suc (view w).held else (view w).held)
  pub unlock_image :
      (w : W) (file : File) → (view (c.locksmith.unlock file w).1).image ≡ (view w).image
  pub unlock_deps :
      (w : W) (file : File) → (view (c.locksmith.unlock file w).1).deps ≡ (view w).deps
  pub unlock_held :
      (w : W) (file : File) → (view (c.locksmith.unlock file w).1).held ≡ (view w).held - 1
