-- ===== src/Groot/Delete/Laws.antt =====
-- `Delete`: the image and its dependencies.
use groot_btrfs.Base.{◌≡◌, ap, Bool, true, false, arith, inl, inr}
use groot_btrfs.Base.Str.{Str}
use groot_btrfs.Base.Effect.{Error, err, Result-cases, succeeded, is_not_exist, cause}
use groot_btrfs.Groot.Creator.{image_reference}
use groot_btrfs.Groot.Delete.{Deleter, deregister_image, delete}

-- The images there are, and the references that have dependencies registered.
pub record View : Type 0 where
  pub image : Str → Bool
  pub registered : Str → Bool

pub record IsLawful {W : Type 0} (view : W → View) (d : Deleter W) : Type 0 where
  pub destroy_image :
      (w : W) (id : Str)
      → succeeded (d.image_cloner.destroy id w).0 ≡ true
      → (view (d.image_cloner.destroy id w).1).image id ≡ false
  pub deregister_image :
      (w : W) (id : Str) → (view (d.dependency_manager.deregister id w).1).image ≡ (view w).image
  pub deregister_done :
      (w : W) (id : Str)
      → succeeded (d.dependency_manager.deregister id w).0 ≡ true
      → (view (d.dependency_manager.deregister id w).1).registered id ≡ false
  pub deregister_missing :
      (w : W) (id : Str) (e : Error)
      → (d.dependency_manager.deregister id w).0 ≡ err e
      → is_not_exist (cause e) ≡ true
      → (view (d.dependency_manager.deregister id w).1).registered id ≡ false

module _ {W : Type 0} (view : W → View) (d : Deleter W) (L : IsLawful view d) where
  -- After a successful `Delete` the image is gone and its reference has no dependencies, whether or
  -- not it had any.
  pub delete_gone :
      (id : Str) (w : W)
      → succeeded (delete d id w).0 ≡ true
      → ((view (delete d id w).1).image id ≡ false)
        × ((view (delete d id w).1).registered (image_reference id) ≡ false)
  unfolding delete deregister_image
  delete_gone id w e =
      let w1 = (d.image_cloner.destroy id w).1 in
      let reference = image_reference id in
      let same = ap (λ f. f id) (L.deregister_image w1 reference) in
      elim (Result-cases (d.image_cloner.destroy id w).0) [
        | inr (x, failed) ↦ absurd (ground (arith, failed))
        | inl (_, gone) ↦ elim (Result-cases (d.dependency_manager.deregister reference w1).0) [
          | inl (_, done) ↦
              ground (arith, gone, done, same, L.destroy_image w id, L.deregister_done w1 reference)
          | inr (x, failed) ↦ ground (
            arith,
            gone,
            failed,
            same,
            L.destroy_image w id,
            L.deregister_missing w1 reference x failed,
          )
        ]
      ]
