-- ===== src/Groot/Delete.antt =====
-- groot/deleter.go and groot/statser.go.
pub mod Laws
use groot_btrfs.Base.{if◌then◌else◌}
use groot_btrfs.Base.Str.{Str}
use groot_btrfs.Base.Effect.{M, ⊤, ok, err, cause, is_not_exist, ◌>>◌}
use groot_btrfs.Groot.{ImageCloner, DependencyManager, VolumeStats}
use groot_btrfs.Groot.Creator.{image_reference}

pub record Deleter (W : Type 0) : Type 0 where
  pub image_cloner : ImageCloner W
  pub dependency_manager : DependencyManager W

module _ {W : Type 0} (d : Deleter W) where
  -- A registration that is not there is no failure.
  unfoldable pub deregister_image : Str → M W ⊤
  unfolding image_reference cause is_not_exist
  deregister_image id w =
      let (r, w1) = d.dependency_manager.deregister (image_reference id) w in
      elim r [
        | ok _ ↦ (ok tt, w1)
        | err e ↦ if is_not_exist (cause e) then (ok tt, w1) else (err e, w1)
      ]

  unfoldable pub delete : Str → M W ⊤
  unfolding deregister_image
  delete id = do d.image_cloner.destroy id; deregister_image id

-- `Statser.Stats`
unfoldable pub stats : {W : Type 0} → ImageCloner W → Str → M W VolumeStats
stats cloner id = cloner.stats id
