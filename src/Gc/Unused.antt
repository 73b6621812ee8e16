-- ===== src/Gc/Unused.antt =====
-- `UnusedVolumes` and its loop over the images.
use groot_btrfs.Base.{◌≡◌, refl, not, ◌&&◌, List, [], ◌∷◌, arith, any, inl, inr}
use groot_btrfs.Base.Str.{Str, contains, has_prefix}
use groot_btrfs.Base.Effect.{ok, Result-cases}
use groot_btrfs.Groot.Creator.{image_reference}
use groot_btrfs.Gc.{
  GarbageCollector, gc_prefix, unmarked_keys, remove_dependency_from_orphan_list, drop_used,
  unused_volumes,
}
use groot_btrfs.Gc.Orphans.{contains-remove, contains-unmarked_keys}
use groot_btrfs.Gc.View.{View, is_used, IsReader}

module _ {W : Type 0} (view : W → View) (g : GarbageCollector W) (L : IsReader view g) where
  -- The loop over the images takes exactly the used volumes out of the map.
  pub contains-drop_used :
      (images keys orphans : List Str) (v : Str) (w : W)
      → (drop_used g keys images w).0 ≡ ok orphans
      → contains orphans v ≡ (
          contains keys v
          && not (any (λ image. contains ((view w).deps (image_reference image)) v) images))
  unfolding drop_used
  contains-drop_used [] keys orphans v w e = ground arith
  contains-drop_used (image ∷ images) keys orphans v w e =
      elim (Result-cases (g.dependencies (image_reference image) w).0) [
        | inr (x, failed) ↦ ground (arith, failed)
        | inl (used, found) ↦ ground (
          arith,
          found,
          L.deps_eq w (image_reference image) used found,
          L.deps_view w (image_reference image),
          contains-remove v keys used,
          contains-drop_used images (remove_dependency_from_orphan_list keys used) orphans v
              (g.dependencies (image_reference image) w).1,
        )
      ]

  pub view-drop_used :
      (images keys : List Str) (w : W) → view (drop_used g keys images w).1 ≡ view w
  unfolding drop_used
  view-drop_used [] keys w = refl
  view-drop_used (image ∷ images) keys w =
      elim (Result-cases (g.dependencies (image_reference image) w).0) [
        | inr (x, failed) ↦ ground (arith, failed, L.deps_view w (image_reference image))
        | inl (used, found) ↦ ground (
          arith,
          found,
          L.deps_view w (image_reference image),
          view-drop_used images (remove_dependency_from_orphan_list keys used)
              (g.dependencies (image_reference image) w).1,
        )
      ]

  pub view-unused_volumes :
      (preserve : List Str) (w : W) → view (unused_volumes g preserve w).1 ≡ view w
  unfolding unused_volumes
  view-unused_volumes preserve w =
      let w1 = (g.volume_driver.volumes w).1 in
      let w2 = (g.image_ids w1).1 in
      elim (Result-cases (g.volume_driver.volumes w).0) [
        | inr (x, failed) ↦ ground (arith, failed, L.volumes_view w)
        | inl (volumes, found) ↦ elim (Result-cases (g.image_ids w1).0) [
          | inr (x, failed) ↦ ground (arith, found, failed, L.volumes_view w, L.images_view w1)
          | inl (images, listed) ↦ ground (
            arith,
            found,
            listed,
            L.volumes_view w,
            L.images_view w1,
            view-drop_used images (unmarked_keys [] volumes) w2,
          )
        ]
      ]

  -- On success `UnusedVolumes` returns a name exactly when it is a volume that is not marked, that
  -- no image depends on, and that is not to be preserved.
  pub contains-unused_volumes :
      (preserve unused : List Str) (v : Str) (w : W)
      → (unused_volumes g preserve w).0 ≡ ok unused
      → contains unused v ≡ (
          (view w).has v
          && (not (has_prefix v gc_prefix)
              && (not (is_used (view w) v) && not (contains preserve v))))
  unfolding unused_volumes contains
  contains-unused_volumes preserve unused v w e =
      let w1 = (g.volume_driver.volumes w).1 in
      let w2 = (g.image_ids w1).1 in
      elim (Result-cases (g.volume_driver.volumes w).0) [
        | inr (x, failed) ↦ ground (arith, failed)
        | inl (volumes, found) ↦ elim (Result-cases (g.image_ids w1).0) [
          | inr (x, failed) ↦ ground (arith, found, failed)
          | inl (images, listed) ↦
              elim (Result-cases (drop_used g (unmarked_keys [] volumes) images w2).0) [
                | inr (x, failed) ↦ ground (arith, found, listed, failed)
                | inl (orphans, dropped) ↦ ground (
                  arith,
                  found,
                  listed,
                  dropped,
                  L.volumes_view w,
                  L.images_view w1,
                  L.volumes_has w volumes v found,
                  L.images_eq w1 images listed,
                  contains-drop_used images (unmarked_keys [] volumes) orphans v w2 dropped,
                  contains-unmarked_keys v [] volumes,
                  contains-remove v orphans preserve,
                  L.order_contains (remove_dependency_from_orphan_list orphans preserve) v,
                )
              ]
        ]
      ]
