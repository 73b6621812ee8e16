-- ===== src/Gc.antt =====
-- store/garbage_collector/gc.go. A Go map is read in no fixed order: `order` is the order in which
-- the keys of the map of orphaned volumes happen to be visited.
pub mod Orphans
pub mod View
pub mod Unused
pub mod Safety
pub mod Progress
pub mod Complete
use groot_btrfs.Base.{
  ℕ, suc, ◌+◌, Bool, true, false, not, List, [], ◌∷◌, ◌++◌, if◌then◌else◌, length, ltb,
}
use groot_btrfs.Base.Str.{Str, codes, eqb, has_prefix, contains, replace_first}
use groot_btrfs.Base.Decimal.{decimal}
use groot_btrfs.Base.Effect.{
  M, ⊤, Error, Result, ok, err, wrap, message, pure, raise, ◌>>=◌, ◌>>◌, wrapping,
}
use groot_btrfs.Groot.Creator.{image_reference}
use groot_btrfs.Puller.{VolumeDriver}

-- The interfaces `ImageCloner` and `DependencyManager` of this package.
pub record GarbageCollector (W : Type 0) : Type 0 where
  pub volume_driver : VolumeDriver W
  pub image_ids : M W (List Str)
  pub dependencies : Str → M W (List Str)
  pub order : List Str → List Str

abbrev pub gc_prefix : Str
gc_prefix = codes "gc."

-- `orphanedVolumes[vol] = struct{}{}`
unfoldable pub insert_key : Str → List Str → List Str
unfolding contains
insert_key v keys = if contains keys v then keys else v ∷ keys

-- `delete(volumesList, volumeID)`
unfoldable pub delete_key : Str → List Str → List Str
unfolding eqb
delete_key v [] = []
delete_key v (k ∷ keys) = let rest = delete_key v keys in if eqb k v then rest else k ∷ rest

unfoldable pub remove_dependency_from_orphan_list : List Str → List Str → List Str
unfolding delete_key
remove_dependency_from_orphan_list keys [] = keys
remove_dependency_from_orphan_list keys (v ∷ used) =
    remove_dependency_from_orphan_list (delete_key v keys) used

-- The volumes that are not marked already, as the keys of a map.
unfoldable pub unmarked_keys : List Str → List Str → List Str
unfolding insert_key has_prefix
unmarked_keys keys [] = keys
unmarked_keys keys (v ∷ volumes) =
    unmarked_keys (if has_prefix v gc_prefix then keys else insert_key v keys) volumes

-- The volumes that are marked.
unfoldable pub marked_volumes : List Str → List Str
unfolding has_prefix
marked_volumes [] = []
marked_volumes (v ∷ volumes) =
    let rest = marked_volumes volumes in if has_prefix v gc_prefix then v ∷ rest else rest

module _ {W : Type 0} (g : GarbageCollector W) where
  unfoldable pub gc_volumes : M W (List Str)
  unfolding marked_volumes
  gc_volumes = do
    volumes ← wrapping (codes "failed to retrieve volume list") g.volume_driver.volumes
    pure (marked_volumes volumes)

  -- The loop of `collectVolumes`; `failed` is whether `cleanupErr` is set.
  unfoldable pub destroy_each : Bool → List Str → W → Bool × W
  unfolding has_prefix
  destroy_each failed [] w = (failed, w)
  destroy_each failed (v ∷ volumes) w = elim (has_prefix v gc_prefix) [
    | false ↦ destroy_each failed volumes w
    | true ↦
        let (r, w1) = g.volume_driver.destroy_volume v w in
        destroy_each (elim r [ ok _ ↦ failed | err _ ↦ true ]) volumes w1
  ]

  unfoldable pub collect_volumes : M W ⊤
  unfolding gc_volumes destroy_each
  collect_volumes w =
      let (r, w1) = wrapping (codes "listing volumes") gc_volumes w in
      elim r [
        | err e ↦ (err e, w1)
        | ok volumes ↦
            let (failed, w2) = destroy_each false volumes w1 in
            if failed
            then (err (Error.new (codes "destroying volumes failed")), w2)
            else (ok tt, w2)
      ]

  unfoldable pub collect : M W ⊤
  unfolding collect_volumes
  collect = collect_volumes

  -- One round of the loop of `MarkUnused`: the messages with the one that the round adds.
  unfoldable pub mark_one : Str → List Str → W → List Str × W
  unfolding message replace_first
  mark_one v messages w =
      let (found, w1) = g.volume_driver.volume_path v w in
      elim found [
        | err e ↦ (messages ++ (message (wrap e (codes "fetching-volume-path")) ∷ []), w1)
        | ok path ↦
            let (moved, w2) =
              g.volume_driver.move_volume path (replace_first path v (gc_prefix ++ v)) w1 in
            elim moved [
              | err e ↦ (messages ++ (message (wrap e (codes "moving-volume")) ∷ []), w2)
              | ok _ ↦ (messages, w2)
            ]
      ]

  unfoldable pub mark_each : List Str → List Str → W → List Str × W
  unfolding mark_one
  mark_each messages [] w = (messages, w)
  mark_each messages (v ∷ volumes) w =
      let (messages', w1) = mark_one v messages w in mark_each messages' volumes w1

  unfoldable pub mark_unused : List Str → M W ⊤
  unfolding mark_each
  mark_unused volumes w =
      let (messages, w1) = mark_each [] volumes w in
      if ltb 0 (length messages)
      then (
        err (
            Error.new (
              decimal (length messages)
              ++ (codes "/"
                  ++ (decimal (length volumes)
                      ++ codes " volumes failed to be marked as unused")))),
        w1,
      )
      else (ok tt, w1)

  -- The loop over the images: each one's dependencies leave the map.
  unfoldable pub drop_used : List Str → List Str → M W (List Str)
  unfolding image_reference remove_dependency_from_orphan_list
  drop_used keys [] w = (ok keys, w)
  drop_used keys (image ∷ images) w =
      let (r, w1) = g.dependencies (image_reference image) w in
      elim r [
        | err e ↦ (err e, w1)
        | ok used ↦ drop_used (remove_dependency_from_orphan_list keys used) images w1
      ]

  unfoldable pub unused_volumes : List Str → M W (List Str)
  unfolding unmarked_keys drop_used remove_dependency_from_orphan_list
  unused_volumes chain_ids_to_preserve = do
    volumes ← wrapping (codes "failed to retrieve volume list") g.volume_driver.volumes
    images ← wrapping (codes "failed to retrieve images") g.image_ids
    orphans ← drop_used (unmarked_keys [] volumes) images
    pure (g.order (remove_dependency_from_orphan_list orphans chain_ids_to_preserve))
