-- ===== src/Gc/View.antt =====
-- What the garbage collector's collaborators are relied on for. A view of the world says which
-- volumes there are, which images, and what each image reference depends on; the laws say how each
-- operation of an interface changes the view.
use groot_btrfs.Base.{◌≡◌, ◌≢◌, Bool, true, List, ◌++◌, any}
use groot_btrfs.Base.Str.{Str, contains}
use groot_btrfs.Base.Effect.{ok}
use groot_btrfs.Base.FilePath.Laws.{IsName}
use groot_btrfs.Groot.{File, Locksmith, StoreMeasurer}
use groot_btrfs.Groot.Creator.{image_reference}
use groot_btrfs.Gc.{GarbageCollector}

pub record View : Type 0 where
  pub has : Str → Bool
  pub images : List Str
  pub deps : Str → List Str

-- Some image depends on the volume.
abbrev pub is_used : View → Str → Bool
is_used s v = any (λ image. contains (s.deps (image_reference image)) v) s.images

-- The reads of the garbage collector: they change nothing, and what they return is the view.
-- A read may fail.
pub record IsReader {W : Type 0} (view : W → View) (g : GarbageCollector W) : Type 0 where
  pub volumes_view : (w : W) → view (g.volume_driver.volumes w).1 ≡ view w
  pub volumes_has :
      (w : W) (vs : List Str) (v : Str)
      → (g.volume_driver.volumes w).0 ≡ ok vs
      → contains vs v ≡ (view w).has v
  pub images_view : (w : W) → view (g.image_ids w).1 ≡ view w
  pub images_eq : (w : W) (ids : List Str) → (g.image_ids w).0 ≡ ok ids → ids ≡ (view w).images
  pub deps_view : (w : W) (id : Str) → view (g.dependencies id w).1 ≡ view w
  pub deps_eq :
      (w : W) (id : Str) (used : List Str)
      → (g.dependencies id w).0 ≡ ok used
      → used ≡ (view w).deps id
  pub order_contains : (keys : List Str) (v : Str) → contains (g.order keys) v ≡ contains keys v

-- The volumes have plain names, and lie under their names in one directory, whose path up to the last
-- slash is `root`. Moving one or destroying one takes no other volume away.
pub record IsWriter {W : Type 0} (view : W → View) (root : Str) (g : GarbageCollector W)
    : Type 0 where
  pub has_name : (w : W) (v : Str) → (view w).has v ≡ true → IsName v
  pub path_view : (w : W) (v : Str) → view (g.volume_driver.volume_path v w).1 ≡ view w
  pub path_eq :
      (w : W) (v path : Str)
      → IsName v
      → (g.volume_driver.volume_path v w).0 ≡ ok path
      → path ≡ root ++ v
  pub move_keeps :
      (w : W) (u to v : Str)
      → IsName u
      → IsName v
      → v ≢ u
      → (view w).has v ≡ true
      → (view (g.volume_driver.move_volume (root ++ u) to w).1).has v ≡ true
  pub destroy_keeps :
      (w : W) (id v : Str)
      → IsName id
      → v ≢ id
      → (view w).has v ≡ true
      → (view (g.volume_driver.destroy_volume id w).1).has v ≡ true

-- Locks and measurements leave the view alone.
pub record IsAside {W : Type 0} (view : W → View) (locks : Locksmith W) (sm : StoreMeasurer W)
    : Type 0 where
  pub lock_view : (w : W) (key : Str) → view (locks.lock key w).1 ≡ view w
  pub unlock_view : (w : W) (file : File) → view (locks.unlock file w).1 ≡ view w
  pub usage_view : (w : W) → view (sm.usage w).1 ≡ view w
