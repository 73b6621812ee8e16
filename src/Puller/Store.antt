-- ===== src/Puller/Store.antt =====
-- What the puller relies on: how its collaborators change the set of volumes and the number of locks
-- that are held. `at v` is the path of the volume `v`.
use groot_btrfs.Base.{
  ℕ, suc, ◌-◌, ◌≡◌, ◌≢◌, Bool, false, ◌||◌, List, some, All, [], ◌∷◌, ◌++◌, if◌then◌else◌,
}
use groot_btrfs.Base.Int.{ℤ}
use groot_btrfs.Base.Str.{Str, codes, contains_str, size}
use groot_btrfs.Base.FilePath.{join}
use groot_btrfs.Base.FilePath.Laws.{IsName}
use groot_btrfs.Base.Effect.{ok, succeeded}
use groot_btrfs.Groot.{Url, LayerInfo, File}
use groot_btrfs.Puller.BaseDirectory.{base_directories}
use groot_btrfs.Puller.{BaseImagePuller, UnpackSpec, UnpackOutput, VolumeMeta}

pub record View : Type 0 where
  pub has : Str → Bool
  pub held : ℕ

-- `store` is the path of the volumes' directory.
abbrev pub at : Str → Str → Str
at store v = store ++ (b'/' ∷ v)

-- The id of a finished volume: a plain name, not a part of the store's path, and unlike the names of
-- temporary volumes.
pub record IsVolumeId (store v : Str) : Type 0 where
  pub name : IsName v
  pub outside : contains_str store v ≡ false
  pub finished : contains_str v (codes "-incomplete-") ≡ false

-- A base directory whose directories lie in the volume that they are made in, and are no volume's own
-- place: none leads out by "..".
abbrev pub StaysIn : Str → Str → Type 0
StaysIn store d =
    (ds : List Str)
    → base_directories (suc (size d)) d ≡ some ds
    → All (λ e. (n v : Str) → IsName n → IsName v → join (at store n ∷ e ∷ []) ≢ at store v) ds

module _ {W Stream : Type 0} (view : W → View) (store : Str) (p : BaseImagePuller W Stream) where
  -- The volume driver, one volume at a time: the ids are plain names. A move makes the target exist, or fails.
  pub record IsDriver : Type 0 where
    pub path_view : (w : W) (v : Str) → view (p.volume_driver.volume_path v w).1 ≡ view w
    pub path_has :
        (w : W) (v : Str)
        → IsName v
        → succeeded (p.volume_driver.volume_path v w).0 ≡ (view w).has v
    pub create_path :
        (w : W) (parent id path : Str)
        → IsName id
        → (p.volume_driver.create_volume parent id w).0 ≡ ok path
        → path ≡ at store id
    pub create_other :
        (w : W) (parent id v : Str)
        → IsName id
        → v ≢ id
        → (view (p.volume_driver.create_volume parent id w).1).has v ≡ (view w).has v
    pub create_held :
        (w : W) (parent id : Str)
        → (view (p.volume_driver.create_volume parent id w).1).held ≡ (view w).held
    pub destroy_other :
        (w : W) (id v : Str)
        → IsName id
        → v ≢ id
        → (view (p.volume_driver.destroy_volume id w).1).has v ≡ (view w).has v
    pub destroy_self :
        (w : W) (id : Str)
        → IsName id
        → (view w).has id ≡ false
        → (view (p.volume_driver.destroy_volume id w).1).has id ≡ false
    pub destroy_held :
        (w : W) (id : Str) → (view (p.volume_driver.destroy_volume id w).1).held ≡ (view w).held
    pub move_target :
        (w : W) (from to : Str)
        → IsName from
        → IsName to
        → (view (p.volume_driver.move_volume (at store from) (at store to) w).1).has to ≡ (
            succeeded (p.volume_driver.move_volume (at store from) (at store to) w).0
            || (view w).has to)
    pub move_other :
        (w : W) (from to v : Str)
        → IsName from
        → IsName to
        → v ≢ from
        → v ≢ to
        → (view (p.volume_driver.move_volume (at store from) (at store to) w).1).has v
          ≡ (view w).has v
    pub move_held :
        (w : W) (from to : Str)
        → (view (p.volume_driver.move_volume from to w).1).held ≡ (view w).held
    pub meta_view :
        (w : W) (id : Str) (meta : VolumeMeta)
        → IsName id
        → view (p.volume_driver.write_volume_meta id meta w).1 ≡ view w
    pub whiteouts_view :
        (w : W) (id : Str) → view (p.volume_driver.handle_opaque_whiteouts id [] w).1 ≡ view w

  -- What changes no lock, and no volume but the one that is unpacked into. Opaque whiteouts are dealt
  -- with while unpacking: the output names none. A directory is made at its path, which is a volume's
  -- only where it is the path of one: no symbolic link in a volume leads out of it.
  pub record IsAside : Type 0 where
    pub stream_view :
        (w : W) (url : Url) (info : LayerInfo) → view (p.fetcher.stream_blob url info w).1 ≡ view w
    pub unpack_other :
        (w : W) (spec : UnpackSpec Stream) (name v : Str)
        → IsName name
        → spec.target_path ≡ at store name
        → v ≢ name
        → (view (p.unpack spec w).1).has v ≡ (view w).has v
    pub unpack_held :
        (w : W) (spec : UnpackSpec Stream) → (view (p.unpack spec w).1).held ≡ (view w).held
    pub unpack_plain :
        (w : W) (spec : UnpackSpec Stream) (output : UnpackOutput)
        → (p.unpack spec w).0 ≡ ok output
        → output.opaque_whiteouts ≡ []
    pub close_view : (w : W) (stream : Stream) → view (p.close stream w).1 ≡ view w
    pub nano_view : (w : W) → view (p.unix_nano w).1 ≡ view w
    pub rand_view : (w : W) → view (p.rand_int w).1 ≡ view w
    pub chown_view : (w : W) (path : Str) (u g : ℤ) → view (p.os.chown path u g w).1 ≡ view w
    pub stat_view : (w : W) (path : Str) → view (p.os.stat path w).1 ≡ view w
    pub mkdir_view :
        (w : W) (path : Str) (mode : ℕ)
        → ((v : Str) → IsName v → path ≢ at store v)
        → view (p.os.mkdir path mode w).1 ≡ view w

  -- A lock that is got is one more, and its release is one less; neither touches a volume.
  pub record IsLocking : Type 0 where
    pub lock_has : (w : W) (key v : Str) → (view (p.locksmith.lock key w).1).has v ≡ (view w).has v
    pub lock_held :
        (w : W) (key : Str)
        → (view (p.locksmith.lock key w).1).held
          ≡ (if succeeded (p.locksmith.lock key w).0 then suc (view w).held else (view w).held)
    pub unlock_has :
        (w : W) (file : File) (v : Str)
        → (view (p.locksmith.unlock file w).1).has v ≡ (view w).has v
    pub unlock_held :
        (w : W) (file : File) → (view (p.locksmith.unlock file w).1).held ≡ (view w).held - 1
