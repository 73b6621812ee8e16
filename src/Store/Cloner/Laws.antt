-- ===== src/Store/Cloner/Laws.antt =====
-- The image's directory and the sources of its mounts after `Create` and `Destroy`.
use groot_btrfs.Base.{
  ◌≡◌, ◌∙◌, sym, ap, Bool, true, false, not, ◌&&◌, List, [], ◌∷◌, arith, ℕ, inl, inr, All,
  Bool-cases, subst,
}
use groot_btrfs.Base.FilePath.{join}
use groot_btrfs.Base.Int.{ℤ}
use groot_btrfs.Base.Str.{Str, codes, eqb}
use groot_btrfs.Base.Effect.{ok, Result-cases, succeeded, for_each}
use groot_btrfs.Groot.{MountInfo, ImageInfo, ImageSpec}
use groot_btrfs.Store.Cloner.{
  ImageCloner, ImageDriverSpec, image_path, image_driver_spec, exists, set_ownership, image_info,
  create_volumes_sources, clean_up, furnish, create, destroy,
}

-- `there w p`: something stands at the path `p`.
pub record IsFileSystem {W : Type 0} (there : W → Str → Bool) (b : ImageCloner W) : Type 0 where
  pub stat_same : (w : W) (p : Str) → there (b.os.stat p w).1 ≡ there w
  pub stat_there : (w : W) (p : Str) → succeeded (b.os.stat p w).0 ≡ there w p
  pub chown_same : (w : W) (p : Str) (u g : ℤ) → there (b.os.chown p u g w).1 ≡ there w
  pub mkdir_there :
      (w : W) (p : Str) (mode : ℕ)
      → succeeded (b.os.mkdir p mode w).0 ≡ true
      → there (b.os.mkdir p mode w).1 p ≡ true
  pub mkdir_keeps :
      (w : W) (p q : Str) (mode : ℕ) → there w q ≡ true → there (b.os.mkdir p mode w).1 q ≡ true
  pub create_keeps :
      (w : W) (spec : ImageDriverSpec) (q : Str)
      → there w q ≡ true
      → there (b.image_driver.create_image spec w).1 q ≡ true
  pub remove_gone :
      (w : W) (p : Str)
      → succeeded (b.os.remove_all p w).0 ≡ true
      → there (b.os.remove_all p w).1 p ≡ false

-- A bind mount's source is there.
abbrev pub HasSource : (Str → Bool) → MountInfo → Type 0
HasSource there m = eqb m.type (codes "bind") ≡ true → there m.source ≡ true

module _ {W : Type 0} (there : W → Str → Bool) (b : ImageCloner W) (L : IsFileSystem there b) where
  module _ (u g : ℤ) where
    sources_keep :
        (mounts : List MountInfo) (q : Str) (w : W)
        → there w q ≡ true
        → there (create_volumes_sources b mounts u g w).1 q ≡ true
    unfolding create_volumes_sources for_each
    sources_keep [] q w h = h
    sources_keep (m ∷ mounts) q w h = elim (Bool-cases (eqb m.type (codes "bind"))) [
      | inr other ↦ ground (arith, other, sources_keep mounts q w h)
      | inl bind ↦
          let w1 = (b.os.mkdir m.source 0o755 w).1 in
          let made = L.mkdir_keeps w m.source q 0o755 h in
          let owned = ap (λ t. t q) (L.chown_same w1 m.source u g) in
          elim (Result-cases (b.os.mkdir m.source 0o755 w).0) [
            | inr (x, failed) ↦ ground (arith, bind, failed, made)
            | inl (_, fine) ↦ ground (
              arith,
              bind,
              fine,
              made,
              owned,
              sources_keep mounts q (b.os.chown m.source u g w1).1,
            )
          ]
    ]

    sources_there :
        (mounts : List MountInfo) (w : W)
        → succeeded (create_volumes_sources b mounts u g w).0 ≡ true
        → All (HasSource (there (create_volumes_sources b mounts u g w).1)) mounts
    unfolding create_volumes_sources for_each
    sources_there [] w e = tt
    sources_there (m ∷ mounts) w e = elim (Bool-cases (eqb m.type (codes "bind"))) [
      | inr other ↦ ground (arith, other, sources_there mounts w)
      | inl bind ↦
          let w1 = (b.os.mkdir m.source 0o755 w).1 in
          let w2 = (b.os.chown m.source u g w1).1 in
          elim (Result-cases (b.os.mkdir m.source 0o755 w).0) [
            | inr (x, failed) ↦ absurd (ground (arith, bind, failed))
            | inl (_, fine) ↦ elim (Result-cases (b.os.chown m.source u g w1).0) [
              | inr (x, failed) ↦ absurd (ground (arith, bind, fine, failed))
              | inl (_, owned) ↦ ground (
                arith,
                bind,
                fine,
                owned,
                L.mkdir_there w m.source 0o755,
                ap (λ t. t m.source) (L.chown_same w1 m.source u g),
                sources_keep mounts m.source w2,
                sources_there mounts w2,
              )
            ]
          ]
    ]

  owned_same :
      (spec : ImageSpec) (paths : List Str) (w : W)
      → there (set_ownership b spec paths w).1 ≡ there w
  unfolding set_ownership for_each
  owned_same spec [] w = ground arith
  owned_same spec (p ∷ paths) w = ground (
    arith,
    L.chown_same w p spec.owner_uid spec.owner_gid,
    owned_same spec paths (b.os.chown p spec.owner_uid spec.owner_gid w).1,
  )

  module _ (spec : ImageSpec) (path : Str) (mount_info : MountInfo) (w : W) where
    abbrev rootfs : Str
    rootfs = join (path ∷ codes "rootfs" ∷ [])

    abbrev info : ImageInfo
    info = image_info b rootfs path spec.base_image mount_info spec.mount

    abbrev w1 : W
    w1 = (set_ownership b spec (path ∷ rootfs ∷ []) w).1

    furnish_keeps :
        (q : Str) → there w q ≡ true → there (furnish b spec path mount_info w).1 q ≡ true
    unfolding furnish
    furnish_keeps q h = ground (
      arith,
      ap (λ t. t q) (owned_same spec (path ∷ rootfs ∷ []) w),
      sources_keep spec.owner_uid spec.owner_gid info.mounts q w1,
    )

    furnish_there :
        (out : ImageInfo)
        → (furnish b spec path mount_info w).0 ≡ ok out
        → All (HasSource (there (furnish b spec path mount_info w).1)) out.mounts
    unfolding furnish
    furnish_there out e = elim (Result-cases (set_ownership b spec (path ∷ rootfs ∷ []) w).0) [
      | inr (x, failed) ↦ absurd (ground (arith, failed))
      | inl (_, owned) ↦
          elim (Result-cases
            (create_volumes_sources b info.mounts spec.owner_uid spec.owner_gid w1).0) [
              | inr (x, failed) ↦ absurd (ground (arith, owned, failed))
              | inl (_, fine) ↦
                  let is_info : out ≡ info = ground (arith, owned, fine) in
                  let found =
                    sources_there spec.owner_uid spec.owner_gid info.mounts w1
                      (ap succeeded fine) in
                  let same : (furnish b spec path mount_info w).1
                      ≡ (create_volumes_sources b info.mounts spec.owner_uid spec.owner_gid w1).1 =
                    ground (arith, owned, fine) in
                  subst (λ x. All (HasSource (there (furnish b spec path mount_info w).1)) x.mounts)
                    (sym is_info)
                    (subst (λ t. All (HasSource (there t)) info.mounts) (sym same) found)
            ]
    ]

  module _ (spec : ImageSpec) (w : W) where
    abbrev path : Str
    path = image_path b spec.id

    abbrev p1 : W
    p1 = (b.os.mkdir path 0o700 w).1

    -- If directories can be removed, then after `Create` the image's directory is there exactly if
    -- the directory was made and the driver made the image. So a directory that was there before is
    -- removed, and an image whose furnishing fails is left.
    pub create_there :
        ((t : W) (p : Str) → succeeded (b.os.remove_all p t).0 ≡ true)
        → there (create b spec w).1 (image_path b spec.id) ≡ (
            succeeded (b.os.mkdir (image_path b spec.id) 0o700 w).0
            && succeeded
                (b.image_driver.create_image
                  (image_driver_spec spec (image_path b spec.id))
                  (b.os.mkdir (image_path b spec.id) 0o700 w).1).0)
    unfolding create clean_up
    create_there removes =
        let gone = λ (t : W). L.remove_gone t path (removes t path) in
        let p2 = (b.image_driver.create_image (image_driver_spec spec path) p1).1 in
        elim (Result-cases (b.os.mkdir path 0o700 w).0) [
          | inr (x, failed) ↦ ground (arith, failed, gone (b.image_driver.destroy_image path p1).1)
          | inl (_, made) ↦
              elim (Result-cases (b.image_driver.create_image (image_driver_spec spec path) p1).0) [
                | inr (x, failed) ↦
                    ground (arith, made, failed, gone (b.image_driver.destroy_image path p2).1)
                | inl (mount_info, driven) ↦ ground (
                  arith,
                  made,
                  driven,
                  L.mkdir_there w path 0o700,
                  L.create_keeps p1 (image_driver_spec spec path) path,
                  furnish_keeps spec path mount_info p2 path,
                )
              ]
        ]

    -- After a successful `Create` the image's directory is there, and so is the source of each of its
    -- bind mounts.
    pub create_mounts :
        (out : ImageInfo)
        → (create b spec w).0 ≡ ok out
        → (there (create b spec w).1 (image_path b spec.id) ≡ true)
          × All (HasSource (there (create b spec w).1)) out.mounts
    unfolding create
    create_mounts out e =
        let p2 = (b.image_driver.create_image (image_driver_spec spec path) p1).1 in
        elim (Result-cases (b.os.mkdir path 0o700 w).0) [
          | inr (x, failed) ↦ absurd (ground (arith, failed))
          | inl (_, made) ↦
              elim (Result-cases (b.image_driver.create_image (image_driver_spec spec path) p1).0) [
                | inr (x, failed) ↦ absurd (ground (arith, made, failed))
                | inl (mount_info, driven) ↦
                    let done : create b spec w ≡ furnish b spec path mount_info p2 =
                      ground (arith, made, driven) in
                    (
                      ground (
                        arith,
                        done,
                        made,
                        L.mkdir_there w path 0o700,
                        L.create_keeps p1 (image_driver_spec spec path) path,
                        furnish_keeps spec path mount_info p2 path,
                      ),
                      subst (λ r. All (HasSource (there r.1)) out.mounts) (sym done)
                          (furnish_there spec path mount_info p2 out
                            (sym (ap (λ r. r.0) done) ∙ e)),
                    )
              ]
        ]

  -- `Destroy` succeeds exactly if the image's directory was there and is no longer there once the
  -- driver is done; so after a success it is not there.
  pub destroy_there :
      (id : Str) (w : W)
      → (succeeded (destroy b id w).0 ≡ (
          there w (image_path b id)
          && not (
              there
                (b.image_driver.destroy_image (image_path b id) (b.os.stat (image_path b id) w).1).1
                (image_path b id))))
        × (succeeded (destroy b id w).0 ≡ true → there (destroy b id w).1 (image_path b id) ≡ false)
  unfolding destroy exists
  destroy_there id w =
      let path = image_path b id in
      let w1 = (b.os.stat path w).1 in
      let w2 = (b.image_driver.destroy_image path w1).1 in
      let after = ap (λ t. t path) (L.stat_same w2 path) in
      elim (Result-cases (b.os.stat path w).0) [
        | inr (x, failed) ↦ ground (arith, failed, L.stat_there w path)
        | inl (_, found) ↦ ground (arith, found, after, L.stat_there w path, L.stat_there w2 path)
      ]
