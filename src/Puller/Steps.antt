-- ===== src/Puller/Steps.antt =====
-- The steps of `unpackLayer`: which volumes each one changes.
use groot_btrfs.Base.{
  ◌≡◌, refl, ap, All, ◌∙◌, ◌≢◌, List, [], ◌∷◌, arith, inl, inr, suc, Option-cases,
}
use groot_btrfs.Base.Int.{ℤ}
use groot_btrfs.Base.Str.{Str, size}
use groot_btrfs.Base.FilePath.{join}
use groot_btrfs.Base.FilePath.Laws.{IsName}
use groot_btrfs.Base.Effect.{Result, ok, err, Result-cases}
use groot_btrfs.Groot.{LayerInfo, BaseImageSpec}
use groot_btrfs.Puller.{
  BaseImagePuller, UnpackSpec, chown_volume, prepare_base_directory, download_layer,
  create_temporary_volume_directory, temp_volume_name,
}
use groot_btrfs.Puller.BaseDirectory.{
  base_directories, ensure_one, ensure_each, ensure_base_directory_exists,
}
use groot_btrfs.Puller.Store.{View, at, StaysIn, IsDriver, IsAside}

module _ {W Stream : Type 0} (view : W → View) (store : Str) (p : BaseImagePuller W Stream)
    (D : IsDriver view store p) (A : IsAside view store p) where
  view-ensure_one :
      (d child parent : Str) (w : W)
      → ((v : Str) → IsName v → join (child ∷ d ∷ []) ≢ at store v)
      → view (ensure_one p.os d child parent w).1 ≡ view w
  unfolding ensure_one
  view-ensure_one d child parent w inside =
      let full = join (child ∷ d ∷ []) in
      let w1 = (p.os.stat full w).1 in
      let above = join (parent ∷ d ∷ []) in
      let w2 = (p.os.stat above w1).1 in
      elim (Result-cases (p.os.stat above w1).0) [
        | inr (x, failed) ↦ ground (arith, failed, A.stat_view w full, A.stat_view w1 above)
        | inl (info, found) ↦ ground (
          arith,
          found,
          A.stat_view w full,
          A.stat_view w1 above,
          A.mkdir_view w2 full info.mode inside,
          A.chown_view (p.os.mkdir full info.mode w2).1 full info.uid info.gid,
        )
      ]

  view-ensure_each :
      (ds : List Str) (child parent : Str) (w : W)
      → All (λ d. (v : Str) → IsName v → join (child ∷ d ∷ []) ≢ at store v) ds
      → view (ensure_each p.os ds child parent w).1 ≡ view w
  unfolding ensure_each
  view-ensure_each [] child parent w inside = refl
  view-ensure_each (d ∷ ds) child parent w inside = ground (
    arith,
    view-ensure_each ds child parent w inside.1,
    view-ensure_one d child parent (ensure_each p.os ds child parent w).1 inside.0,
  )

  -- What holds in every volume of the store holds in one of them.
  in_volume :
      (name : Str) (ds : List Str)
      → IsName name
      → All (λ e. (n v : Str) → IsName n → IsName v → join (at store n ∷ e ∷ []) ≢ at store v) ds
      → All (λ e. (v : Str) → IsName v → join (at store name ∷ e ∷ []) ≢ at store v) ds
  in_volume name [] named all = tt
  in_volume name (d ∷ ds) named all =
      (λ v plain. all.0 name v named plain, in_volume name ds named all.1)

  ensure_base_directory_view :
      (d name parent : Str) (w : W)
      → IsName name
      → StaysIn store d
      → view (ensure_base_directory_exists p.os d (at store name) parent w).1 ≡ view w
  unfolding ensure_base_directory_exists
  ensure_base_directory_view d name parent w named inside =
      elim (Option-cases (base_directories (suc (size d)) d)) [
        | inl endless ↦ ground (arith, endless)
        | inr (ds, found) ↦ ground (
          arith,
          found,
          view-ensure_each ds (at store name) parent w (in_volume name ds named (inside ds found)),
        )
      ]

  pub view-prepare_base_directory :
      (spec : UnpackSpec Stream) (parent : LayerInfo) (name : Str) (w : W)
      → IsName name
      → spec.target_path ≡ at store name
      → StaysIn store spec.base_directory
      → view (prepare_base_directory p spec parent w).1 ≡ view w
  unfolding prepare_base_directory
  view-prepare_base_directory spec parent name w named located inside =
      let w1 = (p.volume_driver.volume_path parent.chain_id w).1 in
      elim (Result-cases (p.volume_driver.volume_path parent.chain_id w).0) [
        | inr (x, failed) ↦ ground (arith, failed, D.path_view w parent.chain_id)
        | inl (path, found) ↦
            let made : view
                  (ensure_base_directory_exists p.os spec.base_directory spec.target_path path w1).1
                ≡ view w1 =
              ap (λ t. view (ensure_base_directory_exists p.os spec.base_directory t path w1).1)
                located
              ∙ ensure_base_directory_view spec.base_directory name path w1 named inside in
            ground (arith, found, D.path_view w parent.chain_id, made)
      ]

  view-chown_volume :
      (spec : BaseImageSpec) (path : Str) (w : W) → view (chown_volume p spec path w).1 ≡ view w
  unfolding chown_volume
  view-chown_volume spec path w = ground (arith, A.chown_view w path spec.owner_uid spec.owner_gid)

  pub view-download_layer :
      (spec : BaseImageSpec) (info : LayerInfo) (w : W)
      → view (download_layer p spec info w).1 ≡ view w
  unfolding download_layer
  view-download_layer spec info w = ground (arith, A.stream_view w spec.base_image_src info)

  module _ (info : LayerInfo) (spec : BaseImageSpec) (w : W) where
    abbrev w1 : W
    w1 = (p.unix_nano w).1

    abbrev w2 : W
    w2 = (p.rand_int w1).1

    abbrev name_made : Str
    name_made = temp_volume_name p info (p.unix_nano w).0 (p.rand_int w1).0

    abbrev w3 : W
    w3 = (p.volume_driver.create_volume info.parent_chain_id name_made w2).1

    made_view :
        (r : Result Str)
        → (p.volume_driver.create_volume info.parent_chain_id name_made w2).0 ≡ r
        → view (create_temporary_volume_directory p info spec w).1 ≡ view w3
    unfolding create_temporary_volume_directory
    made_view (ok path) found = ground (arith, found, view-chown_volume spec path w3)
    made_view (err x) failed = ground (arith, failed)

    before_view : view w2 ≡ view w
    before_view = A.rand_view w1 ∙ A.nano_view w

    -- Creating the temporary volume changes no volume but that one, and names it as it is called.
    pub create_temporary_other :
        (v : Str)
        → ((nano random : ℤ) → IsName (temp_volume_name p info nano random))
        → ((nano random : ℤ) → v ≢ temp_volume_name p info nano random)
        → (view (create_temporary_volume_directory p info spec w).1).has v ≡ (view w).has v
    create_temporary_other v named fresh = ground (
      arith,
      made_view _ refl,
      before_view,
      D.create_other w2 info.parent_chain_id name_made v (named (p.unix_nano w).0 (p.rand_int w1).0)
          (fresh (p.unix_nano w).0 (p.rand_int w1).0),
    )

    pub create_temporary_held :
        (view (create_temporary_volume_directory p info spec w).1).held ≡ (view w).held
    create_temporary_held =
        ground
          (arith, made_view _ refl, before_view, D.create_held w2 info.parent_chain_id name_made)

    pub create_temporary_path :
        (name path : Str)
        → ((nano random : ℤ) → IsName (temp_volume_name p info nano random))
        → (create_temporary_volume_directory p info spec w).0 ≡ ok (name, path)
        → (nano : ℤ) × (random : ℤ) × (name ≡ temp_volume_name p info nano random)
          × (path ≡ at store name)
    unfolding create_temporary_volume_directory chown_volume
    create_temporary_path name path named e =
        elim (Result-cases (p.volume_driver.create_volume info.parent_chain_id name_made w2).0) [
          | inr (x, failed) ↦ ground (arith, failed)
          | inl (created, found) ↦ (
            (p.unix_nano w).0,
            (p.rand_int w1).0,
            ground (arith, found),
            ground (
              arith,
              found,
              D.create_path w2 info.parent_chain_id name_made created
                  (named (p.unix_nano w).0 (p.rand_int w1).0) found,
            ),
          )
        ]
