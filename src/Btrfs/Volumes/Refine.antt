-- ===== src/Btrfs/Volumes/Refine.antt =====
-- The btrfs driver's volumes as the puller sees them.
use groot_btrfs.Base.{
  ℕ, ◌≡◌, ◌≢◌, refl, sym, ap, fun_ext, ◌∙◌, true, false, ◌&&◌, ◌||◌, [], ◌∷◌, arith, inl, inr,
  Bool-cases,
}
use groot_btrfs.Base.Str.{Str}
use groot_btrfs.Base.FilePath.Laws.{IsName, is_name, is_name-IsName, IsName-is_name}
use groot_btrfs.Base.Effect.{ok, Result-cases, succeeded, is_exist}
use groot_btrfs.Puller.{BaseImagePuller, VolumeMeta}
use groot_btrfs.Puller.Store.{View, at, IsDriver}
use groot_btrfs.Store.VolumeMeta as Meta
use groot_btrfs.Store.VolumeMeta.{volume_meta_file_path}
use groot_btrfs.Btrfs.{Driver, destroy_btrfs_volume}
use groot_btrfs.Btrfs.Volumes.{
  path_of, volume_path, create_arguments, create_volume, move_volume, handle_opaque_whiteouts,
  write_volume_meta, destroy_volume, volume_driver,
}
use groot_btrfs.Btrfs.Volumes.Kernel.{Files, beneath, IsKernel}
use groot_btrfs.Btrfs.Volumes.Paths.{volumes_path, path_of-at, path_of-apart, path_of-meta}
use groot_btrfs.Btrfs.Volumes.Destroy.{
  destroy_btrfs_volume_other, destroy_btrfs_volume_held, destroy_btrfs_volume_missing,
}

-- The volumes are the plain names whose paths are there.
abbrev pub volumes_of : {W : Type 0} → Driver W → Files → View
volumes_of d f = record { has = λ v. is_name v && f.there (path_of d v); held = f.held }

module _ {W : Type 0} (files : W → Files) (d : Driver W) (K : IsKernel files d) (c : ℕ) (p : Str)
    (rooted : d.meta.store_path ≡ c ∷ p) where
  abbrev view : W → View
  view w = volumes_of d (files w)

  pub volume_path_files : (w : W) (id : Str) → files (volume_path d id w).1 ≡ files w
  unfolding volume_path
  volume_path_files w id = ground (arith, K.stat_files w (path_of d id))

  volume_path_has :
      (w : W) (id : Str) → IsName id → succeeded (volume_path d id w).0 ≡ (view w).has id
  unfolding volume_path
  volume_path_has w id n = ground (arith, K.stat_there w (path_of d id), IsName-is_name id n)

  create_volume_path :
      (w : W) (parent id path : Str)
      → IsName id
      → (create_volume d parent id w).0 ≡ ok path
      → path ≡ at (volumes_path (c ∷ p)) id
  unfolding create_volume
  create_volume_path w parent id path n e = ground (arith, path_of-at d c p rooted id n)

  -- What leaves the path of another volume leaves that volume.
  has_same :
      (v id : Str) (f g : Files)
      → IsName id
      → v ≢ id
      → (beneath (path_of d id) (path_of d v) ≡ false
          → f.there (path_of d v) ≡ g.there (path_of d v))
      → (volumes_of d f).has v ≡ (volumes_of d g).has v
  has_same v id f g m other same = elim (Bool-cases (is_name v)) [
    | inl named ↦
        ap (λ b. is_name v && b)
          (same (path_of-apart d c p rooted v id (is_name-IsName v named) m other))
    | inr odd ↦ rw odd refl
  ]

  create_volume_other :
      (w : W) (parent id v : Str)
      → IsName id
      → v ≢ id
      → (view (create_volume d parent id w).1).has v ≡ (view w).has v
  unfolding create_volume create_arguments
  create_volume_other w parent id v m other =
      has_same v id (files (create_volume d parent id w).1) (files w) m other (λ out. ground (
        arith,
        K.create_other w (path_of d id) (path_of d v) out,
        K.snapshot_other w (path_of d parent) (path_of d id) (path_of d v) out,
      ))

  create_volume_held :
      (w : W) (parent id : Str) → (view (create_volume d parent id w).1).held ≡ (view w).held
  unfolding create_volume
  create_volume_held w parent id =
      ground (arith, K.run_held w d.btrfs_bin_path (create_arguments d parent id))

  -- A file of metadata is no volume.
  has_same_meta :
      (v id : Str) (f g : Files)
      → IsName id
      → (path_of d v ≢ volume_meta_file_path d.meta id
          → f.there (path_of d v) ≡ g.there (path_of d v))
      → (volumes_of d f).has v ≡ (volumes_of d g).has v
  has_same_meta v id f g m same = elim (Bool-cases (is_name v)) [
    | inl named ↦
        ap (λ b. is_name v && b) (same (path_of-meta d c p rooted v id (is_name-IsName v named) m))
    | inr odd ↦ rw odd refl
  ]

  removed :
      (w : W) (id v : Str)
      → IsName id
      → (view (d.meta.os.remove (volume_meta_file_path d.meta id) w).1).has v ≡ (view w).has v
  removed w id v m =
      let path = volume_meta_file_path d.meta id in
      has_same_meta v id (files (d.meta.os.remove path w).1) (files w) m
        (K.remove_other w path (path_of d v))

  pub destroy_volume_other :
      (w : W) (id v : Str)
      → IsName id
      → v ≢ id
      → (view (destroy_volume d id w).1).has v ≡ (view w).has v
  unfolding destroy_volume
  destroy_volume_other w id v m other =
      let w1 = (d.meta.os.remove (volume_meta_file_path d.meta id) w).1 in
      has_same v id (files (destroy_btrfs_volume d (path_of d id) w1).1) (files w1) m other
        (destroy_btrfs_volume_other files d K (path_of d id) (path_of d v) w1)
      ∙ removed w id v m

  pub destroy_volume_self :
      (w : W) (id : Str)
      → IsName id
      → (view w).has id ≡ false
      → (view (destroy_volume d id w).1).has id ≡ false
  unfolding destroy_volume
  destroy_volume_self w id m absent =
      let w1 = (d.meta.os.remove (volume_meta_file_path d.meta id) w).1 in
      let gone : (files w1).there (path_of d id) ≡ false =
        ground (arith, removed w id id m, absent, IsName-is_name id m) in
      ap (λ f. (volumes_of d f).has id)
        (destroy_btrfs_volume_missing files d K (path_of d id) w1 gone)
      ∙ removed w id id m
      ∙ absent

  destroy_volume_held : (w : W) (id : Str) → (view (destroy_volume d id w).1).held ≡ (view w).held
  unfolding destroy_volume
  destroy_volume_held w id =
      let path = volume_meta_file_path d.meta id in
      destroy_btrfs_volume_held files d K (path_of d id) (d.meta.os.remove path w).1
      ∙ K.remove_held w path

  move_volume_target :
      (w : W) (from to : Str) (id : Str)
      → IsName id
      → to ≡ path_of d id
      → (view (move_volume d from to w).1).has id
        ≡ (succeeded (move_volume d from to w).0 || (view w).has id)
  unfolding move_volume
  move_volume_target w from to id n e =
      let w1 = (d.meta.os.rename from to w).1 in
      elim (Result-cases (d.meta.os.rename from to w).0) [
        | inl (_, moved) ↦
            let there : (files w1).there (path_of d id) ≡ true =
              ap (files w1).there (sym e) ∙ K.rename_there w from to (ap succeeded moved) in
            ground (arith, moved, there, IsName-is_name id n)
        | inr (x, failed) ↦
            let same = K.rename_failed w from to (ap succeeded failed) in
            elim (Bool-cases (is_exist x)) [
              | inl exists ↦
                  let there : (files w).there (path_of d id) ≡ true =
                    ap (files w).there (sym e) ∙ K.rename_exist w from to x failed exists in
                  ground (arith, failed, exists, same, there, IsName-is_name id n)
              | inr other ↦ ground (arith, failed, other, same)
            ]
      ]

  pub move_volume_files :
      (w : W) (from to : Str) → (move_volume d from to w).1 ≡ (d.meta.os.rename from to w).1
  unfolding move_volume
  move_volume_files w from to = ground arith

  move_volume_other :
      (w : W) (from to v : Str)
      → IsName from
      → IsName to
      → v ≢ from
      → v ≢ to
      → (view (move_volume d (path_of d from) (path_of d to) w).1).has v ≡ (view w).has v
  move_volume_other w from to v n m other1 other2 =
      let apart = path_of-apart d c p rooted v in
      ap (λ w1. (view w1).has v) (move_volume_files w (path_of d from) (path_of d to))
      ∙ elim (Bool-cases (is_name v)) [
        | inl named ↦
            let h = is_name-IsName v named in
            ap (λ b. is_name v && b)
              (K.rename_other w (path_of d from) (path_of d to) (path_of d v)
                (apart from h n other1) (apart to h m other2))
        | inr odd ↦ rw odd refl
      ]

  move_volume_held :
      (w : W) (from to : Str) → (view (move_volume d from to w).1).held ≡ (view w).held
  move_volume_held w from to =
      ap (λ w1. (files w1).held) (move_volume_files w from to) ∙ K.rename_held w from to

  View-ext :
      (f g : Files)
      → ((v : Str) → (volumes_of d f).has v ≡ (volumes_of d g).has v)
      → f.held ≡ g.held
      → volumes_of d f ≡ volumes_of d g
  View-ext f g same held = cc (fun_ext same, held)

  write_file_view :
      (w : W) (id text : Str) (mode : ℕ)
      → IsName id
      → view (d.meta.os.write_file (volume_meta_file_path d.meta id) text mode w).1 ≡ view w
  write_file_view w id text mode m =
      let path = volume_meta_file_path d.meta id in
      let w1 = (d.meta.os.write_file path text mode w).1 in
      View-ext (files w1) (files w)
        (λ v.
          has_same_meta v id (files w1) (files w) m (K.write_other w path text (path_of d v) mode))
        (K.write_held w path text mode)

  write_volume_meta_view :
      (w : W) (id : Str) (meta : VolumeMeta)
      → IsName id
      → view (write_volume_meta d id meta w).1 ≡ view w
  unfolding write_volume_meta
  write_volume_meta_view w id meta m =
      let path = volume_meta_file_path d.meta id in
      let (r, w1) = d.meta.os.write_file path [] 0o666 w in
      let made = write_file_view w id [] 0o666 m in
      let written = write_file_view w1 id (d.meta.encode meta) 0o666 m in
      elim (Result-cases r) [
        | inr (x, failed) ↦
            let e : (Meta.write_volume_meta d.meta id meta w).1 ≡ w1 = ground (arith, failed) in
            ap view e ∙ made
        | inl (_, fine) ↦
            let e : (Meta.write_volume_meta d.meta id meta w).1
                ≡ (d.meta.os.write_file path (d.meta.encode meta) 0o666 w1).1 =
              ground (arith, fine) in
            ap view e ∙ written ∙ made
      ]

  handle_no_whiteouts_files :
      (w : W) (id : Str) → files (handle_opaque_whiteouts d id [] w).1 ≡ files w
  unfolding handle_opaque_whiteouts
  handle_no_whiteouts_files w id = ground (arith, volume_path_files w id)

  -- Over a kernel that keeps its promises, the btrfs driver is a volume driver as the puller needs one:
  -- its volumes are the plain names whose paths in the store's directory are there.
  pub volume_driver-IsDriver :
      {Stream : Type 0} (q : BaseImagePuller W Stream)
      → IsDriver view (volumes_path (c ∷ p)) (record q { volume_driver = volume_driver d })
  volume_driver-IsDriver q = record {
    path_view = λ w v. ap (volumes_of d) (volume_path_files w v);
    path_has = volume_path_has;
    create_path = create_volume_path;
    create_other = create_volume_other;
    create_held = create_volume_held;
    destroy_other = destroy_volume_other;
    destroy_self = destroy_volume_self;
    destroy_held = destroy_volume_held;
    move_target = λ w from to n m. rw (sym (path_of-at d c p rooted from n)) (
        move_volume_target w (path_of d from) (at (volumes_path (c ∷ p)) to) to m
          (sym (path_of-at d c p rooted to m)));
    move_other = λ w from to v n m other1 other2.
        rw (sym (path_of-at d c p rooted from n), sym (path_of-at d c p rooted to m))
          (move_volume_other w from to v n m other1 other2);
    move_held = move_volume_held;
    meta_view = write_volume_meta_view;
    whiteouts_view = λ w id. ap (volumes_of d) (handle_no_whiteouts_files w id);
  }
