-- ===== src/Store/Manager/Initialized.antt =====
-- `InitStore` and `IsStoreInitialized`.
use groot_btrfs.Base.{
  ◌≡◌, refl, ◌∙◌, sym, ap, Bool, true, List, [], ◌∷◌, arith, inl, inr, All, subst,
}
use groot_btrfs.Base.Str.{Str}
use groot_btrfs.Base.FilePath.{join}
use groot_btrfs.Base.Effect.{Result-cases, succeeded}
use groot_btrfs.Store.{store_folders, meta_dir_name}
use groot_btrfs.Store.Manager.{
  Manager, InitSpec, configure_store, configure_folders, prepare_filesystem, init_store,
  has_folders, namespace_path, is_store_initialized,
}
use groot_btrfs.Ids.{find_store_owner}
use groot_btrfs.Store.Manager.Laws.{
  IsFileSystem, AllFolders, folder_path, configure_folders_keep, configure_folders-AllFolders,
}

module _ {W : Type 0} (there : W → Str → Bool) (m : Manager W) (L : IsFileSystem there m) where
  has_folders_same : (folders : List Str) (w : W) → there (has_folders m folders w).1 ≡ there w
  unfolding has_folders
  has_folders_same [] w = refl
  has_folders_same (f ∷ folders) w = ground (
    arith,
    L.stat_same w (folder_path there m L f),
    has_folders_same folders (m.os.stat (folder_path there m L f) w).1,
  )

  has_folders_all :
      (folders : List Str) (w : W)
      → AllFolders there m L w folders
      → (has_folders m folders w).0 ≡ true
  unfolding has_folders
  has_folders_all [] w h = refl
  has_folders_all (f ∷ folders) w h =
      let w1 = (m.os.stat (folder_path there m L f) w).1 in
      let same = L.stat_same w (folder_path there m L f) in
      ground (
        arith,
        h.0,
        L.stat_missing w (folder_path there m L f),
        has_folders_all folders w1
            (subst (λ t. All (λ f'. t (folder_path there m L f') ≡ true) folders) (sym same) h.1),
      )

  -- The store is initialized where its folders and its namespace file are there.
  initialized_of :
      (w : W)
      → AllFolders there m L w store_folders
      → there w (namespace_path m) ≡ true
      → (is_store_initialized m w).0 ≡ true
  unfolding is_store_initialized
  initialized_of w folders h =
      let w1 = (has_folders m store_folders w).1 in
      ground (
        arith,
        has_folders_all store_folders w folders,
        ap (λ t. t (namespace_path m)) (has_folders_same store_folders w),
        L.stat_missing w1 (namespace_path m),
      )

  -- After a successful `InitStore` the store is initialized: its folders and its namespace file are
  -- there.
  pub init_store-initialized :
      (spec : InitSpec) (w : W)
      → succeeded (init_store m spec w).0 ≡ true
      → (is_store_initialized m (init_store m spec w).1).0 ≡ true
  unfolding init_store configure_store
  init_store-initialized spec w e =
      let size = spec.store_size_bytes in
      let meta = join (m.store_path ∷ meta_dir_name ∷ []) in
      let uids = spec.uid_mappings in
      let gids = spec.gid_mappings in
      let owner = find_store_owner m.os.getuid m.os.getgid uids gids in
      let w1 = (prepare_filesystem m size w).1 in
      let w2 = (m.os.mkdir_all meta 0o755 w1).1 in
      let w3 = (m.apply_mappings uids gids w2).1 in
      let w4 = (m.os.chown m.store_path owner.0 owner.1 w3).1 in
      let configured = configure_folders m owner.0 owner.1 store_folders w4 in
      elim (Result-cases (prepare_filesystem m size w).0) [
        | inr (x, failed) ↦ absurd (ground (arith, failed))
        | inl (_, valid) ↦ elim (Result-cases (m.os.mkdir_all meta 0o755 w1).0) [
          | inr (x, failed) ↦ absurd (ground (arith, valid, failed))
          | inl (_, made) ↦ elim (Result-cases (m.apply_mappings uids gids w2).0) [
            | inr (x, failed) ↦ absurd (ground (arith, valid, made, failed))
            | inl (_, applied) ↦
                elim (Result-cases (m.os.chown m.store_path owner.0 owner.1 w3).0) [
                  | inr (x, failed) ↦ absurd (ground (arith, valid, made, applied, failed))
                  | inl (_, owned) ↦
                      let ends : (init_store m spec w).1 ≡ configured.1 =
                        ground (arith, valid, made, applied, owned) in
                      let fine : succeeded configured.0 ≡ true =
                        ground (arith, valid, made, applied, owned) in
                      subst (λ t. (is_store_initialized m t).0 ≡ true) (sym ends)
                        (initialized_of configured.1
                          (configure_folders-AllFolders there m L owner.0 owner.1 store_folders w4
                            fine)
                          (configure_folders_keep there m L owner.0 owner.1 store_folders
                            (namespace_path m) w4
                            (ap (λ t. t (namespace_path m))
                                (L.chown_same w3 m.store_path owner.0 owner.1)
                              ∙ L.apply_there w2 uids gids (ap succeeded applied))))
                ]
          ]
        ]
      ]
