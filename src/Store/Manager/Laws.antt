-- ===== src/Store/Manager/Laws.antt =====
-- What the manager relies on, and `configureStore`.
use groot_btrfs.Base.{
  ◌≡◌, ◌∙◌, sym, ap, Bool, true, not, List, [], ◌∷◌, arith, ℕ, inl, inr, All, subst,
}
use groot_btrfs.Base.Int.{ℤ}
use groot_btrfs.Base.Str.{Str}
use groot_btrfs.Base.FilePath.{join}
use groot_btrfs.Base.Os.{FileInfo}
use groot_btrfs.Base.Effect.{ok, Result-cases, succeeded, for_each}
use groot_btrfs.Groot.{IdMappingSpec}
use groot_btrfs.Store.Manager.{
  Manager, missing, is_directory, make_directory, create_internal_directory, configure_folders,
  namespace_path,
}

-- `there w p`: something stands at the path `p`. What the manager calls after the file system is
-- mounted takes nothing away, and the mappings that are applied are in the namespace file.
pub record IsFileSystem {W : Type 0} (there : W → Str → Bool) (m : Manager W) : Type 0 where
  pub stat_same : (w : W) (p : Str) → there (m.os.stat p w).1 ≡ there w
  pub stat_missing : (w : W) (p : Str) → missing (m.os.stat p w).0 ≡ not (there w p)
  pub lstat_same : (w : W) (p : Str) → there (m.os.lstat p w).1 ≡ there w
  pub lstat_there :
      (w : W) (p : Str) (found : FileInfo)
      → (m.os.lstat p w).0 ≡ ok found
      → found.is_dir ≡ true
      → there w p ≡ true
  pub chown_same : (w : W) (p : Str) (u g : ℤ) → there (m.os.chown p u g w).1 ≡ there w
  pub chmod_same : (w : W) (p : Str) (mode : ℕ) → there (m.os.chmod p mode w).1 ≡ there w
  pub mkdir_there :
      (w : W) (p : Str) (mode : ℕ)
      → succeeded (m.os.mkdir p mode w).0 ≡ true
      → there (m.os.mkdir p mode w).1 p ≡ true
  pub mkdir_keeps :
      (w : W) (p q : Str) (mode : ℕ) → there w q ≡ true → there (m.os.mkdir p mode w).1 q ≡ true
  pub configure_keeps :
      (w : W) (p q : Str) (u g : ℤ)
      → there w q ≡ true
      → there (m.store_driver.configure_store p u g w).1 q ≡ true
  pub apply_there :
      (w : W) (uids gids : List IdMappingSpec)
      → succeeded (m.apply_mappings uids gids w).0 ≡ true
      → there (m.apply_mappings uids gids w).1 (namespace_path m) ≡ true

module _ {W : Type 0} (there : W → Str → Bool) (m : Manager W) (L : IsFileSystem there m) where
  abbrev pub folder_path : Str → Str
  folder_path folder = join (m.store_path ∷ folder ∷ [])

  abbrev pub AllFolders : W → List Str → Type 0
  AllFolders w folders = All (λ f. there w (folder_path f) ≡ true) folders

  is_directory_same : (p : Str) (w : W) → there (is_directory m p w).1 ≡ there w
  unfolding is_directory
  is_directory_same p w = ground (arith, L.stat_same w p)

  make_directory_keeps :
      (p q : Str) (w : W) → there w q ≡ true → there (make_directory m p w).1 q ≡ true
  unfolding make_directory
  make_directory_keeps p q w h =
      ground (
        arith,
        L.mkdir_keeps w p q 0o755 h,
        ap (λ t. t q) (L.lstat_same (m.os.mkdir p 0o755 w).1 p),
      )

  make_directory_there :
      (p : Str) (w : W)
      → succeeded (make_directory m p w).0 ≡ true
      → there (make_directory m p w).1 p ≡ true
  unfolding make_directory
  make_directory_there p w e =
      let w1 = (m.os.mkdir p 0o755 w).1 in
      let same = ap (λ t. t p) (L.lstat_same w1 p) in
      elim (Result-cases (m.os.mkdir p 0o755 w).0) [
        | inl (_, fine) ↦ ground (arith, fine, L.mkdir_there w p 0o755)
        | inr (x, failed) ↦ elim (Result-cases (m.os.lstat p w1).0) [
          | inr (y, lost) ↦ absurd (ground (arith, failed, lost))
          | inl (info, found) ↦ ground (arith, failed, found, same, L.lstat_there w1 p info found)
        ]
      ]

  module _ (u g : ℤ) where
    internal_keeps :
        (folder q : Str) (w : W)
        → there w q ≡ true
        → there (create_internal_directory m u g folder w).1 q ≡ true
    unfolding create_internal_directory
    internal_keeps folder q w h =
        let p = folder_path folder in
        let w1 = (is_directory m p w).1 in
        let w2 = (make_directory m p w1).1 in
        ground (
          arith,
          ap (λ t. t q) (is_directory_same p w),
          make_directory_keeps p q w1,
          ap (λ t. t q) (L.chown_same w2 p u g),
        )

    internal_there :
        (folder : Str) (w : W)
        → succeeded (create_internal_directory m u g folder w).0 ≡ true
        → there (create_internal_directory m u g folder w).1 (folder_path folder) ≡ true
    unfolding create_internal_directory
    internal_there folder w e =
        let p = folder_path folder in
        let w1 = (is_directory m p w).1 in
        let w2 = (make_directory m p w1).1 in
        elim (Result-cases (is_directory m p w).0) [
          | inr (x, failed) ↦ absurd (ground (arith, failed))
          | inl (_, fine) ↦ elim (Result-cases (make_directory m p w1).0) [
            | inr (x, failed) ↦ absurd (ground (arith, fine, failed))
            | inl (_, made) ↦ ground (
              arith,
              fine,
              made,
              make_directory_there p w1,
              ap (λ t. t p) (L.chown_same w2 p u g),
            )
          ]
        ]

    folders_keep :
        (folders : List Str) (q : Str) (w : W)
        → there w q ≡ true
        → there (for_each (create_internal_directory m u g) folders w).1 q ≡ true
    unfolding for_each
    folders_keep [] q w h = h
    folders_keep (f ∷ folders) q w h = ground (
      arith,
      internal_keeps f q w h,
      folders_keep folders q (create_internal_directory m u g f w).1,
    )

    folders_there :
        (folders : List Str) (w : W)
        → succeeded (for_each (create_internal_directory m u g) folders w).0 ≡ true
        → AllFolders (for_each (create_internal_directory m u g) folders w).1 folders
    unfolding for_each
    folders_there [] w e = tt
    folders_there (f ∷ folders) w e =
        let w1 = (create_internal_directory m u g f w).1 in
        elim (Result-cases (create_internal_directory m u g f w).0) [
          | inr (x, failed) ↦ absurd (ground (arith, failed))
          | inl (_, made) ↦
              let done : for_each (create_internal_directory m u g) (f ∷ folders) w
                  ≡ for_each (create_internal_directory m u g) folders w1 =
                ground (arith, made) in
              subst (λ r. AllFolders r.1 (f ∷ folders)) (sym done)
                (
                  folders_keep folders (folder_path f) w1 (internal_there f w (ap succeeded made)),
                  folders_there folders w1 (ap (λ r. succeeded r.0) (sym done) ∙ e),
                )
        ]

    pub configure_folders_keep :
        (folders : List Str) (q : Str) (w : W)
        → there w q ≡ true
        → there (configure_folders m u g folders w).1 q ≡ true
    unfolding configure_folders
    configure_folders_keep folders q w h =
        let w1 = (is_directory m m.store_path w).1 in
        let w2 = (m.os.chown m.store_path u g w1).1 in
        let w3 = (m.os.chmod m.store_path 0o700 w2).1 in
        let w4 = (for_each (create_internal_directory m u g) folders w3).1 in
        ground (
          arith,
          ap (λ t. t q) (is_directory_same m.store_path w),
          ap (λ t. t q) (L.chown_same w1 m.store_path u g),
          ap (λ t. t q) (L.chmod_same w2 m.store_path 0o700),
          folders_keep folders q w3,
          L.configure_keeps w4 m.store_path q u g,
        )

    AllFolders-keep :
        (folders : List Str) (w : W)
        → AllFolders w folders
        → AllFolders (m.store_driver.configure_store m.store_path u g w).1 folders
    AllFolders-keep [] w h = tt
    AllFolders-keep (f ∷ folders) w h =
        (L.configure_keeps w m.store_path (folder_path f) u g h.0, AllFolders-keep folders w h.1)

    pub configure_folders-AllFolders :
        (folders : List Str) (w : W)
        → succeeded (configure_folders m u g folders w).0 ≡ true
        → AllFolders (configure_folders m u g folders w).1 folders
    unfolding configure_folders
    configure_folders-AllFolders folders w e =
        let w1 = (is_directory m m.store_path w).1 in
        let w2 = (m.os.chown m.store_path u g w1).1 in
        let w3 = (m.os.chmod m.store_path 0o700 w2).1 in
        let made = for_each (create_internal_directory m u g) folders w3 in
        elim (Result-cases (is_directory m m.store_path w).0) [
          | inr (x, failed) ↦ absurd (ground (arith, failed))
          | inl (_, fine) ↦ elim (Result-cases (m.os.chown m.store_path u g w1).0) [
            | inr (x, failed) ↦ absurd (ground (arith, fine, failed))
            | inl (_, owned) ↦ elim (Result-cases (m.os.chmod m.store_path 0o700 w2).0) [
              | inr (x, failed) ↦ absurd (ground (arith, fine, owned, failed))
              | inl (_, set) ↦ elim (Result-cases made.0) [
                | inr (x, failed) ↦ absurd (ground (arith, fine, owned, set, failed))
                | inl (_, all_made) ↦
                    let done : (configure_folders m u g folders w).1
                        ≡ (m.store_driver.configure_store m.store_path u g made.1).1 =
                      ground (arith, fine, owned, set, all_made) in
                    subst (λ t. AllFolders t folders) (sym done)
                      (AllFolders-keep folders made.1
                        (folders_there folders w3 (ap succeeded all_made)))
              ]
            ]
          ]
        ]
