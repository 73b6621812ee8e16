-- ===== src/Btrfs/Volumes/Kernel.antt =====
-- What the btrfs driver relies on for its volumes: how the system calls and the commands that it runs
-- change which paths are there, and the number of locks that are held.
use groot_btrfs.Base.{ℕ, ◌≡◌, ◌≢◌, Bool, true, false, List, [], ◌∷◌, ◌++◌}
use groot_btrfs.Base.Str.{Str, codes, has_prefix}
use groot_btrfs.Base.Effect.{Error, err, is_exist, succeeded}
use groot_btrfs.Btrfs.{Driver, drax_arguments}

pub record Files : Type 0 where
  pub there : Str → Bool
  pub held : ℕ

-- `q` is `p` or lies under it.
abbrev pub beneath : Str → Str → Bool
beneath p q = has_prefix (q ++ (b'/' ∷ [])) (p ++ (b'/' ∷ []))

module _ {W : Type 0} (files : W → Files) (d : Driver W) where
  pub record IsKernel : Type 0 where
    pub stat_files : (w : W) (p : Str) → files (d.meta.os.stat p w).1 ≡ files w
    pub stat_there : (w : W) (p : Str) → succeeded (d.meta.os.stat p w).0 ≡ (files w).there p
    pub look_path_files : (w : W) (name : Str) → files (d.commands.look_path name w).1 ≡ files w
    -- Drax destroys a quota group, which is no file.
    pub drax_files :
        (w : W) (path : Str)
        → files
            (d.commands.run d.drax_bin_path
              (drax_arguments d (codes "destroy" ∷ codes "--volume-path" ∷ path ∷ []))
              w).1
          ≡ files w
    pub run_held :
        (w : W) (command : Str) (arguments : List Str)
        → (files (d.commands.run command arguments w).1).held ≡ (files w).held
    -- A subvolume is made or deleted with what lies in it.
    pub create_other :
        (w : W) (to q : Str)
        → beneath to q ≡ false
        → (files
              (d.commands.run d.btrfs_bin_path
                (codes "subvolume" ∷ codes "create" ∷ to ∷ [])
                w).1).there
            q
          ≡ (files w).there q
    pub snapshot_other :
        (w : W) (from to q : Str)
        → beneath to q ≡ false
        → (files
              (d.commands.run d.btrfs_bin_path
                (codes "subvolume" ∷ codes "snapshot" ∷ from ∷ to ∷ [])
                w).1).there
            q
          ≡ (files w).there q
    pub delete_other :
        (w : W) (path q : Str)
        → beneath path q ≡ false
        → (files
              (d.commands.run d.btrfs_bin_path
                (codes "subvolume" ∷ codes "delete" ∷ path ∷ [])
                w).1).there
            q
          ≡ (files w).there q
    -- A file is removed or written alone.
    pub remove_other :
        (w : W) (p q : Str) → q ≢ p → (files (d.meta.os.remove p w).1).there q ≡ (files w).there q
    pub remove_held : (w : W) (p : Str) → (files (d.meta.os.remove p w).1).held ≡ (files w).held
    pub write_other :
        (w : W) (p text q : Str) (mode : ℕ)
        → q ≢ p
        → (files (d.meta.os.write_file p text mode w).1).there q ≡ (files w).there q
    pub write_held :
        (w : W) (p text : Str) (mode : ℕ)
        → (files (d.meta.os.write_file p text mode w).1).held ≡ (files w).held
    -- A rename that fails changes nothing; it fails for an existing file only if there is one.
    pub rename_there :
        (w : W) (from to : Str)
        → succeeded (d.meta.os.rename from to w).0 ≡ true
        → (files (d.meta.os.rename from to w).1).there to ≡ true
    pub rename_other :
        (w : W) (from to q : Str)
        → beneath from q ≡ false
        → beneath to q ≡ false
        → (files (d.meta.os.rename from to w).1).there q ≡ (files w).there q
    pub rename_failed :
        (w : W) (from to : Str)
        → succeeded (d.meta.os.rename from to w).0 ≡ false
        → files (d.meta.os.rename from to w).1 ≡ files w
    pub rename_exist :
        (w : W) (from to : Str) (e : Error)
        → (d.meta.os.rename from to w).0 ≡ err e
        → is_exist e ≡ true
        → (files w).there to ≡ true
    pub rename_held :
        (w : W) (from to : Str) → (files (d.meta.os.rename from to w).1).held ≡ (files w).held
