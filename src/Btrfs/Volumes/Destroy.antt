-- ===== src/Btrfs/Volumes/Destroy.antt =====
-- Which paths the deletion of a subvolume leaves.
use groot_btrfs.Base.{◌≡◌, sym, ap, ◌∙◌, Bool, true, false, [], ◌∷◌, arith, inl, inr, ◌⊎◌}
use groot_btrfs.Base.Str.{Str, codes}
use groot_btrfs.Base.Effect.{M, ◌>>=◌, ◌>>◌, pure, Result-cases, succeeded}
use groot_btrfs.Btrfs.{
  Driver, drax_arguments, drax_in_path, has_suid, start_drax, start_checked, run_drax,
  destroy_qgroup, delete_subvolume, destroy_btrfs_volume,
}
use groot_btrfs.Btrfs.Volumes.Kernel.{Files, beneath, IsKernel}

-- What `btrfs subvolume delete` promises of the subvolume.
abbrev pub DeletesGone : {W : Type 0} → (W → Files) → Driver W → Type 0
DeletesGone {W} files d =
    (w : W) (path : Str)
    → let (output, w1) =
        d.commands.run d.btrfs_bin_path (codes "subvolume" ∷ codes "delete" ∷ path ∷ []) w in
      succeeded output.ended ≡ true → (files w1).there path ≡ false

module _ {W : Type 0} (files : W → Files) (d : Driver W) (K : IsKernel files d) where
  start_drax_files :
      (path : Str) (w : W)
      → files
          (start_drax d
            (drax_arguments d (codes "destroy" ∷ codes "--volume-path" ∷ path ∷ []))
            w).1
        ≡ files w
  unfolding start_drax
  start_drax_files path w = ground (arith, K.drax_files w path)

  has_suid_files : (w : W) → files (has_suid d w).1 ≡ files w
  unfolding has_suid
  has_suid_files w =
      let (r, w1) = d.commands.look_path d.drax_bin_path w in
      elim (Result-cases r) [
        | inr (x, failed) ↦ ground (arith, failed, K.look_path_files w d.drax_bin_path)
        | inl (path, found) ↦
            ground (arith, found, K.look_path_files w d.drax_bin_path, K.stat_files w1 path)
      ]

  start_checked_files :
      (path : Str) (suid : Bool) (w : W)
      → files
          (start_checked d
            (drax_arguments d (codes "destroy" ∷ codes "--volume-path" ∷ path ∷ []))
            suid
            w).1
        ≡ files w
  unfolding start_checked
  start_checked_files path suid w = ground (arith, start_drax_files path w)

  run_drax_files :
      (path : Str) (w : W)
      → files
          (run_drax d (drax_arguments d (codes "destroy" ∷ codes "--volume-path" ∷ path ∷ [])) w).1
        ≡ files w
  unfolding run_drax drax_in_path
  run_drax_files path w =
      let arguments = drax_arguments d (codes "destroy" ∷ codes "--volume-path" ∷ path ∷ []) in
      let (r, w1) = d.commands.look_path d.drax_bin_path w in
      let looked = K.look_path_files w d.drax_bin_path in
      let (s, w2) = has_suid d w1 in
      let asked = has_suid_files w1 in
      elim (Result-cases r) [
        | inr (x, failed) ↦ ground (arith, failed, looked)
        | inl (found_at, found) ↦
            let e : run_drax d arguments w ≡ (has_suid d >>= start_checked d arguments) w1 =
              ground (arith, found) in
            elim (Result-cases s) [
              | inr (x, failed) ↦ ground (arith, e, failed, looked, asked)
              | inl (suid, known) ↦
                  ground (arith, e, known, start_checked_files path suid w2, asked, looked)
            ]
      ]

  done_files : (m : M W Str) (w : W) → files ((m >> pure tt) w).1 ≡ files (m w).1
  done_files m w = elim (Result-cases (m w).0) [
    | inl (_, fine) ↦ ground (arith, fine)
    | inr (x, failed) ↦ ground (arith, failed)
  ]

  destroy_qgroup_files : (path : Str) (w : W) → files (destroy_qgroup d path w).1 ≡ files w
  unfolding destroy_qgroup
  destroy_qgroup_files path w =
      let arguments = drax_arguments d (codes "destroy" ∷ codes "--volume-path" ∷ path ∷ []) in
      done_files (run_drax d arguments) w ∙ run_drax_files path w

  delete_subvolume_other :
      (path q : Str) (w : W)
      → beneath path q ≡ false
      → (files (delete_subvolume d path w).1).there q ≡ (files w).there q
  unfolding delete_subvolume
  delete_subvolume_other path q w out = ground (arith, K.delete_other w path q out)

  delete_subvolume_held :
      (path : Str) (w : W) → (files (delete_subvolume d path w).1).held ≡ (files w).held
  unfolding delete_subvolume
  delete_subvolume_held path w =
      ground (arith, K.run_held w d.btrfs_bin_path (codes "subvolume" ∷ codes "delete" ∷ path ∷ []))

  -- A path that is there is deleted once its quota group is; one that is not changes nothing.
  destroy_btrfs_volume_cases :
      (path : Str) (w : W)
      → (((files w).there path ≡ false) × (files (destroy_btrfs_volume d path w).1 ≡ files w))
        ⊎ ((w2 : W) × (files w2 ≡ files w)
            × (destroy_btrfs_volume d path w ≡ delete_subvolume d path w2))
  unfolding destroy_btrfs_volume
  destroy_btrfs_volume_cases path w =
      let (r, w1) = d.meta.os.stat path w in
      let seen = K.stat_files w path in
      elim (Result-cases r) [
        | inr (x, failed) ↦
            inl (sym (K.stat_there w path) ∙ ap succeeded failed, ground (arith, failed, seen))
        | inl (_, found) ↦ inr (
          (destroy_qgroup d path w1).1,
          destroy_qgroup_files path w1 ∙ seen,
          ground (arith, found),
        )
      ]

  -- The deletion of a subvolume leaves what is not in it.
  pub destroy_btrfs_volume_other :
      (path q : Str) (w : W)
      → beneath path q ≡ false
      → (files (destroy_btrfs_volume d path w).1).there q ≡ (files w).there q
  destroy_btrfs_volume_other path q w out = elim (destroy_btrfs_volume_cases path w) [
    | inl (_, same) ↦ ap (λ f. f.there q) same
    | inr (w2, same, e) ↦
        ap (λ o. (files o.1).there q) e
        ∙ delete_subvolume_other path q w2 out
        ∙ ap (λ f. f.there q) same
  ]

  pub destroy_btrfs_volume_held :
      (path : Str) (w : W) → (files (destroy_btrfs_volume d path w).1).held ≡ (files w).held
  destroy_btrfs_volume_held path w = elim (destroy_btrfs_volume_cases path w) [
    | inl (_, same) ↦ ap (λ f. f.held) same
    | inr (w2, same, e) ↦
        ap (λ o. (files o.1).held) e ∙ delete_subvolume_held path w2 ∙ ap (λ f. f.held) same
  ]

  pub destroy_btrfs_volume_missing :
      (path : Str) (w : W)
      → (files w).there path ≡ false
      → files (destroy_btrfs_volume d path w).1 ≡ files w
  unfolding destroy_btrfs_volume
  destroy_btrfs_volume_missing path w missing = elim (Result-cases (d.meta.os.stat path w).0) [
    | inr (x, failed) ↦ ground (arith, failed, K.stat_files w path)
    | inl (_, found) ↦ absurd (cc (ap succeeded found, missing, K.stat_there w path))
  ]

  deleted_gone :
      (path : Str) (w : W)
      → DeletesGone files d
      → succeeded (delete_subvolume d path w).0 ≡ true
      → (files (delete_subvolume d path w).1).there path ≡ false
  unfolding delete_subvolume
  deleted_gone path w gone fine = ground (arith, gone w path)

  -- A destruction that succeeds has deleted the subvolume.
  pub destroy_btrfs_volume_gone :
      (path : Str) (w : W)
      → DeletesGone files d
      → succeeded (destroy_btrfs_volume d path w).0 ≡ true
      → (files (destroy_btrfs_volume d path w).1).there path ≡ false
  unfolding destroy_btrfs_volume
  destroy_btrfs_volume_gone path w gone fine =
      let w1 = (d.meta.os.stat path w).1 in
      let w2 = (destroy_qgroup d path w1).1 in
      elim (Result-cases (d.meta.os.stat path w).0) [
        | inr (x, failed) ↦ absurd (ground (arith, failed, fine))
        | inl (_, found) ↦
            let e : destroy_btrfs_volume d path w ≡ delete_subvolume d path w2 =
              ground (arith, found) in
            ap (λ o. (files o.1).there path) e
            ∙ deleted_gone path w2 gone (sym (ap (λ o. succeeded o.0) e) ∙ fine)
      ]
