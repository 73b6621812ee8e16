-- ===== src/Btrfs/Volumes/Clean.antt =====
-- The btrfs driver's volumes as the garbage collector sees them.
use groot_btrfs.Base.{
  ℕ, ◌≡◌, ◌≢◌, refl, sym, ap, ◌∙◌, true, false, List, [], ◌∷◌, ◌++◌, arith, inl, inr, Bool-cases,
}
use mathlib.Core.List.{append_assoc}
use groot_btrfs.Base.Str.{Str, eqb, eqb_iff}
use groot_btrfs.Base.FilePath.Laws.{IsName, is_name, is_name-IsName, IsName-is_name}
use groot_btrfs.Base.Effect.{ok, Result-cases, succeeded, is_exist}
use groot_btrfs.Gc.{GarbageCollector}
use groot_btrfs.Gc.View as Collector
use groot_btrfs.Gc.View.{IsWriter}
use groot_btrfs.Gc.Progress.{root_of, IsProgress}
use groot_btrfs.Store.VolumeMeta.{volume_meta_file_path}
use groot_btrfs.Btrfs.{Driver}
use groot_btrfs.Btrfs.Volumes.{path_of, volume_path, move_volume, destroy_volume, volume_driver}
use groot_btrfs.Btrfs.Volumes.Kernel.{Files, beneath, IsKernel}
use groot_btrfs.Btrfs.Volumes.Paths.{volumes_path, path_of-at, path_of-apart}
use groot_btrfs.Btrfs.Volumes.Destroy.{DeletesGone, destroy_btrfs_volume_gone}
use groot_btrfs.Btrfs.Volumes.Refine.{
  volumes_of, move_volume_files, destroy_volume_other, destroy_volume_self,
}

module _ {W : Type 0} (files : W → Files) (images : W → List Str) (deps : W → Str → List Str)
    (d : Driver W) where
  -- What a rename takes away and what it leaves, what the deletion of a subvolume takes away, and that
  -- a look at a path leaves the images and their dependencies alone.
  pub record IsTidy : Type 0 where
    pub rename_keeps :
        (w : W) (from to q : Str)
        → beneath from q ≡ false
        → (files w).there q ≡ true
        → (files (d.meta.os.rename from to w).1).there q ≡ true
    pub rename_from :
        (w : W) (from to : Str)
        → succeeded (d.meta.os.rename from to w).0 ≡ true
        → (files w).there from ≡ true
    pub rename_gone :
        (w : W) (from to : Str)
        → (files w).there to ≡ false
        → succeeded (d.meta.os.rename from to w).0 ≡ true
        → (files (d.meta.os.rename from to w).1).there from ≡ false
    pub delete_gone : DeletesGone files d
    pub stat_images : (w : W) (p : Str) → images (d.meta.os.stat p w).1 ≡ images w
    pub stat_deps : (w : W) (p : Str) → deps (d.meta.os.stat p w).1 ≡ deps w

  -- The collector's view of the driver's volumes, which are the plain names whose paths are there.
  abbrev pub gc_view : W → Collector.View
  gc_view w = record { has = (volumes_of d (files w)).has; images = images w; deps = deps w }

  module _ (K : IsKernel files d) (T : IsTidy) (c : ℕ) (p : Str)
      (rooted : d.meta.store_path ≡ c ∷ p) where
    abbrev root : Str
    root = root_of (volumes_path (c ∷ p))

    path_of-root : (v : Str) → IsName v → path_of d v ≡ root ++ v
    path_of-root v n =
        path_of-at d c p rooted v n ∙ sym (append_assoc (volumes_path (c ∷ p)) (b'/' ∷ []) v)

    volume_path_view : (w : W) (v : Str) → gc_view (volume_path d v w).1 ≡ gc_view w
    unfolding volume_path
    volume_path_view w v =
        let path = path_of d v in
        let e : (volume_path d v w).1 ≡ (d.meta.os.stat path w).1 = ground arith in
        ap gc_view e ∙ cc (K.stat_files w path, T.stat_images w path, T.stat_deps w path)

    volume_path_eq :
        (w : W) (v path : Str) → IsName v → (volume_path d v w).0 ≡ ok path → path ≡ root ++ v
    unfolding volume_path
    volume_path_eq w v path n e = ground (arith, path_of-root v n)

    move_keeps :
        (w : W) (u to v : Str)
        → IsName u
        → IsName v
        → v ≢ u
        → (gc_view w).has v ≡ true
        → (gc_view (move_volume d (root ++ u) to w).1).has v ≡ true
    move_keeps w u to v n m other h =
        let from = path_of d u in
        let same : (move_volume d (root ++ u) to w).1 ≡ (d.meta.os.rename from to w).1 =
          ap (λ q. (move_volume d q to w).1) (sym (path_of-root u n))
          ∙ move_volume_files files d K c p rooted w from to in
        let kept =
          T.rename_keeps w from to (path_of d v) (path_of-apart d c p rooted v u m n other)
            (ground (arith, h)) in
        ap (λ t. (gc_view t).has v) same ∙ ground (arith, kept, IsName-is_name v m)

    -- Over a kernel that keeps its promises, the btrfs driver is one as the collector needs it.
    pub volume_driver-IsWriter :
        (g : GarbageCollector W)
        → IsWriter gc_view root (record g { volume_driver = volume_driver d })
    volume_driver-IsWriter g = record {
      has_name = λ w v h. is_name-IsName v (ground (arith, h));
      path_view = volume_path_view;
      path_eq = volume_path_eq;
      move_keeps = move_keeps;
      destroy_keeps =
          λ w id v n other h. destroy_volume_other files d K c p rooted w id v n other ∙ h;
    }

    move_gone :
        (w : W) (u to : Str)
        → IsName u
        → IsName to
        → (gc_view w).has to ≡ false
        → succeeded (move_volume d (path_of d u) (path_of d to) w).0 ≡ true
        → (gc_view (move_volume d (path_of d u) (path_of d to) w).1).has u ≡ false
    unfolding move_volume
    move_gone w u to n m free fine =
        let from = path_of d u in
        let target = path_of d to in
        let missing : (files w).there target ≡ false = ground (arith, free, IsName-is_name to m) in
        elim (Result-cases (d.meta.os.rename from target w).0) [
          | inl (_, moved) ↦
              ground (arith, moved, T.rename_gone w from target missing (ap succeeded moved))
          | inr (x, failed) ↦ elim (Bool-cases (is_exist x)) [
            | inl exists ↦ absurd (cc (K.rename_exist w from target x failed exists, missing))
            | inr other ↦ absurd (ground (arith, failed, other, fine))
          ]
        ]

    move_fresh :
        (w : W) (u to v : Str)
        → IsName u
        → IsName to
        → v ≢ to
        → (gc_view w).has v ≡ false
        → (gc_view (move_volume d (path_of d u) (path_of d to) w).1).has v ≡ false
    move_fresh w u to v n m other absent =
        let from = path_of d u in
        let target = path_of d to in
        let w1 = (d.meta.os.rename from target w).1 in
        ap (λ t. (gc_view t).has v) (move_volume_files files d K c p rooted w from target)
        ∙ elim (Bool-cases (is_name v)) [
          | inr odd ↦ rw odd refl
          | inl named ↦
              let missing : (files w).there (path_of d v) ≡ false = ground (arith, absent, named) in
              let k = is_name-IsName v named in
              elim (Bool-cases (eqb v u)) [
                | inr apart ↦
                    let kept =
                      K.rename_other w from target (path_of d v)
                        (path_of-apart d c p rooted v u k n (λ e. cc ((eqb_iff v u).1 e, apart)))
                        (path_of-apart d c p rooted v to k m other) in
                    ground (arith, kept, missing)
                | inl same ↦
                    let e : path_of d v ≡ from = ap (path_of d) ((eqb_iff v u).0 same) in
                    let gone : (files w).there from ≡ false =
                      ap (files w).there (sym e) ∙ missing in
                    elim (Bool-cases (succeeded (d.meta.os.rename from target w).0)) [
                      | inl fine ↦ absurd (cc (T.rename_from w from target fine, gone))
                      | inr failed ↦
                          let kept : (files w1).there (path_of d v) ≡ false =
                            ap (λ f. f.there (path_of d v)) (K.rename_failed w from target failed)
                            ∙ missing in
                          ground (arith, kept)
                    ]
              ]
        ]

    destroy_gone :
        (w : W) (id : Str)
        → succeeded (destroy_volume d id w).0 ≡ true
        → (gc_view (destroy_volume d id w).1).has id ≡ false
    unfolding destroy_volume
    destroy_gone w id fine =
        let w1 = (d.meta.os.remove (volume_meta_file_path d.meta id) w).1 in
        let gone = destroy_btrfs_volume_gone files d K (path_of d id) w1 T.delete_gone fine in
        ground (arith, gone)

    destroy_fresh :
        (w : W) (id v : Str)
        → IsName id
        → (gc_view w).has v ≡ false
        → (gc_view (destroy_volume d id w).1).has v ≡ false
    destroy_fresh w id v n absent = elim (Bool-cases (eqb v id)) [
      | inr other ↦
          destroy_volume_other files d K c p rooted w id v n (λ e. cc ((eqb_iff v id).1 e, other))
          ∙ absent
      | inl same ↦
          let e : v ≡ id = (eqb_iff v id).0 same in
          ap (λ t. (gc_view (destroy_volume d id w).1).has t) e
          ∙ destroy_volume_self files d K c p rooted w id n
              (ap (λ t. (gc_view w).has t) (sym e) ∙ absent)
    ]

    pub volume_driver-IsProgress :
        (g : GarbageCollector W)
        → IsProgress gc_view (volumes_path (c ∷ p)) (record g { volume_driver = volume_driver d })
    volume_driver-IsProgress g = record {
      move_gone = λ w u to n m other free.
          rw (sym (path_of-root u n), sym (path_of-root to m)) (move_gone w u to n m free);
      move_fresh = λ w u to v n m other absent.
          rw (sym (path_of-root u n), sym (path_of-root to m))
            (move_fresh w u to v n m other absent);
      destroy_gone = λ w id n fine. destroy_gone w id fine;
      destroy_fresh = destroy_fresh;
    }
