-- ===== src/Btrfs/Volumes/Paths.antt =====
-- The paths of volumes and of their metadata.
use groot_btrfs.Base.{ℕ, ◌≡◌, ◌≢◌, refl, sym, ap, ◌∙◌, true, false, [], ◌∷◌, ◌++◌, arith}
use mathlib.Core.List.{append_assoc}
use groot_btrfs.Base.Str.{Str, codes, eqb, eqb_iff, has_prefix, append_cancel, replace_first}
use groot_btrfs.Base.Str.Laws.{
  slash_free, slash_free-replace_first, has_prefix_cancel, has_prefix-names,
}
use groot_btrfs.Base.FilePath.{join}
use groot_btrfs.Base.FilePath.Laws.{IsName, directory, join-name, join-names}
use groot_btrfs.Store.{volumes_dir_name, meta_dir_name}
use groot_btrfs.Store.VolumeMeta.{volume_meta_file_path}
use groot_btrfs.Puller.Store.{at}
use groot_btrfs.Btrfs.{Driver}
use groot_btrfs.Btrfs.Volumes.{path_of}
use groot_btrfs.Btrfs.Volumes.Kernel.{beneath}

volumes-IsName : IsName volumes_dir_name
unfolding eqb
volumes-IsName = record { no_slash = refl; full = refl; no_dot = refl; no_dots = refl }

meta-IsName : IsName meta_dir_name
unfolding eqb
meta-IsName = record { no_slash = refl; full = refl; no_dot = refl; no_dots = refl }

file-IsName : (s : Str) → slash_free s ≡ true → IsName (codes "volume-" ++ s)
unfolding eqb
file-IsName s h = record { no_slash = h; full = refl; no_dot = refl; no_dots = refl }

-- The directory of the volumes.
abbrev pub volumes_path : Str → Str
volumes_path store_path = join (store_path ∷ volumes_dir_name ∷ [])

at_apart :
    (store v id : Str) → IsName v → IsName id → v ≢ id → beneath (at store id) (at store v) ≡ false
unfolding has_prefix
at_apart store v id n m other =
    let split = λ (x : Str). append_assoc store (b'/' ∷ x) (b'/' ∷ []) in
    let cut : beneath (at store id) (at store v)
        ≡ has_prefix (store ++ (b'/' ∷ (v ++ (b'/' ∷ []))))
            (store ++ (b'/' ∷ (id ++ (b'/' ∷ [])))) =
      cc (split v, split id) in
    cut
    ∙ has_prefix_cancel store (b'/' ∷ (v ++ (b'/' ∷ []))) (b'/' ∷ (id ++ (b'/' ∷ [])))
    ∙ has_prefix-names v id n.no_slash m.no_slash
    ∙ ground (arith, eqb_iff v id)

module _ {W : Type 0} (d : Driver W) (c : ℕ) (p : Str) (rooted : d.meta.store_path ≡ c ∷ p) where
  pub path_of-at : (id : Str) → IsName id → path_of d id ≡ at (volumes_path (c ∷ p)) id
  path_of-at id n =
      ap (λ s. join (s ∷ volumes_dir_name ∷ id ∷ [])) rooted
      ∙ join-names c p volumes_dir_name id volumes-IsName n

  -- The volume of one name lies apart from that of another.
  pub path_of-apart :
      (v id : Str) → IsName v → IsName id → v ≢ id → beneath (path_of d id) (path_of d v) ≡ false
  path_of-apart v id n m other =
      cc (path_of-at v n, path_of-at id m, at_apart (volumes_path (c ∷ p)) v id n m other)

  -- No volume is a file of metadata.
  pub path_of-meta :
      (v id : Str) → IsName v → IsName id → path_of d v ≢ volume_meta_file_path d.meta id
  unfolding volume_meta_file_path
  path_of-meta v id n m e =
      let file = codes "volume-" ++ replace_first id (codes "gc.") [] in
      let named =
        file-IsName (replace_first id (codes "gc.") [])
          (slash_free-replace_first id (codes "gc.") m.no_slash) in
      let there : path_of d v ≡ directory (c ∷ p) ++ (volumes_dir_name ++ (b'/' ∷ v)) =
        path_of-at v n
        ∙ ap (λ s. s ++ (b'/' ∷ v)) (join-name c p volumes_dir_name volumes-IsName)
        ∙ append_assoc (directory (c ∷ p)) volumes_dir_name (b'/' ∷ v) in
      let here : volume_meta_file_path d.meta id
          ≡ directory (c ∷ p) ++ (meta_dir_name ++ (b'/' ∷ file)) =
        ap (λ s. join (s ∷ meta_dir_name ∷ file ∷ [])) rooted
        ∙ join-names c p meta_dir_name file meta-IsName named
        ∙ ap (λ s. s ++ (b'/' ∷ file)) (join-name c p meta_dir_name meta-IsName)
        ∙ append_assoc (directory (c ∷ p)) meta_dir_name (b'/' ∷ file) in
      absurd (
        ground (
          arith,
          append_cancel (directory (c ∷ p)) (volumes_dir_name ++ (b'/' ∷ v))
              (meta_dir_name ++ (b'/' ∷ file)) (sym there ∙ e ∙ here),
        ))
