-- ===== src/Store/VolumeMeta/Laws.antt =====
-- The metadata of a volume before and after it is marked.
use groot_btrfs.Base.{
  ◌≡◌, refl, ◌∙◌, sym, ap, true, false, [], ◌∷◌, ◌++◌, arith, ℕ, inl, inr, Option, some,
}
use groot_btrfs.Base.Str.{Str, codes, replace_first, contains_str, has_prefix, drop, size}
use groot_btrfs.Base.Str.Laws.{has_prefix-nil}
use groot_btrfs.Base.FilePath.{join}
use groot_btrfs.Base.Effect.{ok, Result-cases, succeeded}
use groot_btrfs.Puller.{VolumeMeta}
use groot_btrfs.Gc.{gc_prefix}
use groot_btrfs.Store.{meta_dir_name}
use groot_btrfs.Store.VolumeMeta.{MetaFiles, volume_meta_file_path, write_volume_meta, volume_size}

-- `file w p`: the text of the file at the path `p`.
pub record IsFileStore {W : Type 0} (file : W → Str → Option Str) (n : MetaFiles W) : Type 0 where
  pub write_same :
      (w : W) (p text : Str) (mode : ℕ)
      → succeeded (n.os.write_file p text mode w).0 ≡ true
      → file (n.os.write_file p text mode w).1 p ≡ some text
  pub read_some : (w : W) (p text : Str) → file w p ≡ some text → (n.os.read_file p w).0 ≡ ok text

-- The decoder reads what was encoded.
abbrev pub IsCodec : {W : Type 0} → MetaFiles W → Type 0
IsCodec n = (m : VolumeMeta) → n.decode (n.encode m) ≡ ok m

unmarked_same :
    (s : Str) → contains_str s (codes "gc.") ≡ false → replace_first s (codes "gc.") [] ≡ s
unfolding replace_first contains_str
unmarked_same [] h = refl
unmarked_same (c ∷ s) h = ground (arith, unmarked_same s)

marked_same : (s : Str) → replace_first (gc_prefix ++ s) (codes "gc.") [] ≡ s
unfolding replace_first has_prefix drop size
marked_same s = ground (arith, has_prefix-nil s)

module _ {W : Type 0} (file : W → Str → Option Str) (n : MetaFiles W) (L : IsFileStore file n)
    (codec : IsCodec n) where
  marked_path :
      (id : Str)
      → contains_str id (codes "gc.") ≡ false
      → volume_meta_file_path n (gc_prefix ++ id) ≡ volume_meta_file_path n id
  unfolding volume_meta_file_path
  marked_path id h =
      ap (λ s. join (n.store_path ∷ meta_dir_name ∷ (codes "volume-" ++ s) ∷ []))
        (marked_same id ∙ sym (unmarked_same id h))

  written :
      (id : Str) (m : VolumeMeta) (w : W)
      → succeeded (write_volume_meta n id m w).0 ≡ true
      → file (write_volume_meta n id m w).1 (volume_meta_file_path n id) ≡ some (n.encode m)
  unfolding write_volume_meta
  written id m w e =
      let p = volume_meta_file_path n id in
      let w1 = (n.os.write_file p [] 0o666 w).1 in
      elim (Result-cases (n.os.write_file p [] 0o666 w).0) [
        | inr (x, failed) ↦ absurd (ground (arith, failed))
        | inl (_, made) ↦ ground (arith, made, L.write_same w1 p (n.encode m) 0o666)
      ]

  size_found :
      (id : Str) (m : VolumeMeta) (w : W)
      → file w (volume_meta_file_path n id) ≡ some (n.encode m)
      → (volume_size n id w).0 ≡ ok m.size
  unfolding volume_size
  size_found id m w h =
      ground (arith, L.read_some w (volume_meta_file_path n id) (n.encode m) h, codec m)

  -- With a decoder that reads what was encoded: after the metadata of a volume, whose id has no
  -- "gc.", is written with success, its size is found under its id and under the marked id.
  pub volume_size_marked :
      (id : Str) (m : VolumeMeta) (w : W)
      → contains_str id (codes "gc.") ≡ false
      → succeeded (write_volume_meta n id m w).0 ≡ true
      → ((volume_size n id (write_volume_meta n id m w).1).0 ≡ ok m.size)
        × ((volume_size n (gc_prefix ++ id) (write_volume_meta n id m w).1).0 ≡ ok m.size)
  volume_size_marked id m w h e =
      let t = (write_volume_meta n id m w).1 in
      let there = written id m w e in
      (
        size_found id m t there,
        size_found (gc_prefix ++ id) m t (ap (file t) (marked_path id h) ∙ there),
      )
