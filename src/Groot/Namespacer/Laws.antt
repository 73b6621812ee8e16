-- ===== src/Groot/Namespacer/Laws.antt =====
-- `ApplyMappings` on a store that has its mappings.
use mathlib.Core.List.{Permᴰ}
use groot_btrfs.Base.{
  ◌≡◌, sym, ap, ◌∙◌, Bool, true, false, ◌&&◌, List, [], arith, ℕ, inl, inr, Option, none, some,
}
use groot_btrfs.Base.Str.{Str}
use groot_btrfs.Base.Effect.{Result, ok, err, Result-cases, succeeded, is_not_exist}
use groot_btrfs.Groot.{IdMappingSpec}
use groot_btrfs.Groot.Namespacer.{
  StoreNamespacer, Mappings, normalize_mappings, deep_equal, namespace_file_path, write, compare,
  validate_namespace, apply_mappings,
}
use groot_btrfs.Groot.Namespacer.Order.{deep_equal_self, normalize_mappings_perm}

-- `os.IsNotExist` of the error of `os.Stat`, if it has one.
abbrev pub is_missing : {A : Type 0} → Result A → Bool
is_missing (ok a) = false
is_missing (err e) = is_not_exist e

-- `file w p`: the text of the file at the path `p`.
pub record IsFileStore {W : Type 0} (file : W → Str → Option Str) (n : StoreNamespacer W)
    : Type 0 where
  pub stat_same : (w : W) (p : Str) → file (n.os.stat p w).1 ≡ file w
  pub stat_none : (w : W) (p : Str) → file w p ≡ none → is_missing (n.os.stat p w).0 ≡ true
  pub stat_some :
      (w : W) (p text : Str) → file w p ≡ some text → is_missing (n.os.stat p w).0 ≡ false
  pub write_same :
      (w : W) (p text : Str) (mode : ℕ)
      → succeeded (n.os.write_file p text mode w).0 ≡ true
      → file (n.os.write_file p text mode w).1 p ≡ some text
  pub read_some : (w : W) (p text : Str) → file w p ≡ some text → (n.os.read_file p w).0 ≡ ok text

-- The decoder reads what was encoded.
abbrev pub IsCodec : {W : Type 0} → StoreNamespacer W → Type 0
IsCodec n = (m : Mappings) → n.decode (n.encode m) ≡ ok m

module _ {W : Type 0} (file : W → Str → Option Str) (n : StoreNamespacer W) (L : IsFileStore file n)
    (codec : IsCodec n) where
  abbrev path : Str
  path = namespace_file_path n

  abbrev namespace_of : List IdMappingSpec → List IdMappingSpec → Mappings
  namespace_of uids gids = record {
    uid_mappings = normalize_mappings uids;
    gid_mappings = normalize_mappings gids;
  }

  -- A successful write leaves the normal forms in the file.
  write_lem :
      (uids gids : List IdMappingSpec) (w : W)
      → succeeded (write n uids gids w).0 ≡ true
      → file (write n uids gids w).1 path ≡ some (n.encode (namespace_of uids gids))
  unfolding write
  write_lem uids gids w e =
      let w1 = (n.os.write_file path [] 0o666 w).1 in
      let w2 = (n.os.chmod path 0o755 w1).1 in
      elim (Result-cases (n.os.write_file path [] 0o666 w).0) [
        | inr (x, failed) ↦ absurd (ground (arith, failed))
        | inl (_, made) ↦ elim (Result-cases (n.os.chmod path 0o755 w1).0) [
          | inr (x, failed) ↦ absurd (ground (arith, made, failed))
          | inl (_, set) ↦
              ground
                (arith, made, set, L.write_same w2 path (n.encode (namespace_of uids gids)) 0o666)
        ]
      ]

  apply_fresh :
      (uids gids : List IdMappingSpec) (w : W)
      → file w path ≡ none
      → apply_mappings n uids gids w ≡ write n uids gids (n.os.stat path w).1
  unfolding apply_mappings
  apply_fresh uids gids w h = ground (arith, L.stat_none w path h)

  apply_held :
      (uids gids us gs : List IdMappingSpec) (w : W)
      → file w path ≡ some (n.encode (namespace_of uids gids))
      → succeeded (apply_mappings n us gs w).0 ≡ (
          deep_equal (normalize_mappings uids) (normalize_mappings us)
          && deep_equal (normalize_mappings gids) (normalize_mappings gs))
  unfolding apply_mappings validate_namespace compare
  apply_held uids gids us gs w h =
      let text = n.encode (namespace_of uids gids) in
      let w1 = (n.os.stat path w).1 in
      ground (
        arith,
        L.stat_some w path text h,
        L.read_some w1 path text (ap (λ t. t path) (L.stat_same w path) ∙ h),
        codec (namespace_of uids gids),
      )

  -- After the first, successful application to a store with no namespace file, another application
  -- succeeds exactly if its mappings have the same normal forms.
  pub apply_mappings_again :
      (uids gids us gs : List IdMappingSpec) (w : W)
      → file w (namespace_file_path n) ≡ none
      → succeeded (apply_mappings n uids gids w).0 ≡ true
      → succeeded (apply_mappings n us gs (apply_mappings n uids gids w).1).0 ≡ (
          deep_equal (normalize_mappings uids) (normalize_mappings us)
          && deep_equal (normalize_mappings gids) (normalize_mappings gs))
  apply_mappings_again uids gids us gs w h e =
      let w1 = (n.os.stat path w).1 in
      let first = apply_fresh uids gids w h in
      apply_held uids gids us gs (apply_mappings n uids gids w).1 (
        ap (λ r. file r.1 path) first
        ∙ write_lem uids gids w1 (ap (λ r. succeeded r.0) (sym first) ∙ e))

  -- So the same mappings are accepted again, in any order.
  pub apply_mappings_reordered :
      (uids gids us gs : List IdMappingSpec) (w : W)
      → file w (namespace_file_path n) ≡ none
      → succeeded (apply_mappings n uids gids w).0 ≡ true
      → Permᴰ uids us
      → Permᴰ gids gs
      → succeeded (apply_mappings n us gs (apply_mappings n uids gids w).1).0 ≡ true
  apply_mappings_reordered uids gids us gs w h e p q = ground (
    arith,
    apply_mappings_again uids gids us gs w h e,
    normalize_mappings_perm uids us p,
    normalize_mappings_perm gids gs q,
    deep_equal_self (normalize_mappings uids),
    deep_equal_self (normalize_mappings gids),
  )
