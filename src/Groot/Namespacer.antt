-- ===== src/Groot/Namespacer.antt =====
-- groot/store_namespacer.go. Package `encoding/json` and `fmt.Sscanf` with its format are
-- parameters.
pub mod Order
pub mod Laws
use groot_btrfs.Base.{
  Bool, true, false, not, ◌&&◌, List, [], ◌∷◌, ◌++◌, map, if◌then◌else◌, ltb, ◌==◌,
}
use groot_btrfs.Base.Int.{ℤ}
use groot_btrfs.Base.Str.{Str, codes, eqb}
use groot_btrfs.Base.Decimal.{itoa}
use groot_btrfs.Base.FilePath.{join}
use groot_btrfs.Base.Os.{Os}
use groot_btrfs.Base.Effect.{
  M, ⊤, Error, Result, ok, err, wrap, is_not_exist, pure, lift, ◌>>=◌, ◌>>◌, wrapping,
}
use groot_btrfs.Groot.{IdMappingSpec, IdMappings}

-- `mappings`
pub record Mappings : Type 0 where
  pub uid_mappings : List Str
  pub gid_mappings : List Str

-- `scan` reads the three numbers of the format `%d:%d:%d`.
pub record StoreNamespacer (W : Type 0) : Type 0 where
  pub store_path : Str
  pub os : Os W
  pub encode : Mappings → Str
  pub decode : Str → Result Mappings
  pub scan : Str → Result (ℤ × ℤ × ℤ)

-- The order of `sort.Strings`, by bytes.
unfoldable pub leb_str : Str → Str → Bool
leb_str [] t = true
leb_str (a ∷ s) [] = false
leb_str (a ∷ s) (b ∷ t) = let rest = leb_str s t in if a == b then rest else ltb a b

unfoldable pub insert_str : Str → List Str → List Str
unfolding leb_str
insert_str s [] = s ∷ []
insert_str s (t ∷ ts) = let rest = insert_str s ts in if leb_str s t then s ∷ t ∷ ts else t ∷ rest

-- `sort.Strings`
unfoldable pub sort_strings : List Str → List Str
unfolding insert_str
sort_strings [] = []
sort_strings (s ∷ ss) = insert_str s (sort_strings ss)

-- `reflect.DeepEqual` on lists that are there.
unfoldable pub deep_equal : List Str → List Str → Bool
unfolding eqb
deep_equal [] [] = true
deep_equal (s ∷ ss) (t ∷ ts) = eqb s t && deep_equal ss ts
deep_equal _ _ = false

unfoldable pub mapping_text : IdMappingSpec → Str
unfolding itoa
mapping_text mapping =
    itoa mapping.namespace_id
    ++ (codes ":" ++ (itoa mapping.host_id ++ (codes ":" ++ itoa mapping.size)))

unfoldable pub normalize_mappings : List IdMappingSpec → List Str
unfolding mapping_text sort_strings
normalize_mappings mappings = sort_strings (map mapping_text mappings)

module _ {W : Type 0} (n : StoreNamespacer W) where
  unfoldable pub namespace_file_path : Str
  unfolding join
  namespace_file_path = join (n.store_path ∷ codes "meta" ∷ codes "namespace.json" ∷ [])

  -- The file is created empty, and written after its mode is set.
  unfoldable pub write : List IdMappingSpec → List IdMappingSpec → M W ⊤
  unfolding namespace_file_path normalize_mappings
  write uid_mappings gid_mappings = do
    wrapping (codes "creating namespace file") (n.os.write_file namespace_file_path [] 0o666)
    wrapping (codes "failed to chmod namespace file") (n.os.chmod namespace_file_path 0o755)
    n.os.write_file namespace_file_path
        (n.encode (record {
          uid_mappings = normalize_mappings uid_mappings;
          gid_mappings = normalize_mappings gid_mappings;
        }))
        0o666

  -- What the file holds, against what is provided.
  unfoldable pub compare : Mappings → List IdMappingSpec → List IdMappingSpec → Result ⊤
  unfolding deep_equal normalize_mappings
  compare namespace uid_mappings gid_mappings =
      if not (deep_equal namespace.uid_mappings (normalize_mappings uid_mappings))
      then err (
          Error.new
            (codes "provided UID mappings do not match those already configured in the store"))
      else if not (deep_equal namespace.gid_mappings (normalize_mappings gid_mappings))
      then err (
          Error.new
            (codes "provided GID mappings do not match those already configured in the store"))
      else ok tt

  unfoldable pub validate_namespace : Str → List IdMappingSpec → List IdMappingSpec → M W ⊤
  unfolding compare
  validate_namespace path uid_mappings gid_mappings = do
    text ← wrapping (codes "opening namespace file") (n.os.read_file path)
    namespace ← wrapping (codes "reading namespace file " ++ path) (lift (n.decode text))
    lift (compare namespace uid_mappings gid_mappings)

  unfoldable pub apply_mappings : List IdMappingSpec → List IdMappingSpec → M W ⊤
  unfolding write validate_namespace namespace_file_path is_not_exist
  apply_mappings uid_mappings gid_mappings w =
      let (r, w1) = n.os.stat namespace_file_path w in
      let checked = validate_namespace namespace_file_path uid_mappings gid_mappings w1 in
      elim r [
        | ok _ ↦ checked
        | err e ↦ if is_not_exist e then write uid_mappings gid_mappings w1 else checked
      ]

  unfoldable pub parse_id_mappings : List Str → Result (List IdMappingSpec)
  parse_id_mappings [] = ok []
  parse_id_mappings (v ∷ arguments) = elim (n.scan v) [
    | err e ↦ err e
    | ok (namespace_id, host_id, size) ↦ elim (parse_id_mappings arguments) [
      | err e ↦ err e
      | ok mappings ↦
          ok (record { host_id = host_id; namespace_id = namespace_id; size = size } ∷ mappings)
    ]
  ]

  unfoldable pub read : M W IdMappings
  unfolding namespace_file_path parse_id_mappings
  read = do
    text ← wrapping (codes "reading namespace file") (n.os.read_file namespace_file_path)
    from_file ← wrapping (codes "invalid namespace file") (lift (n.decode text))
    uids ←
        wrapping (codes "invalid uid mappings format")
          (lift (parse_id_mappings from_file.uid_mappings))
    gids ←
        wrapping (codes "invalid gid mappings format")
          (lift (parse_id_mappings from_file.gid_mappings))
    pure (record { uid_mappings = uids; gid_mappings = gids })
