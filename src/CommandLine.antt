-- ===== src/CommandLine.antt =====
-- What the commands do besides wiring the parts together: commands/helpers.go,
-- commands/idfinder/idfinder.go, commands/generate_metadata.go, parts of commands/create.go, and
-- `CalculatePathSize` of store/filesystems/common.go.
--
-- The scanner of fmt, strconv, regexp, and the lookup of users are parameters.
pub mod Request
use groot_btrfs.Base.{
  Bool, true, false, not, ◌&&◌, List, [], ◌∷◌, ◌++◌, Option, none, some, if◌then◌else◌,
}
use groot_btrfs.Base.Int.{ℤ, pos}
use groot_btrfs.Base.Str.{Str, codes, eqb, has_prefix}
use groot_btrfs.Base.Str.Split.{split_on, first_part}
use groot_btrfs.Base.FilePath.{join}
use groot_btrfs.Base.Os.{Os}
use groot_btrfs.Base.Commands.{Commands}
use groot_btrfs.Base.Effect.{
  M, ⊤, Error, Result, ok, err, wrap, cause, is_not_exist, fatal, for_each, pure, lift, ◌>>=◌,
}
use groot_btrfs.Groot.{Url, IdMappingSpec}
use groot_btrfs.Puller.{VolumeMeta}
use groot_btrfs.Store.{image_dir_name}
use groot_btrfs.Config.{Config, Create}

-- `scan_mapping` is `fmt.Sscanf` with "%d:%d:%d": the namespace's id, the host's id and the size.
-- `find_submatch` is the one group of a regular expression in a text, if it matches; `fields` is
-- `strings.Fields`; `user_id` and `group_id` are the lookups of a user and a group by name.
pub record Environment (W : Type 0) : Type 0 where
  pub os : Os W
  pub commands : Commands W
  pub scan_mapping : Str → Result (ℤ × ℤ × ℤ)
  pub atoi : Str → Result ℤ
  pub parse_int : Str → Result ℤ
  pub fields : Str → List Str
  pub find_submatch : Str → Str → Option Str
  pub user_id : Str → M W ℤ
  pub group_id : Str → M W ℤ

-- The driver's operations that the command `generate-metadata` calls.
pub record MetadataDriver (W : Type 0) : Type 0 where
  pub volumes : M W (List Str)
  pub volume_size : Str → M W ℤ
  pub volume_path : Str → M W Str
  pub write_volume_meta : Str → VolumeMeta → M W ⊤

-- The paths of the btrfs programs: `btrfs` and `mkfs.btrfs`.
unfoldable pub btrfs_programs : Config → Str × Str
unfolding join
btrfs_programs cfg = (
  join (cfg.btrfs_progs_path ∷ codes "btrfs" ∷ []),
  join (cfg.btrfs_progs_path ∷ codes "mkfs.btrfs" ∷ []),
)

unfoldable pub skip_tls_validation : Url → List Str → Bool
unfolding eqb
skip_tls_validation url [] = false
skip_tls_validation url (registry ∷ registries) =
    let rest = skip_tls_validation url registries in if eqb url.host registry then true else rest

-- A base image without a scheme is a local tar file.
unfoldable pub is_local : Url → Bool
unfolding eqb
is_local url = eqb url.scheme []

unfoldable pub skip_oci_checksum : Url → Create → Bool
unfolding eqb
skip_oci_checksum url cfg = cfg.skip_layer_validation && eqb url.scheme (codes "oci")

unfoldable pub validate_options : Bool → Bool → Result ⊤
validate_options with_clean without_clean =
    if with_clean && without_clean
    then err (Error.new (codes "with-clean and without-clean cannot be used together"))
    else ok tt

module _ {W : Type 0} (e : Environment W) where
  unfoldable pub parse_id_mappings : List Str → Result (List IdMappingSpec)
  parse_id_mappings [] = ok []
  parse_id_mappings (text ∷ texts) =
      let rest = parse_id_mappings texts in
      elim (e.scan_mapping text) [
        | err x ↦ err x
        | ok (namespace, host, size) ↦ elim rest [
          | err x ↦ err x
          | ok mappings ↦
              ok (record { host_id = host; namespace_id = namespace; size = size } ∷ mappings)
        ]
      ]

  -- The host's ids of an entry, as the second and the third of its parts; without them the code panics.
  unfoldable pub range_of : List Str → Result IdMappingSpec
  range_of (name ∷ first ∷ count ∷ parts) = elim (e.atoi first) [
    | err x ↦ err x
    | ok host ↦ elim (e.atoi count) [
      | err x ↦ err x
      | ok size ↦ ok (record { host_id = host; namespace_id = pos 1; size = size })
    ]
  ]
  range_of (name ∷ first ∷ []) = elim (e.atoi first) [ err x ↦ err x | ok _ ↦ err fatal ]
  range_of _ = err fatal

  -- The entries of a file of ranges that are the name's.
  unfoldable pub ranges_of : Str → List Str → Result (List IdMappingSpec)
  unfolding range_of eqb split_on first_part
  ranges_of name [] = ok []
  ranges_of name (line ∷ entries) =
      let rest = ranges_of name entries in
      if eqb (first_part b':' line) name
      then elim (range_of (split_on b':' line)) [
        | err x ↦ err x
        | ok range ↦ elim rest [ err x ↦ err x | ok ranges ↦ ok (range ∷ ranges) ]
      ]
      else rest

  unfoldable pub read_sub_id_mapping : Str → ℤ → Str → M W (List IdMappingSpec)
  unfolding ranges_of
  read_sub_id_mapping name id path = do
    contents ← e.os.read_file path
    ranges ← lift (ranges_of name (e.fields contents))
    pure (record { host_id = id; namespace_id = pos 0; size = pos 1 } ∷ ranges)

  unfoldable pub read_sub_uid_mapping : Str → M W (List IdMappingSpec)
  unfolding read_sub_id_mapping
  read_sub_uid_mapping username = do
    id ← e.user_id username
    read_sub_id_mapping username id (codes "/etc/subuid")

  unfoldable pub read_sub_gid_mapping : Str → M W (List IdMappingSpec)
  unfolding read_sub_id_mapping
  read_sub_gid_mapping groupname = do
    id ← e.group_id groupname
    read_sub_id_mapping groupname id (codes "/etc/subgid")

  -- Only an error that says so means that an image is not there.
  unfoldable pub image_exists : Str → W → Bool × W
  unfolding is_not_exist
  image_exists path w =
      let (r, w1) = e.os.stat path w in
      elim r [ ok _ ↦ (true, w1) | err x ↦ (not (is_not_exist x), w1) ]

  -- The id and the path of an image that is given by either.
  unfoldable pub id_and_path : Str → Str → Result (Str × Str)
  unfolding has_prefix join
  id_and_path store_path path_or_id =
      if not (has_prefix path_or_id (codes "/"))
      then ok (path_or_id, join (store_path ∷ image_dir_name ∷ path_or_id ∷ []))
      else elim (e.find_submatch (join (store_path ∷ image_dir_name ∷ codes "(.*)" ∷ []))
          path_or_id) [
            | none ↦
                err (Error.new (codes "path `" ++ (path_or_id ++ codes "` is outside store path")))
            | some id ↦ ok (id, path_or_id)
          ]

  unfoldable pub find_id : Str → Str → M W Str
  unfolding id_and_path image_exists
  find_id store_path path_or_id = do
    (id, path) ← lift (id_and_path store_path path_or_id)
    λ w.
        let (there, w1) = image_exists path w in
        if not there
        then (
          err (Error.new (codes "Image `" ++ (id ++ codes "` not found. Skipping delete."))),
          w1,
        )
        else (ok id, w1)

  unfoldable pub calculate_path_size : Str → M W ℤ
  unfolding first_part
  calculate_path_size path w =
      let (output, w1) = e.commands.run (codes "du") (codes "-bs" ∷ path ∷ []) w in
      elim output.ended [
        | err x ↦ (err (wrap x (codes "du failed: " ++ output.stderr)), w1)
        | ok _ ↦ (e.parse_int (first_part 9 output.stdout), w1)
      ]

  -- Metadata is written for a volume that has none.
  unfoldable pub add_metadata : MetadataDriver W → Str → M W ⊤
  unfolding calculate_path_size
  add_metadata d id = do
    path ← d.volume_path id
    size ← calculate_path_size path
    d.write_volume_meta id (record { size = size })

  unfoldable pub generate_one : MetadataDriver W → Str → M W ⊤
  unfolding add_metadata is_not_exist cause
  generate_one d id w =
      let (r, w1) = d.volume_size id w in
      elim r [
        | ok _ ↦ (ok tt, w1)
        | err x ↦ if is_not_exist (cause x) then add_metadata d id w1 else (ok tt, w1)
      ]

  unfoldable pub generate_metadata : MetadataDriver W → M W ⊤
  unfolding generate_one for_each
  generate_metadata d = do volumes ← d.volumes; for_each (generate_one d) volumes
