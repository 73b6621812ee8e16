-- ===== src/Config.antt =====
-- commands/config/builder.go. The `yaml` package is a parameter: what it makes of the file's text.
use groot_btrfs.Base.{Bool, true, false, not, ◌||◌, List, [], ◌∷◌, if◌then◌else◌}
use groot_btrfs.Base.Int.{ℤ, pos, ltb_ℤ}
use groot_btrfs.Base.Str.{Str, codes, eqb}
use groot_btrfs.Base.Effect.{M, Error, Result, ok, err, wrap, wrapping, ◌>>=◌}
use groot_btrfs.Base.Os.{Os}
pub mod Laws

pub record Create : Type 0 where
  pub exclude_image_from_quota : Bool
  pub skip_layer_validation : Bool
  pub with_clean : Bool
  pub without_mount : Bool
  pub disk_limit_size_bytes : ℤ
  pub insecure_registries : List Str
  pub remote_layer_client_certificates_path : Str

pub record Clean : Type 0 where
  pub threshold_bytes : ℤ

pub record Init : Type 0 where
  pub store_size_bytes : ℤ
  pub owner_user : Str
  pub owner_group : Str

pub record Config : Type 0 where
  pub store_path : Str
  pub drax_bin : Str
  pub btrfs_progs_path : Str
  pub newuidmap_bin : Str
  pub newgidmap_bin : Str
  pub metron_endpoint : Str
  pub log_level : Str
  pub log_file : Str
  pub create : Create
  pub clean : Clean
  pub init : Init

abbrev pub zero_create : Create
zero_create = record {
  exclude_image_from_quota = false;
  skip_layer_validation = false;
  with_clean = false;
  without_mount = false;
  disk_limit_size_bytes = pos 0;
  insecure_registries = [];
  remote_layer_client_certificates_path = [];
}

-- `Config{}`
abbrev pub zero_config : Config
zero_config = record {
  store_path = [];
  drax_bin = [];
  btrfs_progs_path = [];
  newuidmap_bin = [];
  newgidmap_bin = [];
  metron_endpoint = [];
  log_level = [];
  log_file = [];
  create = zero_create;
  clean = record { threshold_bytes = pos 0 };
  init = record { store_size_bytes = pos 0; owner_user = []; owner_group = [] };
}

module _ {W : Type 0} (os : Os W) (unmarshal : Str → Result Config) where
  unfoldable pub load : Str → M W Config
  load config_path w =
      let (r, w1) = os.read_file config_path w in
      elim r [
        | err e ↦ (err (wrap e (codes "invalid config path")), w1)
        | ok content ↦ elim (unmarshal content) [
          | err e ↦ (err (wrap e (codes "invalid config file")), w1)
          | ok config ↦ (ok config, w1)
        ]
      ]

  unfoldable pub new_builder : Str → M W Config
  unfolding load
  new_builder path_to_yaml w =
      if eqb path_to_yaml [] then (ok zero_config, w) else load path_to_yaml w

unfoldable pub build : Config → Result Config
build c =
    if ltb_ℤ c.create.disk_limit_size_bytes (pos 0)
    then err (Error.new (codes "invalid argument: disk limit cannot be negative"))
    else if ltb_ℤ c.clean.threshold_bytes (pos 0)
    then err (Error.new (codes "invalid argument: clean threshold cannot be negative"))
    else ok c

unfoldable pub with_insecure_registries : List Str → Config → Config
with_insecure_registries [] c = c
with_insecure_registries (r ∷ rs) c = record c {
  create = record (c.create) { insecure_registries = r ∷ rs };
}

unfoldable pub with_store_path : Str → Bool → Config → Config
with_store_path store_path is_set c =
    if is_set || eqb c.store_path [] then record c { store_path = store_path } else c

unfoldable pub with_drax_bin : Str → Bool → Config → Config
with_drax_bin drax_bin is_set c =
    if is_set || eqb c.drax_bin [] then record c { drax_bin = drax_bin } else c

unfoldable pub with_newuidmap_bin : Str → Bool → Config → Config
with_newuidmap_bin newuidmap_bin is_set c =
    if is_set || eqb c.newuidmap_bin [] then record c { newuidmap_bin = newuidmap_bin } else c

unfoldable pub with_newgidmap_bin : Str → Bool → Config → Config
with_newgidmap_bin newgidmap_bin is_set c =
    if is_set || eqb c.newgidmap_bin [] then record c { newgidmap_bin = newgidmap_bin } else c

unfoldable pub with_btrfs_progs_path : Str → Bool → Config → Config
with_btrfs_progs_path btrfs_progs_path is_set c =
    if is_set || eqb c.btrfs_progs_path []
    then record c { btrfs_progs_path = btrfs_progs_path }
    else c

unfoldable pub with_metron_endpoint : Str → Config → Config
with_metron_endpoint metron_endpoint c =
    if eqb metron_endpoint [] then c else record c { metron_endpoint = metron_endpoint }

unfoldable pub with_disk_limit_size_bytes : ℤ → Bool → Config → Config
with_disk_limit_size_bytes limit is_set c =
    if is_set then record c { create = record (c.create) { disk_limit_size_bytes = limit } } else c

unfoldable pub with_exclude_image_from_quota : Bool → Bool → Config → Config
with_exclude_image_from_quota exclude is_set c =
    if is_set
    then record c { create = record (c.create) { exclude_image_from_quota = exclude } }
    else c

unfoldable pub with_skip_layer_validation : Bool → Bool → Config → Config
with_skip_layer_validation skip is_set c =
    if is_set then record c { create = record (c.create) { skip_layer_validation = skip } } else c

unfoldable pub with_clean_threshold_bytes : ℤ → Bool → Config → Config
with_clean_threshold_bytes threshold is_set c =
    if is_set then record c { clean = record { threshold_bytes = threshold } } else c

unfoldable pub with_log_level : Str → Bool → Config → Config
with_log_level level is_set c = if is_set then record c { log_level = level } else c

unfoldable pub with_log_file : Str → Config → Config
with_log_file path c = if eqb path [] then c else record c { log_file = path }

unfoldable pub set_clean : Bool → Config → Config
set_clean value c = record c { create = record (c.create) { with_clean = value } }

unfoldable pub with_clean : Bool → Bool → Config → Config
unfolding set_clean
with_clean clean no_clean c =
    let c1 = if clean then set_clean true c else c in if no_clean then set_clean false c1 else c1

unfoldable pub set_without_mount : Bool → Config → Config
set_without_mount value c = record c { create = record (c.create) { without_mount = value } }

unfoldable pub with_mount : Bool → Bool → Config → Config
unfolding set_without_mount
with_mount mount no_mount c =
    let c1 = if mount then set_without_mount false c else c in
    if no_mount then set_without_mount true c1 else c1

unfoldable pub with_store_size_bytes : ℤ → Config → Config
with_store_size_bytes size c = record c { init = record (c.init) { store_size_bytes = size } }

-- The flags of the command `create` that reach the builder: a value with whether it is set.
pub record CreateFlags : Type 0 where
  pub insecure_registry : List Str
  pub disk_limit_size_bytes : ℤ × Bool
  pub exclude_image_from_quota : Bool × Bool
  pub skip_layer_validation : Bool × Bool
  pub threshold_bytes : ℤ × Bool
  pub with_clean : Bool
  pub without_clean : Bool
  pub with_mount : Bool
  pub without_mount : Bool

-- The chain of builder calls of the command `create`.
unfoldable pub flagged : CreateFlags → Config → Config
flagged f c0 =
    let c1 = with_insecure_registries f.insecure_registry c0 in
    let c2 = with_disk_limit_size_bytes f.disk_limit_size_bytes.0 f.disk_limit_size_bytes.1 c1 in
    let c3 =
      with_exclude_image_from_quota f.exclude_image_from_quota.0 f.exclude_image_from_quota.1 c2 in
    let c4 = with_skip_layer_validation f.skip_layer_validation.0 f.skip_layer_validation.1 c3 in
    let c5 = with_clean_threshold_bytes f.threshold_bytes.0 f.threshold_bytes.1 c4 in
    with_mount f.with_mount f.without_mount (with_clean f.with_clean f.without_clean c5)

-- The configuration that `create` works with, if `Build` accepts it.
unfoldable pub create_config : CreateFlags → Config → Result Config
unfolding build flagged
create_config f c = build (flagged f c)
