-- ===== src/Groot.antt =====
-- groot/groot.go and the spec of groot/creator.go: the data that the parts exchange, and their
-- interfaces, each a record of operations over the world `W`. A logger and a metrics emitter only
-- report, so no operation takes one.
pub mod Creator
pub mod Clean
pub mod Delete
pub mod Namespacer
pub mod Listing
use groot_btrfs.Base.{ℕ, Bool, List, Option}
use groot_btrfs.Base.Int.{ℤ}
use groot_btrfs.Base.Str.{Str}
use groot_btrfs.Base.Effect.{M, ⊤, Result}

-- `url.URL`: the parts that the program reads; `text` is `String()`.
pub record Url : Type 0 where
  pub scheme : Str
  pub host : Str
  pub path : Str
  pub text : Str

-- `specsv1.Image`: the parts that the program reads.
pub record OciImage : Type 0 where
  pub volumes : List Str
  pub env : List Str

pub record MountInfo : Type 0 where
  pub destination : Str
  pub type : Str
  pub source : Str
  pub options : List Str

pub record ImageInfo : Type 0 where
  pub rootfs : Str
  pub image : OciImage
  pub mounts : List MountInfo
  pub path : Str

pub record IdMappingSpec : Type 0 where
  pub host_id : ℤ
  pub namespace_id : ℤ
  pub size : ℤ

pub record IdMappings : Type 0 where
  pub uid_mappings : List IdMappingSpec
  pub gid_mappings : List IdMappingSpec

pub record BaseImageSpec : Type 0 where
  pub disk_limit : ℤ
  pub exclude_base_image_from_quota : Bool
  pub base_image_src : Url
  pub uid_mappings : List IdMappingSpec
  pub gid_mappings : List IdMappingSpec
  pub owner_uid : ℤ
  pub owner_gid : ℤ

pub record LayerInfo : Type 0 where
  pub blob_id : Str
  pub chain_id : Str
  pub diff_id : Str
  pub parent_chain_id : Str
  pub size : ℤ
  pub base_directory : Str
  pub urls : List Str
  pub media_type : Str

pub record BaseImageInfo : Type 0 where
  pub layer_infos : List LayerInfo
  pub config : OciImage

pub record ImageSpec : Type 0 where
  pub id : Str
  pub mount : Bool
  pub disk_limit : ℤ
  pub exclude_base_image_from_quota : Bool
  pub base_volume_ids : List Str
  pub base_image : OciImage
  pub owner_uid : ℤ
  pub owner_gid : ℤ

pub record DiskUsage : Type 0 where
  pub total_bytes_used : ℤ
  pub exclusive_bytes_used : ℤ

pub record VolumeStats : Type 0 where
  pub disk_usage : DiskUsage

pub record CreateSpec : Type 0 where
  pub id : Str
  pub base_image_url : Url
  pub disk_limit : ℤ
  pub mount : Bool
  pub exclude_base_image_from_quota : Bool
  pub clean_on_create : Bool
  pub clean_on_create_threshold_bytes : ℤ
  pub uid_mappings : List IdMappingSpec
  pub gid_mappings : List IdMappingSpec

-- An open file, by its descriptor.
abbrev pub File : Type 0
File = ℕ

pub record BaseImagePuller (W : Type 0) : Type 0 where
  pub fetch_base_image_info : BaseImageSpec → M W BaseImageInfo
  pub pull : BaseImageInfo → BaseImageSpec → M W ⊤

pub record ImageCloner (W : Type 0) : Type 0 where
  pub exists : Str → M W Bool
  pub create : ImageSpec → M W ImageInfo
  pub destroy : Str → M W ⊤
  pub stats : Str → M W VolumeStats

pub record DependencyManager (W : Type 0) : Type 0 where
  pub register : Str → List Str → M W ⊤
  pub deregister : Str → M W ⊤

pub record GarbageCollector (W : Type 0) : Type 0 where
  pub unused_volumes : List Str → M W (List Str)
  pub mark_unused : List Str → M W ⊤
  pub collect : M W ⊤

pub record StoreMeasurer (W : Type 0) : Type 0 where
  pub usage : M W ℤ
  pub cache_usage : List Str → W → ℤ × W

pub record Locksmith (W : Type 0) : Type 0 where
  pub lock : Str → M W File
  pub unlock : File → M W ⊤

-- groot/cleaner.go: the Boolean is returned beside the error, and says that nothing was cleaned.
pub record Cleaner (W : Type 0) : Type 0 where
  pub clean : ℤ → List Str → W → (Bool × Result ⊤) × W
