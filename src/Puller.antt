-- ===== src/Puller.antt =====
-- base_image_puller/base_image_puller.go: pulling the layers of a base image into volumes.
--
-- The layers are built from the top one down: `build_layer` takes the layer at `index` and the ones
-- below it as a list, the top first, and the empty list is an `index` below 0. The goroutine that
-- downloads a layer shares nothing with the store but the stream that it hands over, so its work is
-- done where it is started; its result is read where the code reads the channel.
pub mod BaseDirectory
pub mod Store
pub mod Steps
pub mod Unpack
pub mod Layers
pub mod Closed
pub mod Quota
use groot_btrfs.Base.{◌&&◌, ◌||◌, Bool, true, false, not, List, [], ◌∷◌, ◌++◌, if◌then◌else◌}
use groot_btrfs.Base.Int.{ℤ, pos, ltb_ℤ, eqb_ℤ, add64}
use groot_btrfs.Base.Str.{Str, codes, eqb, replace_first}
use groot_btrfs.Base.Decimal.{itoa}
use groot_btrfs.Base.FilePath.{base}
use groot_btrfs.Base.Os.{Os}
use groot_btrfs.Base.Effect.{
  M, ⊤, Error, Result, ok, err, wrap, pure, raise, ◌>>=◌, ◌>>◌, wrapping, deferring, ignoring,
}
use groot_btrfs.Groot.{Url, IdMappingSpec, LayerInfo, BaseImageInfo, BaseImageSpec, File, Locksmith}
use mathlib.Core.List.{reverse}
use BaseDirectory.{ensure_base_directory_exists}

pub record UnpackSpec (Stream : Type 0) : Type 0 where
  pub stream : Stream
  pub target_path : Str
  pub uid_mappings : List IdMappingSpec
  pub gid_mappings : List IdMappingSpec
  pub base_directory : Str

pub record VolumeMeta : Type 0 where
  pub size : ℤ

pub record UnpackOutput : Type 0 where
  pub bytes_written : ℤ
  pub opaque_whiteouts : List Str

pub record Fetcher (W Stream : Type 0) : Type 0 where
  pub base_image_info : Url → M W BaseImageInfo
  pub stream_blob : Url → LayerInfo → M W (Stream × ℤ)

pub record VolumeDriver (W : Type 0) : Type 0 where
  pub volume_path : Str → M W Str
  pub create_volume : Str → Str → M W Str
  pub destroy_volume : Str → M W ⊤
  pub volumes : M W (List Str)
  pub move_volume : Str → Str → M W ⊤
  pub write_volume_meta : Str → VolumeMeta → M W ⊤
  pub handle_opaque_whiteouts : Str → List Str → M W ⊤

-- The puller, with what it takes from its surroundings: closing a stream, `time.Now().UnixNano()`
-- and `rand.Int()`.
pub record BaseImagePuller (W Stream : Type 0) : Type 0 where
  pub fetcher : Fetcher W Stream
  pub unpack : UnpackSpec Stream → M W UnpackOutput
  pub volume_driver : VolumeDriver W
  pub locksmith : Locksmith W
  pub os : Os W
  pub close : Stream → M W ⊤
  pub unix_nano : W → ℤ × W
  pub rand_int : W → ℤ × W

-- `totalSize += layerInfo.Size` in 64 bits.
unfoldable pub layers_size_onto : ℤ → List LayerInfo → ℤ
layers_size_onto total [] = total
layers_size_onto total (info ∷ infos) = layers_size_onto (add64 total info.size) infos

unfoldable pub layers_size : List LayerInfo → ℤ
unfolding layers_size_onto
layers_size infos = layers_size_onto (pos 0) infos

unfoldable pub quota_exceeded : List LayerInfo → BaseImageSpec → Result ⊤
unfolding layers_size
quota_exceeded infos spec =
    if spec.exclude_base_image_from_quota || eqb_ℤ spec.disk_limit (pos 0)
    then ok tt
    else if ltb_ℤ spec.disk_limit (layers_size infos)
    then err (
        Error.new (
          codes "layers exceed disk quota "
          ++ (itoa (layers_size infos) ++ (codes "/" ++ (itoa spec.disk_limit ++ codes " bytes")))))
    else ok tt

-- The zero value of `groot.LayerInfo`.
abbrev pub no_layer : LayerInfo
no_layer = record {
  blob_id = [];
  chain_id = [];
  diff_id = [];
  parent_chain_id = [];
  size = pos 0;
  base_directory = [];
  urls = [];
  media_type = [];
}

-- `layerInfos[index-1]`, if there is one.
abbrev pub parent_layer : List LayerInfo → LayerInfo
parent_layer [] = no_layer
parent_layer (parent ∷ _) = parent

module _ {W Stream : Type 0} (p : BaseImagePuller W Stream) where
  unfoldable pub volume_exists : Str → W → Bool × W
  volume_exists chain_id w =
      let (r, w1) = p.volume_driver.volume_path chain_id w in
      elim r [ ok _ ↦ (true, w1) | err _ ↦ (false, w1) ]

  unfoldable pub download_layer : BaseImageSpec → LayerInfo → W → Result Stream × W
  download_layer spec info w =
      let (r, w1) = p.fetcher.stream_blob spec.base_image_src info w in
      elim r [
        | ok (stream, size) ↦ (ok stream, w1)
        | err e ↦ (err (wrap e (codes "streaming blob `" ++ (info.blob_id ++ codes "`"))), w1)
      ]

  -- `<chain id>-incomplete-<time>-<random number>`
  unfoldable pub temp_volume_name : LayerInfo → ℤ → ℤ → Str
  temp_volume_name info nano random =
      info.chain_id ++ (codes "-incomplete-" ++ (itoa nano ++ (codes "-" ++ itoa random)))

  unfoldable pub chown_volume : BaseImageSpec → Str → M W ⊤
  chown_volume spec path =
      if not (eqb_ℤ spec.owner_uid (pos 0)) || not (eqb_ℤ spec.owner_gid (pos 0))
      then wrapping
          (codes "changing volume ownership to "
            ++ (itoa spec.owner_uid ++ (codes ":" ++ itoa spec.owner_gid)))
          (p.os.chown path spec.owner_uid spec.owner_gid)
      else pure tt

  -- The name and the path of the new volume.
  unfoldable pub create_temporary_volume_directory : LayerInfo → BaseImageSpec → M W (Str × Str)
  unfolding temp_volume_name chown_volume
  create_temporary_volume_directory info spec w =
      let (nano, w1) = p.unix_nano w in
      let (random, w2) = p.rand_int w1 in
      let name = temp_volume_name info nano random in
      (do
        path ←
            wrapping (codes "creating volume for layer `" ++ (info.blob_id ++ codes "`"))
              (p.volume_driver.create_volume info.parent_chain_id name)
        chown_volume spec path
        pure (name, path))
        w2

  -- The directories of the layer's base directory, taken from the parent's volume.
  unfoldable pub prepare_base_directory : UnpackSpec Stream → LayerInfo → M W ⊤
  unfolding ensure_base_directory_exists
  prepare_base_directory unpack_spec parent =
      if eqb unpack_spec.base_directory [] then pure tt else (do
        parent_path ← p.volume_driver.volume_path parent.chain_id
        ensure_base_directory_exists p.os unpack_spec.base_directory unpack_spec.target_path
            parent_path)

  -- `p.unpacker.Unpack`, and on failure the volume named by the chain id is destroyed.
  unfoldable pub unpack_or_destroy : UnpackSpec Stream → LayerInfo → M W UnpackOutput
  unpack_or_destroy unpack_spec info w =
      let (r, w1) = p.unpack unpack_spec w in
      elim r [
        | ok output ↦ (ok output, w1)
        | err e ↦
            let (_, w2) = p.volume_driver.destroy_volume info.chain_id w1 in
            (err (wrap e (codes "unpacking layer `" ++ (info.blob_id ++ codes "`"))), w2)
      ]

  unfoldable pub unpack_layer_to_temporary_directory :
      UnpackSpec Stream → LayerInfo → LayerInfo → M W ℤ
  unfolding prepare_base_directory unpack_or_destroy
  unpack_layer_to_temporary_directory unpack_spec info parent = do
    prepare_base_directory unpack_spec parent
    output ← unpack_or_destroy unpack_spec info
    wrapping (codes "handling opaque whiteouts") (
        p.volume_driver.handle_opaque_whiteouts (base unpack_spec.target_path)
          output.opaque_whiteouts)
    pure output.bytes_written

  unfoldable pub finalize_volume : Str → Str → Str → ℤ → M W ⊤
  finalize_volume temp_name path chain_id size = do
    wrapping (codes "writing volume `" ++ (chain_id ++ codes "` metadata"))
        (p.volume_driver.write_volume_meta chain_id (record { size = size }))
    wrapping (codes "failed to move volume to its final location")
        (p.volume_driver.move_volume path (replace_first path temp_name chain_id))

  -- The second half of `unpackLayer`: the temporary volume is filled, and moved to its place.
  unfoldable pub fill_volume : LayerInfo → LayerInfo → BaseImageSpec → Stream → Str → Str → M W ⊤
  unfolding unpack_layer_to_temporary_directory finalize_volume
  fill_volume info parent spec stream temp_name path = do
    size ←
        unpack_layer_to_temporary_directory
          (record {
            stream = stream;
            target_path = path;
            uid_mappings = spec.uid_mappings;
            gid_mappings = spec.gid_mappings;
            base_directory = info.base_directory;
          })
          info parent
    finalize_volume temp_name path info.chain_id size

  unfoldable pub unpack_layer : LayerInfo → LayerInfo → BaseImageSpec → Stream → M W ⊤
  unfolding create_temporary_volume_directory fill_volume
  unpack_layer info parent spec stream = do
    (temp_name, path) ← create_temporary_volume_directory info spec
    fill_volume info parent spec stream temp_name path

  -- What is done once the layers below are built: the download is awaited, and unpacked.
  unfoldable pub unpack_download : LayerInfo → LayerInfo → BaseImageSpec → Result Stream → M W ⊤
  unfolding unpack_layer
  unpack_download info parent spec (err e) = raise e
  unpack_download info parent spec (ok stream) =
      deferring (p.close stream) (unpack_layer info parent spec stream)

  -- What runs under the layer's lock; `build_below` is the recursive call.
  unfoldable pub build_locked : BaseImageSpec → LayerInfo → LayerInfo → M W ⊤ → M W ⊤
  unfolding volume_exists download_layer unpack_download
  build_locked spec info parent build_below w =
      let (found, w1) = volume_exists info.chain_id w in
      if found
      then (ok tt, w1)
      else (let (download, w2) = download_layer spec info w1 in
          (build_below >> unpack_download info parent spec download) w2)

  unfoldable pub build_one : BaseImageSpec → LayerInfo → LayerInfo → M W ⊤ → M W ⊤
  unfolding volume_exists build_locked
  build_one spec info parent build_below w =
      let (found, w1) = volume_exists info.chain_id w in
      if found
      then (ok tt, w1)
      else (do
        lock_file ← wrapping (codes "acquiring lock") (p.locksmith.lock info.chain_id)
        deferring (p.locksmith.unlock lock_file) (build_locked spec info parent build_below))
          w1

  unfoldable pub build_layer : BaseImageSpec → List LayerInfo → M W ⊤
  unfolding build_one
  build_layer spec [] = pure tt
  build_layer spec (info ∷ below) =
      build_one spec info (parent_layer below) (build_layer spec below)

  unfoldable pub fetch_base_image_info : BaseImageSpec → M W BaseImageInfo
  fetch_base_image_info spec = p.fetcher.base_image_info spec.base_image_src

  unfoldable pub pull : BaseImageInfo → BaseImageSpec → M W ⊤
  unfolding quota_exceeded build_layer
  pull info spec w = elim (quota_exceeded info.layer_infos spec) [
    | err e ↦ (err e, w)
    | ok _ ↦ build_layer spec (reverse info.layer_infos) w
  ]
