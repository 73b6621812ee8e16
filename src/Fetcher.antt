-- ===== src/Fetcher.antt =====
-- fetcher/layer_fetcher/layer_fetcher.go. The source of manifests and blobs, the image library that
-- reads a manifest, the reader of a blob's file, and the hash of package `crypto/sha256`, in
-- hexadecimal, are parameters.
pub mod Laws
pub mod Source
pub mod Local
use groot_btrfs.Base.{List, [], ◌∷◌, ◌++◌, Option, none, some, if◌then◌else◌, ◌==◌}
use groot_btrfs.Base.Int.{ℤ, pos}
use groot_btrfs.Base.Str.{Str, codes, eqb}
use groot_btrfs.Base.Effect.{M, Error, Result, ok, err, fatal, pure, lift, ◌>>=◌, wrapping}
use groot_btrfs.Groot.{Url, OciImage, LayerInfo, BaseImageInfo}

-- `types.BlobInfo`: the parts that the program reads.
pub record BlobInfo : Type 0 where
  pub digest : Str
  pub size : ℤ
  pub annotations : List (Str × Str)
  pub urls : List Str
  pub media_type : Str

-- A manifest with its configuration, and the digests of the uncompressed layers.
pub record Manifest : Type 0 where
  pub layer_infos : List BlobInfo
  pub oci_config : Result (OciImage × List Str)

-- `hex` is `Digest.Hex`, which panics on some texts.
pub record LayerFetcher (W Stream : Type 0) : Type 0 where
  pub manifest : Url → M W Manifest
  pub blob : Url → LayerInfo → M W (Str × ℤ)
  pub new_blob_reader : Str → M W Stream
  pub hex : Str → Result Str
  pub hex_sha256 : Str → Str

-- `cfBaseDirectoryAnnotation`
abbrev pub base_directory_annotation : Str
base_directory_annotation = codes "org.cloudfoundry.experimental.image.base-directory"

-- The value of a key of a map, or the empty string.
unfoldable pub value_of : List (Str × Str) → Str → Str
unfolding eqb
value_of [] key = []
value_of ((k, value) ∷ entries) key = if eqb k key then value else value_of entries key

unfoldable pub up_to_colon : Str → Str
up_to_colon [] = []
up_to_colon (c ∷ s) = let rest = up_to_colon s in if c == b':' then [] else c ∷ rest

-- `strings.Split(s, ":")[1]`, if there is a colon.
unfoldable pub second_part : Str → Option Str
unfolding up_to_colon
second_part [] = none
second_part (c ∷ s) = let rest = second_part s in if c == b':' then some (up_to_colon s) else rest

-- The part of a diff id that the chain id is made from; without a colon the code panics.
unfoldable pub diff_part : Str → Result Str
unfolding second_part eqb
diff_part diff_id =
    if eqb diff_id []
    then ok []
    else elim (second_part diff_id) [ none ↦ err fatal | some part ↦ ok part ]

module _ {W Stream : Type 0} (f : LayerFetcher W Stream) where
  unfoldable pub chain_id_of : Str → Str → Str
  unfolding eqb
  chain_id_of part parent_chain_id =
      if eqb parent_chain_id [] then part else f.hex_sha256 (parent_chain_id ++ (codes " " ++ part))

  unfoldable pub chain_id : Str → Str → Result Str
  unfolding diff_part chain_id_of
  chain_id diff_id parent_chain_id = elim (diff_part diff_id) [
    | err e ↦ err e
    | ok part ↦ ok (chain_id_of part parent_chain_id)
  ]

  unfoldable pub layer_info : BlobInfo → Str → Str → Str → Result LayerInfo
  unfolding value_of
  layer_info layer diff_id chain parent_chain_id = elim (f.hex diff_id) [
    | err e ↦ err e
    | ok hex ↦ ok (record {
      blob_id = layer.digest;
      chain_id = chain;
      diff_id = hex;
      parent_chain_id = parent_chain_id;
      size = layer.size;
      base_directory = value_of layer.annotations base_directory_annotation;
      urls = layer.urls;
      media_type = layer.media_type;
    })
  ]

  -- The loop from a layer on; with more layers than diff ids the code panics.
  unfoldable pub layer_infos_from : Str → List BlobInfo → List Str → Result (List LayerInfo)
  unfolding chain_id layer_info
  layer_infos_from parent_chain_id [] diff_ids = ok []
  layer_infos_from parent_chain_id (layer ∷ layers) [] = err fatal
  layer_infos_from parent_chain_id (layer ∷ layers) (diff_id ∷ diff_ids) =
      elim (chain_id diff_id parent_chain_id) [
        | err e ↦ err e
        | ok chain ↦ elim (layer_info layer diff_id chain parent_chain_id) [
          | err e ↦ err e
          | ok info ↦ elim (layer_infos_from chain layers diff_ids) [
            | err e ↦ err e
            | ok infos ↦ ok (info ∷ infos)
          ]
        ]
      ]

  unfoldable pub create_layer_infos : List BlobInfo → List Str → Result (List LayerInfo)
  unfolding layer_infos_from
  create_layer_infos = layer_infos_from []

  unfoldable pub base_image_info : Url → M W BaseImageInfo
  unfolding create_layer_infos
  base_image_info base_image_url = do
    manifest ← f.manifest base_image_url
    config ← lift manifest.oci_config
    infos ← lift (create_layer_infos manifest.layer_infos config.1)
    pure (record { layer_infos = infos; config = config.0 })

  unfoldable pub stream_blob : Url → LayerInfo → M W (Stream × ℤ)
  stream_blob base_image_url info = do
    blob ← f.blob base_image_url info
    reader ← wrapping (codes "opening stream from temporary blob file") (f.new_blob_reader blob.0)
    pure (reader, blob.1)
